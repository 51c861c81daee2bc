-- ===== src/Scenarios/ParserRuns.antt =====
-- Tests of the scanner and the parser, and of the answers to whole texts.
use sled_server.Common.{◌≡◌, refl, ℕ, none, some, List, [], ◌∷◌}
use sled_server.Common.Int.{pos}
use sled_server.Profile.{absolute, no_blend, create, set_target, set_table, set_next}
use sled_server.Parser.{CommandType, Token, parse}
use sled_server.Parser.Lexer.{ascii, lex}
use sled_server.Server.{
  Server, Reply, command_handler, obey_type, profile_set, tlate_profile_id, set_profile,
  set_next_profile,
}
use sled_server.Common.Outcome.{Outcome, running}
use sled_server.Sled
use sled_server.Net
use sled_server.Sdo
use sled_server.Sled.Reach.{assembled}
use sled_server.Api.{sled_create, registered}
use sled_server.Scenarios.ServerRuns.{tools, math, garbage, server}
use sled_server.Scenarios.ProfileRuns.{fpu}

-- The tools of these runs read a number as its length.
set_read :
    lex tools (ascii "Profile 3 SET table 12 abs -.5 4 next 6")
    ≡ Token.profile
      ∷ Token.int (pos 1)
      ∷ Token.set
      ∷ Token.table
      ∷ Token.int (pos 2)
      ∷ Token.postype absolute
      ∷ Token.float 3
      ∷ Token.int (pos 1)
      ∷ Token.next
      ∷ Token.int (pos 1)
      ∷ []
unfolding lex
set_read = refl

-- The delay is what the memory held.
next_without_delay :
    parse tools (lex tools (ascii "profile 3 set table 12 abs -.5 4 next 6")) garbage
    ≡ some (record garbage {
      type = CommandType.cmd_profile_set;
      profile = pos 1;
      table = pos 2;
      position_type = absolute;
      position = 3;
      time = 0;
      next_profile = pos 1;
      blend_type = no_blend;
    })
unfolding lex parse
next_without_delay = refl

-- No rule makes the token that the grammar has for this word.
no_status : parse tools (lex tools (ascii "sendstatus")) garbage ≡ none
unfolding lex parse
no_status = refl

half_a_sentence : parse tools (lex tools (ascii "sinusoid start 1")) garbage ≡ none
unfolding lex parse
half_a_sentence = refl

abbrev answers : Outcome Server → List (ℕ × Reply)
answers (running s) = s.sent
answers _ = []

-- A position that is out of bounds is refused and set.
refused_and_set :
    answers
      (command_handler tools fpu math 7 garbage (ascii "profile 3 set table 12 abs .5 4") server)
    ≡ (7, Reply.error (ascii "err-profile-set")) ∷ (7, Reply.command (ascii "ok-profile-set")) ∷ []
unfolding lex parse command_handler obey_type profile_set tlate_profile_id set_profile
    set_next_profile sled_create registered set_target set_table set_next create Sled.handle_event
    assembled Net.handle_event Sdo.handle_event
refused_and_set = refl
