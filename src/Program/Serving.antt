-- ===== src/Program/Serving.antt =====
-- A client that sends whole packets, in the program as a whole.
use sled_server.Common.{ℕ, ◌≡◌, false, some, List, [], ◌∷◌}
use sled_server.Common.Int.{ℤ}
use sled_server.Common.Outcome.{Outcome}
use sled_server.Parser.{parse}
use sled_server.Parser.Lexer.{lex}
use sled_server.Rtc3d.{connected}
use sled_server.Server.{Server}
use sled_server.Server.Staying.{asks_bye}
use sled_server.Tcp.{NetServer}
use sled_server.Program.{Program, Env, local_at}
use sled_server.Program.Coupling.{IsCoupled}

-- None of the texts is the command that disconnects, whatever the stack holds.
abbrev pub AllStaying : Env → List (List ℕ) → Type 0
AllStaying env [] = ℕ
AllStaying env (text ∷ texts) =
    ((u : Server) → asks_bye (parse env.tools (lex env.tools text) (env.memory u)) ≡ false)
    × AllStaying env texts

-- The program is in order, and the descriptor's connection waits for a packet.
abbrev pub IsServed : ℤ → NetServer Program → Type 0
IsServed fd t = IsCoupled t × (local_at fd t.user.local ≡ some connected)
