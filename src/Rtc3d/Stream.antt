-- ===== src/Rtc3d/Stream.antt =====
-- Whole streams of commands through librtc3d/rtc3d.cc, however the network cuts them.
use mathlib.Core.List.{append_assoc}
use sled_server.Common.{
  if◌then◌else◌, true, false, ℕ, suc, ◌+◌, ◌<◌, ◌≤◌, ◌≡◌, refl, sym, ap, ◌∙◌, Bool, true, ◌&&◌, ltb,
  List, [], ◌∷◌, ◌++◌, length, arith,
}
use sled_server.Common.Outcome.{fault, Outcome, running, ◌>>=◌, bind_assoc, bind_cong}
use sled_server.Rtc3d.Memory.{is_text}
use sled_server.Rtc3d.{
  Connection, Host, connected, htonl, send_command, malloc, complete, read_byte, read_handler,
}
use sled_server.Rtc3d.Framing.{
  announced_connection, header_read, IsLoading, payload_read, packet_command,
}

-- A command that the protocol carries: a text whose packet has a payload of at most 255 bytes.
abbrev pub is_carried : List ℕ → Bool
is_carried text = is_text text && ltb (length text) 252

-- What `malloc` is asked for is small.
abbrev pub IsGenerous : {U : Type 0} → Host U → Type 0
IsGenerous host = (n : ℕ) → n ≤ 256 → host.grants n ≡ true

announced-IsLoading :
    {U : Type 0}
    → (host : Host U) (announced n : ℕ) → IsGenerous host
    → announced ≡ 4 + n
    → n < 256
    → IsLoading (announced_connection host announced) [] n
unfolding malloc
announced-IsLoading host announced n g e h = record {
  header_done = refl;
  due = omega (arith, e, h);
  whole = omega (arith, e, h);
  room = ground (arith, e, g (suc n) (omega (arith, h)));
  contents = tt;
}

-- The command handler, and the connection used again after it.
abbrev pub obey : {U : Type 0} → Host U → List ℕ → U → Outcome U
obey host text u = host.command text u >>= λ v. if host.is_connected v then running v else fault

after_command :
    {U B : Type 0}
    → (b : Bool) (v : U) (f : Connection × U → Outcome B)
    → ((if b then running (connected, v) else fault) >>= f)
      ≡ ((if b then running v else fault) >>= λ w. f (connected, w))
after_command true v f = refl
after_command false v f = refl

-- On a fresh connection, one packet with a command hands it to the command handler and leaves the
-- connection fresh for the bytes behind it.
pub command_read :
    {U : Type 0}
    → (host : Host U) (text rest : List ℕ) (u : U) → IsGenerous host
    → is_carried text ≡ true
    → read_handler host (send_command text ++ rest) connected u
      ≡ obey host text u >>= λ v. read_handler host rest connected v
unfolding send_command htonl complete
command_read {U} host text rest u g t =
    let n = 8 + length text in
    let m = host.command text u in
    let back : U → Outcome (Connection × U) =
      λ v. if host.is_connected v then running (connected, v) else fault in
    let go_on : Connection × U → Outcome (Connection × U) = λ r. read_handler host rest r.0 r.1 in
    let small : length text < 252 = ground (arith, t) in
    let (d, (l, e)) =
      payload_read host 0 (0 ∷ 0 ∷ 1 ∷ text) [] rest (announced_connection host n) u
        (announced-IsLoading host n _ g (omega arith) (omega (arith, small))) in
    ap (λ bytes. read_handler host bytes connected u)
      (append_assoc (htonl n) (htonl 1 ++ text) rest)
    ∙ header_read host n ((htonl 1 ++ text) ++ rest) u (omega (arith, small))
    ∙ e
    ∙ ap (λ o. o >>= back >>= go_on) (packet_command host text d u (ground (arith, t)) l)
    ∙ bind_assoc m back go_on
    ∙ bind_cong m _ _ (λ v. after_command (host.is_connected v) v go_on)
    ∙ sym (bind_assoc m _ _)

abbrev pub frames : List (List ℕ) → List ℕ
frames [] = []
frames (text ∷ texts) = send_command text ++ frames texts

abbrev pub all_carried : List (List ℕ) → Bool
all_carried [] = true
all_carried (text ∷ texts) = is_carried text && all_carried texts

abbrev pub run_commands : {U : Type 0} → Host U → List (List ℕ) → U → Outcome U
run_commands host [] u = running u
run_commands host (text ∷ texts) u = obey host text u >>= run_commands host texts

-- The network delivers a stream in chunks.
abbrev pub read_chunks :
    {U : Type 0} → Host U → List (List ℕ) → Connection → U → Outcome (Connection × U)
read_chunks host [] c u = running (c, u)
read_chunks host (chunk ∷ chunks) c u =
    read_handler host chunk c u >>= λ r. read_chunks host chunks r.0 r.1

abbrev pub joined : List (List ℕ) → List ℕ
joined [] = []
joined (chunk ∷ chunks) = chunk ++ joined chunks

read_handler-append :
    {U : Type 0}
    → (host : Host U) (xs ys : List ℕ) (c : Connection) (u : U)
    → read_handler host (xs ++ ys) c u
      ≡ read_handler host xs c u >>= λ r. read_handler host ys r.0 r.1
unfolding read_handler
read_handler-append host [] ys c u = refl
read_handler-append host (x ∷ xs) ys c u =
    bind_cong (read_byte host x c u) _ _ (λ r. read_handler-append host xs ys r.0 r.1)
    ∙ sym (bind_assoc (read_byte host x c u) _ _)

-- How the network cuts a stream makes no difference.
pub read_chunks-joined :
    {U : Type 0}
    → (host : Host U) (chunks : List (List ℕ)) (c : Connection) (u : U)
    → read_chunks host chunks c u ≡ read_handler host (joined chunks) c u
unfolding read_handler
read_chunks-joined host [] c u = refl
read_chunks-joined host (chunk ∷ chunks) c u =
    bind_cong (read_handler host chunk c u) _ _ (λ r. read_chunks-joined host chunks r.0 r.1)
    ∙ sym (read_handler-append host chunk (joined chunks) c u)

pub frames_read :
    {U : Type 0}
    → (host : Host U) (texts : List (List ℕ)) (u : U) → IsGenerous host
    → all_carried texts ≡ true
    → read_handler host (frames texts) connected u
      ≡ run_commands host texts u >>= λ v. running (connected, v)
unfolding read_handler
frames_read host [] u g t = refl
frames_read host (text ∷ texts) u g t =
    command_read host text (frames texts) u g (ground (arith, t))
    ∙ bind_cong (obey host text u) _ _ (λ v. frames_read host texts v g (ground (arith, t)))
    ∙ sym (bind_assoc (obey host text u) _ _)

-- A stream of packets, each with a text of less than 252 bytes none of which is zero, cut into
-- chunks in any way, runs the command handler on these texts in their order, using the
-- connection again after each, and leaves it fresh, if `malloc` grants every size up to 256.
pub stream_read :
    {U : Type 0}
    → (host : Host U) (texts chunks : List (List ℕ)) (u : U) → IsGenerous host
    → all_carried texts ≡ true
    → joined chunks ≡ frames texts
    → read_chunks host chunks connected u
      ≡ run_commands host texts u >>= λ v. running (connected, v)
stream_read host texts chunks u g t j =
    read_chunks-joined host chunks connected u
    ∙ ap (λ bytes. read_handler host bytes connected u) j
    ∙ frames_read host texts u g t
