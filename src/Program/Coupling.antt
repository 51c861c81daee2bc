-- ===== src/Program/Coupling.antt =====
-- The three tables of connections of the program: the map of librtc3d/server.cc, the contexts of
-- librtc3d/rtc3d.cc, and the clients that src/server.cc can send to.
use sled_server.Common.{
  ℕ, ◌≡◌, refl, sym, ap, ◌∙◌, Bool, if◌then◌else◌, true, false, not, ◌&&◌, ◌==◌, some, List, [],
  ◌∷◌, Bool-cases, inl, inr, arith,
}
use sled_server.Common.Int.{ℤ, pos, negsuc, eq_ℤ}
use sled_server.Common.Outcome.{running, fault}
use sled_server.Parser.{ByteOrder}
use sled_server.Tcp.{NetServer}
use sled_server.Tcp.Connections.{IsTidy, is_known, same_key, other_key, eq_ℤ_sound, eq_ℤ_sym}
use sled_server.Rtc3d.{Connection}
use sled_server.Server.{is_client, without}
use sled_server.Server.Keep.{IsInOrder, is_client-without, not_client-without}
use sled_server.Program.{Program, id_of, has_local, local_at, set_local, free_local, survive}

-- Different descriptors have different connections.
pub id_of-eq_ℤ : (a b : ℤ) → (id_of a == id_of b) ≡ eq_ℤ a b
unfolding id_of
id_of-eq_ℤ (pos a) (pos b) = ground arith
id_of-eq_ℤ (negsuc a) (negsuc b) = ground arith
id_of-eq_ℤ (pos a) (negsuc b) = ground arith
id_of-eq_ℤ (negsuc a) (pos b) = ground arith

-- A descriptor has an entry in the map exactly where it has a context, and exactly where its
-- connection is a client of the server; no handler has gone through a null pointer.
pub record IsCoupled (s : NetServer Program) : Type 0 where
  pub tidy : IsTidy s
  pub order : IsInOrder s.user.server
  pub alive : s.user.crashed ≡ false
  pub clients :
      (fd : ℤ) → is_client (id_of fd) s.user.server.clients ≡ is_known fd s.connection_data
  pub contexts : (fd : ℤ) → has_local fd s.user.local ≡ is_known fd s.connection_data

pub survive-eq-running : (t : NetServer Program) → IsCoupled t → survive t ≡ running t
survive-eq-running t v = ap (λ (b : Bool). if b then fault else running t) v.alive

pub has_local-set_local :
    (x fd : ℤ) (c : Connection) (l : List (ℤ × Connection))
    → has_local x (set_local fd c l) ≡ has_local x l
has_local-set_local x fd c [] = refl
has_local-set_local x fd c ((k, d) ∷ l) =
    let rest = has_local-set_local x fd c l in
    elim (Bool-cases (eq_ℤ k fd)) [ inl e ↦ simp (e, rest) refl | inr e ↦ simp (e, rest) refl ]

pub local_at-has_local :
    (fd : ℤ) (l : List (ℤ × Connection))
    → has_local fd l ≡ true
    → (c : Connection) × (local_at fd l ≡ some c)
unfolding local_at
local_at-has_local fd [] h = cc
local_at-has_local fd ((k, c) ∷ l) h = elim (Bool-cases (eq_ℤ k fd)) [
  | inl e ↦ (c, rw e refl)
  | inr e ↦ let (d, q) = local_at-has_local fd l (ground (arith, e, h)) in (d, rw e q)
]

pub has_local-free_local :
    (x fd : ℤ) (l : List (ℤ × Connection))
    → has_local x (free_local fd l) ≡ (not (eq_ℤ fd x) && has_local x l)
has_local-free_local x fd [] = ground arith
has_local-free_local x fd ((k, c) ∷ l) =
    let rest = has_local-free_local x fd l in
    elim (Bool-cases (eq_ℤ k fd)) [
      | inl e ↦ let same = same_key k fd x e in simp e (ground (arith, rest, same))
      | inr e ↦ let far = other_key k fd x e in simp e (ground (arith, rest, far))
    ]

pub is_client-free :
    (x fd : ℤ) (clients : List (ℕ × ByteOrder))
    → is_client (id_of x) (without (id_of fd) clients)
      ≡ (not (eq_ℤ fd x) && is_client (id_of x) clients)
is_client-free x fd clients = elim (Bool-cases (eq_ℤ fd x)) [
  | inl e ↦
      let gone : is_client (id_of x) (without (id_of fd) clients) ≡ false =
        ap (λ z. is_client z (without (id_of fd) clients)) (ap id_of (sym (eq_ℤ_sound fd x e)))
        ∙ not_client-without (id_of fd) clients in
      ground (arith, e, gone)
  | inr e ↦
      let far : (id_of x == id_of fd) ≡ false = id_of-eq_ℤ x fd ∙ eq_ℤ_sym x fd ∙ e in
      ground (arith, e, is_client-without (id_of x) (id_of fd) clients far)
]
