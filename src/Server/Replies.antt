-- ===== src/Server/Replies.antt =====
-- What the command handler of src/server.cc answers to a client, and the translation of profile
-- numbers that it keeps.
use mathlib.Core.List.{append_assoc, append-nil}
use sled_server.Common.{
  ◌==◌, ℕ, ◌+◌, ◌≤◌, ◌≡◌, refl, sym, ap, ◌∙◌, Bool, true, false, Option, none, some, List, [], ◌∷◌,
  ◌++◌, length, length-append, Bool-cases, Option-cases, inl, inr, arith,
}
use sled_server.Common.Int.{ℤ, Fpu, eq_ℤ}
use sled_server.Profile.{Profile, create}
use sled_server.Api.{profiles_of}
use sled_server.Parser.{ByteOrder}
use sled_server.Server.{
  is_client, Server, Reply, say, report, find, created_slot, remember, tlate_profile_id,
}

abbrev pub to_client : ℕ → List Reply → List (ℕ × Reply)
to_client id [] = []
to_client id (r ∷ replies) = (id, r) ∷ to_client id replies

to_client-append :
    (id : ℕ) (xs ys : List Reply) → to_client id (xs ++ ys) ≡ to_client id xs ++ to_client id ys
to_client-append id [] ys = refl
to_client-append id (x ∷ xs) ys = ap (λ l. (id, x) ∷ l) (to_client-append id xs ys)

-- Between `lo` and `hi` answers to one client, and none to any other, are new.
abbrev pub AreAnswers : ℕ → ℕ → ℕ → List (ℕ × Reply) → List (ℕ × Reply) → Type 0
AreAnswers id lo hi before later =
    (replies : List Reply) × ((later ≡ before ++ to_client id replies)
      × ((lo ≤ length replies) × (length replies ≤ hi)))

-- What has a translation keeps it.
abbrev pub AreKept : List (ℤ × ℤ) → List (ℤ × ℤ) → Type 0
AreKept before later = (k v : ℤ) → find k before ≡ some v → find k later ≡ some v

-- Whoever else is connected stays so, and nobody else is new.
abbrev pub AreOthersKept : ℕ → List (ℕ × ByteOrder) → List (ℕ × ByteOrder) → Type 0
AreOthersKept id before later = (x : ℕ) → (x == id) ≡ false → is_client x later ≡ is_client x before

pub record IsStep (id lo hi : ℕ) (s t : Server) : Type 0 where
  pub answers : AreAnswers id lo hi s.sent t.sent
  pub kept : AreKept s.profile_tlate t.profile_tlate
  pub others : AreOthersKept id s.clients t.clients

pub silent :
    (id : ℕ) (s t : Server)
    → s.sent ≡ t.sent
    → AreKept s.profile_tlate t.profile_tlate
    → AreOthersKept id s.clients t.clients
    → IsStep id 0 0 s t
silent id s t e k o = record {
  answers = ([], (sym e ∙ sym (append-nil s.sent), (omega arith, omega arith)));
  kept = k;
  others = o;
}

pub unchanged : (id : ℕ) (s : Server) → IsStep id 0 0 s s
unchanged id s = silent id s s refl (λ k v e. e) (λ x n. refl)

pub said : (id : ℕ) (reply : Reply) (s : Server) → IsStep id 1 1 s (say id reply s)
said id reply s = record {
  answers = (reply ∷ [], (refl, (omega arith, omega arith)));
  kept = λ k v e. e;
  others = λ x n. refl;
}

pub reported :
    (id : ℕ) (good bad : List ℕ) (b : Bool) (s : Server) → IsStep id 1 1 s (report id good bad b s)
reported id good bad true s = said id _ s
reported id good bad false s = said id _ s

-- One after the other.
pub joined :
    {id a b c d : ℕ} {s t u : Server}
    → IsStep id a b s t
    → IsStep id c d t u
    → IsStep id (a + c) (b + d) s u
joined {id} {a} {b} {c} {d} {s} {t} {u} v w =
    let (xs, (e, (l, h))) = v.answers in
    let (ys, (f, (m, g))) = w.answers in
    record {
      answers = (
        xs ++ ys,
        (
          f
              ∙ ap (λ z. z ++ to_client id ys) e
              ∙ append_assoc s.sent (to_client id xs) (to_client id ys)
              ∙ ap (λ z. s.sent ++ z) (sym (to_client-append id xs ys)),
          (omega (arith, l, m, length-append xs ys), omega (arith, h, g, length-append xs ys)),
        ),
      );
      kept = λ k z n. w.kept k z (v.kept k z n);
      others = λ x n. w.others x n ∙ v.others x n;
    }

pub wider : {id a b c d : ℕ} {s t : Server} → c ≤ a → b ≤ d → IsStep id a b s t → IsStep id c d s t
wider p q v =
    let (xs, (e, (l, h))) = v.answers in
    record {
      answers = (xs, (e, (omega (arith, p, l), omega (arith, q, h))));
      kept = v.kept;
      others = v.others;
    }

find-append : (k v : ℤ) (l r : List (ℤ × ℤ)) → find k l ≡ some v → find k (l ++ r) ≡ some v
unfolding find
find-append k v [] r e = cc
find-append k v ((j, w) ∷ l) r e = elim (Bool-cases (eq_ℤ j k)) [
  | inl h ↦ ground (arith, e, h)
  | inr h ↦ simp h (find-append k v l r (ground (arith, e, h)))
]

created_slot-IsStep :
    (id : ℕ) (s : Server) (r : Option (ℕ × List Profile)) → IsStep id 0 0 s (created_slot r s).0
created_slot-IsStep id s none = unchanged id s
created_slot-IsStep id s (some (i, ps)) = silent id s _ refl (λ k v e. e) (λ x n. refl)

remember-IsStep :
    (id : ℕ) (profile : ℤ) (r : Server × ℤ) → IsStep id 0 0 (r.0) (remember profile r).0
remember-IsStep id profile (s, z) =
    silent id s _ refl (λ k v e. find-append k v s.profile_tlate _ e) (λ x n. refl)

pub tlate_profile_id-IsStep :
    (fpu : Fpu) (id : ℕ) (profile : ℤ) (s : Server)
    → IsStep id 0 0 s (tlate_profile_id fpu profile s).0
unfolding tlate_profile_id
tlate_profile_id-IsStep fpu id profile s = elim (Option-cases (find profile s.profile_tlate)) [
  | inr (z, e) ↦ rw (e, tlate_profile_id) (unchanged id s)
  | inl e ↦
      rw (e, tlate_profile_id)
        (joined (created_slot-IsStep id s (create fpu (profiles_of s.device)))
          (remember-IsStep id profile (created_slot (create fpu (profiles_of s.device)) s)))
]
