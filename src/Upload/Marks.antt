-- ===== src/Upload/Marks.antt =====
-- The upload of pending changes (libsled/sled_profile.cc) ends, though profiles may be linked in a
-- circle: each profile that it visits has no changes pending any more.
use sled_server.Common.{
  ℕ, zero, suc, ◌+◌, ◌<◌, ◌≡◌, refl, ap, true, false, if◌then◌else◌, Option, some, List, [], ◌∷◌,
  length, get_elem?, set, arith,
}
use sled_server.Profile.{
  Profile, FieldState, changed, writing, is_changed, has_changes_pending, set_field_state,
}
use sled_server.Upload.{field_state}

pub get_elem?-set :
    (ps : List Profile) (i : ℕ) (p : Profile) → i < length ps → get_elem? (set ps i p) i ≡ some p
get_elem?-set [] i p h = absurd (omega (arith, h))
get_elem?-set (q ∷ ps) zero p h = refl
get_elem?-set (q ∷ ps) (suc i) p h = get_elem?-set ps i p (omega (arith, h))

pub set-set : (ps : List Profile) (i : ℕ) (p q : Profile) → set (set ps i p) i q ≡ set ps i q
set-set [] i p q = refl
set-set (r ∷ ps) zero p q = refl
set-set (r ∷ ps) (suc i) p q = ap (λ l. r ∷ l) (set-set ps i p q)

pub set-same : (ps : List Profile) (i : ℕ) (p : Profile) → get_elem? ps i ≡ some p → set ps i p ≡ ps
set-same [] i p h = refl
set-same (q ∷ ps) zero p h = ground (arith, h)
set-same (q ∷ ps) (suc i) p h = ap (λ l. q ∷ l) (set-same ps i p h)

-- The number of profiles with changes pending.
abbrev pub pending_count : List Profile → ℕ
pending_count [] = 0
pending_count (p ∷ ps) = (if has_changes_pending p then 1 else 0) + pending_count ps

pub count-set :
    (ps : List Profile) (i : ℕ) (p q : Profile)
    → get_elem? ps i ≡ some p
    → has_changes_pending p ≡ true
    → has_changes_pending q ≡ false
    → pending_count (set ps i q) < pending_count ps
count-set [] i p q h a b = cc
count-set (r ∷ ps) zero p q h a b = ground (arith, h, a, b)
count-set (r ∷ ps) (suc i) p q h a b = omega (arith, count-set ps i p q h a b)

-- What WRITE_FIELD_IF_CHANGED does to the profile.
unfoldable pub mark : ℕ → Profile → Profile
unfolding field_state set_field_state
mark index p = if is_changed (field_state index p) then set_field_state index writing p else p

unfoldable pub marks : List (ℕ × Option ℕ) → Profile → Profile
unfolding mark
marks [] p = p
marks ((index, value) ∷ rest) p = marks rest (mark index p)

unfoldable pub settle : FieldState → FieldState
settle changed = writing
settle s = s

is_changed-settle : (s : FieldState) → is_changed (settle s) ≡ false
unfolding settle
is_changed-settle s = ground arith

mark_p : (p : Profile) → mark 0x35BE p ≡ record p { ob_o_p = settle p.ob_o_p }
unfolding mark field_state set_field_state settle
mark_p p = ground arith

mark_v : (p : Profile) → mark 0x35BF p ≡ record p { ob_o_v = settle p.ob_o_v }
unfolding mark field_state set_field_state settle
mark_v p = ground arith

mark_c : (p : Profile) → mark 0x35B9 p ≡ record p { ob_o_c = settle p.ob_o_c }
unfolding mark field_state set_field_state settle
mark_c p = ground arith

mark_acc : (p : Profile) → mark 0x35B7 p ≡ record p { ob_o_acc = settle p.ob_o_acc }
unfolding mark field_state set_field_state settle
mark_acc p = ground arith

mark_dec : (p : Profile) → mark 0x35BA p ≡ record p { ob_o_dec = settle p.ob_o_dec }
unfolding mark field_state set_field_state settle
mark_dec p = ground arith

mark_tab : (p : Profile) → mark 0x35B8 p ≡ record p { ob_o_tab = settle p.ob_o_tab }
unfolding mark field_state set_field_state settle
mark_tab p = ground arith

mark_fn : (p : Profile) → mark 0x35BC p ≡ record p { ob_o_fn = settle p.ob_o_fn }
unfolding mark field_state set_field_state settle
mark_fn p = ground arith

mark_ft : (p : Profile) → mark 0x35BD p ≡ record p { ob_o_ft = settle p.ob_o_ft }
unfolding mark field_state set_field_state settle
mark_ft p = ground arith

unfoldable pub settled : Profile → Profile
unfolding settle
settled p = record p {
  ob_o_p = settle p.ob_o_p;
  ob_o_v = settle p.ob_o_v;
  ob_o_c = settle p.ob_o_c;
  ob_o_acc = settle p.ob_o_acc;
  ob_o_dec = settle p.ob_o_dec;
  ob_o_tab = settle p.ob_o_tab;
  ob_o_fn = settle p.ob_o_fn;
  ob_o_ft = settle p.ob_o_ft;
}

pub has_changes_pending-settled : (p : Profile) → has_changes_pending (settled p) ≡ false
unfolding has_changes_pending settled
has_changes_pending-settled p = simp is_changed-settle refl

pub marks_settled :
    (a b c d e f g h : Option ℕ) (p : Profile)
    → marks ((0x35BC, g) ∷ (0x35BD, h) ∷ []) (
        marks
          ((0x35BE, a) ∷ (0x35BF, b) ∷ (0x35B9, c) ∷ (0x35B7, d) ∷ (0x35BA, e) ∷ (0x35B8, f) ∷ [])
          p)
      ≡ settled p
unfolding marks settled
marks_settled a b c d e f g h p =
    rw (mark_p, mark_v, mark_c, mark_acc, mark_dec, mark_tab, mark_fn, mark_ft) refl
