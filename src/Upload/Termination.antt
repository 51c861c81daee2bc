-- ===== src/Upload/Termination.antt =====
-- How far the upload of pending changes (libsled/sled_profile.cc) goes along the links of the
-- profiles, which may form a circle.
use sled_server.Common.{
  ◌≤◌, sym, ℕ, zero, suc, ◌<◌, ◌≡◌, refl, ap, ◌∙◌, Bool, true, false, ◌&&◌, some, List, [], ◌∷◌,
  length, get_elem?, set, length-set, arith, Bool-cases, inl, inr,
}
use sled_server.Common.Int.{ℤ, pos, negsuc, Fpu}
use sled_server.Common.Outcome.{
  Outcome, running, ◌>>=◌, Returns, Returns-mono, Settles, Settles-bind, Settles-mono,
  Settles-Returns,
}
use sled_server.Sdo.Invariant.{IsValid}
use sled_server.Mp.Outputs.{SdoMode, sdo_mode}
use sled_server.Net.Channels.{HasMode}
use sled_server.Profile.{Profile, has_changes_pending}
use sled_server.Upload.{Upload, write_profile, write_pending}
use sled_server.Upload.Marks.{pending_count, count-set, settled, has_changes_pending-settled}
use sled_server.Upload.Visits.{
  in_table, sent, get_elem?-below, write_profile-Settles, IsVisited, fits,
}

-- Every profile's next one is in a table of `n`, or there is none.
abbrev pub all_linked : ℕ → List Profile → Bool
all_linked n [] = true
all_linked n (p ∷ ps) = in_table n p.next_profile && all_linked n ps

pub all_linked-get_elem? :
    (n : ℕ) (ps : List Profile) (i : ℕ) (p : Profile)
    → all_linked n ps ≡ true
    → get_elem? ps i ≡ some p
    → in_table n p.next_profile ≡ true
all_linked-get_elem? n [] i p a g = cc
all_linked-get_elem? n (q ∷ ps) zero p a g = ground (arith, a, g)
all_linked-get_elem? n (q ∷ ps) (suc i) p a g = all_linked-get_elem? n ps i p (ground (arith, a)) g

pub all_linked-set :
    (n : ℕ) (ps : List Profile) (i : ℕ) (p : Profile)
    → all_linked n ps ≡ true
    → in_table n p.next_profile ≡ true
    → all_linked n (set ps i p) ≡ true
all_linked-set n [] i p a t = refl
all_linked-set n (q ∷ ps) zero p a t = ground (arith, a, t)
all_linked-set n (q ∷ ps) (suc i) p a t = ground (arith, a, all_linked-set n ps i p)

and_left : (a b : Bool) → (a && b) ≡ true → a ≡ true
and_left a b h = ground (arith, h)

and_right : (a b : Bool) → (a && b) ≡ true → b ≡ true
and_right a b h = ground (arith, h)

and_both : (a b : Bool) → a ≡ true → b ≡ true → (a && b) ≡ true
and_both a b h g = ground (arith, h, g)

-- The numbers of every profile fit the fields of the drive.
abbrev pub all_fit : Fpu → List Profile → Bool
all_fit fpu [] = true
all_fit fpu (p ∷ ps) = fits fpu p && all_fit fpu ps

all_fit-get_elem? :
    (fpu : Fpu) (ps : List Profile) (i : ℕ) (p : Profile)
    → get_elem? ps i ≡ some p
    → all_fit fpu ps ≡ true
    → fits fpu p ≡ true
all_fit-get_elem? fpu [] i p g a = cc
all_fit-get_elem? fpu (q ∷ ps) zero p g a =
    let same : q ≡ p = ground (arith, g) in
    let here : fits fpu q ≡ true = and_left (fits fpu q) (all_fit fpu ps) a in
    ap (fits fpu) (sym same) ∙ here
all_fit-get_elem? fpu (q ∷ ps) (suc i) p g a =
    all_fit-get_elem? fpu ps i p g (and_right (fits fpu q) (all_fit fpu ps) a)

all_fit-set :
    (fpu : Fpu) (ps : List Profile) (i : ℕ) (p : Profile)
    → fits fpu p ≡ true
    → all_fit fpu ps ≡ true
    → all_fit fpu (set ps i p) ≡ true
all_fit-set fpu [] i p f a = refl
all_fit-set fpu (q ∷ ps) zero p f a =
    and_both (fits fpu p) (all_fit fpu ps) f (and_right (fits fpu q) (all_fit fpu ps) a)
all_fit-set fpu (q ∷ ps) (suc i) p f a =
    and_both (fits fpu q) (all_fit fpu (set ps i p)) (and_left (fits fpu q) (all_fit fpu ps) a)
      (all_fit-set fpu ps i p f (and_right (fits fpu q) (all_fit fpu ps) a))

-- A visit leaves the numbers alone.
sent-fits : (fpu : Fpu) (p : Profile) → fits fpu (sent p) ≡ fits fpu p
unfolding settled
sent-fits fpu p = refl

-- Whether slot `i` has changes pending.
abbrev pub is_pending : List Profile → ℕ → Bool
is_pending [] i = false
is_pending (p ∷ ps) zero = has_changes_pending p
is_pending (p ∷ ps) (suc i) = is_pending ps i

is_pending-get_elem? :
    (ps : List Profile) (i : ℕ) (p : Profile)
    → get_elem? ps i ≡ some p
    → is_pending ps i ≡ has_changes_pending p
is_pending-get_elem? [] i p g = cc
is_pending-get_elem? (q ∷ ps) zero p g = ground (arith, g)
is_pending-get_elem? (q ∷ ps) (suc i) p g = is_pending-get_elem? ps i p g

settles :
    (ps : List Profile) (i j : ℕ) (q : Profile)
    → has_changes_pending q ≡ false
    → is_pending ps j ≡ false
    → is_pending (set ps i q) j ≡ false
settles [] i j q h n = n
settles (p ∷ ps) zero zero q h n = h
settles (p ∷ ps) zero (suc j) q h n = n
settles (p ∷ ps) (suc i) zero q h n = n
settles (p ∷ ps) (suc i) (suc j) q h n = settles ps i j q h n

settles_own :
    (ps : List Profile) (i : ℕ) (q : Profile)
    → has_changes_pending q ≡ false
    → is_pending (set ps i q) i ≡ false
settles_own [] i q h = refl
settles_own (p ∷ ps) zero q h = h
settles_own (p ∷ ps) (suc i) q h = settles_own ps i q h

sent-settled :
    (p : Profile)
    → (has_changes_pending (sent p) ≡ false) × ((sent p).next_profile ≡ p.next_profile)
unfolding settled has_changes_pending
sent-settled p = (has_changes_pending-settled p, refl)

pub pending_count_bound : (ps : List Profile) → pending_count ps ≤ length ps
pending_count_bound [] = omega arith
pending_count_bound (p ∷ ps) = ground (arith, pending_count_bound ps)

-- Nothing that was settled is pending again.
abbrev pub OnlySettles : List Profile → List Profile → Type 0
OnlySettles ps qs = (j : ℕ) → is_pending ps j ≡ false → is_pending qs j ≡ false

-- After the upload of profile `id` the SDO machine is in order and in its mode, the profile has no
-- changes pending, and the table is as long and as well linked as before.
pub record Settled (k : SdoMode) (id : ℕ) (u v : Upload) : Type 0 where
  pub channel_kept : HasMode k v.channel
  pub others_settled : OnlySettles u.profiles v.profiles
  pub own_settled : is_pending v.profiles id ≡ false
  pub size_kept : length v.profiles ≡ length u.profiles
  pub links_kept : all_linked (length u.profiles) v.profiles ≡ true

-- Going on with the next profile, if there is one.
abbrev follow : ℕ → Fpu → ℤ → Upload → Outcome Upload
follow n fpu z w = elim z [ negsuc m ↦ running w | pos m ↦ write_pending n fpu m w ]

follow-Settles :
    {k : SdoMode} (Safe : Type 0) (n : ℕ) (fpu : Fpu) (id : ℕ) (u w : Upload) (z : ℤ)
    → (Safe → all_fit fpu w.profiles ≡ true)
    → ((m : ℕ)
        → m < length w.profiles
        → Settles (all_fit fpu w.profiles ≡ true) (Settled k m w) (write_pending n fpu m w))
    → in_table (length w.profiles) z ≡ true
    → Settled k id u w
    → Settles Safe (Settled k id u) (follow n fpu z w)
follow-Settles {k} Safe n fpu id u w (negsuc m) f go t s = s
follow-Settles {k} Safe n fpu id u w (pos m) f go t s =
    Settles-mono {P = Settled k m w} {Q = Settled k id u} (all_fit fpu w.profiles ≡ true) Safe
      (write_pending n fpu m w) f (go m (ground (arith, t)))
      λ x h. record {
        channel_kept = h.channel_kept;
        others_settled = λ j q. h.others_settled j (s.others_settled j q);
        own_settled = h.others_settled id s.own_settled;
        size_kept = h.size_kept ∙ s.size_kept;
        links_kept = ap (λ l. all_linked l x.profiles) (sym s.size_kept) ∙ h.links_kept;
      }

visit_pending :
    (n : ℕ) (fpu : Fpu) (id : ℕ) (p : Profile) (u : Upload)
    → get_elem? u.profiles id ≡ some p
    → has_changes_pending p ≡ true
    → write_pending (suc n) fpu id u ≡ write_profile fpu id p u >>= follow n fpu p.next_profile
unfolding write_pending
visit_pending n fpu id p u g c = rw (g, write_pending, c) refl

visit_settled :
    (n : ℕ) (fpu : Fpu) (id : ℕ) (p : Profile) (u : Upload)
    → get_elem? u.profiles id ≡ some p
    → has_changes_pending p ≡ false
    → write_pending (suc n) fpu id u ≡ running u
unfolding write_pending
visit_settled n fpu id p u g c = rw (g, write_pending, c) refl

visited-Settled :
    {k : SdoMode} (id : ℕ) (p : Profile) (u w : Upload)
    → all_linked (length u.profiles) u.profiles ≡ true
    → in_table (length u.profiles) p.next_profile ≡ true
    → IsVisited k u.profiles id (sent p) w
    → Settled k id u w
unfolding settled
visited-Settled {k} id p u w l t (e, v) =
    let done = (sent-settled p).0 in
    record {
      channel_kept = v;
      others_settled = λ j q. ap (λ l. is_pending l j) e ∙ settles u.profiles id j (sent p) done q;
      own_settled = ap (λ l. is_pending l id) e ∙ settles_own u.profiles id (sent p) done;
      size_kept = ap length e ∙ length-set u.profiles id (sent p);
      links_kept =
          ap (all_linked (length u.profiles)) e
          ∙ all_linked-set (length u.profiles) u.profiles id (sent p) l t;
    }

pub write_pending-Settles :
    {k : SdoMode} (n : ℕ) (fpu : Fpu) (id : ℕ) (u : Upload)
    → pending_count u.profiles < n
    → id < length u.profiles
    → all_linked (length u.profiles) u.profiles ≡ true
    → HasMode k u.channel
    → Settles (all_fit fpu u.profiles ≡ true) (Settled k id u) (write_pending n fpu id u)
unfolding settled
write_pending-Settles {k} zero fpu id u c b l v = absurd (omega (arith, c))
write_pending-Settles {k} (suc n) fpu id u c b l v =
    let (p, g) = get_elem?-below u.profiles id b in
    let t = all_linked-get_elem? (length u.profiles) u.profiles id p l g in
    let Safe : Type 0 = all_fit fpu u.profiles ≡ true in
    elim (Bool-cases (has_changes_pending p)) [
      | inr f ↦ rw (visit_settled n fpu id p u g f) (record {
        channel_kept = v;
        others_settled = λ j q. q;
        own_settled = is_pending-get_elem? u.profiles id p g ∙ f;
        size_kept = refl;
        links_kept = l;
      })
      | inl y ↦ rw (visit_pending n fpu id p u g y) (
          Settles-bind Safe (IsVisited k u.profiles id (sent p)) (Settled k id u)
            (write_profile fpu id p u) (follow n fpu p.next_profile)
            (Settles-mono {P = IsVisited k u.profiles id (sent p)}
              {Q = IsVisited k u.profiles id (sent p)} (fits fpu p ≡ true) Safe
              (write_profile fpu id p u) (all_fit-get_elem? fpu u.profiles id p g)
              (write_profile-Settles fpu id p u b g t v) λ w h. h)
            λ w h.
              let d = visited-Settled id p u w l t h in
              follow-Settles Safe n fpu id u w p.next_profile
                (λ a.
                  ap (all_fit fpu) h.0
                  ∙ all_fit-set fpu u.profiles id (sent p)
                      (sent-fits fpu p ∙ all_fit-get_elem? fpu u.profiles id p g a) a)
                (λ m b'.
                  write_pending-Settles n fpu m w
                    (omega (
                      arith,
                      c,
                      ap pending_count h.0,
                      count-set u.profiles id p (sent p) g y (sent-settled p).0,
                    ))
                    b' (ap (λ n. all_linked n w.profiles) d.size_kept ∙ d.links_kept) h.1)
                (ap (λ n. in_table n p.next_profile) d.size_kept ∙ t) d)
    ]

-- If every profile's next one is in the table, and the numbers of every profile fit the fields of the
-- drive, the upload of the pending changes of a profile returns with one more round than there are
-- profiles with changes pending, however the profiles are linked; the SDO machine is in order, and the
-- profile has no changes pending.
pub write_pending-Returns :
    (n : ℕ) (fpu : Fpu) (id : ℕ) (u : Upload)
    → pending_count u.profiles < n
    → id < length u.profiles
    → all_linked (length u.profiles) u.profiles ≡ true
    → all_fit fpu u.profiles ≡ true
    → IsValid u.channel
    → Returns
        (λ v. IsValid v.channel × (is_pending v.profiles id ≡ false))
        (write_pending n fpu id u)
write_pending-Returns n fpu id u c b l f v =
    let S = Settled (sdo_mode u.channel.state) id u in
    Returns-mono {P = S} (write_pending n fpu id u)
      (Settles-Returns (all_fit fpu u.profiles ≡ true) S (write_pending n fpu id u) f
        (write_pending-Settles n fpu id u c b l (v, refl)))
      λ w h. (h.channel_kept.0, h.own_settled)
