-- ===== src/Upload/Visits.antt =====
-- What one visit of sled_profile_write_pending_changes (libsled/sled_profile.cc) does to the profile
-- table and to the SDO machine.
use mathlib.Core.Bool.{true≢false}
use sled_server.Common.{
  bit_or, bit_and, ◌*◌, ℕ, zero, suc, ◌<◌, ◌≡◌, refl, sym, ap, ◌∙◌, Bool, true, false, ltb,
  if◌then◌else◌, ◌&&◌, not, ◌==◌, Option, none, some, List, [], ◌∷◌, length, get_elem?, set,
  length-set, arith,
}
use sled_server.Common.Int.{ℤ, pos, negsuc, Fpu}
use sled_server.Common.Outcome.{
  Outcome, running, ◌>>=◌, Returns, Returns-bind, Returns-mono, Settles, Settles-bind, Settles-mono,
  Settles-of_Returns,
}
use sled_server.Sdo.{
  Channel, queue_write, queue_write_with_cb, plain_write, profile_written, profile_invalid,
}
use sled_server.Mp.Outputs.{SdoMode}
use sled_server.Net.Channels.{HasMode, enqueue-HasMode}
use sled_server.Profile.{Profile, writing, is_changed, set_field_state}
use sled_server.Upload.{
  Upload, field_state, queue_step, queue_value, write_field, write_fields, copy_motion_task,
  own_fields, next_fields, next_number, load, mark_sent, write_profile,
}
use sled_server.Upload.Marks.{get_elem?-set, set-set, set-same, mark, marks, settled, marks_settled}

-- The table is `ps` with `q` in slot `id`, and the SDO machine is in order.
abbrev pub IsVisited : SdoMode → List Profile → ℕ → Profile → Upload → Type 0
IsVisited k ps id q u = (u.profiles ≡ set ps id q) × HasMode k u.channel

queue_step-Returns :
    (k : SdoMode) (f : Channel → Outcome Channel) (u : Upload)
    → Returns (HasMode k) (f u.channel)
    → Returns (λ v. (v.profiles ≡ u.profiles) × HasMode k v.channel) (queue_step f u)
unfolding queue_step
queue_step-Returns k f u h =
    Returns-bind (HasMode k) (λ v. (v.profiles ≡ u.profiles) × HasMode k v.channel) (f u.channel) _
      h λ c v. (refl, v)

abbrev pub is_given : Option ℕ → Bool
is_given none = false
is_given (some n) = true

abbrev pub all_given : List (ℕ × Option ℕ) → Bool
all_given [] = true
all_given ((index, value) ∷ rest) = is_given value && all_given rest

-- No conversion of a profile's numbers overflows.
abbrev pub fits : Fpu → Profile → Bool
fits fpu p = all_given (own_fields fpu p) && all_given (next_fields fpu p 0)

queue_field-Settles :
    {k : SdoMode} (Safe : Type 0) (ps : List Profile) (id index : ℕ) (value : Option ℕ)
    (q r : Profile) (u : Upload)
    → (Safe → is_given value ≡ true)
    → IsVisited k ps id q u
    → Settles Safe
        (IsVisited k ps id r)
        (queue_value id index value (record u { profiles = set u.profiles id r }))
unfolding queue_value queue_write_with_cb
queue_field-Settles {k} Safe ps id index none q r u g (e, v) = λ s. true≢false (sym (g s))
queue_field-Settles {k} Safe ps id index (some value) q r u g (e, v) =
    let w = record u { profiles = set u.profiles id r } in
    Settles-of_Returns Safe (IsVisited k ps id r) _ (
      Returns-mono {P = λ x. (x.profiles ≡ w.profiles) × HasMode k x.channel}
        {Q = IsVisited k ps id r} _
        (queue_step-Returns k
          (queue_write_with_cb index 0x01 value 0x04 (profile_written id) (profile_invalid id)) w
          (enqueue-HasMode
            (record {
              is_write = true;
              index = index;
              subindex = 1;
              value = value;
              size = 4;
              abort_callback = profile_invalid id;
              write_callback = profile_written id;
            })
            u.channel v))
        λ x h. (h.0 ∙ ap (λ l. set l id r) e ∙ set-set ps id q r, h.1))

write_field_found :
    (id index : ℕ) (value : Option ℕ) (q : Profile) (u : Upload)
    → get_elem? u.profiles id ≡ some q
    → write_field id index value u ≡ (
        if is_changed (field_state index q)
        then queue_value id index value
            (record u { profiles = set u.profiles id (set_field_state index writing q) })
        else running u)
unfolding write_field field_state
write_field_found id index value q u h = rw (h, write_field) refl

write_field-Settles :
    {k : SdoMode} (Safe : Type 0) (ps : List Profile) (id index : ℕ) (value : Option ℕ)
    (q : Profile) (u : Upload)
    → (Safe → is_given value ≡ true)
    → id < length ps
    → IsVisited k ps id q u
    → Settles Safe (IsVisited k ps id (mark index q)) (write_field id index value u)
unfolding mark
write_field-Settles {k} Safe ps id index value q u g b (e, v) =
    let found : get_elem? u.profiles id ≡ some q =
      ap (λ l. get_elem? l id) e ∙ get_elem?-set ps id q b in
    rw (write_field_found id index value q u found)
      (elim (is_changed (field_state index q))
        as (λ c.
          Settles Safe (IsVisited k ps id (if c then set_field_state index writing q else q)) (
            if c
            then queue_value id index value
                (record u { profiles = set u.profiles id (set_field_state index writing q) })
            else running u)) [
              | true ↦
                  queue_field-Settles Safe ps id index value q (set_field_state index writing q) u g
                    (e, v)
              | false ↦ (e, v)
            ])

copy-Returns :
    {k : SdoMode} (ps : List Profile) (id from to : ℕ) (q : Profile) (u : Upload)
    → IsVisited k ps id q u
    → Returns (IsVisited k ps id q) (copy_motion_task from to u)
unfolding copy_motion_task queue_write
copy-Returns {k} ps id from to q u (e, v) =
    let word = bit_or (bit_and from 0xFFFF) (bit_and to 0xFFFF * 65536) in
    Returns-mono {P = λ x. (x.profiles ≡ u.profiles) × HasMode k x.channel}
      {Q = IsVisited k ps id q} (queue_step (queue_write 0x2082 0x00 word 0x04) u)
      (queue_step-Returns k (queue_write 0x2082 0x00 word 0x04) u
        (enqueue-HasMode (plain_write 0x2082 0x00 word 0x04) u.channel v))
      λ w h. (h.0 ∙ e, h.1)

write_fields-Settles :
    {k : SdoMode} (Safe : Type 0) (ps : List Profile) (id : ℕ) (fields : List (ℕ × Option ℕ))
    (q : Profile) (u : Upload)
    → (Safe → all_given fields ≡ true)
    → id < length ps
    → IsVisited k ps id q u
    → Settles Safe (IsVisited k ps id (marks fields q)) (write_fields id fields u)
unfolding write_fields marks
write_fields-Settles {k} Safe ps id [] q u g b v = v
write_fields-Settles {k} Safe ps id ((index, value) ∷ rest) q u g b v =
    Settles-bind Safe (IsVisited k ps id (mark index q))
      (IsVisited k ps id (marks rest (mark index q))) (write_field id index value u)
      (write_fields id rest)
      (write_field-Settles Safe ps id index value q u (λ s. ground (arith, g s)) b v)
      λ w h. write_fields-Settles Safe ps id rest (mark index q) w (λ s. ground (arith, g s)) b h

load-Returns :
    {k : SdoMode} (ps : List Profile) (id : ℕ) (p q : Profile) (u : Upload)
    → IsVisited k ps id q u
    → Returns (IsVisited k ps id q) (load p u)
unfolding load
load-Returns {k} ps id p q u v =
    elim (not p.never_sent && not (u.current_profile == p.profile))
      as (λ c. Returns (IsVisited k ps id q) (
        if c
        then (copy_motion_task p.profile 0 u >>= λ w.
            running (record w { current_profile = p.profile }))
        else running u)) [
          | false ↦ v
          | true ↦
              Returns-bind (IsVisited k ps id q) (IsVisited k ps id q)
                (copy_motion_task p.profile 0 u) _ (copy-Returns ps id p.profile 0 q u v) λ w h. h
        ]

-- A handle of the next profile that is negative, or in a table of so many.
abbrev pub in_table : ℕ → ℤ → Bool
in_table n (pos m) = ltb m n
in_table n (negsuc m) = true

pub get_elem?-below :
    (ps : List Profile) (i : ℕ) → i < length ps → (p : Profile) × (get_elem? ps i ≡ some p)
get_elem?-below [] i h = absurd (omega (arith, h))
get_elem?-below (p ∷ ps) zero h = (p, refl)
get_elem?-below (p ∷ ps) (suc i) h = get_elem?-below ps i (omega (arith, h))

next_number-Returns :
    (ps : List Profile) (z : ℤ)
    → in_table (length ps) z ≡ true
    → Returns (λ k. Unit {0}) (next_number ps z)
unfolding next_number
next_number-Returns ps (negsuc m) h = tt
next_number-Returns ps (pos m) h =
    let (p, e) = get_elem?-below ps m (ground (arith, h)) in rw (e, next_number) tt

-- The profile once it has been visited.
abbrev pub sent : Profile → Profile
sent p = record (settled p) { never_sent = false }

mark_sent_lem :
    {k : SdoMode} (ps : List Profile) (id : ℕ) (q : Profile) (u : Upload)
    → id < length ps
    → IsVisited k ps id q u
    → IsVisited k ps id (record q { never_sent = false }) (mark_sent id u)
unfolding mark_sent
mark_sent_lem {k} ps id q u b (e, v) =
    let found : get_elem? u.profiles id ≡ some q =
      ap (λ l. get_elem? l id) e ∙ get_elem?-set ps id q b in
    rw (found, mark_sent)
      (ap (λ l. set l id (record q { never_sent = false })) e ∙ set-set ps id q _, v)

last_writes-Settles :
    {k : SdoMode} (fpu : Fpu) (id number : ℕ) (p : Profile) (ps : List Profile) (w : Upload)
    → id < length ps
    → IsVisited k ps id (marks (own_fields fpu p) p) w
    → Settles (fits fpu p ≡ true) (IsVisited k ps id (sent p)) (
        write_fields id (next_fields fpu p number) w >>= copy_motion_task 0 p.profile >>= λ x.
        running (mark_sent id x))
last_writes-Settles {k} fpu id number p ps w b h =
    let Safe : Type 0 = fits fpu p ≡ true in
    let S = IsVisited k ps id (settled p) in
    let f = write_fields id (next_fields fpu p number) w in
    let T = IsVisited k ps id (marks (next_fields fpu p number) (marks (own_fields fpu p) p)) in
    Settles-bind Safe S (IsVisited k ps id (sent p)) (f >>= copy_motion_task 0 p.profile) _
      (Settles-bind Safe S S f (copy_motion_task 0 p.profile)
        (Settles-mono {P = T} {Q = S} Safe Safe f (λ s. s)
          (write_fields-Settles Safe ps id (next_fields fpu p number) (marks (own_fields fpu p) p) w
            (λ s. ground (arith, s)) b h)
          λ x g. (g.0 ∙ ap (set ps id) (marks_settled _ _ _ _ _ _ _ _ p), g.1))
        λ x g.
          Settles-of_Returns Safe S (copy_motion_task 0 p.profile x)
            (copy-Returns ps id 0 p.profile (settled p) x g))
      λ x g. mark_sent_lem ps id (settled p) x b g

-- One visit settles the profile and leaves the others; every step returns, but for an overflow.
pub write_profile-Settles :
    {k : SdoMode} (fpu : Fpu) (id : ℕ) (p : Profile) (u : Upload)
    → id < length u.profiles
    → get_elem? u.profiles id ≡ some p
    → in_table (length u.profiles) p.next_profile ≡ true
    → HasMode k u.channel
    → Settles (fits fpu p ≡ true) (IsVisited k u.profiles id (sent p)) (write_profile fpu id p u)
unfolding write_profile
write_profile-Settles {k} fpu id p u b g t v =
    let Safe : Type 0 = fits fpu p ≡ true in
    let ps = u.profiles in
    let O = IsVisited k ps id p in
    let P = IsVisited k ps id (marks (own_fields fpu p) p) in
    let Q = IsVisited k ps id (sent p) in
    Settles-bind Safe P Q (load p u >>= write_fields id (own_fields fpu p)) _
      (Settles-bind Safe O P (load p u) (write_fields id (own_fields fpu p))
        (Settles-of_Returns Safe O (load p u)
          (load-Returns ps id p p u (sym (set-same ps id p g), v)))
        λ w h. write_fields-Settles Safe ps id (own_fields fpu p) p w (λ s. ground (arith, s)) b h)
      λ w h.
        Settles-bind Safe (λ k. Unit {0}) Q (next_number w.profiles p.next_profile) _
          (Settles-of_Returns Safe (λ k. Unit {0}) (next_number w.profiles p.next_profile)
            (next_number-Returns w.profiles p.next_profile
              (ap (λ n. in_table n p.next_profile) (ap length h.0 ∙ length-set ps id _) ∙ t)))
          λ number _. last_writes-Settles fpu id number p ps w b h
