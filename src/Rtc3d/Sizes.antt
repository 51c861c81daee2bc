-- ===== src/Rtc3d/Sizes.antt =====
-- Sizes of packets in librtc3d/rtc3d.cc that are too small or too large for the number of bytes
-- still to come, which has eight bits.
use sled_server.Common.{
  ℕ, zero, suc, ◌-◌, ◌%◌, ◌<◌, ◌≤◌, ◌≡◌, ◌≢◌, ◌⊎◌, inl, inr, refl, sym, ap, ◌∙◌, ltb, List, [], ◌∷◌,
  ◌++◌, length, none, arith, Bool-cases,
}
use sled_server.Common.Outcome.{running, fault, ◌>>=◌}
use sled_server.Rtc3d.Memory.{Buffer, read_cell, write_cell, stored}
use sled_server.Rtc3d.{
  Connection, Host, connected, htonl, malloc, get_uint32, packet_handler, complete, payload_byte,
  read_byte, read_handler,
}
use sled_server.Rtc3d.Framing.{payload_size, announced_connection, header_read}

silent :
    {U : Type 0}
    → (host : Host U) (bytes : List ℕ) (c : Connection) (u : U) → c.size_left ≡ 0
    → c.data_left ≡ 0
    → read_handler host bytes c u ≡ running (c, u)
unfolding read_handler read_byte
silent host [] c u s d = refl
silent host (b ∷ bytes) c u s d = ground (arith, s, d, silent host bytes c u s d)

-- If the announced payload is a multiple of 256 bytes, none included, everything that the client
-- sends from then on is ignored.
pub multiple_deafens :
    {U : Type 0}
    → (host : Host U) (n : ℕ) (bytes : List ℕ) (u : U) → n < 4294967296
    → payload_size n % 256 ≡ 0
    → read_handler host (htonl n ++ bytes) connected u ≡ running (announced_connection host n, u)
multiple_deafens host n bytes u h m =
    header_read host n bytes u h ∙ silent host bytes (announced_connection host n) u refl m

-- A payload under way that will leave a cell of the packet's type unwritten.
record IsDoomed (k : ℕ) (c : Connection) (missing : ℕ) : Type 0 where
  header_done : c.size_left ≡ 0
  due : c.data_left ≡ missing
  within : missing ≤ c.size
  early : k ≤ 3
  unwritten : c.buffer.cell k ≡ none
  missed : (k < c.size - missing) ⊎ (c.size ≤ k)

type_faults : (k : ℕ) (m : Buffer) → k ≤ 3 → m.cell k ≡ none → get_uint32 m 0 ≡ fault
unfolding get_uint32 read_cell
type_faults zero m h e = ground (arith, e)
type_faults (suc zero) m h e = ground (arith, e)
type_faults (suc (suc zero)) m h e = ground (arith, e)
type_faults (suc (suc (suc zero))) m h e = ground (arith, e)
type_faults (suc (suc (suc (suc k)))) m h e = absurd (omega (arith, h))

doomed_last :
    {U : Type 0}
    → (host : Host U) (k b : ℕ) (c : Connection) (u : U) → IsDoomed k c 1
    → read_byte host b c u ≡ fault
unfolding read_byte payload_byte write_cell complete packet_handler
doomed_last host k b c u d =
    let other : stored c.buffer.cell (c.size - c.data_left) b k ≡ none =
      ground (arith, d.unwritten, d.missed, d.within, d.due) in
    let f =
      type_faults k (record (c.buffer) { cell = stored c.buffer.cell (c.size - c.data_left) b })
        d.early other in
    ground (arith, d.header_done, d.due, f)

IsDoomed-step :
    {U : Type 0}
    → (host : Host U) (k b n : ℕ) (c : Connection) (u : U) → IsDoomed k c (suc (suc n))
    → (read_byte host b c u ≡ fault)
      ⊎ ((d : Connection) × ((read_byte host b c u ≡ running (d, u)) × IsDoomed k d (suc n)))
unfolding read_byte payload_byte write_cell
IsDoomed-step host k b n c u d = elim (Bool-cases (ltb (c.size - c.data_left) c.buffer.capacity)) [
  | inl i ↦ inr (
    record c {
      data_left = c.data_left - 1;
      buffer = record (c.buffer) { cell = stored c.buffer.cell (c.size - c.data_left) b };
    },
    (
      ground (arith, i, d.header_done, d.due),
      record {
        header_done = d.header_done;
        due = omega (arith, d.due);
        within = omega (arith, d.within);
        early = d.early;
        unwritten = ground (arith, d.unwritten, d.missed, d.within, d.due);
        missed = ground (arith, d.missed, d.within);
      },
    ),
  )
  | inr o ↦ inl (ground (arith, o, d.header_done, d.due))
]

doomed_faults :
    {U : Type 0}
    → (host : Host U) (k b : ℕ) (bytes rest : List ℕ) (c : Connection) (u : U)
    → IsDoomed k c (suc (length bytes))
    → read_handler host (b ∷ bytes ++ rest) c u ≡ fault
unfolding read_handler
doomed_faults host k b [] rest c u d =
    ap (λ o. o >>= λ r. read_handler host rest r.0 r.1) (doomed_last host k b c u d)
doomed_faults host k b (x ∷ bytes) rest c u d = elim (IsDoomed-step host k b (length bytes) c u d) [
  | inl f ↦ ap (λ o. o >>= λ r. read_handler host (x ∷ bytes ++ rest) r.0 r.1) f
  | inr (e, (s, l)) ↦
      ap (λ o. o >>= λ r. read_handler host (x ∷ bytes ++ rest) r.0 r.1) s
      ∙ doomed_faults host k x bytes rest e u l
]

malloc_unwritten : {U : Type 0} → (host : Host U) (n k : ℕ) → (malloc host n).cell k ≡ none
unfolding malloc
malloc_unwritten host n k = ground arith

announced-IsDoomed :
    {U : Type 0}
    → (host : Host U) (n m : ℕ) → (payload_size n < 4) ⊎ (256 ≤ payload_size n)
    → payload_size n % 256 ≡ suc m
    → (k : ℕ) × IsDoomed k (announced_connection host n) (suc m)
announced-IsDoomed host n m (inl small) e = (
  payload_size n,
  record {
    header_done = refl;
    due = e;
    within = omega (arith, e);
    early = omega (arith, small);
    unwritten = malloc_unwritten host _ _;
    missed = inr (omega arith);
  },
)
announced-IsDoomed host n m (inr large) e = (
  0,
  record {
    header_done = refl;
    due = e;
    within = omega (arith, e);
    early = omega arith;
    unwritten = malloc_unwritten host _ _;
    missed = inl (omega (arith, large, e));
  },
)

-- If the announced payload is shorter than a packet's type, or longer than 255 bytes (as it is
-- where the announced size is below four), and no multiple of 256, then the bytes that are waited
-- for, whatever they are, run into undefined behaviour.
pub size_faults :
    {U : Type 0}
    → (host : Host U) (n : ℕ) (bytes rest : List ℕ) (u : U) → n < 4294967296
    → (payload_size n < 4) ⊎ (256 ≤ payload_size n)
    → length bytes ≡ payload_size n % 256
    → payload_size n % 256 ≢ 0
    → read_handler host (htonl n ++ (bytes ++ rest)) connected u ≡ fault
size_faults host n [] rest u h s l z = absurd (z (sym l))
size_faults host n (b ∷ bytes) rest u h s l z =
    let (k, d) = announced-IsDoomed host n (length bytes) s (sym l) in
    header_read host n (b ∷ bytes ++ rest) u h
    ∙ doomed_faults host k b bytes rest (announced_connection host n) u d
