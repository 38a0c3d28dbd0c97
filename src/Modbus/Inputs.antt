-- ===== src/Modbus/Inputs.antt =====
-- internal/adapters/modbustcp/io.go, ReadInputs: one block of discrete inputs for all mapped
-- addresses. There is a client.
use plantops_edge_scale.Base.{
  ℕ, suc, zero, ◌+◌, ◌-◌, ◌%◌, ◌^◌, ◌≤◌, ◌<◌, ltb, ◌==◌, ◌||◌, ◌≡◌, refl, ap, ◌∙◌, Bool, false,
  String, List, [], ◌∷◌, Option, none, some, arith, if◌then◌else◌,
}
use plantops_edge_scale.Domain.Types.{Time, PositionSnapshot}
use plantops_edge_scale.RemoteIo.{Reading, failed, inputs}
use plantops_edge_scale.Modbus.{Mapping}

-- What ReadDiscreteInputs gives for a first address and a number of bits.
pub data Answer : Type 0 where
  bits : List Bool → Answer
  refused : String → Answer

abbrev optional : Option ℕ → List ℕ
optional none = []
optional (some a) = a ∷ []

-- The addresses after that of entry_present.
abbrev pub other_addresses : Mapping → List ℕ
other_addresses m =
    m.front_present
    ∷ m.rear_present
    ∷ m.exit_present
    ∷ m.entry_barrier_open
    ∷ m.entry_barrier_closed
    ∷ m.exit_barrier_open
    ∷ m.exit_barrier_closed
    ∷ optional m.safety_clear

-- The least and the greatest address.
unfoldable pub span : ℕ → ℕ → List ℕ → ℕ × ℕ
span lo hi [] = (lo, hi)
span lo hi (a ∷ rest) = span (if ltb a lo then a else lo) (if ltb hi a then a else hi) rest

abbrev pub addresses : Mapping → ℕ × ℕ
addresses m = span m.entry_present m.entry_present (other_addresses m)

-- bits[i]; the client answers with as many bits as it was asked for.
unfoldable pub bit_at : List Bool → ℕ → Bool
bit_at [] i = false
bit_at (b ∷ bs) zero = b
bit_at (b ∷ bs) (suc i) = bit_at bs i

abbrev safety : (ℕ → Bool) → Option ℕ → Bool
safety get none = false
safety get (some a) = get a

-- The snapshot, by the value of each address.
abbrev pub snapshot_by : (ℕ → Bool) → Time → Mapping → PositionSnapshot
snapshot_by get now m = record {
  entry_present = get m.entry_present;
  front_present = get m.front_present;
  rear_present = get m.rear_present;
  exit_present = get m.exit_present;
  entry_barrier_open = get m.entry_barrier_open;
  entry_barrier_closed = get m.entry_barrier_closed;
  exit_barrier_open = get m.exit_barrier_open;
  exit_barrier_closed = get m.exit_barrier_closed;
  safety_clear = safety get m.safety_clear;
  observed = now;
}

unfoldable pub read_answer : Time → Mapping → ℕ → Answer → Reading
read_answer now m lo (refused e) = failed e
read_answer now m lo (bits bs) = inputs (snapshot_by (λ a. bit_at bs (a - lo)) now m)

-- readBits of client.go, where `exchange` is a request over the network.
unfoldable pub read_bits : (ℕ → ℕ → Answer) → ℕ → ℕ → Answer
read_bits exchange lo n = if n == 0 || ltb 2000 n then refused "invalid quantity" else exchange lo n

-- ReadInputs. The number of bits is a uint16.
unfoldable pub read_inputs : (ℕ → ℕ → Answer) → Time → Mapping → Reading
unfolding read_answer
read_inputs client now m =
    let (lo, hi) = addresses m in read_answer now m lo (client lo ((hi - lo + 1) % 2 ^ 16))

-- `n` inputs of a device from an address on.
unfoldable pub block : (ℕ → Bool) → ℕ → ℕ → List Bool
block di lo zero = []
block di lo (suc n) = di lo ∷ block di (suc lo) n

bit_at-block : (di : ℕ → Bool) (lo n i : ℕ) → i < n → bit_at (block di lo n) i ≡ di (lo + i)
unfolding bit_at block
bit_at-block di lo zero i h = absurd (omega arith)
bit_at-block di lo (suc n) zero h = ap di (omega arith)
bit_at-block di lo (suc n) (suc i) h =
    bit_at-block di (suc lo) n i (omega arith) ∙ ap di (omega arith)

abbrev Within : ℕ → ℕ → List ℕ → Type 0
Within lo hi [] = Unit
Within lo hi (a ∷ rest) = (lo ≤ a) × (a ≤ hi) × Within lo hi rest

span_bounds :
    (lo hi : ℕ) (rest : List ℕ)
    → ((span lo hi rest).0 ≤ lo)
      × (hi ≤ (span lo hi rest).1)
      × Within (span lo hi rest).0 (span lo hi rest).1 rest
unfolding span if◌then◌else◌
span_bounds lo hi [] = (omega arith, omega arith, tt)
span_bounds lo hi (a ∷ rest) =
    let (p, q, w) = span_bounds (if ltb a lo then a else lo) (if ltb hi a then a else hi) rest in
    (ground arith, ground arith, (ground arith, ground arith, w))

abbrev Agree : (ℕ → Bool) → (ℕ → Bool) → List ℕ → Type 0
Agree f g [] = Unit
Agree f g (a ∷ rest) = (f a ≡ g a) × Agree f g rest

snapshot_by-same :
    (f g : ℕ → Bool) (now : Time) (m : Mapping)
    → f m.entry_present ≡ g m.entry_present
    → Agree f g (other_addresses m)
    → snapshot_by f now m ≡ snapshot_by g now m
snapshot_by-same f g now m first (a, (b, (c, (d, (e, (h, (i, rest))))))) =
    rw (first, a, b, c, d, e, h, i, last m.safety_clear rest) refl
  where
    last : (o : Option ℕ) → Agree f g (optional o) → safety f o ≡ safety g o
    last none r = refl
    last (some x) r = r.0

-- The mapped addresses are fewer than 2000 apart.
abbrev pub IsNear : Mapping → Type 0
IsNear m = (addresses m).1 - (addresses m).0 < 2000

module _ (di : ℕ → Bool) where
  bit_at-address :
      (lo hi a : ℕ) → lo ≤ a → a ≤ hi → bit_at (block di lo (hi - lo + 1)) (a - lo) ≡ di a
  bit_at-address lo hi a l h =
      bit_at-block di lo (hi - lo + 1) (a - lo) (omega arith) ∙ ap di (omega arith)

  Within-Agree :
      (lo hi : ℕ) (rest : List ℕ)
      → Within lo hi rest
      → Agree (λ a. bit_at (block di lo (hi - lo + 1)) (a - lo)) di rest
  Within-Agree lo hi [] w = tt
  Within-Agree lo hi (a ∷ rest) (l, h, w) = (bit_at-address lo hi a l h, Within-Agree lo hi rest w)

  read_block :
      (exchange : ℕ → ℕ → Answer) (lo hi : ℕ)
      → exchange lo (hi - lo + 1) ≡ bits (block di lo (hi - lo + 1))
      → hi - lo < 2000
      → read_bits exchange lo ((hi - lo + 1) % 2 ^ 16) ≡ bits (block di lo (hi - lo + 1))
  unfolding read_bits if◌then◌else◌
  read_block exchange lo hi honest near = rw fits (ground arith)
    where
      fits : (hi - lo + 1) % 2 ^ 16 ≡ hi - lo + 1
      fits = omega arith

  -- When the device answers each request with its inputs, and the mapped addresses are fewer than 2000
  -- apart, the one block that ReadInputs asks for gives a snapshot of the time given, in which every
  -- field is the input at the address mapped to that field, and safety_clear is false when it is not
  -- mapped.
  pub read_inputs_exact :
      (exchange : ℕ → ℕ → Answer) (now : Time) (m : Mapping)
      → ((lo n : ℕ) → exchange lo n ≡ bits (block di lo n))
      → IsNear m
      → (p : PositionSnapshot) × (read_inputs (read_bits exchange) now m ≡ inputs p)
        × (p.entry_present ≡ di m.entry_present)
        × (p.front_present ≡ di m.front_present)
        × (p.rear_present ≡ di m.rear_present)
        × (p.exit_present ≡ di m.exit_present)
        × (p.entry_barrier_open ≡ di m.entry_barrier_open)
        × (p.entry_barrier_closed ≡ di m.entry_barrier_closed)
        × (p.exit_barrier_open ≡ di m.exit_barrier_open)
        × (p.exit_barrier_closed ≡ di m.exit_barrier_closed)
        × (m.safety_clear ≡ none → p.safety_clear ≡ false)
        × ((a : ℕ) → m.safety_clear ≡ some a → p.safety_clear ≡ di a)
        × (p.observed ≡ now)
  read_inputs_exact exchange now m honest near = (
    snapshot_by di now m,
    read,
    refl,
    refl,
    refl,
    refl,
    refl,
    refl,
    refl,
    refl,
    (λ h. ap (safety di) h),
    (λ a h. ap (safety di) h),
    refl,
  )
    where
      read : read_inputs (read_bits exchange) now m ≡ inputs (snapshot_by di now m)
      read =
          unfold read_inputs in
          let (below, above, w) = span_bounds m.entry_present m.entry_present (other_addresses m) in
          let lo = (addresses m).0 in
          let hi = (addresses m).1 in
          ap (read_answer now m lo) (read_block exchange lo hi (honest lo (hi - lo + 1)) near)
          ∙ unfold read_answer in
            ap inputs (
              snapshot_by-same (λ a. bit_at (block di lo (hi - lo + 1)) (a - lo)) di now m
                (bit_at-address lo hi m.entry_present below above)
                (Within-Agree lo hi (other_addresses m) w))
