-- ===== src/Journal/Chain.antt =====
-- The hash chain: what verified lines say of the next record.
use plantops_edge_scale.Base.{
  ℕ, ◌+◌, ◌%◌, ◌≡◌, String, eq_iff, List, [], ◌∷◌, none, mod64, if◌then◌else◌, arith,
}
use plantops_edge_scale.Journal.{Record, Line, blank, junk, row, Digest, verify_lines}

module _ {E : Type 0} (digest : Digest E) where
  -- The sequence number and the hash that the next record has to show, after the lines.
  unfoldable pub chain_end : ℕ → String → List (Line E) → ℕ × String
  chain_end expected prev [] = (expected, prev)
  chain_end expected prev (blank ∷ ls) = chain_end expected prev ls
  chain_end expected prev (junk m ∷ ls) = chain_end expected prev ls
  chain_end expected prev (row r ∷ ls) = chain_end ((expected + 1) % mod64) r.hash ls

  -- The lines verify from the given sequence number and hash on.
  abbrev pub Verifies : ℕ → String → List (Line E) → Type 0
  Verifies expected prev ls = verify_lines digest none expected prev ls ≡ none

  -- A verified first record is the one expected.
  pub Verifies-row :
      (n : ℕ) (p : String) (r : Record E) (ls : List (Line E))
      → Verifies n p (row r ∷ ls)
      → (r.seq ≡ n)
        × (r.prev_hash ≡ p)
        × (r.hash ≡ digest r.seq r.prev_hash r.event)
        × Verifies ((n + 1) % mod64) r.hash ls
  unfolding verify_lines if◌then◌else◌
  Verifies-row n p r ls h =
      ground (arith, eq_iff r.prev_hash p, eq_iff r.hash (digest r.seq r.prev_hash r.event))
