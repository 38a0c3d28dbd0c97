-- ===== src/Journal/Tamper.antt =====
-- Tamper evidence: two files that verify, with as many records and the same last hash, hold the same
-- records, or show two records whose payloads collide under the digest.
use plantops_edge_scale.Base.{
  ℕ, suc, ◌+◌, ◌%◌, ◌≡◌, refl, sym, ap, ◌∙◌, ◌⊎◌, inl, inr, String, str_eq, eq_iff, List, [], ◌∷◌,
  mod64, arith, Bool-cases,
}
use native.Mathlib.Decide.{ℕ_discrete}
use plantops_edge_scale.Journal.{Record, Line, blank, junk, row, Digest, verify_lines}
use plantops_edge_scale.Journal.Chain.{Verifies, Verifies-row}

-- The records of the lines, the newest first, on top of those of `older`.
unfoldable pub records_onto : {E : Type 0} → List (Record E) → List (Line E) → List (Record E)
records_onto older [] = older
records_onto older (blank ∷ ls) = records_onto older ls
records_onto older (junk m ∷ ls) = records_onto older ls
records_onto older (row r ∷ ls) = records_onto (r ∷ older) ls

abbrev pub last_hash : {E : Type 0} → List (Record E) → String
last_hash [] = ""
last_hash (r ∷ rs) = r.hash

abbrev last_seq : {E : Type 0} → List (Record E) → ℕ
last_seq [] = 1
last_seq (r ∷ rs) = (r.seq + 1) % mod64

abbrev pub count {ℓ} : {A : Type ℓ} → List A → ℕ
count [] = 0
count (x ∷ xs) = suc (count xs)

-- Two payloads that differ have one digest.
pub record Collision {E : Type 0} (digest : Digest E) : Type 0 where
  pub one : Record E
  pub other : Record E
  pub same_digest :
      digest one.seq one.prev_hash one.event ≡ digest other.seq other.prev_hash other.event
  pub different :
      ¬ ((one.seq ≡ other.seq) × (one.prev_hash ≡ other.prev_hash) × (one.event ≡ other.event))

module _ {E : Type 0} (digest : Digest E) where
  -- Newest first, each record continues the ones below it.
  abbrev Chained : List (Record E) → Type 0
  Chained [] = Unit
  Chained (r ∷ rs) =
      (r.seq ≡ last_seq rs)
      × (r.prev_hash ≡ last_hash rs)
      × (r.hash ≡ digest r.seq r.prev_hash r.event)
      × Chained rs

  records_onto-Chained :
      (older : List (Record E)) (ls : List (Line E)) (n : ℕ) (p : String)
      → n ≡ last_seq older
      → p ≡ last_hash older
      → Chained older
      → Verifies digest n p ls
      → Chained (records_onto older ls)
  unfolding records_onto verify_lines
  records_onto-Chained older [] n p s h c v = c
  records_onto-Chained older (blank ∷ ls) n p s h c v = records_onto-Chained older ls n p s h c v
  records_onto-Chained older (junk m ∷ ls) n p s h c v = absurd (cc)
  records_onto-Chained older (row r ∷ ls) n p s h c v =
      let (rs, rp, rh, rest) = Verifies-row digest n p r ls v in
      records_onto-Chained (r ∷ older) ls ((n + 1) % mod64) r.hash
        (ap (λ k. (k + 1) % mod64) (sym rs)) refl (rs ∙ s, rp ∙ h, rh, c) rest

  module _ (decide : Discrete E) where
    same_payload :
        (r q : Record E) → Dec ((r.seq ≡ q.seq) × (r.prev_hash ≡ q.prev_hash) × (r.event ≡ q.event))
    same_payload r q = elim (ℕ_discrete r.seq q.seq) [
      | no d ↦ no (λ s. d s.0)
      | yes s ↦ elim (Bool-cases (str_eq r.prev_hash q.prev_hash)) [
        | inr d ↦ no (λ s. ground (arith, eq_iff r.prev_hash q.prev_hash))
        | inl p ↦ elim (decide r.event q.event) [
          | no d ↦ no (λ s. d s.2)
          | yes e ↦ yes (s, (eq_iff r.prev_hash q.prev_hash).0 p, e)
        ]
      ]
    ]

    Chained-same :
        (rs qs : List (Record E))
        → Chained rs
        → Chained qs
        → count rs ≡ count qs
        → last_hash rs ≡ last_hash qs
        → (rs ≡ qs) ⊎ Collision digest
    Chained-same [] [] c d n h = inl refl
    Chained-same [] (q ∷ qs) c d n h = absurd (omega arith)
    Chained-same (r ∷ rs) [] c d n h = absurd (omega arith)
    Chained-same (r ∷ rs) (q ∷ qs) c d n h = elim (same_payload r q) [
      | no different ↦
          inr
            (record { one = r; other = q; same_digest = sym c.2 ∙ h ∙ d.2; different = different })
      | yes same ↦ elim (Chained-same rs qs c.3 d.3 (omega arith) (sym c.1 ∙ same.1 ∙ d.1)) [
        | inr x ↦ inr x
        | inl x ↦ inl (ground arith)
      ]
    ]

    -- Two runs of lines that verify from the journal's start, with as many records and the same last
    -- hash, hold the same records in the same order, or a collision of the digest is at hand.
    pub tampering_shows :
        (ls ks : List (Line E))
        → Verifies digest 1 "" ls
        → Verifies digest 1 "" ks
        → count (records_onto [] ls) ≡ count (records_onto [] ks)
        → last_hash (records_onto [] ls) ≡ last_hash (records_onto [] ks)
        → (records_onto [] ls ≡ records_onto [] ks) ⊎ Collision digest
    tampering_shows ls ks v w n h =
        Chained-same _ _ (records_onto-Chained [] ls 1 "" refl refl tt v)
          (records_onto-Chained [] ks 1 "" refl refl tt w) n h
