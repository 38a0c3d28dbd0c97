-- ===== src/Journal/Faults.antt =====
-- How a failed step of AppendRecord breaks the chain of the records that follow.
use plantops_edge_scale.Base.{
  ℕ, ◌+◌, ◌%◌, ◌≡◌, ◌≢◌, refl, sym, ◌∙◌, Bool, true, false, String, str_eq, List, [], ◌∷◌, ◌++◌,
  Option, none, some, mod64, AllPass-first_failure,
}
use plantops_edge_scale.Journal.{
  Record, Line, blank, junk, row, File, lines_of, Digest, Journal, Answers, JournalError, system,
  err, last_record, load_tail, tail_found, next_record, flushed, written, encoded, append_loaded,
  ensure_loaded, preflight, checked, append_record, verify_lines,
}
use plantops_edge_scale.Journal.Chain.{chain_end, Verifies, Verifies-row}
use plantops_edge_scale.Journal.Append.{NoFailure}

module _ {E : Type 0} (digest : Digest E) where
  Verifies-last :
      (n : ℕ) (p : String) (xs : List (Line E)) (r : Record E)
      → Verifies digest n p (xs ++ row r ∷ [])
      → r.seq ≡ (chain_end digest n p xs).0
  unfolding verify_lines chain_end
  Verifies-last n p [] r v = (Verifies-row digest n p r [] v).0
  Verifies-last n p (blank ∷ xs) r v = Verifies-last n p xs r v
  Verifies-last n p (junk m ∷ xs) r v = absurd (cc)
  Verifies-last n p (row q ∷ xs) r v =
      Verifies-last ((n + 1) % mod64) q.hash xs r (Verifies-row digest n p q (xs ++ row r ∷ []) v).3

  -- An initialised journal writes its next record when no step fails.
  append_when_loaded :
      (a : Answers E) (event : E) (j : Journal) (file : File E)
      → NoFailure a
      → str_eq j.path "" ≡ false
      → j.initialized ≡ true
      → (append_record digest a event (j, file)).0.1
        ≡ some (lines_of file ++ row (next_record digest j event) ∷ [])
  unfolding append_record
  append_when_loaded a event j file f p i =
      passed _
        (AllPass-first_failure (preflight a j) (rw f.runs refl, (p, (rw f.has_directory refl, tt))))
    where
      r : Record E
      r = next_record digest j event

      grown : File E
      grown = some (lines_of file ++ row r ∷ [])

      synced : (o : Option JournalError) → (flushed j (lines_of file) r o).0.1 ≡ grown
      synced none = unfold flushed in refl
      synced (some x) = unfold flushed in refl

      wrote : (o : Option String) → o ≡ none → (written a j (lines_of file) r o).0.1 ≡ grown
      wrote none x = unfold written in synced _
      wrote (some m) x = absurd (cc)

      prepared :
          (o : Option JournalError) → o ≡ none → (encoded digest a event file j o).0.1 ≡ grown
      prepared none x = unfold encoded in wrote a.write f.writes
      prepared (some y) x = absurd (cc)

      loaded :
          (b : Bool)
          → b ≡ true
          → (append_loaded digest a event file (ensure_loaded a file j b)).0.1 ≡ grown
      loaded true x =
          unfold append_loaded ensure_loaded in
          prepared _ (rw (f.marshals.0, f.marshals.1, f.reopens))
      loaded false x = absurd (cc)

      passed : (o : Option JournalError) → o ≡ none → (checked digest a event j file o).0.1 ≡ grown
      passed none x = unfold checked in loaded j.initialized i
      passed (some y) x = absurd (cc)

  -- A first call whose tail cannot be opened fails, and leaves the journal as if it were at the start:
  -- it counts as loaded, its sequence number and hash are still those of an empty file.
  failed_load :
      (a : Answers E) (event : E) (j : Journal) (ls : List (Line E)) (m : String)
      → a.cancelled ≡ none
      → a.mkdir ≡ none
      → a.open_tail ≡ some m
      → str_eq j.path "" ≡ false
      → j.initialized ≡ false
      → (append_record digest a event (j, some ls)).0 ≡ (record j { initialized = true }, some ls)
  unfolding append_record
  failed_load a event j ls m c d o p i =
      passed _ (AllPass-first_failure (preflight a j) (rw c refl, (p, (rw d refl, tt))))
    where
      after : Journal × File E
      after = (record j { initialized = true }, some ls)

      opened :
          (t : Option String)
          → t ≡ some m
          → (append_loaded digest a event (some ls) (
              tail_found j
                (elim t [ some x ↦ err (system x) | none ↦ last_record a.scan none ls ]))).0
            ≡ after
      opened none x = absurd (cc)
      opened (some y) x = unfold append_loaded tail_found in refl

      loaded :
          (b : Bool)
          → b ≡ false
          → (append_loaded digest a event (some ls) (ensure_loaded a (some ls) j b)).0 ≡ after
      loaded true x = absurd (cc)
      loaded false x = unfold ensure_loaded load_tail in opened a.open_tail o

      passed :
          (e : Option JournalError) → e ≡ none → (checked digest a event j (some ls) e).0 ≡ after
      passed none x = unfold checked in loaded j.initialized i
      passed (some y) x = absurd (cc)

  -- After a first call whose tail cannot be opened, a second call that meets no failure appends record
  -- number 1 once more: a file that held records no longer verifies.
  pub failed_load_breaks_chain :
      (a b : Answers E) (event event' : E) (j : Journal) (ls : List (Line E)) (m : String)
      → a.cancelled ≡ none
      → a.mkdir ≡ none
      → a.open_tail ≡ some m
      → str_eq j.path "" ≡ false
      → j.initialized ≡ false
      → j.seq ≡ 0
      → (chain_end digest 1 "" ls).0 ≢ 1
      → NoFailure b
      → ¬ Verifies digest 1 "" (
          lines_of
            (append_record digest b event' (append_record digest a event (j, some ls)).0).0.1)
  failed_load_breaks_chain a b event event' j ls m c d o p i s held f v =
      let first = failed_load a event j ls m c d o p i in
      let second =
        append_when_loaded b event' (record j { initialized = true }) (some ls) f p refl in
      held (sym (Verifies-last 1 "" ls _ (rw (first, second) at v)) ∙ numbered)
    where
      numbered : (next_record digest (record j { initialized = true }) event').seq ≡ 1
      numbered = unfold next_record in rw s refl
