-- ===== src/Journal/Append.antt =====
-- Appending to a journal where no step fails.
use plantops_edge_scale.Base.{
  ℕ, ◌+◌, ◌%◌, ◌≡◌, refl, Bool, true, false, String, str_eq, List, [], ◌∷◌, Option, none, some,
  mod64, AllPass-first_failure,
}
use plantops_edge_scale.Domain.Types.{RawWeightRef}
use plantops_edge_scale.Journal.{
  Record, Line, blank, junk, row, File, lines_of, Digest, Journal, Answers, JournalError, system,
  Result, ok, err, last_record, tail_found, load_tail, next_record, flushed, written, encoded,
  append_loaded, ensure_loaded, preflight, checked, append_record, verify_lines,
}
use plantops_edge_scale.Journal.Chain.{Verifies, Verifies-row}

-- No step fails.
pub record NoFailure {E : Type 0} (a : Answers E) : Type 0 where
  pub runs : a.cancelled ≡ none
  pub has_directory : a.mkdir ≡ none
  pub opens : a.open_tail ≡ none
  pub scans : a.scan ≡ none
  pub marshals : (a.marshal_payload ≡ none) × (a.marshal_record ≡ none)
  pub reopens : a.open_append ≡ none
  pub writes : a.write ≡ none
  pub syncs : (a.sync ≡ none) × (a.close ≡ none)

module _ {E : Type 0} (digest : Digest E) where
  last_record_total :
      (n : ℕ) (p : String) (last : Option (Record E)) (ls : List (Line E))
      → Verifies digest n p ls
      → (found : Option (Record E)) × (last_record none last ls ≡ ok found)
  unfolding last_record verify_lines
  last_record_total n p last [] v = (last, refl)
  last_record_total n p last (blank ∷ ls) v = last_record_total n p last ls v
  last_record_total n p last (junk m ∷ ls) v = absurd (cc)
  last_record_total n p last (row r ∷ ls) v =
      last_record_total ((n + 1) % mod64) r.hash (some r) ls (Verifies-row digest n p r ls v).3

  tail_total :
      (o scan : Option String) (ls : List (Line E))
      → o ≡ none
      → scan ≡ none
      → Verifies digest 1 "" ls
      → (l : Option (Record E)) × ((elim o [
        | some m ↦ err (system m)
        | none ↦ last_record scan none ls
      ])
          ≡ ok l)
  tail_total none none ls x y v = last_record_total 1 "" none ls v
  tail_total none (some m) ls x y v = absurd (cc)
  tail_total (some m) scan ls x y v = absurd (cc)

  tail_found_total :
      (j : Journal) (r : Result (Option (Record E))) (l : Option (Record E))
      → r ≡ ok l
      → (tail_found j r).1 ≡ none
  unfolding tail_found
  tail_found_total j (ok none) l x = refl
  tail_found_total j (ok (some r)) l x = refl
  tail_found_total j (err e) l x = absurd (cc)

  ensure_loaded_total :
      (a : Answers E) (file : File E) (j : Journal) (b : Bool)
      → NoFailure a
      → Verifies digest 1 "" (lines_of file)
      → (ensure_loaded a file j b).1 ≡ none
  unfolding ensure_loaded load_tail
  ensure_loaded_total a file j true f v = refl
  ensure_loaded_total a none j false f v = refl
  ensure_loaded_total a (some ls) j false f v =
      let (l, x) = tail_total a.open_tail a.scan ls f.opens f.scans v in tail_found_total j _ l x

  -- The call answers with a reference.
  abbrev Succeeds : (Journal × File E) × Result RawWeightRef → Type 0
  Succeeds r = (ref : RawWeightRef) × (r.1 ≡ ok ref)

  append_loaded-Succeeds :
      (a : Answers E) (event : E) (file : File E) (t : Journal × Option JournalError)
      → NoFailure a
      → t.1 ≡ none
      → Succeeds (append_loaded digest a event file t)
  unfolding append_loaded encoded written flushed
  append_loaded-Succeeds a event file (j, some x) f e = absurd (cc)
  append_loaded-Succeeds a event file (j, none) f e =
      prepared _ (rw (f.marshals.0, f.marshals.1, f.reopens))
    where
      r : Record E
      r = next_record digest j event

      synced : (o : Option JournalError) → o ≡ none → Succeeds (flushed j (lines_of file) r o)
      synced none x = (record { seq = r.seq; hash = r.hash }, refl)
      synced (some y) x = absurd (cc)

      wrote : (o : Option String) → o ≡ none → Succeeds (written a j (lines_of file) r o)
      wrote none x = synced _ (rw (f.syncs.0, f.syncs.1))
      wrote (some m) x = absurd (cc)

      prepared : (o : Option JournalError) → o ≡ none → Succeeds (encoded digest a event file j o)
      prepared none x = wrote a.write f.writes
      prepared (some y) x = absurd (cc)

  -- When no step fails, the path is set and the file verifies, AppendRecord gives a reference.
  pub append_succeeds :
      (a : Answers E) (event : E) (j : Journal) (file : File E)
      → NoFailure a
      → str_eq j.path "" ≡ false
      → Verifies digest 1 "" (lines_of file)
      → (ref : RawWeightRef) × ((append_record digest a event (j, file)).1 ≡ ok ref)
  unfolding append_record checked
  append_succeeds a event j file f p v =
      passed _
        (AllPass-first_failure (preflight a j) (rw f.runs refl, (p, (rw f.has_directory refl, tt))))
    where
      passed : (o : Option JournalError) → o ≡ none → Succeeds (checked digest a event j file o)
      passed none x = append_loaded-Succeeds a event file _ f (ensure_loaded_total a file j _ f v)
      passed (some y) x = absurd (cc)
