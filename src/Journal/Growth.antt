-- ===== src/Journal/Growth.antt =====
-- AppendRecord only adds lines, and where it succeeds the file has the record of its event.
use plantops_edge_scale.Base.{
  ◌≡◌, refl, inl, String, List, [], ◌∷◌, Option, none, some, Has, Has-append_left, Has-append_right,
  first_failure,
}
use plantops_edge_scale.Domain.Types.{RawWeightRef}
use plantops_edge_scale.Journal.{
  Record, Line, blank, junk, row, File, lines_of, Digest, Journal, Answers, JournalError, Result,
  ok, err, flushed, written, encoded, append_loaded, ensure_loaded, checked, append_record,
  next_record, first_error, preflight,
}

module _ {E : Type 0} where
  -- The line is the record of the event, with that reference.
  abbrev pub IsRecordOf : E → RawWeightRef → Line E → Type 0
  IsRecordOf event ref blank = ⊥
  IsRecordOf event ref (junk m) = ⊥
  IsRecordOf event ref (row r) = (r.seq ≡ ref.seq) × ((r.hash ≡ ref.hash) × (r.event ≡ event))

  abbrev Records : E → List (Line E) → Result RawWeightRef → Type 0
  Records event ls (ok ref) = Has (IsRecordOf event ref) ls
  Records event ls (err x) = Unit

  -- Lines with P stay, and a reference that is given stands in the file.
  abbrev pub Grown :
      (Line E → Type 0) → List (Line E) → E → (Journal × File E) × Result RawWeightRef → Type 0
  Grown P ls event x = (Has P ls → Has P (lines_of x.0.1)) × Records event (lines_of x.0.1) x.1

module _ {E : Type 0} (P : Line E → Type 0) (digest : Digest E) (a : Answers E) (event : E) where
  flushed-Grown :
      (j : Journal) (ls : List (Line E)) (r : Record E) (o : Option JournalError)
      → r.event ≡ event
      → Grown P ls event (flushed j ls r o)
  unfolding flushed
  flushed-Grown j ls r (some x) e = (Has-append_left P ls _, tt)
  flushed-Grown j ls r none e = (
    Has-append_left P ls _,
    Has-append_right (IsRecordOf event (record { seq = r.seq; hash = r.hash })) ls (row r ∷ [])
        (inl (refl, (refl, e))),
  )

  written-Grown :
      (j : Journal) (ls : List (Line E)) (r : Record E) (o : Option String)
      → r.event ≡ event
      → Grown P ls event (written a j ls r o)
  unfolding written
  written-Grown j ls r (some m) e = (Has-append_left P ls _, tt)
  written-Grown j ls r none e = flushed-Grown j ls r (first_error (a.sync ∷ a.close ∷ [])) e

  encoded-Grown :
      (file : File E) (j : Journal) (o : Option JournalError)
      → Grown P (lines_of file) event (encoded digest a event file j o)
  unfolding encoded next_record
  encoded-Grown file j (some x) = (λ h. h, tt)
  encoded-Grown file j none =
      written-Grown j (lines_of file) (next_record digest j event) a.write refl

  loaded-Grown :
      (file : File E) (j : Journal) (o : Option JournalError)
      → Grown P (lines_of file) event (append_loaded digest a event file (j, o))
  unfolding append_loaded
  loaded-Grown file j (some x) = (λ h. h, tt)
  loaded-Grown file j none =
      encoded-Grown file j (first_error (a.marshal_payload ∷ a.marshal_record ∷ a.open_append ∷ []))

  checked-Grown :
      (j : Journal) (file : File E) (o : Option JournalError)
      → Grown P (lines_of file) event (checked digest a event j file o)
  unfolding checked
  checked-Grown j file (some x) = (λ h. h, tt)
  checked-Grown j file none =
      let t = ensure_loaded a file j j.initialized in loaded-Grown file t.0 t.1

  pub append_record-Grown :
      (j : Journal) (file : File E)
      → Grown P (lines_of file) event (append_record digest a event (j, file))
  unfolding append_record
  append_record-Grown j file = checked-Grown j file (first_failure (preflight a j))
