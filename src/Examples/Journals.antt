-- ===== src/Examples/Journals.antt =====
-- A journal of two frames, under a constant digest.
use plantops_edge_scale.Base.{
  ℕ, ◌≡◌, ◌⊎◌, refl, false, List, [], ◌∷◌, none, some, if◌then◌else◌, arith,
}
use native.Mathlib.Decide.{ℕ_discrete}
use plantops_edge_scale.Domain.Types.{RawWeightRef}
use plantops_edge_scale.Journal.{
  Line, blank, row, lines_of, Digest, Journal, Answers, ok, append_record, verify_lines,
}
use plantops_edge_scale.Journal.Chain.{Verifies, chain_end}
use plantops_edge_scale.Journal.Append.{NoFailure, append_succeeds}
use plantops_edge_scale.Journal.Faults.{failed_load_breaks_chain}
use plantops_edge_scale.Journal.Tamper.{records_onto, Collision, tampering_shows}

-- An event is a number, and every payload has one digest.
abbrev digest : Digest ℕ
digest seq prev event = "d41d8c"

abbrev smooth : Answers ℕ
smooth = record {
  cancelled = none;
  mkdir = none;
  open_tail = none;
  scan = none;
  marshal_payload = none;
  marshal_record = none;
  open_append = none;
  write = none;
  torn = [];
  sync = none;
  close = none;
}

abbrev unreadable : Answers ℕ
unreadable = record smooth { open_tail = some "permission denied" }

abbrev new_journal : Journal
new_journal = record { path = "raw.jsonl"; initialized = false; seq = 0; prev_hash = "" }

abbrev first_line : Line ℕ
first_line = row (record { seq = 1; prev_hash = ""; event = 20; hash = "d41d8c" })

abbrev one_line : List (Line ℕ)
one_line = first_line ∷ blank ∷ []

verified_test : Verifies digest 1 "" one_line
unfolding verify_lines if◌then◌else◌
verified_test = refl

smooth-NoFailure : NoFailure smooth
smooth-NoFailure = record {
  runs = refl;
  has_directory = refl;
  opens = refl;
  scans = refl;
  marshals = (refl, refl);
  reopens = refl;
  writes = refl;
  syncs = (refl, refl);
}

append_succeeds_example :
    (ref : RawWeightRef) × ((append_record digest smooth 30 (new_journal, some one_line)).1
      ≡ ok ref)
append_succeeds_example =
    append_succeeds digest smooth 30 new_journal (some one_line) smooth-NoFailure refl verified_test

tampering_shows_example :
    (records_onto [] one_line ≡ records_onto [] (first_line ∷ [])) ⊎ Collision digest
unfolding verify_lines if◌then◌else◌ records_onto
tampering_shows_example =
    tampering_shows digest ℕ_discrete one_line (first_line ∷ []) verified_test refl refl refl

failed_load_breaks_chain_example : ¬ Verifies digest 1 "" (
    lines_of
      (append_record digest smooth 30
        (append_record digest unreadable 20 (new_journal, some one_line)).0).0.1)
unfolding chain_end
failed_load_breaks_chain_example =
    failed_load_breaks_chain digest unreadable smooth 20 30 new_journal one_line "permission denied"
      refl refl refl refl refl refl (λ h. ground arith) smooth-NoFailure
