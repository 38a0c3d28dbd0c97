-- ===== src/Journal.antt =====
-- internal/adapters/rawjournal/journal.go: the append-only hash-chained journal of scale frames.
-- A file is the list of its lines, absent when there is no file. A line is empty, a record, or text
-- that json.Unmarshal refuses. `Digest` is the hexadecimal SHA-256 of the marshalled payload. What the
-- operating system and json.Marshal answer to one call is its `Answers`. The event of a record comes
-- back from the file as it was given, which holds for texts that are valid UTF-8; every line ends with
-- its newline, so a record is never joined to a torn line; and a line that json.Unmarshal accepts has
-- every field of a record.
pub mod Chain
pub mod Append
pub mod Growth
pub mod Tamper
pub mod Faults
use plantops_edge_scale.Base.{
  ℕ, suc, ◌+◌, ◌%◌, ◌==◌, Bool, true, false, not, String, str_eq, List, [], ◌∷◌, ◌++◌, Option, none,
  some, mod64, if◌then◌else◌, is_some, first_failure,
}
use plantops_edge_scale.Domain.Types.{RawWeightRef}

pub record Record (E : Type 0) : Type 0 where
  pub seq : ℕ  -- uint64
  pub prev_hash : String
  pub event : E
  pub hash : String

pub data Line (E : Type 0) : Type 0 where
  blank : Line E
  junk : String → Line E
  row : Record E → Line E

abbrev pub File : Type 0 → Type 0
File E = Option (List (Line E))

abbrev pub lines_of : {E : Type 0} → File E → List (Line E)
lines_of none = []
lines_of (some ls) = ls

abbrev pub Digest : Type 0 → Type 0
Digest E = ℕ → String → E → String

pub record Journal : Type 0 where
  pub path : String
  pub initialized : Bool
  pub seq : ℕ  -- uint64
  pub prev_hash : String

-- An error for each step that can fail. A write that fails leaves `torn` at the file's end.
pub record Answers (E : Type 0) : Type 0 where
  pub cancelled : Option String
  pub mkdir : Option String
  pub open_tail : Option String
  pub scan : Option String
  pub marshal_payload : Option String
  pub marshal_record : Option String
  pub open_append : Option String
  pub write : Option String
  pub torn : List (Line E)
  pub sync : Option String
  pub close : Option String

pub data JournalError : Type 0 where
  system decode : String → JournalError
  empty_path sequence_break previous_mismatch hash_mismatch : JournalError

pub data Result {ℓ} (A : Type ℓ) : Type ℓ where
  ok : A → Result A
  err : JournalError → Result A

abbrev system_error : Option String → Option JournalError
system_error none = none
system_error (some m) = some (system m)

-- The loop of loadTail: the last record of the file, or the first error.
unfoldable pub last_record :
    {E : Type 0} → Option String → Option (Record E) → List (Line E) → Result (Option (Record E))
last_record none last [] = ok last
last_record (some m) last [] = err (system m)
last_record scan last (blank ∷ ls) = last_record scan last ls
last_record scan last (junk m ∷ ls) = err (decode m)
last_record scan last (row r ∷ ls) = last_record scan (some r) ls

-- What loadTail makes of the outcome: `initialized` is set before anything can fail.
unfoldable pub tail_found :
    {E : Type 0} → Journal → Result (Option (Record E)) → Journal × Option JournalError
tail_found j (err x) = (record j { initialized = true }, some x)
tail_found j (ok none) = (record j { initialized = true }, none)
tail_found j (ok (some r)) =
    (record j { initialized = true; seq = r.seq; prev_hash = r.hash }, none)

unfoldable pub load_tail :
    {E : Type 0} → Answers E → File E → Journal → Journal × Option JournalError
unfolding tail_found
load_tail a none j = (record j { initialized = true }, none)
load_tail a (some ls) j =
    tail_found j (elim a.open_tail [ some m ↦ err (system m) | none ↦ last_record a.scan none ls ])

abbrev pub next_seq : Journal → ℕ
next_seq j = (j.seq + 1) % mod64

-- The record that the journal appends for an event.
unfoldable pub next_record : {E : Type 0} → Digest E → Journal → E → Record E
next_record digest j event = record {
  seq = next_seq j;
  prev_hash = j.prev_hash;
  event = event;
  hash = digest (next_seq j) j.prev_hash event;
}

abbrev message : Option String → String
message none = ""
message (some m) = m

-- The first error of a row of steps.
abbrev pub first_error : List (Option String) → Option JournalError
first_error [] = none
first_error (some m ∷ rest) = some (system m)
first_error (none ∷ rest) = first_error rest

abbrev advance : {E : Type 0} → Journal → Record E → Journal
advance j r = record j { seq = r.seq; prev_hash = r.hash }

-- After the write: a failed fsync or close leaves the line in the file and the journal behind.
unfoldable pub flushed :
    {E : Type 0}
    → Journal
    → List (Line E)
    → Record E
    → Option JournalError
    → (Journal × File E) × Result RawWeightRef
flushed j ls r (some x) = ((j, some (ls ++ row r ∷ [])), err x)
flushed j ls r none =
    ((advance j r, some (ls ++ row r ∷ [])), ok (record { seq = r.seq; hash = r.hash }))

-- The write of the record's line, with the error that it gives.
unfoldable pub written :
    {E : Type 0}
    → Answers E
    → Journal
    → List (Line E)
    → Record E
    → Option String
    → (Journal × File E) × Result RawWeightRef
unfolding flushed
written a j ls r (some m) = ((j, some (ls ++ a.torn)), err (system m))
written a j ls r none = flushed j ls r (first_error (a.sync ∷ a.close ∷ []))

-- What comes before the write: marshalling, and the opening of the file.
unfoldable pub encoded :
    {E : Type 0}
    → Digest E
    → Answers E
    → E
    → File E
    → Journal
    → Option JournalError
    → (Journal × File E) × Result RawWeightRef
unfolding written
encoded digest a event file j (some x) = ((j, file), err x)
encoded digest a event file j none =
    written a j (lines_of file) (next_record digest j event) a.write

-- AppendRecord once the tail is loaded.
unfoldable pub append_loaded :
    {E : Type 0}
    → Digest E
    → Answers E
    → E
    → File E
    → Journal × Option JournalError
    → (Journal × File E) × Result RawWeightRef
unfolding encoded
append_loaded digest a event file (j, some x) = ((j, file), err x)
append_loaded digest a event file (j, none) =
    encoded digest a event file j
      (first_error (a.marshal_payload ∷ a.marshal_record ∷ a.open_append ∷ []))

-- The tail is loaded by the first call only: the flag says whether that is done.
unfoldable pub ensure_loaded :
    {E : Type 0} → Answers E → File E → Journal → Bool → Journal × Option JournalError
ensure_loaded a file j true = (j, none)
ensure_loaded a file j false = load_tail a file j

-- What AppendRecord checks first: the context, the path and the directory.
abbrev pub preflight : {E : Type 0} → Answers E → Journal → List (Bool × JournalError)
preflight a j =
    (is_some a.cancelled, system (message a.cancelled))
    ∷ (str_eq j.path "", empty_path)
    ∷ (is_some a.mkdir, system (message a.mkdir))
    ∷ []

unfoldable pub checked :
    {E : Type 0}
    → Digest E
    → Answers E
    → E
    → Journal
    → File E
    → Option JournalError
    → (Journal × File E) × Result RawWeightRef
unfolding ensure_loaded append_loaded
checked digest a event j file (some x) = ((j, file), err x)
checked digest a event j file none =
    append_loaded digest a event file (ensure_loaded a file j j.initialized)

unfoldable pub append_record :
    {E : Type 0}
    → Digest E
    → Answers E
    → E
    → Journal × File E
    → (Journal × File E) × Result RawWeightRef
unfolding checked
append_record digest a event (j, file) =
    checked digest a event j file (first_failure (preflight a j))

-- The loop of Verify: the first thing wrong, if there is one.
unfoldable pub verify_lines :
    {E : Type 0} → Digest E → Option String → ℕ → String → List (Line E) → Option JournalError
verify_lines digest none expected prev [] = none
verify_lines digest (some m) expected prev [] = some (system m)
verify_lines digest scan expected prev (blank ∷ ls) = verify_lines digest scan expected prev ls
verify_lines digest scan expected prev (junk m ∷ ls) = some (decode m)
verify_lines digest scan expected prev (row r ∷ ls) =
    let rest = verify_lines digest scan ((expected + 1) % mod64) r.hash ls in
    if not (r.seq == expected)
    then some sequence_break
    else if not (str_eq r.prev_hash prev)
    then some previous_mismatch
    else if not (str_eq r.hash (digest r.seq r.prev_hash r.event))
    then some hash_mismatch
    else rest

-- Verify: the file is opened with `opened`, which fails when there is no file, and read with `scan`.
unfoldable pub verify :
    {E : Type 0} → Digest E → Option String → Option String → File E → Option JournalError
unfolding verify_lines
verify digest (some m) scan file = some (system m)
verify digest none scan none = some (system "no such file")
verify digest none scan (some ls) = verify_lines digest scan 1 "" ls
