-- ===== src/ScaleAscii/Audited.antt =====
-- No reading reaches the workflow before its frame stands in the journal.
use plantops_edge_scale.Base.{
  ◌≡◌, refl, ap, ◌∙◌, Bool, String, List, [], ◌∷◌, Option, none, some, if_intro, Has, Has-imp, All,
  All-imp, All-append,
}
use plantops_edge_scale.Domain.Types.{AuditedScaleReading, RawWeightRef}
use plantops_edge_scale.Domain.RawWeight.{RawWeightEvent, RawWeightEventKind}
use plantops_edge_scale.Journal.{
  Journal, File, Line, blank, junk, row, lines_of, Answers, JournalError, Result, ok, err,
  append_record,
}
use plantops_edge_scale.Journal.Growth.{IsRecordOf, Grown, append_record-Grown}
use plantops_edge_scale.ScaleAscii.{Fields, Parsed, parsed, refused, parse_line}
use plantops_edge_scale.ScaleAscii.Stream.{
  StreamCollector, Turn, Stream, reading_of, frame_event, transport_event, with_log, logged,
  log_then, deliver, report, is_empty, take_frame, take_error, after_frame, after_dial, consume,
  Dial, Attempt, try_dial, run_stream, refused_dial, opened_dial,
}

-- The line is the record that the reading refers to: a frame whose bytes parse to the reading's weight,
-- stability and overload.
abbrev pub Backs : StreamCollector → AuditedScaleReading → Line RawWeightEvent → Type 0
Backs k a blank = ⊥
Backs k a (junk m) = ⊥
Backs k a (row r) =
    (r.seq ≡ a.raw_ref.seq)
    × ((r.hash ≡ a.raw_ref.hash)
        × ((r.event.kind ≡ RawWeightEventKind.frame)
            × ((f : Fields) × ((parse_line k.unicode r.event.raw_text ≡ parsed f)
                  × ((f.weight_kg ≡ a.reading.weight_kg)
                      × ((f.stable ≡ a.reading.stable) × (f.overload ≡ a.reading.overload)))))))

module _ (k : StreamCollector) where
  abbrev pub IsAudited : Stream → Type 0
  IsAudited s = All (λ a. Has (Backs k a) (lines_of s.file)) s.readings

  abbrev After : Stream × Option JournalError → Type 0
  After r = IsAudited r.0

  logged-IsAudited :
      (event : RawWeightEvent) (use_ref : RawWeightRef → Stream → Stream) (s : Stream)
      (x : (Journal × File RawWeightEvent) × Result RawWeightRef)
      → ((ref : RawWeightRef) (v : Stream)
          → IsAudited v
          → Has (IsRecordOf event ref) (lines_of v.file)
          → IsAudited (use_ref ref v))
      → IsAudited s
      → ((P : Line RawWeightEvent → Type 0) → Grown P (lines_of s.file) event x)
      → IsAudited (logged use_ref s x).0
  logged-IsAudited event use_ref s ((j, file), ok ref) keeps h g =
      keeps ref (with_log s (j, file)) (All-imp _ _ s.readings (λ r b. (g (Backs k r)).0 b) h)
        (g (λ _. Unit)).1
  logged-IsAudited event use_ref s ((j, file), err m) keeps h g =
      All-imp _ _ s.readings (λ r b. (g (Backs k r)).0 b) h

  -- A log call keeps what is audited, if what it does with the reference does.
  log_then-IsAudited :
      (a : Answers RawWeightEvent) (event : RawWeightEvent)
      (use_ref : RawWeightRef → Stream → Stream) (s : Stream)
      → ((ref : RawWeightRef) (v : Stream)
          → IsAudited v
          → Has (IsRecordOf event ref) (lines_of v.file)
          → IsAudited (use_ref ref v))
      → IsAudited s
      → IsAudited (log_then k a event use_ref s).0
  log_then-IsAudited a event use_ref s keeps h =
      logged-IsAudited event use_ref s (append_record k.digest a event (s.journal, s.file)) keeps h
        (λ P. append_record-Grown P k.digest a event s.journal s.file)

  -- The record of a frame backs its reading.
  frame-Backs :
      (t : Turn) (f : Fields) (ref : RawWeightRef) (line : Line RawWeightEvent)
      → parse_line k.unicode t.raw ≡ parsed f
      → IsRecordOf (frame_event k t (parsed f)) ref line
      → Backs k (record { reading = reading_of k t f; raw_ref = ref }) line
  frame-Backs t f ref blank p h = h
  frame-Backs t f ref (junk m) p h = h
  frame-Backs t f ref (row r) p (s, (d, e)) = (
    s,
    (
      d,
      (
        ap (λ x. x.kind) e,
        (f, (ap (λ x. parse_line k.unicode x.raw_text) e ∙ p, (refl, (refl, refl)))),
      ),
    ),
  )

  deliver-IsAudited :
      (t : Turn) (p : Parsed) (ref : RawWeightRef) (v : Stream)
      → parse_line k.unicode t.raw ≡ p
      → IsAudited v
      → Has (IsRecordOf (frame_event k t p) ref) (lines_of v.file)
      → IsAudited (deliver k t p ref v)
  deliver-IsAudited t (refused e) ref v p h r = h
  deliver-IsAudited t (parsed f) ref v p h r = All-append _ v.readings _ h (
    Has-imp _ (Backs k (record { reading = reading_of k t f; raw_ref = ref })) (lines_of v.file)
        (λ line. frame-Backs t f ref line p) r,
    tt,
  )

  take_frame-IsAudited : (t : Turn) (s : Stream) → IsAudited s → IsAudited (take_frame k t s).0
  unfolding take_frame
  take_frame-IsAudited t s h =
      if_intro After (is_empty t.raw) (λ _. h)
        (λ _.
          log_then-IsAudited t.appended (frame_event k t (parse_line k.unicode t.raw))
            (deliver k t (parse_line k.unicode t.raw)) s
            (λ ref v g r. deliver-IsAudited t (parse_line k.unicode t.raw) ref v refl g r) h)

  take_error-IsAudited :
      (t : Turn) (m : String) (s : Stream) → IsAudited s → IsAudited (take_error k t m s).0
  unfolding take_error
  take_error-IsAudited t m s h =
      if_intro After t.cancelled_late (λ _. h)
        (λ _.
          log_then-IsAudited t.noted (transport_event k t.received t.tx m) (report m) s
            (λ _ _ g _. g) h)

  after_frame-IsAudited :
      (t : Turn) (r next : Stream × Option JournalError) (e : Option JournalError)
      (m : Option String)
      → IsAudited r.0
      → IsAudited next.0
      → IsAudited (after_frame k t r next e m).0
  after_frame-IsAudited t r next (some x) m h n = h
  after_frame-IsAudited t r next none none h n = n
  after_frame-IsAudited t r next none (some text) h n = take_error-IsAudited t text r.0 h

  after_dial-IsAudited :
      (r next : Stream × Option JournalError) (e : Option JournalError) (stopped : Bool)
      → IsAudited r.0
      → IsAudited next.0
      → IsAudited (after_dial r next e stopped).0
  after_dial-IsAudited r next (some x) stopped h n = h
  after_dial-IsAudited r next none stopped h n = if_intro After stopped (λ _. h) (λ _. n)

  consume-IsAudited : (ts : List Turn) (s : Stream) → IsAudited s → IsAudited (consume k ts s).0
  unfolding consume
  consume-IsAudited [] s h = h
  consume-IsAudited (t ∷ ts) s h =
      let r = take_frame k t s in
      let kept = take_frame-IsAudited t s h in
      if_intro After t.cancelled (λ _. h)
        (λ _.
          after_frame-IsAudited t r (consume k ts r.0) r.1 t.read_error kept
            (consume-IsAudited ts r.0 kept))

  try_dial-IsAudited : (d : Dial) (s : Stream) → IsAudited s → IsAudited (try_dial k d s).0
  unfolding try_dial
  try_dial-IsAudited (refused_dial at tx m a) s h =
      log_then-IsAudited a (transport_event k at tx m) (report m) s (λ _ _ g _. g) h
  try_dial-IsAudited (opened_dial turns) s h = consume-IsAudited turns s h

  -- Every reading handed to the workflow is backed by a record of the journal's file: a frame with the
  -- reading's sequence number and hash, whose bytes parse to the reading's weight, stability and overload.
  -- The collector keeps this over any course of dials, frames, errors and failures of the journal.
  pub run_stream-IsAudited :
      (attempts : List Attempt) (s : Stream) → IsAudited s → IsAudited (run_stream k attempts s).0
  unfolding run_stream
  run_stream-IsAudited [] s h = h
  run_stream-IsAudited (a ∷ rest) s h =
      let r = try_dial k a.dial s in
      let kept = try_dial-IsAudited a.dial s h in
      if_intro After a.cancelled (λ _. h)
        (λ _.
          after_dial-IsAudited r (run_stream k rest r.0) r.1 a.stopped kept
            (run_stream-IsAudited rest r.0 kept))
