-- ===== src/ScaleAscii/Stream.antt =====
-- internal/adapters/scaleascii/stream.go: StreamCollector over the journal. The bytes that arrive, the
-- errors of the connection and the answers of the operating system are the inputs.
use plantops_edge_scale.Base.{
  ℕ, Bool, true, false, String, List, [], ◌∷◌, ◌++◌, Option, none, some, Unicode, if◌then◌else◌,
}
use plantops_edge_scale.Domain.Types.{Time, Health, ScaleReading, AuditedScaleReading, RawWeightRef}
use plantops_edge_scale.Domain.RawWeight.{RawWeightEvent, RawWeightEventKind}
use plantops_edge_scale.Journal.{
  Journal, File, Digest, Answers, JournalError, Result, ok, err, append_record,
}
use plantops_edge_scale.ScaleAscii.{Fields, Parsed, parsed, refused, ParseError, parse_line}

-- The collector, with what it takes from packages strings, base64 and fmt, and from the journal's hash.
pub record StreamCollector : Type 0 where
  pub addr : String
  pub station_id : String
  pub unicode : Unicode
  pub text : List ℕ → String  -- string(bytes)
  pub base64 : List ℕ → String
  pub describe : ParseError → String
  pub digest : Digest RawWeightEvent

-- One turn of the loop of consume: ReadString's bytes and error, and all that the turn asks for.
pub record Turn : Type 0 where
  pub cancelled : Bool
  pub raw : List ℕ
  pub read_error : Option String
  pub received : Time
  pub tx : String
  pub appended : Answers RawWeightEvent
  pub cancelled_late : Bool
  pub noted : Answers RawWeightEvent

-- The journal, and what OnReading and OnFault were given, in order.
pub record Stream : Type 0 where
  pub journal : Journal
  pub file : File RawWeightEvent
  pub readings : List AuditedScaleReading
  pub faults : List String

abbrev health_of : List ℕ → Health
health_of [] = Health.healthy
health_of (_ ∷ _) = Health.fault

-- ParseLine's reading, with the time of its frame.
abbrev pub reading_of : StreamCollector → Turn → Fields → ScaleReading
reading_of k t f = record {
  weight_kg = f.weight_kg;
  stable = f.stable;
  overload = f.overload;
  fault = k.text f.fault;
  health = health_of f.fault;
  observed = t.received;
}

-- The event of a frame.
abbrev pub frame_event : StreamCollector → Turn → Parsed → RawWeightEvent
frame_event k t (parsed f) = record {
  station_id = k.station_id;
  transaction_id = t.tx;
  kind = RawWeightEventKind.frame;
  received_at_utc = t.received;
  source = k.addr;
  raw_base64 = k.base64 t.raw;
  raw_text = t.raw;
  weight_kg = some f.weight_kg;
  stable = some f.stable;
  overload = some f.overload;
  fault = k.text f.fault;
  health = health_of f.fault;
  parse_ok = true;
  error = "";
}
frame_event k t (refused e) = record {
  station_id = k.station_id;
  transaction_id = t.tx;
  kind = RawWeightEventKind.frame;
  received_at_utc = t.received;
  source = k.addr;
  raw_base64 = k.base64 t.raw;
  raw_text = t.raw;
  weight_kg = none;
  stable = none;
  overload = none;
  fault = "";
  health = Health.fault;
  parse_ok = false;
  error = k.describe e;
}

-- The event of an error of the connection.
abbrev pub transport_event : StreamCollector → Time → String → String → RawWeightEvent
transport_event k at tx message = record {
  station_id = k.station_id;
  transaction_id = tx;
  kind = RawWeightEventKind.transport_error;
  received_at_utc = at;
  source = k.addr;
  raw_base64 = "";
  raw_text = [];
  weight_kg = none;
  stable = none;
  overload = none;
  fault = "";
  health = Health.disconnected;
  parse_ok = false;
  error = message;
}

abbrev pub with_log : Stream → Journal × File RawWeightEvent → Stream
with_log s (j, file) = record s { journal = j; file = file }

abbrev pub logged :
    (RawWeightRef → Stream → Stream)
    → Stream
    → (Journal × File RawWeightEvent) × Result RawWeightRef
    → Stream × Option JournalError
logged use_ref s (log, ok ref) = (use_ref ref (with_log s log), none)
logged use_ref s (log, err x) = (with_log s log, some x)

-- AppendRecord, and what is done with its answer.
abbrev pub log_then :
    StreamCollector
    → Answers RawWeightEvent
    → RawWeightEvent
    → (RawWeightRef → Stream → Stream)
    → Stream
    → Stream × Option JournalError
log_then k a event use_ref s = logged use_ref s (append_record k.digest a event (s.journal, s.file))

-- OnReading for a frame that parses, OnFault for one that does not.
abbrev pub deliver : StreamCollector → Turn → Parsed → RawWeightRef → Stream → Stream
deliver k t (parsed f) ref s = record s {
  readings = s.readings ++ record { reading = reading_of k t f; raw_ref = ref } ∷ [];
}
deliver k t (refused e) ref s = record s { faults = s.faults ++ k.describe e ∷ [] }

abbrev pub report : String → RawWeightRef → Stream → Stream
report m _ s = record s { faults = s.faults ++ m ∷ [] }

abbrev pub is_empty : List ℕ → Bool
is_empty [] = true
is_empty (_ ∷ _) = false

-- The bytes of a turn.
unfoldable pub take_frame : StreamCollector → Turn → Stream → Stream × Option JournalError
unfolding parse_line append_record
take_frame k t s =
    let p = parse_line k.unicode t.raw in
    if is_empty t.raw
    then (s, none)
    else log_then k t.appended (frame_event k t p) (deliver k t p) s

-- The error of a turn, which ends consume.
unfoldable pub take_error : StreamCollector → Turn → String → Stream → Stream × Option JournalError
unfolding append_record
take_error k t m s =
    if t.cancelled_late
    then (s, none)
    else log_then k t.noted (transport_event k t.received t.tx m) (report m) s

-- What follows a frame: the error of its append, the next turn, or the error of the connection.
abbrev pub after_frame :
    StreamCollector
    → Turn
    → Stream × Option JournalError
    → Stream × Option JournalError
    → Option JournalError
    → Option String
    → Stream × Option JournalError
after_frame k t r next (some x) m = (r.0, some x)
after_frame k t r next none none = next
after_frame k t r next none (some m) = take_error k t m r.0

-- consume
unfoldable pub consume : StreamCollector → List Turn → Stream → Stream × Option JournalError
unfolding take_frame take_error
consume k [] s = (s, none)
consume k (t ∷ ts) s =
    let r = take_frame k t s in
    let next = consume k ts r.0 in
    if t.cancelled then (s, none) else after_frame k t r next r.1 t.read_error

-- One turn of the loop of Run: a dial that fails, or a connection. `stopped`: the context was done, or
-- is done in the wait that follows.
pub data Dial : Type 0 where
  refused_dial : Time → String → String → Answers RawWeightEvent → Dial
  opened_dial : List Turn → Dial

pub record Attempt : Type 0 where
  pub cancelled : Bool
  pub dial : Dial
  pub stopped : Bool

unfoldable pub try_dial : StreamCollector → Dial → Stream → Stream × Option JournalError
unfolding append_record consume
try_dial k (refused_dial at tx m a) s = log_then k a (transport_event k at tx m) (report m) s
try_dial k (opened_dial turns) s = consume k turns s

abbrev pub after_dial :
    Stream × Option JournalError
    → Stream × Option JournalError
    → Option JournalError
    → Bool
    → Stream × Option JournalError
after_dial r next (some x) stopped = (r.0, some x)
after_dial r next none stopped = if stopped then (r.0, none) else next

-- Run, with an address and a journal.
unfoldable pub run_stream : StreamCollector → List Attempt → Stream → Stream × Option JournalError
unfolding try_dial
run_stream k [] s = (s, none)
run_stream k (a ∷ rest) s =
    let r = try_dial k a.dial s in
    let next = run_stream k rest r.0 in
    if a.cancelled then (s, none) else after_dial r next r.1 a.stopped
