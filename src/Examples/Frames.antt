-- ===== src/Examples/Frames.antt =====
-- Lines of the scale.
use plantops_edge_scale.Base.{◌≡◌, refl, true, false, codes, negsuc, ascii, if◌then◌else◌}
use plantops_edge_scale.Base.{Has, IsInt64, ℕ, List, [], ◌∷◌, Option, none, some, String}
use plantops_edge_scale.Domain.RawWeight.{RawWeightEvent}
use plantops_edge_scale.Journal.{Answers}
use plantops_edge_scale.ScaleAscii.Bounds.{IsWeight, IsStability, tokens, parse_line_sources}
use plantops_edge_scale.ScaleAscii.Stream.{
  StreamCollector, Turn, Attempt, opened_dial, Stream, run_stream,
}
use plantops_edge_scale.ScaleAscii.Audited.{IsAudited, run_stream-IsAudited}
use plantops_edge_scale.ScaleAscii.{parse_line, parsed, refused, missing_field}

sample_test :
    parse_line ascii (codes " WT=-28460; st = Stable;OVERLOAD=0;FAULT= e5 ")
    ≡ parsed (record {
      weight_kg = negsuc 28459;
      stable = true;
      overload = false;
      fault = codes "e5";
      seen_weight = true;
      seen_stable = true;
    })
unfolding parse_line if◌then◌else◌
sample_test = refl

missing_test : parse_line ascii (codes "ST=1") ≡ refused missing_field
unfolding parse_line if◌then◌else◌
missing_test = refl

abbrev sample_line : List ℕ
sample_line = codes " WT=-28460; st = Stable;OVERLOAD=0;FAULT= e5 "

parse_line_sources_example :
    IsInt64 (negsuc 28459)
    × Has (IsWeight ascii (negsuc 28459)) (tokens ascii sample_line)
    × Has (IsStability ascii true) (tokens ascii sample_line)
parse_line_sources_example = parse_line_sources ascii sample_line _ sample_test

-- A connection that gives a frame and a line without a weight, and then breaks.
abbrev smooth : Answers RawWeightEvent
smooth = record {
  cancelled = none;
  mkdir = none;
  open_tail = none;
  scan = none;
  marshal_payload = none;
  marshal_record = none;
  open_append = none;
  write = none;
  torn = [];
  sync = none;
  close = none;
}

abbrev collector : StreamCollector
collector = record {
  addr = "10.0.0.5:4001";
  station_id = "EDGE-01";
  unicode = ascii;
  text = λ _. "";
  base64 = λ _. "";
  describe = λ _. "no weight";
  digest = λ seq prev event. "d41d8c";
}

abbrev turn : List ℕ → Option String → Turn
turn raw e = record {
  cancelled = false;
  raw = raw;
  read_error = e;
  received = 1000;
  tx = "";
  appended = smooth;
  cancelled_late = false;
  noted = smooth;
}

abbrev attempt : Attempt
attempt = record {
  cancelled = false;
  dial = opened_dial (turn (codes "WT=28460;ST=1") none ∷ turn (codes "ST=1") (some "EOF") ∷ []);
  stopped = true;
}

abbrev empty_stream : Stream
empty_stream = record {
  journal = record { path = "raw.jsonl"; initialized = false; seq = 0; prev_hash = "" };
  file = none;
  readings = [];
  faults = [];
}

run_stream-IsAudited_example :
    IsAudited collector (run_stream collector (attempt ∷ []) empty_stream).0
run_stream-IsAudited_example = run_stream-IsAudited collector (attempt ∷ []) empty_stream tt
