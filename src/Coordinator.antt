-- ===== src/Coordinator.antt =====
-- internal/cycle: the coordinator of business cycles over the store. `ids` gives what newID answers for a
-- prefix, `clock` what now()
-- answers at the n-th place of an operation that calls it, `calls` what the n-th call of the store takes
-- from outside.
pub mod Adds
pub mod Durable
use plantops_edge_scale.Base.{
  ℕ, suc, Bool, true, false, ◌&&◌, ◌||◌, not, String, str_eq, List, [], ◌∷◌, ◌++◌, Option, none,
  some, ℤ, pos, leb_ℤ, ltb_ℤ, if◌then◌else◌,
}
use plantops_edge_scale.Domain.Types.{Time, is_zero, Ticket, RawWeightRef}
use plantops_edge_scale.Domain.Workflow.{CycleStatus, PassNumber, Direction}
use plantops_edge_scale.Domain.Cycle.{
  WeighPass, PairPolicy, PairReason, PairValidation, PassError, validate_pair, validate_first_pass,
  time_sub, is_b_to_a,
}
use plantops_edge_scale.Domain.WeighCycle.{WeighCycle, CycleReason, combine_mode}
use plantops_edge_scale.Store.{Db, CycleRow, StoreError, Try, ok, err}
use plantops_edge_scale.Store.Cycles.{
  Call, or_text, or_time, seconds, completed, open_cycle, call_cycle, mark_cycle_status,
  complete_cycle,
}
use plantops_edge_scale.Store.Queries.{find_called_cycle, list_queue}

pub data CycleError : Type 0 where
  no_store wrong_direction no_called_cycle : CycleError
  bad_first : PassError → CycleError
  invalid_pair window_over : PairReason → CycleError
  store : StoreError → CycleError

pub record Coordinator : Type 0 where
  pub has_store : Bool
  pub policy : PairPolicy

pub record Env : Type 0 where
  pub ids : String → String
  pub clock : ℕ → Time
  pub calls : ℕ → Call

-- What an operation answers, beside the database that it leaves.
pub record Answer {ℓ} (A : Type ℓ) : Type ℓ where
  pub value : Option A
  pub error : Option CycleError

abbrev pub fail {ℓ} : {A : Type ℓ} → CycleError → Answer A
fail e = record { value = none; error = some e }

abbrev pub stored {ℓ} : {A : Type ℓ} → A → Db × Option StoreError → Db × Answer A
stored a (db, none) = (db, record { value = some a; error = none })
stored a (db, some e) = (db, fail (CycleError.store e))

abbrev pub or_direction : Direction → Direction
or_direction Direction.unset = Direction.a_to_b
or_direction d = d

-- What RecordFirstPass fills in.
abbrev pub first_given : Env → WeighPass → WeighPass
first_given env pass = record pass {
  id = or_text pass.id (env.ids "pass1");
  number = PassNumber.first;
  direction = or_direction pass.direction;
  committed_at = or_time pass.committed_at (env.clock 0);
}

abbrev pub queued_cycle : String → WeighPass → WeighCycle
queued_cycle id pass = record {
  id = id;
  station_id = pass.station_id;
  plate = pass.plate;
  rfid = pass.rfid;
  status = CycleStatus.queued;
  first_pass = record pass { cycle_id = id };
  second_pass = none;
  queued_at = pass.committed_at;
  called_at = none;
  completed_at = none;
  pair_elapsed = pos 0;
  gross_kg = pos 0;
  tare_kg = pos 0;
  net_kg = pos 0;
  last_block_reason = CycleReason.clear;
}

abbrev pub open_checked : Env → WeighPass → Db → Option PassError → Db × Answer WeighCycle
open_checked env pass db (some e) = (db, fail (CycleError.bad_first e))
open_checked env pass db none =
    let c = queued_cycle (env.ids "cycle") pass in stored c (open_cycle (env.calls 0) c db)

-- RecordFirstPass
unfoldable pub record_first_pass : Env → Coordinator → WeighPass → Db → Db × Answer WeighCycle
unfolding validate_first_pass
record_first_pass env k pass db =
    if not k.has_store
    then (db, fail no_store)
    else (let p = first_given env pass in open_checked env p db (validate_first_pass p))

-- Call
unfoldable pub call : Env → Coordinator → String → Db → Db × Answer (Unit {0})
call env k id db =
    if not k.has_store
    then (db, fail no_store)
    else stored tt (call_cycle (env.calls 0) id (env.clock 0) db)

abbrev answered {ℓ} : {A : Type ℓ} → Try A → Answer A
answered (ok a) = record { value = some a; error = none }
answered (err e) = fail (CycleError.store e)

-- Queue
unfoldable pub queue :
    (List CycleRow → List CycleRow) → Env → Coordinator → Db → Answer (List WeighCycle)
unfolding list_queue
queue order env k db =
    if not k.has_store then fail no_store else answered (list_queue order (env.calls 0) db)

-- ResolveCalled, whose value is the cycle that it found, if any.
unfoldable pub resolve_called :
    Env → Coordinator → String → String → Db → Answer (Option WeighCycle)
unfolding find_called_cycle
resolve_called env k plate rfid db =
    if not k.has_store
    then fail no_store
    else answered (find_called_cycle (env.calls 0) plate rfid db)

-- What RecordSecondPass fills in, before and after it has found the cycle.
abbrev pub second_given : Env → WeighPass → WeighPass
second_given env pass = record pass {
  id = or_text pass.id (env.ids "pass2");
  number = PassNumber.second;
  committed_at = or_time pass.committed_at (env.clock 0);
}

-- The ticket handed to CompleteCycle. Fields that are not set have Go's zero value.
abbrev pub base_ticket : Env → WeighCycle → WeighPass → Time → Ticket
base_ticket env open_ pass now = record {
  id = env.ids "ticket";
  station_id = open_.station_id;
  transaction_id = open_.id;
  cycle_id = open_.id;
  plate = open_.plate;
  rfid = open_.rfid;
  first_pass_id = "";
  second_pass_id = "";
  gross_kg = pos 0;
  tare_kg = pos 0;
  net_kg = pos 0;
  first_weight_observed_at = 0;
  second_weight_observed_at = 0;
  first_weight_raw_ref = record { seq = 0; hash = "" };
  second_weight_raw_ref = record { seq = 0; hash = "" };
  pair_elapsed_seconds = pos 0;
  camera_evidence = open_.first_pass.camera_evidence ++ pass.camera_evidence;
  weight_kg = pos 0;
  weight_observed_at = 0;
  weight_raw_ref = record { seq = 0; hash = "" };
  mode = combine_mode open_.first_pass.mode pass.mode;
  overrides = open_.first_pass.overrides ++ pass.overrides;
  committed_at = now;
  synced_at = none;
}

-- The ticket that is returned.
abbrev pub paired_ticket : Ticket → WeighCycle → WeighPass → Ticket
paired_ticket t c pass = record t {
  first_pass_id = c.first_pass.id;
  second_pass_id = pass.id;
  gross_kg = c.gross_kg;
  tare_kg = c.tare_kg;
  net_kg = c.net_kg;
  first_weight_observed_at = c.first_pass.weight.observed_at;
  second_weight_observed_at = pass.weight.observed_at;
  first_weight_raw_ref = c.first_pass.weight.raw_ref;
  second_weight_raw_ref = pass.weight.raw_ref;
  pair_elapsed_seconds = seconds c.pair_elapsed;
}

abbrev is_time_invalid : CycleStatus → Bool
is_time_invalid CycleStatus.pair_time_invalid = true
is_time_invalid _ = false

abbrev is_wrong_truck : CycleStatus → Bool
is_wrong_truck CycleStatus.wrong_truck = true
is_wrong_truck _ = false

-- The open cycle, and a ticket on success.
abbrev pub Paired : Type 0
Paired = WeighCycle × Option Ticket

abbrev pub kept : WeighCycle → CycleError → Answer Paired
kept open_ e = record { value = some (open_, none); error = some e }

-- A pair that is not valid; the errors of MarkCycleStatus are ignored.
unfoldable pub reject_pair :
    Env → PairPolicy → WeighCycle → PairValidation → Db → Db × Answer Paired
reject_pair env policy open_ v db =
    let mark = λ (status : CycleStatus).
      (mark_cycle_status (env.calls 1) open_.id status (CycleReason.pair v.reason) (env.clock 1)
        db).0 in
    if is_time_invalid v.status
      && (ltb_ℤ (pos 0) policy.max_elapsed && ltb_ℤ policy.max_elapsed v.elapsed)
    then (mark CycleStatus.pair_time_invalid, kept open_ (window_over v.reason))
    else if not (is_wrong_truck v.status)
    then (mark CycleStatus.called, kept open_ (invalid_pair v.reason))
    else (db, kept open_ (invalid_pair v.reason))

abbrev pub complete_answer : WeighCycle → Ticket → Db × Option StoreError → Db × Answer Paired
complete_answer c t (db, none) = (db, record { value = some (c, some t); error = none })
complete_answer c t (db, some e) = (db, kept c (CycleError.store e))

-- A valid pair.
unfoldable pub finish_pair : Env → WeighCycle → WeighPass → PairValidation → Db → Db × Answer Paired
finish_pair env open_ pass v db =
    let now = env.clock 1 in
    let c = completed open_ pass v now in
    let t = base_ticket env c pass now in
    complete_answer c (paired_ticket t c pass) (complete_cycle (env.calls 1) c t db)

unfoldable pub pair_with : Env → PairPolicy → WeighCycle → WeighPass → Db → Db × Answer Paired
unfolding validate_pair reject_pair finish_pair
pair_with env policy open_ given db =
    let pass = record given { cycle_id = open_.id } in
    let v = validate_pair open_.first_pass pass policy in
    if not v.valid then reject_pair env policy open_ v db else finish_pair env open_ pass v db

abbrev pub pair_found :
    Env → PairPolicy → WeighPass → Db → Try (Option WeighCycle) → Db × Answer Paired
pair_found env policy pass db (err e) = (db, fail (CycleError.store e))
pair_found env policy pass db (ok none) = (db, fail no_called_cycle)
pair_found env policy pass db (ok (some open_)) = pair_with env policy open_ pass db

-- RecordSecondPass
unfoldable pub record_second_pass : Env → Coordinator → WeighPass → Db → Db × Answer Paired
unfolding find_called_cycle pair_with
record_second_pass env k pass db =
    if not k.has_store
    then (db, fail no_store)
    else if not (is_b_to_a pass.direction)
    then (db, fail wrong_direction)
    else (let p = second_given env pass in
        pair_found env k.policy p db (find_called_cycle (env.calls 0) p.plate p.rfid db))

-- The loop of ExpireOrphans: the count, and the error that ends it.
abbrev pub is_fresh : PairPolicy → Time → WeighCycle → Bool
is_fresh policy at c =
    is_zero c.first_pass.weight.observed_at
    || leb_ℤ (time_sub at c.first_pass.weight.observed_at) policy.max_elapsed

unfoldable pub expire_loop :
    (ℕ → Call) → PairPolicy → Time → ℕ → List WeighCycle → Db → Db × (ℕ × Option StoreError)
unfolding time_sub
expire_loop calls policy at count [] db = (db, (count, none))
expire_loop calls policy at count (c ∷ cs) db =
    let reason = CycleReason.no_pair_within policy.max_elapsed in
    let marked = mark_cycle_status (calls 0) c.id CycleStatus.orphaned_first_pass reason at db in
    let skip = expire_loop calls policy at count cs db in
    let next = expire_loop (λ n. calls (suc n)) policy at (suc count) cs marked.0 in
    if is_fresh policy at c
    then skip
    else elim marked.1 [ none ↦ next | some e ↦ (marked.0, (count, some e)) ]

abbrev pub expire_all :
    Env → PairPolicy → Time → Db → Try (List WeighCycle) → Db × (ℕ × Option CycleError)
expire_all env policy at db (err e) = (db, (0, some (CycleError.store e)))
expire_all env policy at db (ok cs) =
    let r = expire_loop (λ n. env.calls (suc n)) policy at 0 cs db in
    (r.0, (r.1.0, elim r.1.1 [ none ↦ none | some e ↦ some (CycleError.store e) ]))

-- ExpireOrphans
unfoldable pub expire_orphans :
    (List CycleRow → List CycleRow) → Env → Coordinator → Time → Db → Db × (ℕ × Option CycleError)
unfolding list_queue expire_loop
expire_orphans order env k at db =
    if not k.has_store
    then (db, (0, some no_store))
    else if leb_ℤ k.policy.max_elapsed (pos 0)
    then (db, (0, none))
    else expire_all env k.policy (or_time at (env.clock 0)) db (list_queue order (env.calls 0) db)
