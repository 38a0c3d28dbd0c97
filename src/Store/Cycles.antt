-- ===== src/Store/Cycles.antt =====
-- internal/adapters/sqlitestore/cycle_store.go: the operations on weighing cycles. Each is one
-- transaction: the steps of `Trouble` are numbered from BeginTx, 0, to Commit, the last.
use plantops_edge_scale.Base.{
  ℕ, ◌/◌, suc, ◌&&◌, not, String, str_eq, List, [], ◌∷◌, ◌++◌, Option, none, some, ℤ, pos, negsuc,
  ◌-ℤ◌, Unicode, if◌then◌else◌,
}
use plantops_edge_scale.Domain.Types.{Time, is_zero, Ticket, Override, Mode}
use plantops_edge_scale.Domain.Workflow.{CycleStatus, PassNumber}
use plantops_edge_scale.Domain.Cycle.{
  WeighPass, Duration, PairValidation, validate_pair, validate_first_pass, PassError,
}
use plantops_edge_scale.Domain.WeighCycle.{
  WeighCycle, CycleReason, no_policy, is_called, is_queued, is_complete, is_unset, combine_mode,
}
use plantops_edge_scale.Engine.Identity.{normalize_plate}
use plantops_edge_scale.Store.{
  Db, StoreError, no_cycle_id, no_first_pass_id, no_ticket_id, no_second_pass, already_complete,
  not_new, not_callable, not_called, durable_not_called, bad_first_pass, bad_pair, Try, ok, err,
  ◌>>=◌, ◌>>◌, Trouble, answer, refuse_if, settle, insert_pass, insert_cycle, update_cycle,
  get_cycle, durable_status, insert_ticket, insert_overrides, enqueue,
}

-- What a call takes from outside: the clock, the Unicode tables and the database's trouble.
pub record Call : Type 0 where
  pub now : Time
  pub unicode : Unicode
  pub trouble : Trouble

-- normalizeVehicleKey
abbrev pub vehicle_key : Call → String → List ℕ
vehicle_key env s = normalize_plate env.unicode s

abbrev pub or_text : String → String → String
or_text a b = if str_eq a "" then b else a

abbrev pub or_time : Time → Time → Time
or_time a b = if is_zero a then b else a

abbrev pub first_pass_error : Option PassError → Try (Unit {0})
first_pass_error none = ok tt
first_pass_error (some e) = err (bad_first_pass e)

-- What OpenCycle fills in before it writes.
abbrev pub opened : Call → WeighCycle → WeighCycle
opened env c =
    let first = record c.first_pass { cycle_id = c.id; number = PassNumber.first } in
    record c {
      status = CycleStatus.queued;
      first_pass = first;
      plate = or_text c.plate first.plate;
      rfid = or_text c.rfid first.rfid;
      station_id = or_text c.station_id first.station_id;
      queued_at = or_time (or_time c.queued_at first.committed_at) env.now;
    }

-- OpenCycle
unfoldable pub open_steps : Call → WeighCycle → Db → Try Db
unfolding refuse_if insert_pass insert_cycle validate_first_pass
open_steps env cycle db = do
  refuse_if (str_eq cycle.id "") no_cycle_id
  refuse_if (not (is_unset cycle.status) && not (is_queued cycle.status)) (not_new cycle.status)
  let c = opened env cycle
  first_pass_error (validate_first_pass c.first_pass)
  refuse_if (str_eq c.first_pass.id "") no_first_pass_id
  answer (env.trouble 0)
  with_pass ← insert_pass (env.trouble 1) (vehicle_key env c.first_pass.plate) c.first_pass db
  with_cycle ← insert_cycle (env.trouble 2) env.now (vehicle_key env c.plate) c with_pass
  answer (env.trouble 3)
  ok with_cycle

abbrev pub open_cycle : Call → WeighCycle → Db → Db × Option StoreError
open_cycle env cycle db = settle db (open_steps env cycle db)

-- CallCycle, with the cycle that was read.
unfoldable pub call_read : Call → Time → WeighCycle → Db → Try Db
unfolding update_cycle
call_read env at cycle db =
    let update = do
      with_cycle ←
          update_cycle (env.trouble 2)
            (record cycle {
              status = CycleStatus.called;
              called_at = some at;
              last_block_reason = CycleReason.clear;
            })
            at db
      answer (env.trouble 3)
      ok with_cycle
    in if is_called cycle.status
      then (do answer (env.trouble 3); ok db)
      else if not (is_queued cycle.status)
      then err (not_callable cycle.status)
      else update

unfoldable pub call_steps : Call → String → Time → Db → Try Db
unfolding refuse_if get_cycle call_read
call_steps env id at db = do
  refuse_if (str_eq id "") no_cycle_id
  answer (env.trouble 0)
  cycle ← get_cycle (env.trouble 1) id db
  call_read env (or_time at env.now) cycle db

abbrev pub call_cycle : Call → String → Time → Db → Db × Option StoreError
call_cycle env id at db = settle db (call_steps env id at db)

-- MarkCycleStatus
unfoldable pub mark_steps : Call → String → CycleStatus → CycleReason → Time → Db → Try Db
unfolding refuse_if get_cycle update_cycle
mark_steps env id status reason at db = do
  answer (env.trouble 0)
  cycle ← get_cycle (env.trouble 1) id db
  refuse_if (is_complete cycle.status) already_complete
  with_cycle ←
      update_cycle (env.trouble 2) (record cycle { status = status; last_block_reason = reason })
        (or_time at env.now) db
  answer (env.trouble 3)
  ok with_cycle

abbrev pub mark_cycle_status :
    Call → String → CycleStatus → CycleReason → Time → Db → Db × Option StoreError
mark_cycle_status env id status reason at db = settle db (mark_steps env id status reason at db)

-- time.Duration / time.Second, which rounds towards zero.
abbrev pub seconds : Duration → ℤ
seconds (pos n) = pos (n / 1000000000)
seconds (negsuc n) = pos 0 -ℤ pos (suc n / 1000000000)

abbrev pub or_mode : Mode → Mode → Mode
or_mode Mode.unset m = m
or_mode m _ = m

abbrev pub or_overrides : List Override → List Override → List Override
or_overrides [] os = os
or_overrides (o ∷ os) _ = o ∷ os

-- finalTicketFromCycle
unfoldable pub final_ticket : Ticket → WeighCycle → WeighPass → Time → Ticket
unfolding combine_mode ◌-ℤ◌
final_ticket t c second now = record t {
  cycle_id = c.id;
  transaction_id = or_text t.transaction_id c.id;
  station_id = or_text t.station_id c.station_id;
  plate = or_text t.plate c.plate;
  rfid = or_text t.rfid c.rfid;
  first_pass_id = c.first_pass.id;
  second_pass_id = second.id;
  gross_kg = c.gross_kg;
  tare_kg = c.tare_kg;
  net_kg = c.net_kg;
  first_weight_observed_at = c.first_pass.weight.observed_at;
  second_weight_observed_at = second.weight.observed_at;
  first_weight_raw_ref = c.first_pass.weight.raw_ref;
  second_weight_raw_ref = second.weight.raw_ref;
  pair_elapsed_seconds = seconds c.pair_elapsed;
  mode = or_mode t.mode (combine_mode c.first_pass.mode second.mode);
  overrides = or_overrides t.overrides (c.first_pass.overrides ++ second.overrides);
  committed_at = now;
  weight_kg = c.net_kg;
  weight_observed_at = second.weight.observed_at;
  weight_raw_ref = second.weight.raw_ref;
}

abbrev pub second_of : Option WeighPass → Try WeighPass
second_of none = err no_second_pass
second_of (some p) = ok p

abbrev pub completed_time : Option Time → Time → Time
completed_time none now = now
completed_time (some at) now = or_time at now

-- The completed cycle, from the validation of its pair.
abbrev pub completed : WeighCycle → WeighPass → PairValidation → Time → WeighCycle
completed c second v now = record c {
  status = CycleStatus.complete;
  second_pass = some second;
  pair_elapsed = v.elapsed;
  gross_kg = v.gross_kg;
  tare_kg = v.tare_kg;
  net_kg = v.net_kg;
  last_block_reason = CycleReason.clear;
  completed_at = some now;
}

-- The transaction of CompleteCycle.
unfoldable pub complete_tx : Call → WeighCycle → WeighPass → Ticket → Time → Db → Try Db
unfolding refuse_if durable_status insert_pass update_cycle insert_ticket insert_overrides enqueue
complete_tx env c second ticket now db = do
  answer (env.trouble 0)
  status ← durable_status (env.trouble 1) c.id db
  refuse_if (not (is_called status)) (durable_not_called status)
  with_pass ← insert_pass (env.trouble 2) (vehicle_key env second.plate) second db
  with_cycle ← update_cycle (env.trouble 3) c now with_pass
  with_ticket ← insert_ticket (env.trouble 4) ticket.cycle_id ticket with_cycle
  with_overrides ← insert_overrides (env.trouble 5) ticket with_ticket
  with_sync ← enqueue (env.trouble 6) ticket now with_overrides
  answer (env.trouble 7)
  answer (env.trouble 8)
  ok (record with_sync {
    last_completed = some (record {
      ticket_id = ticket.id;
      cycle_id = c.id;
      completed_at = now;
      gross_kg = c.gross_kg;
      tare_kg = c.tare_kg;
      net_kg = c.net_kg;
    });
  })

-- CompleteCycle
unfoldable pub complete_steps : Call → WeighCycle → Ticket → Db → Try Db
unfolding refuse_if validate_pair final_ticket complete_tx
complete_steps env cycle ticket db = do
  given ← second_of cycle.second_pass
  let second = record given { cycle_id = cycle.id; number = PassNumber.second }
  let v = validate_pair cycle.first_pass second no_policy
  refuse_if (not v.valid) (bad_pair v.reason)
  refuse_if (not (is_called cycle.status) && not (is_complete cycle.status))
      (not_called cycle.status)
  let now = completed_time cycle.completed_at env.now
  let c = completed cycle second v now
  let final = final_ticket ticket c second now
  refuse_if (str_eq final.id "") no_ticket_id
  complete_tx env c second final now db

abbrev pub complete_cycle : Call → WeighCycle → Ticket → Db → Db × Option StoreError
complete_cycle env cycle ticket db = settle db (complete_steps env cycle ticket db)
