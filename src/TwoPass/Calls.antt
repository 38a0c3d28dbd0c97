-- ===== src/TwoPass/Calls.antt =====
-- internal/twopass/workflow.go: the calls of the workflow of two passes, and its snapshot.
use plantops_edge_scale.Base.{
  Bool, true, false, ◌&&◌, not, String, str_eq, Option, none, some, pos, if◌then◌else◌,
}
use plantops_edge_scale.Domain.Types.{
  Ticket, PositionSnapshot, RfidObservation, LprObservation, CameraEvidence,
}
use plantops_edge_scale.Domain.Workflow.{
  WorkflowState, Direction, PassNumber, CycleStatus, no_outputs, BlockReason, Transaction,
  is_identity_accepted,
}
use plantops_edge_scale.Domain.State
use plantops_edge_scale.Domain.Cycle.{is_a_to_b, is_b_to_a}
use plantops_edge_scale.Domain.WeighCycle.{WeighCycle}
use plantops_edge_scale.Store.Cycles.{seconds}
use plantops_edge_scale.Coordinator.{CycleError}
use plantops_edge_scale.Engine.Record.{Engine, EngineError}
use plantops_edge_scale.Engine.Handlers.{
  Input, step, reset_completed, active_transaction_id, snapshot, Snapshot,
}
use plantops_edge_scale.TwoPass.{
  CommitOutcome, Desk, find, add_evidence, EvidenceError, evidence_of, bridge_commit, Station,
  Outside, on_desk, detect_direction, swap_position, swap_outputs, all_presence_clear,
  reset_session, try_bind_called,
}

-- The engine with the bridge of this call as its ticket store.
abbrev pub inner_step : Outside → Input → Station → Station × Option EngineError
inner_step o i w =
    let r =
      step o.engine i
        (record w.inner { tickets = some (bridge_commit o.blocked o.cycles o.coordinator) }) in
    (record w { inner = r.0 }, r.1)

abbrev pub end_session : Outside → Transaction → Station → Station
end_session o t w = reset_session t.id (record w { inner = (reset_completed w.inner).0 })

-- A completed pass ends when no sensor sees the vehicle.
abbrev pub finish_pass : Outside → PositionSnapshot → Station → Option Transaction → Station
finish_pass o p w none = w
finish_pass o p w (some t) =
    if State.is_complete t.state && all_presence_clear p then end_session o t w else w

abbrev pub is_unset : Direction → Bool
is_unset Direction.unset = true
is_unset _ = false

abbrev pub with_direction : Direction → Station → Station
with_direction d w =
    let there = record w { direction = d } in
    if is_unset d then there else on_desk (λ b. record b { direction = d }) there

-- The direction of a new pass, from the side on which the vehicle stands.
abbrev pub learn_direction : PositionSnapshot → Station → Station
learn_direction p w =
    if is_unset w.direction && str_eq (active_transaction_id w.inner) ""
    then with_direction (detect_direction p) w
    else w

-- The engine always sees a vehicle that enters at the entry.
abbrev pub logical : Direction → PositionSnapshot → PositionSnapshot
logical d p = if is_b_to_a d then swap_position p else p

-- ObservePosition
unfoldable pub observe_position : Outside → PositionSnapshot → Station → Station
unfolding step reset_completed active_transaction_id try_bind_called
observe_position o p w =
    let ready = learn_direction p (finish_pass o p w w.inner.tx) in
    try_bind_called o (inner_step o (Input.position (logical ready.direction p)) ready).0

-- ObserveRFID, ObserveLPR
unfoldable pub observe_rfid : Outside → RfidObservation → Station → Station
unfolding step try_bind_called
observe_rfid o x w = try_bind_called o (inner_step o (Input.rfid x) w).0

unfoldable pub observe_lpr : Outside → LprObservation → Station → Station
unfolding step try_bind_called
observe_lpr o x w = try_bind_called o (inner_step o (Input.lpr x) w).0

-- ObserveCamera
unfoldable pub observe_camera : CameraEvidence → Station → Station × Option EvidenceError
unfolding add_evidence active_transaction_id
observe_camera e w =
    let r = add_evidence (active_transaction_id w.inner) e w.inner.store in
    (on_desk (λ _. r.0) w, r.1)

-- ObserveScale, ObserveFault, ClearFault and AuthorizeOverride go to the engine as they are.
unfoldable pub pass_on : Outside → Input → Station → Station × Option EngineError
unfolding step
pass_on o i w = inner_step o i w

abbrev pub tx_id : Option Transaction → String
tx_id none = ""
tx_id (some t) = t.id

abbrev pub after_reset : Station → Engine Desk × Option EngineError → Station × Option EngineError
after_reset w (e, some x) = (record w { inner = e }, some x)
after_reset w (e, none) = (reset_session (tx_id w.inner.tx) (record w { inner = e }), none)

-- ResetCompleted
unfoldable pub reset : Station → Station × Option EngineError
unfolding reset_completed
reset w = after_reset w (reset_completed w.inner)

abbrev pub effective : Direction → Direction
effective Direction.unset = Direction.a_to_b
effective d = d

-- The transaction as the two-pass view shows it: direction and physical sides.
abbrev pub physical_side : Direction → Transaction → Transaction
physical_side d t =
    let numbered = record t {
      direction = d;
      pass_number = if is_a_to_b d then PassNumber.first else PassNumber.second;
    } in
    if is_b_to_a d
    then record numbered {
      position_snapshot = swap_position t.position_snapshot;
      outputs = swap_outputs t.outputs;
    }
    else numbered

abbrev pub show_bound : Option WeighCycle → Transaction → Transaction
show_bound none t = t
show_bound (some c) t = record t {
  cycle_id = c.id;
  cycle_status = c.status;
  gross_kg = c.gross_kg;
  tare_kg = c.tare_kg;
  net_kg = c.net_kg;
  pair_elapsed_seconds = seconds c.pair_elapsed;
}

-- out.Cycle is the zero WeighCycle where the coordinator gave none.
abbrev pub show_cycle : Option WeighCycle → Transaction → Transaction
show_cycle none t = record t { cycle_id = ""; cycle_status = CycleStatus.unset }
show_cycle (some c) t = record t { cycle_id = c.id; cycle_status = c.status }

abbrev pub show_first : CommitOutcome → Transaction → Transaction
show_first o t =
    if is_a_to_b o.direction then record t { ticket_id = ""; business_complete = false } else t

abbrev pub show_weights : Option WeighCycle → Transaction → Transaction
show_weights none t = record t {
  gross_kg = pos 0;
  tare_kg = pos 0;
  net_kg = pos 0;
  pair_elapsed_seconds = pos 0;
}
show_weights (some c) t = record t {
  gross_kg = c.gross_kg;
  tare_kg = c.tare_kg;
  net_kg = c.net_kg;
  pair_elapsed_seconds = seconds c.pair_elapsed;
}

abbrev pub final_id : Option Ticket → String
final_id none = ""
final_id (some t) = t.id

abbrev pub show_final : CommitOutcome → Transaction → Transaction
show_final o t =
    if is_b_to_a o.direction && not (str_eq (final_id o.final_ticket) "")
    then show_weights o.cycle (record t {
      ticket_id = final_id o.final_ticket;
      business_complete = true;
      cycle_status = CycleStatus.complete;
    })
    else t

abbrev pub show_error : Outside → Option CycleError → Transaction → Transaction
show_error o none t = t
show_error o (some e) t = record t {
  business_complete = false;
  last_block_reason = BlockReason.text (o.describe e);
}

abbrev pub show_outcome : Outside → Option CommitOutcome → Transaction → Transaction
show_outcome o none t = t
show_outcome o (some out) t =
    show_error o out.err (show_final out (show_first out (show_cycle out.cycle t)))

abbrev pub is_some_cycle : Option WeighCycle → Bool
is_some_cycle none = false
is_some_cycle (some _) = true

-- A return without a called cycle is stopped.
abbrev pub is_unpaired : Direction → Option WeighCycle → Transaction → Bool
is_unpaired d bound t =
    is_b_to_a d
    && (is_identity_accepted t.identity
        && (not (is_some_cycle bound)
            && (not (State.is_lockout t.state) && not (State.is_complete t.state))))

abbrev pub stop_unpaired : Direction → Option WeighCycle → Transaction → Transaction
stop_unpaired d bound t =
    if is_unpaired d bound t
    then record t {
      state = WorkflowState.queue_mismatch;
      cycle_status = CycleStatus.unpaired_return;
      business_complete = false;
      outputs = no_outputs;
      last_block_reason =
          BlockReason.text "B_TO_A return has no matching CALLED cycle; automatic entry blocked";
    }
    else t

-- Snapshot of the transaction.
unfoldable pub shown : Outside → Station → Transaction → Transaction
unfolding find
shown o w t =
    let d = effective w.direction in
    let sided = physical_side d t in
    let seen = record sided { camera_evidence = evidence_of t.id w.inner.store } in
    let told = show_outcome o (find t.id w.inner.store.outcomes) (show_bound w.bound seen) in
    stop_unpaired d w.bound told

abbrev pub show_tx : Outside → Station → Snapshot → Option Transaction → Snapshot
show_tx o w s none = s
show_tx o w s (some t) =
    let x = shown o w t in record s { transaction = some x; state = x.state; mode = x.mode }

unfoldable pub station_snapshot : Outside → Station → Snapshot
unfolding snapshot shown
station_snapshot o w = show_tx o w (snapshot w.inner) w.inner.tx
