-- ===== src/Engine/Position.antt =====
-- internal/engine/engine.go: the position decision and the way to the weighing state.
use plantops_edge_scale.Base.{Bool, true, false, ◌||◌, ◌&&◌, not, none, some, if◌then◌else◌}
use plantops_edge_scale.Domain.Types.{Mode, DeviceId}
use plantops_edge_scale.Domain.Device
use plantops_edge_scale.Domain.Workflow.{
  WorkflowState, entry_authorized, entering, positioning, ready_to_weigh, is_identity_accepted,
  PositionStatus, is_position_accepted, BlockReason, Transaction, evidence_position_confirmed,
}
use plantops_edge_scale.Domain.State
use plantops_edge_scale.Domain.Policy.{is_unhealthy}
use plantops_edge_scale.Engine.Record.{Engine, Env, has_fault, block, lock, transition}
use plantops_edge_scale.Engine.Identity.{has_override}

-- The vehicle stands right: the entry is closed behind it.
abbrev accept_position : Mode → Transaction → Transaction
accept_position m t = record t {
  position = PositionStatus.accepted;
  mode = m;
  outputs = record t.outputs { entry_green = false; entry_barrier_open = false };
  last_block_reason = BlockReason.clear;
}

-- evaluatePositionLocked
unfoldable pub evaluate_position : {S : Type 0} → Env → Engine S → Transaction → Transaction
evaluate_position env e t =
    let p = t.position_snapshot in
    let front_fault = has_fault Device.front_sensor e.faults in
    let rear_fault = has_fault Device.rear_sensor e.faults in
    let confirmed =
      λ (d : DeviceId). has_override env.unicode d evidence_position_confirmed t.overrides in
    if (not front_fault && not rear_fault) && (p.front_present && p.rear_present)
    then accept_position t.mode t
    else if front_fault && rear_fault
    then record t {
      position = PositionStatus.manual;
      mode = Mode.manual;
      last_block_reason =
          BlockReason.text
            "both deck position sensors unavailable; supervised manual mode required";
    }
    else if front_fault && (p.rear_present && confirmed Device.front_sensor)
    then accept_position Mode.degraded t
    else if rear_fault && (p.front_present && confirmed Device.rear_sensor)
    then accept_position Mode.degraded t
    else if front_fault || rear_fault
    then record t {
      position = PositionStatus.pending;
      last_block_reason =
          BlockReason.text
            "degraded position requires healthy peer sensor + transaction override with POSITION_CONFIRMED evidence";
    }
    else record t { position = PositionStatus.pending }

abbrev pub before_weigh : WorkflowState → Bool
before_weigh entry_authorized = true
before_weigh entering = true
before_weigh positioning = true
before_weigh ready_to_weigh = true
before_weigh _ = false

-- tryReadyToWeighLocked
unfoldable pub try_ready_to_weigh : {S : Type 0} → Env → Engine S → Transaction → Transaction
try_ready_to_weigh env e t =
    if State.is_lockout t.state || State.is_complete t.state
    then t
    else if not (is_identity_accepted t.identity) || not (is_position_accepted t.position)
    then t
    else elim e.last_scale [
      | none ↦ block (BlockReason.text "waiting for audited scale reading") t
      | some a ↦
          if is_unhealthy a.reading
          then lock env (BlockReason.text "authoritative scale unavailable/faulted/overload") t
          else if before_weigh t.state
          then transition env ready_to_weigh t
          else t
    ]
