-- ===== src/Engine/Handlers.antt =====
-- internal/engine/engine.go: the other handlers, and the engine as a machine over its inputs.
use plantops_edge_scale.Base.{
  ℕ, leb, ltb, Bool, false, ◌||◌, ◌&&◌, not, String, str_eq, List, [], ◌∷◌, ◌++◌, Option, none,
  some, if◌then◌else◌, is_some,
}
use mathlib.Core.Option
use plantops_edge_scale.Domain.Types.{
  Time, is_zero, Mode, Role, DeviceId, AuditedScaleReading, PositionSnapshot, RfidObservation,
  LprObservation, Fault, Override,
}
use plantops_edge_scale.Domain.Device
use plantops_edge_scale.Domain.Workflow.{WorkflowState, idle, BlockReason, Transaction}
use plantops_edge_scale.Domain.State
use plantops_edge_scale.Domain.Policy.{is_blocking, required_role_for_override, validate_override}
use plantops_edge_scale.Engine.Record.{
  Engine, Env, EngineError, no_transaction, wrong_transaction, not_complete, invalid_override,
  no_overridable_fault, already_overridden, role_required, lock, touch, put_fault, delete_fault,
  lookup_fault, sync_fault_slice, update_mode, aux_fault_count, is_lockout_fault,
}
use plantops_edge_scale.Engine.Identity.{evaluate_identity}
use plantops_edge_scale.Engine.Position.{evaluate_position, try_ready_to_weigh}
use plantops_edge_scale.Engine.Presence.{observe_position}
use plantops_edge_scale.Engine.Weighing.{observe_scale}

-- observationBelongsLocked
abbrev pub belongs : Transaction → Time → Bool
belongs t observed = is_zero observed || leb t.started_at observed

unfoldable pub rfid_step :
    {S : Type 0} → Env → Engine S → RfidObservation → Transaction → Transaction
rfid_step env e o t =
    if belongs t o.observed
    then evaluate_identity env e (touch env o.observed (record t { rfid = o }))
    else t

unfoldable pub lpr_step : {S : Type 0} → Env → Engine S → LprObservation → Transaction → Transaction
lpr_step env e o t =
    if belongs t o.observed
    then evaluate_identity env e (touch env o.observed (record t { lpr = o }))
    else t

-- Changes the active transaction, if there is one.
abbrev pub on_active : {S : Type 0} → (Transaction → Transaction) → Engine S → Engine S
on_active f e = record e { tx = Option.map f e.tx }

unfoldable pub observe_rfid : {S : Type 0} → Env → RfidObservation → Engine S → Engine S
observe_rfid env o e = on_active (rfid_step env e o) e

unfoldable pub observe_lpr : {S : Type 0} → Env → LprObservation → Engine S → Engine S
observe_lpr env o e = on_active (lpr_step env e o) e

abbrev pub is_deck_sensor : DeviceId → Bool
is_deck_sensor d = str_eq d Device.front_sensor || str_eq d Device.rear_sensor

-- ObserveFault on the active transaction; `e` has the fault in its map.
unfoldable pub fault_step : {S : Type 0} → Env → Engine S → Fault → Transaction → Transaction
fault_step env e f t =
    let synced = sync_fault_slice e.faults t in
    let moded = update_mode e.faults synced in
    if is_lockout_fault f
    then lock env (BlockReason.critical_fault f.device f.reason) synced
    else evaluate_identity env e
        (if is_deck_sensor f.device then evaluate_position env e moded else moded)

unfoldable pub observe_fault : {S : Type 0} → Env → Fault → Engine S → Engine S
observe_fault env f e =
    let e' = record e { faults = put_fault f e.faults } in on_active (fault_step env e' f) e'

-- ClearFault on the active transaction. updateModeLocked makes the test for lockout once more.
unfoldable pub clear_step : {S : Type 0} → Env → Engine S → DeviceId → Transaction → Transaction
clear_step env e d t =
    let synced = sync_fault_slice e.faults t in
    let moded = if State.is_lockout t.state then synced else update_mode e.faults synced in
    evaluate_identity env e (if is_deck_sensor d then evaluate_position env e moded else moded)

unfoldable pub clear_fault : {S : Type 0} → Env → DeviceId → Engine S → Engine S
clear_fault env d e =
    let e' = record e { faults = delete_fault d e.faults } in on_active (clear_step env e' d) e'

unfoldable pub role_rank : Role → ℕ
role_rank Role.supervisor = 2
role_rank Role.operator = 1
role_rank Role.other = 0

-- An unexpired override of the device.
unfoldable pub is_overridden : DeviceId → List Override → Bool
is_overridden d [] = false
is_overridden d (o ∷ os) = (str_eq o.device d && not (is_some o.expired_at)) || is_overridden d os

-- faults[d] is there, may be overridden and is not critical.
abbrev pub is_overridable_fault : Option Fault → Bool
is_overridable_fault none = false
is_overridable_fault (some f) = not (is_blocking f)

-- The checks of AuthorizeOverride on the active transaction, in their order.
unfoldable pub refuse_override :
    {S : Type 0} → Engine S → Override → Transaction → Option EngineError
unfolding role_rank
refuse_override e o t =
    let required = required_role_for_override o.device (aux_fault_count e.faults) in
    if not (str_eq o.transaction_id t.id)
    then some wrong_transaction
    else elim (validate_override o) [
      | some x ↦ some (invalid_override x)
      | none ↦
          if not (is_overridable_fault (lookup_fault o.device e.faults))
          then some (no_overridable_fault o.device)
          else if ltb (role_rank o.authorized_as) (role_rank required)
          then some (role_required required)
          else if is_overridden o.device t.overrides
          then some (already_overridden o.device)
          else none
    ]

unfoldable pub override_step : {S : Type 0} → Env → Engine S → Override → Transaction → Transaction
override_step env e o t =
    let dated = record o {
      authorized_at = if is_zero o.authorized_at then env.now else o.authorized_at;
    } in
    let moded = update_mode e.faults (record t { overrides = t.overrides ++ dated ∷ [] }) in
    evaluate_identity env e (
      if is_deck_sensor o.device
      then try_ready_to_weigh env e (evaluate_position env e moded)
      else moded)

-- AuthorizeOverride with the active transaction, once the checks have answered.
unfoldable pub answer_override :
    {S : Type 0}
    → Env
    → Override
    → Engine S
    → Transaction
    → Option EngineError
    → Engine S × Option EngineError
answer_override env o e t (some x) = (e, some x)
answer_override env o e t none = (record e { tx = some (override_step env e o t) }, none)

unfoldable pub override_on :
    {S : Type 0} → Env → Override → Engine S → Option Transaction → Engine S × Option EngineError
override_on env o e none = (e, some no_transaction)
override_on env o e (some t) = answer_override env o e t (refuse_override e o t)

unfoldable pub authorize_override :
    {S : Type 0} → Env → Override → Engine S → Engine S × Option EngineError
unfolding override_on answer_override
authorize_override env o e = override_on env o e e.tx

unfoldable pub reset_on :
    {S : Type 0} → Engine S → Option Transaction → Engine S × Option EngineError
reset_on e none = (e, none)
reset_on e (some t) =
    if State.is_complete t.state
    then (record e { tx = none; stable_base = none }, none)
    else (e, some not_complete)

-- ResetCompleted. The expiry that the source writes into the overrides goes with the transaction.
unfoldable pub reset_completed : {S : Type 0} → Engine S → Engine S × Option EngineError
unfolding reset_on
reset_completed e = reset_on e e.tx

pub record Snapshot : Type 0 where
  pub station_id : String
  pub state : WorkflowState
  pub mode : Mode
  pub transaction : Option Transaction
  pub latest_scale : Option AuditedScaleReading

unfoldable pub snapshot : {S : Type 0} → Engine S → Snapshot
snapshot e = record {
  station_id = e.cfg.station_id;
  state = elim e.tx [ none ↦ idle | some t ↦ t.state ];
  mode = elim e.tx [ none ↦ Mode.normal | some t ↦ t.mode ];
  transaction = e.tx;
  latest_scale = e.last_scale;
}

unfoldable pub active_transaction_id : {S : Type 0} → Engine S → String
active_transaction_id e = elim e.tx [
  | none ↦ ""
  | some t ↦ if State.is_complete t.state then "" else t.id
]

-- The calls that the engine takes, in the order in which its lock admits them.
pub data Input : Type 0 where
  position : PositionSnapshot → Input
  rfid : RfidObservation → Input
  lpr : LprObservation → Input
  scale : AuditedScaleReading → Input
  fault : Fault → Input
  cleared : DeviceId → Input
  override : Override → Input
  reset : Input

unfoldable pub step : {S : Type 0} → Env → Input → Engine S → Engine S × Option EngineError
step env (position p) e = (observe_position env p e, none)
step env (rfid o) e = (observe_rfid env o e, none)
step env (lpr o) e = (observe_lpr env o e, none)
step env (scale a) e = observe_scale env a e
step env (fault f) e = (observe_fault env f e, none)
step env (cleared d) e = (clear_fault env d e, none)
step env (override o) e = authorize_override env o e
step env reset e = reset_completed e

unfoldable pub run : {S : Type 0} → List (Env × Input) → Engine S → Engine S
run [] e = e
run ((env, i) ∷ rest) e = run rest (step env i e).0
