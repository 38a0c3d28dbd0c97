-- ===== src/Engine/Presence.antt =====
-- internal/engine/engine.go: ObservePosition, in the stages of its body.
use plantops_edge_scale.Base.{true, ◌||◌, ◌&&◌, not, Option, none, some, if◌then◌else◌}
use mathlib.Core.Option
use plantops_edge_scale.Domain.Types.{PositionSnapshot}
use plantops_edge_scale.Domain.Device
use plantops_edge_scale.Domain.Workflow.{
  entering, positioning, exiting, complete, is_identity_accepted, is_position_accepted, BlockReason,
  Transaction, no_outputs, evidence_exit_clear,
}
use plantops_edge_scale.Domain.State
use plantops_edge_scale.Engine.Record.{
  Engine, Env, block, transition, touch, now_utc, start_transaction,
}
use plantops_edge_scale.Engine.Identity.{has_override, try_authorize_entry}
use plantops_edge_scale.Engine.Position.{evaluate_position, try_ready_to_weigh}

-- An accepted vehicle that still waits to enter.
unfoldable pub admit : {S : Type 0} → Env → Engine S → Transaction → Transaction
admit env e t =
    if is_identity_accepted t.identity && State.is_identifying t.state
    then try_authorize_entry env e t
    else t

-- The first deck sensor is reached.
unfoldable pub enter_deck : Env → PositionSnapshot → Transaction → Transaction
enter_deck env p t =
    if p.front_present && State.is_entry_authorized t.state then transition env entering t else t

-- The vehicle is somewhere on the deck.
unfoldable pub settle : {S : Type 0} → Env → Engine S → PositionSnapshot → Transaction → Transaction
settle env e p t =
    let moving = if State.is_entering t.state then transition env positioning t else t in
    let placed = evaluate_position env e moving in
    if p.front_present || p.rear_present
    then if is_position_accepted placed.position then try_ready_to_weigh env e placed else placed
    else t

-- The released vehicle reaches the exit sensor.
unfoldable pub reach_exit : Env → PositionSnapshot → Transaction → Transaction
reach_exit env p t =
    if State.is_exit_authorized t.state && p.exit_present
    then transition env exiting (record t { exit_seen = true })
    else t

-- The vehicle has left the exit sensor behind.
unfoldable pub clear_exit : Env → PositionSnapshot → Transaction → Transaction
clear_exit env p t =
    if State.is_exiting t.state && (t.exit_seen && not p.exit_present)
    then if p.safety_clear
        || has_override env.unicode Device.exit_sensor evidence_exit_clear t.overrides
      then record t {
        completed_at = some (now_utc env p.observed);
        state = complete;
        updated_at = env.now;
        outputs = no_outputs;
      }
      else block (BlockReason.text "exit not proven clear; barrier close must remain inhibited") t
    else t

-- What ObservePosition does to a transaction.
unfoldable pub position_step :
    {S : Type 0} → Env → Engine S → PositionSnapshot → Transaction → Transaction
position_step env e p t =
    let seen = touch env p.observed (record t { position_snapshot = p }) in
    if State.is_complete t.state || State.is_lockout t.state
    then seen
    else clear_exit env p (reach_exit env p (settle env e p (enter_deck env p (admit env e seen))))

-- The active transaction, or a new one when a vehicle stands at the entry.
unfoldable pub active_or_new :
    {S : Type 0} → Env → Engine S → PositionSnapshot → Option Transaction → Option Transaction
active_or_new env e p (some t) = some t
active_or_new env e p none =
    if p.entry_present then some (start_transaction env p.observed e) else none

-- With no transaction, and none started, nothing changes.
unfoldable pub observe_position : {S : Type 0} → Env → PositionSnapshot → Engine S → Engine S
unfolding active_or_new
observe_position env p e = record e {
  tx = Option.map (position_step env e p) (active_or_new env e p e.tx);
}
