-- ===== src/Engine/Weighing.antt =====
-- internal/engine/engine.go: ObserveScale and commitTicketLocked.
use plantops_edge_scale.Base.{
  ℕ, suc, ◌==◌, Bool, true, false, ◌||◌, ◌&&◌, not, String, str_eq, Option, none, some, ℤ, pos,
  ltb_ℤ, sub64, if◌then◌else◌, [],
}
use plantops_edge_scale.Domain.Types.{
  AuditedScaleReading, ScaleReading, Ticket, Fault, RawWeightRef,
}
use plantops_edge_scale.Domain.Device
use plantops_edge_scale.Domain.Workflow.{weighing, exit_authorized, BlockReason, Transaction}
use plantops_edge_scale.Domain.State
use plantops_edge_scale.Domain.Policy.{is_unhealthy}
use plantops_edge_scale.Engine.Record.{
  Engine, Env, EngineError, no_raw_ref, no_ticket_store, commit_failed, block, lock, transition,
  touch, put_fault, delete_fault, sync_fault_slice,
}
use plantops_edge_scale.Engine.Identity.{abs64}
use plantops_edge_scale.Engine.Position.{try_ready_to_weigh}
use plantops_edge_scale.Engine.Presence.{admit}

abbrev zero_ref : RawWeightRef
zero_ref = record { seq = 0; hash = "" }

-- The ticket of a pass: the fields that the engine leaves out have their zero values.
unfoldable pub pass_ticket : Env → String → Transaction → AuditedScaleReading → Ticket
pass_ticket env station t a = record {
  id = env.fresh;
  station_id = station;
  transaction_id = t.id;
  cycle_id = "";
  plate = t.lpr.plate;
  rfid = t.rfid.tag;
  first_pass_id = "";
  second_pass_id = "";
  gross_kg = pos 0;
  tare_kg = pos 0;
  net_kg = pos 0;
  first_weight_observed_at = 0;
  second_weight_observed_at = 0;
  first_weight_raw_ref = zero_ref;
  second_weight_raw_ref = zero_ref;
  pair_elapsed_seconds = pos 0;
  camera_evidence = [];
  weight_kg = a.reading.weight_kg;
  weight_observed_at = a.reading.observed;
  weight_raw_ref = a.raw_ref;
  mode = t.mode;
  overrides = t.overrides;
  committed_at = env.now;
  synced_at = none;
}

-- The store has the ticket: release the vehicle.
unfoldable pub release : Env → AuditedScaleReading → Transaction → Transaction
release env a t = record t {
  accepted_weight = some (record {
    weight_kg = a.reading.weight_kg;
    observed_at = a.reading.observed;
    raw_ref = a.raw_ref;
  });
  ticket_id = env.fresh;
  local_committed_at = some env.now;
  state = exit_authorized;
  updated_at = env.now;
  outputs = record {
    entry_green = false;
    exit_green = true;
    buzzer = true;
    entry_barrier_open = false;
    exit_barrier_open = true;
  };
  last_block_reason = BlockReason.clear;
}

-- The answer of the store to a commit.
unfoldable pub conclude :
    {S : Type 0}
    → Env
    → AuditedScaleReading
    → Engine S
    → Transaction
    → Option String × S
    → Engine S × Option EngineError
conclude env a e t (none, s) = (record e { store = s; tx = some (release env a t) }, none)
conclude env a e t (some m, s) = (
  record e { store = s; tx = some (lock env (BlockReason.commit_failed m) t) },
  some (commit_failed m),
)

unfoldable pub commit_with :
    {S : Type 0}
    → Env
    → AuditedScaleReading
    → Engine S
    → Transaction
    → Option (Ticket → S → Option String × S)
    → Engine S × Option EngineError
commit_with env a e t none = (
  record e { tx = some (lock env (BlockReason.text "local durable ticket store unavailable") t) },
  some no_ticket_store,
)
commit_with env a e t (some commit) =
    conclude env a e t (commit (pass_ticket env e.cfg.station_id t a) e.store)

-- commitTicketLocked
unfoldable pub commit_ticket :
    {S : Type 0}
    → Env
    → AuditedScaleReading
    → Engine S
    → Transaction
    → Engine S × Option EngineError
unfolding conclude commit_with
commit_ticket env a e t = commit_with env a e t e.tickets

-- How many times in a row the stable weight has been seen with reading `r`.
unfoldable pub count_stable : ℤ → Option AuditedScaleReading → ScaleReading → ℕ → ℕ
count_stable tolerance none r n = 1
count_stable tolerance (some b) r n =
    if ltb_ℤ tolerance (abs64 (sub64 b.reading.weight_kg r.weight_kg)) then 1 else suc n

-- ObserveScale from the WEIGHING state on.
unfoldable pub weigh :
    {S : Type 0}
    → Env
    → AuditedScaleReading
    → Engine S
    → Transaction
    → Engine S × Option EngineError
weigh env a e t =
    let r = a.reading in
    let light = ltb_ℤ r.weight_kg e.cfg.min_stable_weight_kg in
    let t0 = record t { stable_confirmations = 0 } in
    let n = count_stable e.cfg.stable_tolerance_kg e.stable_base r t.stable_confirmations in
    let counted = record t { stable_confirmations = n } in
    if not r.stable || light
    then (
      record e {
        stable_base = none;
        tx = some (
            if r.stable && light
            then block (BlockReason.below_minimum r.weight_kg e.cfg.min_stable_weight_kg) t0
            else t0);
      },
      none,
    )
    else if ltb_ℤ (pos n) e.cfg.stable_confirmations
    then (
      record e {
        stable_base = some a;
        tx = some (block (BlockReason.waiting_stable n e.cfg.stable_confirmations) counted);
      },
      none,
    )
    else commit_ticket env a (record e { stable_base = some a }) counted

-- The way of a healthy reading to the WEIGHING state.
unfoldable pub approach_weighing : {S : Type 0} → Env → Engine S → Transaction → Transaction
approach_weighing env e t =
    let ready = try_ready_to_weigh env e (admit env e t) in
    if State.is_ready_to_weigh ready.state then transition env weighing ready else ready

abbrev unhealthy_fault : ScaleReading → Fault
unhealthy_fault r = record {
  device = Device.scale;
  health = r.health;
  reason = "authoritative scale unhealthy/faulted/overload";
  overridable = false;
  critical = true;
}

-- ObserveScale with no transaction: the fault map alone follows the reading.
unfoldable pub idle_scale : {S : Type 0} → AuditedScaleReading → Engine S → Engine S
idle_scale a e = record e {
  last_scale = some a;
  faults =
      if is_unhealthy a.reading
      then put_fault (unhealthy_fault a.reading) e.faults
      else delete_fault Device.scale e.faults;
}

-- ObserveScale with the active transaction `t`; `e` has the reading and its fault map already.
unfoldable pub active_scale :
    {S : Type 0}
    → Env
    → AuditedScaleReading
    → Engine S
    → Transaction
    → Engine S × Option EngineError
active_scale env a e t =
    let seen = touch env a.reading.observed (record t { latest_scale = some a }) in
    let synced = sync_fault_slice e.faults seen in
    let next = approach_weighing env e synced in
    if is_unhealthy a.reading
    then (
      record e {
        tx =
            some
              (lock env (BlockReason.text "authoritative scale unhealthy/faulted/overload") synced);
      },
      none,
    )
    else if State.is_lockout t.state
    then (record e { tx = some seen }, none)
    else if State.is_complete t.state
    then (record e { tx = some synced }, none)
    else if State.is_weighing next.state
    then weigh env a e next
    else (record e { tx = some next }, none)

abbrev pub is_unaudited : AuditedScaleReading → Bool
is_unaudited a = (a.raw_ref.seq == 0) || str_eq a.raw_ref.hash ""

unfoldable pub scale_on :
    {S : Type 0}
    → Env
    → AuditedScaleReading
    → Engine S
    → Option Transaction
    → Engine S × Option EngineError
scale_on env a e none = (e, none)
scale_on env a e (some t) = active_scale env a e t

unfoldable pub observe_scale :
    {S : Type 0} → Env → AuditedScaleReading → Engine S → Engine S × Option EngineError
unfolding scale_on
observe_scale env a e =
    if is_unaudited a then (e, some no_raw_ref) else scale_on env a (idle_scale a e) e.tx
