-- ===== src/Engine/Record.antt =====
-- internal/engine/engine.go: the engine's state, its fault map, and the small helpers on the active
-- transaction. Every ...Locked helper returns at once when there is no transaction; here it takes
-- the transaction, and the handlers make that test.
-- A handler reads the clock and draws an identifier through its `Env`: the readings of one call are
-- one instant, and a call draws at most one identifier.
use plantops_edge_scale.Base.{
  ℕ, suc, ◌==◌, Bool, true, false, ◌||◌, String, str_eq, List, [], ◌∷◌, Option, none, some, ℤ, pos,
  leb_ℤ, ltb_ℤ, if◌then◌else◌, is_some, Unicode,
}
use plantops_edge_scale.Domain.Types.{
  Time, is_zero, Mode, Health, DeviceId, Role, AuditedScaleReading, Fault, Ticket,
}
use plantops_edge_scale.Domain.Device
use plantops_edge_scale.Domain.Workflow.{
  WorkflowState, approach, identifying, fault_lockout, IdentityStatus, PositionStatus, Direction,
  PassNumber, CycleStatus, VehicleIdentity, BlockReason, IdentityReason, Transaction, no_outputs,
}
use plantops_edge_scale.Domain.State
use plantops_edge_scale.Domain.Policy.{OverrideError, is_blocking}

pub record Config : Type 0 where
  pub station_id : String
  pub empty_scale_max_kg : ℤ
  pub min_stable_weight_kg : ℤ
  pub stable_confirmations : ℤ
  pub stable_tolerance_kg : ℤ

-- The answer of the vehicle registry: an error, no such tag, or the vehicle.
pub data Resolution : Type 0 where
  failed : String → Resolution
  unknown : Resolution
  found : VehicleIdentity → Resolution

pub record Env : Type 0 where
  pub now : Time
  pub fresh : String
  pub unicode : Unicode

-- `S` is the state of the ticket store; `store` is that state. A commit answers with an error or
-- none. `faults` holds the values of the map, whose keys are their devices, in some order.
pub record Engine (S : Type 0) : Type 0 where
  pub cfg : Config
  pub tickets : Option (Ticket → S → Option String × S)
  pub registry : Option (String → Resolution)
  pub store : S
  pub tx : Option Transaction
  pub last_scale : Option AuditedScaleReading
  pub faults : List Fault
  pub stable_base : Option AuditedScaleReading

pub data EngineError : Type 0 where
  no_raw_ref no_ticket_store no_transaction wrong_transaction not_complete : EngineError
  commit_failed : String → EngineError
  invalid_override : OverrideError → EngineError
  no_overridable_fault already_overridden : DeviceId → EngineError
  role_required : Role → EngineError

unfoldable pub new :
    {S : Type 0}
    → Config
    → Option (Ticket → S → Option String × S)
    → Option (String → Resolution)
    → S
    → Engine S
new c tickets registry store = record {
  cfg = record {
    station_id = if str_eq c.station_id "" then "EDGE-01" else c.station_id;
    empty_scale_max_kg =
        if leb_ℤ c.empty_scale_max_kg (pos 0) then pos 500 else c.empty_scale_max_kg;
    min_stable_weight_kg =
        if leb_ℤ c.min_stable_weight_kg (pos 0) then pos 500 else c.min_stable_weight_kg;
    stable_confirmations =
        if leb_ℤ c.stable_confirmations (pos 0) then pos 2 else c.stable_confirmations;
    stable_tolerance_kg =
        if ltb_ℤ c.stable_tolerance_kg (pos 0) then pos 0 else c.stable_tolerance_kg;
  };
  tickets = tickets;
  registry = registry;
  store = store;
  tx = none;
  last_scale = none;
  faults = [];
  stable_base = none;
}

-- e.faults[d], delete(e.faults, d) and e.faults[f.Device] = f
unfoldable pub lookup_fault : DeviceId → List Fault → Option Fault
lookup_fault d [] = none
lookup_fault d (f ∷ fs) = if str_eq f.device d then some f else lookup_fault d fs

unfoldable pub delete_fault : DeviceId → List Fault → List Fault
delete_fault d [] = []
delete_fault d (f ∷ fs) =
    let rest = delete_fault d fs in if str_eq f.device d then rest else f ∷ rest

unfoldable pub put_fault : Fault → List Fault → List Fault
unfolding delete_fault
put_fault f fs = f ∷ delete_fault f.device fs

abbrev pub has_fault : DeviceId → List Fault → Bool
has_fault d fs = is_some (lookup_fault d fs)

-- A fault on the scale, or one that nobody may override.
abbrev pub is_lockout_fault : Fault → Bool
is_lockout_fault f = str_eq f.device Device.scale || is_blocking f

unfoldable pub find_lockout_fault : List Fault → Option Fault
find_lockout_fault [] = none
find_lockout_fault (f ∷ fs) = if is_lockout_fault f then some f else find_lockout_fault fs

-- auxFaultCountLocked
unfoldable pub aux_fault_count : List Fault → ℕ
aux_fault_count [] = 0
aux_fault_count (f ∷ fs) =
    let rest = aux_fault_count fs in if is_lockout_fault f then rest else suc rest

abbrev pub now_utc : Env → Time → Time
now_utc env observed = if is_zero observed then env.now else observed

abbrev pub touch : Env → Time → Transaction → Transaction
touch env observed t = record t { updated_at = now_utc env observed }

abbrev pub transition : Env → WorkflowState → Transaction → Transaction
transition env s t = record t { state = s; updated_at = env.now }

abbrev pub block : BlockReason → Transaction → Transaction
block r t = record t { last_block_reason = r }

unfoldable pub lock : Env → BlockReason → Transaction → Transaction
lock env reason t = record t {
  mode = Mode.lockout;
  state = fault_lockout;
  last_block_reason = reason;
  outputs = no_outputs;
  updated_at = env.now;
}

abbrev is_manual : Mode → Bool
is_manual Mode.manual = true
is_manual _ = false

-- The `switch` of updateModeLocked on the number of auxiliary faults.
abbrev mode_for : ℕ → Mode → Mode
mode_for aux m =
    if aux == 0
    then (if is_manual m then m else Mode.normal)
    else if aux == 1
    then (if is_manual m then m else Mode.degraded)
    else Mode.manual

unfoldable pub update_mode : List Fault → Transaction → Transaction
update_mode faults t =
    if State.is_lockout t.state
    then t
    else record t { mode = mode_for (aux_fault_count faults) t.mode }

unfoldable pub sync_fault_slice : List Fault → Transaction → Transaction
sync_fault_slice faults t = record t { faults = faults }

-- The transaction of startTransactionLocked before any fault is looked at.
abbrev pub fresh_transaction : Env → String → Time → Transaction
fresh_transaction env station observed = record {
  id = env.fresh;
  station_id = station;
  state = approach;
  mode = Mode.normal;
  direction = Direction.unset;
  pass_number = PassNumber.unset;
  cycle_id = "";
  cycle_status = CycleStatus.unset;
  business_complete = false;
  gross_kg = pos 0;
  tare_kg = pos 0;
  net_kg = pos 0;
  pair_elapsed_seconds = pos 0;
  started_at = now_utc env observed;
  updated_at = now_utc env observed;
  rfid = record { tag = ""; quality = 0; health = Health.unset; observed = 0 };
  lpr = record { plate = ""; confidence = 0; image_ref = ""; health = Health.unset; observed = 0 };
  camera_evidence = [];
  identity = IdentityStatus.pending;
  identity_reason = IdentityReason.unset;
  position = PositionStatus.pending;
  position_snapshot = record {
    entry_present = false;
    front_present = false;
    rear_present = false;
    exit_present = false;
    entry_barrier_open = false;
    entry_barrier_closed = false;
    exit_barrier_open = false;
    exit_barrier_closed = false;
    safety_clear = false;
    observed = 0;
  };
  latest_scale = none;
  accepted_weight = none;
  stable_confirmations = 0;
  faults = [];
  overrides = [];
  ticket_id = "";
  local_committed_at = none;
  exit_seen = false;
  completed_at = none;
  last_block_reason = BlockReason.clear;
  outputs = no_outputs;
}

-- The new transaction is locked at once by a lockout fault, and identifies its vehicle otherwise.
unfoldable pub begin : Env → List Fault → Option Fault → Transaction → Transaction
begin env faults (some f) t = lock env (BlockReason.critical_at_start f.device f.reason) t
begin env faults none t = transition env identifying (update_mode faults t)

-- startTransactionLocked. The source reports the first lockout fault of the map's iteration order.
unfoldable pub start_transaction : {S : Type 0} → Env → Time → Engine S → Transaction
start_transaction env observed e =
    begin env e.faults (find_lockout_fault e.faults)
      (sync_fault_slice e.faults (fresh_transaction env e.cfg.station_id observed))
