-- ===== src/TwoPass.antt =====
-- internal/twopass: the workflow of two passes around the engine, and the bridge through which the engine
-- commits a pass to the coordinator. The pointers Inner, Bridge and Cycles are set, as in cmd/edge.
-- `describe` gives the text of an error, `blocked` that text in the error of Commit.
pub mod Calls
pub mod Safe
pub mod Dark
pub mod Sides
use plantops_edge_scale.Base.{
  ℕ, Bool, true, false, ◌&&◌, ◌||◌, not, String, str_eq, List, [], ◌∷◌, ◌++◌, Option, none, some, ℤ,
  pos, if◌then◌else◌,
}
use plantops_edge_scale.Domain.Types.{
  Ticket, PositionSnapshot, RfidObservation, LprObservation, AuditedScaleReading, Fault, Override,
  DeviceId, CameraEvidence,
}
use plantops_edge_scale.Domain.Workflow.{
  WorkflowState, Direction, PassNumber, CycleStatus, DesiredOutputs, no_outputs, BlockReason,
  Transaction, is_identity_accepted,
}
use plantops_edge_scale.Domain.State
use plantops_edge_scale.Domain.Cycle.{WeighPass, is_a_to_b, is_b_to_a}
use plantops_edge_scale.Domain.WeighCycle.{WeighCycle}
use plantops_edge_scale.Store.{Db}
use plantops_edge_scale.Store.Cycles.{seconds}
use plantops_edge_scale.Coordinator.{
  Env as CycleEnv, Coordinator, CycleError, Answer, Paired, record_first_pass, record_second_pass,
  resolve_called,
}
use plantops_edge_scale.Engine.Record.{Engine, Env as EngineEnv}

pub record CommitOutcome : Type 0 where
  pub direction : Direction
  pub cycle : Option WeighCycle
  pub final_ticket : Option Ticket
  pub err : Option CycleError

-- CommitBridge, with the database behind its coordinator. The maps are lists, the newest entry first.
pub record Desk : Type 0 where
  pub direction : Direction
  pub outcomes : List (String × CommitOutcome)
  pub evidence : List (String × List CameraEvidence)
  pub db : Db

unfoldable pub find {ℓ} : {A : Type ℓ} → String → List (String × A) → Option A
find k [] = none
find k ((l, a) ∷ rest) = let r = find k rest in if str_eq l k then some a else r

unfoldable pub drop_key {ℓ} : {A : Type ℓ} → String → List (String × A) → List (String × A)
drop_key k [] = []
drop_key k ((l, a) ∷ rest) = let r = drop_key k rest in if str_eq l k then r else (l, a) ∷ r

abbrev or_empty {ℓ} : {A : Type ℓ} → Option (List A) → List A
or_empty none = []
or_empty (some xs) = xs

-- Evidence
abbrev pub evidence_of : String → Desk → List CameraEvidence
evidence_of tx b = or_empty (find tx b.evidence)

pub data EvidenceError : Type 0 where
  no_transaction no_camera_or_image : EvidenceError

-- AddEvidence
unfoldable pub add_evidence : String → CameraEvidence → Desk → Desk × Option EvidenceError
unfolding find drop_key
add_evidence tx e b =
    if str_eq tx ""
    then (b, some no_transaction)
    else if str_eq e.camera_id "" || str_eq e.image_ref ""
    then (b, some no_camera_or_image)
    else (record b { evidence = (tx, evidence_of tx b ++ e ∷ []) ∷ drop_key tx b.evidence }, none)

-- The business pass of a physical ticket.
abbrev pub pass_of : Desk → Ticket → WeighPass
pass_of b t = record {
  id = t.id;
  cycle_id = "";
  number = PassNumber.unset;
  direction = b.direction;
  station_id = t.station_id;
  plate = t.plate;
  rfid = t.rfid;
  weight = record {
    weight_kg = t.weight_kg;
    observed_at = t.weight_observed_at;
    raw_ref = t.weight_raw_ref;
  };
  mode = t.mode;
  overrides = t.overrides;
  camera_evidence = evidence_of t.transaction_id b;
  committed_at = t.committed_at;
}

abbrev fst_opt : Option Paired → Option WeighCycle
fst_opt none = none
fst_opt (some p) = some p.0

abbrev snd_opt : Option Paired → Option Ticket
snd_opt none = none
snd_opt (some p) = p.1

abbrev first_outcome : Db × Answer WeighCycle → Db × CommitOutcome
first_outcome (db, a) = (
  db,
  record { direction = Direction.a_to_b; cycle = a.value; final_ticket = none; err = a.error },
)

abbrev second_outcome : Db × Answer Paired → Db × CommitOutcome
second_outcome (db, a) = (
  db,
  record {
    direction = Direction.b_to_a;
    cycle = fst_opt a.value;
    final_ticket = snd_opt a.value;
    err = a.error;
  },
)

abbrev error_text : (CycleError → String) → Option CycleError → Option String
error_text blocked none = none
error_text blocked (some e) = some (blocked e)

abbrev noted : (CycleError → String) → String → Desk → Db × CommitOutcome → Option String × Desk
noted blocked tx b (db, o) =
    (error_text blocked o.err, record b { outcomes = (tx, o) ∷ drop_key tx b.outcomes; db = db })

-- Commit
unfoldable pub bridge_commit :
    (CycleError → String) → CycleEnv → Coordinator → Ticket → Desk → Option String × Desk
unfolding record_first_pass record_second_pass find drop_key
bridge_commit blocked env k t b = elim b.direction [
  | Direction.unset ↦ (some "physical pass direction is not established", b)
  | Direction.a_to_b ↦
      noted blocked t.transaction_id b (first_outcome (record_first_pass env k (pass_of b t) b.db))
  | Direction.b_to_a ↦
      noted blocked t.transaction_id b
        (second_outcome (record_second_pass env k (pass_of b t) b.db))
]

-- Reset
unfoldable pub bridge_reset : String → Desk → Desk
unfolding drop_key
bridge_reset tx b = if str_eq tx "" then record b { direction = Direction.unset } else record b {
  direction = Direction.unset;
  outcomes = drop_key tx b.outcomes;
  evidence = drop_key tx b.evidence;
}

-- Workflow; `inner` is the engine, whose ticket store is the bridge.
pub record Station : Type 0 where
  pub inner : Engine Desk
  pub direction : Direction
  pub bound : Option WeighCycle

-- What a call takes from outside.
pub record Outside : Type 0 where
  pub engine : EngineEnv
  pub cycles : CycleEnv
  pub coordinator : Coordinator
  pub describe : CycleError → String
  pub blocked : CycleError → String

abbrev pub on_desk : (Desk → Desk) → Station → Station
on_desk f w = record w { inner = record w.inner { store = f w.inner.store } }

-- detectDirection
abbrev pub detect_direction : PositionSnapshot → Direction
detect_direction p =
    if p.entry_present && not p.exit_present
    then Direction.a_to_b
    else if p.exit_present && not p.entry_present
    then Direction.b_to_a
    else Direction.unset

-- swapPhysicalPosition
abbrev pub swap_position : PositionSnapshot → PositionSnapshot
swap_position p = record {
  entry_present = p.exit_present;
  front_present = p.rear_present;
  rear_present = p.front_present;
  exit_present = p.entry_present;
  entry_barrier_open = p.exit_barrier_open;
  entry_barrier_closed = p.exit_barrier_closed;
  exit_barrier_open = p.entry_barrier_open;
  exit_barrier_closed = p.entry_barrier_closed;
  safety_clear = p.safety_clear;
  observed = p.observed;
}

-- swapPhysicalOutputs
abbrev pub swap_outputs : DesiredOutputs → DesiredOutputs
swap_outputs v = record {
  entry_green = v.exit_green;
  exit_green = v.entry_green;
  buzzer = v.buzzer;
  entry_barrier_open = v.exit_barrier_open;
  exit_barrier_open = v.entry_barrier_open;
}

-- allPresenceClear
abbrev pub all_presence_clear : PositionSnapshot → Bool
all_presence_clear p =
    not p.entry_present && (not p.front_present && (not p.rear_present && not p.exit_present))

-- resetSession
abbrev pub reset_session : String → Station → Station
reset_session tx w =
    on_desk (bridge_reset tx) (record w { direction = Direction.unset; bound = none })

abbrev found_cycle : Answer (Option WeighCycle) → Option WeighCycle
found_cycle a = elim a.error [ none ↦ elim a.value [ none ↦ none | some c ↦ c ] | some _ ↦ none ]

abbrev pub bind_on : Outside → Station → Option Transaction → Station
bind_on o w none = w
bind_on o w (some t) = if not (is_identity_accepted t.identity) then w else record w {
  bound =
      found_cycle (resolve_called o.cycles o.coordinator t.lpr.plate t.rfid.tag w.inner.store.db);
}

-- tryBindCalled
unfoldable pub try_bind_called : Outside → Station → Station
unfolding resolve_called
try_bind_called o w = if not (is_b_to_a w.direction) then w else bind_on o w w.inner.tx
