-- ===== src/Domain/Workflow.antt =====
-- internal/domain/workflow.go: the states and the transaction of one physical pass.
use plantops_edge_scale.Base.{ℕ, Bool, true, false, String, List, Option, ℤ}
use plantops_edge_scale.Domain.Types.{
  Time, Mode, RfidObservation, LprObservation, PositionSnapshot, AuditedScaleReading, RawWeightRef,
  Fault, Override, CameraEvidence,
}

pub data WorkflowState : Type 0 where
  idle approach identifying identity_mismatch queue_mismatch entry_authorized entering :
      WorkflowState
  positioning ready_to_weigh weighing pair_invalid local_committed : WorkflowState
  exit_authorized exiting complete fault_lockout : WorkflowState

pub data IdentityStatus : Type 0 where
  pending accepted mismatch manual : IdentityStatus

abbrev pub is_identity_accepted : IdentityStatus → Bool
is_identity_accepted IdentityStatus.accepted = true
is_identity_accepted _ = false

pub data PositionStatus : Type 0 where
  pending accepted manual : PositionStatus

abbrev pub is_position_accepted : PositionStatus → Bool
is_position_accepted PositionStatus.accepted = true
is_position_accepted _ = false

pub data Direction : Type 0 where
  unset a_to_b b_to_a : Direction

-- PassNumber is an int in the source, of which only 0, 1 and 2 occur.
pub data PassNumber : Type 0 where
  unset first second : PassNumber

pub data CycleStatus : Type 0 where
  unset queued called complete orphaned_first_pass unpaired_return : CycleStatus
  pair_time_invalid pair_weight_invalid wrong_truck : CycleStatus

abbrev pub evidence_position_confirmed : String
evidence_position_confirmed = "POSITION_CONFIRMED"

abbrev pub evidence_identity_confirmed : String
evidence_identity_confirmed = "IDENTITY_CONFIRMED"

abbrev pub evidence_exit_clear : String
evidence_exit_clear = "EXIT_CLEAR_CONFIRMED"

pub record VehicleIdentity : Type 0 where
  pub rfid_tag : String
  pub plate : String

pub record WeightAcceptance : Type 0 where
  pub weight_kg : ℤ
  pub observed_at : Time
  pub raw_ref : RawWeightRef

pub record DesiredOutputs : Type 0 where
  pub entry_green : Bool
  pub exit_green : Bool
  pub buzzer : Bool
  pub entry_barrier_open : Bool
  pub exit_barrier_open : Bool

-- DesiredOutputs{}
abbrev pub no_outputs : DesiredOutputs
no_outputs = record {
  entry_green = false;
  exit_green = false;
  buzzer = false;
  entry_barrier_open = false;
  exit_barrier_open = false;
}

-- Why a transaction waits or is locked: one constructor for each message of the engine, with the
-- values that the message shows. `text` is any other message.
pub data BlockReason : Type 0 where
  clear : BlockReason
  text : String → BlockReason
  below_minimum : ℤ → ℤ → BlockReason
  waiting_stable : ℕ → ℤ → BlockReason
  critical_fault critical_at_start : String → String → BlockReason
  registry_failed commit_failed : String → BlockReason
  not_empty : ℤ → Bool → BlockReason

-- What the identity decision rests on.
pub data IdentityReason : Type 0 where
  unset match rfid_degraded lpr_degraded : IdentityReason
  plates_differ : String → String → IdentityReason

pub record Transaction : Type 0 where
  pub id : String
  pub station_id : String
  pub state : WorkflowState
  pub mode : Mode
  pub direction : Direction
  pub pass_number : PassNumber
  pub cycle_id : String
  pub cycle_status : CycleStatus
  pub business_complete : Bool
  pub gross_kg : ℤ
  pub tare_kg : ℤ
  pub net_kg : ℤ
  pub pair_elapsed_seconds : ℤ
  pub started_at : Time
  pub updated_at : Time
  pub rfid : RfidObservation
  pub lpr : LprObservation
  pub camera_evidence : List CameraEvidence
  pub identity : IdentityStatus
  pub identity_reason : IdentityReason
  pub position : PositionStatus
  pub position_snapshot : PositionSnapshot
  pub latest_scale : Option AuditedScaleReading
  pub accepted_weight : Option WeightAcceptance
  pub stable_confirmations : ℕ
  pub faults : List Fault
  pub overrides : List Override
  pub ticket_id : String
  pub local_committed_at : Option Time
  pub exit_seen : Bool
  pub completed_at : Option Time
  pub last_block_reason : BlockReason
  pub outputs : DesiredOutputs
