-- ===== src/Domain/WeighCycle.antt =====
-- internal/domain/cycle.go: WeighCycle, the business transaction that outlives its two passes, and the
-- combination of the modes of two passes, which internal/cycle and the SQLite store both have.
use plantops_edge_scale.Base.{ℕ, ltb, String, Option, ℤ, if◌then◌else◌, Bool, true, false}
use plantops_edge_scale.Domain.Types.{Time, Mode}
use plantops_edge_scale.Domain.Workflow.{CycleStatus}
use plantops_edge_scale.Domain.Cycle.{WeighPass, Duration, PairReason, PairPolicy}
use plantops_edge_scale.Base.{pos}

-- Why a cycle is blocked: one constructor for each message; `clear` is the empty text.
pub data CycleReason : Type 0 where
  clear : CycleReason
  pair : PairReason → CycleReason
  no_pair_within : Duration → CycleReason
  other : String → CycleReason

pub record WeighCycle : Type 0 where
  pub id : String
  pub station_id : String
  pub plate : String
  pub rfid : String
  pub status : CycleStatus
  pub first_pass : WeighPass
  pub second_pass : Option WeighPass
  pub queued_at : Time
  pub called_at : Option Time
  pub completed_at : Option Time
  pub pair_elapsed : Duration
  pub gross_kg : ℤ
  pub tare_kg : ℤ
  pub net_kg : ℤ
  pub last_block_reason : CycleReason

-- PairPolicy{}: nothing is configured.
abbrev pub no_policy : PairPolicy
no_policy = record {
  min_elapsed = pos 0;
  max_elapsed = pos 0;
  min_gross_kg = pos 0;
  max_gross_kg = pos 0;
  min_tare_kg = pos 0;
  max_tare_kg = pos 0;
  min_net_kg = pos 0;
  max_net_kg = pos 0;
}

abbrev pub is_called : CycleStatus → Bool
is_called CycleStatus.called = true
is_called _ = false

abbrev pub is_queued : CycleStatus → Bool
is_queued CycleStatus.queued = true
is_queued _ = false

abbrev pub is_complete : CycleStatus → Bool
is_complete CycleStatus.complete = true
is_complete _ = false

abbrev pub is_unset : CycleStatus → Bool
is_unset CycleStatus.unset = true
is_unset _ = false

-- The rank of a mode: the more a mode restricts, the higher.
abbrev pub mode_rank : Mode → ℕ
mode_rank Mode.lockout = 4
mode_rank Mode.manual = 3
mode_rank Mode.degraded = 2
mode_rank _ = 1

abbrev or_normal : Mode → Mode
or_normal Mode.unset = Mode.normal
or_normal m = m

unfoldable pub combine_mode : Mode → Mode → Mode
combine_mode a b = if ltb (mode_rank a) (mode_rank b) then b else or_normal a
