-- ===== src/Domain/Types.antt =====
-- internal/domain/types.go, audit.go and raw_weight.go: devices, observations, faults, overrides and
-- tickets. A time is the number of nanoseconds since Go's zero time, so that IsZero is a test for 0;
-- UTC() changes no instant. A float64 is its bit pattern: the code only carries it.
use plantops_edge_scale.Base.{ℕ, ◌==◌, Bool, true, false, String, List, Option, ℤ}

abbrev pub Time : Type 0
Time = ℕ

abbrev pub is_zero : Time → Bool
is_zero t = t == 0

-- Mode, with `unset` for Go's empty string.
pub data Mode : Type 0 where
  unset normal degraded manual lockout : Mode

pub data Health : Type 0 where
  unset healthy stale disconnected fault : Health

abbrev pub is_healthy : Health → Bool
is_healthy Health.healthy = true
is_healthy _ = false

-- Devices are strings in the source too; these are its constants.
abbrev pub DeviceId : Type 0
DeviceId = String

-- `other` is a role that is none of the constants, the empty one included.
pub data Role : Type 0 where
  operator supervisor other : Role

pub record ScaleReading : Type 0 where
  pub weight_kg : ℤ
  pub stable : Bool
  pub overload : Bool
  pub fault : String
  pub health : Health
  pub observed : Time

pub record PositionSnapshot : Type 0 where
  pub entry_present : Bool
  pub front_present : Bool
  pub rear_present : Bool
  pub exit_present : Bool
  pub entry_barrier_open : Bool
  pub entry_barrier_closed : Bool
  pub exit_barrier_open : Bool
  pub exit_barrier_closed : Bool
  pub safety_clear : Bool
  pub observed : Time

pub record RfidObservation : Type 0 where
  pub tag : String
  pub quality : ℕ
  pub health : Health
  pub observed : Time

pub record LprObservation : Type 0 where
  pub plate : String
  pub confidence : ℕ
  pub image_ref : String
  pub health : Health
  pub observed : Time

pub record Fault : Type 0 where
  pub device : DeviceId
  pub health : Health
  pub reason : String
  pub overridable : Bool
  pub critical : Bool

pub record Override : Type 0 where
  pub transaction_id : String
  pub device : DeviceId
  pub reason : String
  pub requested_by : String
  pub authorized_by : String
  pub authorized_as : Role
  pub authorized_at : Time
  pub evidence : List String
  pub expired_at : Option Time

-- The pointer from a business fact back to the journal record of its scale frame.
pub record RawWeightRef : Type 0 where
  pub seq : ℕ
  pub hash : String

pub record AuditedScaleReading : Type 0 where
  pub reading : ScaleReading
  pub raw_ref : RawWeightRef

pub record CameraEvidence : Type 0 where
  pub camera_id : String
  pub role : String
  pub image_ref : String
  pub captured_at : Time

pub record Ticket : Type 0 where
  pub id : String
  pub station_id : String
  pub transaction_id : String
  pub cycle_id : String
  pub plate : String
  pub rfid : String
  pub first_pass_id : String
  pub second_pass_id : String
  pub gross_kg : ℤ
  pub tare_kg : ℤ
  pub net_kg : ℤ
  pub first_weight_observed_at : Time
  pub second_weight_observed_at : Time
  pub first_weight_raw_ref : RawWeightRef
  pub second_weight_raw_ref : RawWeightRef
  pub pair_elapsed_seconds : ℤ
  pub camera_evidence : List CameraEvidence
  pub weight_kg : ℤ
  pub weight_observed_at : Time
  pub weight_raw_ref : RawWeightRef
  pub mode : Mode
  pub overrides : List Override
  pub committed_at : Time
  pub synced_at : Option Time
