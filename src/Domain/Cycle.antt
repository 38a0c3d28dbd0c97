-- ===== src/Domain/Cycle.antt =====
-- internal/domain/cycle.go: the two passes of a business cycle and the validation of their pair.
use plantops_edge_scale.Base.{
  ℕ, ◌==◌, ◌-◌, ◌+◌, leb, ltb, Bool, true, false, ◌||◌, ◌&&◌, not, String, str_eq, List, [], ◌∷◌,
  Option, none, some, ℤ, pos, negsuc, ltb_ℤ, leb_ℤ, sub64, ◌-ℤ◌, half64, if◌then◌else◌, codes,
  codes_eq, first_failure,
}
use plantops_edge_scale.Domain.Types.{Time, is_zero, Mode, Override, CameraEvidence, RawWeightRef}
use plantops_edge_scale.Domain.Workflow.{Direction, PassNumber, CycleStatus, WeightAcceptance}

pub record WeighPass : Type 0 where
  pub id : String
  pub cycle_id : String
  pub number : PassNumber
  pub direction : Direction
  pub station_id : String
  pub plate : String
  pub rfid : String
  pub weight : WeightAcceptance
  pub mode : Mode
  pub overrides : List Override
  pub camera_evidence : List CameraEvidence
  pub committed_at : Time

-- A time.Duration is an int64 number of nanoseconds.
abbrev pub Duration : Type 0
Duration = ℤ

pub record PairPolicy : Type 0 where
  pub min_elapsed : Duration
  pub max_elapsed : Duration
  pub min_gross_kg : ℤ
  pub max_gross_kg : ℤ
  pub min_tare_kg : ℤ
  pub max_tare_kg : ℤ
  pub min_net_kg : ℤ
  pub max_net_kg : ℤ

-- One constructor for each message; those about the time window show the duration and the limit.
pub data PairReason : Type 0 where
  valid first_not_a_to_b second_not_b_to_a plate_differs rfid_differs no_raw_ref : PairReason
  not_after gross_range tare_range not_heavier net_range : PairReason
  too_soon too_late : Duration → Duration → PairReason

pub record PairValidation : Type 0 where
  pub valid : Bool
  pub status : CycleStatus
  pub reason : PairReason
  pub elapsed : Duration
  pub gross_kg : ℤ
  pub tare_kg : ℤ
  pub net_kg : ℤ

-- Time.Sub: the difference, held within the range of a Duration.
unfoldable pub time_sub : Time → Time → Duration
unfolding ◌-ℤ◌ if◌then◌else◌
time_sub t u =
    if leb u t
    then (if ltb (t - u) half64 then pos (t - u) else pos (half64 - 1))
    else (if leb (u - t) half64 then pos t -ℤ pos u else negsuc (half64 - 1))

-- Letters in upper case and digits of ASCII; all else is dropped.
unfoldable pub normalize_codes : List ℕ → List ℕ
normalize_codes [] = []
normalize_codes (r ∷ rs) =
    let rest = normalize_codes rs in
    if leb b'a' r && leb r b'z'
    then (r - b'a' + b'A') ∷ rest
    else if (leb b'A' r && leb r b'Z') || (leb b'0' r && leb r b'9')
    then r ∷ rest
    else rest

unfoldable pub normalize_cycle_identity : String → List ℕ
unfolding normalize_codes
normalize_cycle_identity s = normalize_codes (codes s)

unfoldable pub within_configured : ℤ → ℤ → ℤ → Bool
unfolding if◌then◌else◌
within_configured v min max =
    if ltb_ℤ (pos 0) min && ltb_ℤ v min
    then false
    else if ltb_ℤ (pos 0) max && ltb_ℤ max v
    then false
    else true

abbrev pub is_no_codes : List ℕ → Bool
is_no_codes [] = true
is_no_codes (_ ∷ _) = false

abbrev pub is_first : PassNumber → Bool
is_first PassNumber.first = true
is_first _ = false

abbrev pub is_second : PassNumber → Bool
is_second PassNumber.second = true
is_second _ = false

abbrev pub is_a_to_b : Direction → Bool
is_a_to_b Direction.a_to_b = true
is_a_to_b _ = false

abbrev pub is_b_to_a : Direction → Bool
is_b_to_a Direction.b_to_a = true
is_b_to_a _ = false

-- RawRef.Seq == 0 || RawRef.Hash == ""
abbrev pub is_unreferenced : RawWeightRef → Bool
is_unreferenced r = (r.seq == 0) || str_eq r.hash ""

-- The plates are not the same, or one of them is empty.
abbrev pub plates_differ : WeighPass → WeighPass → Bool
plates_differ first second =
    is_no_codes (normalize_cycle_identity first.plate)
    || (is_no_codes (normalize_cycle_identity second.plate)
        || not (
            codes_eq (normalize_cycle_identity first.plate)
              (normalize_cycle_identity second.plate)))

abbrev pub rfids_differ : WeighPass → WeighPass → Bool
rfids_differ first second =
    not (str_eq first.rfid "")
    && (not (str_eq second.rfid "") && not (str_eq first.rfid second.rfid))

-- The early returns of ValidatePair: each test, with the status and the reason of its failure.
unfoldable pub pair_checks :
    WeighPass → WeighPass → PairPolicy → Duration → ℤ → List (Bool × (CycleStatus × PairReason))
pair_checks first second policy elapsed net =
    (
      not (is_first first.number) || not (is_a_to_b first.direction),
      (CycleStatus.pair_weight_invalid, first_not_a_to_b),
    )
    ∷ (
      not (is_second second.number) || not (is_b_to_a second.direction),
      (CycleStatus.pair_weight_invalid, second_not_b_to_a),
    )
    ∷ (plates_differ first second, (CycleStatus.wrong_truck, plate_differs))
    ∷ (rfids_differ first second, (CycleStatus.wrong_truck, rfid_differs))
    ∷ (
      is_unreferenced first.weight.raw_ref || is_unreferenced second.weight.raw_ref,
      (CycleStatus.pair_weight_invalid, no_raw_ref),
    )
    ∷ (leb_ℤ elapsed (pos 0), (CycleStatus.pair_time_invalid, not_after))
    ∷ (
      ltb_ℤ (pos 0) policy.min_elapsed && ltb_ℤ elapsed policy.min_elapsed,
      (CycleStatus.pair_time_invalid, too_soon elapsed policy.min_elapsed),
    )
    ∷ (
      ltb_ℤ (pos 0) policy.max_elapsed && ltb_ℤ policy.max_elapsed elapsed,
      (CycleStatus.pair_time_invalid, too_late elapsed policy.max_elapsed),
    )
    ∷ (
      not (within_configured first.weight.weight_kg policy.min_gross_kg policy.max_gross_kg),
      (CycleStatus.pair_weight_invalid, gross_range),
    )
    ∷ (
      not (within_configured second.weight.weight_kg policy.min_tare_kg policy.max_tare_kg),
      (CycleStatus.pair_weight_invalid, tare_range),
    )
    ∷ (leb_ℤ net (pos 0), (CycleStatus.pair_weight_invalid, not_heavier))
    ∷ (
      not (within_configured net policy.min_net_kg policy.max_net_kg),
      (CycleStatus.pair_weight_invalid, net_range),
    )
    ∷ []

-- A validation with its measured values.
unfoldable pub conclude_pair :
    ℤ → ℤ → ℤ → Duration → Option (CycleStatus × PairReason) → PairValidation
conclude_pair gross tare net elapsed (some (status, reason)) = record {
  valid = false;
  status = status;
  reason = reason;
  elapsed = elapsed;
  gross_kg = gross;
  tare_kg = tare;
  net_kg = net;
}
conclude_pair gross tare net elapsed none = record {
  valid = true;
  status = CycleStatus.complete;
  reason = PairReason.valid;
  elapsed = elapsed;
  gross_kg = gross;
  tare_kg = tare;
  net_kg = net;
}

unfoldable pub validate_pair : WeighPass → WeighPass → PairPolicy → PairValidation
unfolding conclude_pair
validate_pair first second policy =
    let net = sub64 first.weight.weight_kg second.weight.weight_kg in
    let elapsed = time_sub second.weight.observed_at first.weight.observed_at in
    conclude_pair first.weight.weight_kg second.weight.weight_kg net elapsed
      (first_failure (pair_checks first second policy elapsed net))

pub data PassError : Type 0 where
  not_first not_a_to_b no_plate no_raw_ref no_weight no_timestamp : PassError

unfoldable pub first_pass_checks : WeighPass → List (Bool × PassError)
first_pass_checks pass =
    (not (is_first pass.number), PassError.not_first)
    ∷ (not (is_a_to_b pass.direction), PassError.not_a_to_b)
    ∷ (is_no_codes (normalize_cycle_identity pass.plate), PassError.no_plate)
    ∷ (is_unreferenced pass.weight.raw_ref, PassError.no_raw_ref)
    ∷ (leb_ℤ pass.weight.weight_kg (pos 0), PassError.no_weight)
    ∷ (is_zero pass.weight.observed_at, PassError.no_timestamp)
    ∷ []

unfoldable pub validate_first_pass : WeighPass → Option PassError
unfolding first_pass_checks
validate_first_pass pass = first_failure (first_pass_checks pass)
