-- ===== src/Examples/Pairs.antt =====
-- One pair of passes: 28 t loaded out, 11 t back, ten minutes later.
use plantops_edge_scale.Base.{
  codes_eq, sub64, ◌≡◌, ◌↔◌, refl, true, [], none, pos, ◌-ℤ◌, ◌<ℤ◌, ◌<◌, if◌then◌else◌, arith,
  first_failure,
}
use plantops_edge_scale.Domain.Types.{Mode}
use plantops_edge_scale.Domain.Workflow.{Direction, PassNumber}
use plantops_edge_scale.Domain.Cycle.{
  WeighPass, PairPolicy, validate_pair, validate_first_pass, first_pass_checks, pair_checks,
  normalize_cycle_identity, time_sub, within_configured,
}
use plantops_edge_scale.Domain.Pairing.{
  IsPair, pair_elapsed, pair_net, IsPair-valid_iff, pair_net_exact,
}

abbrev pub outbound : WeighPass
outbound = record {
  id = "p1";
  cycle_id = "c1";
  number = PassNumber.first;
  direction = Direction.a_to_b;
  station_id = "EDGE-01";
  plate = "15C-123.45";
  rfid = "RFID-1";
  weight = record {
    weight_kg = pos 28000;
    observed_at = 1000;
    raw_ref = record { seq = 7; hash = "c0ffee" };
  };
  mode = Mode.normal;
  overrides = [];
  camera_evidence = [];
  committed_at = 1000;
}

abbrev pub inbound : WeighPass
inbound = record outbound {
  id = "p2";
  number = PassNumber.second;
  direction = Direction.b_to_a;
  plate = "15c12345";
  weight = record {
    weight_kg = pos 11000;
    observed_at = 600000001000;
    raw_ref = record { seq = 9; hash = "beef" };
  };
}

abbrev pub open_policy : PairPolicy
open_policy = record {
  min_elapsed = pos 0;
  max_elapsed = pos 0;
  min_gross_kg = pos 0;
  max_gross_kg = pos 0;
  min_tare_kg = pos 0;
  max_tare_kg = pos 0;
  min_net_kg = pos 1000;
  max_net_kg = pos 0;
}

IsPair-valid_iff_example :
    ((validate_pair outbound inbound open_policy).valid ≡ true)
    ↔ IsPair outbound inbound open_policy
        (pair_elapsed outbound inbound)
        (pair_net outbound inbound)
IsPair-valid_iff_example = IsPair-valid_iff outbound inbound open_policy

pair_test : (validate_pair outbound inbound open_policy).valid ≡ true
unfolding validate_pair first_failure pair_checks normalize_cycle_identity if◌then◌else◌ codes_eq
    time_sub within_configured sub64
pair_test = refl

first_pass_test : validate_first_pass outbound ≡ none
unfolding validate_first_pass first_failure first_pass_checks normalize_cycle_identity if◌then◌else◌
first_pass_test = refl

pair_net_exact_example :
    ((validate_pair outbound inbound open_policy).net_kg ≡ pos 28000 -ℤ pos 11000)
    × (pos 11000 <ℤ pos 28000)
    × (1000 < 600000001000)
pair_net_exact_example =
    pair_net_exact outbound inbound open_policy (ground arith) (ground arith) first_pass_test
      pair_test
