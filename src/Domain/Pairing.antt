-- ===== src/Domain/Pairing.antt =====
-- What a valid pair of passes is: ValidatePair against its conditions one by one.
use plantops_edge_scale.Base.{
  ◌<◌, ◌≡◌, refl, ◌↔◌, ◌≢◌, true, false, [], Option, none, some, ℤ, pos, leb_ℤ, ◌<ℤ◌, ◌≤ℤ◌, sub64,
  ◌-ℤ◌, ◌∙◌, IsInt64, if◌then◌else◌, codes_eq_sound, codes_eq_refl, AllPass, first_failure-AllPass,
  AllPass-first_failure, arith,
}
use plantops_edge_scale.Domain.Types.{Time}
use plantops_edge_scale.Domain.Workflow.{Direction, PassNumber, CycleStatus}
use plantops_edge_scale.Domain.Cycle.{
  WeighPass, PairPolicy, PairReason, Duration, time_sub, normalize_cycle_identity,
  within_configured, is_unreferenced, plates_differ, rfids_differ, pair_checks, conclude_pair,
  validate_pair, validate_first_pass,
}

-- A limit that is not positive is not configured.
abbrev pub IsWithin : ℤ → ℤ → ℤ → Type 0
IsWithin v min max = (pos 0 <ℤ min → min ≤ℤ v) × (pos 0 <ℤ max → v ≤ℤ max)

configured-IsWithin : (v min max : ℤ) → within_configured v min max ≡ true → IsWithin v min max
unfolding within_configured if◌then◌else◌
configured-IsWithin v min max h = ground arith

IsWithin-configured : (v min max : ℤ) → IsWithin v min max → within_configured v min max ≡ true
unfolding within_configured if◌then◌else◌
IsWithin-configured v min max h = ground arith

-- The conditions of a pair, with its elapsed time and net weight.
pub record IsPair (first second : WeighPass) (policy : PairPolicy) (elapsed : Duration) (net : ℤ)
    : Type 0 where
  pub outbound : (first.number ≡ PassNumber.first) × (first.direction ≡ Direction.a_to_b)
  pub inbound : (second.number ≡ PassNumber.second) × (second.direction ≡ Direction.b_to_a)
  pub same_plate : normalize_cycle_identity first.plate ≡ normalize_cycle_identity second.plate
  pub has_plate : normalize_cycle_identity first.plate ≢ []
  pub same_rfid : rfids_differ first second ≡ false
  pub referenced :
      (is_unreferenced first.weight.raw_ref ≡ false)
      × (is_unreferenced second.weight.raw_ref ≡ false)
  pub in_order : pos 0 <ℤ elapsed
  pub in_window : IsWithin elapsed policy.min_elapsed policy.max_elapsed
  pub gross_allowed : IsWithin first.weight.weight_kg policy.min_gross_kg policy.max_gross_kg
  pub tare_allowed : IsWithin second.weight.weight_kg policy.min_tare_kg policy.max_tare_kg
  pub heavier : pos 0 <ℤ net
  pub net_allowed : IsWithin net policy.min_net_kg policy.max_net_kg

module _ (first second : WeighPass) (policy : PairPolicy) (elapsed : Duration) (net : ℤ) where
  AllPass-IsPair :
      AllPass (pair_checks first second policy elapsed net) → IsPair first second policy elapsed net
  unfolding pair_checks
  AllPass-IsPair (a, (b, (c, (d, (f, (g, (i, (j, (k, (l, (m, (n, _)))))))))))) = record {
    outbound = ground arith;
    inbound = ground arith;
    same_plate = codes_eq_sound _ _ (ground arith);
    has_plate = ground arith;
    same_rfid = d;
    referenced = ground arith;
    in_order = ground arith;
    in_window = ground arith;
    gross_allowed = configured-IsWithin _ _ _ (ground arith);
    tare_allowed = configured-IsWithin _ _ _ (ground arith);
    heavier = ground arith;
    net_allowed = configured-IsWithin _ _ _ (ground arith);
  }

  IsPair-AllPass :
      IsPair first second policy elapsed net → AllPass (pair_checks first second policy elapsed net)
  unfolding pair_checks
  IsPair-AllPass p =
      let same = codes_eq_refl (normalize_cycle_identity second.plate) in
      let gross = IsWithin-configured _ _ _ p.gross_allowed in
      let tare = IsWithin-configured _ _ _ p.tare_allowed in
      let net_ok = IsWithin-configured _ _ _ p.net_allowed in
      (
        ground arith,
        (
          ground arith,
          (
            plates p,
            (
              p.same_rfid,
              (
                ground arith,
                (
                  ground arith,
                  (
                    ground arith,
                    (
                      ground arith,
                      (ground arith, (ground arith, (ground arith, (ground arith, tt)))),
                    ),
                  ),
                ),
              ),
            ),
          ),
        ),
      )
    where
      plates : IsPair first second policy elapsed net → plates_differ first second ≡ false
      plates q = rw q.same_plate (
          ground (
            arith,
            codes_eq_refl (normalize_cycle_identity second.plate),
            q.has_plate,
            q.same_plate,
          ))

-- The elapsed time and the net weight that a pair is judged by.
abbrev pub pair_elapsed : WeighPass → WeighPass → Duration
pair_elapsed first second = time_sub second.weight.observed_at first.weight.observed_at

abbrev pub pair_net : WeighPass → WeighPass → ℤ
pair_net first second = sub64 first.weight.weight_kg second.weight.weight_kg

conclude-valid_iff :
    (gross tare net : ℤ) (elapsed : Duration) (o : Option (CycleStatus × PairReason))
    → ((conclude_pair gross tare net elapsed o).valid ≡ true) ↔ (o ≡ none)
unfolding conclude_pair
conclude-valid_iff gross tare net elapsed none = (λ _. refl, λ _. refl)
conclude-valid_iff gross tare net elapsed (some (st, r)) = (λ h. cc, λ h. cc)

-- ValidatePair accepts a pair exactly when it meets every condition: numbers and directions of the two
-- passes, one non-empty plate, no two different RFIDs, raw references, a positive elapsed time within
-- the policy's window, weights within the policy's ranges, and a positive net weight.
pub IsPair-valid_iff :
    (first second : WeighPass) (policy : PairPolicy)
    → ((validate_pair first second policy).valid ≡ true)
      ↔ IsPair first second policy (pair_elapsed first second) (pair_net first second)
unfolding validate_pair
IsPair-valid_iff first second policy = (
  λ h.
      AllPass-IsPair first second policy _ _
        (first_failure-AllPass _ ((conclude-valid_iff _ _ _ _ _).0 h)),
  λ h.
      (conclude-valid_iff _ _ _ _ _).1
        (AllPass-first_failure _ (IsPair-AllPass first second policy _ _ h)),
)

conclude-net :
    (gross tare net : ℤ) (elapsed : Duration) (o : Option (CycleStatus × PairReason))
    → (conclude_pair gross tare net elapsed o).net_kg ≡ net
unfolding conclude_pair
conclude-net gross tare net elapsed none = refl
conclude-net gross tare net elapsed (some (st, r)) = refl

-- A positive int64 difference of a positive number has not wrapped.
sub64_exact :
    (g t : ℤ)
    → IsInt64 g
    → IsInt64 t
    → leb_ℤ g (pos 0) ≡ false
    → pos 0 <ℤ sub64 g t
    → (sub64 g t ≡ g -ℤ t) × (t <ℤ g)
unfolding sub64 ◌-ℤ◌ if◌then◌else◌
sub64_exact g t hg ht positive h = ground arith

time_sub-lt : (t u : Time) → pos 0 <ℤ time_sub t u → u < t
unfolding time_sub if◌then◌else◌ ◌-ℤ◌
time_sub-lt t u h = ground arith

-- With int64 weights and a positive first weight, as ValidateFirstPass demands, a valid pair's net
-- weight is the exact difference, the second weight is the smaller, and the second pass is the later.
pub pair_net_exact :
    (first second : WeighPass) (policy : PairPolicy)
    → IsInt64 first.weight.weight_kg
    → IsInt64 second.weight.weight_kg
    → validate_first_pass first ≡ none
    → (validate_pair first second policy).valid ≡ true
    → ((validate_pair first second policy).net_kg
        ≡ first.weight.weight_kg -ℤ second.weight.weight_kg)
      × (second.weight.weight_kg <ℤ first.weight.weight_kg)
      × (first.weight.observed_at < second.weight.observed_at)
unfolding validate_first_pass validate_pair
pair_net_exact first second policy g t f v =
    let p = (IsPair-valid_iff first second policy).0 v in
    let positive = (first_failure-AllPass _ f).1.1.1.1.0 in
    let (exact, lighter) = sub64_exact _ _ g t positive p.heavier in
    (conclude-net _ _ _ _ _ ∙ exact, lighter, time_sub-lt _ _ p.in_order)
