-- ===== src/Engine/Safety.antt =====
-- The safety invariant of a transaction, and that each part of the engine keeps it.
use plantops_edge_scale.Base.{
  ◌==◌, ◌≡◌, Bool, true, false, ◌&&◌, not, str_eq, Option, none, some, is_some, arith, if_intro,
  if◌then◌else◌, String,
}
use plantops_edge_scale.Domain.Types.{AuditedScaleReading, RawWeightRef}
use plantops_edge_scale.Domain.Workflow.{
  WorkflowState, local_committed, exit_authorized, exiting, complete, fault_lockout, Transaction,
  WeightAcceptance, no_outputs, BlockReason,
}
use plantops_edge_scale.Engine.Record.{Engine, Env, Resolution, failed, unknown, found, block, lock}
use plantops_edge_scale.Engine.Identity.{
  authorize_on, try_authorize_entry, cross_check, check_both, accept_plate, accept_vehicle,
  accept_tag, mismatch_identity, evaluate_identity,
}
use plantops_edge_scale.Engine.Position.{evaluate_position, try_ready_to_weigh}

abbrev pub is_raw_ref : RawWeightRef → Bool
is_raw_ref r = not (r.seq == 0) && not (str_eq r.hash "")

abbrev is_audited : Option WeightAcceptance → Bool
is_audited none = false
is_audited (some w) = is_raw_ref w.raw_ref

-- A weight with its journal record is durably committed.
abbrev pub is_committed : Transaction → Bool
is_committed t = is_audited t.accepted_weight && is_some t.local_committed_at

-- States in which the vehicle may leave, or has left.
abbrev pub is_released : WorkflowState → Bool
is_released local_committed = true
is_released exit_authorized = true
is_released exiting = true
is_released complete = true
is_released _ = false

pub record IsSafe (t : Transaction) : Type 0 where
  pub locked_off : t.state ≡ fault_lockout → t.outputs ≡ no_outputs
  pub complete_off : t.state ≡ complete → t.outputs ≡ no_outputs
  pub green_committed : t.outputs.exit_green ≡ true → is_committed t ≡ true
  pub barrier_committed : t.outputs.exit_barrier_open ≡ true → is_committed t ≡ true
  pub release_committed : is_released t.state ≡ true → is_committed t ≡ true

pub lock-IsSafe : (env : Env) (r : BlockReason) (t : Transaction) → IsSafe t → IsSafe (lock env r t)
unfolding lock
lock-IsSafe env r t h = ground arith

pub block-IsSafe : (r : BlockReason) (t : Transaction) → IsSafe t → IsSafe (block r t)
block-IsSafe r t h = ground arith

module _ {S : Type 0} (env : Env) (e : Engine S) where
  authorize_on-IsSafe :
      (o : Option AuditedScaleReading) (t : Transaction)
      → IsSafe t
      → IsSafe (authorize_on env e o t)
  unfolding authorize_on
  authorize_on-IsSafe none t h = ground arith
  authorize_on-IsSafe (some a) t h =
      if_intro IsSafe _ (λ _. lock-IsSafe env _ t h)
        λ _. if_intro IsSafe _ (λ _. ground arith) (λ _. ground arith)

  pub try_authorize_entry-IsSafe :
      (t : Transaction) → IsSafe t → IsSafe (try_authorize_entry env e t)
  unfolding try_authorize_entry
  try_authorize_entry-IsSafe t h =
      if_intro IsSafe _ (λ _. h)
        λ _.
          if_intro IsSafe _ (λ _. ground arith)
            λ _. if_intro IsSafe _ (λ _. ground arith) (λ _. authorize_on-IsSafe e.last_scale t h)

  pub evaluate_position-IsSafe : (t : Transaction) → IsSafe t → IsSafe (evaluate_position env e t)
  unfolding evaluate_position if◌then◌else◌
  evaluate_position-IsSafe t h = ground arith

  pub try_ready_to_weigh-IsSafe : (t : Transaction) → IsSafe t → IsSafe (try_ready_to_weigh env e t)
  unfolding try_ready_to_weigh lock if◌then◌else◌
  try_ready_to_weigh-IsSafe t h = ground arith

  cross_check-IsSafe :
      (r : Resolution) (t : Transaction) → IsSafe t → IsSafe (cross_check env e r t)
  unfolding cross_check mismatch_identity
  cross_check-IsSafe (failed m) t h = ground arith
  cross_check-IsSafe unknown t h = ground arith
  cross_check-IsSafe (found v) t h =
      if_intro IsSafe _ (λ _. ground arith)
        λ _.
          try_authorize_entry-IsSafe _ (if_intro IsSafe _ (λ _. ground arith) (λ _. ground arith))

  check_both-IsSafe :
      (o : Option (String → Resolution)) (t : Transaction)
      → IsSafe t
      → IsSafe (check_both env e o t)
  unfolding check_both
  check_both-IsSafe none t h = ground arith
  check_both-IsSafe (some resolve) t h = cross_check-IsSafe (resolve t.rfid.tag) t h

  accept_plate-IsSafe : (t : Transaction) → IsSafe t → IsSafe (accept_plate env e t)
  unfolding accept_plate
  accept_plate-IsSafe t h = try_authorize_entry-IsSafe _ (ground arith)

  accept_vehicle-IsSafe :
      (r : Resolution) (t : Transaction) → IsSafe t → IsSafe (accept_vehicle env e r t)
  unfolding accept_vehicle
  accept_vehicle-IsSafe (found v) t h = try_authorize_entry-IsSafe _ (ground arith)
  accept_vehicle-IsSafe (failed m) t h = ground arith
  accept_vehicle-IsSafe unknown t h = ground arith

  accept_tag-IsSafe :
      (o : Option (String → Resolution)) (t : Transaction)
      → IsSafe t
      → IsSafe (accept_tag env e o t)
  unfolding accept_tag
  accept_tag-IsSafe none t h = ground arith
  accept_tag-IsSafe (some resolve) t h = accept_vehicle-IsSafe (resolve t.rfid.tag) t h

  pub evaluate_identity-IsSafe : (t : Transaction) → IsSafe t → IsSafe (evaluate_identity env e t)
  unfolding evaluate_identity
  evaluate_identity-IsSafe t h =
      if_intro IsSafe _ (λ _. h)
        λ _.
          if_intro IsSafe _ (λ _. check_both-IsSafe e.registry t h)
            λ _.
              if_intro IsSafe _ (λ _. accept_plate-IsSafe t h)
                λ _.
                  if_intro IsSafe _ (λ _. accept_tag-IsSafe e.registry t h)
                    λ _. if_intro IsSafe _ (λ _. ground arith) (λ _. h)
