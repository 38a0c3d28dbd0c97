-- ===== src/Engine/Interlock.antt =====
-- The entry interlock: the entry barrier is opened only onto a deck that is proven empty.
mod Steps
pub mod Barrier
use mathlib.Core.Option
use plantops_edge_scale.Base.{
  ◌≡◌, refl, Bool, true, false, ◌⊎◌, inl, inr, String, List, [], ◌∷◌, Option, none, some, ℤ, ltb_ℤ,
  arith, if◌then◌else◌, if_intro,
}
use plantops_edge_scale.Domain.Types.{
  AuditedScaleReading, PositionSnapshot, RfidObservation, LprObservation, Fault, Override, DeviceId,
  Ticket, Time,
}
use plantops_edge_scale.Domain.Workflow.{IdentityStatus, Transaction, BlockReason}
use plantops_edge_scale.Domain.Policy.{is_unhealthy}
use plantops_edge_scale.Engine.Record.{
  Engine, Env, Resolution, failed, unknown, found, EngineError, lock, sync_fault_slice, update_mode,
  begin, start_transaction, fresh_transaction,
}
use plantops_edge_scale.Engine.Identity.{
  abs64, authorize_on, try_authorize_entry, cross_check, check_both, accept_plate, accept_vehicle,
  accept_tag, mismatch_identity, evaluate_identity,
}
use plantops_edge_scale.Engine.Position.{evaluate_position, try_ready_to_weigh}
use plantops_edge_scale.Engine.Presence.{
  admit, enter_deck, settle, reach_exit, clear_exit, position_step, active_or_new, observe_position,
}
use plantops_edge_scale.Engine.Weighing.{
  release, conclude, commit_with, commit_ticket, weigh, approach_weighing, idle_scale, active_scale,
  scale_on, observe_scale,
}
use plantops_edge_scale.Engine.Handlers.{
  rfid_step, lpr_step, observe_rfid, observe_lpr, fault_step, observe_fault, clear_step,
  clear_fault, refuse_override, override_step, answer_override, override_on, authorize_override,
  reset_on, reset_completed, Input, position, rfid, lpr, scale, fault, cleared, override, reset,
  step,
}

-- A healthy, stable reading within the limit for an empty scale.
abbrev pub ShowsEmpty : ℤ → Option AuditedScaleReading → Type 0
ShowsEmpty limit none = ⊥
ShowsEmpty limit (some a) =
    (is_unhealthy a.reading ≡ false)
    × (a.reading.stable ≡ true)
    × (ltb_ℤ limit (abs64 a.reading.weight_kg) ≡ false)

-- The vehicle is identified, the safety input is clear and the deck is empty.
pub record IsProven (limit : ℤ) (last : Option AuditedScaleReading) (t : Transaction) : Type 0 where
  pub identified : t.identity ≡ IdentityStatus.accepted
  pub safety_clear : t.position_snapshot.safety_clear ≡ true
  pub front_clear : t.position_snapshot.front_present ≡ false
  pub rear_clear : t.position_snapshot.rear_present ≡ false
  pub scale_empty : ShowsEmpty limit last

-- An open entry barrier was open before, or the deck is proven empty.
pub record Guarded (before : Bool) (limit : ℤ) (last : Option AuditedScaleReading) (t : Transaction)
    : Type 0 where
  pub guard : t.outputs.entry_barrier_open ≡ true → (before ≡ true) ⊎ IsProven limit last t

module _ {S : Type 0} (env : Env) (e : Engine S) (before : Bool) where
  -- The barrier is not open unless it was.
  abbrev pub Quiet : Transaction → Type 0
  Quiet t = t.outputs.entry_barrier_open ≡ true → before ≡ true

  abbrev pub G : Transaction → Type 0
  G = Guarded before e.cfg.empty_scale_max_kg e.last_scale

  pub quiet : {t : Transaction} → Quiet t → G t
  quiet q = record { guard = λ h. inl (q h) }

  authorize_on-G :
      (o : Option AuditedScaleReading) (t : Transaction)
      → t.identity ≡ IdentityStatus.accepted
      → t.position_snapshot.safety_clear ≡ true
      → t.position_snapshot.front_present ≡ false
      → t.position_snapshot.rear_present ≡ false
      → Quiet t
      → Guarded before e.cfg.empty_scale_max_kg o (authorize_on env e o t)
  unfolding authorize_on lock
  authorize_on-G none t i s f r q = ground arith
  authorize_on-G (some a) t i s f r q =
      if_intro P _ (λ _. ground arith)
        λ well.
          if_intro P _ (λ _. ground arith)
            λ empty. record {
              guard = λ _. inr (record {
                identified = i;
                safety_clear = s;
                front_clear = f;
                rear_clear = r;
                scale_empty = (well, ground arith, ground arith);
              });
            }
    where
      P : Transaction → Type 0
      P = Guarded before e.cfg.empty_scale_max_kg (some a)

  pub try_authorize_entry-G : (t : Transaction) → Quiet t → G (try_authorize_entry env e t)
  unfolding try_authorize_entry
  try_authorize_entry-G t q =
      if_intro G _ (λ _. quiet q)
        λ known.
          if_intro G _ (λ _. quiet q)
            λ safe.
              if_intro G _ (λ _. quiet q)
                λ clear.
                  authorize_on-G e.last_scale t (ground arith) (ground arith) (ground arith)
                    (ground arith) q

  cross_check-G : (r : Resolution) (t : Transaction) → Quiet t → G (cross_check env e r t)
  unfolding cross_check mismatch_identity
  cross_check-G (failed m) t q = quiet q
  cross_check-G unknown t q = quiet q
  cross_check-G (found v) t q =
      if_intro G _ (λ _. ground arith)
        λ _. try_authorize_entry-G _ (if_intro Quiet _ (λ _. q) (λ _. q))

  pub evaluate_identity-G : (t : Transaction) → Quiet t → G (evaluate_identity env e t)
  unfolding evaluate_identity accept_plate check_both accept_vehicle accept_tag
  evaluate_identity-G t q =
      if_intro G _ (λ _. quiet q)
        λ _.
          if_intro G _ (λ _. both e.registry)
            λ _.
              if_intro G _ (λ _. try_authorize_entry-G _ q)
                λ _.
                  if_intro G _ (λ _. tag e.registry) λ _. if_intro G _ (λ _. quiet q) (λ _. quiet q)
    where
      both : (o : Option (String → Resolution)) → G (check_both env e o t)
      both none = quiet q
      both (some resolve) = cross_check-G (resolve t.rfid.tag) t q

      vehicle : (r : Resolution) → G (accept_vehicle env e r t)
      vehicle (found v) = try_authorize_entry-G _ q
      vehicle (failed m) = quiet q
      vehicle unknown = quiet q

      tag : (o : Option (String → Resolution)) → G (accept_tag env e o t)
      tag none = quiet q
      tag (some resolve) = vehicle (resolve t.rfid.tag)
