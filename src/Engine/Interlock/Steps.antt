-- ===== src/Engine/Interlock/Steps.antt =====
-- Every handler keeps the entry interlock.
use plantops_edge_scale.Base.{Bool, List, arith, if◌then◌else◌, if_intro}
use plantops_edge_scale.Domain.Types.{
  PositionSnapshot, RfidObservation, LprObservation, Fault, Override, DeviceId,
}
use plantops_edge_scale.Domain.Workflow.{Transaction}
use plantops_edge_scale.Engine.Record.{Engine, Env, lock, sync_fault_slice, update_mode}
use plantops_edge_scale.Engine.Position.{evaluate_position, try_ready_to_weigh}
use plantops_edge_scale.Engine.Presence.{
  admit, enter_deck, settle, reach_exit, clear_exit, position_step,
}
use plantops_edge_scale.Engine.Handlers.{rfid_step, lpr_step, fault_step, clear_step, override_step}
use plantops_edge_scale.Engine.Interlock.{
  Quiet, G, quiet, try_authorize_entry-G, evaluate_identity-G,
}

module _ {S : Type 0} (env : Env) (e : Engine S) (before : Bool) where
  abbrev pub Q : Transaction → Type 0
  Q = Quiet env e before

  abbrev pub D : Transaction → Type 0
  D = G env e before

  update_mode-Q : (fs : List Fault) (t : Transaction) → Q t → Q (update_mode fs t)
  unfolding update_mode
  update_mode-Q fs t q = if_intro Q _ (λ _. q) (λ _. q)

  evaluate_position-Q : (t : Transaction) → Q t → Q (evaluate_position env e t)
  unfolding evaluate_position if◌then◌else◌
  evaluate_position-Q t q = ground arith

  evaluate_position-G : (t : Transaction) → D t → D (evaluate_position env e t)
  unfolding evaluate_position if◌then◌else◌
  evaluate_position-G t d = ground arith

  pub try_ready_to_weigh-G : (t : Transaction) → D t → D (try_ready_to_weigh env e t)
  unfolding try_ready_to_weigh lock if◌then◌else◌
  try_ready_to_weigh-G t d = ground arith

  try_ready_to_weigh-Q : (t : Transaction) → Q t → Q (try_ready_to_weigh env e t)
  unfolding try_ready_to_weigh lock if◌then◌else◌
  try_ready_to_weigh-Q t q = ground arith

  pub admit-G : (t : Transaction) → Q t → D (admit env e t)
  unfolding admit
  admit-G t q =
      if_intro D _ (λ _. try_authorize_entry-G env e before t q) (λ _. quiet env e before q)

  settle-G : (p : PositionSnapshot) (t : Transaction) → D t → D (settle env e p t)
  unfolding settle
  settle-G p t d =
      let placed = evaluate_position-G _ (if_intro D _ (λ _. ground arith) (λ _. d)) in
      if_intro D _ (λ _. if_intro D _ (λ _. try_ready_to_weigh-G _ placed) (λ _. placed)) (λ _. d)

  pub position_step-G : (p : PositionSnapshot) (t : Transaction) → Q t → D (position_step env e p t)
  unfolding position_step enter_deck reach_exit clear_exit
  position_step-G p t q =
      if_intro D _ (λ _. quiet env e before q)
        λ _. cleared (reached (settle-G p _ (entered (admit-G _ q))))
    where
      entered : {t : Transaction} → D t → D (enter_deck env p t)
      entered d = if_intro D _ (λ _. ground arith) (λ _. d)

      reached : {t : Transaction} → D t → D (reach_exit env p t)
      reached d = if_intro D _ (λ _. ground arith) (λ _. d)

      cleared : {t : Transaction} → D t → D (clear_exit env p t)
      cleared d = if_intro D _ (λ _. if_intro D _ (λ _. ground arith) (λ _. ground arith)) (λ _. d)

  pub rfid_step-G : (o : RfidObservation) (t : Transaction) → Q t → D (rfid_step env e o t)
  unfolding rfid_step
  rfid_step-G o t q =
      if_intro D _ (λ _. evaluate_identity-G env e before _ q) (λ _. quiet env e before q)

  pub lpr_step-G : (o : LprObservation) (t : Transaction) → Q t → D (lpr_step env e o t)
  unfolding lpr_step
  lpr_step-G o t q =
      if_intro D _ (λ _. evaluate_identity-G env e before _ q) (λ _. quiet env e before q)

  pub fault_step-G : (f : Fault) (t : Transaction) → Q t → D (fault_step env e f t)
  unfolding fault_step sync_fault_slice lock
  fault_step-G f t q =
      let moded = update_mode-Q e.faults (sync_fault_slice e.faults t) q in
      if_intro D _ (λ _. ground arith)
        λ _.
          evaluate_identity-G env e before _
            (if_intro Q _ (λ _. evaluate_position-Q _ moded) (λ _. moded))

  pub clear_step-G : (d : DeviceId) (t : Transaction) → Q t → D (clear_step env e d t)
  unfolding clear_step sync_fault_slice
  clear_step-G d t q =
      let moded =
        if_intro Q _ (λ _. q) (λ _. update_mode-Q e.faults (sync_fault_slice e.faults t) q) in
      evaluate_identity-G env e before _
        (if_intro Q _ (λ _. evaluate_position-Q _ moded) (λ _. moded))

  pub override_step-G : (o : Override) (t : Transaction) → Q t → D (override_step env e o t)
  unfolding override_step
  override_step-G o t q =
      let moded = update_mode-Q e.faults _ q in
      evaluate_identity-G env e before _
        (if_intro Q _ (λ _. try_ready_to_weigh-Q _ (evaluate_position-Q _ moded)) (λ _. moded))
