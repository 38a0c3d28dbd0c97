-- ===== src/Engine/Invariant.antt =====
-- Every handler keeps the safety invariant, so it holds after any sequence of inputs.
use plantops_edge_scale.Base.{◌≡◌, false, String, List, Option, none, some, arith, if_intro}
use plantops_edge_scale.Domain.Types.{
  Time, AuditedScaleReading, PositionSnapshot, RfidObservation, LprObservation, Fault, Override,
  DeviceId, Ticket,
}
use plantops_edge_scale.Domain.Workflow.{identifying, Transaction}
use plantops_edge_scale.Engine.Record.{
  Engine, Env, EngineError, begin, start_transaction, fresh_transaction, transition,
  sync_fault_slice, update_mode,
}
use plantops_edge_scale.Engine.Presence.{
  admit, enter_deck, settle, reach_exit, clear_exit, position_step, active_or_new, observe_position,
}
use mathlib.Core.Option
use plantops_edge_scale.Engine.Weighing.{
  release, conclude, commit_with, commit_ticket, scale_on, weigh, approach_weighing, idle_scale,
  active_scale, is_unaudited, observe_scale,
}
use plantops_edge_scale.Engine.Handlers.{
  rfid_step, lpr_step, observe_rfid, observe_lpr, fault_step, observe_fault, clear_step,
  clear_fault, refuse_override, override_step, override_on, answer_override, reset_on,
  authorize_override, reset_completed, Input, position, rfid, lpr, scale, fault, cleared, override,
  reset, step,
}
use plantops_edge_scale.Engine.Safety.{
  IsSafe, lock-IsSafe, try_authorize_entry-IsSafe, evaluate_position-IsSafe,
  try_ready_to_weigh-IsSafe, evaluate_identity-IsSafe,
}

-- The active transaction, if there is one, is safe.
abbrev pub SafeTx : Option Transaction → Type 0
SafeTx none = Unit
SafeTx (some t) = IsSafe t

update_mode-IsSafe : (fs : List Fault) (t : Transaction) → IsSafe t → IsSafe (update_mode fs t)
unfolding update_mode
update_mode-IsSafe fs t h = if_intro IsSafe _ (λ _. h) (λ _. ground arith)

sync-IsSafe : (fs : List Fault) (t : Transaction) → IsSafe t → IsSafe (sync_fault_slice fs t)
unfolding sync_fault_slice
sync-IsSafe fs t h = ground arith

module _ {S : Type 0} (env : Env) (e : Engine S) where
  admit-IsSafe : (t : Transaction) → IsSafe t → IsSafe (admit env e t)
  unfolding admit
  admit-IsSafe t h = if_intro IsSafe _ (λ _. try_authorize_entry-IsSafe env e t h) (λ _. h)

  enter_deck-IsSafe :
      (p : PositionSnapshot) (t : Transaction) → IsSafe t → IsSafe (enter_deck env p t)
  unfolding enter_deck
  enter_deck-IsSafe p t h = if_intro IsSafe _ (λ _. ground arith) (λ _. h)

  settle-IsSafe : (p : PositionSnapshot) (t : Transaction) → IsSafe t → IsSafe (settle env e p t)
  unfolding settle
  settle-IsSafe p t h =
      let placed =
        evaluate_position-IsSafe env e _ (if_intro IsSafe _ (λ _. ground arith) (λ _. h)) in
      if_intro IsSafe _
        (λ _. if_intro IsSafe _ (λ _. try_ready_to_weigh-IsSafe env e _ placed) (λ _. placed))
        (λ _. h)

  reach_exit-IsSafe :
      (p : PositionSnapshot) (t : Transaction) → IsSafe t → IsSafe (reach_exit env p t)
  unfolding reach_exit
  reach_exit-IsSafe p t h = if_intro IsSafe _ (λ at_exit. ground arith) (λ _. h)

  clear_exit-IsSafe :
      (p : PositionSnapshot) (t : Transaction) → IsSafe t → IsSafe (clear_exit env p t)
  unfolding clear_exit
  clear_exit-IsSafe p t h =
      if_intro IsSafe _ (λ leaving. if_intro IsSafe _ (λ _. ground arith) (λ _. ground arith))
        (λ _. h)

  position_step-IsSafe :
      (p : PositionSnapshot) (t : Transaction) → IsSafe t → IsSafe (position_step env e p t)
  unfolding position_step
  position_step-IsSafe p t h =
      if_intro IsSafe _ (λ _. ground arith)
        λ _. clear_exit-IsSafe p _ (
          reach_exit-IsSafe p _
            (settle-IsSafe p _ (enter_deck-IsSafe p _ (admit-IsSafe _ (ground arith)))))

  rfid_step-IsSafe :
      (o : RfidObservation) (t : Transaction) → IsSafe t → IsSafe (rfid_step env e o t)
  unfolding rfid_step
  rfid_step-IsSafe o t h =
      if_intro IsSafe _ (λ _. evaluate_identity-IsSafe env e _ (ground arith)) (λ _. h)

  lpr_step-IsSafe : (o : LprObservation) (t : Transaction) → IsSafe t → IsSafe (lpr_step env e o t)
  unfolding lpr_step
  lpr_step-IsSafe o t h =
      if_intro IsSafe _ (λ _. evaluate_identity-IsSafe env e _ (ground arith)) (λ _. h)

  fault_step-IsSafe : (f : Fault) (t : Transaction) → IsSafe t → IsSafe (fault_step env e f t)
  unfolding fault_step
  fault_step-IsSafe f t h =
      let synced = sync-IsSafe e.faults t h in
      let moded = update_mode-IsSafe e.faults _ synced in
      if_intro IsSafe _ (λ _. lock-IsSafe env _ _ synced)
        λ _.
          evaluate_identity-IsSafe env e _
            (if_intro IsSafe _ (λ _. evaluate_position-IsSafe env e _ moded) (λ _. moded))

  clear_step-IsSafe : (d : DeviceId) (t : Transaction) → IsSafe t → IsSafe (clear_step env e d t)
  unfolding clear_step
  clear_step-IsSafe d t h =
      let synced = sync-IsSafe e.faults t h in
      let moded = if_intro IsSafe _ (λ _. synced) (λ _. update_mode-IsSafe e.faults _ synced) in
      evaluate_identity-IsSafe env e _
        (if_intro IsSafe _ (λ _. evaluate_position-IsSafe env e _ moded) (λ _. moded))

  override_step-IsSafe :
      (o : Override) (t : Transaction) → IsSafe t → IsSafe (override_step env e o t)
  unfolding override_step
  override_step-IsSafe o t h =
      let moded = update_mode-IsSafe e.faults _ (ground arith) in
      evaluate_identity-IsSafe env e _ (
        if_intro IsSafe _
          (λ _. try_ready_to_weigh-IsSafe env e _ (evaluate_position-IsSafe env e _ moded))
          (λ _. moded))

map-SafeTx :
    (f : Transaction → Transaction) (o : Option Transaction)
    → ((t : Transaction) → IsSafe t → IsSafe (f t))
    → SafeTx o
    → SafeTx (Option.map f o)
map-SafeTx f none keep h = tt
map-SafeTx f (some t) keep h = keep t h

begin-IsSafe :
    (env : Env) (fs : List Fault) (o : Option Fault) (t : Transaction)
    → IsSafe t
    → IsSafe (begin env fs o t)
unfolding begin
begin-IsSafe env fs (some f) t h = lock-IsSafe env _ t h
begin-IsSafe env fs none t h = identifying-IsSafe (update_mode fs t) (update_mode-IsSafe fs t h)
  where
    identifying-IsSafe : (t : Transaction) → IsSafe t → IsSafe (transition env identifying t)
    identifying-IsSafe t h = ground arith

start_transaction-IsSafe :
    {S : Type 0} (env : Env) (at : Time) (e : Engine S) → IsSafe (start_transaction env at e)
unfolding start_transaction
start_transaction-IsSafe env at e =
    begin-IsSafe env e.faults _ _ (sync-IsSafe e.faults _ (fresh-IsSafe e.cfg.station_id))
  where
    fresh-IsSafe : (station : String) → IsSafe (fresh_transaction env station at)
    fresh-IsSafe station = ground arith

release-IsSafe :
    (env : Env) (a : AuditedScaleReading) (t : Transaction)
    → is_unaudited a ≡ false
    → IsSafe (release env a t)
unfolding release
release-IsSafe env a t audited = ground arith

module _ {S : Type 0} (env : Env) where
  observe_position-SafeTx :
      (p : PositionSnapshot) (e : Engine S) → SafeTx e.tx → SafeTx (observe_position env p e).tx
  unfolding observe_position
  observe_position-SafeTx p e h = map-SafeTx _ _ (position_step-IsSafe env e p) (begin e.tx h)
    where
      begin : (o : Option Transaction) → SafeTx o → SafeTx (active_or_new env e p o)
      begin none h = if_intro SafeTx _ (λ _. start_transaction-IsSafe env p.observed e) (λ _. tt)
      begin (some t) h = h

  approach_weighing-IsSafe :
      (e : Engine S) (t : Transaction) → IsSafe t → IsSafe (approach_weighing env e t)
  unfolding approach_weighing
  approach_weighing-IsSafe e t h =
      let ready = try_ready_to_weigh-IsSafe env e _ (admit-IsSafe env e t h) in
      if_intro IsSafe _ (λ _. ground arith) (λ _. ready)

  conclude-SafeTx :
      (a : AuditedScaleReading) (e : Engine S) (t : Transaction) (r : Option String × S)
      → is_unaudited a ≡ false
      → IsSafe t
      → SafeTx (conclude env a e t r).0.tx
  unfolding conclude
  conclude-SafeTx a e t (none, s) audited h = release-IsSafe env a t audited
  conclude-SafeTx a e t (some m, s) audited h = lock-IsSafe env _ t h

  commit_with-SafeTx :
      (a : AuditedScaleReading) (e : Engine S) (t : Transaction)
      (o : Option (Ticket → S → Option String × S))
      → is_unaudited a ≡ false
      → IsSafe t
      → SafeTx (commit_with env a e t o).0.tx
  unfolding commit_with
  commit_with-SafeTx a e t none audited h = lock-IsSafe env _ t h
  commit_with-SafeTx a e t (some commit) audited h = conclude-SafeTx a e t _ audited h

  -- What a handler that may fail leaves as the active transaction.
  abbrev Keeps : Engine S × Option EngineError → Type 0
  Keeps r = SafeTx r.0.tx

  weigh-SafeTx :
      (a : AuditedScaleReading) (e : Engine S) (t : Transaction)
      → is_unaudited a ≡ false
      → IsSafe t
      → SafeTx (weigh env a e t).0.tx
  unfolding weigh commit_ticket
  weigh-SafeTx a e t audited h =
      if_intro Keeps _ (λ _. if_intro IsSafe _ (λ _. ground arith) (λ _. ground arith))
        λ _.
          if_intro Keeps _ (λ _. ground arith)
            λ _.
              commit_with-SafeTx a (record e { stable_base = some a }) _ e.tickets audited
                (ground arith)

  active_scale-SafeTx :
      (a : AuditedScaleReading) (e : Engine S) (t : Transaction)
      → is_unaudited a ≡ false
      → IsSafe t
      → SafeTx (active_scale env a e t).0.tx
  unfolding active_scale
  active_scale-SafeTx a e t audited h =
      let synced = sync-IsSafe e.faults _ (ground arith) in
      let next = approach_weighing-IsSafe e _ synced in
      if_intro Keeps _ (λ _. lock-IsSafe env _ _ synced)
        λ _.
          if_intro Keeps _ (λ _. ground arith)
            λ _.
              if_intro Keeps _ (λ _. synced)
                λ _. if_intro Keeps _ (λ _. weigh-SafeTx a e _ audited next) (λ _. next)

  observe_scale-SafeTx :
      (a : AuditedScaleReading) (e : Engine S) → SafeTx e.tx → SafeTx (observe_scale env a e).0.tx
  unfolding observe_scale idle_scale scale_on
  observe_scale-SafeTx a e safe = if_intro Keeps _ (λ _. safe) (λ audited. on e.tx audited safe)
    where
      on :
          (o : Option Transaction)
          → is_unaudited a ≡ false
          → SafeTx o
          → SafeTx (scale_on env a (idle_scale a e) o).0.tx
      on none audited h = safe
      on (some t) audited h = active_scale-SafeTx a _ t audited h

  authorize_override-SafeTx :
      (o : Override) (e : Engine S) → SafeTx e.tx → SafeTx (authorize_override env o e).0.tx
  unfolding authorize_override override_on answer_override
  authorize_override-SafeTx o e safe = on e.tx safe
    where
      answer :
          (t : Transaction) (r : Option EngineError)
          → IsSafe t
          → SafeTx (answer_override env o e t r).0.tx
      answer t none h = override_step-IsSafe env e o t h
      answer t (some x) h = safe

      on : (tx : Option Transaction) → SafeTx tx → SafeTx (override_on env o e tx).0.tx
      on none h = safe
      on (some t) h = answer t (refuse_override e o t) h

  pub reset_completed-SafeTx : (e : Engine S) → SafeTx e.tx → SafeTx (reset_completed e).0.tx
  unfolding reset_completed reset_on
  reset_completed-SafeTx e safe = on e.tx
    where
      on : (tx : Option Transaction) → SafeTx (reset_on e tx).0.tx
      on none = safe
      on (some t) = if_intro Keeps _ (λ _. tt) (λ _. safe)

  pub step-SafeTx : (i : Input) (e : Engine S) → SafeTx e.tx → SafeTx (step env i e).0.tx
  unfolding step observe_rfid observe_lpr observe_fault clear_fault
  step-SafeTx (position p) e h = observe_position-SafeTx p e h
  step-SafeTx (rfid o) e h = map-SafeTx _ _ (rfid_step-IsSafe env e o) h
  step-SafeTx (lpr o) e h = map-SafeTx _ _ (lpr_step-IsSafe env e o) h
  step-SafeTx (scale a) e h = observe_scale-SafeTx a e h
  step-SafeTx (fault f) e h = map-SafeTx _ _ (fault_step-IsSafe env _ f) h
  step-SafeTx (cleared d) e h = map-SafeTx _ _ (clear_step-IsSafe env _ d) h
  step-SafeTx (override o) e h = authorize_override-SafeTx o e h
  step-SafeTx reset e h = reset_completed-SafeTx e h
