-- ===== src/Engine/Lockout.antt =====
-- Lockout is final: no input leaves it, switches an output on or commits a ticket.
use mathlib.Core.Option
use plantops_edge_scale.Base.{
  ◌≡◌, String, List, [], ◌∷◌, Option, none, some, arith, if◌then◌else◌, if_intro,
}
use plantops_edge_scale.Domain.Types.{
  AuditedScaleReading, PositionSnapshot, RfidObservation, LprObservation, Fault, Override, DeviceId,
}
use plantops_edge_scale.Domain.Workflow.{fault_lockout, Transaction, no_outputs, BlockReason}
use plantops_edge_scale.Engine.Record.{
  Engine, Env, EngineError, lock, sync_fault_slice, update_mode,
}
use plantops_edge_scale.Engine.Identity.{evaluate_identity}
use plantops_edge_scale.Engine.Position.{evaluate_position, try_ready_to_weigh}
use plantops_edge_scale.Engine.Presence.{position_step, active_or_new, observe_position}
use plantops_edge_scale.Engine.Weighing.{active_scale, idle_scale, scale_on, observe_scale}
use plantops_edge_scale.Engine.Handlers.{
  rfid_step, lpr_step, observe_rfid, observe_lpr, fault_step, observe_fault, clear_step,
  clear_fault, refuse_override, override_step, answer_override, override_on, authorize_override,
  reset_on, reset_completed, Input, position, rfid, lpr, scale, fault, cleared, override, reset,
  step, run,
}

-- The transaction `id` is locked out with every output off.
pub record IsLocked (id : String) (t : Transaction) : Type 0 where
  pub same : t.id ≡ id
  pub locked : t.state ≡ fault_lockout
  pub off : t.outputs ≡ no_outputs

abbrev pub LockedTx : String → Option Transaction → Type 0
LockedTx id none = ⊥
LockedTx id (some t) = IsLocked id t

module _ (env : Env) (id : String) where
  lock-IsLocked : (r : BlockReason) (t : Transaction) → IsLocked id t → IsLocked id (lock env r t)
  unfolding lock
  lock-IsLocked r t h = ground arith

  sync-IsLocked :
      (fs : List Fault) (t : Transaction) → IsLocked id t → IsLocked id (sync_fault_slice fs t)
  unfolding sync_fault_slice
  sync-IsLocked fs t h = ground arith

  update_mode-IsLocked :
      (fs : List Fault) (t : Transaction) → IsLocked id t → IsLocked id (update_mode fs t)
  unfolding update_mode
  update_mode-IsLocked fs t h = if_intro (IsLocked id) _ (λ _. h) (λ _. ground arith)

module _ {S : Type 0} (env : Env) (id : String) (e : Engine S) where
  evaluate_identity-IsLocked :
      (t : Transaction) → IsLocked id t → IsLocked id (evaluate_identity env e t)
  unfolding evaluate_identity
  evaluate_identity-IsLocked t h = if_intro (IsLocked id) _ (λ _. h) (λ running. ground arith)

  evaluate_position-IsLocked :
      (t : Transaction) → IsLocked id t → IsLocked id (evaluate_position env e t)
  unfolding evaluate_position if◌then◌else◌
  evaluate_position-IsLocked t h = ground arith

  try_ready_to_weigh-IsLocked :
      (t : Transaction) → IsLocked id t → IsLocked id (try_ready_to_weigh env e t)
  unfolding try_ready_to_weigh
  try_ready_to_weigh-IsLocked t h = if_intro (IsLocked id) _ (λ _. h) (λ running. ground arith)

  position_step-IsLocked :
      (p : PositionSnapshot) (t : Transaction)
      → IsLocked id t
      → IsLocked id (position_step env e p t)
  unfolding position_step
  position_step-IsLocked p t h =
      if_intro (IsLocked id) _ (λ _. ground arith) (λ running. ground arith)

  rfid_step-IsLocked :
      (o : RfidObservation) (t : Transaction) → IsLocked id t → IsLocked id (rfid_step env e o t)
  unfolding rfid_step
  rfid_step-IsLocked o t h =
      if_intro (IsLocked id) _ (λ _. evaluate_identity-IsLocked _ (ground arith)) (λ _. h)

  lpr_step-IsLocked :
      (o : LprObservation) (t : Transaction) → IsLocked id t → IsLocked id (lpr_step env e o t)
  unfolding lpr_step
  lpr_step-IsLocked o t h =
      if_intro (IsLocked id) _ (λ _. evaluate_identity-IsLocked _ (ground arith)) (λ _. h)

  fault_step-IsLocked :
      (f : Fault) (t : Transaction) → IsLocked id t → IsLocked id (fault_step env e f t)
  unfolding fault_step
  fault_step-IsLocked f t h =
      let synced = sync-IsLocked env id e.faults t h in
      let moded = update_mode-IsLocked env id e.faults _ synced in
      if_intro (IsLocked id) _ (λ _. lock-IsLocked env id _ _ synced)
        λ _.
          evaluate_identity-IsLocked _
            (if_intro (IsLocked id) _ (λ _. evaluate_position-IsLocked _ moded) (λ _. moded))

  clear_step-IsLocked :
      (d : DeviceId) (t : Transaction) → IsLocked id t → IsLocked id (clear_step env e d t)
  unfolding clear_step
  clear_step-IsLocked d t h =
      let synced = sync-IsLocked env id e.faults t h in
      let moded =
        if_intro (IsLocked id) _ (λ _. synced)
          (λ _. update_mode-IsLocked env id e.faults _ synced) in
      evaluate_identity-IsLocked _
        (if_intro (IsLocked id) _ (λ _. evaluate_position-IsLocked _ moded) (λ _. moded))

  override_step-IsLocked :
      (o : Override) (t : Transaction) → IsLocked id t → IsLocked id (override_step env e o t)
  unfolding override_step
  override_step-IsLocked o t h =
      let moded = update_mode-IsLocked env id e.faults _ (ground arith) in
      evaluate_identity-IsLocked _ (
        if_intro (IsLocked id) _
          (λ _. try_ready_to_weigh-IsLocked _ (evaluate_position-IsLocked _ moded)) (λ _. moded))

map-LockedTx :
    (id : String) (f : Transaction → Transaction) (o : Option Transaction)
    → ((t : Transaction) → IsLocked id t → IsLocked id (f t))
    → LockedTx id o
    → LockedTx id (Option.map f o)
map-LockedTx id f none keep h = h
map-LockedTx id f (some t) keep h = keep t h

-- The engine's transaction `id` is locked out, and the ticket store is in the state `s`.
pub record Frozen {S : Type 0} (id : String) (s : S) (e : Engine S) : Type 0 where
  pub tx_locked : LockedTx id e.tx
  pub store_kept : e.store ≡ s

module _ {S : Type 0} (env : Env) (id : String) (s : S) where
  -- What a handler that may fail leaves.
  abbrev Stays : Engine S × Option EngineError → Type 0
  Stays r = Frozen id s r.0

  observe_position-Frozen :
      (p : PositionSnapshot) (e : Engine S) → Frozen id s e → Frozen id s (observe_position env p e)
  unfolding observe_position
  observe_position-Frozen p e h = record {
    tx_locked = map-LockedTx id _ _ (position_step-IsLocked env id e p) (on e.tx h.tx_locked);
    store_kept = h.store_kept;
  }
    where
      on : (o : Option Transaction) → LockedTx id o → LockedTx id (active_or_new env e p o)
      on none h = absurd h
      on (some t) h = h

  active_scale-Frozen :
      (a : AuditedScaleReading) (e : Engine S) (t : Transaction)
      → e.store ≡ s
      → IsLocked id t
      → Frozen id s (active_scale env a e t).0
  unfolding active_scale
  active_scale-Frozen a e t kept h =
      let synced = sync-IsLocked env id e.faults _ (ground arith) in
      if_intro Stays _
        (λ _. record { tx_locked = lock-IsLocked env id _ _ synced; store_kept = kept })
        λ _.
          if_intro Stays _ (λ _. record { tx_locked = ground arith; store_kept = kept })
            (λ running. absurd (ground arith))

  observe_scale-Frozen :
      (a : AuditedScaleReading) (e : Engine S)
      → Frozen id s e
      → Frozen id s (observe_scale env a e).0
  unfolding observe_scale idle_scale
  observe_scale-Frozen a e h = if_intro Stays _ (λ _. h) (λ _. on e.tx h.tx_locked)
    where
      on :
          (o : Option Transaction)
          → LockedTx id o
          → Frozen id s (scale_on env a (idle_scale a e) o).0
      on none h' = absurd h'
      on (some t) h' = active_scale-Frozen a _ t h.store_kept h'

  authorize_override-Frozen :
      (o : Override) (e : Engine S) → Frozen id s e → Frozen id s (authorize_override env o e).0
  unfolding authorize_override
  authorize_override-Frozen o e h = on e.tx h.tx_locked
    where
      answer :
          (t : Transaction) (r : Option EngineError)
          → IsLocked id t
          → Frozen id s (answer_override env o e t r).0
      answer t none h' = record {
        tx_locked = override_step-IsLocked env id e o t h';
        store_kept = h.store_kept;
      }
      answer t (some x) h' = h

      on : (tx : Option Transaction) → LockedTx id tx → Frozen id s (override_on env o e tx).0
      on none h' = h
      on (some t) h' = answer t (refuse_override e o t) h'

  reset_completed-Frozen : (e : Engine S) → Frozen id s e → Frozen id s (reset_completed e).0
  unfolding reset_completed
  reset_completed-Frozen e h = on e.tx h.tx_locked
    where
      on : (tx : Option Transaction) → LockedTx id tx → Frozen id s (reset_on e tx).0
      on none h' = h
      on (some t) h' = if_intro Stays _ (λ done. absurd (ground arith)) (λ _. h)

  map-Frozen :
      (e : Engine S) (f : Transaction → Transaction) (fs : List Fault)
      → ((t : Transaction) → IsLocked id t → IsLocked id (f t))
      → Frozen id s e
      → Frozen id s (record e { faults = fs; tx = Option.map f e.tx })
  map-Frozen e f fs keep h = record {
    tx_locked = map-LockedTx id f e.tx keep h.tx_locked;
    store_kept = h.store_kept;
  }

  step-Frozen : (i : Input) (e : Engine S) → Frozen id s e → Frozen id s (step env i e).0
  unfolding step observe_rfid observe_lpr observe_fault clear_fault
  step-Frozen (position p) e h = observe_position-Frozen p e h
  step-Frozen (rfid o) e h = map-Frozen e _ e.faults (rfid_step-IsLocked env id e o) h
  step-Frozen (lpr o) e h = map-Frozen e _ e.faults (lpr_step-IsLocked env id e o) h
  step-Frozen (scale a) e h = observe_scale-Frozen a e h
  step-Frozen (fault f) e h = map-Frozen e _ _ (fault_step-IsLocked env id _ f) h
  step-Frozen (cleared d) e h = map-Frozen e _ _ (clear_step-IsLocked env id _ d) h
  step-Frozen (override o) e h = authorize_override-Frozen o e h
  step-Frozen reset e h = reset_completed-Frozen e h

-- A transaction that is locked out with its outputs off stays the active transaction, locked out with
-- its outputs off, and the ticket store does not change, whatever inputs follow.
pub lockout_is_final :
    {S : Type 0} (inputs : List (Env × Input)) (id : String) (s : S) (e : Engine S)
    → Frozen id s e
    → Frozen id s (run inputs e)
unfolding run
lockout_is_final [] id s e h = h
lockout_is_final ((env, i) ∷ rest) id s e h =
    lockout_is_final rest id s _ (step-Frozen env id s i e h)
