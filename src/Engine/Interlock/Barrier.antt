-- ===== src/Engine/Interlock/Barrier.antt =====
-- The entry barrier over a whole call of the engine.
use mathlib.Core.Option
use plantops_edge_scale.Base.{
  ◌≡◌, refl, Bool, false, inl, String, Option, none, some, ℤ, arith, if◌then◌else◌, if_intro, sub64,
  half64, IsInt64, pos, negsuc, pos_part, neg_part, ◌+◌, ◌-◌, ◌≢◌,
}
use plantops_edge_scale.Domain.Types.{
  AuditedScaleReading, PositionSnapshot, Fault, Override, Ticket, Time,
}
use plantops_edge_scale.Domain.Workflow.{Transaction, BlockReason}
use plantops_edge_scale.Engine.Record.{
  Engine, Env, EngineError, lock, sync_fault_slice, update_mode, begin, start_transaction,
  fresh_transaction, find_lockout_fault, put_fault, delete_fault, touch,
}
use plantops_edge_scale.Engine.Identity.{abs64}
use plantops_edge_scale.Engine.Presence.{position_step, active_or_new, observe_position}
use plantops_edge_scale.Engine.Weighing.{
  release, conclude, commit_with, commit_ticket, weigh, approach_weighing, idle_scale, active_scale,
  scale_on, observe_scale,
}
use plantops_edge_scale.Engine.Handlers.{
  observe_rfid, observe_lpr, observe_fault, clear_fault, answer_override, override_on,
  authorize_override, reset_on, reset_completed, Input, position, rfid, lpr, scale, fault, cleared,
  override, reset, step,
}
use plantops_edge_scale.Engine.Interlock.{Guarded}
use plantops_edge_scale.Engine.Interlock.Steps.{
  Q, D, admit-G, try_ready_to_weigh-G, position_step-G, rfid_step-G, lpr_step-G, fault_step-G,
  clear_step-G, override_step-G,
}

abbrev pub is_open : Option Transaction → Bool
is_open none = false
is_open (some t) = t.outputs.entry_barrier_open

-- The active transaction, if there is one, has its barrier guarded.
abbrev pub GuardedTx : Bool → ℤ → Option AuditedScaleReading → Option Transaction → Type 0
GuardedTx before limit last none = Unit
GuardedTx before limit last (some t) = Guarded before limit last t

map-GuardedTx :
    {S : Type 0} (env : Env) (e : Engine S) (f : Transaction → Transaction) (o : Option Transaction)
    → ((b : Bool) (t : Transaction) → Q env e b t → D env e b (f t))
    → GuardedTx (is_open o) e.cfg.empty_scale_max_kg e.last_scale (Option.map f o)
map-GuardedTx env e f none keep = tt
map-GuardedTx env e f (some t) keep = keep _ t (λ h. h)

-- What a call that may fail leaves.
abbrev Leaves : {S : Type 0} → Bool → Engine S × Option EngineError → Type 0
Leaves b r = GuardedTx b r.0.cfg.empty_scale_max_kg r.0.last_scale r.0.tx

same-GuardedTx :
    (limit : ℤ) (last : Option AuditedScaleReading) (o : Option Transaction)
    → GuardedTx (is_open o) limit last o
same-GuardedTx limit last none = tt
same-GuardedTx limit last (some t) = record { guard = λ h. inl h }

start_transaction-quiet :
    {S : Type 0} (env : Env) (at : Time) (e : Engine S)
    → (start_transaction env at e).outputs.entry_barrier_open ≡ false
unfolding start_transaction sync_fault_slice
start_transaction-quiet env at e = begun (find_lockout_fault e.faults)
  where
    begun :
        (o : Option Fault)
        → (begin env e.faults o (
            sync_fault_slice e.faults
              (fresh_transaction env e.cfg.station_id at))).outputs.entry_barrier_open
          ≡ false
    begun none = unfold begin update_mode if◌then◌else◌ in refl
    begun (some f) = unfold begin lock in refl

module _ {S : Type 0} (env : Env) where
  observe_position-GuardedTx :
      (p : PositionSnapshot) (e : Engine S)
      → GuardedTx (is_open e.tx) e.cfg.empty_scale_max_kg e.last_scale (observe_position env p e).tx
  unfolding observe_position active_or_new
  observe_position-GuardedTx p e = on e.tx
    where
      on :
          (o : Option Transaction)
          → GuardedTx
              (is_open o)
              e.cfg.empty_scale_max_kg
              e.last_scale
              (Option.map (position_step env e p) (active_or_new env e p o))
      on (some t) = position_step-G env e _ p t (λ h. h)
      on none =
          if_intro
            (λ o.
              GuardedTx false e.cfg.empty_scale_max_kg e.last_scale
                (Option.map (position_step env e p) o))
            _
            (λ _.
              position_step-G env e false p _
                (λ h. ground (arith, start_transaction-quiet env p.observed e)))
            (λ _. tt)

  conclude-Leaves :
      (a : AuditedScaleReading) (e : Engine S) (b : Bool) (t : Transaction) (r : Option String × S)
      → Leaves b (conclude env a e t r)
  unfolding conclude release lock
  conclude-Leaves a e b t (none, s) = ground arith
  conclude-Leaves a e b t (some m, s) = ground arith

  commit_with-Leaves :
      (a : AuditedScaleReading) (e : Engine S) (b : Bool) (t : Transaction)
      (o : Option (Ticket → S → Option String × S))
      → Leaves b (commit_with env a e t o)
  unfolding commit_with lock
  commit_with-Leaves a e b t none = ground arith
  commit_with-Leaves a e b t (some commit) = conclude-Leaves a e b t _

  weigh-Leaves :
      (a : AuditedScaleReading) (e : Engine S) (b : Bool) (t : Transaction)
      → D env e b t
      → Leaves b (weigh env a e t)
  unfolding weigh commit_ticket
  weigh-Leaves a e b t d =
      if_intro (Leaves b) _ (λ _. if_intro (D env e b) _ (λ _. ground arith) (λ _. ground arith))
        λ _.
          if_intro (Leaves b) _ (λ _. ground arith)
            λ _. commit_with-Leaves a (record e { stable_base = some a }) b _ e.tickets

  approach_weighing-G :
      (e : Engine S) (b : Bool) (t : Transaction)
      → Q env e b t
      → D env e b (approach_weighing env e t)
  unfolding approach_weighing
  approach_weighing-G e b t q =
      let ready = try_ready_to_weigh-G env e b _ (admit-G env e b t q) in
      if_intro (D env e b) _ (λ _. ground arith) (λ _. ready)

  active_scale-Leaves :
      (a : AuditedScaleReading) (e : Engine S) (t : Transaction)
      → Leaves t.outputs.entry_barrier_open (active_scale env a e t)
  unfolding active_scale sync_fault_slice
  active_scale-Leaves a e t =
      let next =
        approach_weighing-G e t.outputs.entry_barrier_open
          (sync_fault_slice e.faults
            (touch env a.reading.observed (record t { latest_scale = some a })))
          (λ h. h) in
      let b = t.outputs.entry_barrier_open in
      if_intro (Leaves b) _ (λ _. locked _ _)
        λ _.
          if_intro (Leaves b) _ (λ _. record { guard = λ h. inl h })
            λ _.
              if_intro (Leaves b) _ (λ _. record { guard = λ h. inl h })
                λ _. if_intro (Leaves b) _ (λ _. weigh-Leaves a e b _ next) (λ _. next)
    where
      locked :
          (r : BlockReason) (t' : Transaction)
          → D env e t.outputs.entry_barrier_open (lock env r t')
      locked r t' = unfold lock in record { guard = λ h. absurd (ground arith) }

  observe_scale-Leaves :
      (a : AuditedScaleReading) (e : Engine S) → Leaves (is_open e.tx) (observe_scale env a e)
  unfolding observe_scale scale_on idle_scale
  observe_scale-Leaves a e =
      if_intro (Leaves (is_open e.tx)) _ (λ _. same-GuardedTx _ _ e.tx) (λ _. on e.tx)
    where
      on :
          (o : Option Transaction)
          → Leaves (is_open o) (scale_on env a (record (idle_scale a e) { tx = o }) o)
      on none = tt
      on (some t) = active_scale-Leaves a _ t

  authorize_override-Leaves :
      (o : Override) (e : Engine S) → Leaves (is_open e.tx) (authorize_override env o e)
  unfolding authorize_override override_on answer_override
  authorize_override-Leaves o e = on e.tx refl
    where
      answer :
          (t : Transaction) (r : Option EngineError)
          → e.tx ≡ some t
          → Leaves (is_open e.tx) (answer_override env o e t r)
      answer t none x = override_step-G env e (is_open e.tx) o t (λ h. rw x h)
      answer t (some r) x = same-GuardedTx _ _ e.tx

      on : (tx : Option Transaction) → e.tx ≡ tx → Leaves (is_open e.tx) (override_on env o e tx)
      on none x = same-GuardedTx _ _ e.tx
      on (some t) x = answer t _ x

  reset_completed-Leaves : (e : Engine S) → Leaves (is_open e.tx) (reset_completed e)
  unfolding reset_completed reset_on
  reset_completed-Leaves e = on e.tx
    where
      on : (tx : Option Transaction) → Leaves (is_open e.tx) (reset_on e tx)
      on none = same-GuardedTx _ _ e.tx
      on (some t) = if_intro (Leaves (is_open e.tx)) _ (λ _. tt) (λ _. same-GuardedTx _ _ e.tx)

  -- After any call of the engine an open entry barrier was open before the call, or the transaction's
  -- vehicle is identified, its safety input is clear, its deck sensors are clear, and the engine's
  -- latest reading is healthy, stable and within the limit for an empty scale by `abs64`.
  pub entry_barrier_guarded :
      (i : Input) (e : Engine S)
      → GuardedTx
          (is_open e.tx)
          (step env i e).0.cfg.empty_scale_max_kg
          (step env i e).0.last_scale
          (step env i e).0.tx
  unfolding step observe_rfid observe_lpr observe_fault clear_fault observe_position
  entry_barrier_guarded (position p) e = observe_position-GuardedTx p e
  entry_barrier_guarded (rfid o) e = map-GuardedTx env e _ e.tx (λ b. rfid_step-G env e b o)
  entry_barrier_guarded (lpr o) e = map-GuardedTx env e _ e.tx (λ b. lpr_step-G env e b o)
  entry_barrier_guarded (scale a) e = observe_scale-Leaves a e
  entry_barrier_guarded (fault f) e =
      let e' = record e { faults = put_fault f e.faults } in
      map-GuardedTx env e' _ e.tx (λ b. fault_step-G env e' b f)
  entry_barrier_guarded (cleared d) e =
      let e' = record e { faults = delete_fault d e.faults } in
      map-GuardedTx env e' _ e.tx (λ b. clear_step-G env e' b d)
  entry_barrier_guarded (override o) e = authorize_override-Leaves o e
  entry_barrier_guarded reset e = reset_completed-Leaves e

-- On every int64 but the least, `abs64` is the magnitude.
pub abs64_exact :
    (v : ℤ) → IsInt64 v → v ≢ negsuc (half64 - 1) → abs64 v ≡ pos (pos_part v + neg_part v)
unfolding abs64 sub64 if◌then◌else◌
abs64_exact v h n = ground arith
