-- ===== src/Engine/Tickets.antt =====
-- When the engine commits a ticket, and what it refuses.
use plantops_edge_scale.Base.{
  ℕ, suc, ◌≡◌, true, false, ◌⊎◌, String, Option, some, ℤ, pos, ltb_ℤ, sub64,
}
use plantops_edge_scale.Domain.Types.{AuditedScaleReading, ScaleReading, Ticket}
use plantops_edge_scale.Domain.Workflow.{weighing, Transaction}
use plantops_edge_scale.Domain.State
use plantops_edge_scale.Domain.Policy.{is_unhealthy}
use plantops_edge_scale.Engine.Record.{Engine, Env, EngineError, touch, sync_fault_slice}
use plantops_edge_scale.Engine.Identity.{abs64}
use plantops_edge_scale.Engine.Weighing.{idle_scale, is_unaudited, pass_ticket, approach_weighing}

-- The transaction as ObserveScale finds it once it has the reading: this is before weigh looks at it.
abbrev pub approached :
    {S : Type 0} → Env → AuditedScaleReading → Engine S → Transaction → Transaction
approached env a e t =
    let seen = touch env a.reading.observed (record t { latest_scale = some a }) in
    approach_weighing env (idle_scale a e) (sync_fault_slice (idle_scale a e).faults seen)

-- The weight was seen `n` times in a row, with the reading `base` as the latest: one more reading is
-- as many as `wanted` when it lies within the tolerance of `base`, or when one is enough.
abbrev pub Confirmed : ℤ → ℤ → Option AuditedScaleReading → ScaleReading → ℕ → Type 0
Confirmed wanted tolerance base r n =
    (ltb_ℤ (pos 1) wanted ≡ false)
    ⊎ ((b : AuditedScaleReading) × (base ≡ some b)
        × (ltb_ℤ tolerance (abs64 (sub64 b.reading.weight_kg r.weight_kg)) ≡ false)
        × (ltb_ℤ (pos (suc n)) wanted ≡ false))

-- The store after the call is that of a commit of the ticket of the active transaction with the
-- reading `a`: the reading has its journal record, is healthy, stable and heavy enough, the
-- transaction has reached the WEIGHING state, and the weight is confirmed.
pub record Earned {S : Type 0} (env : Env) (a : AuditedScaleReading) (e : Engine S) (after : S)
    : Type 0 where
  pub commit : Ticket → S → Option String × S
  pub before : Transaction
  pub has_store : e.tickets ≡ some commit
  pub active : e.tx ≡ some before
  pub committed :
      after ≡ (commit (pass_ticket env e.cfg.station_id (approached env a e before) a) e.store).1
  pub audited : is_unaudited a ≡ false
  pub healthy : is_unhealthy a.reading ≡ false
  pub stable : a.reading.stable ≡ true
  pub heavy : ltb_ℤ a.reading.weight_kg e.cfg.min_stable_weight_kg ≡ false
  pub in_weighing : (approached env a e before).state ≡ weighing
  pub confirmed :
      Confirmed e.cfg.stable_confirmations e.cfg.stable_tolerance_kg e.stable_base a.reading
        before.stable_confirmations

-- The way to the WEIGHING state leaves the count of stable readings alone.
module _ {S : Type 0} (env : Env) (e : Engine S) (n : ℕ) where
  abbrev Counts : Transaction → Type 0
  Counts t = t.stable_confirmations ≡ n

module _ {S : Type 0} (env : Env) where
  -- The store is as it was, or the ticket is earned.
  abbrev Outcome : AuditedScaleReading → Engine S → Engine S × Option EngineError → Type 0
  Outcome a e r = (r.0.store ≡ e.store) ⊎ Earned env a e r.0.store

  module _ (a : AuditedScaleReading) (e : Engine S) (t : Transaction)
      (audited : is_unaudited a ≡ false) (has_tx : e.tx ≡ some t) where
    abbrev met : Engine S
    met = idle_scale a e
