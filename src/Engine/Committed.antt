-- ===== src/Engine/Committed.antt =====
-- A vehicle is released when the ticket store has answered its commit without an error, and the ticket
-- that it shows is in the store.
use mathlib.Core.Option
use mathlib.Core.Path.{subst}
use plantops_edge_scale.Base.{
  ◌≡◌, refl, sym, ap, true, String, List, [], ◌∷◌, Option, none, some, is_some, if_intro, arith,
}
use plantops_edge_scale.Domain.Types.{
  Time, AuditedScaleReading, Fault, Ticket, Override, PositionSnapshot,
}
use plantops_edge_scale.Domain.Workflow.{Transaction}
use plantops_edge_scale.Engine.Record.{
  Engine, Env, EngineError, begin, start_transaction, fresh_transaction, sync_fault_slice, lock,
  touch,
}
use plantops_edge_scale.Engine.Presence.{active_or_new, observe_position}
use plantops_edge_scale.Engine.Weighing.{
  pass_ticket, release, conclude, commit_with, commit_ticket, scale_on, weigh, idle_scale,
  active_scale, observe_scale,
}
use plantops_edge_scale.Engine.Handlers.{
  observe_rfid, observe_lpr, observe_fault, clear_fault, answer_override, override_on,
  refuse_override, authorize_override, reset_on, reset_completed, Input, position, rfid, lpr, scale,
  fault, cleared, override, reset, step, run,
}
use plantops_edge_scale.Engine.Invariant.{SafeTx, step-SafeTx}
use plantops_edge_scale.Engine.Receipt.{
  Receipt, receipt, HasReceipt, update_mode-HasReceipt, sync-HasReceipt, position_step-HasReceipt,
  rfid_step-HasReceipt, lpr_step-HasReceipt, fault_step-HasReceipt, clear_step-HasReceipt,
  override_step-HasReceipt, approach_weighing-HasReceipt,
}

abbrev pub Commit : Type 0 → Type 0
Commit S = Ticket → S → Option String × S

-- What the engine relies on of its ticket store, where `holds` says that a ticket is in it: a commit
-- without an error leaves its ticket in the store, and no commit takes another one out.
pub record IsDurable {S : Type 0} (holds : S → Ticket → Type 0) (commit : Commit S) : Type 0 where
  pub commits : (t : Ticket) (s : S) → (commit t s).0 ≡ none → holds (commit t s).1 t
  pub keeps : (t u : Ticket) (s : S) → holds s u → holds (commit t s).1 u

abbrev pub Durable : {S : Type 0} → (S → Ticket → Type 0) → Option (Commit S) → Type 0
Durable holds none = Unit
Durable holds (some commit) = IsDurable holds commit

-- The ticket that a transaction shows, with its weight, is in the store.
pub record IsTicketed {S : Type 0} (holds : S → Ticket → Type 0) (s : S) (x : Receipt)
    : Type 0 where
  pub kept : Ticket
  pub held : holds s kept
  pub same_id : x.ticket ≡ kept.id
  pub same_pass : x.of ≡ kept.transaction_id
  pub same_weight :
      x.weight
      ≡ some (record {
        weight_kg = kept.weight_kg;
        observed_at = kept.weight_observed_at;
        raw_ref = kept.weight_raw_ref;
      })

module _ {S : Type 0} (holds : S → Ticket → Type 0) where
  -- A receipt that has the time of a commit is that of a ticket in the store.
  abbrev pub Recorded : S → Receipt → Type 0
  Recorded s x = is_some x.at ≡ true → IsTicketed holds s x

  abbrev pub RecordedTx : S → Option Transaction → Type 0
  RecordedTx s none = Unit
  RecordedTx s (some t) = Recorded s (receipt t)

  map-RecordedTx :
      (s : S) (f : Transaction → Transaction) (o : Option Transaction)
      → ((t : Transaction) → HasReceipt (receipt t) (f t))
      → RecordedTx s o
      → RecordedTx s (Option.map f o)
  map-RecordedTx s f none same h = tt
  map-RecordedTx s f (some t) same h = subst (Recorded s) (sym (same t).has) h

begin-HasReceipt :
    (x : Receipt) (env : Env) (fs : List Fault) (o : Option Fault) (t : Transaction)
    → HasReceipt x t
    → HasReceipt x (begin env fs o t)
unfolding begin lock
begin-HasReceipt x env fs (some f) t h = record { has = h.has }
begin-HasReceipt x env fs none t h = record { has = (update_mode-HasReceipt x fs t h).has }

start_transaction-uncommitted :
    {S : Type 0} (env : Env) (at : Time) (e : Engine S)
    → HasReceipt (receipt (fresh_transaction env e.cfg.station_id at)) (start_transaction env at e)
unfolding start_transaction
start_transaction-uncommitted env at e =
    begin-HasReceipt _ env e.faults _ _ (sync-HasReceipt _ e.faults _ (record { has = refl }))

module _ {S : Type 0} (holds : S → Ticket → Type 0) (o : Option (Commit S))
    (durable : Durable holds o) (env : Env) where
  -- The engine has the ticket store `o`, and shows tickets that are in it.
  abbrev Held : Engine S → Type 0
  Held e = (e.tickets ≡ o) × RecordedTx holds e.store e.tx

  abbrev Good : Engine S × Option EngineError → Type 0
  Good r = Held r.0

  module _ (e : Engine S) (h : Held e) where
    mapped :
        (f : Transaction → Transaction)
        → ((t : Transaction) → HasReceipt (receipt t) (f t))
        → RecordedTx holds e.store (Option.map f e.tx)
    mapped f same = map-RecordedTx holds e.store f e.tx same h.1

  observe_position-Held :
      (p : PositionSnapshot) (e : Engine S) → Held e → Held (observe_position env p e)
  unfolding observe_position
  observe_position-Held p e h = (
    h.0,
    map-RecordedTx holds e.store _ _
        (λ t. position_step-HasReceipt _ env e p t (record { has = refl })) (present e.tx h.1),
  )
    where
      started :
          (x : Receipt)
          → x.at ≡ none
          → HasReceipt x (start_transaction env p.observed e)
          → RecordedTx holds e.store (some (start_transaction env p.observed e))
      started x new same c = let y = ap (λ (x : Receipt). x.at) same.has in absurd (ground arith)

      present :
          (tx : Option Transaction)
          → RecordedTx holds e.store tx
          → RecordedTx holds e.store (active_or_new env e p tx)
      present (some t) k = k
      present none k =
          if_intro (RecordedTx holds e.store) p.entry_present
            (λ _. started _ refl (start_transaction-uncommitted env p.observed e)) (λ _. tt)

  -- A call that ends with the transaction `u`, whose receipt is that of `t`.
  module _ (e : Engine S) (t : Transaction) (store : e.tickets ≡ o)
      (recorded : Recorded holds e.store (receipt t)) where
    moved : (u : Transaction) → HasReceipt (receipt t) u → RecordedTx holds e.store (some u)
    moved u same = subst (Recorded holds e.store) (sym same.has) recorded

    answered-Held :
        (a : AuditedScaleReading) (u : Transaction) (commit : Commit S) (r : Option String × S)
        → IsDurable holds commit
        → HasReceipt (receipt t) u
        → commit (pass_ticket env e.cfg.station_id u a) e.store ≡ r
        → Good (conclude env a e u r)
    unfolding conclude release pass_ticket lock
    answered-Held a u commit (none, s) d same x = (
      store,
      λ _. record {
        kept = pass_ticket env e.cfg.station_id u a;
        held =
            subst (λ (r : Option String × S). holds r.1 (pass_ticket env e.cfg.station_id u a)) x
              (d.commits _ _ (ap (λ (r : Option String × S). r.0) x));
        same_id = refl;
        same_pass = refl;
        same_weight = refl;
      },
    )
    answered-Held a u commit (some m, s) d same x = (
      store,
      λ c.
          let k = subst (Recorded holds e.store) (sym same.has) recorded c in
          record {
            kept = k.kept;
            held =
                subst (λ (r : Option String × S). holds r.1 k.kept) x
                  (d.keeps (pass_ticket env e.cfg.station_id u a) k.kept e.store k.held);
            same_id = k.same_id;
            same_pass = k.same_pass;
            same_weight = k.same_weight;
          },
    )

    commit_with-Held :
        (a : AuditedScaleReading) (u : Transaction) (c : Option (Commit S))
        → HasReceipt (receipt t) u
        → Durable holds c
        → Good (commit_with env a e u c)
    unfolding commit_with
    commit_with-Held a u none same d = (store, unfold lock in moved u same)
    commit_with-Held a u (some commit) same d = answered-Held a u commit _ d same refl

  weigh-Held :
      (a : AuditedScaleReading) (e : Engine S) (t u : Transaction)
      → e.tickets ≡ o
      → Recorded holds e.store (receipt t)
      → HasReceipt (receipt t) u
      → Good (weigh env a e u)
  unfolding weigh commit_ticket
  weigh-Held a e t u store recorded same =
      if_intro Good _
        (λ _. (
          store,
          if_intro (λ (u : Transaction). RecordedTx holds e.store (some u)) _
              (λ _. moved e t store recorded u same) (λ _. moved e t store recorded u same),
        ))
        λ _.
          if_intro Good _ (λ _. (store, moved e t store recorded u same))
            (λ _.
              commit_with-Held (record e { stable_base = some a }) t store recorded a _ e.tickets
                (record { has = same.has }) (subst (Durable holds) (sym store) durable))

  active_scale-Held :
      (a : AuditedScaleReading) (e : Engine S) (t : Transaction)
      → e.tickets ≡ o
      → Recorded holds e.store (receipt t)
      → Good (active_scale env a e t)
  unfolding active_scale
  active_scale-Held a e t store recorded =
      let synced = sync-HasReceipt (receipt t) e.faults seen (record { has = refl }) in
      let next = approach_weighing-HasReceipt (receipt t) env e _ synced in
      let keep = moved e t store recorded in
      if_intro Good _ (λ _. (store, unfold lock in keep (sync_fault_slice e.faults seen) synced))
        λ _.
          if_intro Good _ (λ _. (store, recorded))
            λ _.
              if_intro Good _ (λ _. (store, keep _ synced))
                λ _.
                  if_intro Good _ (λ _. weigh-Held a e t _ store recorded next)
                    (λ _. (store, keep _ next))
    where
      seen : Transaction
      seen = touch env a.reading.observed (record t { latest_scale = some a })

  observe_scale-Held :
      (a : AuditedScaleReading) (e : Engine S) → Held e → Good (observe_scale env a e)
  unfolding observe_scale idle_scale scale_on
  observe_scale-Held a e h = if_intro Good _ (λ _. h) (λ _. on e.tx h.1)
    where
      on :
          (tx : Option Transaction)
          → RecordedTx holds e.store tx
          → Good (scale_on env a (idle_scale a e) tx)
      on none k = h
      on (some t) k = active_scale-Held a _ t h.0 k

  authorize_override-Held :
      (x : Override) (e : Engine S) → Held e → Good (authorize_override env x e)
  unfolding authorize_override override_on answer_override
  authorize_override-Held x e h = on e.tx h.1
    where
      answer :
          (t : Transaction) (r : Option EngineError)
          → Recorded holds e.store (receipt t)
          → Good (answer_override env x e t r)
      answer t none k =
          (h.0, moved e t h.0 k _ (override_step-HasReceipt _ env e x t (record { has = refl })))
      answer t (some m) k = h

      on : (tx : Option Transaction) → RecordedTx holds e.store tx → Good (override_on env x e tx)
      on none k = h
      on (some t) k = answer t (refuse_override e x t) k

  reset_completed-Held : (e : Engine S) → Held e → Good (reset_completed e)
  unfolding reset_completed reset_on
  reset_completed-Held e h = on e.tx
    where
      on : (tx : Option Transaction) → Good (reset_on e tx)
      on none = h
      on (some t) = if_intro Good _ (λ _. (h.0, tt)) (λ _. h)

  step-Held : (i : Input) (e : Engine S) → Held e → Held (step env i e).0
  unfolding step observe_rfid observe_lpr observe_fault clear_fault
  step-Held (rfid x) e h =
      (h.0, mapped e h _ (λ t. rfid_step-HasReceipt _ env e x t (record { has = refl })))
  step-Held (lpr x) e h =
      (h.0, mapped e h _ (λ t. lpr_step-HasReceipt _ env e x t (record { has = refl })))
  step-Held (fault f) e h =
      (h.0, mapped e h _ (λ t. fault_step-HasReceipt _ env _ f t (record { has = refl })))
  step-Held (cleared d) e h =
      (h.0, mapped e h _ (λ t. clear_step-HasReceipt _ env _ d t (record { has = refl })))
  step-Held (position p) e h = observe_position-Held p e h
  step-Held (scale a) e h = observe_scale-Held a e h
  step-Held (override x) e h = authorize_override-Held x e h
  step-Held reset e h = reset_completed-Held e h

-- The engine has the ticket store `o`. Its active transaction, if there is one, is safe, and once it has
-- the time of a commit, the ticket that it shows is in the store, with its weight.
pub record Committed {S : Type 0} (holds : S → Ticket → Type 0) (o : Option (Commit S))
    (e : Engine S) : Type 0 where
  pub has_store : e.tickets ≡ o
  pub safe : SafeTx e.tx
  pub recorded : RecordedTx holds e.store e.tx

-- With a ticket store that keeps the tickets it has accepted, and with an engine whose active
-- transaction, if any, is safe and shows a ticket of that store once it is committed, every sequence of
-- inputs leads to such an engine: outputs are off in lockout and when complete; exit green, an open
-- exit barrier and the released states need a weight with its journal record and the time of a commit;
-- and with that time the store has the ticket of the transaction, with that weight.
pub run-Committed :
    {S : Type 0} (holds : S → Ticket → Type 0) (o : Option (Commit S))
    → Durable holds o
    → (inputs : List (Env × Input)) (e : Engine S) → Committed holds o e
    → Committed holds o (run inputs e)
unfolding run
run-Committed holds o durable [] e h = h
run-Committed holds o durable ((env, i) ∷ rest) e h =
    let next = step-Held holds o durable env i e (h.has_store, h.recorded) in
    run-Committed holds o durable rest _
      (record { has_store = next.0; safe = step-SafeTx env i e h.safe; recorded = next.1 })
