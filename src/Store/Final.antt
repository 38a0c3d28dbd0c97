-- ===== src/Store/Final.antt =====
-- The rows of weigh_cycles: what a completed row is, and that the single writes keep it.
pub mod Ops
use mathlib.Core.Path.{subst}
use plantops_edge_scale.Base.{
  ℕ, ◌≡◌, ◌≢◌, refl, sym, ap, ◌∙◌, ◌⊎◌, inl, inr, Bool, true, false, ◌||◌, ◌&&◌, not, String,
  str_eq, eq_iff, List, [], ◌∷◌, ◌++◌, map, Option, none, some, arith, if◌then◌else◌, if_intro, All,
  All-map, All-append, Bool-cases,
}
use plantops_edge_scale.Domain.Types.{Time, Ticket}
use plantops_edge_scale.Domain.Workflow.{CycleStatus}
use plantops_edge_scale.Domain.Cycle.{WeighPass}
use plantops_edge_scale.Domain.WeighCycle.{
  WeighCycle, CycleReason, is_called, is_queued, is_complete,
}
use plantops_edge_scale.Store.{
  Db, CycleRow, PassRow, StoreError, Try, ok, err, ◌>>=◌, answer, refuse_if, settle, any,
  same_cycle, insert_cycle, find_row, updated_row, update_cycle, found_or, status_of,
  already_complete, no_cycle_id, durable_not_called, insert_pass, get_cycle, durable_status,
  insert_ticket, insert_overrides, enqueue,
}
use plantops_edge_scale.Store.Cycles.{
  Call, or_time, open_steps, open_cycle, call_read, call_steps, call_cycle, mark_steps,
  mark_cycle_status, complete_tx, complete_steps, complete_cycle,
}
use plantops_edge_scale.Store.Sync.{
  commit_steps, commit, attempt_steps, mark_sync_attempt, ack_steps, ack_sync,
}
use plantops_edge_scale.Store.Rows.{
  Ensures, Ensures-bind, Ensures-answer, Ensures-refuse_if, settle_keeps, find_row-other,
  find_row_self, find_row-append, find_row-id, find_row-one, step_rules, Ensures-any,
}

-- Every row stands under the id of its cycle.
abbrev pub Consistent : List CycleRow → Type 0
Consistent = All (λ r. r.cycle.id ≡ r.id)

-- The row of `id` is complete and holds the cycle `v`.
pub record IsFinal (id : String) (v : WeighCycle) (rows : List CycleRow) : Type 0 where
  pub row : CycleRow
  pub found : find_row id rows ≡ some row
  pub done : row.status ≡ CycleStatus.complete
  pub kept : row.cycle ≡ v
  pub ids : Consistent rows

pub Consistent-find :
    (id : String) (r : CycleRow) (rows : List CycleRow)
    → Consistent rows
    → find_row id rows ≡ some r
    → r.cycle.id ≡ id
unfolding find_row if◌then◌else◌
Consistent-find id r [] c h = absurd (cc)
Consistent-find id r (x ∷ xs) (c, cs) h =
    let ih = Consistent-find id r xs cs in ground (arith, eq_iff x.id id)

pub Consistent-updated :
    (c : WeighCycle) (at : Time) (rows : List CycleRow)
    → Consistent rows
    → Consistent (map (updated_row c at) rows)
unfolding if◌then◌else◌
Consistent-updated c at rows =
    All-map _ _ (updated_row c at) rows (λ r h. ground (arith, eq_iff r.id c.id))

pub IsFinal-append :
    (id : String) (v : WeighCycle) (rows : List CycleRow) (r : CycleRow)
    → r.cycle.id ≡ r.id
    → IsFinal id v rows
    → IsFinal id v (rows ++ r ∷ [])
IsFinal-append id v rows r e h = record {
  row = h.row;
  found = find_row-append id h.row r rows h.found;
  done = h.done;
  kept = h.kept;
  ids = All-append _ rows _ h.ids (e, tt);
}

-- An update of another cycle.
pub IsFinal-updated :
    (id : String) (v c : WeighCycle) (at : Time) (rows : List CycleRow)
    → str_eq c.id id ≡ false
    → IsFinal id v rows
    → IsFinal id v (map (updated_row c at) rows)
IsFinal-updated id v c at rows d h = record {
  row = h.row;
  found = find_row-other id c at rows d ∙ h.found;
  done = h.done;
  kept = h.kept;
  ids = Consistent-updated c at rows h.ids;
}

pub not_done : (s : CycleStatus) → is_complete s ≡ false → s ≢ CycleStatus.complete
not_done s h e = let wrong = subst (λ q. is_complete q ≡ false) e h in absurd (cc)

pub queued_open : (s : CycleStatus) → not (is_queued s) ≡ false → is_complete s ≡ false
queued_open CycleStatus.queued h = refl
queued_open CycleStatus.called h = refl
queued_open CycleStatus.unset h = refl
queued_open CycleStatus.complete h = absurd (cc)
queued_open CycleStatus.orphaned_first_pass h = refl
queued_open CycleStatus.unpaired_return h = refl
queued_open CycleStatus.pair_time_invalid h = refl
queued_open CycleStatus.pair_weight_invalid h = refl
queued_open CycleStatus.wrong_truck h = refl

pub called_open : (s : CycleStatus) → not (is_called s) ≡ false → is_complete s ≡ false
called_open CycleStatus.called h = refl
called_open CycleStatus.queued h = refl
called_open CycleStatus.unset h = refl
called_open CycleStatus.complete h = absurd (cc)
called_open CycleStatus.orphaned_first_pass h = refl
called_open CycleStatus.unpaired_return h = refl
called_open CycleStatus.pair_time_invalid h = refl
called_open CycleStatus.pair_weight_invalid h = refl
called_open CycleStatus.wrong_truck h = refl

module _ (id : String) (v : WeighCycle) where
  abbrev pub F : Db → Type 0
  F db = IsFinal id v db.cycles

  pub bind-F :
      (r : Try Db) (f : Db → Try Db)
      → Ensures F r
      → ((db : Db) → F db → Ensures F (f db))
      → Ensures F (r >>= f)
  bind-F r f = Ensures-bind F F r f

  pub update_cycle-F :
      (t : Option String) (c : WeighCycle) (at : Time) (db : Db)
      → str_eq c.id id ≡ false
      → F db
      → Ensures F (update_cycle t c at db)
  unfolding update_cycle
  update_cycle-F t c at db d h = Ensures-answer F t _ (IsFinal-updated id v c at db.cycles d h)

  pub insert_pass-F :
      (t : Option String) (key : List ℕ) (p : WeighPass) (db : Db)
      → F db
      → Ensures F (insert_pass t key p db)
  unfolding insert_pass
  insert_pass-F t key p db h = search (step_rules)

  pub insert_cycle-F :
      (t : Option String) (now : Time) (key : List ℕ) (c : WeighCycle) (db : Db)
      → F db
      → Ensures F (insert_cycle t now key c db)
  unfolding insert_cycle
  insert_cycle-F t now key c db h = search (step_rules, IsFinal-append)

  pub insert_ticket-F :
      (t : Option String) (cycle_id : String) (ticket : Ticket) (db : Db)
      → F db
      → Ensures F (insert_ticket t cycle_id ticket db)
  unfolding insert_ticket
  insert_ticket-F t cycle_id ticket db h = search (step_rules)

  pub insert_overrides-F :
      (t : Option String) (ticket : Ticket) (db : Db)
      → F db
      → Ensures F (insert_overrides t ticket db)
  unfolding insert_overrides
  insert_overrides-F t ticket db h = search (step_rules)

  pub enqueue-F :
      (t : Option String) (ticket : Ticket) (now : Time) (db : Db)
      → F db
      → Ensures F (enqueue t ticket now db)
  unfolding enqueue
  enqueue-F t ticket now db h = search (step_rules)

  -- A cycle that is read: its row, under its own id.
  abbrev pub Read : Db → String → WeighCycle → Type 0
  Read db id' c = (r : CycleRow) × ((find_row id' db.cycles ≡ some r) × (r.cycle ≡ c))

  found-Read :
      (id' : String) (db : Db) (o : Option CycleRow)
      → find_row id' db.cycles ≡ o
      → Ensures (Read db id') (found_or id' o >>= λ r. ok r.cycle)
  found-Read id' db none e = tt
  found-Read id' db (some r) e = (r, (e, refl))

  pub get_cycle-Read :
      (t : Option String) (id' : String) (db : Db) → Ensures (Read db id') (get_cycle t id' db)
  unfolding get_cycle
  get_cycle-Read t id' db =
      Ensures-answer (Read db id') t _ (found-Read id' db (find_row id' db.cycles) refl)

  -- A row that is not complete is another one.
  pub row-other :
      (rows : List CycleRow) (r : CycleRow) (id' : String)
      → IsFinal id v rows
      → find_row id' rows ≡ some r
      → (r.status ≢ CycleStatus.complete) ⊎ (r.cycle.status ≢ v.status)
      → str_eq id' id ≡ false
  row-other rows r id' h found open_ =
      let same = find_row-one id id' r h.row rows in
      let done = h.done in
      let kept = h.kept in
      let at = h.found in
      elim (Bool-cases (str_eq id' id)) [
        | inl e ↦
            (let q = same e found at in
              elim open_ [
                | inl d ↦ absurd (d (ap (λ x. x.status) q ∙ done))
                | inr d ↦ absurd (d (ap (λ x. x.cycle.status) q ∙ ap (λ x. x.status) kept))
              ])
        | inr e ↦ e
      ]

  -- A cycle that is read and not complete is another one.
  pub Read-other :
      (db : Db) (id' : String) (c : WeighCycle)
      → v.status ≡ CycleStatus.complete
      → F db
      → Read db id' c
      → is_complete c.status ≡ false
      → str_eq c.id id ≡ false
  Read-other db id' c done h (r, (found, same)) open_ =
      let ids = Consistent-find id' r db.cycles h.ids found in
      let other =
        row-other db.cycles r id' h found
          (inr (λ e. not_done c.status open_ (sym (ap (λ q. q.status) same) ∙ e ∙ done))) in
      subst (λ q. str_eq q.id id ≡ false) same (subst (λ s. str_eq s id ≡ false) (sym ids) other)

  pub Read-queued :
      (db : Db) (id' : String) (c : WeighCycle)
      → v.status ≡ CycleStatus.complete
      → F db
      → Read db id' c
      → not (is_queued c.status) ≡ false
      → str_eq c.id id ≡ false
  Read-queued db id' c done h read e = Read-other db id' c done h read (queued_open c.status e)

  -- The row of a cycle to complete was called.
  abbrev pub Called : Db → String → CycleStatus → Type 0
  Called db id' s = (r : CycleRow) × ((find_row id' db.cycles ≡ some r) × (r.status ≡ s))

  status-Called :
      (db : Db) (id' : String) (o : Option CycleRow)
      → find_row id' db.cycles ≡ o
      → Ensures (Called db id') (status_of o)
  status-Called db id' none e = tt
  status-Called db id' (some r) e = (r, (e, refl))

  pub durable_status-Called :
      (t : Option String) (id' : String) (db : Db)
      → Ensures (Called db id') (durable_status t id' db)
  unfolding durable_status
  durable_status-Called t id' db =
      Ensures-answer (Called db id') t _ (status-Called db id' (find_row id' db.cycles) refl)

  pub Called-other :
      (db : Db) (id' : String) (s : CycleStatus)
      → F db
      → Called db id' s
      → not (is_called s) ≡ false
      → str_eq id' id ≡ false
  Called-other db id' s h (r, (found, is)) e =
      row-other db.cycles r id' h found (inl (λ d. not_done s (called_open s e) (sym is ∙ d)))
