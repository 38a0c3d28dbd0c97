-- ===== src/Store/Final/Ops.antt =====
-- A completed cycle is final: no operation of the store changes it.
use plantops_edge_scale.Base.{ℕ, ◌≡◌, refl, not, String, str_eq, List, [], ◌∷◌, some}
use plantops_edge_scale.Domain.Types.{Time, Ticket}
use plantops_edge_scale.Domain.Workflow.{CycleStatus}
use plantops_edge_scale.Domain.Cycle.{WeighPass}
use plantops_edge_scale.Domain.WeighCycle.{WeighCycle, CycleReason, is_called, is_complete}
use plantops_edge_scale.Store.{
  Db, CycleRow, settle, find_row, already_complete, no_cycle_id, durable_not_called, get_cycle,
  durable_status,
}
use plantops_edge_scale.Store.Cycles.{
  Call, or_time, open_steps, call_read, call_steps, mark_steps, complete_tx, complete_steps,
}
use plantops_edge_scale.Store.Sync.{commit_steps, attempt_steps, ack_steps}
use plantops_edge_scale.Store.Rows.{
  Ensures, Ensures-bind, Ensures-answer, Ensures-refuse_if, settle_keeps, step_rules, Ensures-any,
}
use plantops_edge_scale.Store.Ops.{Op, steps, run_ops}
use plantops_edge_scale.Store.Final.{
  Consistent, F, Read, Called, bind-F, update_cycle-F, insert_pass-F, insert_cycle-F,
  insert_ticket-F, insert_overrides-F, enqueue-F, Read-queued, Read-other, get_cycle-Read,
  Called-other, durable_status-Called,
}

module _ (id : String) (v : WeighCycle) where
  abbrev Keeps : Db → Type 0
  Keeps = F id v

  open_steps-F :
      (env : Call) (cycle : WeighCycle) (db : Db)
      → Keeps db
      → Ensures Keeps (open_steps env cycle db)
  unfolding open_steps
  open_steps-F env cycle db h =
      search (step_rules, bind-F, Ensures-any, insert_pass-F, insert_cycle-F) depth 12

  call_read-F :
      (env : Call) (at : Time) (id' : String) (db : Db) (c : WeighCycle)
      → v.status ≡ CycleStatus.complete
      → Keeps db
      → Read id v db id' c
      → Ensures Keeps (call_read env at c db)
  unfolding call_read
  call_read-F env at id' db c done h read =
      let other = Read-queued id v db id' c done h read in
      search (step_rules, bind-F, update_cycle-F, other) depth 10

  call_steps-F :
      (env : Call) (id' : String) (at : Time) (db : Db)
      → v.status ≡ CycleStatus.complete
      → Keeps db
      → Ensures Keeps (call_steps env id' at db)
  unfolding call_steps
  call_steps-F env id' at db done h = Ensures-refuse_if Keeps (str_eq id' "") no_cycle_id _ (λ _.
      Ensures-answer Keeps (env.trouble 0) _ (
        Ensures-bind (Read id v db id') Keeps (get_cycle (env.trouble 1) id' db) _
          (get_cycle-Read id v (env.trouble 1) id' db)
          (λ c read. call_read-F env (or_time at env.now) id' db c done h read)))

  mark_steps-F :
      (env : Call) (id' : String) (status : CycleStatus) (reason : CycleReason) (at : Time)
      (db : Db)
      → v.status ≡ CycleStatus.complete
      → Keeps db
      → Ensures Keeps (mark_steps env id' status reason at db)
  unfolding mark_steps
  mark_steps-F env id' status reason at db done h = Ensures-answer Keeps (env.trouble 0) _ (
      Ensures-bind (Read id v db id') Keeps (get_cycle (env.trouble 1) id' db) _
        (get_cycle-Read id v (env.trouble 1) id' db)
        (λ c read. Ensures-refuse_if Keeps (is_complete c.status) already_complete _ (λ open_.
          let other = Read-other id v db id' c done h read open_ in
          search (step_rules, bind-F, update_cycle-F))))

  complete_tx-F :
      (env : Call) (c : WeighCycle) (second : WeighPass) (ticket : Ticket) (now : Time) (db : Db)
      → Keeps db
      → Ensures Keeps (complete_tx env c second ticket now db)
  unfolding complete_tx
  complete_tx-F env c second ticket now db h = Ensures-answer Keeps (env.trouble 0) _ (
      Ensures-bind (Called id v db c.id) Keeps (durable_status (env.trouble 1) c.id db) _
        (durable_status-Called id v (env.trouble 1) c.id db)
        (λ s called. Ensures-refuse_if Keeps (not (is_called s)) (durable_not_called s) _ (λ e.
          let other = Called-other id v db c.id s h called e in
          search
            (
              step_rules, bind-F, insert_pass-F, update_cycle-F, insert_ticket-F,
              insert_overrides-F, enqueue-F,
            )
            depth 16)))

  complete_steps-F :
      (env : Call) (cycle : WeighCycle) (ticket : Ticket) (db : Db)
      → Keeps db
      → Ensures Keeps (complete_steps env cycle ticket db)
  unfolding complete_steps
  complete_steps-F env cycle ticket db h = search (step_rules, Ensures-any, complete_tx-F) depth 10

  commit_steps-F :
      (env : Call) (ticket : Ticket) (db : Db)
      → Keeps db
      → Ensures Keeps (commit_steps env ticket db)
  unfolding commit_steps
  commit_steps-F env ticket db h = search (step_rules, bind-F, insert_ticket-F, enqueue-F) depth 16

  attempt_steps-F :
      (env : Call) (n : ℕ) (error : String) (next : Time) (db : Db)
      → Keeps db
      → Ensures Keeps (attempt_steps env n error next db)
  unfolding attempt_steps
  attempt_steps-F env n error next db h = search (step_rules)

  ack_steps-F : (env : Call) (n : ℕ) (db : Db) → Keeps db → Ensures Keeps (ack_steps env n db)
  unfolding ack_steps
  ack_steps-F env n db h = search (step_rules, Ensures-any) depth 16

  steps-F :
      (o : Op) (db : Db) → v.status ≡ CycleStatus.complete → Keeps db → Ensures Keeps (steps o db)
  steps-F (Op.open_op env c) db done h = open_steps-F env c db h
  steps-F (Op.call_op env n at) db done h = call_steps-F env n at db done h
  steps-F (Op.mark_op env n s reason at) db done h = mark_steps-F env n s reason at db done h
  steps-F (Op.complete_op env c t) db done h = complete_steps-F env c t db h
  steps-F (Op.commit_op env t) db done h = commit_steps-F env t db h
  steps-F (Op.attempt_op env n error next) db done h = attempt_steps-F env n error next db h
  steps-F (Op.ack_op env n) db done h = ack_steps-F env n db h

  run_ops-F :
      (os : List Op) (db : Db) → v.status ≡ CycleStatus.complete → Keeps db → Keeps (run_ops os db)
  unfolding run_ops
  run_ops-F [] db done h = h
  run_ops-F (o ∷ os) db done h =
      run_ops-F os (settle db (steps o db)).0 done
        (settle_keeps Keeps db (steps o db) h (steps-F o db done h))

-- A weighing cycle that the store holds as complete, under its own id in a table whose rows all stand
-- under the ids of their cycles, is unchanged after any sequence of operations of the store, whatever
-- fails in them: its row stays complete and holds the same cycle.
pub run_ops-keeps_complete :
    (id : String) (r : CycleRow) (os : List Op) (db : Db)
    → Consistent db.cycles
    → find_row id db.cycles ≡ some r
    → r.status ≡ CycleStatus.complete
    → r.cycle.status ≡ CycleStatus.complete
    → (q : CycleRow) × ((find_row id (run_ops os db).cycles ≡ some q)
        × ((q.status ≡ CycleStatus.complete) × (q.cycle ≡ r.cycle)))
run_ops-keeps_complete id r os db ids found done whole =
    let h =
      run_ops-F id r.cycle os db whole
        (record { row = r; found = found; done = done; kept = refl; ids = ids }) in
    (h.row, (h.found, (h.done, h.kept)))
