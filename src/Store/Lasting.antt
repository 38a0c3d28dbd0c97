-- ===== src/Store/Lasting.antt =====
-- A stored ticket is never lost and never changed.
use plantops_edge_scale.Base.{
  ℕ, ◌≡◌, not, String, str_eq, List, [], ◌∷◌, map, Option, if_intro, Has, Has-map, Has-append_left,
}
use plantops_edge_scale.Domain.Types.{Time, Ticket}
use plantops_edge_scale.Domain.Workflow.{CycleStatus}
use plantops_edge_scale.Domain.Cycle.{WeighPass}
use plantops_edge_scale.Domain.WeighCycle.{WeighCycle, CycleReason, is_called}
use plantops_edge_scale.Store.{
  Db, TicketRow, Try, ◌>>=◌, settle, insert_cycle, update_cycle, durable_status, durable_not_called,
  insert_pass, insert_ticket, insert_overrides, enqueue,
}
use plantops_edge_scale.Store.Cycles.{
  Call, open_steps, call_steps, call_read, mark_steps, complete_tx, complete_steps,
}
use plantops_edge_scale.Store.Sync.{commit_steps, attempt_steps, ack_steps, synced}
use plantops_edge_scale.Store.Ops.{Op, steps, run_ops}
use plantops_edge_scale.Store.Rows.{
  Ensures, Ensures-bind, Ensures-answer, Ensures-any, Ensures-refuse_if, settle_keeps, step_rules,
}

abbrev IsRow : Ticket → String → TicketRow → Type 0
IsRow t id r = (r.ticket ≡ t) × (r.cycle_id ≡ id)

-- The ticket is in the table, with its cycle's id.
abbrev pub IsStored : Ticket → String → Db → Type 0
IsStored t id db = Has (IsRow t id) db.tickets

module _ (t : Ticket) (id : String) where
  abbrev L : Db → Type 0
  L db = IsStored t id db

  bind-L :
      (r : Try Db) (f : Db → Try Db)
      → Ensures L r
      → ((db : Db) → L db → Ensures L (f db))
      → Ensures L (r >>= f)
  bind-L r f = Ensures-bind L L r f

  insert_pass-L :
      (u : Option String) (key : List ℕ) (p : WeighPass) (db : Db)
      → L db
      → Ensures L (insert_pass u key p db)
  unfolding insert_pass
  insert_pass-L u key p db h = search (step_rules)

  insert_cycle-L :
      (u : Option String) (now : Time) (key : List ℕ) (c : WeighCycle) (db : Db)
      → L db
      → Ensures L (insert_cycle u now key c db)
  unfolding insert_cycle
  insert_cycle-L u now key c db h = search (step_rules)

  update_cycle-L :
      (u : Option String) (c : WeighCycle) (at : Time) (db : Db)
      → L db
      → Ensures L (update_cycle u c at db)
  unfolding update_cycle
  update_cycle-L u c at db h = search (step_rules)

  insert_ticket-L :
      (u : Option String) (cycle_id : String) (new : Ticket) (db : Db)
      → L db
      → Ensures L (insert_ticket u cycle_id new db)
  unfolding insert_ticket
  insert_ticket-L u cycle_id new db h =
      let more = λ (ys : List TicketRow). Has-append_left (IsRow t id) db.tickets ys h in
      search (step_rules, more)

  insert_overrides-L :
      (u : Option String) (new : Ticket) (db : Db) → L db → Ensures L (insert_overrides u new db)
  unfolding insert_overrides
  insert_overrides-L u new db h = search (step_rules)

  enqueue-L :
      (u : Option String) (new : Ticket) (now : Time) (db : Db)
      → L db
      → Ensures L (enqueue u new now db)
  unfolding enqueue
  enqueue-L u new now db h = search (step_rules)

  open_steps-L :
      (env : Call) (cycle : WeighCycle) (db : Db) → L db → Ensures L (open_steps env cycle db)
  unfolding open_steps
  open_steps-L env cycle db h =
      search (step_rules, bind-L, Ensures-any, insert_pass-L, insert_cycle-L) depth 12

  call_read-L :
      (env : Call) (at : Time) (db : Db) (c : WeighCycle) → L db → Ensures L (call_read env at c db)
  unfolding call_read
  call_read-L env at db c h = search (step_rules, bind-L) depth 10

  call_steps-L :
      (env : Call) (n : String) (at : Time) (db : Db) → L db → Ensures L (call_steps env n at db)
  unfolding call_steps
  call_steps-L env n at db h = search (step_rules, Ensures-any, call_read-L) depth 10

  mark_steps-L :
      (env : Call) (n : String) (status : CycleStatus) (reason : CycleReason) (at : Time) (db : Db)
      → L db
      → Ensures L (mark_steps env n status reason at db)
  unfolding mark_steps
  mark_steps-L env n status reason at db h = search (step_rules, Ensures-any, bind-L) depth 10

  complete_tx-L :
      (env : Call) (c : WeighCycle) (second : WeighPass) (new : Ticket) (now : Time) (db : Db)
      → L db
      → Ensures L (complete_tx env c second new now db)
  unfolding complete_tx
  complete_tx-L env c second new now db h = Ensures-answer L (env.trouble 0) _ (
      Ensures-any L (durable_status (env.trouble 1) c.id db) _ (λ s.
        Ensures-refuse_if L (not (is_called s)) (durable_not_called s) _ (λ _.
          search
            (
              step_rules, bind-L, insert_pass-L, update_cycle-L, insert_ticket-L,
              insert_overrides-L, enqueue-L,
            )
            depth 16)))

  complete_steps-L :
      (env : Call) (cycle : WeighCycle) (new : Ticket) (db : Db)
      → L db
      → Ensures L (complete_steps env cycle new db)
  unfolding complete_steps
  complete_steps-L env cycle new db h = search (step_rules, Ensures-any, complete_tx-L) depth 12

  commit_steps-L :
      (env : Call) (new : Ticket) (db : Db) → L db → Ensures L (commit_steps env new db)
  unfolding commit_steps
  commit_steps-L env new db h = search (step_rules, bind-L, insert_ticket-L, enqueue-L) depth 16

  attempt_steps-L :
      (env : Call) (n : ℕ) (error : String) (next : Time) (db : Db)
      → L db
      → Ensures L (attempt_steps env n error next db)
  unfolding attempt_steps
  attempt_steps-L env n error next db h = search (step_rules)

  synced-L :
      (entity : String) (now : Time) (ts : List TicketRow)
      → Has (IsRow t id) ts
      → Has (IsRow t id) (map (synced entity now) ts)
  synced-L entity now ts =
      Has-map (IsRow t id) (IsRow t id) (synced entity now) ts
        (λ r h. if_intro (IsRow t id) (str_eq r.ticket.id entity) (λ _. h) (λ _. h))

  ack_steps-L : (env : Call) (n : ℕ) (db : Db) → L db → Ensures L (ack_steps env n db)
  unfolding ack_steps
  ack_steps-L env n db h = search (step_rules, Ensures-any, synced-L) depth 16

  steps-L : (o : Op) (db : Db) → L db → Ensures L (steps o db)
  steps-L (Op.open_op env c) db h = open_steps-L env c db h
  steps-L (Op.call_op env n at) db h = call_steps-L env n at db h
  steps-L (Op.mark_op env n s reason at) db h = mark_steps-L env n s reason at db h
  steps-L (Op.complete_op env c x) db h = complete_steps-L env c x db h
  steps-L (Op.commit_op env x) db h = commit_steps-L env x db h
  steps-L (Op.attempt_op env n error next) db h = attempt_steps-L env n error next db h
  steps-L (Op.ack_op env n) db h = ack_steps-L env n db h

-- A ticket that is stored stays stored, unchanged and with the id of its cycle, after any sequence of
-- operations of the store, whatever fails in them.
pub run_ops-keeps_IsStored :
    (t : Ticket) (id : String) (os : List Op) (db : Db)
    → IsStored t id db
    → IsStored t id (run_ops os db)
unfolding run_ops
run_ops-keeps_IsStored t id [] db h = h
run_ops-keeps_IsStored t id (o ∷ os) db h =
    run_ops-keeps_IsStored t id os (settle db (steps o db)).0
      (settle_keeps (L t id) db (steps o db) h (steps-L t id o db h))
