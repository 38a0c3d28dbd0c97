-- ===== src/Store/Backed/Ops.antt =====
-- Every operation of the store keeps its tickets backed by completed cycles.
use mathlib.Core.Path.{subst}
use plantops_edge_scale.Base.{
  ℕ, ◌≡◌, refl, sym, inl, inr, false, not, String, str_eq, eq_iff, List, [], ◌∷◌, map, Option, none,
  some, arith, if_intro, All, All-map,
}
use plantops_edge_scale.Domain.Types.{Time, Ticket}
use plantops_edge_scale.Domain.Workflow.{CycleStatus}
use plantops_edge_scale.Domain.Cycle.{WeighPass, validate_pair}
use plantops_edge_scale.Domain.WeighCycle.{
  WeighCycle, CycleReason, no_policy, is_called, is_complete,
}
use plantops_edge_scale.Store.{
  Db, CycleRow, TicketRow, Try, ok, ◌>>=◌, settle, find_row, updated_row, update_cycle, insert_pass,
  get_cycle, durable_status, found_or, status_of, no_cycle_id, already_complete, durable_not_called,
}
use plantops_edge_scale.Store.Cycles.{
  Call, or_time, open_steps, call_read, call_steps, mark_steps, complete_tx, complete_steps,
  vehicle_key, completed, final_ticket,
}
use plantops_edge_scale.Store.Sync.{commit_steps, attempt_steps, ack_steps, synced}
use plantops_edge_scale.Store.Ops.{Op, steps, run_ops}
use plantops_edge_scale.Store.Rows.{
  Ensures, Ensures-bind, Ensures-answer, Ensures-any, Ensures-refuse_if, settle_keeps,
  find_row_self, step_rules,
}
use plantops_edge_scale.Store.Final.{
  Consistent, Consistent-find, Consistent-updated, IsFinal, not_done, queued_open, called_open,
}
use plantops_edge_scale.Store.Backed.{
  Agrees, Backed, B, Open, updated-B, insert_pass-B, insert_cycle-B, update_cycle-B,
  insert_ticket-B, insert_overrides-B, enqueue-B,
}

bind-B :
    (r : Try Db) (f : Db → Try Db)
    → Ensures B r
    → ((db : Db) → B db → Ensures B (f db))
    → Ensures B (r >>= f)
bind-B r f = Ensures-bind B B r f

-- A cycle that was read stands under its own id; it is open if it is not complete.
abbrev Read : Db → WeighCycle → Type 0
Read db c = is_complete c.status ≡ false → Open db.cycles c.id

found-Read :
    (id : String) (db : Db) (o : Option CycleRow)
    → Consistent db.cycles
    → find_row id db.cycles ≡ o
    → Ensures (Read db) (found_or id o >>= λ r. ok r.cycle)
found-Read id db none ids e = tt
found-Read id db (some r) ids e = λ open_.
    let same = Consistent-find id r db.cycles ids e in
    (
      r,
      (
        subst (λ s. find_row s db.cycles ≡ some r) (sym same) e,
        inr (not_done r.cycle.status open_),
      ),
    )

get_cycle-Read :
    (t : Option String) (id : String) (db : Db) → B db → Ensures (Read db) (get_cycle t id db)
unfolding get_cycle
get_cycle-Read t id db (ids, _) =
    Ensures-answer (Read db) t _ (found-Read id db (find_row id db.cycles) ids refl)

abbrev Called : Db → String → CycleStatus → Type 0
Called db id s = is_complete s ≡ false → Open db.cycles id

status-Called :
    (id : String) (db : Db) (o : Option CycleRow)
    → find_row id db.cycles ≡ o
    → Ensures (Called db id) (status_of o)
status-Called id db none e = tt
status-Called id db (some r) e = λ open_. (r, (e, inl (not_done r.status open_)))

durable_status-Called :
    (t : Option String) (id : String) (db : Db) → Ensures (Called db id) (durable_status t id db)
unfolding durable_status
durable_status-Called t id db =
    Ensures-answer (Called db id) t _ (status-Called id db (find_row id db.cycles) refl)

open_steps-B :
    (env : Call) (cycle : WeighCycle) (db : Db) → B db → Ensures B (open_steps env cycle db)
unfolding open_steps
open_steps-B env cycle db h =
    search (step_rules, bind-B, Ensures-any, insert_pass-B, insert_cycle-B) depth 12

call_read-B :
    (env : Call) (at : Time) (db : Db) (c : WeighCycle)
    → B db
    → Read db c
    → Ensures B (call_read env at c db)
unfolding call_read
call_read-B env at db c h read =
    let open_ = queued_open c.status in
    search (step_rules, bind-B, update_cycle-B, read, open_) depth 10

call_steps-B :
    (env : Call) (id : String) (at : Time) (db : Db) → B db → Ensures B (call_steps env id at db)
unfolding call_steps
call_steps-B env id at db h = Ensures-refuse_if B (str_eq id "") no_cycle_id _ (λ _.
    Ensures-answer B (env.trouble 0) _ (
      Ensures-bind (Read db) B (get_cycle (env.trouble 1) id db) _
        (get_cycle-Read (env.trouble 1) id db h)
        (λ c read. call_read-B env (or_time at env.now) db c h read)))

mark_steps-B :
    (env : Call) (id : String) (status : CycleStatus) (reason : CycleReason) (at : Time) (db : Db)
    → B db
    → Ensures B (mark_steps env id status reason at db)
unfolding mark_steps
mark_steps-B env id status reason at db h = Ensures-answer B (env.trouble 0) _ (
    Ensures-bind (Read db) B (get_cycle (env.trouble 1) id db) _
      (get_cycle-Read (env.trouble 1) id db h)
      (λ c read.
        Ensures-refuse_if B (is_complete c.status) already_complete _
          (λ open_. let o = read open_ in search (step_rules, bind-B, update_cycle-B))))

-- A legacy ticket names no cycle.
legacy-Backed :
    (rows : List CycleRow) (ticket : Ticket)
    → Backed rows (record { ticket = ticket; cycle_id = ""; synced_at = ticket.synced_at })
unfolding Backed
legacy-Backed rows ticket = inl refl

commit_steps-B :
    (env : Call) (ticket : Ticket) (db : Db) → B db → Ensures B (commit_steps env ticket db)
unfolding commit_steps
commit_steps-B env ticket db h =
    search (step_rules, bind-B, insert_ticket-B, enqueue-B, legacy-Backed) depth 16

attempt_steps-B :
    (env : Call) (n : ℕ) (error : String) (next : Time) (db : Db)
    → B db
    → Ensures B (attempt_steps env n error next db)
unfolding attempt_steps
attempt_steps-B env n error next db h = search (step_rules)

synced-Backed :
    (rows : List CycleRow) (entity : String) (now : Time) (ts : List TicketRow)
    → All (Backed rows) ts
    → All (Backed rows) (map (synced entity now) ts)
unfolding Backed
synced-Backed rows entity now ts =
    All-map (Backed rows) (Backed rows) (synced entity now) ts
      (λ r h. if_intro (Backed rows) (str_eq r.ticket.id entity) (λ _. h) (λ _. h))

ack_steps-B : (env : Call) (n : ℕ) (db : Db) → B db → Ensures B (ack_steps env n db)
unfolding ack_steps
ack_steps-B env n db (ids, h) = search (step_rules, Ensures-any, synced-Backed) depth 16

abbrev new_row : Ticket → TicketRow
new_row ticket = record {
  ticket = ticket;
  cycle_id = ticket.cycle_id;
  synced_at = ticket.synced_at;
}

updated-IsFinal :
    (c : WeighCycle) (now : Time) (rows : List CycleRow) (id : String)
    → Open rows c.id
    → Consistent rows
    → id ≡ c.id
    → c.status ≡ CycleStatus.complete
    → IsFinal id c (map (updated_row c now) rows)
updated-IsFinal c now rows id (r, (found, _)) ids e done =
    subst (λ s. IsFinal s c (map (updated_row c now) rows)) (sym e)
      (record {
        row = record r { status = c.status; cycle = c; updated_at = now };
        found = find_row_self c.id c now rows r (ground (arith, eq_iff c.id c.id)) found;
        done = done;
        kept = refl;
        ids = Consistent-updated c now rows ids;
      })

-- After the UPDATE the cycle is complete in its row, and its ticket is backed.
update-Backed :
    (t : Option String) (c : WeighCycle) (ticket : Ticket) (now : Time) (db : Db)
    → Open db.cycles c.id
    → B db
    → ticket.cycle_id ≡ c.id
    → Agrees ticket c
    → Ensures (λ db'. B db' × Backed db'.cycles (new_row ticket)) (update_cycle t c now db)
unfolding update_cycle Backed
update-Backed t c ticket now db o h e a =
    Ensures-answer (λ db'. B db' × Backed db'.cycles (new_row ticket)) t _
      (
        updated-B c now db.cycles db.tickets o h,
        inr (c, (updated-IsFinal c now db.cycles ticket.cycle_id o h.0 e a.done, a)),
      )

insert_pass-Open :
    (t : Option String) (key : List ℕ) (p : WeighPass) (db : Db) (id : String)
    → B db × Open db.cycles id
    → Ensures (λ db'. B db' × Open db'.cycles id) (insert_pass t key p db)
unfolding insert_pass
insert_pass-Open t key p db id h = search (step_rules)

complete_tx-B :
    (env : Call) (c : WeighCycle) (second : WeighPass) (ticket : Ticket) (now : Time) (db : Db)
    → B db
    → ticket.cycle_id ≡ c.id
    → Agrees ticket c
    → Ensures B (complete_tx env c second ticket now db)
unfolding complete_tx
complete_tx-B env c second ticket now db h e a = Ensures-answer B (env.trouble 0) _ (
    Ensures-bind (Called db c.id) B (durable_status (env.trouble 1) c.id db) _
      (durable_status-Called (env.trouble 1) c.id db)
      (λ s called. Ensures-refuse_if B (not (is_called s)) (durable_not_called s) _ (λ f.
        Ensures-bind (λ db'. B db' × Open db'.cycles c.id) B
          (insert_pass (env.trouble 2) (vehicle_key env second.plate) second db) _
          (insert_pass-Open (env.trouble 2) (vehicle_key env second.plate) second db c.id
            (h, called (called_open s f)))
          (λ db1 ready.
            Ensures-bind (λ db'. B db' × Backed db'.cycles (new_row ticket)) B
              (update_cycle (env.trouble 3) c now db1) _
              (update-Backed (env.trouble 3) c ticket now db1 ready.1 ready.0 e a)
              (λ db2 backed.
                let b = backed.0 in
                let k = backed.1 in
                search (step_rules, bind-B, insert_ticket-B, insert_overrides-B, enqueue-B) depth
                  16)))))

-- The ticket that is written agrees with the completed cycle.
final-Agrees :
    (ticket : Ticket) (cycle : WeighCycle) (second : WeighPass) (now : Time)
    → not (validate_pair cycle.first_pass second no_policy).valid ≡ false
    → Agrees
        (final_ticket ticket
          (completed cycle second (validate_pair cycle.first_pass second no_policy) now)
          second
          now)
        (completed cycle second (validate_pair cycle.first_pass second no_policy) now)
unfolding final_ticket
final-Agrees ticket cycle second now h = record {
  done = refl;
  second = second;
  present = refl;
  is_pair = ground (arith);
  gross = refl;
  tare = refl;
  net = refl;
}

complete_steps-B :
    (env : Call) (cycle : WeighCycle) (ticket : Ticket) (db : Db)
    → B db
    → Ensures B (complete_steps env cycle ticket db)
unfolding complete_steps
complete_steps-B env cycle ticket db h =
    search (step_rules, Ensures-any, complete_tx-B, final-Agrees) depth 12

steps-B : (o : Op) (db : Db) → B db → Ensures B (steps o db)
steps-B (Op.open_op env c) db h = open_steps-B env c db h
steps-B (Op.call_op env n at) db h = call_steps-B env n at db h
steps-B (Op.mark_op env n s reason at) db h = mark_steps-B env n s reason at db h
steps-B (Op.complete_op env c t) db h = complete_steps-B env c t db h
steps-B (Op.commit_op env t) db h = commit_steps-B env t db h
steps-B (Op.attempt_op env n error next) db h = attempt_steps-B env n error next db h
steps-B (Op.ack_op env n) db h = ack_steps-B env n db h

-- Every ticket of the store names no cycle or is backed by the cycle that it names: that cycle's row is
-- complete, its two passes are a valid pair, and the ticket's gross, tare and net weights are the
-- pair's. Any sequence of operations of the store keeps this, whatever fails in them, together with
-- every row of a cycle standing under the cycle's own id.
pub run_ops-keeps_Backed :
    (os : List Op) (db : Db)
    → Consistent db.cycles × All (Backed db.cycles) db.tickets
    → Consistent (run_ops os db).cycles
      × All (Backed (run_ops os db).cycles) (run_ops os db).tickets
unfolding run_ops
run_ops-keeps_Backed [] db h = h
run_ops-keeps_Backed (o ∷ os) db h =
    run_ops-keeps_Backed os (settle db (steps o db)).0
      (settle_keeps B db (steps o db) h (steps-B o db h))
