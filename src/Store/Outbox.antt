-- ===== src/Store/Outbox.antt =====
-- A ticket is never stored without the row of the queue that brings it to the central server.
use plantops_edge_scale.Base.{
  ℕ, ◌≡◌, refl, sym, ap, ◌∙◌, not, ◌⊎◌, inl, inr, String, str_eq, List, [], ◌∷◌, ◌++◌, map, Option,
  if_intro, All, All-imp, All-map, All-append, Has, Has-map, Has-append_left, Has-append_right,
}
use plantops_edge_scale.Domain.Types.{Time, Ticket}
use plantops_edge_scale.Domain.Workflow.{CycleStatus}
use plantops_edge_scale.Domain.Cycle.{WeighPass}
use plantops_edge_scale.Domain.WeighCycle.{WeighCycle, CycleReason, is_called}
use plantops_edge_scale.Store.{
  Db, TicketRow, SyncRow, Try, ◌>>=◌, settle, insert_cycle, update_cycle, durable_status,
  durable_not_called, any, same_ticket, constraint, insert_pass, insert_ticket, insert_overrides,
  enqueue,
}
use plantops_edge_scale.Store.Cycles.{
  Call, vehicle_key, or_time, open_steps, call_steps, call_read, mark_steps, complete_tx,
  complete_steps,
}
use plantops_edge_scale.Store.Sync.{
  commit_steps, attempt_steps, ack_steps, synced, acked, attempted,
}
use plantops_edge_scale.Store.Ops.{Op, steps, run_ops}
use plantops_edge_scale.Store.Rows.{
  Ensures, Ensures-bind, Ensures-answer, Ensures-any, Ensures-refuse_if, settle_keeps, step_rules,
}

-- The row that carries the ticket.
abbrev pub Carries : Ticket → SyncRow → Type 0
Carries t r = (r.entity_id ≡ t.id) × (r.payload ≡ t)

abbrev pub IsQueued : List SyncRow → TicketRow → Type 0
IsQueued sync t = Has (Carries t.ticket) sync

abbrev pub Q : Db → Type 0
Q db = All (IsQueued db.sync) db.tickets

-- Between the two INSERTs the new ticket has no row yet.
abbrev Owes : Ticket → Db → Type 0
Owes new db = All (λ t. IsQueued db.sync t ⊎ (t.ticket ≡ new)) db.tickets

bind-Q :
    (r : Try Db) (f : Db → Try Db)
    → Ensures Q r
    → ((db : Db) → Q db → Ensures Q (f db))
    → Ensures Q (r >>= f)
bind-Q r f = Ensures-bind Q Q r f

bind-Owes :
    (new : Ticket) (r : Try Db) (f : Db → Try Db)
    → Ensures (Owes new) r
    → ((db : Db) → Owes new db → Ensures Q (f db))
    → Ensures Q (r >>= f)
bind-Owes new r f = Ensures-bind (Owes new) Q r f

insert_pass-Q :
    (t : Option String) (key : List ℕ) (p : WeighPass) (db : Db)
    → Q db
    → Ensures Q (insert_pass t key p db)
unfolding insert_pass
insert_pass-Q t key p db h = search (step_rules)

insert_cycle-Q :
    (t : Option String) (now : Time) (key : List ℕ) (c : WeighCycle) (db : Db)
    → Q db
    → Ensures Q (insert_cycle t now key c db)
unfolding insert_cycle
insert_cycle-Q t now key c db h = search (step_rules)

update_cycle-Q :
    (t : Option String) (c : WeighCycle) (at : Time) (db : Db)
    → Q db
    → Ensures Q (update_cycle t c at db)
unfolding update_cycle
update_cycle-Q t c at db h = search (step_rules)

insert_ticket-Owes :
    (t : Option String) (cycle_id : String) (ticket : Ticket) (db : Db)
    → Q db
    → Ensures (Owes ticket) (insert_ticket t cycle_id ticket db)
unfolding insert_ticket
insert_ticket-Owes t cycle_id ticket db h = Ensures-answer (Owes ticket) t _ (
    Ensures-refuse_if (Owes ticket) (any (same_ticket cycle_id ticket) db.tickets)
      (constraint "tickets") _
      (λ _.
        All-append _ db.tickets _ (All-imp (IsQueued db.sync) _ db.tickets (λ _ q. inl q) h)
          (inr refl, tt)))

insert_overrides-Owes :
    (t : Option String) (new ticket : Ticket) (db : Db)
    → Owes new db
    → Ensures (Owes new) (insert_overrides t ticket db)
unfolding insert_overrides
insert_overrides-Owes t new ticket db h = search (step_rules)

-- The queue grows by the row of the ticket.
paid :
    (new : Ticket) (sync : List SyncRow) (r : SyncRow)
    → Carries new r
    → (t : TicketRow) → IsQueued sync t ⊎ (t.ticket ≡ new)
    → IsQueued (sync ++ r ∷ []) t
paid new sync r c t (inl q) = Has-append_left (Carries t.ticket) sync (r ∷ []) q
paid new sync r (e, p) t (inr same) =
    Has-append_right (Carries t.ticket) sync (r ∷ [])
      (inl (e ∙ sym (ap (λ x. x.id) same), p ∙ sym same))

enqueue-Q :
    (t : Option String) (ticket : Ticket) (now : Time) (db : Db)
    → Owes ticket db
    → Ensures Q (enqueue t ticket now db)
unfolding enqueue
enqueue-Q t ticket now db h = Ensures-answer Q t _ (
    Ensures-refuse_if Q (any (λ (r : SyncRow). str_eq r.entity_id ticket.id) db.sync)
      (constraint "sync_queue") _
      (λ _.
        All-imp (λ q. IsQueued db.sync q ⊎ (q.ticket ≡ ticket)) _ db.tickets
          (paid ticket db.sync _ (refl, refl)) h))

-- The three INSERTs of a ticket, and what follows them.
write_out-Q :
    (t1 t2 t3 : Option String) (cycle_id : String) (ticket : Ticket) (now : Time) (f : Db → Try Db)
    (db : Db)
    → Q db
    → ((d : Db) → Q d → Ensures Q (f d))
    → Ensures Q (
        insert_ticket t1 cycle_id ticket db >>= λ a.
        insert_overrides t2 ticket a >>= λ b. enqueue t3 ticket now b >>= f)
write_out-Q t1 t2 t3 cycle_id ticket now f db h k =
    bind-Owes ticket (insert_ticket t1 cycle_id ticket db) _
      (insert_ticket-Owes t1 cycle_id ticket db h)
      (λ a ha.
        bind-Owes ticket (insert_overrides t2 ticket a) _
          (insert_overrides-Owes t2 ticket ticket a ha)
          (λ b hb. bind-Q (enqueue t3 ticket now b) f (enqueue-Q t3 ticket now b hb) k))

open_steps-Q :
    (env : Call) (cycle : WeighCycle) (db : Db) → Q db → Ensures Q (open_steps env cycle db)
unfolding open_steps
open_steps-Q env cycle db h =
    search (step_rules, bind-Q, Ensures-any, insert_pass-Q, insert_cycle-Q) depth 12

call_read-Q :
    (env : Call) (at : Time) (db : Db) (c : WeighCycle) → Q db → Ensures Q (call_read env at c db)
unfolding call_read
call_read-Q env at db c h = search (step_rules, bind-Q) depth 10

call_steps-Q :
    (env : Call) (id : String) (at : Time) (db : Db) → Q db → Ensures Q (call_steps env id at db)
unfolding call_steps
call_steps-Q env id at db h = search (step_rules, Ensures-any, call_read-Q) depth 10

mark_steps-Q :
    (env : Call) (id : String) (status : CycleStatus) (reason : CycleReason) (at : Time) (db : Db)
    → Q db
    → Ensures Q (mark_steps env id status reason at db)
unfolding mark_steps
mark_steps-Q env id status reason at db h = search (step_rules, Ensures-any, bind-Q) depth 10

complete_tx-Q :
    (env : Call) (c : WeighCycle) (second : WeighPass) (ticket : Ticket) (now : Time) (db : Db)
    → Q db
    → Ensures Q (complete_tx env c second ticket now db)
unfolding complete_tx
complete_tx-Q env c second ticket now db h = Ensures-answer Q (env.trouble 0) _ (
    Ensures-any Q (durable_status (env.trouble 1) c.id db) _ (λ s.
      Ensures-refuse_if Q (not (is_called s)) (durable_not_called s) _ (λ _.
        bind-Q (insert_pass (env.trouble 2) (vehicle_key env second.plate) second db) _
          (insert_pass-Q (env.trouble 2) (vehicle_key env second.plate) second db h)
          (λ a ha.
            bind-Q (update_cycle (env.trouble 3) c now a) _
              (update_cycle-Q (env.trouble 3) c now a ha)
              (λ b hb.
                write_out-Q (env.trouble 4) (env.trouble 5) (env.trouble 6) ticket.cycle_id ticket
                  now _ b hb (λ d hd. search (step_rules)))))))

complete_steps-Q :
    (env : Call) (cycle : WeighCycle) (ticket : Ticket) (db : Db)
    → Q db
    → Ensures Q (complete_steps env cycle ticket db)
unfolding complete_steps
complete_steps-Q env cycle ticket db h = search (step_rules, Ensures-any, complete_tx-Q) depth 12

commit_steps-Q :
    (env : Call) (ticket : Ticket) (db : Db) → Q db → Ensures Q (commit_steps env ticket db)
unfolding commit_steps
commit_steps-Q env ticket db h = Ensures-answer Q (env.trouble 0) _ (
    write_out-Q (env.trouble 1) (env.trouble 2) (env.trouble 3) "" ticket
      (or_time ticket.committed_at env.now) _ db h (λ d hd. search (step_rules)))

-- An attempt or an acknowledgement leaves what a row carries.
map-Q :
    (f : SyncRow → SyncRow) (sync : List SyncRow) (ts : List TicketRow)
    → ((t : Ticket) (r : SyncRow) → Carries t r → Carries t (f r))
    → All (IsQueued sync) ts
    → All (IsQueued (map f sync)) ts
map-Q f sync ts k =
    All-imp (IsQueued sync) (IsQueued (map f sync)) ts
      (λ t. Has-map (Carries t.ticket) (Carries t.ticket) f sync (k t.ticket))

synced-Q :
    (entity : String) (now : Time) (sync : List SyncRow) (ts : List TicketRow)
    → All (IsQueued sync) ts
    → All (IsQueued sync) (map (synced entity now) ts)
synced-Q entity now sync ts =
    All-map (IsQueued sync) (IsQueued sync) (synced entity now) ts
      (λ r h. if_intro (IsQueued sync) (str_eq r.ticket.id entity) (λ _. h) (λ _. h))

attempt_steps-Q :
    (env : Call) (n : ℕ) (error : String) (next : Time) (db : Db)
    → Q db
    → Ensures Q (attempt_steps env n error next db)
unfolding attempt_steps
attempt_steps-Q env n error next db h = Ensures-answer Q (env.trouble 0) _ (
    map-Q (attempted n error env.now (or_time next env.now)) db.sync db.tickets
      (λ t r c. if_intro (Carries t) _ (λ _. c) (λ _. c)) h)

ack_steps-Q : (env : Call) (n : ℕ) (db : Db) → Q db → Ensures Q (ack_steps env n db)
unfolding ack_steps
ack_steps-Q env n db h =
    let marked =
      map-Q (acked n env.now) db.sync db.tickets (λ t r c. if_intro (Carries t) _ (λ _. c) (λ _. c))
        h in
    search (step_rules, Ensures-any, synced-Q) depth 16

steps-Q : (o : Op) (db : Db) → Q db → Ensures Q (steps o db)
steps-Q (Op.open_op env c) db h = open_steps-Q env c db h
steps-Q (Op.call_op env n at) db h = call_steps-Q env n at db h
steps-Q (Op.mark_op env n s reason at) db h = mark_steps-Q env n s reason at db h
steps-Q (Op.complete_op env c t) db h = complete_steps-Q env c t db h
steps-Q (Op.commit_op env t) db h = commit_steps-Q env t db h
steps-Q (Op.attempt_op env n error next) db h = attempt_steps-Q env n error next db h
steps-Q (Op.ack_op env n) db h = ack_steps-Q env n db h

-- Every ticket of the store has a row of the queue for the central server under the ticket's id, whose
-- payload is the ticket itself. Any sequence of operations of the store keeps this, whatever fails in
-- them.
pub run_ops-keeps_IsQueued :
    (os : List Op) (db : Db)
    → All (IsQueued db.sync) db.tickets
    → All (IsQueued (run_ops os db).sync) (run_ops os db).tickets
unfolding run_ops
run_ops-keeps_IsQueued [] db h = h
run_ops-keeps_IsQueued (o ∷ os) db h =
    run_ops-keeps_IsQueued os (settle db (steps o db)).0
      (settle_keeps Q db (steps o db) h (steps-Q o db h))
