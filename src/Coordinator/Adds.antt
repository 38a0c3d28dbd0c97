-- ===== src/Coordinator/Adds.antt =====
-- What completing a cycle adds to the tickets of the store.
use plantops_edge_scale.Base.{ℕ, ◌≡◌, refl, ap, not, String, List, [], ◌∷◌, ◌++◌, Option}
use plantops_edge_scale.Domain.Types.{Time, Ticket}
use plantops_edge_scale.Domain.Cycle.{WeighPass}
use plantops_edge_scale.Domain.WeighCycle.{WeighCycle, is_called}
use plantops_edge_scale.Store.{
  Db, TicketRow, Try, ◌>>=◌, insert_pass, update_cycle, durable_status, insert_ticket,
  insert_overrides, enqueue, durable_not_called,
}
use plantops_edge_scale.Store.Cycles.{Call, complete_tx, vehicle_key}
use plantops_edge_scale.Store.Rows.{
  Ensures, Ensures-bind, Ensures-answer, Ensures-any, Ensures-refuse_if, step_rules,
}

-- The row of a new ticket.
abbrev pub row_of : Ticket → TicketRow
row_of t = record { ticket = t; cycle_id = t.cycle_id; synced_at = t.synced_at }

-- The transaction adds the row of its ticket.
abbrev pub Adds : Db → Ticket → Db → Type 0
Adds db t db' = db'.tickets ≡ db.tickets ++ row_of t ∷ []

abbrev Tickets : List TicketRow → Db → Type 0
Tickets ts db = db.tickets ≡ ts

bind-Tickets :
    (ts us : List TicketRow) (r : Try Db) (f : Db → Try Db)
    → Ensures (Tickets ts) r
    → ((d : Db) → Tickets ts d → Ensures (Tickets us) (f d))
    → Ensures (Tickets us) (r >>= f)
bind-Tickets ts us r f = Ensures-bind (Tickets ts) (Tickets us) r f

module _ (db : Db) (ts : List TicketRow) (h : Tickets ts db) where
  insert_pass-Tickets :
      (t : Option String) (key : List ℕ) (p : WeighPass)
      → Ensures (Tickets ts) (insert_pass t key p db)
  unfolding insert_pass
  insert_pass-Tickets t key p = search (step_rules)

  update_cycle-Tickets :
      (t : Option String) (c : WeighCycle) (at : Time)
      → Ensures (Tickets ts) (update_cycle t c at db)
  unfolding update_cycle
  update_cycle-Tickets t c at = search (step_rules)

  insert_ticket-Tickets :
      (t : Option String) (id : String) (new : Ticket)
      → Ensures
          (Tickets (ts ++ record { ticket = new; cycle_id = id; synced_at = new.synced_at } ∷ []))
          (insert_ticket t id new db)
  unfolding insert_ticket
  insert_ticket-Tickets t id new =
      let grown =
        ap (λ x. x ++ record { ticket = new; cycle_id = id; synced_at = new.synced_at } ∷ []) h in
      search (step_rules)

  insert_overrides-Tickets :
      (t : Option String) (new : Ticket) → Ensures (Tickets ts) (insert_overrides t new db)
  unfolding insert_overrides
  insert_overrides-Tickets t new = search (step_rules)

  enqueue-Tickets :
      (t : Option String) (new : Ticket) (now : Time) → Ensures (Tickets ts) (enqueue t new now db)
  unfolding enqueue
  enqueue-Tickets t new now = search (step_rules)

pub complete_tx-Adds :
    (env : Call) (c : WeighCycle) (second : WeighPass) (t : Ticket) (now : Time) (db : Db)
    → Ensures (Adds db t) (complete_tx env c second t now db)
unfolding complete_tx
complete_tx-Adds env c second t now db =
    let old = db.tickets in
    let new = old ++ row_of t ∷ [] in
    Ensures-answer (Adds db t) (env.trouble 0) _ (
      Ensures-any (Adds db t) (durable_status (env.trouble 1) c.id db) _ (λ s.
        Ensures-refuse_if (Adds db t) (not (is_called s)) (durable_not_called s) _ (λ _.
          bind-Tickets old new
            (insert_pass (env.trouble 2) (vehicle_key env second.plate) second db) _
            (insert_pass-Tickets db old refl (env.trouble 2) (vehicle_key env second.plate) second)
            (λ a ha.
              bind-Tickets old new (update_cycle (env.trouble 3) c now a) _
                (update_cycle-Tickets a old ha (env.trouble 3) c now)
                (λ b hb.
                  bind-Tickets new new (insert_ticket (env.trouble 4) t.cycle_id t b) _
                    (insert_ticket-Tickets b old hb (env.trouble 4) t.cycle_id t)
                    (λ d hd.
                      bind-Tickets new new (insert_overrides (env.trouble 5) t d) _
                        (insert_overrides-Tickets d new hd (env.trouble 5) t)
                        (λ e he.
                          bind-Tickets new new (enqueue (env.trouble 6) t now e) _
                            (enqueue-Tickets e new he (env.trouble 6) t now)
                            (λ f hf. search (step_rules)))))))))
