-- ===== src/Store/Backed.antt =====
-- A ticket of the store that names a cycle is backed by that cycle: complete, with a valid pair whose
-- weights are the ticket's.
pub mod Ops
use mathlib.Core.Path.{subst}
use plantops_edge_scale.Base.{
  ℕ, ◌≡◌, ◌≢◌, refl, sym, ap, ◌∙◌, ◌⊎◌, inl, inr, Bool, true, false, not, String, str_eq, eq_iff,
  List, [], ◌∷◌, ◌++◌, map, Option, none, some, arith, if◌then◌else◌, if_intro, All, All-imp,
  All-map, All-append, Bool-cases,
}
use plantops_edge_scale.Domain.Types.{Time, Ticket}
use plantops_edge_scale.Domain.Workflow.{CycleStatus}
use plantops_edge_scale.Domain.Cycle.{WeighPass, validate_pair}
use plantops_edge_scale.Domain.WeighCycle.{
  WeighCycle, CycleReason, no_policy, is_called, is_queued, is_complete,
}
use plantops_edge_scale.Store.{
  Db, CycleRow, TicketRow, Try, ok, err, ◌>>=◌, answer, refuse_if, insert_cycle, find_row,
  updated_row, update_cycle, any, same_cycle, same_ticket, constraint, insert_pass, insert_ticket,
  insert_overrides, enqueue,
}
use plantops_edge_scale.Store.Rows.{
  Ensures, Ensures-bind, Ensures-answer, Ensures-any, Ensures-refuse_if, find_row_self, step_rules,
}
use plantops_edge_scale.Store.Final.{
  Consistent, Consistent-updated, IsFinal, IsFinal-append, IsFinal-updated, row-other,
}

-- The ticket states what the cycle's two passes weigh, and they are a valid pair.
pub record Agrees (t : Ticket) (v : WeighCycle) : Type 0 where
  pub done : v.status ≡ CycleStatus.complete
  pub second : WeighPass
  pub present : v.second_pass ≡ some second
  pub is_pair : (validate_pair v.first_pass second no_policy).valid ≡ true
  pub gross : t.gross_kg ≡ (validate_pair v.first_pass second no_policy).gross_kg
  pub tare : t.tare_kg ≡ (validate_pair v.first_pass second no_policy).tare_kg
  pub net : t.net_kg ≡ (validate_pair v.first_pass second no_policy).net_kg

unfoldable pub Backed : List CycleRow → TicketRow → Type 0
Backed rows t =
    (t.cycle_id ≡ "") ⊎ ((v : WeighCycle) × (IsFinal t.cycle_id v rows × Agrees t.ticket v))

abbrev pub B : Db → Type 0
B db = Consistent db.cycles × All (Backed db.cycles) db.tickets

module _ (rows rows' : List CycleRow)
    (k : (id : String) (v : WeighCycle)
      → v.status ≡ CycleStatus.complete
      → IsFinal id v rows
      → IsFinal id v rows') where
  Backed-moves : (t : TicketRow) → Backed rows t → Backed rows' t
  unfolding Backed
  Backed-moves t (inl e) = inl e
  Backed-moves t (inr (v, (h, a))) = inr (v, (k t.cycle_id v a.done h, a))

  -- What keeps completed cycles keeps tickets backed.
  pub All-Backed : (ts : List TicketRow) → All (Backed rows) ts → All (Backed rows') ts
  All-Backed ts = All-imp (Backed rows) (Backed rows') ts Backed-moves

-- The row of an id is there and its cycle is not complete.
abbrev pub Open : List CycleRow → String → Type 0
Open rows id =
    (r : CycleRow) × ((find_row id rows ≡ some r)
      × ((r.status ≢ CycleStatus.complete) ⊎ (r.cycle.status ≢ CycleStatus.complete)))

-- Final for `id` means a complete cycle.
Open-other :
    (rows : List CycleRow) (id id' : String) (v : WeighCycle)
    → v.status ≡ CycleStatus.complete
    → Open rows id'
    → IsFinal id v rows
    → str_eq id' id ≡ false
Open-other rows id id' v done (r, (found, inl d)) h = row-other id v rows r id' h found (inl d)
Open-other rows id id' v done (r, (found, inr d)) h =
    row-other id v rows r id' h found (inr (λ e. d (e ∙ done)))

pub insert_pass-B :
    (t : Option String) (key : List ℕ) (p : WeighPass) (db : Db)
    → B db
    → Ensures B (insert_pass t key p db)
unfolding insert_pass
insert_pass-B t key p db h = search (step_rules)

pub insert_cycle-B :
    (t : Option String) (now : Time) (key : List ℕ) (c : WeighCycle) (db : Db)
    → B db
    → Ensures B (insert_cycle t now key c db)
unfolding insert_cycle
insert_cycle-B t now key c db (ids, h) = Ensures-answer B t _ (
    Ensures-refuse_if B (any (same_cycle c) db.cycles) (constraint "weigh_cycles") _ (λ _. (
      All-append _ db.cycles _ ids (refl, tt),
      All-Backed db.cycles _ (λ id v _ f. IsFinal-append id v db.cycles _ refl f) db.tickets h,
    )))

pub updated-B :
    (c : WeighCycle) (at : Time) (rows : List CycleRow) (ts : List TicketRow)
    → Open rows c.id
    → Consistent rows × All (Backed rows) ts
    → Consistent (map (updated_row c at) rows) × All (Backed (map (updated_row c at) rows)) ts
updated-B c at rows ts o (ids, h) = (
  Consistent-updated c at rows ids,
  All-Backed rows _ (λ id v d f. IsFinal-updated id v c at rows (Open-other rows id c.id v d o f) f)
      ts h,
)

pub update_cycle-B :
    (t : Option String) (c : WeighCycle) (at : Time) (db : Db)
    → Open db.cycles c.id
    → B db
    → Ensures B (update_cycle t c at db)
unfolding update_cycle
update_cycle-B t c at db o h = Ensures-answer B t _ (updated-B c at db.cycles db.tickets o h)

pub insert_ticket-B :
    (t : Option String) (cycle_id : String) (ticket : Ticket) (db : Db)
    → Backed db.cycles
        (record { ticket = ticket; cycle_id = cycle_id; synced_at = ticket.synced_at })
    → B db
    → Ensures B (insert_ticket t cycle_id ticket db)
unfolding insert_ticket
insert_ticket-B t cycle_id ticket db b (ids, h) = Ensures-answer B t _ (
    Ensures-refuse_if B (any (same_ticket cycle_id ticket) db.tickets) (constraint "tickets") _
      (λ _. (ids, All-append _ db.tickets _ h (b, tt))))

pub insert_overrides-B :
    (t : Option String) (ticket : Ticket) (db : Db)
    → B db
    → Ensures B (insert_overrides t ticket db)
unfolding insert_overrides
insert_overrides-B t ticket db h = search (step_rules)

pub enqueue-B :
    (t : Option String) (ticket : Ticket) (now : Time) (db : Db)
    → B db
    → Ensures B (enqueue t ticket now db)
unfolding enqueue
enqueue-B t ticket now db h = search (step_rules)
