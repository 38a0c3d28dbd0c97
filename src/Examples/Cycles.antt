-- ===== src/Examples/Cycles.antt =====
-- The store and the coordinator along one business cycle: open, call, complete.
use plantops_edge_scale.Base.{
  inl, ◌≡◌, ◌==◌, refl, true, false, List, [], ◌∷◌, map, none, some, pos, Unicode, if◌then◌else◌,
  codes_eq, sub64, first_failure, All,
}
use plantops_edge_scale.Domain.Types.{Ticket}
use plantops_edge_scale.Domain.Workflow.{CycleStatus}
use plantops_edge_scale.Domain.Cycle.{
  WeighPass, validate_pair, pair_checks, normalize_cycle_identity, time_sub, within_configured,
}
use plantops_edge_scale.Domain.WeighCycle.{WeighCycle, CycleReason}
use plantops_edge_scale.Engine.Identity.{normalize_plate}
use plantops_edge_scale.Store.{Db, CycleRow, TicketRow, find_row, any}
use plantops_edge_scale.Store.Cycles.{Call, complete_steps}
use plantops_edge_scale.Store.Ops.{Op, run_ops}
use plantops_edge_scale.Store.Final.{Consistent}
use plantops_edge_scale.Store.Final.Ops.{run_ops-keeps_complete}
use plantops_edge_scale.Store.Backed.{Backed}
use plantops_edge_scale.Store.Backed.Ops.{run_ops-keeps_Backed}
use plantops_edge_scale.Store.Lasting.{IsStored, run_ops-keeps_IsStored}
use plantops_edge_scale.Store.Outbox.{IsQueued, run_ops-keeps_IsQueued}
use plantops_edge_scale.Coordinator.{
  Coordinator, Env, queued_cycle, base_ticket, record_second_pass,
}
use plantops_edge_scale.Coordinator.Durable.{as_kept, record_second_pass-Kept}
use plantops_edge_scale.Examples.Pairs.{outbound, inbound, open_policy}

abbrev pub plain_text : Unicode
plain_text = record {
  is_letter = λ _. true;
  is_digit = λ _. false;
  is_space = λ c. c == 32;
  to_upper = λ c. c;
  fold = λ c. c;
}

abbrev call_now : Call
call_now = record { now = 700000000000; unicode = plain_text; trouble = λ _. none }

-- The database after the migrations.
abbrev pub new_db : Db
new_db = record {
  passes = [];
  cycles = [];
  tickets = [];
  overrides = [];
  sync = [];
  next_sync = 1;
  last_completed = none;
  last_committed = none;
}

abbrev waiting : WeighCycle
waiting = queued_cycle "c1" outbound

abbrev returned : WeighPass
returned = record inbound { plate = outbound.plate }

abbrev called_row : CycleRow
called_row = record {
  id = "c1";
  plate_key = normalize_plate plain_text outbound.plate;
  status = CycleStatus.called;
  first_pass_id = "p1";
  cycle = record waiting { status = CycleStatus.called };
  updated_at = 2000;
}

abbrev pub called_db : Db
called_db = record new_db { cycles = called_row ∷ [] }

abbrev pub env_now : Env
env_now = record { ids = λ prefix. prefix; clock = λ _. 700000000000; calls = λ _. call_now }

abbrev pub coordinator : Coordinator
coordinator = record { has_store = true; policy = open_policy }

abbrev completion : List Op
completion =
    Op.complete_op call_now
      (record waiting { status = CycleStatus.called; second_pass = some returned })
      (base_ticket env_now waiting returned 700000000000)
    ∷ Op.ack_op call_now 1
    ∷ []

completion_test :
    map (λ (r : TicketRow). r.ticket.net_kg) (run_ops completion called_db).tickets ≡ pos 17000 ∷ []
unfolding run_ops validate_pair first_failure pair_checks normalize_cycle_identity if◌then◌else◌
    codes_eq time_sub within_configured sub64 any
completion_test = refl

run_ops-keeps_Backed_example :
    Consistent (run_ops completion called_db).cycles
    × All (Backed (run_ops completion called_db).cycles) (run_ops completion called_db).tickets
run_ops-keeps_Backed_example = run_ops-keeps_Backed completion called_db ((refl, tt), tt)

run_ops-keeps_IsQueued_example :
    All (IsQueued (run_ops completion called_db).sync) (run_ops completion called_db).tickets
run_ops-keeps_IsQueued_example = run_ops-keeps_IsQueued completion called_db tt

-- A completed row, and what is tried on it.
abbrev done_row : CycleRow
done_row = record called_row {
  status = CycleStatus.complete;
  cycle = record waiting { status = CycleStatus.complete; second_pass = some returned };
}

abbrev done_db : Db
done_db = record new_db { cycles = done_row ∷ [] }

abbrev attempts : List Op
attempts =
    Op.mark_op call_now "c1" CycleStatus.called CycleReason.clear 0
    ∷ Op.call_op call_now "c1" 0
    ∷ completion

found_test : find_row "c1" done_db.cycles ≡ some done_row
unfolding find_row if◌then◌else◌
found_test = refl

run_ops-keeps_complete_example :
    (q : CycleRow) × ((find_row "c1" (run_ops attempts done_db).cycles ≡ some q)
      × ((q.status ≡ CycleStatus.complete) × (q.cycle ≡ done_row.cycle)))
run_ops-keeps_complete_example =
    run_ops-keeps_complete "c1" done_row attempts done_db (refl, tt) found_test refl refl

second_test : (record_second_pass env_now coordinator returned called_db).1.error ≡ none
unfolding record_second_pass validate_pair first_failure pair_checks normalize_cycle_identity
    if◌then◌else◌ codes_eq time_sub within_configured sub64 any normalize_plate complete_steps
second_test = refl

record_second_pass-Kept_example :
    (c : WeighCycle) × ((t : Ticket) × ((s : WeighPass) × (((record_second_pass env_now coordinator
              returned called_db).1.value
            ≡ some (c, some t))
          × ((c.second_pass ≡ some s)
              × (((validate_pair c.first_pass s open_policy).valid ≡ true)
                  × ((record_second_pass env_now coordinator returned called_db).0.tickets
                      ≡ record {
                        ticket = as_kept t;
                        cycle_id = t.cycle_id;
                        synced_at = t.synced_at;
                      }
                        ∷ []))))))
record_second_pass-Kept_example =
    record_second_pass-Kept env_now coordinator returned called_db refl second_test

-- A ticket in the table, through the completion of another cycle.
abbrev old_ticket : Ticket
old_ticket = record (base_ticket env_now waiting returned 5) {
  id = "t0";
  transaction_id = "x0";
  cycle_id = "";
}

abbrev busy_db : Db
busy_db = record called_db {
  tickets = record { ticket = old_ticket; cycle_id = ""; synced_at = none } ∷ [];
}

run_ops-keeps_IsStored_example : IsStored old_ticket "" (run_ops completion busy_db)
run_ops-keeps_IsStored_example =
    run_ops-keeps_IsStored old_ticket "" completion busy_db (inl (refl, refl))
