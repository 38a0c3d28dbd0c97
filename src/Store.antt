-- ===== src/Store.antt =====
-- internal/adapters/sqlitestore: the tables of the store and its SQL statements. A table is the list of
-- its rows, the oldest first; an INSERT that meets a key of the table is refused, as SQLite does. A
-- column that holds JSON holds the value. Columns that no statement reads back are left out. `Trouble`
-- is the error that the database gives to the n-th step of a call for reasons of its own.
pub mod Cycles
pub mod Queries
pub mod Sync
pub mod Ops
pub mod Rows
pub mod Final
pub mod Backed
pub mod Outbox
pub mod Lasting
use plantops_edge_scale.Base.{
  ℕ, ◌+◌, ◌≤◌, ◌==◌, Bool, true, false, ◌&&◌, ◌||◌, not, String, str_eq, List, [], ◌∷◌, ◌++◌, map,
  Option, none, some, ℤ, is_some, codes_eq, if◌then◌else◌,
}
use plantops_edge_scale.Domain.Types.{Time, is_zero, Ticket, Override}
use plantops_edge_scale.Domain.Workflow.{CycleStatus, PassNumber}
use plantops_edge_scale.Domain.Cycle.{WeighPass, PassError, PairReason}
use plantops_edge_scale.Domain.WeighCycle.{WeighCycle}

-- weigh_passes, with UNIQUE(id) and UNIQUE(cycle_id, pass_number).
pub record PassRow : Type 0 where
  pub pass : WeighPass
  pub plate_key : List ℕ

-- weigh_cycles. `cycle` is the column cycle_json.
pub record CycleRow : Type 0 where
  pub id : String
  pub plate_key : List ℕ
  pub status : CycleStatus
  pub first_pass_id : String
  pub cycle : WeighCycle
  pub updated_at : Time

-- tickets. The column cycle_id is unique where it is not empty.
pub record TicketRow : Type 0 where
  pub ticket : Ticket
  pub cycle_id : String
  pub synced_at : Option Time

-- sync_queue, whose kind is always TICKET. `payload` is the column payload_json.
pub record SyncRow : Type 0 where
  pub id : ℕ
  pub entity_id : String
  pub payload : Ticket
  pub created_at : Time
  pub attempt_count : ℕ
  pub last_attempt : Option Time
  pub last_error : String
  pub next_attempt : Time
  pub acked_at : Option Time

-- station_state, a value for each of its two keys.
pub record Completion : Type 0 where
  pub ticket_id : String
  pub cycle_id : String
  pub completed_at : Time
  pub gross_kg : ℤ
  pub tare_kg : ℤ
  pub net_kg : ℤ

pub record Db : Type 0 where
  pub passes : List PassRow
  pub cycles : List CycleRow
  pub tickets : List TicketRow
  pub overrides : List (String × Override)  -- with the ticket's id
  pub sync : List SyncRow
  pub next_sync : ℕ  -- AUTOINCREMENT
  pub last_completed : Option Completion
  pub last_committed : Option (String × Time)

pub data StoreError : Type 0 where
  system constraint : String → StoreError
  no_rows no_cycle_id no_first_pass_id no_pass_id no_ticket_id no_second_pass : StoreError
  already_complete ambiguous : StoreError
  not_new not_callable not_called durable_not_called : CycleStatus → StoreError
  cycle_not_found : String → StoreError
  bad_first_pass : PassError → StoreError
  bad_pair : PairReason → StoreError

pub data Try {ℓ} (A : Type ℓ) : Type ℓ where
  ok : A → Try A
  err : StoreError → Try A

infixl 10 ◌>>=◌ ◌>>◌
abbrev pub ◌>>=◌ {ℓ κ} : {A : Type ℓ} {B : Type κ} → Try A → (A → Try B) → Try B
ok a >>= f = f a
err e >>= f = err e

abbrev pub ◌>>◌ {ℓ κ} : {A : Type ℓ} {B : Type κ} → Try A → Try B → Try B
r >> s = r >>= λ _. s

abbrev pub Trouble : Type 0
Trouble = ℕ → Option String

-- A step of which only the database's own trouble matters.
abbrev pub answer : Option String → Try (Unit {0})
answer none = ok tt
answer (some m) = err (system m)

-- `if test { return error }`
unfoldable pub refuse_if : Bool → StoreError → Try (Unit {0})
refuse_if true e = err e
refuse_if false e = ok tt

-- The end of a transaction: an error rolls back.
abbrev pub settle : Db → Try Db → Db × Option StoreError
settle db (ok db') = (db', none)
settle db (err e) = (db, some e)

-- A row of the table has the property.
unfoldable pub any {ℓ} : {A : Type ℓ} → (A → Bool) → List A → Bool
any p [] = false
any p (x ∷ xs) = p x || any p xs

abbrev same_number : PassNumber → PassNumber → Bool
same_number PassNumber.unset PassNumber.unset = true
same_number PassNumber.first PassNumber.first = true
same_number PassNumber.second PassNumber.second = true
same_number _ _ = false

abbrev pub same_pass : WeighPass → PassRow → Bool
same_pass p r =
    str_eq r.pass.id p.id
    || (str_eq r.pass.cycle_id p.cycle_id && same_number r.pass.number p.number)

-- insertPassTx
unfoldable pub insert_pass : Option String → List ℕ → WeighPass → Db → Try Db
unfolding refuse_if any
insert_pass t key p db = do
  refuse_if (str_eq p.id "" || str_eq p.cycle_id "") no_pass_id
  answer t
  refuse_if (any (same_pass p) db.passes) (constraint "weigh_passes")
  ok (record db { passes = db.passes ++ record { pass = p; plate_key = key } ∷ [] })

abbrev pub same_cycle : WeighCycle → CycleRow → Bool
same_cycle c r = str_eq r.id c.id || str_eq r.first_pass_id c.first_pass.id

-- insertCycleTx
unfoldable pub insert_cycle : Option String → Time → List ℕ → WeighCycle → Db → Try Db
unfolding refuse_if any
insert_cycle t now key c db = do
  answer t
  refuse_if (any (same_cycle c) db.cycles) (constraint "weigh_cycles")
  ok (record db {
    cycles =
        db.cycles
        ++ record {
          id = c.id;
          plate_key = key;
          status = c.status;
          first_pass_id = c.first_pass.id;
          cycle = c;
          updated_at = if is_zero c.queued_at then now else c.queued_at;
        }
          ∷ [];
  })

-- SELECT ... FROM weigh_cycles WHERE id=?
unfoldable pub find_row : String → List CycleRow → Option CycleRow
find_row id [] = none
find_row id (r ∷ rs) = let rest = find_row id rs in if str_eq r.id id then some r else rest

-- UPDATE weigh_cycles SET status=?, cycle_json=?, ... WHERE id=?
abbrev pub updated_row : WeighCycle → Time → CycleRow → CycleRow
updated_row c at r =
    if str_eq r.id c.id then record r { status = c.status; cycle = c; updated_at = at } else r

-- updateCycleTxNoCommit
unfoldable pub update_cycle : Option String → WeighCycle → Time → Db → Try Db
update_cycle t c at db = do answer t; ok (record db { cycles = map (updated_row c at) db.cycles })

abbrev pub found_or : String → Option CycleRow → Try CycleRow
found_or id none = err (cycle_not_found id)
found_or id (some r) = ok r

-- getCycleTx, with the error of its callers when there is no such row.
unfoldable pub get_cycle : Option String → String → Db → Try WeighCycle
unfolding find_row
get_cycle t id db = do answer t; r ← found_or id (find_row id db.cycles); ok r.cycle

abbrev pub status_of : Option CycleRow → Try CycleStatus
status_of none = err no_rows
status_of (some r) = ok r.status

-- SELECT status FROM weigh_cycles WHERE id=?
unfoldable pub durable_status : Option String → String → Db → Try CycleStatus
unfolding find_row
durable_status t id db = do answer t; status_of (find_row id db.cycles)

abbrev pub same_ticket : String → Ticket → TicketRow → Bool
same_ticket cycle_id t r =
    str_eq r.ticket.id t.id
    || (str_eq r.ticket.transaction_id t.transaction_id
        || (not (str_eq cycle_id "") && str_eq r.cycle_id cycle_id))

-- INSERT INTO tickets, with the value of the column cycle_id.
unfoldable pub insert_ticket : Option String → String → Ticket → Db → Try Db
unfolding refuse_if any
insert_ticket t cycle_id ticket db = do
  answer t
  refuse_if (any (same_ticket cycle_id ticket) db.tickets) (constraint "tickets")
  ok (record db {
    tickets =
        db.tickets
        ++ record { ticket = ticket; cycle_id = cycle_id; synced_at = ticket.synced_at } ∷ [];
  })

-- The trouble of a loop, the first that any of its INSERTs meets.
abbrev in_loop {ℓ} : {A : Type ℓ} → List A → Option String → Option String
in_loop [] t = none
in_loop (_ ∷ _) t = t

-- INSERT INTO overrides, once for each override of the ticket.
unfoldable pub insert_overrides : Option String → Ticket → Db → Try Db
insert_overrides t ticket db = do
  answer (in_loop ticket.overrides t)
  ok (record db { overrides = db.overrides ++ map (λ o. (ticket.id, o)) ticket.overrides })

-- INSERT INTO sync_queue
unfoldable pub enqueue : Option String → Ticket → Time → Db → Try Db
unfolding refuse_if any
enqueue t ticket now db = do
  answer t
  refuse_if (any (λ (r : SyncRow). str_eq r.entity_id ticket.id) db.sync) (constraint "sync_queue")
  ok (record db {
    sync =
        db.sync
        ++ record {
          id = db.next_sync;
          entity_id = ticket.id;
          payload = ticket;
          created_at = now;
          attempt_count = 0;
          last_attempt = none;
          last_error = "";
          next_attempt = now;
          acked_at = none;
        }
          ∷ [];
    next_sync = db.next_sync + 1;
  })
