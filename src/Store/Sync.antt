-- ===== src/Store/Sync.antt =====
-- internal/adapters/sqlitestore/store.go: the legacy commit of a ticket and the queue of tickets for the
-- central server.
use plantops_edge_scale.Base.{
  ℕ, suc, zero, ◌+◌, ◌==◌, Bool, true, ◌&&◌, ◌||◌, not, String, str_eq, List, [], ◌∷◌, map, Option,
  some, ℤ, pos, pos_part, leb_ℤ, ltb_ℤ, is_some, if◌then◌else◌,
}
use plantops_edge_scale.Domain.Types.{Time, Ticket}
use plantops_edge_scale.Domain.Workflow.{CycleStatus}
use plantops_edge_scale.Domain.WeighCycle.{is_called, is_queued, is_complete, is_unset}
use plantops_edge_scale.Store.{
  Db, CycleRow, TicketRow, SyncRow, StoreError, no_rows, Try, ok, err, ◌>>=◌, ◌>>◌, answer, settle,
  insert_ticket, insert_overrides, enqueue,
}
use plantops_edge_scale.Store.Cycles.{Call, or_time}

-- Commit: the column cycle_id keeps its default, the empty text.
unfoldable pub commit_steps : Call → Ticket → Db → Try Db
unfolding insert_ticket insert_overrides enqueue
commit_steps env ticket db = do
  let now = or_time ticket.committed_at env.now
  answer (env.trouble 0)
  with_ticket ← insert_ticket (env.trouble 1) "" ticket db
  with_overrides ← insert_overrides (env.trouble 2) ticket with_ticket
  with_sync ← enqueue (env.trouble 3) ticket now with_overrides
  answer (env.trouble 4)
  answer (env.trouble 5)
  ok (record with_sync { last_committed = some (ticket.id, now) })

abbrev pub commit : Call → Ticket → Db → Db × Option StoreError
commit env ticket db = settle db (commit_steps env ticket db)

unfoldable pub take {ℓ} : {A : Type ℓ} → ℕ → List A → List A
take zero xs = []
take (suc n) [] = []
take (suc n) (x ∷ xs) = x ∷ take n xs

-- WHERE acked_at IS NULL
unfoldable pub pending : List SyncRow → List SyncRow
pending [] = []
pending (r ∷ rs) = let rest = pending rs in if is_some r.acked_at then rest else r ∷ rest

abbrev pub sync_limit : ℤ → ℕ
sync_limit n = if leb_ℤ n (pos 0) || ltb_ℤ (pos 1000) n then 100 else pos_part n

-- PendingSync; the rows stand in the order of their ids.
unfoldable pub pending_sync : Call → ℤ → Db → Try (List SyncRow)
unfolding pending take
pending_sync env limit db = do
  answer (env.trouble 0)
  ok (take (sync_limit limit) (pending db.sync))

-- UPDATE ... WHERE id=? AND acked_at IS NULL
abbrev pub attempted : ℕ → String → Time → Time → SyncRow → SyncRow
attempted id error now next r =
    if (r.id == id) && not (is_some r.acked_at)
    then record r {
      attempt_count = r.attempt_count + 1;
      last_attempt = some now;
      last_error = error;
      next_attempt = next;
    }
    else r

-- MarkSyncAttempt
unfoldable pub attempt_steps : Call → ℕ → String → Time → Db → Try Db
attempt_steps env id error next db = do
  answer (env.trouble 0)
  ok (record db { sync = map (attempted id error env.now (or_time next env.now)) db.sync })

abbrev pub mark_sync_attempt : Call → ℕ → String → Time → Db → Db × Option StoreError
mark_sync_attempt env id error next db = settle db (attempt_steps env id error next db)

-- SELECT entity_id FROM sync_queue WHERE id=?
unfoldable pub entity_of : ℕ → List SyncRow → Try String
entity_of id [] = err no_rows
entity_of id (r ∷ rs) = let rest = entity_of id rs in if r.id == id then ok r.entity_id else rest

abbrev pub acked : ℕ → Time → SyncRow → SyncRow
acked id now r = if r.id == id then record r { acked_at = some now; last_error = "" } else r

abbrev pub synced : String → Time → TicketRow → TicketRow
synced entity now r = if str_eq r.ticket.id entity then record r { synced_at = some now } else r

-- AckSync
unfoldable pub ack_steps : Call → ℕ → Db → Try Db
unfolding entity_of
ack_steps env id db = do
  answer (env.trouble 0)
  answer (env.trouble 1)
  entity ← entity_of id db.sync
  answer (env.trouble 2)
  answer (env.trouble 3)
  answer (env.trouble 4)
  ok (record db {
    sync = map (acked id env.now) db.sync;
    tickets = map (synced entity env.now) db.tickets;
  })

abbrev pub ack_sync : Call → ℕ → Db → Db × Option StoreError
ack_sync env id db = settle db (ack_steps env id db)

-- SELECT COUNT(*) ... WHERE
unfoldable pub count_if {ℓ} : {A : Type ℓ} → (A → Bool) → List A → ℕ
count_if p [] = 0
count_if p (x ∷ xs) = let rest = count_if p xs in if p x then suc rest else rest

abbrev is_orphan : CycleStatus → Bool
is_orphan s = not (is_unset s) && (not (is_queued s) && (not (is_called s) && not (is_complete s)))

-- The counts of Status.
pub record Status : Type 0 where
  pub tickets : ℕ
  pub overrides : ℕ
  pub pending_sync : ℕ
  pub queued_cycles : ℕ
  pub called_cycles : ℕ
  pub completed_cycles : ℕ
  pub orphan_cycles : ℕ

unfoldable pub status : Db → Status
unfolding count_if
status db = record {
  tickets = count_if (λ _. true) db.tickets;
  overrides = count_if (λ _. true) db.overrides;
  pending_sync = count_if (λ (r : SyncRow). not (is_some r.acked_at)) db.sync;
  queued_cycles = count_if (λ (r : CycleRow). is_queued r.status) db.cycles;
  called_cycles = count_if (λ (r : CycleRow). is_called r.status) db.cycles;
  completed_cycles = count_if (λ (r : CycleRow). is_complete r.status) db.cycles;
  orphan_cycles = count_if (λ (r : CycleRow). is_orphan r.status) db.cycles;
}
