-- ===== src/Store/Queries.antt =====
-- internal/adapters/sqlitestore/cycle_store.go: the operations that only read weighing cycles.
use plantops_edge_scale.Base.{
  ℕ, Bool, true, false, ◌&&◌, ◌||◌, not, String, str_eq, List, [], ◌∷◌, Option, none, some,
  codes_eq, if◌then◌else◌,
}
use plantops_edge_scale.Domain.WeighCycle.{WeighCycle, is_called, is_queued}
use plantops_edge_scale.Store.{Db, CycleRow, ambiguous, Try, ok, err, ◌>>◌, answer, find_row}
use plantops_edge_scale.Store.Cycles.{Call, vehicle_key}

-- The loop of FindCalledCycle over its rows; `match` is the cycle met so far.
unfoldable pub pick_match : String → Option WeighCycle → List CycleRow → Try (Option WeighCycle)
pick_match rfid found [] = ok found
pick_match rfid found (r ∷ rs) =
    let skip = pick_match rfid found rs in
    let take = pick_match rfid (some r.cycle) rs in
    if not (str_eq rfid "") && (not (str_eq r.cycle.rfid "") && not (str_eq r.cycle.rfid rfid))
    then skip
    else elim found [ none ↦ take | some _ ↦ err ambiguous ]

-- WHERE status='CALLED' AND plate_key=?
unfoldable pub called_rows : List ℕ → List CycleRow → List CycleRow
unfolding codes_eq
called_rows key [] = []
called_rows key (r ∷ rs) =
    let rest = called_rows key rs in
    if is_called r.status && codes_eq r.plate_key key then r ∷ rest else rest

abbrev is_no_key : List ℕ → Bool
is_no_key [] = true
is_no_key (_ ∷ _) = false

-- FindCalledCycle. Its ORDER BY has no effect: two matches are refused.
unfoldable pub find_called_cycle : Call → String → String → Db → Try (Option WeighCycle)
unfolding called_rows pick_match
find_called_cycle env plate rfid db = if is_no_key (vehicle_key env plate) then ok none else (do
  answer (env.trouble 0)
  pick_match rfid none (called_rows (vehicle_key env plate) db.cycles))

abbrev row_cycle : Option CycleRow → Option WeighCycle
row_cycle none = none
row_cycle (some r) = some r.cycle

-- GetCycle
unfoldable pub get_one : Call → String → Db → Try (Option WeighCycle)
unfolding find_row
get_one env id db = do answer (env.trouble 0); ok (row_cycle (find_row id db.cycles))

abbrev pub cycles_of : List CycleRow → List WeighCycle
cycles_of [] = []
cycles_of (r ∷ rs) = r.cycle ∷ cycles_of rs

-- WHERE status IN ('QUEUED','CALLED')
unfoldable pub waiting_rows : List CycleRow → List CycleRow
waiting_rows [] = []
waiting_rows (r ∷ rs) =
    let rest = waiting_rows rs in
    if is_queued r.status || is_called r.status then r ∷ rest else rest

-- ListQueue, where `order` is what SQLite makes of its ORDER BY.
unfoldable pub list_queue : (List CycleRow → List CycleRow) → Call → Db → Try (List WeighCycle)
unfolding waiting_rows
list_queue order env db = do answer (env.trouble 0); ok (cycles_of (order (waiting_rows db.cycles)))
