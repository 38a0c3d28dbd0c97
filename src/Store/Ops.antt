-- ===== src/Store/Ops.antt =====
-- The writing operations of the store as one type, for what holds of all of them in any order.
use plantops_edge_scale.Base.{ℕ, String, List, [], ◌∷◌}
use plantops_edge_scale.Domain.Types.{Time, Ticket}
use plantops_edge_scale.Domain.Workflow.{CycleStatus}
use plantops_edge_scale.Domain.WeighCycle.{WeighCycle, CycleReason}
use plantops_edge_scale.Store.{Db, Try, settle}
use plantops_edge_scale.Store.Cycles.{Call, open_steps, call_steps, mark_steps, complete_steps}
use plantops_edge_scale.Store.Sync.{commit_steps, attempt_steps, ack_steps}

pub data Op : Type 0 where
  open_op : Call → WeighCycle → Op
  call_op : Call → String → Time → Op
  mark_op : Call → String → CycleStatus → CycleReason → Time → Op
  complete_op : Call → WeighCycle → Ticket → Op
  commit_op : Call → Ticket → Op
  attempt_op : Call → ℕ → String → Time → Op
  ack_op : Call → ℕ → Op

abbrev pub steps : Op → Db → Try Db
steps (Op.open_op env c) db = open_steps env c db
steps (Op.call_op env id at) db = call_steps env id at db
steps (Op.mark_op env id s reason at) db = mark_steps env id s reason at db
steps (Op.complete_op env c t) db = complete_steps env c t db
steps (Op.commit_op env t) db = commit_steps env t db
steps (Op.attempt_op env n error next) db = attempt_steps env n error next db
steps (Op.ack_op env n) db = ack_steps env n db

-- What is in the database after the operations, those that failed included.
unfoldable pub run_ops : List Op → Db → Db
unfolding open_steps call_steps mark_steps complete_steps commit_steps attempt_steps ack_steps
run_ops [] db = db
run_ops (o ∷ os) db = run_ops os (settle db (steps o db)).0
