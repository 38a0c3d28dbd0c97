-- ===== src/Domain/State.antt =====
-- Equality tests on workflow states, as the source writes them: `s == StateComplete` and so on.
use plantops_edge_scale.Base.{Bool, true, false}
use plantops_edge_scale.Domain.Workflow.{
  WorkflowState, approach, identifying, identity_mismatch, entry_authorized, entering,
  ready_to_weigh, weighing, exit_authorized, exiting, complete, fault_lockout,
}

abbrev pub is_complete : WorkflowState → Bool
is_complete complete = true
is_complete _ = false

abbrev pub is_lockout : WorkflowState → Bool
is_lockout fault_lockout = true
is_lockout _ = false

abbrev pub is_entry_authorized : WorkflowState → Bool
is_entry_authorized entry_authorized = true
is_entry_authorized _ = false

abbrev pub is_exit_authorized : WorkflowState → Bool
is_exit_authorized exit_authorized = true
is_exit_authorized _ = false

abbrev pub is_exiting : WorkflowState → Bool
is_exiting exiting = true
is_exiting _ = false

abbrev pub is_ready_to_weigh : WorkflowState → Bool
is_ready_to_weigh ready_to_weigh = true
is_ready_to_weigh _ = false

abbrev pub is_weighing : WorkflowState → Bool
is_weighing weighing = true
is_weighing _ = false

abbrev pub is_identity_mismatch : WorkflowState → Bool
is_identity_mismatch identity_mismatch = true
is_identity_mismatch _ = false

-- s == StateApproach || s == StateIdentifying
abbrev pub is_identifying : WorkflowState → Bool
is_identifying approach = true
is_identifying identifying = true
is_identifying _ = false

-- s == StateEntering || s == StateEntryAuthorized
abbrev pub is_entering : WorkflowState → Bool
is_entering entering = true
is_entering entry_authorized = true
is_entering _ = false
