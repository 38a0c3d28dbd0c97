-- ===== src/Examples/Polls.antt =====
-- A controller at rest, and a poll that opens the entry barrier of a workflow that wants it open.
use plantops_edge_scale.Base.{◌≡◌, refl, true, false, inl, [], ◌∷◌, none, some, pos, if◌then◌else◌}
use plantops_edge_scale.Domain.Types.{PositionSnapshot}
use plantops_edge_scale.Domain.Workflow.{DesiredOutputs, no_outputs}
use plantops_edge_scale.RemoteIo.{
  reconcile, drop_green, command, confirm, entry, Plant, Workflow, Run, failed, inputs, poll, run,
  feedback_of, is_contradictory,
}
use plantops_edge_scale.RemoteIo.Replay.{Residue, acknowledged, Orderly}
use plantops_edge_scale.RemoteIo.Applied.{Sound, green_needs_feedback, run-Sound}

abbrev entry_wanted : DesiredOutputs
entry_wanted = record no_outputs { entry_green = true; buzzer = true; entry_barrier_open = true }

-- A workflow that is its desired outputs.
abbrev steady : Workflow DesiredOutputs
steady = record {
  desired = λ d. d;
  observe_position = λ p d. (none, d);
  observe_fault = λ f d. no_outputs;
  clear_fault = λ device d. d;
}

abbrev reliable : Plant
reliable log cmd = none

-- The plant refuses its very first command.
abbrev slow_start : Plant
slow_start [] cmd = some "timeout"
slow_start (_ ∷ _) cmd = none

abbrev barrier_open : PositionSnapshot
barrier_open = record {
  entry_present = true;
  front_present = false;
  rear_present = false;
  exit_present = false;
  entry_barrier_open = true;
  entry_barrier_closed = false;
  exit_barrier_open = false;
  exit_barrier_closed = true;
  safety_clear = true;
  observed = 2000;
}

abbrev at_rest : Run DesiredOutputs
at_rest = record {
  controller = record {
    buzzer_pulse = pos 0;
    barrier_feedback_timeout = pos 0;
    applied = no_outputs;
    last_buzzer_ready = false;
    buzzer_until = 0;
    entry_open_since = 0;
    exit_open_since = 0;
    safe_applied = false;
  };
  monitor = record {
    enabled = true;
    connected = false;
    last_input = none;
    desired = no_outputs;
    applied = no_outputs;
    last_success_at = 0;
    last_error_at = 0;
    last_error = "";
  };
  workflow = entry_wanted;
  log = [];
}

-- A command that fails may have switched everything on.
abbrev all_on : Residue
all_on log cmd = record {
  entry_green = true;
  exit_green = true;
  buzzer = true;
  entry_barrier_open = true;
  exit_barrier_open = true;
}

at_rest-Sound : (plant : Plant) (residue : Residue) → Sound plant residue at_rest
unfolding Orderly
at_rest-Sound plant residue = record { orderly = tt; agrees = inl refl }

run-Sound_example : Sound slow_start all_on (
    run steady slow_start
      ((1000, inputs barrier_open) ∷ (2000, failed "no route") ∷ (3000, inputs barrier_open) ∷ [])
      at_rest)
run-Sound_example =
    run-Sound steady slow_start all_on
      ((1000, inputs barrier_open) ∷ (2000, failed "no route") ∷ (3000, inputs barrier_open) ∷ [])
      at_rest (at_rest-Sound slow_start all_on)

green_needs_feedback_example :
    (feedback_of entry barrier_open ≡ true) × (is_contradictory entry barrier_open ≡ false)
unfolding poll if◌then◌else◌ reconcile drop_green command acknowledged confirm
green_needs_feedback_example =
    green_needs_feedback steady reliable all_on 1000 entry barrier_open at_rest
      (at_rest-Sound reliable all_on) refl refl refl
