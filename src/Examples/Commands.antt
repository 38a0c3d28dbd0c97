-- ===== src/Examples/Commands.antt =====
-- Output calls behind an audit that fails once.
use plantops_edge_scale.Base.{
  String, ◌≡◌, refl, true, List, [], ◌∷◌, Option, none, some, if◌then◌else◌,
}
use plantops_edge_scale.RemoteIo.{Command, light, barrier, safe_state, entry}
use plantops_edge_scale.RemoteIo.AuditedOutputs.{
  AuditedOutputs, Trace, OutputEvent, audit_failed, call_outputs, audited_command,
}
use plantops_edge_scale.RemoteIo.Gate.{IsGated, call_outputs-IsGated}

-- The disk is full until something else has happened.
abbrev full_first : Trace → OutputEvent → Option String
full_first [] e = some "disk full"
full_first (_ ∷ _) e = none

abbrev outputs : AuditedOutputs
outputs = record { inner = some (λ _ _. none); audit = some full_first }

abbrev commands : List Command
commands = light entry true ∷ barrier entry true ∷ safe_state ∷ []

refused_test : (audited_command outputs (light entry true) []).0 ≡ audit_failed "disk full" ∷ []
unfolding audited_command if◌then◌else◌
refused_test = refl

call_outputs-IsGated_example : IsGated (call_outputs outputs commands [])
call_outputs-IsGated_example = call_outputs-IsGated outputs commands [] tt
