-- ===== src/Domain/Policy.antt =====
-- internal/domain/policy.go: the operating mode that a set of faults allows, and overrides.
use plantops_edge_scale.Base.{
  Bool, true, false, ◌||◌, not, List, [], ◌∷◌, ◌++◌, Option, none, some, str_eq, if◌then◌else◌, ℕ,
  ltb,
}
use plantops_edge_scale.Domain.Types.{
  ScaleReading, Fault, Override, Mode, Role, DeviceId, is_healthy,
}
use plantops_edge_scale.Domain.Device

-- The reasons of a decision, with the device that the message names.
pub data DecisionReason : Type 0 where
  scale_unavailable scale_not_overridable several_auxiliary : DecisionReason
  critical_device auxiliary_device : DeviceId → DecisionReason

pub record Decision : Type 0 where
  pub mode : Mode
  pub reasons : List DecisionReason
  pub required_role : Option Role

-- r.Health != HealthHealthy || r.Fault != "" || r.Overload
abbrev pub is_unhealthy : ScaleReading → Bool
is_unhealthy r = not (is_healthy r.health) || (not (str_eq r.fault "") || r.overload)

-- f.Critical || !f.Overridable
abbrev pub is_blocking : Fault → Bool
is_blocking f = f.critical || not f.overridable

-- The `switch len(aux)`.
mode_of_aux : List Fault → Decision
mode_of_aux [] = record { mode = Mode.normal; reasons = []; required_role = none }
mode_of_aux (f ∷ []) = record {
  mode = Mode.degraded;
  reasons = DecisionReason.auxiliary_device f.device ∷ [];
  required_role = some Role.operator;
}
mode_of_aux (f ∷ g ∷ rest) = record {
  mode = Mode.manual;
  reasons = DecisionReason.several_auxiliary ∷ [];
  required_role = some Role.supervisor;
}

lockout_for : DecisionReason → Decision
lockout_for r = record { mode = Mode.lockout; reasons = r ∷ []; required_role = none }

-- The loop over the faults; `aux` holds the auxiliary ones met so far.
scan_faults : List Fault → List Fault → Decision
unfolding mode_of_aux lockout_for
scan_faults aux [] = mode_of_aux aux
scan_faults aux (f ∷ fs) =
    let rest = scan_faults (aux ++ f ∷ []) fs in
    if str_eq f.device Device.scale
    then lockout_for DecisionReason.scale_not_overridable
    else if is_blocking f
    then lockout_for (DecisionReason.critical_device f.device)
    else rest

unfoldable pub evaluate_mode : ScaleReading → List Fault → Decision
unfolding scan_faults
evaluate_mode scale faults =
    if is_unhealthy scale
    then lockout_for DecisionReason.scale_unavailable
    else scan_faults [] faults

unfoldable pub required_role_for_override : DeviceId → ℕ → Role
required_role_for_override device aux =
    if ltb 1 aux
      || (str_eq device Device.entry_barrier
          || (str_eq device Device.exit_barrier || str_eq device Device.physical_safety))
    then Role.supervisor
    else Role.operator

pub data OverrideError : Type 0 where
  not_scoped scale_forbidden no_reason no_authorization no_evidence : OverrideError

is_empty {ℓ} : {A : Type ℓ} → List A → Bool
is_empty [] = true
is_empty (_ ∷ _) = false

unfoldable pub validate_override : Override → Option OverrideError
unfolding is_empty
validate_override o =
    if str_eq o.transaction_id ""
    then some OverrideError.not_scoped
    else if str_eq o.device Device.scale
    then some OverrideError.scale_forbidden
    else if str_eq o.reason ""
    then some OverrideError.no_reason
    else if str_eq o.authorized_by ""
    then some OverrideError.no_authorization
    else if is_empty o.evidence
    then some OverrideError.no_evidence
    else none
