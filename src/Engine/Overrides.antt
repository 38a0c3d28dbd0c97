-- ===== src/Engine/Overrides.antt =====
-- Which overrides the engine accepts.
use mathlib.Core.Path.{subst}
use plantops_edge_scale.Base.{
  sym, ◌≡◌, refl, true, false, ◌⊎◌, inl, inr, ◌↔◌, ◌≢◌, [], Option, none, some, ltb, str_eq, arith,
  if◌then◌else◌,
}
use plantops_edge_scale.Domain.Types.{Override}
use plantops_edge_scale.Domain.Workflow.{Transaction}
use plantops_edge_scale.Domain.Device
use plantops_edge_scale.Domain.Policy.{required_role_for_override, validate_override}
use plantops_edge_scale.Engine.Record.{Engine, Env, EngineError, lookup_fault, aux_fault_count}
use plantops_edge_scale.Engine.Handlers.{
  role_rank, is_overridden, is_overridable_fault, refuse_override, answer_override, override_on,
  authorize_override,
}

-- What an override needs: the active transaction, a device other than the scale, a reason, an
-- authorizer, evidence, an overridable fault, enough authority, and no override in force.
pub record IsAcceptable {S : Type 0} (e : Engine S) (o : Override) (t : Transaction) : Type 0 where
  pub for_transaction : str_eq o.transaction_id t.id ≡ true
  pub scoped : str_eq o.transaction_id "" ≡ false
  pub not_scale : str_eq o.device Device.scale ≡ false
  pub reasoned : str_eq o.reason "" ≡ false
  pub authorized : str_eq o.authorized_by "" ≡ false
  pub evidenced : o.evidence ≢ []
  pub faulty : is_overridable_fault (lookup_fault o.device e.faults) ≡ true
  pub ranked :
      ltb
        (role_rank o.authorized_as)
        (role_rank (required_role_for_override o.device (aux_fault_count e.faults)))
      ≡ false
  pub single : is_overridden o.device t.overrides ≡ false

abbrev IsWellFormed : Override → Type 0
IsWellFormed o =
    (str_eq o.transaction_id "" ≡ false)
    × (str_eq o.device Device.scale ≡ false)
    × (str_eq o.reason "" ≡ false)
    × (str_eq o.authorized_by "" ≡ false)
    × (o.evidence ≢ [])

validate-none_iff : (o : Override) → (validate_override o ≡ none) ↔ IsWellFormed o
unfolding validate_override if◌then◌else◌
validate-none_iff o = (λ h. ground arith, λ h. ground arith)

module _ {S : Type 0} (e : Engine S) (o : Override) (t : Transaction) where
  refuse-none : IsAcceptable e o t → refuse_override e o t ≡ none
  unfolding refuse_override if◌then◌else◌
  refuse-none h = ground (arith, (validate-none_iff o).1)

  accept-IsAcceptable : refuse_override e o t ≡ none → IsAcceptable e o t
  unfolding refuse_override if◌then◌else◌
  accept-IsAcceptable h = ground (arith, (validate-none_iff o).0)

module _ {S : Type 0} (env : Env) (e : Engine S) (o : Override) (t : Transaction)
    (active : e.tx ≡ some t) where
  -- With `t` active, an override is accepted, which is to say without an error, exactly when it is
  -- acceptable; one that is not acceptable leaves the engine as it was.
  pub override_accepted_iff :
      (((authorize_override env o e).1 ≡ none) ↔ IsAcceptable e o t)
      × (((authorize_override env o e).0 ≡ e) ⊎ IsAcceptable e o t)
  unfolding authorize_override override_on answer_override
  override_accepted_iff = (
    (λ h. accept-IsAcceptable e o t (ground arith), λ h. ground (arith, refuse-none e o t h)),
    subst (λ tx. ((override_on env o e tx).0 ≡ e) ⊎ IsAcceptable e o t) (sym active)
        (answered (refuse_override e o t) refl),
  )
    where
      answered :
          (r : Option EngineError)
          → refuse_override e o t ≡ r
          → ((answer_override env o e t r).0 ≡ e) ⊎ IsAcceptable e o t
      answered (some x) h = inl refl
      answered none h = inr (accept-IsAcceptable e o t h)
