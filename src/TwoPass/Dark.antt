-- ===== src/TwoPass/Dark.antt =====
-- A vehicle that returns without a called cycle sees no green light and no open barrier.
use plantops_edge_scale.Base.{◌≡◌, true, Option, none, some, if◌then◌else◌}
use plantops_edge_scale.Domain.Workflow.{Direction, no_outputs, Transaction, is_identity_accepted}
use plantops_edge_scale.Domain.State
use plantops_edge_scale.Domain.WeighCycle.{WeighCycle}
use plantops_edge_scale.Domain.Cycle.{is_b_to_a}
use plantops_edge_scale.TwoPass.{swap_outputs}
use plantops_edge_scale.TwoPass.Calls.{show_bound}

-- What the view shows of a transaction before it stops an unpaired return.
abbrev Same : Direction → Transaction → Transaction → Type 0
Same d t u =
    (u.state ≡ t.state)
    × ((u.identity ≡ t.identity)
        × (u.outputs ≡ (if is_b_to_a d then swap_outputs t.outputs else t.outputs)))

module _ (d : Direction) (t : Transaction) where
  abbrev Kept : Transaction → Type 0
  Kept = Same d t

  show_bound-Same : (b : Option WeighCycle) (u : Transaction) → Kept u → Kept (show_bound b u)
  show_bound-Same none u h = h
  show_bound-Same (some c) u h = h

abbrev Lit : Transaction → Type 0
Lit x = is_identity_accepted x.identity ≡ true → x.outputs ≡ no_outputs

abbrev pub Dark : Option Transaction → Type 0
Dark none = Unit
Dark (some x) = Lit x
