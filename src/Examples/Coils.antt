-- ===== src/Examples/Coils.antt =====
-- The documented address map, with a client that refuses its third write and one that refuses none.
use plantops_edge_scale.Base.{
  ℕ, ◌==◌, ◌≡◌, refl, Bool, true, false, [], ◌∷◌, none, some, arith, if◌then◌else◌,
}
use plantops_edge_scale.Domain.Types.{PositionSnapshot}
use plantops_edge_scale.RemoteIo.{inputs}
use plantops_edge_scale.Modbus.{
  default_mapping, Client, set_signal, set_entry_light, set_exit_light, safe_state, ◌after◌,
}
use plantops_edge_scale.Modbus.Signals.{coil, Exclusive, AllOff, set_signal-Exclusive}
use plantops_edge_scale.Modbus.SafeState.{safe_state_drops}
use plantops_edge_scale.Modbus.Inputs.{
  Answer, bits, span, block, read_bits, read_inputs, read_inputs_exact,
}

abbrev fragile : Client
fragile (_ ∷ _ ∷ []) addr v = some "timeout"
fragile log addr v = none

abbrev reliable_client : Client
reliable_client log addr v = none

abbrev all_off : ℕ → Bool
all_off a = false

set_signal-Exclusive_example :
    Exclusive fragile all_off 0 1 (set_signal fragile 0 1 true ((4, false) ∷ [])).0
unfolding Exclusive coil if◌then◌else◌
set_signal-Exclusive_example =
    set_signal-Exclusive fragile all_off 0 1 true ((4, false) ∷ []) (omega arith) (refl, refl)

safe_state_drops_example :
    AllOff reliable_client all_off
      (6 ∷ 5 ∷ 3 ∷ 1 ∷ 4 ∷ [])
      (safe_state reliable_client default_mapping []).0
unfolding safe_state set_entry_light set_exit_light set_signal ◌after◌
safe_state_drops_example =
    safe_state_drops reliable_client all_off default_mapping [] (omega arith, (omega arith, tt))
      (omega arith, (omega arith, (omega arith, tt))) refl

abbrev third_on : ℕ → Bool
third_on a = a == 3

abbrev network : ℕ → ℕ → Answer
network lo n = bits (block third_on lo n)

read_inputs_exact_example :
    (p : PositionSnapshot) × (read_inputs (read_bits network) 1000 default_mapping ≡ inputs p)
    × (p.entry_present ≡ third_on default_mapping.entry_present)
    × (p.front_present ≡ third_on default_mapping.front_present)
    × (p.rear_present ≡ third_on default_mapping.rear_present)
    × (p.exit_present ≡ third_on default_mapping.exit_present)
    × (p.entry_barrier_open ≡ third_on default_mapping.entry_barrier_open)
    × (p.entry_barrier_closed ≡ third_on default_mapping.entry_barrier_closed)
    × (p.exit_barrier_open ≡ third_on default_mapping.exit_barrier_open)
    × (p.exit_barrier_closed ≡ third_on default_mapping.exit_barrier_closed)
    × (default_mapping.safety_clear ≡ none → p.safety_clear ≡ false)
    × ((a : ℕ) → default_mapping.safety_clear ≡ some a → p.safety_clear ≡ third_on a)
    × (p.observed ≡ 1000)
unfolding span if◌then◌else◌
read_inputs_exact_example =
    read_inputs_exact third_on network 1000 default_mapping (λ _ _. refl) (omega arith)
