-- ===== src/Modbus.antt =====
-- internal/adapters/modbustcp/io.go and mapping.go: the remote I/O behind the controller's outputs, as
-- writes of single coils. The Modbus client is a parameter: `Client` gives the error of a write after
-- the writes before, the newest first. Texts that the code puts before the client's error are left out.
pub mod Signals
pub mod SafeState
pub mod Inputs
use plantops_edge_scale.Base.{
  ℕ, ◌==◌, Bool, true, false, ◌&&◌, String, List, [], ◌∷◌, Option, none, some, if◌then◌else◌,
}

-- Addresses are uint16.
pub record Mapping : Type 0 where
  pub entry_present : ℕ
  pub front_present : ℕ
  pub rear_present : ℕ
  pub exit_present : ℕ
  pub entry_barrier_open : ℕ
  pub entry_barrier_closed : ℕ
  pub exit_barrier_open : ℕ
  pub exit_barrier_closed : ℕ
  pub safety_clear : Option ℕ
  pub entry_red : ℕ
  pub entry_green : ℕ
  pub exit_red : ℕ
  pub exit_green : ℕ
  pub buzzer : ℕ
  pub entry_barrier_open_cmd : ℕ
  pub exit_barrier_open_cmd : ℕ

abbrev pub default_mapping : Mapping
default_mapping = record {
  entry_present = 0;
  front_present = 1;
  rear_present = 2;
  exit_present = 3;
  entry_barrier_open = 4;
  entry_barrier_closed = 5;
  exit_barrier_open = 6;
  exit_barrier_closed = 7;
  safety_clear = none;
  entry_red = 0;
  entry_green = 1;
  exit_red = 2;
  exit_green = 3;
  buzzer = 4;
  entry_barrier_open_cmd = 5;
  exit_barrier_open_cmd = 6;
}

abbrev pub Writes : Type 0
Writes = List (ℕ × Bool)

abbrev pub Client : Type 0
Client = Writes → ℕ → Bool → Option String

-- The writes so far, with the error of the last call.
abbrev pub Sent : Type 0
Sent = Writes × Option String

-- WriteSingleCoil.
abbrev pub write_coil : Client → ℕ → Bool → Writes → Sent
write_coil client addr v log = ((addr, v) ∷ log, client log addr v)

-- `if err := ...; err != nil { return err }`
unfoldable pub ◌after◌ : Sent → (Writes → Sent) → Sent
(log, some m) after k = (log, some m)
(log, none) after k = k log

infixl 5 ◌after◌
-- RED goes off before GREEN goes on, and GREEN off before RED on.
unfoldable pub set_signal : Client → ℕ → ℕ → Bool → Writes → Sent
unfolding ◌after◌
set_signal client red green true log =
    write_coil client red false log after write_coil client green true
set_signal client red green false log =
    write_coil client green false log after write_coil client red true

module _ (client : Client) (m : Mapping) where
  unfoldable pub set_entry_light : Bool → Writes → Sent
  unfolding set_signal
  set_entry_light = set_signal client m.entry_red m.entry_green

  unfoldable pub set_exit_light : Bool → Writes → Sent
  unfolding set_signal
  set_exit_light = set_signal client m.exit_red m.exit_green

  abbrev pub set_buzzer : Bool → Writes → Sent
  set_buzzer = write_coil client m.buzzer

  abbrev pub request_entry_barrier : Bool → Writes → Sent
  request_entry_barrier = write_coil client m.entry_barrier_open_cmd

  abbrev pub request_exit_barrier : Bool → Writes → Sent
  request_exit_barrier = write_coil client m.exit_barrier_open_cmd

  unfoldable pub safe_state : Writes → Sent
  unfolding set_entry_light set_exit_light
  safe_state log =
      set_buzzer false log
      after set_entry_light false
      after set_exit_light false
      after request_entry_barrier false
      after request_exit_barrier false
