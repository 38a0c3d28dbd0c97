-- ===== src/Examples/Regressions.antt =====
-- Concrete transactions on which the engine goes back or loses its lockout mode.
use plantops_edge_scale.Base.{
  ◌≡◌, refl, true, false, String, List, [], ◌∷◌, some, pos, codes_eq, if◌then◌else◌, trim_space,
  equal_fold, sub64,
}
use plantops_edge_scale.Domain.Types.{Fault, Ticket, Health, Mode}
use plantops_edge_scale.Domain.Device
use plantops_edge_scale.Domain.Workflow.{Transaction, exiting, entry_authorized, fault_lockout}
use plantops_edge_scale.Engine.Record.{Engine, lookup_fault, sync_fault_slice, update_mode}
use plantops_edge_scale.Engine.Identity.{
  normalize_plate, abs64, evaluate_identity, check_both, cross_check, try_authorize_entry,
  authorize_on,
}
use plantops_edge_scale.Engine.Position.{evaluate_position}
use plantops_edge_scale.Engine.Handlers.{rfid_step, fault_step}
use plantops_edge_scale.Examples.Passes.{
  noon, tag_read, plate_read, sensors, idle_engine, arrived, locked, locked_engine,
}

abbrev leaving : Transaction
leaving = record arrived {
  state = exiting;
  lpr = plate_read;
  rfid = tag_read;
  position_snapshot = sensors false false false true;
}

abbrev leaving_engine : Engine (List Ticket)
leaving_engine = record idle_engine {
  tx = some leaving;
  last_scale = some (record {
    reading = record {
      weight_kg = pos 20;
      stable = true;
      overload = false;
      fault = "";
      health = Health.healthy;
      observed = 1000;
    };
    raw_ref = record { seq = 9; hash = "beef" };
  });
}

reread_test :
    ((rfid_step noon leaving_engine tag_read leaving).state ≡ entry_authorized)
    × ((rfid_step noon leaving_engine tag_read leaving).outputs.entry_barrier_open ≡ true)
unfolding rfid_step evaluate_identity check_both cross_check try_authorize_entry authorize_on
    normalize_plate codes_eq trim_space equal_fold lookup_fault if◌then◌else◌ abs64 sub64
reread_test = (refl, refl)

abbrev sensor_out : String → Fault
sensor_out d = record {
  device = d;
  health = Health.disconnected;
  reason = "no signal";
  overridable = true;
  critical = false;
}

abbrev blind_engine : Engine (List Ticket)
blind_engine = record locked_engine {
  faults = sensor_out Device.front_sensor ∷ sensor_out Device.rear_sensor ∷ [];
}

mode_test :
    ((fault_step noon blind_engine (sensor_out Device.rear_sensor) locked).state ≡ fault_lockout)
    × ((fault_step noon blind_engine (sensor_out Device.rear_sensor) locked).mode ≡ Mode.manual)
unfolding fault_step evaluate_identity evaluate_position sync_fault_slice update_mode lookup_fault
    if◌then◌else◌
mode_test = (refl, refl)
