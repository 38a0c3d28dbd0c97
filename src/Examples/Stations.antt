-- ===== src/Examples/Stations.antt =====
-- A truck that comes back to the station from the exit side.
use plantops_edge_scale.Base.{true, false, [], ◌∷◌, List, none, some, pos}
use plantops_edge_scale.Domain.Workflow.{Direction}
use plantops_edge_scale.Domain.Types.{PositionSnapshot}
use plantops_edge_scale.Engine.Record.{Engine}
use plantops_edge_scale.TwoPass.{Station, Outside}
use plantops_edge_scale.TwoPass.Calls.{observe_position, station_snapshot}
use plantops_edge_scale.TwoPass.Safe.{StationCall}
use plantops_edge_scale.TwoPass.Dark.{Dark}
use plantops_edge_scale.TwoPass.Sides.{Shows, observe_position-Shows}
use plantops_edge_scale.Examples.Passes.{noon, registry, sensors}
use plantops_edge_scale.Examples.Cycles.{env_now, coordinator, new_db}

abbrev outside : Outside
outside = record {
  engine = noon;
  cycles = env_now;
  coordinator = coordinator;
  describe = λ _. "refused";
  blocked = λ _. "blocked";
}

abbrev station : Station
station = record {
  inner = record {
    cfg = record {
      station_id = "EDGE-01";
      empty_scale_max_kg = pos 500;
      min_stable_weight_kg = pos 500;
      stable_confirmations = pos 2;
      stable_tolerance_kg = pos 0;
    };
    tickets = none;
    registry = some registry;
    store = record { direction = Direction.unset; outcomes = []; evidence = []; db = new_db };
    tx = none;
    last_scale = none;
    faults = [];
    stable_base = none;
  };
  direction = Direction.unset;
  bound = none;
}

-- The physical exit sensor sees the truck.
abbrev at_exit : PositionSnapshot
at_exit = sensors false false false true

abbrev returning : List StationCall
returning = StationCall.position outside at_exit ∷ []

observe_position-Shows_example :
    Shows at_exit (station_snapshot outside (observe_position outside at_exit station)).transaction
observe_position-Shows_example = observe_position-Shows outside outside at_exit station
