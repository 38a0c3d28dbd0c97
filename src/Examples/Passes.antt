-- ===== src/Examples/Passes.antt =====
-- One pass of a truck through the engine, and the engine's theorems along it.
use plantops_edge_scale.Base.{
  ℕ, ◌≡◌, refl, Bool, true, false, String, List, [], ◌∷◌, ◌⊎◌, ◌↔◌, Option, none, some, pos, negsuc,
  ascii, arith, str_eq, Has, inl, inr,
}
use plantops_edge_scale.Domain.Types.{
  PositionSnapshot, RfidObservation, LprObservation, Fault, Override, Ticket, Health, Mode, Role,
}
use plantops_edge_scale.Domain.Device
use plantops_edge_scale.Domain.Workflow.{Transaction, fault_lockout, VehicleIdentity}
use plantops_edge_scale.Engine.Record.{Engine, Env, Resolution, unknown, found, fresh_transaction}
use plantops_edge_scale.Engine.Identity.{abs64}
use plantops_edge_scale.Engine.Handlers.{
  Input, position, rfid, lpr, scale, step, run, authorize_override,
}
use plantops_edge_scale.Engine.Committed.{Durable, Committed, run-Committed}
use plantops_edge_scale.Engine.Lockout.{Frozen, lockout_is_final}
use plantops_edge_scale.Engine.Interlock.Barrier.{
  is_open, GuardedTx, entry_barrier_guarded, abs64_exact,
}
use plantops_edge_scale.Engine.Overrides.{IsAcceptable, override_accepted_iff}

abbrev pub noon : Env
noon = record { now = 1000; fresh = "id-1"; unicode = ascii }

abbrev pub truck : VehicleIdentity
truck = record { rfid_tag = "RFID-1"; plate = "15C-123.45" }

-- The registry knows one tag, and the store keeps every ticket.
abbrev pub registry : String → Resolution
registry tag = elim (str_eq tag "RFID-1") [ true ↦ found truck | false ↦ unknown ]

abbrev keep : Ticket → List Ticket → Option String × List Ticket
keep t ts = (none, t ∷ ts)

abbrev pub idle_engine : Engine (List Ticket)
idle_engine = record {
  cfg = record {
    station_id = "EDGE-01";
    empty_scale_max_kg = pos 500;
    min_stable_weight_kg = pos 500;
    stable_confirmations = pos 2;
    stable_tolerance_kg = pos 0;
  };
  tickets = some keep;
  registry = some registry;
  store = [];
  tx = none;
  last_scale = none;
  faults = [];
  stable_base = none;
}

abbrev pub weight : ℕ → Input
weight kg = scale (record {
  reading = record {
    weight_kg = pos kg;
    stable = true;
    overload = false;
    fault = "";
    health = Health.healthy;
    observed = 1000;
  };
  raw_ref = record { seq = 7; hash = "c0ffee" };
})

abbrev pub sensors : Bool → Bool → Bool → Bool → PositionSnapshot
sensors entry front rear exit = record {
  entry_present = entry;
  front_present = front;
  rear_present = rear;
  exit_present = exit;
  entry_barrier_open = false;
  entry_barrier_closed = false;
  exit_barrier_open = false;
  exit_barrier_closed = false;
  safety_clear = true;
  observed = 1000;
}

abbrev pub tag_read : RfidObservation
tag_read = record { tag = "RFID-1"; quality = 0; health = Health.healthy; observed = 1000 }

abbrev pub plate_read : LprObservation
plate_read = record {
  plate = "15c12345";
  confidence = 0;
  image_ref = "";
  health = Health.healthy;
  observed = 1000;
}

abbrev at_noon : Input → Env × Input
at_noon i = (noon, i)

abbrev whole_pass : List (Env × Input)
whole_pass =
    at_noon (weight 20)
    ∷ at_noon (position (sensors true false false false))
    ∷ at_noon (rfid tag_read)
    ∷ at_noon (lpr plate_read)
    ∷ at_noon (position (sensors false true false false))
    ∷ at_noon (position (sensors false true true false))
    ∷ at_noon (weight 28000)
    ∷ at_noon (weight 28000)
    ∷ at_noon (position (sensors false false true true))
    ∷ at_noon (position (sensors false false false false))
    ∷ []

-- The registry's truck has arrived, and its plate is the next thing to be read.
abbrev before_plate : Engine (List Ticket)
before_plate =
    run
      (at_noon (weight 20)
        ∷ at_noon (position (sensors true false false false))
        ∷ at_noon (rfid tag_read)
        ∷ [])
      idle_engine

-- The truck stands on the deck, and one stable reading has been counted.
abbrev before_ticket : Engine (List Ticket)
before_ticket =
    run
      (at_noon (weight 20)
        ∷ at_noon (position (sensors true false false false))
        ∷ at_noon (rfid tag_read)
        ∷ at_noon (lpr plate_read)
        ∷ at_noon (position (sensors false true false false))
        ∷ at_noon (position (sensors false true true false))
        ∷ at_noon (weight 28000)
        ∷ [])
      idle_engine

-- A list of tickets holds those in it.
abbrev Listed : List Ticket → Ticket → Type 0
Listed s t = Has (λ u. u ≡ t) s

keep-Durable : Durable Listed idle_engine.tickets
keep-Durable = record { commits = λ t s _. inl refl; keeps = λ t u s h. inr h }

run-Committed_example : Committed Listed idle_engine.tickets (run whole_pass idle_engine)
run-Committed_example =
    run-Committed Listed idle_engine.tickets keep-Durable whole_pass idle_engine
      (record { has_store = refl; safe = tt; recorded = tt })

abbrev pub locked : Transaction
locked = record (fresh_transaction noon "EDGE-01" 900) {
  state = fault_lockout;
  mode = Mode.lockout;
}

abbrev pub locked_engine : Engine (List Ticket)
locked_engine = record idle_engine { tx = some locked }

lockout_is_final_example : Frozen "id-1" [] (run whole_pass locked_engine)
lockout_is_final_example =
    lockout_is_final whole_pass "id-1" [] locked_engine
      (record { tx_locked = record { same = refl; locked = refl; off = refl }; store_kept = refl })

entry_barrier_guarded_example :
    GuardedTx
      (is_open before_plate.tx)
      (step noon (lpr plate_read) before_plate).0.cfg.empty_scale_max_kg
      (step noon (lpr plate_read) before_plate).0.last_scale
      (step noon (lpr plate_read) before_plate).0.tx
entry_barrier_guarded_example = entry_barrier_guarded noon (lpr plate_read) before_plate

abs64_exact_example : abs64 (negsuc 4) ≡ pos 5
abs64_exact_example = abs64_exact (negsuc 4) (ground arith) (λ h. ground arith)

-- An RFID channel that is out, which an operator overrides.
abbrev pub rfid_out : Fault
rfid_out = record {
  device = Device.rfid;
  health = Health.disconnected;
  reason = "no antenna";
  overridable = true;
  critical = false;
}

abbrev manual_tag : Override
manual_tag = record {
  transaction_id = "id-1";
  device = Device.rfid;
  reason = "antenna replaced tomorrow";
  requested_by = "lan";
  authorized_by = "minh";
  authorized_as = Role.operator;
  authorized_at = 1000;
  evidence = "photo-1" ∷ [];
  expired_at = none;
}

abbrev pub arrived : Transaction
arrived = fresh_transaction noon "EDGE-01" 900

abbrev overriding : Engine (List Ticket)
overriding = record idle_engine { tx = some arrived; faults = rfid_out ∷ [] }

override_accepted_iff_example :
    (((authorize_override noon manual_tag overriding).1 ≡ none)
      ↔ IsAcceptable overriding manual_tag arrived)
    × (((authorize_override noon manual_tag overriding).0 ≡ overriding)
        ⊎ IsAcceptable overriding manual_tag arrived)
override_accepted_iff_example = override_accepted_iff noon overriding manual_tag arrived refl
