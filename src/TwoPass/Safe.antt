-- ===== src/TwoPass/Safe.antt =====
-- The engine inside the workflow of two passes stays safe through all its calls.
use plantops_edge_scale.Base.{not, List, [], ◌∷◌, Option, none, some, if_intro}
use plantops_edge_scale.Domain.Types.{
  PositionSnapshot, RfidObservation, LprObservation, CameraEvidence,
}
use plantops_edge_scale.Domain.Workflow.{Transaction}
use plantops_edge_scale.Domain.Cycle.{is_b_to_a}
use plantops_edge_scale.Engine.Record.{Engine, EngineError}
use plantops_edge_scale.Engine.Handlers.{Input, reset_completed}
use plantops_edge_scale.Engine.Invariant.{SafeTx, step-SafeTx, reset_completed-SafeTx}
use plantops_edge_scale.TwoPass.{Station, Outside, Desk, try_bind_called, bind_on}
use plantops_edge_scale.TwoPass.Calls.{
  inner_step, finish_pass, learn_direction, logical, observe_position, observe_rfid, observe_lpr,
  observe_camera, pass_on, reset, after_reset,
}

-- The calls of the workflow, each with what it takes from outside.
pub data StationCall : Type 0 where
  position : Outside → PositionSnapshot → StationCall
  rfid : Outside → RfidObservation → StationCall
  lpr : Outside → LprObservation → StationCall
  camera : CameraEvidence → StationCall
  other : Outside → Input → StationCall
  reset_call : Outside → StationCall

abbrev pub station_step : StationCall → Station → Station
station_step (position o p) w = observe_position o p w
station_step (rfid o x) w = observe_rfid o x w
station_step (lpr o x) w = observe_lpr o x w
station_step (camera e) w = (observe_camera e w).0
station_step (other o i) w = (pass_on o i w).0
station_step (reset_call o) w = (reset w).0

unfoldable pub run_calls : List StationCall → Station → Station
unfolding observe_position observe_rfid observe_lpr observe_camera pass_on reset
run_calls [] w = w
run_calls (c ∷ cs) w = run_calls cs (station_step c w)

abbrev pub SafeStation : Station → Type 0
SafeStation w = SafeTx w.inner.tx

bind-Safe :
    (o : Outside) (w : Station) (t : Option Transaction)
    → SafeStation w
    → SafeStation (bind_on o w t)
bind-Safe o w none h = h
bind-Safe o w (some t) h = if_intro SafeStation _ (λ _. h) (λ _. h)

try_bind-Safe : (o : Outside) (w : Station) → SafeStation w → SafeStation (try_bind_called o w)
unfolding try_bind_called
try_bind-Safe o w h =
    if_intro SafeStation (not (is_b_to_a w.direction)) (λ _. h) (λ _. bind-Safe o w w.inner.tx h)

finish-Safe :
    (o : Outside) (p : PositionSnapshot) (w : Station) (t : Option Transaction)
    → SafeStation w
    → SafeStation (finish_pass o p w t)
finish-Safe o p w none h = h
finish-Safe o p w (some t) h =
    if_intro SafeStation _ (λ _. reset_completed-SafeTx o.engine w.inner h) (λ _. h)

learn-Safe :
    (p : PositionSnapshot) (w : Station) → SafeStation w → SafeStation (learn_direction p w)
learn-Safe p w h = if_intro SafeStation _ (λ _. if_intro SafeStation _ (λ _. h) (λ _. h)) (λ _. h)

inner-Safe :
    (o : Outside) (i : Input) (w : Station) → SafeStation w → SafeStation (inner_step o i w).0
inner-Safe o i w h = step-SafeTx o.engine i _ h

after_reset-Safe :
    (w : Station) (r : Engine Desk × Option EngineError)
    → SafeTx r.0.tx
    → SafeStation (after_reset w r).0
after_reset-Safe w (e, some x) h = h
after_reset-Safe w (e, none) h = h

step-Safe : (c : StationCall) (w : Station) → SafeStation w → SafeStation (station_step c w)
unfolding observe_position observe_rfid observe_lpr observe_camera pass_on reset
step-Safe (position o p) w h =
    let done = finish-Safe o p w w.inner.tx h in
    let ready = learn_direction p (finish_pass o p w w.inner.tx) in
    let i = Input.position (logical ready.direction p) in
    try_bind-Safe o (inner_step o i ready).0
      (inner-Safe o i ready (learn-Safe p (finish_pass o p w w.inner.tx) done))
step-Safe (rfid o x) w h =
    try_bind-Safe o (inner_step o (Input.rfid x) w).0 (inner-Safe o (Input.rfid x) w h)
step-Safe (lpr o x) w h =
    try_bind-Safe o (inner_step o (Input.lpr x) w).0 (inner-Safe o (Input.lpr x) w h)
step-Safe (camera e) w h = h
step-Safe (other o i) w h = inner-Safe o i w h
step-Safe (reset_call o) w h =
    after_reset-Safe w (reset_completed w.inner) (reset_completed-SafeTx o.engine w.inner h)

pub run-Safe : (cs : List StationCall) (w : Station) → SafeStation w → SafeStation (run_calls cs w)
unfolding run_calls
run-Safe [] w h = h
run-Safe (c ∷ cs) w h = run-Safe cs (station_step c w) (step-Safe c w h)
