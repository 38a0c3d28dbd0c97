-- ===== src/RemoteIo.antt =====
-- internal/runtimeio/controller.go: the controller that polls the remote inputs and drives the
-- outputs that the workflow wants. The two sides of the scale have the same code in the source, once
-- for entry and once for exit; here it takes the side. `Plant` says which error a command meets, from
-- the commands sent before it. A poll reads the clock once.
-- The nil tests of Run, its ticker and String are left out.
pub mod AuditedOutputs
pub mod Gate
pub mod Replay
pub mod Order
pub mod Applied
pub mod Buzzer
pub mod Converges
use plantops_edge_scale.Base.{
  ℕ, ◌+◌, ◌==◌, ◌≡◌, Bool, true, false, ◌&&◌, ◌||◌, not, ltb, leb_ℤ, ltb_ℤ, ℤ, pos, pos_part,
  String, str_append, List, [], ◌∷◌, Option, none, some, if◌then◌else◌, differs,
}
use plantops_edge_scale.Domain.Types.{Time, is_zero, PositionSnapshot, Fault, DeviceId, Health}
use plantops_edge_scale.Domain.Device
use plantops_edge_scale.Domain.Workflow.{DesiredOutputs, no_outputs}
use plantops_edge_scale.Domain.Cycle.{Duration, time_sub}

pub data Side : Type 0 where
  entry exit : Side

pub data Command : Type 0 where
  safe_state : Command
  light barrier : Side → Bool → Command
  buzzer : Bool → Command

abbrev pub green_of : Side → DesiredOutputs → Bool
green_of entry o = o.entry_green
green_of exit o = o.exit_green

abbrev pub open_of : Side → DesiredOutputs → Bool
open_of entry o = o.entry_barrier_open
open_of exit o = o.exit_barrier_open

-- The physical OPEN feedback.
abbrev pub feedback_of : Side → PositionSnapshot → Bool
feedback_of entry p = p.entry_barrier_open
feedback_of exit p = p.exit_barrier_open

-- The outputs after a command that the plant has carried out.
abbrev pub effect : Command → DesiredOutputs → DesiredOutputs
effect safe_state o = no_outputs
effect (light entry b) o = record o { entry_green = b }
effect (light exit b) o = record o { exit_green = b }
effect (barrier entry b) o = record o { entry_barrier_open = b }
effect (barrier exit b) o = record o { exit_barrier_open = b }
effect (buzzer b) o = record o { buzzer = b }

-- The error that the plant gives to a command, after those sent before, the newest first.
abbrev pub Plant : Type 0
Plant = List Command → Command → Option String

-- What the controller calls of the workflow: the outputs of its active transaction, and the reports.
pub record Workflow (W : Type 0) : Type 0 where
  pub desired : W → DesiredOutputs
  pub observe_position : PositionSnapshot → W → Option String × W
  pub observe_fault : Fault → W → W
  pub clear_fault : DeviceId → W → W

pub record Status : Type 0 where
  pub enabled : Bool
  pub connected : Bool
  pub last_input : Option PositionSnapshot
  pub desired : DesiredOutputs
  pub applied : DesiredOutputs
  pub last_success_at : Time
  pub last_error_at : Time
  pub last_error : String

pub record Controller : Type 0 where
  pub buzzer_pulse : Duration
  pub barrier_feedback_timeout : Duration
  pub applied : DesiredOutputs
  pub last_buzzer_ready : Bool
  pub buzzer_until : Time
  pub entry_open_since : Time
  pub exit_open_since : Time
  pub safe_applied : Bool

-- The controller with its monitor, the workflow, and the commands sent so far, the newest first.
pub record Run (W : Type 0) : Type 0 where
  pub controller : Controller
  pub monitor : Status
  pub workflow : W
  pub log : List Command

-- What ReadInputs gives.
pub data Reading : Type 0 where
  failed : String → Reading
  inputs : PositionSnapshot → Reading

abbrev pub Outcome : Type 0 → Type 0
Outcome W = Run W × Option String

-- `if err := ...; err != nil { return err }`
unfoldable pub ◌and_then◌ : {W : Type 0} → Outcome W → (Run W → Outcome W) → Outcome W
(r, some m) and_then k = (r, some m)
(r, none) and_then k = k r

infixl 5 ◌and_then◌
abbrev since_of : Side → Controller → Time
since_of entry c = c.entry_open_since
since_of exit c = c.exit_open_since

abbrev with_since : Side → Time → Controller → Controller
with_since entry t c = record c { entry_open_since = t }
with_since exit t c = record c { exit_open_since = t }

abbrev pulse : Controller → Duration
pulse c = if leb_ℤ c.buzzer_pulse (pos 0) then pos 700000000 else c.buzzer_pulse

abbrev timeout : Controller → Duration
timeout c =
    if leb_ℤ c.barrier_feedback_timeout (pos 0) then pos 5000000000 else c.barrier_feedback_timeout

abbrev barrier_device : Side → DeviceId
barrier_device entry = Device.entry_barrier
barrier_device exit = Device.exit_barrier

abbrev critical : DeviceId → Health → String → Fault
critical d h m = record { device = d; health = h; reason = m; overridable = false; critical = true }

abbrev no_confirmation : Side → String
no_confirmation entry = "entry barrier did not confirm OPEN before timeout"
no_confirmation exit = "exit barrier did not confirm OPEN before timeout"

abbrev contradictory : Side → String
contradictory entry = "contradictory entry barrier OPEN+CLOSED feedback"
contradictory exit = "contradictory exit barrier OPEN+CLOSED feedback"

-- Monitor.fault, and Monitor.applied.
abbrev monitor_fault : Time → String → Status → Status
monitor_fault now m s = record s { connected = false; last_error_at = now; last_error = m }

abbrev monitor_applied : Time → DesiredOutputs → Status → Status
monitor_applied now o s = record s { applied = o; last_success_at = now }

abbrev pub monitor_input : Time → PositionSnapshot → Status → Status
monitor_input now p s = record s {
  connected = true;
  last_input = some p;
  last_success_at = now;
  last_error = "";
}

-- GREEN as it is wanted: with the barrier's OPEN feedback, where the barrier is to be open.
abbrev pub green_wanted : Side → DesiredOutputs → PositionSnapshot → Bool
green_wanted s d p = green_of s d && (not (open_of s d) || feedback_of s p)

-- Every barrier that is to be open reports OPEN, and there is one.
abbrev pub buzzer_ready : DesiredOutputs → PositionSnapshot → Bool
buzzer_ready d p =
    d.buzzer
    && ((not d.entry_barrier_open || p.entry_barrier_open)
        && ((not d.exit_barrier_open || p.exit_barrier_open)
            && (d.entry_barrier_open || d.exit_barrier_open)))

abbrev pub is_contradictory : Side → PositionSnapshot → Bool
is_contradictory entry p = p.entry_barrier_open && p.entry_barrier_closed
is_contradictory exit p = p.exit_barrier_open && p.exit_barrier_closed

module _ {W : Type 0} (port : Workflow W) (plant : Plant) (now : Time) where
  abbrev on_controller : (Controller → Controller) → Run W → Run W
  on_controller f r = record r { controller = f r.controller }

  abbrev report : Fault → Run W → Run W
  report f r = record r { workflow = port.observe_fault f r.workflow }

  unfoldable pub io_fault : String → Run W → Outcome W
  io_fault m r = (
    record (report (critical Device.remote_io Health.fault m) r) {
      controller = record r.controller { safe_applied = false };
      monitor = monitor_fault now m r.monitor;
    },
    some m,
  )

  -- What the controller does once the plant has answered.
  unfoldable pub answered : Command → Run W → Option String → Outcome W
  unfolding io_fault
  answered cmd r (some m) = io_fault m r
  answered cmd r none = (on_controller (λ c. record c { applied = effect cmd c.applied }) r, none)

  -- One call of the outputs, with the controller's note of it.
  unfoldable pub command : Command → Run W → Outcome W
  unfolding answered
  command cmd r = answered cmd (record r { log = cmd ∷ r.log }) (plant r.log cmd)

  -- The barrier of a side: GREEN goes off before its OPEN request is withdrawn.
  unfoldable pub drop_green : Side → DesiredOutputs → Run W → Outcome W
  drop_green s d r =
      if not (open_of s d) && green_of s r.controller.applied
      then command (light s false) r
      else (r, none)

  unfoldable pub started : Side → DesiredOutputs → Run W → Outcome W
  started s d r = (on_controller (with_since s (if open_of s d then now else 0)) r, none)

  unfoldable pub move_barrier : Side → DesiredOutputs → Run W → Outcome W
  unfolding ◌and_then◌ started
  move_barrier s d r =
      if differs (open_of s d) (open_of s r.controller.applied)
      then drop_green s d r and_then command (barrier s (open_of s d)) and_then started s d
      else (r, none)

  unfoldable pub show_green : Side → DesiredOutputs → PositionSnapshot → Run W → Outcome W
  show_green s d p r =
      if differs (green_wanted s d p) (green_of s r.controller.applied)
      then command (light s (green_wanted s d p)) r
      else (r, none)

  abbrev until : Bool → Controller → Time
  until ready c =
      if not ready
      then 0
      else if not c.last_buzzer_ready
      then now + pos_part (pulse c)
      else c.buzzer_until

  abbrev pub buzzer_on : Controller → Bool
  buzzer_on c = not (is_zero c.buzzer_until) && ltb now c.buzzer_until

  unfoldable pub tick_buzzer : Bool → Run W → Run W
  tick_buzzer ready =
      on_controller (λ c. record c { buzzer_until = until ready c; last_buzzer_ready = ready })

  unfoldable pub ring : Run W → Outcome W
  ring r =
      if differs (buzzer_on r.controller) r.controller.applied.buzzer
      then command (buzzer (buzzer_on r.controller)) r
      else (r, none)

  unfoldable pub sound : DesiredOutputs → PositionSnapshot → Run W → Outcome W
  unfolding ring tick_buzzer
  sound d p r = ring (tick_buzzer (buzzer_ready d p) r)

  abbrev late : Side → Controller → Bool
  late s c = not (is_zero (since_of s c)) && ltb_ℤ (timeout c) (time_sub now (since_of s c))

  -- A side's feedback clears its barrier's fault; a timeout without it is reported.
  unfoldable pub confirm : Side → DesiredOutputs → PositionSnapshot → Run W → Run W
  confirm s d p r =
      if not (open_of s d)
      then r
      else if feedback_of s p
      then record (on_controller (with_since s 0) r) {
        workflow = port.clear_fault (barrier_device s) r.workflow;
      }
      else if late s r.controller
      then report (critical (barrier_device s) Health.fault (no_confirmation s)) r
      else r

  unfoldable pub finish : DesiredOutputs → PositionSnapshot → Run W → Outcome W
  finish d p r =
      let r' = confirm exit d p (confirm entry d p r) in
      (record r' { monitor = monitor_applied now r'.controller.applied r'.monitor }, none)

  unfoldable pub reconcile : DesiredOutputs → PositionSnapshot → Run W → Outcome W
  unfolding move_barrier show_green sound finish
  reconcile d p r =
      move_barrier entry d r
      and_then move_barrier exit d
      and_then show_green entry d p
      and_then show_green exit d p
      and_then sound d p
      and_then finish d p

  -- What the controller remembers once everything is off.
  unfoldable pub forget : Run W → Run W
  forget r = record r {
    controller = record r.controller {
      applied = no_outputs;
      last_buzzer_ready = false;
      buzzer_until = 0;
      entry_open_since = 0;
      exit_open_since = 0;
      safe_applied = true;
    };
    monitor = monitor_applied now no_outputs r.monitor;
  }

  -- The first SafeState after a start or an error. Its failure leaves `safe_applied` false.
  unfoldable pub establish_answered : Run W → Option String → Outcome W
  unfolding forget
  establish_answered r none = (forget r, none)
  establish_answered r (some m) = (
    record (report
        (critical Device.remote_io Health.fault
          (str_append "cannot establish safe output state: " m))
        r) { monitor = monitor_fault now m r.monitor },
    some m,
  )

  unfoldable pub establish : Run W → Outcome W
  unfolding establish_answered
  establish r =
      if r.controller.safe_applied
      then (r, none)
      else establish_answered (record r { log = safe_state ∷ r.log }) (plant r.log safe_state)

  -- SafeState on contradictory feedback; `safe_applied` is true there.
  unfoldable pub darken_answered : Run W → Option String → Outcome W
  unfolding forget io_fault
  darken_answered r none = (forget r, none)
  darken_answered r (some m) = io_fault m r

  unfoldable pub darken : Run W → Outcome W
  unfolding darken_answered
  darken r = darken_answered (record r { log = safe_state ∷ r.log }) (plant r.log safe_state)

  unfoldable pub blame : Side → PositionSnapshot → Run W → Run W
  blame s p r =
      if is_contradictory s p
      then report (critical (barrier_device s) Health.fault (contradictory s)) r
      else r

  -- Workflow.ClearFault of the remote I/O, then Workflow.ObservePosition.
  unfoldable pub observe : PositionSnapshot → Run W → Outcome W
  observe p r =
      let (o, w) = port.observe_position p (port.clear_fault Device.remote_io r.workflow) in
      (record r { workflow = w }, o)

  unfoldable pub drive : PositionSnapshot → Run W → Outcome W
  unfolding darken blame
  drive p r =
      let d = port.desired r.workflow in
      if is_contradictory entry p || is_contradictory exit p
      then darken (blame exit p (blame entry p r))
      else reconcile d p (record r { monitor = record r.monitor { desired = d } })

  unfoldable pub poll : Reading → Run W → Outcome W
  unfolding establish observe drive ◌and_then◌
  poll (failed m) r = (
    record (report (critical Device.remote_io Health.disconnected m) r) {
      controller = record r.controller { safe_applied = false };
      monitor = monitor_fault now m r.monitor;
    },
    some m,
  )
  poll (inputs p) r =
      establish (record r { monitor = monitor_input now p r.monitor })
      and_then observe p
      and_then drive p

-- The loop of Run: polls one after the other, whose errors it ignores.
unfoldable pub run : {W : Type 0} → Workflow W → Plant → List (Time × Reading) → Run W → Run W
run port plant [] r = r
run port plant ((now, i) ∷ rest) r = run port plant rest (poll port plant now i r).0
