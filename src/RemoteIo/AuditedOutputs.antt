-- ===== src/RemoteIo/AuditedOutputs.antt =====
-- internal/runtimeio/audited_outputs.go: the outputs behind the operational audit. A trace is what has
-- happened, the newest first. What append fills into an event (station, transaction, time, actor,
-- version) is the same for all events and left out.
use plantops_edge_scale.Base.{
  Bool, true, false, not, String, List, [], ◌∷◌, Option, none, some, is_some, if◌then◌else◌,
}
use plantops_edge_scale.Domain.Types.{DeviceId}
use plantops_edge_scale.Domain.Device
use plantops_edge_scale.RemoteIo.{Command, light, barrier, buzzer, safe_state, entry, exit}

pub data Phase : Type 0 where
  intent : Phase
  result : Bool → String → Phase  -- whether it succeeded, and the reason if not

-- domain.AuditEvent of a command: OUTPUT_COMMAND for an intent, OUTPUT_RESULT for a result.
pub record OutputEvent : Type 0 where
  pub phase : Phase
  pub device : DeviceId
  pub action : String
  pub value : Bool

pub data Happening : Type 0 where
  recorded : OutputEvent → Happening
  executed : Command → Happening
  audit_failed : String → Happening  -- OnAuditFailure

abbrev pub Trace : Type 0
Trace = List Happening

-- Inner and Audit, if they are there: the error that each gives after what has happened.
pub record AuditedOutputs : Type 0 where
  pub inner : Option (Trace → Command → Option String)
  pub audit : Option (Trace → OutputEvent → Option String)

pub data OutputError : Type 0 where
  no_inner : OutputError
  gate plant : String → OutputError

-- What each command is called in its events.
abbrev pub device_of : Command → DeviceId
device_of (light entry b) = Device.entry_barrier
device_of (barrier entry b) = Device.entry_barrier
device_of safe_state = ""
device_of _ = Device.exit_barrier

abbrev pub action_of : Command → String
action_of (light entry b) = "ENTRY_SIGNAL"
action_of (light exit b) = "EXIT_SIGNAL"
action_of (barrier entry b) = "ENTRY_BARRIER_OPEN_REQUEST"
action_of (barrier exit b) = "EXIT_BARRIER_OPEN_REQUEST"
action_of (buzzer b) = "BUZZER"
action_of safe_state = "SAFE_STATE_APPLIED"

-- The value that a command sets; `true` is permissive.
abbrev pub is_permissive : Command → Bool
is_permissive (light s b) = b
is_permissive (barrier s b) = b
is_permissive (buzzer b) = b
is_permissive safe_state = false

abbrev pub event_of : Phase → Command → OutputEvent
event_of p c = record {
  phase = p;
  device = device_of c;
  action = action_of c;
  value = is_permissive c;
}

-- append
abbrev pub audit_answer : AuditedOutputs → OutputEvent → Trace → Option String
audit_answer a e tr = elim a.audit [
  | none ↦ some "operational audit store is nil"
  | some f ↦ f tr e
]

abbrev pub noted : OutputEvent → Option String → Trace → Trace
noted e none tr = recorded e ∷ tr
noted e (some m) tr = audit_failed m ∷ tr

abbrev pub message : Option String → String
message none = ""
message (some m) = m

-- The answer of a command, once its result is recorded or not.
abbrev pub command_answer : Bool → Option String → Option String → Option OutputError
command_answer permissive (some m) audit = some (plant m)
command_answer true none (some m) = some (gate m)
command_answer _ none _ = none

-- command, from execute() on.
abbrev pub run_command :
    AuditedOutputs
    → (Trace → Command → Option String)
    → Command
    → Trace
    → Trace × Option OutputError
run_command a inner c tr =
    let answer = inner tr c in
    let done = executed c ∷ tr in
    let e = event_of (result (not (is_some answer)) (message answer)) c in
    let said = audit_answer a e done in
    (noted e said done, command_answer (is_permissive c) answer said)

-- The gate before a permissive command: its intent is recorded, or it is not executed.
abbrev pub gated :
    AuditedOutputs
    → (Trace → Command → Option String)
    → Command
    → Trace
    → Option String
    → Trace × Option OutputError
gated a inner c tr (some m) = (audit_failed m ∷ tr, some (gate m))
gated a inner c tr none = run_command a inner c (recorded (event_of intent c) ∷ tr)

abbrev pub command_on :
    AuditedOutputs
    → Command
    → Trace
    → Option (Trace → Command → Option String)
    → Trace × Option OutputError
command_on a c tr none = (tr, some no_inner)
command_on a c tr (some inner) =
    if is_permissive c
    then gated a inner c tr (audit_answer a (event_of intent c) tr)
    else run_command a inner c tr

-- command
unfoldable pub audited_command : AuditedOutputs → Command → Trace → Trace × Option OutputError
audited_command a c tr = command_on a c tr a.inner

abbrev pub safe_answer : AuditedOutputs → Trace → Option String → Trace × Option OutputError
safe_answer a tr (some m) = (executed safe_state ∷ tr, some (plant m))
safe_answer a tr none =
    let e = event_of (result true "") safe_state in
    let done = executed safe_state ∷ tr in (noted e (audit_answer a e done) done, none)

abbrev pub safe_on :
    AuditedOutputs → Trace → Option (Trace → Command → Option String) → Trace × Option OutputError
safe_on a tr none = (tr, some no_inner)
safe_on a tr (some inner) = safe_answer a tr (inner tr safe_state)

-- SafeState
unfoldable pub audited_safe_state : AuditedOutputs → Trace → Trace × Option OutputError
audited_safe_state a tr = safe_on a tr a.inner

-- Any call of the outputs.
unfoldable pub call_output : AuditedOutputs → Command → Trace → Trace × Option OutputError
unfolding audited_command audited_safe_state
call_output a safe_state tr = audited_safe_state a tr
call_output a c tr = audited_command a c tr

unfoldable pub call_outputs : AuditedOutputs → List Command → Trace → Trace
unfolding call_output
call_outputs a [] tr = tr
call_outputs a (c ∷ cs) tr = call_outputs a cs (call_output a c tr).0
