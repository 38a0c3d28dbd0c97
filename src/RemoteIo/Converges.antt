-- ===== src/RemoteIo/Converges.antt =====
-- A poll gets the lights and barriers applied when the plant carries out every command.
use plantops_edge_scale.Base.{◌≡◌, true, String, List, Option, none}
use plantops_edge_scale.Domain.Types.{Time, PositionSnapshot}
use plantops_edge_scale.Domain.Device
use plantops_edge_scale.RemoteIo.{Command, Plant, Workflow, Run, buzzer_ready}
use plantops_edge_scale.RemoteIo.Replay.{Residue}
use plantops_edge_scale.RemoteIo.Order.{Live, IsApplied}
use plantops_edge_scale.RemoteIo.Buzzer.{Idle, Sounding}

module _ {W : Type 0} (port : Workflow W) (plant : Plant) (residue : Residue) (now : Time)
    (p : PositionSnapshot) (r : Run W)
    (smooth : (log : List Command) (cmd : Command) → plant log cmd ≡ none) where
  abbrev Never : Run W → Type 0
  Never r = ⊥

  abbrev after_inputs : Option String × W
  after_inputs = port.observe_position p (port.clear_fault Device.remote_io r.workflow)

  -- The buzzer was not ready before the poll.
  abbrev Starts : Type 0
  Starts = Idle port plant now r

  abbrev IsReady : Type 0
  IsReady = buzzer_ready (port.desired after_inputs.1) p ≡ true

  abbrev Converged : Run W → Type 0
  Converged r' =
      Live plant residue r'
      × IsApplied (port.desired after_inputs.1) p r'.controller.applied
      × (Starts × IsReady → Sounding port plant now r')
