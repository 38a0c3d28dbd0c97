-- ===== src/RemoteIo/Replay.antt =====
-- What the plant has carried out of a log of commands, and outcomes that meet a condition.
use plantops_edge_scale.Base.{◌≡◌, ap, true, false, String, List, [], ◌∷◌, Option, none, some}
use plantops_edge_scale.Domain.Workflow.{DesiredOutputs, no_outputs}
use plantops_edge_scale.RemoteIo.{
  Command, safe_state, light, barrier, buzzer, Plant, Run, Outcome, effect, green_of, ◌and_then◌,
}

-- What the outputs are after a command that meets an error, after those sent before, the newest first.
-- The command may have had its effect, none, or another: any function may stand here.
abbrev pub Residue : Type 0
Residue = List Command → Command → DesiredOutputs

abbrev carried_out : Command → DesiredOutputs → DesiredOutputs → Option String → DesiredOutputs
carried_out cmd unknown o none = effect cmd o
carried_out cmd unknown o (some m) = unknown

-- The outputs after the log, the newest first.
unfoldable pub acknowledged : Plant → Residue → List Command → DesiredOutputs
acknowledged plant residue [] = no_outputs
acknowledged plant residue (cmd ∷ older) =
    carried_out cmd (residue older cmd) (acknowledged plant residue older) (plant older cmd)

-- GREEN of a side is off when a command withdraws its barrier's OPEN request.
abbrev pub IsOrderly : DesiredOutputs → Command → Type 0
IsOrderly o safe_state = Unit
IsOrderly o (light s b) = Unit
IsOrderly o (buzzer b) = Unit
IsOrderly o (barrier s true) = Unit
IsOrderly o (barrier s false) = green_of s o ≡ false

-- Every command of the log is orderly at the outputs that it met.
unfoldable pub Orderly : Plant → Residue → List Command → Type 0
Orderly plant residue [] = Unit
Orderly plant residue (cmd ∷ older) =
    IsOrderly (acknowledged plant residue older) cmd × Orderly plant residue older

-- An outcome without an error meets P, one with an error meets Q.
abbrev pub Meets : {W : Type 0} → (Run W → Type 0) → (Run W → Type 0) → Outcome W → Type 0
Meets P Q (r, none) = P r
Meets P Q (r, some m) = Q r

pub Meets-and_then :
    {W : Type 0} (P P' Q : Run W → Type 0) (o : Outcome W) (k : Run W → Outcome W)
    → Meets P Q o
    → ((r : Run W) → P r → Meets P' Q (k r))
    → Meets P' Q (o and_then k)
unfolding ◌and_then◌
Meets-and_then P P' Q (r, none) k h f = f r h
Meets-and_then P P' Q (r, some m) k h f = h

pub Meets-when :
    {W : Type 0} (A : Type 0) (P : Run W → Type 0) (o : Outcome W)
    → (A → Meets P (λ r. Unit) o)
    → Meets (λ r. A → P r) (λ r. Unit) o
Meets-when A P (r, none) f = f
Meets-when A P (r, some m) f = tt

-- A log, an answer, and what is carried out after it.
pub acknowledged-none :
    (plant : Plant) (residue : Residue) (older : List Command) (cmd : Command)
    → plant older cmd ≡ none
    → acknowledged plant residue (cmd ∷ older) ≡ effect cmd (acknowledged plant residue older)
unfolding acknowledged
acknowledged-none plant residue older cmd h =
    ap (carried_out cmd (residue older cmd) (acknowledged plant residue older)) h
