-- ===== src/RemoteIo/Buzzer.antt =====
-- The buzzer starts when it becomes ready: it was not ready at the poll before, and is now.
use plantops_edge_scale.Base.{
  ◌≡◌, refl, Bool, true, false, String, ◌∷◌, Option, none, some, arith, if◌then◌else◌, if_intro,
  differs,
}
use plantops_edge_scale.Domain.Types.{Time, PositionSnapshot}
use plantops_edge_scale.Domain.Workflow.{DesiredOutputs}
use plantops_edge_scale.RemoteIo.{
  Side, entry, exit, Command, light, barrier, buzzer, Plant, Workflow, Run, open_of, answered,
  command, drop_green, started, move_barrier, show_green, tick_buzzer, ring, sound, confirm, finish,
  reconcile, green_wanted, buzzer_ready, buzzer_on, establish, establish_answered, forget,
  safe_state,
}
use plantops_edge_scale.RemoteIo.Replay.{Meets, Meets-and_then}

module _ {W : Type 0} (port : Workflow W) (plant : Plant) (now : Time) where
  abbrev pub Any : Run W → Type 0
  Any r = Unit

  -- The buzzer was not ready when it was last looked at.
  abbrev pub Idle : Run W → Type 0
  Idle r = r.controller.last_buzzer_ready ≡ false

  abbrev pub Sounding : Run W → Type 0
  Sounding r = r.controller.applied.buzzer ≡ true

  command-Idle :
      (cmd : Command) (r : Run W) → Idle r → Meets Idle Any (command port plant now cmd r)
  unfolding command answered
  command-Idle cmd r h = on (plant r.log cmd)
    where
      on :
          (a : Option String)
          → Meets Idle Any (answered port plant now cmd (record r { log = cmd ∷ r.log }) a)
      on none = h
      on (some m) = tt

  drop_green-Idle :
      (s : Side) (d : DesiredOutputs) (r : Run W)
      → Idle r
      → Meets Idle Any (drop_green port plant now s d r)
  unfolding drop_green
  drop_green-Idle s d r h =
      if_intro (Meets Idle Any) _ (λ _. command-Idle (light s false) r h) (λ _. h)

  move_barrier-Idle :
      (s : Side) (d : DesiredOutputs) (r : Run W)
      → Idle r
      → Meets Idle Any (move_barrier port plant now s d r)
  unfolding move_barrier
  move_barrier-Idle s d r h =
      if_intro (Meets Idle Any) _
        (λ _.
          Meets-and_then Idle Idle Any _ (started port plant now s d)
            (Meets-and_then Idle Idle Any _ (command port plant now (barrier s (open_of s d)))
              (drop_green-Idle s d r h) (λ r' k. command-Idle (barrier s (open_of s d)) r' k))
            (λ r' k. begun s r' k))
        (λ _. h)
    where
      begun : (s : Side) (r' : Run W) → Idle r' → Meets Idle Any (started port plant now s d r')
      begun entry r' k = unfold started in k
      begun exit r' k = unfold started in k

  show_green-Idle :
      (s : Side) (d : DesiredOutputs) (p : PositionSnapshot) (r : Run W)
      → Idle r
      → Meets Idle Any (show_green port plant now s d p r)
  unfolding show_green
  show_green-Idle s d p r h =
      if_intro (Meets Idle Any) _ (λ _. command-Idle (light s (green_wanted s d p)) r h) (λ _. h)

  ready_on :
      (ready : Bool) (r : Run W)
      → ready ≡ true
      → Idle r
      → buzzer_on port plant now (tick_buzzer port plant now ready r).controller ≡ true
  unfolding tick_buzzer if◌then◌else◌
  ready_on ready r h idle = ground arith

  sound-Sounding :
      (d : DesiredOutputs) (p : PositionSnapshot) (r : Run W)
      → buzzer_ready d p ≡ true
      → Idle r
      → Meets Sounding Any (sound port plant now d p r)
  unfolding sound ring command answered
  sound-Sounding d p r ready h =
      if_intro (Meets Sounding Any) _ (λ _. rung (plant ticked.log (buzzer on)))
        (λ same. silent ticked.controller.applied.buzzer same)
    where
      ticked : Run W
      ticked = tick_buzzer port plant now (buzzer_ready d p) r

      on : Bool
      on = buzzer_on port plant now ticked.controller

      starts : on ≡ true
      starts = ready_on (buzzer_ready d p) r ready h

      silent : (b : Bool) → differs on b ≡ false → b ≡ true
      silent b same = let s = starts in ground arith

      rung :
          (a : Option String)
          → Meets Sounding Any (
              answered port plant now
                (buzzer on)
                (record ticked { log = buzzer on ∷ ticked.log })
                a)
      rung none = starts
      rung (some m) = tt

  confirm-Sounding :
      (s : Side) (d : DesiredOutputs) (p : PositionSnapshot) (r : Run W)
      → Sounding r
      → Sounding (confirm port plant now s d p r)
  unfolding confirm if◌then◌else◌
  confirm-Sounding entry d p r h = ground arith
  confirm-Sounding exit d p r h = ground arith

  -- A buzzer that was not ready, and is now, sounds once reconcile is through.
  pub reconcile-Sounding :
      (d : DesiredOutputs) (p : PositionSnapshot) (r : Run W)
      → buzzer_ready d p ≡ true
      → Idle r
      → Meets Sounding Any (reconcile port plant now d p r)
  unfolding reconcile finish
  reconcile-Sounding d p r ready h =
      Meets-and_then Sounding Sounding Any _ (finish port plant now d p)
        (Meets-and_then Idle Sounding Any _ (sound port plant now d p)
          (Meets-and_then Idle Idle Any _ (show_green port plant now exit d p)
            (Meets-and_then Idle Idle Any _ (show_green port plant now entry d p)
              (Meets-and_then Idle Idle Any _ (move_barrier port plant now exit d)
                (move_barrier-Idle entry d r h) (λ r' k. move_barrier-Idle exit d r' k))
              (λ r' k. show_green-Idle entry d p r' k))
            (λ r' k. show_green-Idle exit d p r' k))
          (λ r' k. sound-Sounding d p r' ready k))
        (λ r' k. confirm-Sounding exit d p _ (confirm-Sounding entry d p r' k))

  pub establish-Idle : (r : Run W) → Idle r → Meets Idle Any (establish port plant now r)
  unfolding establish establish_answered forget
  establish-Idle r h = if_intro (Meets Idle Any) _ (λ _. h) (λ _. on (plant r.log safe_state))
    where
      on :
          (a : Option String)
          → Meets Idle Any
              (establish_answered port plant now (record r { log = safe_state ∷ r.log }) a)
      on none = refl
      on (some m) = tt
