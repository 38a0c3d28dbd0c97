-- ===== src/RemoteIo/Applied.antt =====
-- Whole polls: what the controller remembers of the plant, and what the plant shows after a poll.
use plantops_edge_scale.Base.{
  ◌≡◌, refl, ap, sym, ◌∙◌, ◌⊎◌, inl, inr, true, false, ◌||◌, String, List, [], ◌∷◌, Option, none,
  some, arith, if_intro,
}
use plantops_edge_scale.Domain.Types.{Time, PositionSnapshot}
use plantops_edge_scale.Domain.Workflow.{DesiredOutputs, no_outputs}
use plantops_edge_scale.RemoteIo.{
  Side, entry, exit, Command, safe_state, Plant, Workflow, Run, Reading, failed, inputs, Outcome,
  green_of, open_of, feedback_of, is_contradictory, ◌and_then◌, io_fault, reconcile, forget,
  establish_answered, establish, darken_answered, darken, blame, observe, drive, poll, run,
  monitor_input,
}
use plantops_edge_scale.RemoteIo.Replay.{
  Residue, acknowledged, acknowledged-none, Orderly, IsOrderly, Meets, Meets-and_then,
}
use plantops_edge_scale.RemoteIo.Order.{Live, same_Live, IsApplied, reconcile-Leads}

-- The log is orderly, and a controller that counts as safe remembers what the plant has carried out.
pub record Sound {W : Type 0} (plant : Plant) (residue : Residue) (r : Run W) : Type 0 where
  pub orderly : Orderly plant residue r.log
  pub agrees :
      (r.controller.safe_applied ≡ false)
      ⊎ (r.controller.applied ≡ acknowledged plant residue r.log)

-- After a poll: contradictory feedback turned everything off, or the outputs are as desired.
abbrev Served : PositionSnapshot → DesiredOutputs → DesiredOutputs → Type 0
Served p d o =
    (o ≡ no_outputs)
    ⊎ ((is_contradictory entry p ≡ false) × (is_contradictory exit p ≡ false) × IsApplied d p o)

module _ {W : Type 0} (port : Workflow W) (plant : Plant) (residue : Residue) (now : Time) where
  Live-Sound : (r : Run W) → Live plant residue r → Sound plant residue r
  Live-Sound r h = record { orderly = h.live_orderly; agrees = inr h.live_agrees }

  -- `Q` is what is known after an error, given that each failed command leads to it.
  module _ (Q : Run W → Type 0)
      (bad : (cmd : Command) (r : Run W) (m : String)
        → Live plant residue r
        → IsOrderly (acknowledged plant residue r.log) cmd
        → plant r.log cmd ≡ some m
        → Q (io_fault port plant now m (record r { log = cmd ∷ r.log })).0) where
    forgotten :
        (r : Run W)
        → Orderly plant residue r.log
        → plant r.log safe_state ≡ none
        → Live plant residue (forget port plant now (record r { log = safe_state ∷ r.log }))
    unfolding forget Orderly
    forgotten r h x = record {
      live_orderly = (tt, h);
      live_safe = refl;
      live_agrees = sym (acknowledged-none plant residue r.log safe_state x);
    }

    pub establish-Live :
        (r : Run W)
        → Sound plant residue r
        → ((m : String)
            → r.controller.safe_applied ≡ false
            → plant r.log safe_state ≡ some m
            → Q
                (establish_answered port plant now
                  (record r { log = safe_state ∷ r.log })
                  (some m)).0)
        → Meets
            (λ r'. Live plant residue r' × (r'.workflow ≡ r.workflow))
            Q
            (establish port plant now r)
    unfolding establish
    establish-Live r h fails =
        if_intro (Meets (λ r'. Live plant residue r' × (r'.workflow ≡ r.workflow)) Q) _
          (λ s. (known s h.agrees, refl)) (λ unsafe. on (plant r.log safe_state) unsafe refl)
      where
        known :
            r.controller.safe_applied ≡ true
            → (r.controller.safe_applied ≡ false)
              ⊎ (r.controller.applied ≡ acknowledged plant residue r.log)
            → Live plant residue r
        known s (inl u) = absurd (ground arith)
        known s (inr a) = record { live_orderly = h.orderly; live_safe = s; live_agrees = a }

        on :
            (a : Option String)
            → r.controller.safe_applied ≡ false
            → plant r.log safe_state ≡ a
            → Meets
                (λ r'. Live plant residue r' × (r'.workflow ≡ r.workflow))
                Q
                (establish_answered port plant now (record r { log = safe_state ∷ r.log }) a)
        on none u x = unfold establish_answered in (forgotten r h.orderly x, unfold forget in refl)
        on (some m) u x = fails m u x

    darken-Live :
        (r : Run W)
        → Live plant residue r
        → Meets
            (λ r'. Live plant residue r' × (r'.controller.applied ≡ no_outputs))
            Q
            (darken port plant now r)
    unfolding darken
    darken-Live r h = on (plant r.log safe_state) refl
      where
        on :
            (a : Option String)
            → plant r.log safe_state ≡ a
            → Meets
                (λ r'. Live plant residue r' × (r'.controller.applied ≡ no_outputs))
                Q
                (darken_answered port plant now (record r { log = safe_state ∷ r.log }) a)
        on none x = unfold darken_answered in (forgotten r h.live_orderly x, unfold forget in refl)
        on (some m) x = unfold darken_answered in bad safe_state r m h tt x

    blame-Live :
        (s : Side) (p : PositionSnapshot) (r : Run W)
        → Live plant residue r
        → Live plant residue (blame port plant now s p r)
    unfolding blame
    blame-Live s p r h =
        if_intro (Live plant residue) _ (λ _. same_Live r _ h refl refl refl) (λ _. h)

    -- What a poll leaves of the outputs, once the inputs are observed.
    drive-Live :
        (p : PositionSnapshot) (r : Run W)
        → Live plant residue r
        → Meets
            (λ r'. Live plant residue r' × Served p (port.desired r.workflow) r'.controller.applied)
            Q
            (drive port plant now p r)
    unfolding drive
    drive-Live p r h =
        if_intro
          (Meets
            (λ r'. Live plant residue r' × Served p (port.desired r.workflow) r'.controller.applied)
            Q)
          _
          (λ _. dark (darken port plant now blamed) (
            darken-Live blamed
              (blame-Live exit p (blame port plant now entry p r) (blame-Live entry p r h))))
          (λ c. lit c (reconcile port plant now (port.desired r.workflow) p _) (
            reconcile-Leads port plant residue now Q bad (port.desired r.workflow) p _
              (same_Live r _ h refl refl refl)))
      where
        blamed : Run W
        blamed = blame port plant now exit p (blame port plant now entry p r)

        dark :
            (o : Outcome W)
            → Meets (λ r'. Live plant residue r' × (r'.controller.applied ≡ no_outputs)) Q o
            → Meets
                (λ r'.
                  Live plant residue r' × Served p (port.desired r.workflow) r'.controller.applied)
                Q
                o
        dark (r', none) (l, e) = (l, inl e)
        dark (r', some m) q = q

        lit :
            (is_contradictory entry p || is_contradictory exit p) ≡ false
            → (o : Outcome W)
            → Meets
                (λ r'.
                  Live plant residue r'
                  × IsApplied (port.desired r.workflow) p r'.controller.applied)
                Q
                o
            → Meets
                (λ r'.
                  Live plant residue r' × Served p (port.desired r.workflow) r'.controller.applied)
                Q
                o
        lit c (r', none) (l, e) = (l, inr (ground arith, ground arith, e))
        lit c (r', some m) q = q

  -- A failed command leaves the controller sound, and unsafe.
  failed-Sound :
      (cmd : Command) (r : Run W) (m : String)
      → Live plant residue r
      → IsOrderly (acknowledged plant residue r.log) cmd
      → plant r.log cmd ≡ some m
      → Sound plant residue (io_fault port plant now m (record r { log = cmd ∷ r.log })).0
  unfolding io_fault Orderly
  failed-Sound cmd r m h o x = record { orderly = (o, h.live_orderly); agrees = inl refl }

  -- The outcome of a poll that reads `p`: sound, and served when there is no error.
  poll_lem :
      (p : PositionSnapshot) (r : Run W)
      → Sound plant residue r
      → Meets
          (λ r'. Live plant residue r' × ((d : DesiredOutputs) × Served p d r'.controller.applied))
          (Sound plant residue)
          (poll port plant now (inputs p) r)
  unfolding poll
  poll_lem p r h =
      Meets-and_then (Live plant residue) Shown (Sound plant residue)
        (establish port plant now seen and_then observe port plant now p) (drive port plant now p)
        (Meets-and_then (Live plant residue) (Live plant residue) (Sound plant residue)
          (establish port plant now seen) (observe port plant now p)
          (forgets (establish port plant now seen) (
            establish-Live (Sound plant residue) failed-Sound seen
              (record { orderly = h.orderly; agrees = h.agrees })
              (λ m u x.
                unfold establish_answered Orderly in
                record { orderly = (tt, h.orderly); agrees = inl u })))
          (λ r' l. unfold observe in observed r' l _))
        (λ r' l.
          served (port.desired r'.workflow) (drive port plant now p r')
            (drive-Live (Sound plant residue) failed-Sound p r' l))
    where
      Shown : Run W → Type 0
      Shown r' = Live plant residue r' × ((d : DesiredOutputs) × Served p d r'.controller.applied)

      seen : Run W
      seen = record r { monitor = monitor_input now p r.monitor }

      forgets :
          (o : Outcome W)
          → Meets (λ r'. Live plant residue r' × (r'.workflow ≡ r.workflow)) (Sound plant residue) o
          → Meets (Live plant residue) (Sound plant residue) o
      forgets (r', none) h = h.0
      forgets (r', some m) h = h

      observed :
          (r' : Run W)
          → Live plant residue r'
          → (o : Option String × W)
          → Meets (Live plant residue) (Sound plant residue) (record r' { workflow = o.1 }, o.0)
      observed r' l (none, w) = same_Live r' _ l refl refl refl
      observed r' l (some m, w) = Live-Sound _ (same_Live r' _ l refl refl refl)

      served :
          (d : DesiredOutputs) (o : Outcome W)
          → Meets
              (λ r'. Live plant residue r' × Served p d r'.controller.applied)
              (Sound plant residue)
              o
          → Meets Shown (Sound plant residue) o
      served d (r', none) (l, k) = (l, (d, k))
      served d (r', some m) k = k

  poll-Sound :
      (i : Reading) (r : Run W)
      → Sound plant residue r
      → Sound plant residue (poll port plant now i r).0
  poll-Sound (failed m) r h = unfold poll in record { orderly = h.orderly; agrees = inl refl }
  poll-Sound (inputs p) r h = forgets (poll port plant now (inputs p) r) (poll_lem p r h)
    where
      forgets :
          (o : Outcome W)
          → Meets
              (λ r'.
                Live plant residue r' × ((d : DesiredOutputs) × Served p d r'.controller.applied))
              (Sound plant residue)
              o
          → Sound plant residue o.0
      forgets (r', none) k = Live-Sound r' k.0
      forgets (r', some m) k = k

  -- From a sound controller, after a poll that gives no error: where the plant shows GREEN next to a
  -- barrier that it is to hold open, the inputs of the poll report that barrier open, and not closed
  -- at the same time.
  pub green_needs_feedback :
      (s : Side) (p : PositionSnapshot) (r : Run W)
      → Sound plant residue r
      → (poll port plant now (inputs p) r).1 ≡ none
      → green_of s (acknowledged plant residue (poll port plant now (inputs p) r).0.log) ≡ true
      → open_of s (acknowledged plant residue (poll port plant now (inputs p) r).0.log) ≡ true
      → (feedback_of s p ≡ true) × (is_contradictory s p ≡ false)
  green_needs_feedback s p r h = shown (poll port plant now (inputs p) r) (poll_lem p r h)
    where
      lit :
          (s : Side) (d o : DesiredOutputs)
          → Served p d o
          → green_of s o ≡ true
          → open_of s o ≡ true
          → (feedback_of s p ≡ true) × (is_contradictory s p ≡ false)
      lit entry d o (inl dark) g b = absurd (ground arith)
      lit exit d o (inl dark) g b = absurd (ground arith)
      lit entry d o (inr (c, c', a)) g b =
          let x = a.entry_green in let y = a.entry_open in (ground arith, c)
      lit exit d o (inr (c, c', a)) g b =
          let x = a.exit_green in let y = a.exit_open in (ground arith, c')

      shown :
          (o : Outcome W)
          → Meets
              (λ r'.
                Live plant residue r' × ((d : DesiredOutputs) × Served p d r'.controller.applied))
              (Sound plant residue)
              o
          → o.1 ≡ none
          → green_of s (acknowledged plant residue o.0.log) ≡ true
          → open_of s (acknowledged plant residue o.0.log) ≡ true
          → (feedback_of s p ≡ true) × (is_contradictory s p ≡ false)
      shown (r', none) (l, (d, k)) e g b =
          lit s d r'.controller.applied k (ap (green_of s) l.live_agrees ∙ g)
            (ap (open_of s) l.live_agrees ∙ b)
      shown (r', some m) k e g b = absurd (cc)

-- Polls keep a controller sound, whatever the plant answers and whatever a command that met an error left
-- on the outputs: the controller's memory is that of the plant unless it counts as unsafe, and no
-- barrier's OPEN request was withdrawn with its GREEN on.
pub run-Sound :
    {W : Type 0} (port : Workflow W) (plant : Plant) (residue : Residue)
    (polls : List (Time × Reading)) (r : Run W)
    → Sound plant residue r
    → Sound plant residue (run port plant polls r)
unfolding run
run-Sound port plant residue [] r h = h
run-Sound port plant residue ((now, i) ∷ rest) r h =
    run-Sound port plant residue rest _ (poll-Sound port plant residue now i r h)
