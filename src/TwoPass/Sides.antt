-- ===== src/TwoPass/Sides.antt =====
-- The engine sees every pass from entry to exit; the view gives the physical sides back.
use mathlib.Core.Option
use mathlib.Core.Path.{subst}
use plantops_edge_scale.Base.{
  ◌≡◌, refl, sym, ap, not, Option, none, some, if◌then◌else◌, if_intro, arith,
}
use plantops_edge_scale.Domain.Types.{PositionSnapshot, AuditedScaleReading}
use plantops_edge_scale.Domain.Workflow.{Direction, Transaction}
use plantops_edge_scale.Domain.State
use plantops_edge_scale.Domain.Cycle.{is_b_to_a}
use plantops_edge_scale.Domain.WeighCycle.{WeighCycle}
use plantops_edge_scale.Coordinator.{CycleError}
use plantops_edge_scale.Engine.Record.{Engine, Env, lock, touch}
use plantops_edge_scale.Engine.Identity.{authorize_on, try_authorize_entry}
use plantops_edge_scale.Engine.Position.{evaluate_position, try_ready_to_weigh}
use plantops_edge_scale.Engine.Presence
use plantops_edge_scale.Engine.Presence.{
  admit, enter_deck, settle, reach_exit, clear_exit, position_step, active_or_new,
}
use plantops_edge_scale.Engine.Handlers.{Input, step, snapshot}
use plantops_edge_scale.TwoPass.{
  CommitOutcome, Station, Outside, try_bind_called, bind_on, swap_position, find, evidence_of,
}
use plantops_edge_scale.TwoPass.Calls.{
  inner_step, finish_pass, learn_direction, logical, effective, observe_position, physical_side,
  show_bound, show_cycle, show_weights, show_final, show_error, show_outcome, shown, show_tx,
  station_snapshot,
}

-- The transaction's position is p.
abbrev At : PositionSnapshot → Transaction → Type 0
At p t = t.position_snapshot ≡ p

abbrev SeenAt : PositionSnapshot → Option Transaction → Type 0
SeenAt p none = Unit
SeenAt p (some t) = At p t

module _ {S : Type 0} (env : Env) (e : Engine S) (p : PositionSnapshot) where
  authorize_on-At :
      (a : Option AuditedScaleReading) (t : Transaction) → At p t → At p (authorize_on env e a t)
  unfolding authorize_on if◌then◌else◌
  authorize_on-At none t h = h
  authorize_on-At (some a) t h = ground arith

  try_authorize_entry-At : (t : Transaction) → At p t → At p (try_authorize_entry env e t)
  unfolding try_authorize_entry
  try_authorize_entry-At t h =
      if_intro (At p) _ (λ _. h)
        (λ _.
          if_intro (At p) _ (λ _. h)
            (λ _. if_intro (At p) _ (λ _. h) (λ _. authorize_on-At e.last_scale t h)))

  evaluate_position-At : (t : Transaction) → At p t → At p (evaluate_position env e t)
  unfolding evaluate_position if◌then◌else◌
  evaluate_position-At t h = ground arith

  try_ready_to_weigh-At : (t : Transaction) → At p t → At p (try_ready_to_weigh env e t)
  unfolding try_ready_to_weigh lock if◌then◌else◌
  try_ready_to_weigh-At t h = ground arith

  admit-At : (t : Transaction) → At p t → At p (admit env e t)
  unfolding admit
  admit-At t h = if_intro (At p) _ (λ _. try_authorize_entry-At t h) (λ _. h)

  settle-At : (t : Transaction) → At p t → At p (settle env e p t)
  unfolding settle
  settle-At t h =
      let moved = if_intro (At p) (State.is_entering t.state) (λ _. h) (λ _. h) in
      if_intro (At p) _
        (λ _.
          if_intro (At p) _ (λ _. try_ready_to_weigh-At _ (evaluate_position-At _ moved))
            (λ _. evaluate_position-At _ moved))
        (λ _. h)

  enter_deck-At : (t : Transaction) → At p t → At p (enter_deck env p t)
  unfolding enter_deck
  enter_deck-At t h = if_intro (At p) _ (λ _. h) (λ _. h)

  reach_exit-At : (t : Transaction) → At p t → At p (reach_exit env p t)
  unfolding reach_exit
  reach_exit-At t h = if_intro (At p) _ (λ _. h) (λ _. h)

  clear_exit-At : (t : Transaction) → At p t → At p (clear_exit env p t)
  unfolding clear_exit
  clear_exit-At t h = if_intro (At p) _ (λ _. if_intro (At p) _ (λ _. h) (λ _. h)) (λ _. h)

  position_step-At : (t : Transaction) → At p (position_step env e p t)
  unfolding position_step
  position_step-At t =
      let seen = touch env p.observed (record t { position_snapshot = p }) in
      if_intro (At p) _ (λ _. refl)
        (λ _.
          clear_exit-At _ (reach_exit-At _ (settle-At _ (enter_deck-At _ (admit-At seen refl)))))

  -- After ObservePosition the engine's transaction, if any, has that position.
  engine-Sees : (o : Option Transaction) → SeenAt p (Option.map (position_step env e p) o)
  engine-Sees none = tt
  engine-Sees (some t) = position_step-At t

-- What the view makes of a position.
abbrev side : Direction → PositionSnapshot → PositionSnapshot
side d p = if is_b_to_a d then swap_position p else p

module _ (p : PositionSnapshot) where
  show_bound-At : (b : Option WeighCycle) (t : Transaction) → At p t → At p (show_bound b t)
  show_bound-At none t h = h
  show_bound-At (some c) t h = h

  show_cycle-At : (b : Option WeighCycle) (t : Transaction) → At p t → At p (show_cycle b t)
  show_cycle-At none t h = h
  show_cycle-At (some c) t h = h

  show_weights-At : (b : Option WeighCycle) (t : Transaction) → At p t → At p (show_weights b t)
  show_weights-At none t h = h
  show_weights-At (some c) t h = h

  show_error-At :
      (o : Outside) (e : Option CycleError) (t : Transaction) → At p t → At p (show_error o e t)
  show_error-At o none t h = h
  show_error-At o (some e) t h = h

  show_final-At : (out : CommitOutcome) (t : Transaction) → At p t → At p (show_final out t)
  show_final-At out t h = if_intro (At p) _ (λ _. show_weights-At out.cycle _ h) (λ _. h)

  show_outcome-At :
      (o : Outside) (out : Option CommitOutcome) (t : Transaction)
      → At p t
      → At p (show_outcome o out t)
  show_outcome-At o none t h = h
  show_outcome-At o (some out) t h = show_error-At o out.err _ (
      show_final-At out _
        (if_intro (At p) _ (λ _. show_cycle-At out.cycle t h) (λ _. show_cycle-At out.cycle t h)))

-- The view of a transaction that the engine has seen on the logical sides of p.
physical_side-At :
    (d : Direction) (p : PositionSnapshot) (t : Transaction)
    → At (logical d p) t
    → At p (physical_side (effective d) t)
unfolding if◌then◌else◌
physical_side-At Direction.unset p t h = h
physical_side-At Direction.a_to_b p t h = h
physical_side-At Direction.b_to_a p t h = ap swap_position h

shown-At :
    (o : Outside) (w : Station) (p : PositionSnapshot) (t : Transaction)
    → At (logical w.direction p) t
    → At p (shown o w t)
unfolding shown
shown-At o w p t h =
    let told = show_outcome-At p o (find t.id w.inner.store.outcomes) _ (
      show_bound-At p w.bound
        (record (physical_side (effective w.direction) t) {
          camera_evidence = evidence_of t.id w.inner.store;
        })
        (physical_side-At w.direction p t h)) in
    if_intro (At p) _ (λ _. told) (λ _. told)

-- The engine's transaction, if any, has the logical sides of p.
abbrev Facing : PositionSnapshot → Station → Type 0
Facing p w = SeenAt (logical w.direction p) w.inner.tx

bind-Facing :
    (o : Outside) (p : PositionSnapshot) (w : Station) (t : Option Transaction)
    → Facing p w
    → Facing p (bind_on o w t)
bind-Facing o p w none h = h
bind-Facing o p w (some t) h = if_intro (Facing p) _ (λ _. h) (λ _. h)

try_bind-Facing :
    (o : Outside) (p : PositionSnapshot) (w : Station) → Facing p w → Facing p (try_bind_called o w)
unfolding try_bind_called
try_bind-Facing o p w h =
    if_intro (Facing p) (not (is_b_to_a w.direction)) (λ _. h) (λ _. bind-Facing o p w w.inner.tx h)

inner-Facing :
    (o : Outside) (p : PositionSnapshot) (w : Station)
    → Facing p (inner_step o (Input.position (logical w.direction p)) w).0
unfolding step Presence.observe_position
inner-Facing o p w = engine-Sees o.engine _ (logical w.direction p) _

abbrev pub Shows : PositionSnapshot → Option Transaction → Type 0
Shows p none = Unit
Shows p (some t) = t.position_snapshot ≡ p

show_tx-Shows :
    (o : Outside) (p : PositionSnapshot) (w : Station) (t : Option Transaction)
    → w.inner.tx ≡ t
    → SeenAt (logical w.direction p) t
    → Shows p (show_tx o w (snapshot w.inner) t).transaction
unfolding snapshot
show_tx-Shows o p w none e h = subst (Shows p) (sym e) tt
show_tx-Shows o p w (some t) e h = shown-At o w p t h

-- After ObservePosition with a physical position, whichever side the vehicle came from and whatever the
-- call began, ended or bound, the snapshot shows no transaction, or one at that physical position:
-- turning the sides for the engine and turning them back for the view loses nothing.
pub observe_position-Shows :
    (o view : Outside) (p : PositionSnapshot) (w : Station)
    → Shows p (station_snapshot view (observe_position o p w)).transaction
unfolding station_snapshot observe_position
observe_position-Shows o view p w =
    let ready = learn_direction p (finish_pass o p w w.inner.tx) in
    let done =
      try_bind_called o (inner_step o (Input.position (logical ready.direction p)) ready).0 in
    show_tx-Shows view p done done.inner.tx refl (
      try_bind-Facing o p (inner_step o (Input.position (logical ready.direction p)) ready).0
        (inner-Facing o p ready))
