-- ===== src/RemoteIo/Order.antt =====
-- reconcile, stage by stage: what it makes of the outputs, and that its commands are orderly.
use mathlib.Core.Path.{subst}
use plantops_edge_scale.Base.{
  ◌≡◌, refl, ap, sym, ◌∙◌, Bool, true, false, String, ◌∷◌, Option, none, some, arith, if◌then◌else◌,
  if_intro, differs,
}
use plantops_edge_scale.Domain.Types.{Time, PositionSnapshot}
use plantops_edge_scale.Domain.Workflow.{DesiredOutputs}
use plantops_edge_scale.RemoteIo.{
  Side, entry, exit, Command, light, barrier, buzzer, Plant, Workflow, Run, Outcome, effect,
  green_of, open_of, ◌and_then◌, io_fault, answered, command, drop_green, started, move_barrier,
  show_green, tick_buzzer, ring, sound, confirm, finish, reconcile, green_wanted, buzzer_ready,
  buzzer_on,
}
use plantops_edge_scale.RemoteIo.Replay.{
  Residue, acknowledged, Orderly, IsOrderly, Meets, Meets-and_then, acknowledged-none,
}

-- A controller that counts as safe, and is sound.
pub record Live {W : Type 0} (plant : Plant) (residue : Residue) (r : Run W) : Type 0 where
  pub live_orderly : Orderly plant residue r.log
  pub live_safe : r.controller.safe_applied ≡ true
  pub live_agrees : r.controller.applied ≡ acknowledged plant residue r.log

-- Barriers are as desired, GREEN is as desired and confirmed.
pub record IsLit (d : DesiredOutputs) (p : PositionSnapshot) (o : DesiredOutputs) : Type 0 where
  pub entry_moved : o.entry_barrier_open ≡ d.entry_barrier_open
  pub exit_moved : o.exit_barrier_open ≡ d.exit_barrier_open
  pub entry_lit : o.entry_green ≡ green_wanted entry d p
  pub exit_lit : o.exit_green ≡ green_wanted exit d p

-- Besides, the buzzer is off unless it is wanted and each barrier that is to open reports OPEN.
pub record IsApplied (d : DesiredOutputs) (p : PositionSnapshot) (o : DesiredOutputs) : Type 0 where
  pub entry_open : o.entry_barrier_open ≡ d.entry_barrier_open
  pub exit_open : o.exit_barrier_open ≡ d.exit_barrier_open
  pub entry_green : o.entry_green ≡ green_wanted entry d p
  pub exit_green : o.exit_green ≡ green_wanted exit d p
  pub quiet : buzzer_ready d p ≡ false → o.buzzer ≡ false

pub same_Live :
    {W : Type 0} {plant : Plant} {residue : Residue} (r r' : Run W)
    → Live plant residue r
    → r'.log ≡ r.log
    → r'.controller.safe_applied ≡ r.controller.safe_applied
    → r'.controller.applied ≡ r.controller.applied
    → Live plant residue r'
same_Live {W} {plant} {residue} r r' h l s a = record {
  live_orderly = subst (Orderly plant residue) (sym l) h.live_orderly;
  live_safe = s ∙ h.live_safe;
  live_agrees = a ∙ h.live_agrees ∙ ap (acknowledged plant residue) (sym l);
}

-- `Q` is what is known after an error, given that each failed command leads to it.
module _ {W : Type 0} (port : Workflow W) (plant : Plant) (residue : Residue) (now : Time)
    (Q : Run W → Type 0)
    (bad : (cmd : Command) (r : Run W) (m : String)
      → Live plant residue r
      → IsOrderly (acknowledged plant residue r.log) cmd
      → plant r.log cmd ≡ some m
      → Q (io_fault port plant now m (record r { log = cmd ∷ r.log })).0) where
  -- The controller is live, and its outputs stand in the relation to those before.
  abbrev Leads : (DesiredOutputs → Type 0) → Outcome W → Type 0
  Leads F = Meets (λ r. Live plant residue r × F r.controller.applied) Q

  Leads-and_then :
      (F G : DesiredOutputs → Type 0) (o : Outcome W) (k : Run W → Outcome W)
      → Leads F o
      → ((r : Run W) → Live plant residue r → F r.controller.applied → Leads G (k r))
      → Leads G (o and_then k)
  Leads-and_then F G o k h f =
      Meets-and_then (λ r. Live plant residue r × F r.controller.applied)
        (λ r. Live plant residue r × G r.controller.applied) Q o k h (λ r l. f r l.0 l.1)

  map-Leads :
      (F G : DesiredOutputs → Type 0) (o : Outcome W)
      → ((x : DesiredOutputs) → F x → G x)
      → Leads F o
      → Leads G o
  map-Leads F G (r, none) f h = (h.0, f _ h.1)
  map-Leads F G (r, some m) f h = h

  command-Leads :
      (cmd : Command) (r : Run W)
      → Live plant residue r
      → IsOrderly (acknowledged plant residue r.log) cmd
      → Leads (λ o. o ≡ effect cmd r.controller.applied) (command port plant now cmd r)
  unfolding command answered
  command-Leads cmd r h o = on (plant r.log cmd) refl
    where
      on :
          (a : Option String)
          → plant r.log cmd ≡ a
          → Leads
              (λ o. o ≡ effect cmd r.controller.applied)
              (answered port plant now cmd (record r { log = cmd ∷ r.log }) a)
      on none x = (
        record {
          live_orderly = unfold Orderly in (o, h.live_orderly);
          live_safe = h.live_safe;
          live_agrees =
              ap (effect cmd) h.live_agrees ∙ sym (acknowledged-none plant residue r.log cmd x);
        },
        refl,
      )
      on (some m) x = bad cmd r m h o x

  -- What move_barrier makes of the outputs; the side's GREEN may have gone off.
  abbrev Moved : Side → DesiredOutputs → DesiredOutputs → DesiredOutputs → Type 0
  Moved entry d o o' =
      (o'.entry_barrier_open ≡ d.entry_barrier_open) × (o'.exit_barrier_open ≡ o.exit_barrier_open)
  Moved exit d o o' =
      (o'.exit_barrier_open ≡ d.exit_barrier_open) × (o'.entry_barrier_open ≡ o.entry_barrier_open)

  -- What drop_green makes of the outputs.
  abbrev Dropped : Side → DesiredOutputs → DesiredOutputs → DesiredOutputs → Type 0
  Dropped s d o o' =
      (o'.entry_barrier_open ≡ o.entry_barrier_open)
      × (o'.exit_barrier_open ≡ o.exit_barrier_open)
      × (open_of s d ≡ false → green_of s o' ≡ false)

  drop_green-Leads :
      (s : Side) (d : DesiredOutputs) (r : Run W)
      → Live plant residue r
      → Leads (Dropped s d r.controller.applied) (drop_green port plant now s d r)
  unfolding drop_green
  drop_green-Leads s d r h =
      if_intro (Leads (Dropped s d r.controller.applied)) _
        (λ _.
          weaken s (command port plant now (light s false) r)
            (command-Leads (light s false) r h tt))
        (λ f. (h, (refl, refl, λ c. ground arith)))
    where
      weaken :
          (s : Side) (o : Outcome W)
          → Leads (λ o. o ≡ effect (light s false) r.controller.applied) o
          → Leads (Dropped s d r.controller.applied) o
      weaken entry (r', none) (l, e) = (l, ground arith)
      weaken exit (r', none) (l, e) = (l, ground arith)
      weaken s (r', some m) q = q

  move_barrier-Leads :
      (s : Side) (d : DesiredOutputs) (r : Run W)
      → Live plant residue r
      → Leads (Moved s d r.controller.applied) (move_barrier port plant now s d r)
  unfolding move_barrier
  move_barrier-Leads s d r h =
      if_intro (Leads (Moved s d r.controller.applied)) _
        (λ _.
          Leads-and_then (Moved s d r.controller.applied) (Moved s d r.controller.applied) _
            (started port plant now s d)
            (Leads-and_then (Dropped s d r.controller.applied) (Moved s d r.controller.applied) _
              request (drop_green-Leads s d r h)
              (λ r' l k.
                moved s r' (request r') k (
                  command-Leads (barrier s (open_of s d)) r' l
                    (orderly r' (open_of s d) refl l k))))
            (λ r' l k. begun s r' l k))
        (λ same. (h, settled s same))
    where
      request : Run W → Outcome W
      request = command port plant now (barrier s (open_of s d))

      orderly :
          (r' : Run W) (b : Bool)
          → open_of s d ≡ b
          → Live plant residue r'
          → Dropped s d r.controller.applied r'.controller.applied
          → IsOrderly (acknowledged plant residue r'.log) (barrier s b)
      orderly r' true x l k = tt
      orderly r' false x l k = ap (green_of s) (sym l.live_agrees) ∙ k.2 x

      moved :
          (s : Side) (r' : Run W) (o : Outcome W)
          → Dropped s d r.controller.applied r'.controller.applied
          → Leads (λ o. o ≡ effect (barrier s (open_of s d)) r'.controller.applied) o
          → Leads (Moved s d r.controller.applied) o
      moved entry r' (q, none) k (l, e) = (l, ground arith)
      moved exit r' (q, none) k (l, e) = (l, ground arith)
      moved s r' (q, some m) k e = e

      begun :
          (s : Side) (r' : Run W)
          → Live plant residue r'
          → Moved s d r.controller.applied r'.controller.applied
          → Leads (Moved s d r.controller.applied) (started port plant now s d r')
      begun entry r' l k = unfold started in (same_Live r' _ l refl refl refl, k)
      begun exit r' l k = unfold started in (same_Live r' _ l refl refl refl, k)

      settled :
          (s : Side)
          → differs (open_of s d) (open_of s r.controller.applied) ≡ false
          → Moved s d r.controller.applied r.controller.applied
      settled entry same = ground arith
      settled exit same = ground arith

  abbrev Shown : Side → DesiredOutputs → PositionSnapshot → DesiredOutputs → DesiredOutputs → Type 0
  Shown entry d p o o' =
      (o'.entry_green ≡ green_wanted entry d p)
      × (o'.exit_green ≡ o.exit_green)
      × (o'.entry_barrier_open ≡ o.entry_barrier_open)
      × (o'.exit_barrier_open ≡ o.exit_barrier_open)
  Shown exit d p o o' =
      (o'.exit_green ≡ green_wanted exit d p)
      × (o'.entry_green ≡ o.entry_green)
      × (o'.entry_barrier_open ≡ o.entry_barrier_open)
      × (o'.exit_barrier_open ≡ o.exit_barrier_open)

  show_green-Leads :
      (s : Side) (d : DesiredOutputs) (p : PositionSnapshot) (r : Run W)
      → Live plant residue r
      → Leads (Shown s d p r.controller.applied) (show_green port plant now s d p r)
  unfolding show_green
  show_green-Leads s d p r h =
      if_intro (Leads (Shown s d p r.controller.applied)) _
        (λ _.
          weaken s (command port plant now (light s (green_wanted s d p)) r)
            (command-Leads (light s (green_wanted s d p)) r h tt))
        (λ same. (h, settled s same))
    where
      weaken :
          (s : Side) (o : Outcome W)
          → Leads (λ o. o ≡ effect (light s (green_wanted s d p)) r.controller.applied) o
          → Leads (Shown s d p r.controller.applied) o
      weaken entry (r', none) (l, e) = (l, ground arith)
      weaken exit (r', none) (l, e) = (l, ground arith)
      weaken s (r', some m) q = q

      settled :
          (s : Side)
          → differs (green_wanted s d p) (green_of s r.controller.applied) ≡ false
          → Shown s d p r.controller.applied r.controller.applied
      settled entry same = ground arith
      settled exit same = ground arith

  -- The buzzer is to be off when no barrier is to open, or one that is does not report OPEN.
  unready_off :
      (ready : Bool) (r : Run W)
      → ready ≡ false
      → buzzer_on port plant now (tick_buzzer port plant now ready r).controller ≡ false
  unfolding tick_buzzer if◌then◌else◌
  unready_off ready r h = ground arith

  -- Sounding the buzzer leaves barriers and lights alone.
  sound-Leads :
      (d : DesiredOutputs) (p : PositionSnapshot) (r : Run W)
      → Live plant residue r
      → IsLit d p r.controller.applied
      → Leads (IsApplied d p) (sound port plant now d p r)
  unfolding sound ring
  sound-Leads d p r h a =
      if_intro (Leads (IsApplied d p)) _
        (λ _.
          rung (command port plant now (buzzer on) ticked)
            (command-Leads (buzzer on) ticked live tt))
        (λ same. (live, silent ticked.controller.applied old same))
    where
      ticked : Run W
      ticked = tick_buzzer port plant now (buzzer_ready d p) r

      on : Bool
      on = buzzer_on port plant now ticked.controller

      live : Live plant residue ticked
      live = unfold tick_buzzer in same_Live r _ h refl refl refl

      old : IsLit d p ticked.controller.applied
      old = unfold tick_buzzer in a

      silent : (o : DesiredOutputs) → IsLit d p o → differs on o.buzzer ≡ false → IsApplied d p o
      silent o k same = record {
        entry_open = k.entry_moved;
        exit_open = k.exit_moved;
        entry_green = k.entry_lit;
        exit_green = k.exit_lit;
        quiet = λ u. let off = unready_off (buzzer_ready d p) r u in ground arith;
      }

      rung :
          (o : Outcome W)
          → Leads (λ o. o ≡ effect (buzzer on) ticked.controller.applied) o
          → Leads (IsApplied d p) o
      rung (r', none) (l, e) = (
        l,
        record {
          entry_open = ap (λ x. x.entry_barrier_open) e ∙ old.entry_moved;
          exit_open = ap (λ x. x.exit_barrier_open) e ∙ old.exit_moved;
          entry_green = ap (λ x. x.entry_green) e ∙ old.entry_lit;
          exit_green = ap (λ x. x.exit_green) e ∙ old.exit_lit;
          quiet = λ u. ap (λ x. x.buzzer) e ∙ unready_off (buzzer_ready d p) r u;
        },
      )
      rung (r', some m) q = q

  abbrev Same : Run W → Run W → Type 0
  Same r r' =
      (r'.log ≡ r.log)
      × (r'.controller.safe_applied ≡ r.controller.safe_applied)
      × (r'.controller.applied ≡ r.controller.applied)

  confirm-Same :
      (s : Side) (d : DesiredOutputs) (p : PositionSnapshot) (r : Run W)
      → Same r (confirm port plant now s d p r)
  unfolding confirm if◌then◌else◌
  confirm-Same entry d p r = ground arith
  confirm-Same exit d p r = ground arith

  finish-Leads :
      (d : DesiredOutputs) (p : PositionSnapshot) (r : Run W)
      → Live plant residue r
      → IsApplied d p r.controller.applied
      → Leads (IsApplied d p) (finish port plant now d p r)
  unfolding finish
  finish-Leads d p r h a =
      let (la, sa, aa) = confirm-Same entry d p r in
      let (lb, sb, ab) = confirm-Same exit d p (confirm port plant now entry d p r) in
      (same_Live r _ h (lb ∙ la) (sb ∙ sa) (ab ∙ aa), subst (IsApplied d p) (sym (ab ∙ aa)) a)

  -- Once reconcile is through, the outputs are as the poll wants them.
  pub reconcile-Leads :
      (d : DesiredOutputs) (p : PositionSnapshot) (r : Run W)
      → Live plant residue r
      → Leads (IsApplied d p) (reconcile port plant now d p r)
  unfolding reconcile
  reconcile-Leads d p r h =
      Leads-and_then (IsApplied d p) (IsApplied d p) _ (finish port plant now d p)
        (Leads-and_then (IsLit d p) (IsApplied d p) _ (sound port plant now d p)
          (Leads-and_then EntryShown (IsLit d p) _ (show_green port plant now exit d p)
            (Leads-and_then BothMoved EntryShown _ (show_green port plant now entry d p)
              (Leads-and_then EntryMoved BothMoved _ (move_barrier port plant now exit d)
                (map-Leads (Moved entry d r.controller.applied) EntryMoved _ (λ o k. k.0)
                  (move_barrier-Leads entry d r h))
                (λ r' l k.
                  map-Leads (Moved exit d r'.controller.applied) BothMoved _ (λ o m. (m.1 ∙ k, m.0))
                    (move_barrier-Leads exit d r' l)))
              (λ r' l k.
                map-Leads (Shown entry d p r'.controller.applied) EntryShown _
                  (λ o m. ((m.2 ∙ k.0, m.3 ∙ k.1), m.0)) (show_green-Leads entry d p r' l)))
            (λ r' l k.
              map-Leads (Shown exit d p r'.controller.applied) (IsLit d p) _
                (λ o m. record {
                  entry_moved = m.2 ∙ k.0.0;
                  exit_moved = m.3 ∙ k.0.1;
                  entry_lit = m.1 ∙ k.1;
                  exit_lit = m.0;
                })
                (show_green-Leads exit d p r' l)))
          (λ r' l k. sound-Leads d p r' l k))
        (λ r' l k. finish-Leads d p r' l k)
    where
      EntryMoved : DesiredOutputs → Type 0
      EntryMoved o = o.entry_barrier_open ≡ d.entry_barrier_open

      BothMoved : DesiredOutputs → Type 0
      BothMoved o = EntryMoved o × (o.exit_barrier_open ≡ d.exit_barrier_open)

      EntryShown : DesiredOutputs → Type 0
      EntryShown o = BothMoved o × (o.entry_green ≡ green_wanted entry d p)
