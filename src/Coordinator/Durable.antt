-- ===== src/Coordinator/Durable.antt =====
-- The ticket that RecordSecondPass returns, against the ticket that the store keeps.
use mathlib.Core.Path.{subst}
use plantops_edge_scale.Base.{
  ◌≡◌, ◌≢◌, refl, sym, ap, ◌∙◌, Bool, true, false, not, str_eq, List, [], ◌∷◌, ◌++◌, Option, none,
  some, ℤ, if◌then◌else◌, if_intro,
}
use plantops_edge_scale.Domain.Types.{Time, is_zero, Ticket, Mode, Override}
use plantops_edge_scale.Domain.Workflow.{CycleStatus, PassNumber}
use plantops_edge_scale.Domain.Cycle.{
  WeighPass, PairPolicy, PairReason, PairValidation, Duration, validate_pair, conclude_pair,
  is_b_to_a,
}
use plantops_edge_scale.Domain.WeighCycle.{WeighCycle, no_policy}
use plantops_edge_scale.Store.{Db, Try, ok, err, settle, bad_pair, not_called, no_ticket_id}
use plantops_edge_scale.Store.Cycles.{
  Call, or_time, completed, complete_tx, complete_steps, final_ticket, or_mode, or_overrides,
}
use plantops_edge_scale.Store.Rows.{Ensures, Ensures-refuse_if}
use plantops_edge_scale.Coordinator.Adds.{Adds, complete_tx-Adds}
use plantops_edge_scale.Coordinator.{
  complete_answer, pair_found, reject_pair, Coordinator, Env, Answer, Paired, base_ticket,
  paired_ticket, second_given, finish_pair, pair_with, record_second_pass,
}

if_false {ℓ} : {A : Type ℓ} (b : Bool) (x y : A) → b ≡ false → (if b then x else y) ≡ y
if_false b x y h = if_intro (λ z. z ≡ y) b (λ e. absurd (cc)) (λ _. refl)

not-false : (b : Bool) → not b ≡ false → b ≡ true
not-false true h = refl
not-false false h = absurd (cc)

if_same {ℓ} : {A : Type ℓ} (b : Bool) (x : A) → (if b then x else x) ≡ x
if_same b x = if_intro (λ y. y ≡ x) b (λ _. refl) (λ _. refl)

mode_same : (m : Mode) → or_mode m m ≡ m
mode_same Mode.unset = refl
mode_same Mode.normal = refl
mode_same Mode.degraded = refl
mode_same Mode.manual = refl
mode_same Mode.lockout = refl

overrides_same : (os : List Override) → or_overrides os os ≡ os
overrides_same [] = refl
overrides_same (o ∷ os) = refl

-- The ticket as the store keeps it: with the legacy weight fields set.
abbrev pub as_kept : Ticket → Ticket
as_kept t = record t {
  weight_kg = t.net_kg;
  weight_observed_at = t.second_weight_observed_at;
  weight_raw_ref = t.second_weight_raw_ref;
}

final-base :
    (env : Env) (c : WeighCycle) (pass : WeighPass) (now : Time)
    → final_ticket (base_ticket env c pass now) c pass now
      ≡ as_kept (paired_ticket (base_ticket env c pass now) c pass)
unfolding final_ticket
final-base env c pass now = simp (if_same, mode_same, overrides_same)

-- Two validations of the same passes that are both valid are the same.
conclude-same :
    (g t n : ℤ) (e : Duration) (o o' : Option (CycleStatus × PairReason))
    → (conclude_pair g t n e o).valid ≡ true
    → (conclude_pair g t n e o').valid ≡ true
    → conclude_pair g t n e o ≡ conclude_pair g t n e o'
unfolding conclude_pair
conclude-same g t n e none none h k = refl
conclude-same g t n e none (some x) h k = absurd (cc)
conclude-same g t n e (some x) o' h k = absurd (cc)

validations-same :
    (first second : WeighPass) (p q : PairPolicy)
    → (validate_pair first second p).valid ≡ true
    → (validate_pair first second q).valid ≡ true
    → validate_pair first second p ≡ validate_pair first second q
unfolding validate_pair
validations-same first second p q h k = conclude-same _ _ _ _ _ _ h k

-- The cycle that the coordinator completes, and its ticket.
module _ (env : Env) (open_ : WeighCycle) (pass : WeighPass) (policy : PairPolicy)
    (now : Time) where
  abbrev validation : PairPolicy → PairValidation
  validation p = validate_pair open_.first_pass pass p

  abbrev whole : WeighCycle
  whole = completed open_ pass (validation policy) now

  abbrev given : Ticket
  given = base_ticket env whole pass now

  final_as : WeighPass → PairValidation → Time → Ticket
  final_as s w n = final_ticket given (completed whole s w n) s n

  final-same :
      (s : WeighPass) (w : PairValidation) (n : Time)
      → s ≡ pass
      → w ≡ validation policy
      → n ≡ now
      → final_as s w n ≡ as_kept (paired_ticket given whole pass)
  unfolding final_as
  final-same s w n se we ne =
      ap (λ s. final_as s w n) se
      ∙ ap (λ w. final_as pass w n) we
      ∙ ap (λ n. final_as pass (validation policy) n) ne
      ∙ final-base env whole pass now

  -- The store finds the pair valid again, and keeps the ticket.
  complete_steps-Adds :
      (call : Call) (db : Db)
      → record pass { cycle_id = open_.id; number = PassNumber.second } ≡ pass
      → is_zero now ≡ false
      → (validation policy).valid ≡ true
      → Ensures
          (Adds db (as_kept (paired_ticket given whole pass)))
          (complete_steps call whole given db)
  unfolding complete_steps final_as
  complete_steps-Adds call db se ne ve =
      let second = record pass { cycle_id = open_.id; number = PassNumber.second } in
      let v = validate_pair open_.first_pass second no_policy in
      let n = or_time now call.now in
      let target = Adds db (as_kept (paired_ticket given whole pass)) in
      Ensures-refuse_if target (not v.valid) (bad_pair v.reason) _ (λ valid.
        let again = ap (λ s. validate_pair open_.first_pass s no_policy) se in
        let both =
          validations-same open_.first_pass pass no_policy policy
            (sym (ap (λ w. w.valid) again) ∙ not-false v.valid valid) ve in
        let same =
          final-same second v n se (again ∙ both) (if_false (is_zero now) call.now now ne) in
        Ensures-refuse_if target false (not_called CycleStatus.complete) _ (λ _.
          Ensures-refuse_if target (str_eq (final_as second v n).id "") no_ticket_id _ (λ _.
            subst
              (λ t.
                Ensures (Adds db t)
                  (complete_tx call (completed whole second v n) second (final_as second v n) n db))
              same
              (complete_tx-Adds call (completed whole second v n) second (final_as second v n) n
                db))))

-- No error: a pair that is valid under the policy, and the returned ticket's row at the end of tickets.
abbrev pub Kept : PairPolicy → Db → Db × Answer Paired → Type 0
Kept policy db r =
    r.1.error ≡ none
    → (c : WeighCycle) × ((t : Ticket) × ((s : WeighPass) × ((r.1.value ≡ some (c, some t))
            × ((c.second_pass ≡ some s)
                × (((validate_pair c.first_pass s policy).valid ≡ true)
                    × (r.0.tickets
                        ≡ db.tickets
                          ++ record {
                            ticket = as_kept t;
                            cycle_id = t.cycle_id;
                            synced_at = t.synced_at;
                          }
                            ∷ []))))))

abbrev Fails : Db × Answer Paired → Type 0
Fails r = r.1.error ≢ none

answer-Kept :
    (policy : PairPolicy) (c : WeighCycle) (t : Ticket) (s : WeighPass) (db : Db) (r : Try Db)
    → c.second_pass ≡ some s
    → (validate_pair c.first_pass s policy).valid ≡ true
    → Ensures (Adds db (as_kept t)) r
    → Kept policy db (complete_answer c t (settle db r))
answer-Kept policy c t s db (ok db') e v h _ = (c, (t, (s, (refl, (e, (v, h))))))
answer-Kept policy c t s db (err m) e v h k = absurd (cc)

reject_pair-fails :
    (env : Env) (policy : PairPolicy) (open_ : WeighCycle) (v : PairValidation) (db : Db)
    → (reject_pair env policy open_ v db).1.error ≢ none
unfolding reject_pair
reject_pair-fails env policy open_ v db =
    if_intro Fails _ (λ _ h. absurd (cc))
      (λ _. if_intro Fails _ (λ _ h. absurd (cc)) (λ _ h. absurd (cc)))

pair_with-Kept :
    (env : Env) (policy : PairPolicy) (open_ : WeighCycle) (given : WeighPass) (db : Db)
    → is_zero (env.clock 1) ≡ false
    → given.number ≡ PassNumber.second
    → Kept policy db (pair_with env policy open_ given db)
unfolding pair_with finish_pair
pair_with-Kept env policy open_ given db z second =
    let pass = record given { cycle_id = open_.id } in
    if_intro (Kept policy db) (not (validate_pair open_.first_pass pass policy).valid)
      (λ _ h.
        absurd
          (reject_pair-fails env policy open_ (validate_pair open_.first_pass pass policy) db h))
      (λ v. answer-Kept policy _ _ pass db _ refl (not-false _ v) (
        complete_steps-Adds env open_ pass policy (env.clock 1) (env.calls 1) db
          (ap (λ n. record pass { number = n }) (sym second)) z (not-false _ v)))

pair_found-Kept :
    (env : Env) (policy : PairPolicy) (given : WeighPass) (db : Db) (r : Try (Option WeighCycle))
    → is_zero (env.clock 1) ≡ false
    → given.number ≡ PassNumber.second
    → Kept policy db (pair_found env policy given db r)
pair_found-Kept env policy first db (err e) z second = λ h. absurd (cc)
pair_found-Kept env policy first db (ok none) z second = λ h. absurd (cc)
pair_found-Kept env policy first db (ok (some open_)) z second =
    pair_with-Kept env policy open_ first db z second

-- When RecordSecondPass returns no error and the clock is not at Go's zero time, the cycle that it
-- returns holds a second pass that is a valid pair with the first under the coordinator's policy, and the
-- store has gained one ticket: the returned one under its cycle, with the legacy weight fields set to the
-- net weight and to the second pass's time and raw reference. All other fields are those returned.
pub record_second_pass-Kept :
    (env : Env) (k : Coordinator) (pass : WeighPass) (db : Db)
    → is_zero (env.clock 1) ≡ false
    → (record_second_pass env k pass db).1.error ≡ none
    → (c : WeighCycle) × ((t : Ticket) × ((s : WeighPass) × (((record_second_pass env k pass
                db).1.value
              ≡ some (c, some t))
            × ((c.second_pass ≡ some s)
                × (((validate_pair c.first_pass s k.policy).valid ≡ true)
                    × ((record_second_pass env k pass db).0.tickets
                        ≡ db.tickets
                          ++ record {
                            ticket = as_kept t;
                            cycle_id = t.cycle_id;
                            synced_at = t.synced_at;
                          }
                            ∷ []))))))
unfolding record_second_pass
record_second_pass-Kept env k pass db z =
    if_intro (Kept k.policy db) (not k.has_store) (λ _ h. absurd (cc))
      (λ _.
        if_intro (Kept k.policy db) (not (is_b_to_a pass.direction)) (λ _ h. absurd (cc))
          (λ _. pair_found-Kept env k.policy (second_given env pass) db _ z refl))
