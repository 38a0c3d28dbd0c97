-- ===== src/Engine/Receipt.antt =====
-- What a transaction says of its ticket is written by a commit alone: every other part of the engine
-- leaves it as it is.
use plantops_edge_scale.Base.{◌≡◌, List, Option, none, some, arith, if_intro, if◌then◌else◌, String}
use plantops_edge_scale.Domain.Types.{
  Time, AuditedScaleReading, PositionSnapshot, RfidObservation, LprObservation, Fault, Override,
  DeviceId,
}
use plantops_edge_scale.Domain.Workflow.{Transaction, WeightAcceptance, BlockReason}
use plantops_edge_scale.Engine.Record.{
  Engine, Env, Resolution, failed, unknown, found, lock, sync_fault_slice, update_mode,
}
use plantops_edge_scale.Engine.Identity.{
  authorize_on, try_authorize_entry, cross_check, check_both, accept_plate, accept_vehicle,
  accept_tag, mismatch_identity, evaluate_identity,
}
use plantops_edge_scale.Engine.Position.{evaluate_position, try_ready_to_weigh}
use plantops_edge_scale.Engine.Presence.{
  admit, enter_deck, settle, reach_exit, clear_exit, position_step,
}
use plantops_edge_scale.Engine.Weighing.{approach_weighing}
use plantops_edge_scale.Engine.Handlers.{rfid_step, lpr_step, fault_step, clear_step, override_step}

-- The accepted weight, the ticket, the time of its commit, and whose they are.
pub record Receipt : Type 0 where
  pub weight : Option WeightAcceptance
  pub ticket : String
  pub at : Option Time
  pub of : String

abbrev pub receipt : Transaction → Receipt
receipt t = record {
  weight = t.accepted_weight;
  ticket = t.ticket_id;
  at = t.local_committed_at;
  of = t.id;
}

module _ (x : Receipt) where
  pub record HasReceipt (t : Transaction) : Type 0 where
    pub has : receipt t ≡ x

  lock-HasReceipt :
      (env : Env) (r : BlockReason) (t : Transaction) → HasReceipt t → HasReceipt (lock env r t)
  unfolding lock
  lock-HasReceipt env r t h = record { has = h.has }

  module _ {S : Type 0} (env : Env) (e : Engine S) where
    authorize_on-HasReceipt :
        (o : Option AuditedScaleReading) (t : Transaction)
        → HasReceipt t
        → HasReceipt (authorize_on env e o t)
    unfolding authorize_on lock
    authorize_on-HasReceipt none t h = record { has = h.has }
    authorize_on-HasReceipt (some a) t h =
        if_intro HasReceipt _ (λ _. record { has = h.has })
          λ _. if_intro HasReceipt _ (λ _. record { has = h.has }) (λ _. record { has = h.has })

    pub try_authorize_entry-HasReceipt :
        (t : Transaction) → HasReceipt t → HasReceipt (try_authorize_entry env e t)
    unfolding try_authorize_entry
    try_authorize_entry-HasReceipt t h =
        if_intro HasReceipt _ (λ _. record { has = h.has })
          λ _.
            if_intro HasReceipt _ (λ _. record { has = h.has })
              λ _.
                if_intro HasReceipt _ (λ _. record { has = h.has })
                  (λ _. authorize_on-HasReceipt e.last_scale t h)

    pub evaluate_position-HasReceipt :
        (t : Transaction) → HasReceipt t → HasReceipt (evaluate_position env e t)
    unfolding evaluate_position if◌then◌else◌
    evaluate_position-HasReceipt t h = ground arith

    pub try_ready_to_weigh-HasReceipt :
        (t : Transaction) → HasReceipt t → HasReceipt (try_ready_to_weigh env e t)
    unfolding try_ready_to_weigh lock if◌then◌else◌
    try_ready_to_weigh-HasReceipt t h = ground arith

    cross_check-HasReceipt :
        (r : Resolution) (t : Transaction) → HasReceipt t → HasReceipt (cross_check env e r t)
    unfolding cross_check mismatch_identity
    cross_check-HasReceipt (failed m) t h = record { has = h.has }
    cross_check-HasReceipt unknown t h = record { has = h.has }
    cross_check-HasReceipt (found v) t h =
        if_intro HasReceipt _ (λ _. record { has = h.has })
          λ _.
            try_authorize_entry-HasReceipt _
              (if_intro HasReceipt _ (λ _. record { has = h.has }) (λ _. record { has = h.has }))

    check_both-HasReceipt :
        (o : Option (String → Resolution)) (t : Transaction)
        → HasReceipt t
        → HasReceipt (check_both env e o t)
    unfolding check_both
    check_both-HasReceipt none t h = record { has = h.has }
    check_both-HasReceipt (some resolve) t h = cross_check-HasReceipt (resolve t.rfid.tag) t h

    accept_plate-HasReceipt : (t : Transaction) → HasReceipt t → HasReceipt (accept_plate env e t)
    unfolding accept_plate
    accept_plate-HasReceipt t h = try_authorize_entry-HasReceipt _ (record { has = h.has })

    accept_vehicle-HasReceipt :
        (r : Resolution) (t : Transaction) → HasReceipt t → HasReceipt (accept_vehicle env e r t)
    unfolding accept_vehicle
    accept_vehicle-HasReceipt (found v) t h =
        try_authorize_entry-HasReceipt _ (record { has = h.has })
    accept_vehicle-HasReceipt (failed m) t h = record { has = h.has }
    accept_vehicle-HasReceipt unknown t h = record { has = h.has }

    accept_tag-HasReceipt :
        (o : Option (String → Resolution)) (t : Transaction)
        → HasReceipt t
        → HasReceipt (accept_tag env e o t)
    unfolding accept_tag
    accept_tag-HasReceipt none t h = record { has = h.has }
    accept_tag-HasReceipt (some resolve) t h = accept_vehicle-HasReceipt (resolve t.rfid.tag) t h

    pub evaluate_identity-HasReceipt :
        (t : Transaction) → HasReceipt t → HasReceipt (evaluate_identity env e t)
    unfolding evaluate_identity
    evaluate_identity-HasReceipt t h =
        if_intro HasReceipt _ (λ _. record { has = h.has })
          λ _.
            if_intro HasReceipt _ (λ _. check_both-HasReceipt e.registry t h)
              λ _.
                if_intro HasReceipt _ (λ _. accept_plate-HasReceipt t h)
                  λ _.
                    if_intro HasReceipt _ (λ _. accept_tag-HasReceipt e.registry t h)
                      λ _.
                        if_intro HasReceipt _ (λ _. record { has = h.has })
                          (λ _. record { has = h.has })

  pub update_mode-HasReceipt :
      (fs : List Fault) (t : Transaction) → HasReceipt t → HasReceipt (update_mode fs t)
  unfolding update_mode
  update_mode-HasReceipt fs t h =
      if_intro HasReceipt _ (λ _. record { has = h.has }) (λ _. record { has = h.has })

  pub sync-HasReceipt :
      (fs : List Fault) (t : Transaction) → HasReceipt t → HasReceipt (sync_fault_slice fs t)
  unfolding sync_fault_slice
  sync-HasReceipt fs t h = record { has = h.has }

  module _ {S : Type 0} (env : Env) (e : Engine S) where
    pub admit-HasReceipt : (t : Transaction) → HasReceipt t → HasReceipt (admit env e t)
    unfolding admit
    admit-HasReceipt t h =
        if_intro HasReceipt _ (λ _. try_authorize_entry-HasReceipt env e t h)
          (λ _. record { has = h.has })

    enter_deck-HasReceipt :
        (p : PositionSnapshot) (t : Transaction) → HasReceipt t → HasReceipt (enter_deck env p t)
    unfolding enter_deck
    enter_deck-HasReceipt p t h =
        if_intro HasReceipt _ (λ _. record { has = h.has }) (λ _. record { has = h.has })

    settle-HasReceipt :
        (p : PositionSnapshot) (t : Transaction) → HasReceipt t → HasReceipt (settle env e p t)
    unfolding settle
    settle-HasReceipt p t h =
        let placed =
          evaluate_position-HasReceipt env e _
            (if_intro HasReceipt _ (λ _. record { has = h.has }) (λ _. record { has = h.has })) in
        if_intro HasReceipt _
          (λ _.
            if_intro HasReceipt _ (λ _. try_ready_to_weigh-HasReceipt env e _ placed) (λ _. placed))
          (λ _. record { has = h.has })

    reach_exit-HasReceipt :
        (p : PositionSnapshot) (t : Transaction) → HasReceipt t → HasReceipt (reach_exit env p t)
    unfolding reach_exit
    reach_exit-HasReceipt p t h =
        if_intro HasReceipt _ (λ _. record { has = h.has }) (λ _. record { has = h.has })

    clear_exit-HasReceipt :
        (p : PositionSnapshot) (t : Transaction) → HasReceipt t → HasReceipt (clear_exit env p t)
    unfolding clear_exit
    clear_exit-HasReceipt p t h =
        if_intro HasReceipt _
          (λ _. if_intro HasReceipt _ (λ _. record { has = h.has }) (λ _. record { has = h.has }))
          (λ _. record { has = h.has })

    pub position_step-HasReceipt :
        (p : PositionSnapshot) (t : Transaction)
        → HasReceipt t
        → HasReceipt (position_step env e p t)
    unfolding position_step
    position_step-HasReceipt p t h =
        if_intro HasReceipt _ (λ _. record { has = h.has })
          λ _. clear_exit-HasReceipt p _ (
            reach_exit-HasReceipt p _ (
              settle-HasReceipt p _
                (enter_deck-HasReceipt p _ (admit-HasReceipt _ (record { has = h.has })))))

    pub rfid_step-HasReceipt :
        (o : RfidObservation) (t : Transaction) → HasReceipt t → HasReceipt (rfid_step env e o t)
    unfolding rfid_step
    rfid_step-HasReceipt o t h =
        if_intro HasReceipt _ (λ _. evaluate_identity-HasReceipt env e _ (record { has = h.has }))
          (λ _. record { has = h.has })

    pub lpr_step-HasReceipt :
        (o : LprObservation) (t : Transaction) → HasReceipt t → HasReceipt (lpr_step env e o t)
    unfolding lpr_step
    lpr_step-HasReceipt o t h =
        if_intro HasReceipt _ (λ _. evaluate_identity-HasReceipt env e _ (record { has = h.has }))
          (λ _. record { has = h.has })

    pub fault_step-HasReceipt :
        (f : Fault) (t : Transaction) → HasReceipt t → HasReceipt (fault_step env e f t)
    unfolding fault_step
    fault_step-HasReceipt f t h =
        let synced = sync-HasReceipt e.faults t h in
        let moded = update_mode-HasReceipt e.faults _ synced in
        if_intro HasReceipt _ (λ _. lock-HasReceipt env _ _ synced)
          λ _.
            evaluate_identity-HasReceipt env e _
              (if_intro HasReceipt _ (λ _. evaluate_position-HasReceipt env e _ moded) (λ _. moded))

    pub clear_step-HasReceipt :
        (d : DeviceId) (t : Transaction) → HasReceipt t → HasReceipt (clear_step env e d t)
    unfolding clear_step
    clear_step-HasReceipt d t h =
        let synced = sync-HasReceipt e.faults t h in
        let moded =
          if_intro HasReceipt _ (λ _. synced) (λ _. update_mode-HasReceipt e.faults _ synced) in
        evaluate_identity-HasReceipt env e _
          (if_intro HasReceipt _ (λ _. evaluate_position-HasReceipt env e _ moded) (λ _. moded))

    pub override_step-HasReceipt :
        (o : Override) (t : Transaction) → HasReceipt t → HasReceipt (override_step env e o t)
    unfolding override_step
    override_step-HasReceipt o t h =
        let moded = update_mode-HasReceipt e.faults _ (record { has = h.has }) in
        evaluate_identity-HasReceipt env e _ (
          if_intro HasReceipt _
            (λ _.
              try_ready_to_weigh-HasReceipt env e _ (evaluate_position-HasReceipt env e _ moded))
            (λ _. moded))

    pub approach_weighing-HasReceipt :
        (t : Transaction) → HasReceipt t → HasReceipt (approach_weighing env e t)
    unfolding approach_weighing
    approach_weighing-HasReceipt t h =
        let ready = try_ready_to_weigh-HasReceipt env e _ (admit-HasReceipt t h) in
        if_intro HasReceipt _ (λ _. record { has = ready.has }) (λ _. ready)
