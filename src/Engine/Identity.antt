-- ===== src/Engine/Identity.antt =====
-- internal/engine/engine.go: the identity decision, the entry interlock, the position decision and
-- the way to the weighing state. Each maps the active transaction to the next one.
use plantops_edge_scale.Base.{
  ℕ, Bool, true, false, ◌||◌, ◌&&◌, not, String, str_eq, List, [], ◌∷◌, Option, none, some, map, ℤ,
  pos, ltb_ℤ, sub64, if◌then◌else◌, is_some, Unicode, codes, codes_eq, equal_fold, trim_space,
}
use plantops_edge_scale.Domain.Types.{Mode, Health, DeviceId, AuditedScaleReading, Override, Fault}
use plantops_edge_scale.Domain.Device
use plantops_edge_scale.Domain.Workflow.{
  identifying, identity_mismatch, entry_authorized, IdentityStatus, is_identity_accepted,
  BlockReason, IdentityReason, Transaction, evidence_identity_confirmed,
}
use plantops_edge_scale.Domain.State
use plantops_edge_scale.Domain.Policy.{is_unhealthy}
use plantops_edge_scale.Engine.Record.{
  Engine, Env, Resolution, failed, unknown, found, lookup_fault, block, lock, transition,
}

keep_alphanumeric : Unicode → List ℕ → List ℕ
keep_alphanumeric u [] = []
keep_alphanumeric u (c ∷ cs) =
    let rest = keep_alphanumeric u cs in if u.is_letter c || u.is_digit c then c ∷ rest else rest

unfoldable pub normalize_plate : Unicode → String → List ℕ
unfolding keep_alphanumeric
normalize_plate u s = keep_alphanumeric u (map u.to_upper (codes s))

-- The inner loop of hasOverrideLocked.
unfoldable pub has_evidence : Unicode → String → List String → Bool
unfolding equal_fold trim_space
has_evidence u evidence [] = false
has_evidence u evidence (ev ∷ rest) =
    equal_fold u (trim_space u (codes ev)) (codes evidence) || has_evidence u evidence rest

-- hasOverrideLocked: an unexpired override of the device that carries the evidence.
unfoldable pub has_override : Unicode → DeviceId → String → List Override → Bool
has_override u device evidence [] = false
has_override u device evidence (o ∷ rest) =
    (str_eq o.device device && (not (is_some o.expired_at) && has_evidence u evidence o.evidence))
    || has_override u device evidence rest

-- abs64: on int64 the negation of the least value is that value.
unfoldable pub abs64 : ℤ → ℤ
unfolding sub64
abs64 v = if ltb_ℤ v (pos 0) then sub64 (pos 0) v else v

-- The entry interlock's test of the latest audited reading.
unfoldable pub authorize_on :
    {S : Type 0} → Env → Engine S → Option AuditedScaleReading → Transaction → Transaction
unfolding lock
authorize_on env e none t =
    block (BlockReason.text "entry blocked until an audited scale reading proves empty deck") t
authorize_on env e (some a) t =
    let r = a.reading in
    if is_unhealthy r
    then lock env (BlockReason.text "entry blocked: authoritative scale unhealthy/faulted/overload")
        t
    else if not r.stable || ltb_ℤ e.cfg.empty_scale_max_kg (abs64 r.weight_kg)
    then block (BlockReason.not_empty r.weight_kg r.stable) t
    else record (transition env entry_authorized t) {
      outputs = record t.outputs { entry_green = true; entry_barrier_open = true };
      last_block_reason = BlockReason.clear;
    }

-- tryAuthorizeEntryLocked
unfoldable pub try_authorize_entry : {S : Type 0} → Env → Engine S → Transaction → Transaction
try_authorize_entry env e t =
    let p = t.position_snapshot in
    if not (is_identity_accepted t.identity) || State.is_lockout t.state
    then t
    else if not p.safety_clear
    then block (BlockReason.text "physical safety is not clear for entry barrier motion") t
    else if p.front_present || p.rear_present
    then block (BlockReason.text "scale deck position sensors show occupied") t
    else authorize_on env e e.last_scale t

abbrev manual_identity : BlockReason → Transaction → Transaction
manual_identity r t = record t {
  identity = IdentityStatus.manual;
  mode = Mode.manual;
  last_block_reason = r;
}

-- The channel has a recorded fault, or reports itself faulty or disconnected.
abbrev pub is_faulty : Health → Bool
is_faulty Health.fault = true
is_faulty Health.disconnected = true
is_faulty _ = false

-- faults[d].Device != "": the zero Fault of a missing key has the empty device.
abbrev pub named_fault : Option Fault → Bool
named_fault none = false
named_fault (some f) = not (str_eq f.device "")

abbrev pub rfid_bad : {S : Type 0} → Engine S → Transaction → Bool
rfid_bad e t = named_fault (lookup_fault Device.rfid e.faults) || is_faulty t.rfid.health

abbrev pub lpr_bad : {S : Type 0} → Engine S → Transaction → Bool
lpr_bad e t = named_fault (lookup_fault Device.lpr e.faults) || is_faulty t.lpr.health

unfoldable pub mismatch_identity : Env → String → Transaction → Transaction
mismatch_identity env plate t = record t {
  identity = IdentityStatus.mismatch;
  identity_reason = IdentityReason.plates_differ plate t.lpr.plate;
  state = identity_mismatch;
  updated_at = env.now;
  outputs = record t.outputs { entry_green = false; entry_barrier_open = false };
}

-- The plates of the registry and of the camera match.
abbrev pub accept_match : Env → Transaction → Transaction
accept_match env t =
    let accepted = record t {
      identity = IdentityStatus.accepted;
      identity_reason = IdentityReason.match;
    } in
    if State.is_identity_mismatch t.state then transition env identifying accepted else accepted

-- Both channels work: the registry's answer is cross-checked with the plate.
unfoldable pub cross_check : {S : Type 0} → Env → Engine S → Resolution → Transaction → Transaction
cross_check env e (failed m) t = manual_identity (BlockReason.registry_failed m) t
cross_check env e unknown t =
    manual_identity (BlockReason.text "RFID is not mapped to a known vehicle") t
cross_check env e (found v) t =
    if not
      (codes_eq (normalize_plate env.unicode v.plate) (normalize_plate env.unicode t.lpr.plate))
    then mismatch_identity env v.plate t
    else try_authorize_entry env e (accept_match env t)

unfoldable pub check_both :
    {S : Type 0} → Env → Engine S → Option (String → Resolution) → Transaction → Transaction
check_both env e none t =
    manual_identity
      (BlockReason.text "vehicle registry unavailable; RFID/LPR cannot be cross-checked") t
check_both env e (some resolve) t = cross_check env e (resolve t.rfid.tag) t

-- RFID is bad, and an override confirms the plate that was read.
unfoldable pub accept_plate : {S : Type 0} → Env → Engine S → Transaction → Transaction
accept_plate env e t = try_authorize_entry env e (record t {
  identity = IdentityStatus.accepted;
  identity_reason = IdentityReason.rfid_degraded;
  mode = Mode.degraded;
})

-- LPR is bad, and an override confirms the vehicle that the registry has for the tag.
unfoldable pub accept_vehicle :
    {S : Type 0} → Env → Engine S → Resolution → Transaction → Transaction
accept_vehicle env e (found v) t = try_authorize_entry env e (record t {
  lpr = record {
    plate = v.plate;
    confidence = 0;
    image_ref = "";
    health = Health.fault;
    observed = t.rfid.observed;
  };
  identity = IdentityStatus.accepted;
  identity_reason = IdentityReason.lpr_degraded;
  mode = Mode.degraded;
})
accept_vehicle env e (failed m) t =
    manual_identity (BlockReason.text "LPR degraded and RFID identity cannot be resolved") t
accept_vehicle env e unknown t =
    manual_identity (BlockReason.text "LPR degraded and RFID identity cannot be resolved") t

unfoldable pub accept_tag :
    {S : Type 0} → Env → Engine S → Option (String → Resolution) → Transaction → Transaction
accept_tag env e none t =
    manual_identity (BlockReason.text "LPR degraded but vehicle registry unavailable") t
accept_tag env e (some resolve) t = accept_vehicle env e (resolve t.rfid.tag) t

-- evaluateIdentityLocked; it always returns nil.
unfoldable pub evaluate_identity : {S : Type 0} → Env → Engine S → Transaction → Transaction
evaluate_identity env e t =
    let rfid_out = rfid_bad e t in
    let lpr_out = lpr_bad e t in
    let has_tag = not (str_eq t.rfid.tag "") in
    let has_plate = not (str_eq t.lpr.plate "") in
    let confirmed =
      λ (d : DeviceId). has_override env.unicode d evidence_identity_confirmed t.overrides in
    if State.is_lockout t.state || State.is_complete t.state
    then t
    else if (not rfid_out && has_tag) && (not lpr_out && has_plate)
    then check_both env e e.registry t
    else if (rfid_out && not lpr_out) && (has_plate && confirmed Device.rfid)
    then accept_plate env e t
    else if (lpr_out && not rfid_out) && (has_tag && confirmed Device.lpr)
    then accept_tag env e e.registry t
    else if rfid_out && lpr_out
    then manual_identity
        (BlockReason.text "both identity channels unavailable; supervisor manual identity required")
        t
    else t
