-- ===== src/RemoteIo/Gate.antt =====
-- No permissive command reaches the plant before its intent stands in the audit.
use plantops_edge_scale.Base.{
  ◌≡◌, refl, true, not, String, List, [], ◌∷◌, Option, none, some, is_some, if_intro,
}
use plantops_edge_scale.RemoteIo.{Command, light, barrier, buzzer, safe_state}
use plantops_edge_scale.RemoteIo.AuditedOutputs.{
  AuditedOutputs, OutputEvent, OutputError, recorded, executed, audit_failed, Trace, intent, result,
  event_of, is_permissive, noted, run_command, gated, command_on, audit_answer, message,
  audited_command, audited_safe_state, safe_answer, safe_on, call_output, call_outputs,
}

-- The last thing that happened is the record of the command's intent.
abbrev pub Announced : Command → Trace → Type 0
Announced c [] = ⊥
Announced c (recorded e ∷ tr) = e ≡ event_of intent c
Announced c (executed d ∷ tr) = ⊥
Announced c (audit_failed m ∷ tr) = ⊥

-- Each permissive command that was executed had been announced just before.
abbrev pub IsGated : Trace → Type 0
IsGated [] = Unit
IsGated (recorded e ∷ tr) = IsGated tr
IsGated (audit_failed m ∷ tr) = IsGated tr
IsGated (executed c ∷ tr) = (is_permissive c ≡ true → Announced c tr) × IsGated tr

noted-IsGated :
    (e : OutputEvent) (o : Option String) (tr : Trace) → IsGated tr → IsGated (noted e o tr)
noted-IsGated e none tr h = h
noted-IsGated e (some m) tr h = h

abbrev Gated {ℓ} : {A : Type ℓ} → Trace × A → Type 0
Gated r = IsGated r.0

module _ (a : AuditedOutputs) (inner : Trace → Command → Option String) (c : Command) where
  run-Gated :
      (tr : Trace)
      → (is_permissive c ≡ true → Announced c tr)
      → IsGated tr
      → Gated (run_command a inner c tr)
  run-Gated tr k h =
      noted-IsGated (event_of (result (not (is_some (inner tr c))) (message (inner tr c))) c)
        (audit_answer a (event_of (result (not (is_some (inner tr c))) (message (inner tr c))) c)
          (executed c ∷ tr))
        (executed c ∷ tr) (k, h)

  gated-Gated : (tr : Trace) (o : Option String) → IsGated tr → Gated (gated a inner c tr o)
  gated-Gated tr (some m) h = h
  gated-Gated tr none h = run-Gated (recorded (event_of intent c) ∷ tr) (λ _. refl) h

command-Gated :
    (a : AuditedOutputs) (c : Command) (tr : Trace) (o : Option (Trace → Command → Option String))
    → IsGated tr
    → Gated (command_on a c tr o)
command-Gated a c tr none h = h
command-Gated a c tr (some inner) h =
    if_intro (Gated {A = Option OutputError}) (is_permissive c)
      (λ _. gated-Gated a inner c tr (audit_answer a (event_of intent c) tr) h)
      (λ e. run-Gated a inner c tr (λ k. absurd (cc)) h)

safe_answer-Gated :
    (a : AuditedOutputs) (tr : Trace) (o : Option String) → IsGated tr → Gated (safe_answer a tr o)
safe_answer-Gated a tr (some m) h = (λ k. absurd (cc), h)
safe_answer-Gated a tr none h =
    noted-IsGated (event_of (result true "") safe_state)
      (audit_answer a (event_of (result true "") safe_state) (executed safe_state ∷ tr))
      (executed safe_state ∷ tr) (λ k. absurd (cc), h)

safe-Gated :
    (a : AuditedOutputs) (tr : Trace) (o : Option (Trace → Command → Option String))
    → IsGated tr
    → Gated (safe_on a tr o)
safe-Gated a tr none h = h
safe-Gated a tr (some inner) h = safe_answer-Gated a tr (inner tr safe_state) h

call-Gated :
    (a : AuditedOutputs) (c : Command) (tr : Trace) → IsGated tr → Gated (call_output a c tr)
unfolding call_output audited_command audited_safe_state
call-Gated a safe_state tr h = safe-Gated a tr a.inner h
call-Gated a (light s b) tr h = command-Gated a (light s b) tr a.inner h
call-Gated a (barrier s b) tr h = command-Gated a (barrier s b) tr a.inner h
call-Gated a (buzzer b) tr h = command-Gated a (buzzer b) tr a.inner h

-- Whatever the audit and the plant answer, over any sequence of output calls every permissive command
-- that is executed has the record of its own intent directly before it.
pub call_outputs-IsGated :
    (a : AuditedOutputs) (cs : List Command) (tr : Trace)
    → IsGated tr
    → IsGated (call_outputs a cs tr)
unfolding call_outputs
call_outputs-IsGated a [] tr h = h
call_outputs-IsGated a (c ∷ cs) tr h =
    call_outputs-IsGated a cs (call_output a c tr).0 (call-Gated a c tr h)
