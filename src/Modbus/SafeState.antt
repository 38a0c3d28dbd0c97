-- ===== src/Modbus/SafeState.antt =====
-- SafeState leaves every permissive coil off.
use plantops_edge_scale.Base.{
  ℕ, ◌≡◌, ◌≢◌, refl, Bool, true, false, String, List, [], ◌∷◌, Option, none, some, arith,
  if◌then◌else◌,
}
use plantops_edge_scale.Modbus.{
  Mapping, Writes, Client, Sent, write_coil, ◌after◌, set_signal, set_entry_light, set_exit_light,
  safe_state,
}
use plantops_edge_scale.Modbus.Signals.{coil, AllOff}

-- The address is none of the list.
abbrev pub IsApart : ℕ → List ℕ → Type 0
IsApart a [] = Unit
IsApart a (b ∷ bs) = (a ≢ b) × IsApart a bs

module _ (client : Client) (start : ℕ → Bool) where
  -- Without an error the coils of the list are off.
  abbrev Ends : List ℕ → Sent → Type 0
  Ends offs (log, none) = AllOff client start offs log
  Ends offs (log, some m) = Unit

  Ends-after :
      (offs bs : List ℕ) (o : Sent) (k : Writes → Sent)
      → Ends offs o
      → ((log : Writes) → AllOff client start offs log → Ends bs (k log))
      → Ends bs (o after k)
  unfolding ◌after◌
  Ends-after offs bs (log, none) k h f = f log h
  Ends-after offs bs (log, some m) k h f = tt

  write_false-AllOff :
      (offs : List ℕ) (addr : ℕ) (log : Writes)
      → client log addr false ≡ none
      → AllOff client start offs log
      → AllOff client start offs ((addr, false) ∷ log)
  unfolding coil if◌then◌else◌
  write_false-AllOff [] addr log x h = tt
  write_false-AllOff (a ∷ offs) addr log x (h, hs) =
      (rw x (ground arith), write_false-AllOff offs addr log x hs)

  write_true-AllOff :
      (offs : List ℕ) (addr : ℕ) (log : Writes)
      → IsApart addr offs
      → client log addr true ≡ none
      → AllOff client start offs log
      → AllOff client start offs ((addr, true) ∷ log)
  unfolding coil if◌then◌else◌
  write_true-AllOff [] addr log d x h = tt
  write_true-AllOff (a ∷ offs) addr log (d, ds) x (h, hs) =
      (rw x (ground arith), write_true-AllOff offs addr log ds x hs)

  switch_off :
      (offs : List ℕ) (addr : ℕ) (log : Writes)
      → AllOff client start offs log
      → Ends (addr ∷ offs) (write_coil client addr false log)
  switch_off offs addr log h = on (client log addr false) refl
    where
      on :
          (o : Option String)
          → client log addr false ≡ o
          → Ends (addr ∷ offs) ((addr, false) ∷ log, o)
      on none x =
          (unfold coil if◌then◌else◌ in rw x (ground arith), write_false-AllOff offs addr log x h)
      on (some m) x = tt

  switch_on :
      (offs : List ℕ) (addr : ℕ) (log : Writes)
      → IsApart addr offs
      → AllOff client start offs log
      → Ends offs (write_coil client addr true log)
  switch_on offs addr log d h = on (client log addr true) refl
    where
      on : (o : Option String) → client log addr true ≡ o → Ends offs ((addr, true) ∷ log, o)
      on none x = write_true-AllOff offs addr log d x h
      on (some m) x = tt

  -- RED of a signal whose RED address is apart from the coils that are to stay off.
  show_red :
      (offs : List ℕ) (red green : ℕ) (log : Writes)
      → IsApart red (green ∷ offs)
      → AllOff client start offs log
      → Ends (green ∷ offs) (set_signal client red green false log)
  unfolding set_signal
  show_red offs red green log d h =
      Ends-after (green ∷ offs) (green ∷ offs) (write_coil client green false log)
        (write_coil client red true) (switch_off offs green log h)
        (λ log' k. switch_on (green ∷ offs) red log' d k)

  module _ (m : Mapping) (log : Writes)
      (entry_apart : IsApart m.entry_red (m.entry_green ∷ m.buzzer ∷ []))
      (exit_apart : IsApart m.exit_red (m.exit_green ∷ m.entry_green ∷ m.buzzer ∷ [])) where
    abbrev permissive : List ℕ
    permissive =
        m.exit_barrier_open_cmd ∷ m.entry_barrier_open_cmd ∷ m.exit_green ∷ m.entry_green ∷ m.buzzer
        ∷ []

    safe_state-Ends : Ends permissive (safe_state client m log)
    unfolding safe_state set_entry_light set_exit_light
    safe_state-Ends =
        Ends-after (m.entry_barrier_open_cmd ∷ lights) permissive _
          (write_coil client m.exit_barrier_open_cmd false)
          (Ends-after lights (m.entry_barrier_open_cmd ∷ lights) _
            (write_coil client m.entry_barrier_open_cmd false)
            (Ends-after (m.entry_green ∷ m.buzzer ∷ []) lights _
              (set_signal client m.exit_red m.exit_green false)
              (Ends-after (m.buzzer ∷ []) (m.entry_green ∷ m.buzzer ∷ []) _
                (set_signal client m.entry_red m.entry_green false) (switch_off [] m.buzzer log tt)
                (λ l h. show_red (m.buzzer ∷ []) m.entry_red m.entry_green l entry_apart h))
              (λ l h.
                show_red (m.entry_green ∷ m.buzzer ∷ []) m.exit_red m.exit_green l exit_apart h))
            (λ l h. switch_off lights m.entry_barrier_open_cmd l h))
          (λ l h. switch_off (m.entry_barrier_open_cmd ∷ lights) m.exit_barrier_open_cmd l h)
      where
        lights : List ℕ
        lights = m.exit_green ∷ m.entry_green ∷ m.buzzer ∷ []

    -- When SafeState gives no error, the buzzer, both GREEN coils and both OPEN requests are off, for a
    -- map whose RED coils are apart from the GREEN ones written so far and from the buzzer.
    pub safe_state_drops :
        (safe_state client m log).1 ≡ none
        → AllOff client start
            (m.exit_barrier_open_cmd ∷ m.entry_barrier_open_cmd ∷ m.exit_green ∷ m.entry_green
              ∷ m.buzzer ∷ [])
            (safe_state client m log).0
    safe_state_drops h = ended (safe_state client m log) safe_state-Ends h
      where
        ended : (o : Sent) → Ends permissive o → o.1 ≡ none → AllOff client start permissive o.0
        ended (l, none) k x = k
        ended (l, some e) k x = absurd (cc)
