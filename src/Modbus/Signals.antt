-- ===== src/Modbus/Signals.antt =====
-- A signal never shows RED and GREEN together, and SafeState leaves every permissive coil off.
use plantops_edge_scale.Base.{
  ℕ, ◌==◌, ◌≡◌, ◌≢◌, refl, Bool, true, false, ◌&&◌, String, List, [], ◌∷◌, Option, none, some,
  arith, if◌then◌else◌,
}
use plantops_edge_scale.Modbus.{Writes, Client, write_coil, ◌after◌, set_signal}

abbrev settled : Option String → ℕ → Bool → ℕ → Bool → Bool
settled none addr v a old = if addr == a then v else old
settled (some m) addr v a old = old

-- Writing `false` to one of two coils, and `true` to one after `false` was written to the other.
off_apart :
    (red green : ℕ) (x y : Bool) (o : Option String)
    → red ≢ green
    → (x && y) ≡ false
    → ((settled o red false red x && settled o red false green y) ≡ false)
      × ((settled o green false red x && settled o green false green y) ≡ false)
unfolding if◌then◌else◌
off_apart red green x y none d h = (ground arith, ground arith)
off_apart red green x y (some m) d h = (h, h)

on_apart :
    (red green : ℕ) (x y : Bool) (o : Option String)
    → red ≢ green
    → ((settled o green true red (settled none red false red x)
          && settled o green true green (settled none red false green y))
        ≡ false)
      × ((settled o red true red (settled none green false red x)
            && settled o red true green (settled none green false green y))
          ≡ false)
unfolding if◌then◌else◌
on_apart red green x y none d = (ground arith, ground arith)
on_apart red green x y (some m) d = (ground arith, ground arith)

module _ (client : Client) (start : ℕ → Bool) where
  -- A coil after the writes: a write that meets an error changes nothing.
  unfoldable pub coil : Writes → ℕ → Bool
  coil [] a = start a
  coil ((addr, v) ∷ older) a = settled (client older addr v) addr v a (coil older a)

  -- The coils of the list are off.
  abbrev pub AllOff : List ℕ → Writes → Type 0
  AllOff [] log = Unit
  AllOff (a ∷ offs) log = (coil log a ≡ false) × AllOff offs log

  -- At no time do both coils show.
  unfoldable pub Exclusive : ℕ → ℕ → Writes → Type 0
  Exclusive red green [] = (start red && start green) ≡ false
  Exclusive red green (w ∷ older) =
      ((coil (w ∷ older) red && coil (w ∷ older) green) ≡ false) × Exclusive red green older

  now_Exclusive :
      (red green : ℕ) (log : Writes)
      → Exclusive red green log
      → (coil log red && coil log green) ≡ false
  unfolding Exclusive coil
  now_Exclusive red green [] h = h
  now_Exclusive red green (w ∷ older) h = h.0

  -- However the writes of set_signal fail, RED and GREEN are at no time on together, if they never
  -- were before and have different addresses.
  pub set_signal-Exclusive :
      (red green : ℕ) (v : Bool) (log : Writes)
      → red ≢ green
      → Exclusive red green log
      → Exclusive red green (set_signal client red green v log).0
  unfolding set_signal ◌after◌
  set_signal-Exclusive red green true log d h = second (client log red false) refl
    where
      first_off : (coil ((red, false) ∷ log) red && coil ((red, false) ∷ log) green) ≡ false
      first_off =
          unfold coil in
          (off_apart red green (coil log red) (coil log green) (client log red false) d
            (now_Exclusive red green log h)).0

      second :
          (o : Option String)
          → client log red false ≡ o
          → Exclusive red green ((((red, false) ∷ log, o) after write_coil client green true).0)
      second none x =
          unfold Exclusive coil ◌after◌ in (rw x ((on_apart red green _ _ _ d).0), (first_off, h))
      second (some m) x = unfold Exclusive coil ◌after◌ in (first_off, h)
  set_signal-Exclusive red green false log d h = second (client log green false) refl
    where
      first_off : (coil ((green, false) ∷ log) red && coil ((green, false) ∷ log) green) ≡ false
      first_off =
          unfold coil in
          (off_apart red green (coil log red) (coil log green) (client log green false) d
            (now_Exclusive red green log h)).1

      second :
          (o : Option String)
          → client log green false ≡ o
          → Exclusive red green ((((green, false) ∷ log, o) after write_coil client red true).0)
      second none x =
          unfold Exclusive coil ◌after◌ in (rw x ((on_apart red green _ _ _ d).1), (first_off, h))
      second (some m) x = unfold Exclusive coil ◌after◌ in (first_off, h)
