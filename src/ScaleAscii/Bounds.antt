-- ===== src/ScaleAscii/Bounds.antt =====
-- What ParseLine accepts: a weight of 64 bits and a stability that fields of the line give.
use mathlib.Core.Path.{subst}
use plantops_edge_scale.Base.{
  ℕ, ltb, leb, ◌≡◌, true, ◌||◌, not, List, [], ◌∷◌, Option, none, some, ℤ, pos, ◌-ℤ◌, half64,
  IsInt64, Unicode, trim_space, Bool, refl, Has, inl, inr, codes, codes_eq, equal_fold, map,
  if◌then◌else◌, if_intro, arith,
}
use plantops_edge_scale.ScaleAscii.{
  Fields, no_fields, Parsed, parsed, refused, parse_int, below, negated, unsigned, set_field,
  set_pair, next_token, parse_tokens, complete_fields, parse_line, with_weight, is_true, cut_at,
  split_on,
}

abbrev Fits : Option ℤ → Type 0
Fits none = Unit
Fits (some w) = IsInt64 w

below-Fits : (o : Option ℕ) → Fits (below o)
unfolding if◌then◌else◌
below-Fits none = tt
below-Fits (some n) = if_intro Fits (ltb n half64) (λ h. ground arith) (λ _. tt)

neg-Fits : (n : ℕ) → leb n half64 ≡ true → IsInt64 (pos 0 -ℤ pos n)
unfolding ◌-ℤ◌ if◌then◌else◌
neg-Fits n h = ground arith

negated-Fits : (o : Option ℕ) → Fits (negated o)
negated-Fits none = tt
negated-Fits (some n) = if_intro Fits (leb n half64) (neg-Fits n) (λ _. tt)

parse_int-Fits : (s : List ℕ) → Fits (parse_int s)
unfolding parse_int
parse_int-Fits [] = tt
parse_int-Fits (c ∷ cs) =
    if_intro Fits _ (λ _. negated-Fits (unsigned cs))
      (λ _. if_intro Fits _ (λ _. below-Fits (unsigned cs)) (λ _. below-Fits (unsigned (c ∷ cs))))

-- The weight gathered so far is a 64-bit integer.
abbrev IsBounded : Parsed → Type 0
IsBounded (refused e) = Unit
IsBounded (parsed f) = IsInt64 f.weight_kg

with_weight-IsBounded :
    (f : Fields) (v : List ℕ) (o : Option ℤ) → Fits o → IsBounded (with_weight f v o)
with_weight-IsBounded f v none h = tt
with_weight-IsBounded f v (some w) h = h

set_field-IsBounded :
    (u : Unicode) (f : Fields) (k v : List ℕ) → IsInt64 f.weight_kg → IsBounded (set_field u f k v)
unfolding set_field
set_field-IsBounded u f k v h =
    if_intro IsBounded _ (λ _. with_weight-IsBounded f v (parse_int v) (parse_int-Fits v))
      (λ _.
        if_intro IsBounded _ (λ _. h)
          (λ _. if_intro IsBounded _ (λ _. h) (λ _. if_intro IsBounded _ (λ _. h) (λ _. h))))

set_pair-IsBounded :
    (u : Unicode) (f : Fields) (o : Option (List ℕ × List ℕ))
    → IsInt64 f.weight_kg
    → IsBounded (set_pair u f o)
set_pair-IsBounded u f none h = h
set_pair-IsBounded u f (some (k, v)) h = set_field-IsBounded u f _ _ h

next-IsBounded :
    (p : Parsed) (rest : Fields → Parsed)
    → IsBounded p
    → ((f : Fields) → IsInt64 f.weight_kg → IsBounded (rest f))
    → IsBounded (next_token p rest)
next-IsBounded (parsed f) rest h k = k f h
next-IsBounded (refused e) rest h k = tt

parse_tokens-IsBounded :
    (u : Unicode) (f : Fields) (ts : List (List ℕ))
    → IsInt64 f.weight_kg
    → IsBounded (parse_tokens u f ts)
unfolding parse_tokens
parse_tokens-IsBounded u f [] h = h
parse_tokens-IsBounded u f (t ∷ ts) h =
    next-IsBounded (set_pair u f (cut_at b'=' (trim_space u t))) _ (set_pair-IsBounded u f _ h)
      (λ g k. parse_tokens-IsBounded u g ts k)

-- A token KEY=VALUE of a line, by its trimmed key in upper case and its trimmed value.
abbrev pub IsField : Unicode → (List ℕ → List ℕ → Type 0) → List ℕ → Type 0
IsField u P t =
    (k : List ℕ) × (v : List ℕ) × (cut_at b'=' (trim_space u t) ≡ some (k, v))
    × P (map u.to_upper (trim_space u k)) (trim_space u v)

-- The token gives the weight `w`.
abbrev pub IsWeight : Unicode → ℤ → List ℕ → Type 0
IsWeight u w = IsField u (λ k v.
    (codes_eq k (codes "WT") || codes_eq k (codes "WEIGHT") ≡ true) × (parse_int v ≡ some w))

-- The token says whether the weight is stable.
abbrev pub IsStability : Unicode → Bool → List ℕ → Type 0
IsStability u b = IsField u (λ k v.
    (codes_eq k (codes "ST") || codes_eq k (codes "STABLE") ≡ true)
    × (b ≡ (is_true u v || equal_fold u v (codes "stable"))))

-- `W` holds of a weight that a token gives, `B` of what a token says of stability.
module _ (u : Unicode) (W : ℤ → Type 0) (B : Bool → Type 0) where
  -- What has been gathered so far comes from tokens.
  record Sourced (f : Fields) : Type 0 where
    weight_from : f.seen_weight ≡ true → W f.weight_kg
    stable_from : f.seen_stable ≡ true → B f.stable

  abbrev IsSourced : Parsed → Type 0
  IsSourced (refused e) = Unit
  IsSourced (parsed f) = Sourced f

  with_weight-IsSourced :
      (f : Fields) (v : List ℕ) (o : Option ℤ)
      → Sourced f
      → ((w : ℤ) → o ≡ some w → W w)
      → IsSourced (with_weight f v o)
  with_weight-IsSourced f v none h g = tt
  with_weight-IsSourced f v (some w) h g = record {
    weight_from = λ _. g w refl;
    stable_from = h.stable_from;
  }

  set_field-IsSourced :
      (f : Fields) (k v : List ℕ)
      → Sourced f
      → ((w : ℤ)
          → codes_eq k (codes "WT") || codes_eq k (codes "WEIGHT") ≡ true
          → parse_int v ≡ some w
          → W w)
      → (codes_eq k (codes "ST") || codes_eq k (codes "STABLE") ≡ true
          → B (is_true u v || equal_fold u v (codes "stable")))
      → IsSourced (set_field u f k v)
  unfolding set_field
  set_field-IsSourced f k v h w b =
      if_intro IsSourced _ (λ i. with_weight-IsSourced f v (parse_int v) h (λ x e. w x i e))
        (λ _.
          if_intro IsSourced _ (λ i. record { weight_from = h.weight_from; stable_from = λ _. b i })
            (λ _.
              if_intro IsSourced _ (λ _. unchanged)
                (λ _. if_intro IsSourced _ (λ _. unchanged) (λ _. h))))
    where
      unchanged : {o : Bool} {x : List ℕ} → Sourced (record f { overload = o; fault = x })
      unchanged = record { weight_from = h.weight_from; stable_from = h.stable_from }

  set_pair-IsSourced :
      (f : Fields) (t : List ℕ) (o : Option (List ℕ × List ℕ))
      → cut_at b'=' (trim_space u t) ≡ o
      → Sourced f
      → ((w : ℤ) → IsWeight u w t → W w)
      → ((b : Bool) → IsStability u b t → B b)
      → IsSourced (set_pair u f o)
  set_pair-IsSourced f t none x h w b = h
  set_pair-IsSourced f t (some (k, v)) x h w b =
      set_field-IsSourced f _ _ h (λ n i e. w n (k, v, x, (i, e))) (λ i. b _ (k, v, x, (i, refl)))

  next-IsSourced :
      (p : Parsed) (rest : Fields → Parsed)
      → IsSourced p
      → ((f : Fields) → Sourced f → IsSourced (rest f))
      → IsSourced (next_token p rest)
  next-IsSourced (parsed f) rest h k = k f h
  next-IsSourced (refused e) rest h k = tt

  parse_tokens-IsSourced :
      (f : Fields) (ts : List (List ℕ))
      → Sourced f
      → ((w : ℤ) → Has (IsWeight u w) ts → W w)
      → ((b : Bool) → Has (IsStability u b) ts → B b)
      → IsSourced (parse_tokens u f ts)
  unfolding parse_tokens
  parse_tokens-IsSourced f [] h w b = h
  parse_tokens-IsSourced f (t ∷ ts) h w b =
      next-IsSourced (set_pair u f (cut_at b'=' (trim_space u t))) _
        (set_pair-IsSourced f t _ refl h (λ n i. w n (inl i)) (λ n i. b n (inl i)))
        (λ g k. parse_tokens-IsSourced g ts k (λ n i. w n (inr i)) (λ n i. b n (inr i)))

-- The tokens of a line.
abbrev pub tokens : Unicode → List ℕ → List (List ℕ)
tokens u line = split_on b';' (trim_space u line)

-- What a parsed line says is said by its tokens.
abbrev Told : Unicode → List (List ℕ) → Parsed → Type 0
Told u ts (refused e) = Unit
Told u ts (parsed f) =
    IsInt64 f.weight_kg × Has (IsWeight u f.weight_kg) ts × Has (IsStability u f.stable) ts

complete-Told :
    (u : Unicode) (ts : List (List ℕ)) (p : Parsed)
    → IsBounded p
    → IsSourced u (λ w. Has (IsWeight u w) ts) (λ b. Has (IsStability u b) ts) p
    → Told u ts (complete_fields p)
complete-Told u ts (refused e) h s = tt
complete-Told u ts (parsed f) h s =
    if_intro (Told u ts) (not f.seen_weight || not f.seen_stable) (λ _. tt)
      (λ k. (h, s.weight_from (ground arith), s.stable_from (ground arith)))

-- When ParseLine accepts a line, one of the tokens of the line, with the key WT or WEIGHT, has the
-- weight as its value, which is an int64, and one, with the key ST or STABLE, says of stability what
-- was read: it is stable when the value is 1, or true or stable in any case.
pub parse_line_sources :
    (u : Unicode) (line : List ℕ) (f : Fields)
    → parse_line u line ≡ parsed f
    → IsInt64 f.weight_kg
      × Has (IsWeight u f.weight_kg) (tokens u line)
      × Has (IsStability u f.stable) (tokens u line)
unfolding parse_line
parse_line_sources u line f h = subst (Told u (tokens u line)) h (
    complete-Told u (tokens u line) (parse_tokens u no_fields (tokens u line))
      (parse_tokens-IsBounded u no_fields (tokens u line) (ground arith))
      (parse_tokens-IsSourced u _ _ no_fields (tokens u line)
        (record { weight_from = λ x. absurd (cc); stable_from = λ x. absurd (cc) }) (λ w i. i)
        (λ b i. i)))
