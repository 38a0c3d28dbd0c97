-- ===== src/ScaleAscii.antt =====
-- internal/adapters/scaleascii/scale.go: the parser of a line such as WT=28460;ST=1;OVERLOAD=0;FAULT=.
-- A line is its code points; the Unicode tables of package strings are a parameter.
pub mod Stream
pub mod Bounds
pub mod Audited
use plantops_edge_scale.Base.{
  ℕ, suc, ◌+◌, ◌*◌, ◌-◌, ◌==◌, ltb, leb, Bool, true, false, ◌&&◌, ◌||◌, not, List, [], ◌∷◌, map,
  Option, none, some, ℤ, pos, negsuc, ◌-ℤ◌, half64, Unicode, codes, codes_eq, trim_space,
  equal_fold, if◌then◌else◌,
}

pub data ParseError : Type 0 where
  bad_weight : List ℕ → ParseError
  missing_field : ParseError

-- What the loop of ParseLine has gathered.
pub record Fields : Type 0 where
  pub weight_kg : ℤ
  pub stable : Bool
  pub overload : Bool
  pub fault : List ℕ
  pub seen_weight : Bool
  pub seen_stable : Bool

abbrev pub no_fields : Fields
no_fields = record {
  weight_kg = pos 0;
  stable = false;
  overload = false;
  fault = [];
  seen_weight = false;
  seen_stable = false;
}

pub data Parsed : Type 0 where
  parsed : Fields → Parsed
  refused : ParseError → Parsed

-- The value of decimal digits, at least one.
unfoldable pub digits_value : List ℕ → ℕ → Option ℕ
digits_value [] n = some n
digits_value (c ∷ cs) n =
    let rest = digits_value cs (n * 10 + (c - b'0')) in
    if leb b'0' c && leb c b'9' then rest else none

abbrev pub unsigned : List ℕ → Option ℕ
unsigned [] = none
unsigned (c ∷ cs) = digits_value (c ∷ cs) 0

abbrev pub below : Option ℕ → Option ℤ
below none = none
below (some n) = if ltb n half64 then some (pos n) else none

abbrev pub negated : Option ℕ → Option ℤ
negated none = none
negated (some n) = if leb n half64 then some (pos 0 -ℤ pos n) else none

-- strconv.ParseInt(s, 10, 64)
unfoldable pub parse_int : List ℕ → Option ℤ
unfolding digits_value ◌-ℤ◌
parse_int [] = none
parse_int (c ∷ cs) =
    if c == b'-'
    then negated (unsigned cs)
    else if c == b'+'
    then below (unsigned cs)
    else below (unsigned (c ∷ cs))

abbrev prepend : ℕ → List (List ℕ) → List (List ℕ)
prepend c [] = (c ∷ []) ∷ []
prepend c (x ∷ xs) = (c ∷ x) ∷ xs

-- strings.Split by one byte
unfoldable pub split_on : ℕ → List ℕ → List (List ℕ)
split_on sep [] = [] ∷ []
split_on sep (c ∷ cs) = let rest = split_on sep cs in if c == sep then [] ∷ rest else prepend c rest

abbrev with_key : ℕ → Option (List ℕ × List ℕ) → Option (List ℕ × List ℕ)
with_key c none = none
with_key c (some (k, v)) = some (c ∷ k, v)

-- strings.SplitN(s, "=", 2), where it has two parts
unfoldable pub cut_at : ℕ → List ℕ → Option (List ℕ × List ℕ)
cut_at sep [] = none
cut_at sep (c ∷ cs) =
    let rest = cut_at sep cs in if c == sep then some ([], cs) else with_key c rest

abbrev is_key : List ℕ → List ℕ → Bool
is_key k name = codes_eq k name

abbrev pub is_true : Unicode → List ℕ → Bool
is_true u v = codes_eq v (codes "1") || equal_fold u v (codes "true")

abbrev pub with_weight : Fields → List ℕ → Option ℤ → Parsed
with_weight f v none = refused (bad_weight v)
with_weight f v (some w) = parsed (record f { weight_kg = w; seen_weight = true })

-- The switch on a key, with the trimmed value.
unfoldable pub set_field : Unicode → Fields → List ℕ → List ℕ → Parsed
unfolding parse_int equal_fold codes_eq
set_field u f k v =
    if is_key k (codes "WT") || is_key k (codes "WEIGHT")
    then with_weight f v (parse_int v)
    else if is_key k (codes "ST") || is_key k (codes "STABLE")
    then parsed
        (record f { stable = is_true u v || equal_fold u v (codes "stable"); seen_stable = true })
    else if is_key k (codes "OVERLOAD")
    then parsed (record f { overload = is_true u v })
    else if is_key k (codes "FAULT")
    then parsed (record f { fault = v })
    else parsed f

abbrev pub set_pair : Unicode → Fields → Option (List ℕ × List ℕ) → Parsed
set_pair u f none = parsed f
set_pair u f (some (k, v)) = set_field u f (map u.to_upper (trim_space u k)) (trim_space u v)

abbrev pub next_token : Parsed → (Fields → Parsed) → Parsed
next_token (parsed f) rest = rest f
next_token (refused e) rest = refused e

unfoldable pub parse_tokens : Unicode → Fields → List (List ℕ) → Parsed
unfolding set_field cut_at trim_space
parse_tokens u f [] = parsed f
parse_tokens u f (t ∷ ts) =
    next_token (set_pair u f (cut_at b'=' (trim_space u t))) (λ g. parse_tokens u g ts)

abbrev pub complete_fields : Parsed → Parsed
complete_fields (refused e) = refused e
complete_fields (parsed f) =
    if not f.seen_weight || not f.seen_stable then refused missing_field else parsed f

-- ParseLine
unfoldable pub parse_line : Unicode → List ℕ → Parsed
unfolding parse_tokens split_on trim_space
parse_line u line = complete_fields (parse_tokens u no_fields (split_on b';' (trim_space u line)))
