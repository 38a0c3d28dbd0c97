-- ===== src/Store/Rows.antt =====
-- Lookups of rows after an INSERT or an UPDATE, and results of steps.
use plantops_edge_scale.Base.{
  ◌≡◌, refl, Bool, true, false, String, str_eq, eq_iff, List, [], ◌∷◌, ◌++◌, map, Option, none,
  some, arith, if◌then◌else◌, if_intro,
}
use plantops_edge_scale.Domain.Types.{Time}
use plantops_edge_scale.Domain.WeighCycle.{WeighCycle}
use plantops_edge_scale.Store.{
  Db, CycleRow, StoreError, Try, ok, err, ◌>>=◌, answer, refuse_if, settle, find_row, updated_row,
}

-- A result that is not an error meets P.
abbrev pub Ensures {ℓ} : {A : Type ℓ} → (A → Type 0) → Try A → Type 0
Ensures P (ok a) = P a
Ensures P (err e) = Unit

module _ {ℓ κ} {A : Type ℓ} {B : Type κ} where
  pub Ensures-bind :
      (P : A → Type 0) (Q : B → Type 0) (r : Try A) (f : A → Try B)
      → Ensures P r
      → ((a : A) → P a → Ensures Q (f a))
      → Ensures Q (r >>= f)
  Ensures-bind P Q (ok a) f h k = k a h
  Ensures-bind P Q (err e) f h k = tt

module _ {ℓ} {B : Type ℓ} where
  pub Ensures-answer :
      (Q : B → Type 0) (t : Option String) (r : Try B)
      → Ensures Q r
      → Ensures Q (answer t >>= λ _. r)
  Ensures-answer Q none r h = h
  Ensures-answer Q (some m) r h = tt

  pub Ensures-refuse_if :
      (Q : B → Type 0) (b : Bool) (e : StoreError) (r : Try B)
      → (b ≡ false → Ensures Q r)
      → Ensures Q (refuse_if b e >>= λ _. r)
  unfolding refuse_if
  Ensures-refuse_if Q true e r h = tt
  Ensures-refuse_if Q false e r h = h refl

module _ {ℓ} {B : Type ℓ} where
  pub Ensures-if :
      (Q : B → Type 0) (b : Bool) (r s : Try B)
      → (b ≡ true → Ensures Q r)
      → (b ≡ false → Ensures Q s)
      → Ensures Q (if b then r else s)
  Ensures-if Q b r s = if_intro (Ensures Q) b

-- A transaction keeps what its steps keep.
pub settle_keeps : (P : Db → Type 0) (db : Db) (r : Try Db) → P db → Ensures P r → P (settle db r).0
settle_keeps P db (ok db') h k = k
settle_keeps P db (err e) h k = h

module _ {ℓ κ} {A : Type ℓ} {B : Type κ} where
  -- A step of which any value will do.
  pub Ensures-any :
      (Q : B → Type 0) (r : Try A) (f : A → Try B)
      → ((a : A) → Ensures Q (f a))
      → Ensures Q (r >>= f)
  Ensures-any Q (ok a) f h = h a
  Ensures-any Q (err e) f h = tt

-- An error has no value to speak of.
pub Ensures-err : Unit {0}
Ensures-err = tt

pub ruleset step_rules = (Ensures-err, Ensures-answer, Ensures-refuse_if, Ensures-if)

-- UPDATE leaves the rows of other ids.
pub find_row-other :
    (id : String) (c : WeighCycle) (at : Time) (rows : List CycleRow)
    → str_eq c.id id ≡ false
    → find_row id (map (updated_row c at) rows) ≡ find_row id rows
unfolding find_row if◌then◌else◌
find_row-other id c at [] d = refl
find_row-other id c at (q ∷ qs) d =
    let ih = find_row-other id c at qs d in
    ground (arith, eq_iff q.id id, eq_iff q.id c.id, eq_iff c.id id)

-- UPDATE changes the row of its id.
pub find_row_self :
    (id : String) (c : WeighCycle) (at : Time) (rows : List CycleRow) (r : CycleRow)
    → str_eq c.id id ≡ true
    → find_row id rows ≡ some r
    → find_row id (map (updated_row c at) rows)
      ≡ some (record r { status = c.status; cycle = c; updated_at = at })
unfolding find_row if◌then◌else◌
find_row_self id c at [] r e h = absurd (cc)
find_row_self id c at (q ∷ qs) r e h =
    let ih = find_row_self id c at qs r e in
    ground (arith, eq_iff q.id id, eq_iff q.id c.id, eq_iff c.id id)

-- INSERT leaves the rows found before.
pub find_row-append :
    (id : String) (r q : CycleRow) (rows : List CycleRow)
    → find_row id rows ≡ some r
    → find_row id (rows ++ q ∷ []) ≡ some r
unfolding find_row if◌then◌else◌
find_row-append id r q [] h = absurd (cc)
find_row-append id r q (x ∷ xs) h = let ih = find_row-append id r q xs in ground (arith)

-- The row found has the id.
pub find_row-id :
    (id : String) (r : CycleRow) (rows : List CycleRow) → find_row id rows ≡ some r → r.id ≡ id
unfolding find_row if◌then◌else◌
find_row-id id r [] h = absurd (cc)
find_row-id id r (x ∷ xs) h = let ih = find_row-id id r xs in ground (arith, eq_iff x.id id)

-- An id has one row.
pub find_row-one :
    (id id' : String) (r q : CycleRow) (rows : List CycleRow)
    → str_eq id' id ≡ true
    → find_row id' rows ≡ some r
    → find_row id rows ≡ some q
    → r ≡ q
find_row-one id id' r q rows e h k = ground (arith, eq_iff id' id)
