-- ===== src/Base/Lists.antt =====
-- Predicates on the members of a list, by recursion, so that proofs split on them.
use mathlib.Core.Logic.{◌⊎◌, inl, inr}
use mathlib.Core.List.{List, [], ◌∷◌, ◌++◌, map}

module _ {ℓ} {A : Type ℓ} where
  abbrev pub All : (A → Type 0) → List A → Type 0
  All P [] = Unit
  All P (x ∷ xs) = P x × All P xs

  abbrev pub Has : (A → Type 0) → List A → Type 0
  Has P [] = ⊥
  Has P (x ∷ xs) = P x ⊎ Has P xs

  pub All-imp :
      (P : A → Type 0) (Q : A → Type 0) (xs : List A) → ((x : A) → P x → Q x) → All P xs → All Q xs
  All-imp P Q [] f h = tt
  All-imp P Q (x ∷ xs) f (h, hs) = (f x h, All-imp P Q xs f hs)

  pub All-append : (P : A → Type 0) (xs ys : List A) → All P xs → All P ys → All P (xs ++ ys)
  All-append P [] ys h k = k
  All-append P (x ∷ xs) ys (h, hs) k = (h, All-append P xs ys hs k)

  pub Has-imp :
      (P : A → Type 0) (Q : A → Type 0) (xs : List A) → ((x : A) → P x → Q x) → Has P xs → Has Q xs
  Has-imp P Q [] f h = h
  Has-imp P Q (x ∷ xs) f (inl h) = inl (f x h)
  Has-imp P Q (x ∷ xs) f (inr h) = inr (Has-imp P Q xs f h)

  pub Has-append_left : (P : A → Type 0) (xs ys : List A) → Has P xs → Has P (xs ++ ys)
  Has-append_left P (x ∷ xs) ys (inl h) = inl h
  Has-append_left P (x ∷ xs) ys (inr h) = inr (Has-append_left P xs ys h)
  Has-append_left P [] ys h = absurd h

  pub Has-append_right : (P : A → Type 0) (xs ys : List A) → Has P ys → Has P (xs ++ ys)
  Has-append_right P [] ys h = h
  Has-append_right P (x ∷ xs) ys h = inr (Has-append_right P xs ys h)

module _ {ℓ ℓ'} {A : Type ℓ} {B : Type ℓ'} where
  pub Has-map :
      (P : A → Type 0) (Q : B → Type 0) (f : A → B) (xs : List A)
      → ((x : A) → P x → Q (f x))
      → Has P xs
      → Has Q (map f xs)
  Has-map P Q f [] g h = absurd h
  Has-map P Q f (x ∷ xs) g (inl h) = inl (g x h)
  Has-map P Q f (x ∷ xs) g (inr h) = inr (Has-map P Q f xs g h)

  pub All-map :
      (P : A → Type 0) (Q : B → Type 0) (f : A → B) (xs : List A)
      → ((x : A) → P x → Q (f x))
      → All P xs
      → All Q (map f xs)
  All-map P Q f [] g h = tt
  All-map P Q f (x ∷ xs) g (h, hs) = (g x h, All-map P Q f xs g hs)
