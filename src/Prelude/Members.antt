-- ===== src/Prelude/Members.antt =====
-- Membership in an appended and in a mapped list.
use mathlib.Core.Path.{◌≡◌, refl, ap}
use mathlib.Core.List.{List, [], ◌∷◌, ◌++◌, map}
use mathlib.Core.Logic.{◌⊎◌, inl, inr}
use apexaegis_management_pla.Prelude.Lists.{In}

module _ {ℓ} {A : Type ℓ} where
  pub In-append_left : (a : A) (xs ys : List A) → In a xs → In a (xs ++ ys)
  In-append_left a [] ys i = elim i [ ]
  In-append_left a (x ∷ xs) ys (inl e) = inl e
  In-append_left a (x ∷ xs) ys (inr i) = inr (In-append_left a xs ys i)

  pub In-append_right : (a : A) (xs ys : List A) → In a ys → In a (xs ++ ys)
  In-append_right a [] ys i = i
  In-append_right a (x ∷ xs) ys i = inr (In-append_right a xs ys i)

  pub In-append_cases : (a : A) (xs ys : List A) → In a (xs ++ ys) → In a xs ⊎ In a ys
  In-append_cases a [] ys i = inr i
  In-append_cases a (x ∷ xs) ys (inl e) = inl (inl e)
  In-append_cases a (x ∷ xs) ys (inr i) = elim (In-append_cases a xs ys i) [
    | inl j ↦ inl (inr j)
    | inr j ↦ inr j
  ]

  module _ {κ} {B : Type κ} (f : A → B) where
    pub In-map : (a : A) (xs : List A) → In a xs → In (f a) (map f xs)
    In-map a [] i = elim i [ ]
    In-map a (x ∷ xs) (inl e) = inl (ap f e)
    In-map a (x ∷ xs) (inr i) = inr (In-map a xs i)

    pub In-map_cases : (b : B) (xs : List A) → In b (map f xs) → (a : A) × (b ≡ f a) × In a xs
    In-map_cases b [] i = elim i [ ]
    In-map_cases b (x ∷ xs) (inl e) = (x, e, inl refl)
    In-map_cases b (x ∷ xs) (inr i) = let (a, e, j) = In-map_cases b xs i in (a, e, inr j)
