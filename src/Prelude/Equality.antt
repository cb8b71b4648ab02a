-- ===== src/Prelude/Equality.antt =====
-- Decidable tests of equality as an instance, at the types that the program compares.
use Prim.Native.Nat.{ℕ}
use Prim.Native.String.{String}
use text.Mathlib.Text.{◌==◌ as str_eq}
use text.Mathlib.TextEquality.{eq_iff}
use mathlib.Core.Path.{◌≡◌, refl}
use mathlib.Core.Logic.{◌↔◌}
use mathlib.Core.Bool.{Bool, true, false, ◌&&◌}
use mathlib.Core.List.{List, [], ◌∷◌}
use native.Mathlib.Omega.{arith}
use apexaegis_management_pla.Prelude.Tests.{eqb, eqb_iff}

-- A test of a type with the proof that it decides equality.
pub record Eq {κ} (K : Type κ) : Type κ where
  pub beq : K → K → Bool
  pub beq_iff : (x y : K) → (beq x y ≡ true) ↔ (x ≡ y)

instance abbrev pub string_eq : Eq String
string_eq = record { beq = str_eq; beq_iff = eq_iff }

infix 50 ◌==◌
abbrev pub ◌==◌ {κ} : {K : Type κ} ⦃e : Eq K⦄ (x y : K) → Bool
◌==◌ ⦃e⦄ x y = e.beq x y

pub beq_self {κ} : {K : Type κ} ⦃e : Eq K⦄ (x : K) → (x == x) ≡ true
beq_self ⦃e⦄ x = (e.beq_iff x x).1 refl

instance abbrev pub nat_eq : Eq ℕ
nat_eq = record { beq = eqb; beq_iff = eqb_iff }

abbrev pub bytes_beq : List ℕ → List ℕ → Bool
bytes_beq [] [] = true
bytes_beq [] (y ∷ ys) = false
bytes_beq (x ∷ xs) [] = false
bytes_beq (x ∷ xs) (y ∷ ys) = eqb x y && bytes_beq xs ys

pub bytes_beq_iff : (xs ys : List ℕ) → (bytes_beq xs ys ≡ true) ↔ (xs ≡ ys)
bytes_beq_iff [] [] = (λ _. refl, λ _. refl)
bytes_beq_iff [] (y ∷ ys) = (λ h. cc, λ h. cc)
bytes_beq_iff (x ∷ xs) [] = (λ h. cc, λ h. cc)
bytes_beq_iff (x ∷ xs) (y ∷ ys) = ground (arith, bytes_beq_iff xs ys)

instance abbrev pub bytes_eq : Eq (List ℕ)
bytes_eq = record { beq = bytes_beq; beq_iff = bytes_beq_iff }
