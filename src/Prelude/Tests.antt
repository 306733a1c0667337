-- ===== src/Prelude/Tests.antt =====
-- Boolean tests on the native numbers, the conditional, and equality as an interface.
use Prim.Native.Nat.{ℕ, compare, Ordering}
use mathlib.Core.Path.{◌≡◌, refl}
use mathlib.Core.Logic.{◌↔◌, ◌⊎◌, ◌≢◌, inl, inr}
use mathlib.Core.Bool.{Bool, true, false, ◌&&◌}
use mathlib.Core.Option.{Option, none, some}
use mathlib.Core.List.{List, [], ◌∷◌}
use native.Mathlib.Omega.{arith}

abbrev pub ltb : ℕ → ℕ → Bool
ltb a b = elim (compare a b) [ Ordering.lt ↦ true | _ ↦ false ]

abbrev pub leb : ℕ → ℕ → Bool
leb a b = elim (compare a b) [ Ordering.gt ↦ false | _ ↦ true ]

infix 50 ◌==◌
abbrev pub ◌==◌ : ℕ → ℕ → Bool
a == b = elim (compare a b) [ Ordering.eq ↦ true | _ ↦ false ]

infix 1 if◌then◌else◌
abbrev pub if◌then◌else◌ {ℓ} : {A : Type ℓ} → Bool → A → A → A
if true then x else y = x
if false then x else y = y

pub ==_iff : (a b : ℕ) → ((a == b) ≡ true) ↔ (a ≡ b)
==_iff a b = ground arith

pub Bool-cases : (b : Bool) → (b ≡ true) ⊎ (b ≡ false)
Bool-cases true = inl refl
Bool-cases false = inr refl

pub Option-cases {ℓ} : {A : Type ℓ} (o : Option A) → (o ≡ none) ⊎ ((a : A) × (o ≡ some a))
Option-cases none = inl refl
Option-cases (some a) = inr (a, refl)

-- `PartialEq`: a Boolean test that decides equality.
pub record PartialEq {ℓ} (A : Type ℓ) : Type ℓ where
  pub same : A → A → Bool
  pub same_iff : (left right : A) → (same left right ≡ true) ↔ (left ≡ right)

abbrev pub is_same {ℓ} : {A : Type ℓ} ⦃e : PartialEq A⦄ → A → A → Bool
is_same ⦃e⦄ = e.same

instance abbrev pub nat_eq : PartialEq ℕ
nat_eq = record { same = ◌==◌; same_iff = ==_iff }

module _ {ℓ} {A : Type ℓ} ⦃e : PartialEq A⦄ where
  pub beq_refl : (a : A) → e.same a a ≡ true
  beq_refl a = (e.same_iff a a).1 refl

  pub beq_ne : (a b : A) → a ≢ b → e.same a b ≡ false
  beq_ne a b h = elim (Bool-cases (e.same a b)) [
    | inl same ↦ absurd (h ((e.same_iff a b).0 same))
    | inr other ↦ other
  ]

  -- `==` on slices and on strings, as lists of bytes
  abbrev pub beq_list : List A → List A → Bool
  beq_list [] [] = true
  beq_list (x ∷ xs) (y ∷ ys) = e.same x y && beq_list xs ys
  beq_list _ _ = false

  pub beq_list_iff : (xs ys : List A) → (beq_list xs ys ≡ true) ↔ (xs ≡ ys)
  beq_list_iff [] [] = (λ _. refl, λ _. refl)
  beq_list_iff [] (y ∷ ys) = (λ h. cc, λ h. cc)
  beq_list_iff (x ∷ xs) [] = (λ h. cc, λ h. cc)
  beq_list_iff (x ∷ xs) (y ∷ ys) = (
    λ h. ground (arith, e.same_iff x y, beq_list_iff xs ys),
    λ h. ground (arith, e.same_iff x y, beq_list_iff xs ys),
  )

instance abbrev pub list_eq {ℓ} : {A : Type ℓ} ⦃e : PartialEq A⦄ → PartialEq (List A)
list_eq = record { same = beq_list; same_iff = beq_list_iff }

pub and_left : (a b : Bool) → (a && b) ≡ true → a ≡ true
and_left true b h = refl
and_left false b h = h

pub and_right : (a b : Bool) → (a && b) ≡ true → b ≡ true
and_right true b h = h
and_right false b h = absurd (cc)
