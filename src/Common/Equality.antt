-- ===== src/Common/Equality.antt =====
-- Equality tests of Rust's `PartialEq`, one operator for every type that has an instance.
use Prim.Native.Nat.{ℕ}
use Prim.Native.String.{String}
use mathlib.Core.Path.{◌≡◌, refl}
use mathlib.Core.Logic.{◌↔◌}
use mathlib.Core.Bool.{Bool, true, false, ◌&&◌}
use mathlib.Core.List.{List, [], ◌∷◌}
use native.Mathlib.Omega.{arith}
use text.Mathlib.Text.{◌==◌ as str_eq}
use text.Mathlib.TextEquality.{eq_iff}
use sawtooth_pbft.Common.Tests.{nat_beq, nat_beq_iff}

pub record PartialEq {ℓ} (A : Type ℓ) : Type ℓ where
  pub matches : A → A → Bool
  pub matches_iff : (a b : A) → (matches a b ≡ true) ↔ (a ≡ b)

infix 50 ◌==◌
-- Rust's `==`.
abbrev pub ◌==◌ {ℓ} : {A : Type ℓ} ⦃e : PartialEq A⦄ → A → A → Bool
◌==◌ ⦃e⦄ = e.matches

pub ==_iff {ℓ} : {A : Type ℓ} ⦃e : PartialEq A⦄ (a b : A) → ((a == b) ≡ true) ↔ (a ≡ b)
==_iff ⦃e⦄ = e.matches_iff

pub ==_refl {ℓ} : {A : Type ℓ} ⦃e : PartialEq A⦄ (a : A) → (a == a) ≡ true
==_refl ⦃e⦄ a = (e.matches_iff a a).1 refl

instance abbrev pub nat_eq : PartialEq ℕ
nat_eq = record { matches = nat_beq; matches_iff = nat_beq_iff }

instance abbrev pub string_eq : PartialEq String
string_eq = record { matches = str_eq; matches_iff = eq_iff }

-- A byte string, `Vec<u8>`.
abbrev pub Bytes : Type 0
Bytes = List ℕ

unfoldable pub bytes_beq : Bytes → Bytes → Bool
bytes_beq [] [] = true
bytes_beq (x ∷ xs) (y ∷ ys) = nat_beq x y && bytes_beq xs ys
bytes_beq _ _ = false

pub bytes_beq_iff : (a b : Bytes) → (bytes_beq a b ≡ true) ↔ (a ≡ b)
unfolding bytes_beq
bytes_beq_iff [] [] = ground arith
bytes_beq_iff [] (y ∷ ys) = ground arith
bytes_beq_iff (x ∷ xs) [] = ground arith
bytes_beq_iff (x ∷ xs) (y ∷ ys) = ground (arith, bytes_beq_iff xs ys)

instance abbrev pub bytes_eq : PartialEq Bytes
bytes_eq = record { matches = bytes_beq; matches_iff = bytes_beq_iff }

-- The test of a derived `PartialEq`, from a decision.
abbrev pub is_yes {ℓ} : {A : Type ℓ} → Dec A → Bool
is_yes (yes h) = true
is_yes (no h) = false

pub is_yes_iff {ℓ} : {A : Type ℓ} (d : Dec A) → (is_yes d ≡ true) ↔ A
is_yes_iff (yes h) = (λ _. h, λ _. refl)
is_yes_iff (no h) = (λ e. cc, λ a. absurd (h a))
