-- ===== src/Base/Equality.antt =====
-- Decidable equality of keys as an instance, with the instances that the program's keys need.
use Prim.Native.Nat.{ℕ}
use Prim.Native.String.{String}
use mathlib.Core.Path.{◌≡◌, refl}
use mathlib.Core.Bool.{Bool, true, false, ◌&&◌}
use mathlib.Core.Logic.{◌↔◌}
use mathlib.Core.Option.{Option, none, some}
use native.Mathlib.Omega.{arith}
use text.Mathlib.Text.{◌==◌ as str_eq}
use text.Mathlib.TextEquality.{eq_iff}
use retail_intelligence.Base.Tests.{eqb, eqb_iff}

-- Keys with a Boolean test that decides their equality.
pub record Eq {ℓ} (K : Type ℓ) : Type ℓ where
  pub is_eq : (j k : K) → Bool
  pub is_eq_iff : (j k : K) → (is_eq j k ≡ true) ↔ (j ≡ k)

instance abbrev pub nat_eq : Eq ℕ
nat_eq = record { is_eq_iff = eqb_iff; is_eq = eqb }

instance abbrev pub string_eq : Eq String
string_eq = record { is_eq_iff = eq_iff; is_eq = str_eq }

infix 50 ◌==◌
abbrev pub ◌==◌ {ℓ} : {K : Type ℓ} ⦃keys : Eq K⦄ (j k : K) → Bool
◌==◌ ⦃keys⦄ j k = keys.is_eq j k

module _ {ℓ κ} {A : Type ℓ} {B : Type κ} ⦃e : Eq A⦄ ⦃f : Eq B⦄ where
  abbrev pub pair_beq : A × B → A × B → Bool
  pair_beq (a, b) (c, d) = e.is_eq a c && f.is_eq b d

  pub pair_beq_iff : (p q : A × B) → (pair_beq p q ≡ true) ↔ (p ≡ q)
  pair_beq_iff (a, b) (c, d) = ground (arith, e.is_eq_iff a c, f.is_eq_iff b d)

  instance abbrev pub pair_eq : Eq (A × B)
  pair_eq = record { is_eq = pair_beq; is_eq_iff = pair_beq_iff }

module _ {ℓ} {A : Type ℓ} ⦃e : Eq A⦄ where
  abbrev pub option_beq : Option A → Option A → Bool
  option_beq none none = true
  option_beq (some a) (some b) = e.is_eq a b
  option_beq _ _ = false

  pub option_beq_iff : (p q : Option A) → (option_beq p q ≡ true) ↔ (p ≡ q)
  option_beq_iff none none = ground arith
  option_beq_iff none (some b) = ground arith
  option_beq_iff (some a) none = ground arith
  option_beq_iff (some a) (some b) = ground (arith, e.is_eq_iff a b)

  instance abbrev pub option_eq : Eq (Option A)
  option_eq = record { is_eq = option_beq; is_eq_iff = option_beq_iff }

  pub beq_refl : (a : A) → (a == a) ≡ true
  beq_refl a = (e.is_eq_iff a a).1 refl
