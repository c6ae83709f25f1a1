-- ===== src/Prelude/Number.antt =====
-- Python's floats, as the program uses them: a type with the four operations, a comparison and the
-- decimal literals. The operations of a float round, so the development assumes of them no more
-- than `IsOrdered` states, and each theorem names what it needs. A float that is not a number is
-- excluded by those laws.
use Prim.Native.Nat.{ℕ}
use mathlib.Core.Path.{◌≡◌}
use mathlib.Core.Logic.{inl, inr}
use mathlib.Core.Bool.{Bool, true, false, not, ◌&&◌}
use mathlib.Core.Option.{Option, none, some}
use mathlib.Core.List.{List, foldl}
use native.Mathlib.Omega.{arith}
use cto_test_ai_trading_bot.Prelude.Tests.{if◌then◌else◌, Bool-cases}

pub record Number (A : Type 0) : Type 0 where
  pub plus : A → A → A
  pub minus : A → A → A
  pub times : A → A → A
  pub over : A → A → A
  pub less : A → A → Bool
  -- the literal that is written as the decimal fraction n / d
  pub of_ratio : ℕ → ℕ → A

module _ {A : Type 0} ⦃num : Number A⦄ where
  infixl 65 ◌⊕◌ ◌⊖◌
  infixl 70 ◌⊗◌ ◌⊘◌
  infix 50 ◌≺◌ ◌≼◌
  abbrev pub ◌⊕◌ : A → A → A
  ◌⊕◌ = num.plus

  abbrev pub ◌⊖◌ : A → A → A
  ◌⊖◌ = num.minus

  abbrev pub ◌⊗◌ : A → A → A
  ◌⊗◌ = num.times

  abbrev pub ◌⊘◌ : A → A → A
  ◌⊘◌ = num.over

  -- the test `a < b`
  abbrev pub ◌≺◌ : A → A → Bool
  ◌≺◌ = num.less

  -- the test `a <= b`
  abbrev pub ◌≼◌ : A → A → Bool
  a ≼ b = not (num.less b a)

  abbrev pub ratio : ℕ → ℕ → A
  ratio = num.of_ratio

  abbrev pub zero_num : A
  zero_num = num.of_ratio 0 1

  -- the test `a == b`
  abbrev pub equal : A → A → Bool
  equal a b = not (num.less a b) && not (num.less b a)

  -- `-a`
  abbrev pub negate : A → A
  negate a = num.minus zero_num a

  -- `abs(a)`
  unfoldable pub absolute : A → A
  absolute a = if a ≺ zero_num then negate a else a

  -- `max(a, b)` and `min(a, b)` return the first of two equal arguments.
  unfoldable pub larger : A → A → A
  larger a b = if a ≺ b then b else a

  unfoldable pub smaller : A → A → A
  smaller a b = if b ≺ a then b else a

  -- `sum(xs)` adds from the left.
  unfoldable pub total : List A → A
  total = foldl num.plus zero_num

-- The order that a theorem states: `a` is less than `b`, or at most `b`.
abbrev pub IsLt : {A : Type 0} ⦃num : Number A⦄ → A → A → Type 0
IsLt a b = (a ≺ b) ≡ true

abbrev pub IsLe : {A : Type 0} ⦃num : Number A⦄ → A → A → Type 0
IsLe a b = (b ≺ a) ≡ false

-- What comparisons of floats satisfy when none of them is NaN.
pub record IsOrdered {A : Type 0} (num : Number A) : Type 0 where
  pub lt_irrefl : (a : A) → num.less a a ≡ false
  pub lt_asymm : (a b : A) → num.less a b ≡ true → num.less b a ≡ false
  pub le_trans : (a b c : A) → num.less b a ≡ false → num.less c b ≡ false → num.less c a ≡ false

module _ {A : Type 0} ⦃num : Number A⦄ (ord : IsOrdered num) where
  pub lt_of_lt-le : (a b c : A) → IsLt a b → IsLe b c → IsLt a c
  lt_of_lt-le a b c p q = elim (Bool-cases (a ≺ c)) [
    | inl lt ↦ lt
    | inr ge ↦ ground (arith, ord.le_trans b c a q ge)
  ]

  pub le-larger_left : (a b : A) → IsLe a (larger a b)
  unfolding larger
  le-larger_left a b = ground (arith, ord.lt_irrefl a, ord.lt_asymm a b)

  pub le-larger_right : (a b : A) → IsLe b (larger a b)
  unfolding larger
  le-larger_right a b = ground (arith, ord.lt_irrefl b)

  pub smaller-le_left : (a b : A) → IsLe (smaller a b) a
  unfolding smaller
  smaller-le_left a b = ground (arith, ord.lt_irrefl a, ord.lt_asymm b a)

  pub smaller-le_right : (a b : A) → IsLe (smaller a b) b
  unfolding smaller
  smaller-le_right a b = ground (arith, ord.lt_irrefl b)

-- `a / b`, which raises ZeroDivisionError (`none`) for a divisor of zero
unfoldable pub divide : {A : Type 0} ⦃num : Number A⦄ → A → A → Option A
divide a b = if equal b zero_num then none else some (a ⊘ b)
