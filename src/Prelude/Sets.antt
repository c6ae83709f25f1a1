-- ===== src/Prelude/Sets.antt =====
-- A Python `set`: a list without duplicates, whose order no theorem reads. `Eq` is what `==` needs.
use Prim.Native.String.{String}
use mathlib.Core.Path.{◌≡◌, refl}
use mathlib.Core.Logic.{◌↔◌}
use mathlib.Core.Bool.{Bool, true, false, not, ◌&&◌, ◌||◌}
use mathlib.Core.List.{List, [], ◌∷◌, ◌++◌}
use native.Mathlib.Omega.{arith}
use text.Mathlib.Text.{◌==◌ as str_eq}
use text.Mathlib.TextEquality.{eq_iff}
use cto_test_ai_trading_bot.Prelude.Tests.{if◌then◌else◌}

pub record Eq {ℓ} (A : Type ℓ) : Type ℓ where
  pub beq : A → A → Bool
  pub beq_iff : (a b : A) → (beq a b ≡ true) ↔ (a ≡ b)

instance abbrev pub string_eq : Eq String
string_eq = record { beq = str_eq; beq_iff = eq_iff }

module _ {ℓ} {A : Type ℓ} ⦃e : Eq A⦄ where
  abbrev pub same : A → A → Bool
  same = e.beq

  -- `x in s`
  unfoldable pub has : A → List A → Bool
  has x [] = false
  has x (y ∷ s) = same y x || has x s

  -- `s.add(x)`
  unfoldable pub add : A → List A → List A
  unfolding has
  add x s = if has x s then s else s ++ x ∷ []

  -- `s.discard(x)`
  unfoldable pub discard : A → List A → List A
  discard x [] = []
  discard x (y ∷ s) = let rest = discard x s in if same y x then rest else y ∷ rest

  -- `for x in xs: s.add(x)` and `for x in xs: s.discard(x)`
  unfoldable pub add_all : List A → List A → List A
  add_all [] s = s
  add_all (x ∷ xs) s = add_all xs (add x s)

  unfoldable pub discard_all : List A → List A → List A
  discard_all [] s = s
  discard_all (x ∷ xs) s = discard_all xs (discard x s)

  abbrev pub IsSetList : List A → Type 0
  IsSetList [] = Unit
  IsSetList (x ∷ s) = (has x s ≡ false) × IsSetList s

  has-append : (x : A) (s t : List A) → has x (s ++ t) ≡ has x s || has x t
  unfolding has
  has-append x [] t = refl
  has-append x (y ∷ s) t = ground (arith, has-append x s t)

  pub has-add : (x y : A) (s : List A) → has y (add x s) ≡ same x y || has y s
  unfolding add
  has-add x y s = ground (arith, has, has-append y s (x ∷ []), e.beq_iff x y)

  pub has-discard : (x y : A) (s : List A) → has y (discard x s) ≡ not (same x y) && has y s
  unfolding discard has
  has-discard x y [] = ground arith
  has-discard x y (z ∷ s) =
      ground (arith, has-discard x y s, e.beq_iff x y, e.beq_iff z x, e.beq_iff z y)

  pub has-add_all : (y : A) (xs s : List A) → has y (add_all xs s) ≡ has y xs || has y s
  unfolding add_all has
  has-add_all y [] s = refl
  has-add_all y (x ∷ xs) s = ground (arith, has-add_all y xs (add x s), has-add x y s)

  pub has-discard_all :
      (y : A) (xs s : List A) → has y (discard_all xs s) ≡ not (has y xs) && has y s
  unfolding discard_all has
  has-discard_all y [] s = refl
  has-discard_all y (x ∷ xs) s =
      ground (arith, has-discard_all y xs (discard x s), has-discard x y s)

  append-IsSetList : (x : A) (s : List A) → has x s ≡ false → IsSetList s → IsSetList (s ++ x ∷ [])
  unfolding has
  append-IsSetList x [] h u = (refl, tt)
  append-IsSetList x (y ∷ s) h u =
      ground (arith, append-IsSetList x s, has-append y s (x ∷ []), e.beq_iff x y, e.beq_iff y x)

  pub add-IsSetList : (x : A) (s : List A) → IsSetList s → IsSetList (add x s)
  unfolding add
  add-IsSetList x s u = ground (arith, append-IsSetList x s)

  pub discard-IsSetList : (x : A) (s : List A) → IsSetList s → IsSetList (discard x s)
  unfolding discard
  discard-IsSetList x [] u = tt
  discard-IsSetList x (y ∷ s) u = ground (arith, discard-IsSetList x s u.1, has-discard x y s)
