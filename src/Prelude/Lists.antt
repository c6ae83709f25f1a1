-- ===== src/Prelude/Lists.antt =====
-- Lists measured by native numbers, under the library's names, and Python's slice `xs[-n:]`.
use Prim.Native.Nat.{ℕ, zero, suc, ◌+◌, ◌-◌, ◌≤◌, ◌<◌}
use mathlib.Core.Path.{◌≡◌, refl}
use mathlib.Core.Bool.{Bool, true, false}
use mathlib.Core.Logic.{inl, inr}
use mathlib.Core.List.{List, [], ◌∷◌, ◌++◌}
use native.Mathlib.Omega.{arith}
use cto_test_ai_trading_bot.Prelude.Tests.{ltb, if◌then◌else◌, Bool-cases}

module _ {ℓ} {A : Type ℓ} where
  abbrev pub length : List A → ℕ
  length [] = 0
  length (x ∷ xs) = suc (length xs)

  abbrev pub drop : ℕ → List A → List A
  drop zero xs = xs
  drop (suc n) [] = []
  drop (suc n) (x ∷ xs) = drop n xs

  abbrev pub take : ℕ → List A → List A
  take zero xs = []
  take (suc n) [] = []
  take (suc n) (x ∷ xs) = x ∷ take n xs

  -- the comprehension `[x for x in xs if p(x)]`
  abbrev pub keep : (A → Bool) → List A → List A
  keep p [] = []
  keep p (x ∷ xs) = let rest = keep p xs in if p x then x ∷ rest else rest

  abbrev pub All {κ} : (A → Type κ) → List A → Type κ
  All P [] = Unit
  All P (x ∷ xs) = P x × All P xs

  -- `xs[-n:]` is the whole list for n = 0, and when the list is shorter
  abbrev pub last_n : ℕ → List A → List A
  last_n zero xs = xs
  last_n (suc n) xs = drop (length xs - suc n) xs

  -- `xs.append(x); if len(xs) > n: xs = xs[-n:]`
  unfoldable pub push_bounded : ℕ → A → List A → List A
  push_bounded n x xs =
      let grown = xs ++ x ∷ [] in if ltb n (length grown) then last_n n grown else grown

  pub length-append : (xs ys : List A) → length (xs ++ ys) ≡ length xs + length ys
  length-append [] ys = omega arith
  length-append (x ∷ xs) ys = omega (arith, length-append xs ys)

  pub length-drop : (n : ℕ) (xs : List A) → length (drop n xs) ≡ length xs - n
  length-drop zero xs = omega arith
  length-drop (suc n) [] = omega arith
  length-drop (suc n) (x ∷ xs) = omega (arith, length-drop n xs)

  pub length-keep-le : (p : A → Bool) (xs : List A) → length (keep p xs) ≤ length xs
  length-keep-le p [] = omega arith
  length-keep-le p (x ∷ xs) = ground (arith, length-keep-le p xs)

  pub length-take-le : (n : ℕ) (xs : List A) → length (take n xs) ≤ n
  length-take-le zero xs = omega arith
  length-take-le (suc n) [] = omega arith
  length-take-le (suc n) (x ∷ xs) = omega (arith, length-take-le n xs)

  pub All-append {κ} : (P : A → Type κ) (xs ys : List A) → All P xs → All P ys → All P (xs ++ ys)
  All-append P [] ys _ q = q
  All-append P (x ∷ xs) ys (p, ps) q = (p, All-append P xs ys ps q)

  pub All-drop {κ} : (P : A → Type κ) (n : ℕ) (xs : List A) → All P xs → All P (drop n xs)
  All-drop P zero xs h = h
  All-drop P (suc n) [] h = tt
  All-drop P (suc n) (x ∷ xs) h = All-drop P n xs h.1

  pub All-keep {κ} : (P : A → Type κ) (p : A → Bool) (xs : List A) → All P xs → All P (keep p xs)
  All-keep P p [] h = tt
  All-keep P p (x ∷ xs) h = if-All (p x) h.0 (All-keep P p xs h.1)
    where
      if-All : (b : Bool) → P x → All P (keep p xs) → All P (if b then x ∷ keep p xs else keep p xs)
      if-All true a r = (a, r)
      if-All false a r = r

  drop-append : (n : ℕ) (xs ys : List A) → n ≤ length xs → drop n (xs ++ ys) ≡ drop n xs ++ ys
  drop-append zero xs ys h = refl
  drop-append (suc n) [] ys h = elim h [ ]
  drop-append (suc n) (x ∷ xs) ys h = drop-append n xs ys (omega arith)

  pub length-push_bounded :
      (n : ℕ) (x : A) (xs : List A) → 0 < n → length xs ≤ n → length (push_bounded n x xs) ≤ n
  unfolding push_bounded
  length-push_bounded zero x xs p h = elim p [ ]
  length-push_bounded (suc n) x xs p h =
      ground (
        arith,
        length-append xs (x ∷ []),
        length-drop (length (xs ++ x ∷ []) - suc n) (xs ++ x ∷ []),
      )

  -- Of the old entries only the oldest are lost, and the new one is the last.
  pub push_bounded_suffix :
      (n : ℕ) (x : A) (xs : List A)
      → 0 < n
      → push_bounded n x xs ≡ drop (length xs + 1 - n) xs ++ x ∷ []
  unfolding push_bounded
  push_bounded_suffix zero x xs p = elim p [ ]
  push_bounded_suffix (suc n) x xs p = elim (Bool-cases (ltb (suc n) (length (xs ++ x ∷ [])))) [
    | inl long ↦
        let grown : length (xs ++ x ∷ []) ≡ length xs + 1 = length-append xs (x ∷ []) in
        rw (long, grown) (drop-append (length xs + 1 - suc n) xs (x ∷ []) (omega arith))
    | inr short ↦
        let fits : length xs + 1 - suc n ≡ 0 = ground (arith, length-append xs (x ∷ [])) in
        rw (short, fits)
  ]
