-- ===== src/Config/Interpolation.antt =====
-- core/config.py: the substitution of environment variables in a text.
use mathlib.Core.Path.{subst, ap₂}
use cto_test_ai_trading_bot.Prelude.{
  ℕ, zero, suc, ◌≤◌, ◌≡◌, refl, sym, ap, ◌∙◌, false, ◌&&◌, Option, none, some, [], ◌∷◌, ◌++◌, ◌==◌,
  arith, length, All, Option-cases, Bool-cases, inl, inr,
}
use cto_test_ai_trading_bot.Config.References.{IsValue, replace-IsValue}
use cto_test_ai_trading_bot.Config.{
  Text, dollar, open_brace, close_brace, until_brace, substitute, interpolate_text,
}

length-until_brace :
    (cs inside after : Text) → until_brace cs ≡ some (inside, after) → length after ≤ length cs
unfolding until_brace
length-until_brace [] inside after h = ground arith
length-until_brace (c ∷ cs) inside after h = elim (Option-cases (until_brace cs)) [
  | inl missing ↦ ground arith
  | inr ((i, a), found) ↦ ground (arith, length-until_brace cs i a found)
]

cons_head : {c d : ℕ} {cs ds : Text} → c ∷ cs ≡ d ∷ ds → c ≡ d
cons_head h = ground arith

cons_tail : {c d : ℕ} {cs ds : Text} → c ∷ cs ≡ d ∷ ds → cs ≡ ds
cons_tail h = ground arith

abbrev pub IsInside : Text → Type 0
IsInside = All (λ c. (c == close_brace) ≡ false)

until_brace_sound :
    (cs inside after : Text)
    → until_brace cs ≡ some (inside, after)
    → (cs ≡ inside ++ close_brace ∷ after) × IsInside inside
unfolding until_brace
until_brace_sound [] inside after h = ground arith
until_brace_sound (c ∷ cs) inside after h = elim (Bool-cases (c == close_brace)) [
  | inl closed ↦
      let here : c ≡ close_brace = ground arith in
      let nothing : [] ≡ inside = ground arith in
      let rest : cs ≡ after = ground arith in
      subst (λ i. (c ∷ cs ≡ i ++ close_brace ∷ after) × IsInside i) nothing (ap₂ ◌∷◌ here rest, tt)
  | inr opened ↦ elim (Option-cases (until_brace cs)) [
    | inl missing ↦ ground arith
    | inr ((i, a), found) ↦
        let (split, free) = until_brace_sound cs i a found in
        let longer : c ∷ i ≡ inside = ground arith in
        let rest : a ≡ after = ground arith in
        subst (λ j. (c ∷ cs ≡ j ++ close_brace ∷ after) × IsInside j) longer
          (ap (◌∷◌ c) (split ∙ ap (λ z. i ++ close_brace ∷ z) rest), (opened, free))
  ]
]

until_brace_complete :
    (inside after : Text)
    → IsInside inside
    → until_brace (inside ++ close_brace ∷ after) ≡ some (inside, after)
unfolding until_brace
until_brace_complete [] after h = refl
until_brace_complete (c ∷ inside) after h = ground (arith, until_brace_complete inside after h.1)

-- A text starts with a reference: a dollar sign, and something between braces.
abbrev pub IsReference : Text → Type 0
IsReference cs =
    (e : ℕ) × (inside : Text) × (after : Text) × (cs
      ≡ dollar ∷ open_brace ∷ (e ∷ inside) ++ close_brace ∷ after)
    × IsInside (e ∷ inside)

module _ (env : Text → Option Text) where
  -- what the substitution of a pattern means, from the left to the right
  pub data Expands : Text → Text → Type 0 where
    ends : Expands [] []
    kept :
        {c : ℕ} {cs out : Text}
        → ¬ IsReference (c ∷ cs)
        → Expands cs out
        → Expands (c ∷ cs) (c ∷ out)
    replaced :
        {cs out value : Text} (e : ℕ) (inside after : Text)
        → cs ≡ dollar ∷ open_brace ∷ (e ∷ inside) ++ close_brace ∷ after
        → IsInside (e ∷ inside)
        → IsValue env (e ∷ inside) value
        → Expands after out
        → Expands cs (value ++ out)

  -- More fuel than there are characters changes nothing.
  fuel_irrelevant :
      (m n : ℕ) (cs : Text)
      → length cs ≤ m
      → length cs ≤ n
      → substitute env m cs ≡ substitute env n cs
  unfolding substitute
  fuel_irrelevant zero zero cs p q = refl
  fuel_irrelevant zero (suc n) [] p q = refl
  fuel_irrelevant zero (suc n) (c ∷ cs) p q = absurd (omega arith)
  fuel_irrelevant (suc m) zero [] p q = refl
  fuel_irrelevant (suc m) zero (c ∷ cs) p q = absurd (omega arith)
  fuel_irrelevant (suc m) (suc n) [] p q = refl
  fuel_irrelevant (suc m) (suc n) (c ∷ []) p q = refl
  fuel_irrelevant (suc m) (suc n) (c ∷ d ∷ cs) p q =
      let next = fuel_irrelevant m n (d ∷ cs) (omega arith) (omega arith) in
      elim (Option-cases (until_brace cs)) [
        | inl missing ↦ ground (arith, next, missing)
        | inr (([], after), found) ↦ ground (arith, next, found)
        | inr ((e ∷ inside, after), found) ↦
            let shorter = length-until_brace cs (e ∷ inside) after found in
            ground (arith, next, found, fuel_irrelevant m n after (omega arith) (omega arith))
      ]

  alone : (c : ℕ) → ¬ IsReference (c ∷ [])
  alone c (e, inside, after, same, free) =
      let rest : ◌≡◌ {A = Text} [] (open_brace ∷ (e ∷ inside) ++ close_brace ∷ after) =
        cons_tail same in
      ground arith

  plain :
      (c d : ℕ) (cs : Text) → (c == dollar && d == open_brace) ≡ false → ¬ IsReference (c ∷ d ∷ cs)
  plain c d cs h (e, inside, after, same, free) =
      let first : c ≡ dollar = cons_head same in
      let second : d ≡ open_brace = cons_head (cons_tail same) in ground arith

  unclosed : (c d : ℕ) (cs : Text) → until_brace cs ≡ none → ¬ IsReference (c ∷ d ∷ cs)
  unclosed c d cs h (e, inside, after, same, free) =
      let rest : cs ≡ (e ∷ inside) ++ close_brace ∷ after = cons_tail (cons_tail same) in
      let found = until_brace_complete (e ∷ inside) after free in
      let clash : ◌≡◌ {A = Option (Text × Text)} none (some (e ∷ inside, after)) =
        sym h ∙ ap until_brace rest ∙ found in
      ground arith

  nothing_inside :
      (c d : ℕ) (cs after : Text) → until_brace cs ≡ some ([], after) → ¬ IsReference (c ∷ d ∷ cs)
  nothing_inside c d cs a h (e, inside, after, same, free) =
      let rest : cs ≡ (e ∷ inside) ++ close_brace ∷ after = cons_tail (cons_tail same) in
      let found = until_brace_complete (e ∷ inside) after free in
      let clash : ◌≡◌ {A = Option (Text × Text)} (some ([], a)) (some (e ∷ inside, after)) =
        sym h ∙ ap until_brace rest ∙ found in
      ground arith

  substitute-Expands : (n : ℕ) (cs : Text) → length cs ≤ n → Expands cs (substitute env n cs)
  unfolding substitute
  substitute-Expands zero [] h = ends
  substitute-Expands zero (c ∷ cs) h = absurd (omega arith)
  substitute-Expands (suc n) [] h = ends
  substitute-Expands (suc n) (c ∷ []) h = kept (alone c) ends
  substitute-Expands (suc n) (c ∷ d ∷ cs) h =
      let next = substitute-Expands n (d ∷ cs) (omega arith) in
      elim (Bool-cases (c == dollar && d == open_brace)) [
        | inr other ↦ rw other (kept (plain c d cs other) next)
        | inl here ↦ elim (Option-cases (until_brace cs)) [
          | inl missing ↦ rw (here, missing) (kept (unclosed c d cs missing) next)
          | inr (([], after), found) ↦
              rw (here, found) (kept (nothing_inside c d cs after found) next)
          | inr ((e ∷ inside, after), found) ↦
              let (split, free) = until_brace_sound cs (e ∷ inside) after found in
              let shorter = length-until_brace cs (e ∷ inside) after found in
              let first : c ≡ dollar = ground arith in
              let second : d ≡ open_brace = ground arith in
              rw (here, found)
                (replaced e inside after (ap₂ ◌∷◌ first (ap₂ ◌∷◌ second split)) free
                  (replace-IsValue env (e ∷ inside)) (substitute-Expands n after (omega arith)))
        ]
      ]

  -- Whatever the text and the environment are, the substitution gives the text in which, from the left,
  -- each reference, that is "${", something without "}", and "}", is replaced by its value, and every
  -- other character is kept. The value is that of `IsValue`: of the variable, or the default behind ":-"
  -- (for a variable that is unset or empty) or behind "-" (for one that is unset), or nothing.
  pub interpolate_text-Expands : (cs : Text) → Expands cs (interpolate_text env cs)
  unfolding interpolate_text
  interpolate_text-Expands cs = substitute-Expands (length cs) cs (omega arith)
