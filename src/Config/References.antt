-- ===== src/Config/References.antt =====
-- core/config.py: what the text between the braces of a reference stands for.
use mathlib.Core.Path.{subst, ap₂}
use cto_test_ai_trading_bot.Prelude.{
  ℕ, ◌≡◌, ap, ◌∙◌, false, ◌&&◌, Option, none, some, [], ◌∷◌, ◌++◌, ◌==◌, ◌⊎◌, arith, All,
  Option-cases, Bool-cases, inl, inr,
}
use cto_test_ai_trading_bot.Config.{Text, colon, dash, split_colon, split_dash, env_or, replace}

-- a text without ":-", and one without "-"
abbrev IsColonFree : Text → Type 0
IsColonFree [] = Unit
IsColonFree (c ∷ []) = Unit
IsColonFree (c ∷ d ∷ cs) = ((c == colon && d == dash) ≡ false) × IsColonFree (d ∷ cs)

abbrev IsDashFree : Text → Type 0
IsDashFree = All (λ c. (c == dash) ≡ false)

-- The value of "name:-default" is the variable, if it is set and not empty, and else the default; that of
-- "name-default" is the variable, if it is set, and else the default; that of a name is the variable, and
-- nothing if it is not set. The first separator counts.
pub data IsValue (env : Text → Option Text) : Text → Text → Type 0 where
  colon_set :
      {expr : Text} (name default : Text) (c : ℕ) (cs : Text)
      → expr ≡ name ++ colon ∷ dash ∷ default
      → IsColonFree name
      → env name ≡ some (c ∷ cs)
      → IsValue env expr (c ∷ cs)
  colon_default :
      {expr : Text} (name default : Text)
      → expr ≡ name ++ colon ∷ dash ∷ default
      → IsColonFree name
      → (env name ≡ none) ⊎ (env name ≡ some [])
      → IsValue env expr default
  dash_set :
      {expr : Text} (name default value : Text)
      → IsColonFree expr
      → expr ≡ name ++ dash ∷ default
      → IsDashFree name
      → env name ≡ some value
      → IsValue env expr value
  dash_default :
      {expr : Text} (name default : Text)
      → IsColonFree expr
      → expr ≡ name ++ dash ∷ default
      → IsDashFree name
      → env name ≡ none
      → IsValue env expr default
  plain_set :
      {expr : Text} (value : Text)
      → IsColonFree expr
      → IsDashFree expr
      → env expr ≡ some value
      → IsValue env expr value
  plain_unset :
      {expr : Text} → IsColonFree expr → IsDashFree expr → env expr ≡ none → IsValue env expr []

starts :
    (c d : ℕ) (cs name rest : Text)
    → (c == colon && d == dash) ≡ false
    → d ∷ cs ≡ name ++ rest
    → IsColonFree name
    → IsColonFree (c ∷ name)
starts c d cs [] rest h e free = tt
starts c d cs (a ∷ name) rest h e free =
    let same : d ≡ a = ground arith in (subst (λ x. (c == colon && x == dash) ≡ false) same h, free)

split_colon_sound :
    (cs name default : Text)
    → split_colon cs ≡ some (name, default)
    → (cs ≡ name ++ colon ∷ dash ∷ default) × IsColonFree name
unfolding split_colon
split_colon_sound [] name default h = ground arith
split_colon_sound (c ∷ []) name default h = ground arith
split_colon_sound (c ∷ d ∷ cs) name default h = elim (Bool-cases (c == colon && d == dash)) [
  | inl here ↦
      let first : c ≡ colon = ground arith in
      let second : d ≡ dash = ground arith in
      let nothing : [] ≡ name = ground arith in
      let rest : cs ≡ default = ground arith in
      subst (λ n. (c ∷ d ∷ cs ≡ n ++ colon ∷ dash ∷ default) × IsColonFree n) nothing
        (ap₂ ◌∷◌ first (ap₂ ◌∷◌ second rest), tt)
  | inr other ↦ elim (Option-cases (split_colon (d ∷ cs))) [
    | inl missing ↦ ground arith
    | inr ((n, a), found) ↦
        let (split, free) = split_colon_sound (d ∷ cs) n a found in
        let longer : c ∷ n ≡ name = ground arith in
        let rest : a ≡ default = ground arith in
        subst (λ m. (c ∷ d ∷ cs ≡ m ++ colon ∷ dash ∷ default) × IsColonFree m) longer
          (
            ap (◌∷◌ c) (split ∙ ap (λ z. n ++ colon ∷ dash ∷ z) rest),
            starts c d cs n (colon ∷ dash ∷ a) other split free,
          )
  ]
]

split_colon-none : (cs : Text) → split_colon cs ≡ none → IsColonFree cs
unfolding split_colon
split_colon-none [] h = tt
split_colon-none (c ∷ []) h = tt
split_colon-none (c ∷ d ∷ cs) h = elim (Option-cases (split_colon (d ∷ cs))) [
  | inl missing ↦ (ground arith, split_colon-none (d ∷ cs) missing)
  | inr ((n, a), found) ↦ ground arith
]

split_dash_sound :
    (cs name default : Text)
    → split_dash cs ≡ some (name, default)
    → (cs ≡ name ++ dash ∷ default) × IsDashFree name
unfolding split_dash
split_dash_sound [] name default h = ground arith
split_dash_sound (c ∷ cs) name default h = elim (Bool-cases (c == dash)) [
  | inl here ↦
      let first : c ≡ dash = ground arith in
      let nothing : [] ≡ name = ground arith in
      let rest : cs ≡ default = ground arith in
      subst (λ n. (c ∷ cs ≡ n ++ dash ∷ default) × IsDashFree n) nothing (ap₂ ◌∷◌ first rest, tt)
  | inr other ↦ elim (Option-cases (split_dash cs)) [
    | inl missing ↦ ground arith
    | inr ((n, a), found) ↦
        let (split, free) = split_dash_sound cs n a found in
        let longer : c ∷ n ≡ name = ground arith in
        let rest : a ≡ default = ground arith in
        subst (λ m. (c ∷ cs ≡ m ++ dash ∷ default) × IsDashFree m) longer
          (ap (◌∷◌ c) (split ∙ ap (λ z. n ++ dash ∷ z) rest), (other, free))
  ]
]

split_dash-none : (cs : Text) → split_dash cs ≡ none → IsDashFree cs
unfolding split_dash
split_dash-none [] h = tt
split_dash-none (c ∷ cs) h = elim (Option-cases (split_dash cs)) [
  | inl missing ↦ (ground arith, split_dash-none cs missing)
  | inr ((n, a), found) ↦ ground arith
]

module _ (env : Text → Option Text) where
  pub replace-IsValue : (expr : Text) → IsValue env expr (replace env expr)
  unfolding replace
  replace-IsValue expr = elim (Option-cases (split_colon expr)) [
    | inr ((name, default), found) ↦
        let (split, free) = split_colon_sound expr name default found in
        elim (Option-cases (env name)) [
          | inl unset ↦
              rw (replace, found, env_or, unset) (colon_default name default split free (inl unset))
          | inr ([], set) ↦
              rw (replace, found, env_or, set) (colon_default name default split free (inr set))
          | inr (c ∷ cs, set) ↦
              rw (replace, found, env_or, set) (colon_set name default c cs split free set)
        ]
    | inl no_colon ↦
        let free = split_colon-none expr no_colon in
        elim (Option-cases (split_dash expr)) [
          | inr ((name, default), found) ↦
              let (split, first) = split_dash_sound expr name default found in
              elim (Option-cases (env name)) [
                | inl unset ↦
                    rw (replace, no_colon, found, env_or, unset)
                      (dash_default name default free split first unset)
                | inr (value, set) ↦
                    rw (replace, no_colon, found, env_or, set)
                      (dash_set name default value free split first set)
              ]
          | inl no_dash ↦
              let alone = split_dash-none expr no_dash in
              elim (Option-cases (env expr)) [
                | inl unset ↦
                    rw (replace, no_colon, no_dash, env_or, unset) (plain_unset free alone unset)
                | inr (value, set) ↦
                    rw (replace, no_colon, no_dash, env_or, set) (plain_set value free alone set)
              ]
        ]
  ]
