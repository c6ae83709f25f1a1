-- ===== src/Config.antt =====
-- core/config.py: the configuration. `Value` is what `yaml.safe_load` returns, and a text in it is the
-- list of its code points; numbers are floats. The environment is a function of the names of its
-- variables.
pub mod Interpolation
pub mod References
pub mod Sections
mod Tests
use cto_test_ai_trading_bot.Prelude.{
  ℕ, zero, suc, String, Bool, true, false, not, Option, none, some, List, [], ◌∷◌, ◌++◌, ◌==◌, ◌&&◌,
  if◌then◌else◌, str_eq, length, ◌>>=◌,
}
use cto_test_ai_trading_bot.Prelude.Number.{Number, equal, zero_num}

abbrev pub Text : Type 0
Text = List ℕ

mutual
  pub data Value (A : Type 0) : Type 0 where
    null : Value A
    flag : Bool → Value A
    number : A → Value A
    text : Text → Value A
    items : Items A → Value A
    table : Entries A → Value A

  pub data Items (A : Type 0) : Type 0 where
    nil : Items A
    cons : Value A → Items A → Items A

  pub data Entries (A : Type 0) : Type 0 where
    end : Entries A
    entry : String → Value A → Entries A → Entries A

-- The code points of the characters that `_interpolate` looks for
abbrev pub dollar : ℕ
dollar = 36

abbrev pub open_brace : ℕ
open_brace = 123

abbrev pub close_brace : ℕ
close_brace = 125

abbrev pub colon : ℕ
colon = 58

abbrev pub dash : ℕ
dash = 45

-- the part of a text before the first closing brace, and the part after it
unfoldable pub until_brace : Text → Option (Text × Text)
until_brace [] = none
until_brace (c ∷ cs) =
    if c == close_brace
    then some ([], cs)
    else elim (until_brace cs) [ none ↦ none | some (inside, after) ↦ some (c ∷ inside, after) ]

-- `expr.split(":-", 1)` and `expr.split("-", 1)`, if the separator is there
unfoldable pub split_colon : Text → Option (Text × Text)
split_colon [] = none
split_colon (c ∷ []) = none
split_colon (c ∷ d ∷ cs) =
    if c == colon && d == dash then some ([], cs) else elim (split_colon (d ∷ cs)) [
      | none ↦ none
      | some (name, default) ↦ some (c ∷ name, default)
    ]

unfoldable pub split_dash : Text → Option (Text × Text)
split_dash [] = none
split_dash (c ∷ cs) =
    if c == dash
    then some ([], cs)
    else elim (split_dash cs) [ none ↦ none | some (name, default) ↦ some (c ∷ name, default) ]

abbrev is_empty : Text → Bool
is_empty [] = true
is_empty (c ∷ cs) = false

module _ (env : Text → Option Text) where
  -- `os.environ.get(name, default)`
  abbrev pub env_or : Text → Text → Text
  env_or name default = elim (env name) [ none ↦ default | some value ↦ value ]

  -- `replace`, for the text between the braces
  unfoldable pub replace : Text → Text
  replace expr = elim (split_colon expr) [
    | some (name, default) ↦ let value = env_or name [] in if is_empty value then default else value
    | none ↦ elim (split_dash expr) [
      | some (name, default) ↦ env_or name default
      | none ↦ env_or expr []
    ]
  ]

  -- `_ENV_PATTERN.sub(replace, value)`: from the left, each "${…}" with something between the braces
  -- is replaced, and what stands before it is kept. A step takes at least one character.
  unfoldable pub substitute : (fuel : ℕ) → Text → Text
  unfolding replace until_brace
  substitute zero cs = cs
  substitute (suc fuel) [] = []
  substitute (suc fuel) (c ∷ []) = c ∷ []
  substitute (suc fuel) (c ∷ d ∷ cs) =
      if not (c == dollar && d == open_brace)
      then c ∷ substitute fuel (d ∷ cs)
      else elim (until_brace cs) [
        | none ↦ c ∷ substitute fuel (d ∷ cs)
        | some ([], after) ↦ c ∷ substitute fuel (d ∷ cs)
        | some (e ∷ inside, after) ↦ replace (e ∷ inside) ++ substitute fuel after
      ]

  unfoldable pub interpolate_text : Text → Text
  unfolding substitute
  interpolate_text cs = substitute (length cs) cs

  unfoldable mutual
    pub interpolate : {A : Type 0} → Value A → Value A
    interpolate null = null
    interpolate (flag b) = flag b
    interpolate (number a) = number a
    interpolate (text t) = text (interpolate_text t)
    interpolate (items vs) = items (interpolate_items vs)
    interpolate (table es) = table (interpolate_entries es)

    pub interpolate_items : {A : Type 0} → Items A → Items A
    interpolate_items nil = nil
    interpolate_items (cons v vs) = cons (interpolate v) (interpolate_items vs)

    pub interpolate_entries : {A : Type 0} → Entries A → Entries A
    interpolate_entries end = end
    interpolate_entries (entry k v es) = entry k (interpolate v) (interpolate_entries es)

module _ {A : Type 0} where
  -- `d[k]`, which raises KeyError (`none`) for a missing key
  unfoldable pub find : String → Entries A → Option (Value A)
  find k end = none
  find k (entry j v es) = if str_eq j k then some v else find k es

  -- `d[k] = v`
  unfoldable pub put : String → Value A → Entries A → Entries A
  put k v end = entry k v end
  put k v (entry j w es) = if str_eq j k then entry k v es else entry j w (put k v es)

  -- `section`; `none` is a KeyError
  unfoldable pub section : List String → Value A → Option (Value A)
  unfolding find
  section [] node = some node
  section (k ∷ ks) (table es) = elim (find k es) [ none ↦ none | some v ↦ section ks v ]
  section (k ∷ ks) _ = none

  unfoldable pub get_value : List String → Value A → Value A → Value A
  unfolding section
  get_value keys default node = elim (section keys node) [ none ↦ default | some v ↦ v ]

module _ {A : Type 0} ⦃num : Number A⦄ where
  -- `bool(value)`
  unfoldable pub truthy : Value A → Bool
  truthy null = false
  truthy (flag b) = b
  truthy (number a) = not (equal a zero_num)
  truthy (text []) = false
  truthy (text (c ∷ cs)) = true
  truthy (items nil) = false
  truthy (items (cons v vs)) = true
  truthy (table end) = false
  truthy (table (entry k v es)) = true

  -- the value of "paper_mode" in the section "system"; `none` where `get` is no method of the node
  unfoldable pub paper_mode_of : Option (Value A) → Option Bool
  unfolding truthy find
  paper_mode_of none = some true
  paper_mode_of (some (table es)) =
      some (elim (find "paper_mode" es) [ none ↦ true | some v ↦ truthy v ])
  paper_mode_of (some _) = none

  unfoldable pub paper_mode : Value A → Option Bool
  unfolding paper_mode_of
  paper_mode (table es) = paper_mode_of (find "system" es)
  paper_mode _ = none

-- the setter of `paper_mode`; `none` where the assignment raises TypeError
unfoldable pub set_in : {A : Type 0} → Bool → Entries A → Option (Value A) → Option (Value A)
unfolding put
set_in value es none = some (table (put "system" (table (put "paper_mode" (flag value) end)) es))
set_in value es (some (table system)) =
    some (table (put "system" (table (put "paper_mode" (flag value) system)) es))
set_in value es (some _) = none

unfoldable pub set_paper_mode : {A : Type 0} → Bool → Value A → Option (Value A)
unfolding set_in find
set_paper_mode value (table es) = set_in value es (find "system" es)
set_paper_mode value _ = none
