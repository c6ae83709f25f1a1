-- ===== src/Config/Sections.antt =====
-- core/config.py: what the setter of `paper_mode` changes.
use cto_test_ai_trading_bot.Prelude.{
  ◌≡◌, ◌≢◌, refl, String, Bool, true, false, Option, none, some, List, ◌∷◌, arith, if◌then◌else◌,
  str_eq, eq_iff,
}
use cto_test_ai_trading_bot.Prelude.Number.{Number}
use cto_test_ai_trading_bot.Config.{
  Value, Entries, null, flag, number, text, items, table, end, entry, find, put, section, truthy,
  paper_mode_of, paper_mode, set_in, set_paper_mode,
}

find-put :
    {A : Type 0} (k j : String) (v : Value A) (es : Entries A)
    → find j (put k v es) ≡ (if str_eq k j then some v else find j es)
unfolding find put
find-put k j v end = refl
find-put k j v (entry i w es) =
    ground (arith, eq_iff k j, eq_iff i k, eq_iff i j, find-put k j v es)

find-put_self :
    {A : Type 0} (k : String) (v : Value A) (es : Entries A) → find k (put k v es) ≡ some v
find-put_self k v es = ground (arith, find-put k k v es, eq_iff k k)

module _ {A : Type 0} ⦃num : Number A⦄ where
  kept_elsewhere :
      (k : String) (ks : List String) (v : Value A) (es : Entries A)
      → k ≢ "system"
      → section (k ∷ ks) (table (put "system" v es)) ≡ section (k ∷ ks) (table es)
  unfolding section
  kept_elsewhere k ks v es other =
      let same : find k (put "system" v es) ≡ find k es =
        ground (arith, find-put "system" k v es, eq_iff "system" k) in
      rw (section, same) refl

  read_back :
      (b : Bool) (system es : Entries A)
      → paper_mode (table (put "system" (table (put "paper_mode" (flag b) system)) es)) ≡ some b
  unfolding paper_mode paper_mode_of truthy
  read_back b system es =
      let outer = find-put_self "system" (table (put "paper_mode" (flag b) system)) es in
      let inner = find-put_self "paper_mode" (flag b) system in
      rw (outer, paper_mode_of, inner, truthy) refl

  -- The section "system" is missing, or it is a table.
  abbrev pub is_section : Option (Value A) → Bool
  is_section none = true
  is_section (some (table es)) = true
  is_section (some _) = false

  set_in_lem :
      (b : Bool) (es : Entries A) (o : Option (Value A)) (k : String) (ks : List String)
      → is_section o ≡ true
      → k ≢ "system"
      → (c' : Value A) × (set_in b es o ≡ some c')
        × (paper_mode c' ≡ some b)
        × (section (k ∷ ks) c' ≡ section (k ∷ ks) (table es))
  unfolding set_in
  set_in_lem b es none k ks h other = (
    _,
    refl,
    read_back b end es,
    kept_elsewhere k ks (table (put "paper_mode" (flag b) end)) es other,
  )
  set_in_lem b es (some (table system)) k ks h other = (
    _,
    refl,
    read_back b system es,
    kept_elsewhere k ks (table (put "paper_mode" (flag b) system)) es other,
  )
  set_in_lem b es (some null) k ks h other = ground arith
  set_in_lem b es (some (flag c)) k ks h other = ground arith
  set_in_lem b es (some (number a)) k ks h other = ground arith
  set_in_lem b es (some (text t)) k ks h other = ground arith
  set_in_lem b es (some (items vs)) k ks h other = ground arith

  -- Where the section "system" is missing or a table, setting `paper_mode` succeeds, the mode is then
  -- read as it was set, and every other section is what it was.
  pub paper_mode-set_paper_mode :
      (b : Bool) (es : Entries A) (k : String) (ks : List String)
      → is_section (find "system" es) ≡ true
      → k ≢ "system"
      → (c' : Value A) × (set_paper_mode b (table es) ≡ some c')
        × (paper_mode c' ≡ some b)
        × (section (k ∷ ks) c' ≡ section (k ∷ ks) (table es))
  unfolding set_paper_mode
  paper_mode-set_paper_mode b es k ks h other = set_in_lem b es (find "system" es) k ks h other
