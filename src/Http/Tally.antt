-- ===== src/Http/Tally.antt =====
-- interface/routes: a table that adds up by a text holds, for each text, the sum over its entries, in
-- their order.
use cto_test_ai_trading_bot.Prelude.{
  ◌≡◌, refl, String, List, [], ◌∷◌, map, foldl, keep, str_eq, eq_iff, arith,
}
use cto_test_ai_trading_bot.Prelude.Dict.{get_or, Dict, lookup, insert, lookup-insert}
use cto_test_ai_trading_bot.Prelude.Number.{Number, ◌⊕◌, zero_num, total}
use cto_test_ai_trading_bot.Http.{tally}

module _ {A T : Type 0} ⦃num : Number A⦄ (key : T → String) (amount : T → A) where
  abbrev pub amounts_of : String → List T → List A
  amounts_of k xs = map amount (keep (λ x. str_eq (key x) k) xs)

  pub tally_from :
      (k : String) (xs : List T) (d : Dict A)
      → get_or zero_num k (tally key amount xs d)
        ≡ foldl num.plus (get_or zero_num k d) (amounts_of k xs)
  unfolding tally
  tally_from k [] d = refl
  tally_from k (x ∷ xs) d =
      let sum = get_or zero_num (key x) d ⊕ amount x in
      ground (
        arith,
        tally_from k xs (insert (key x) sum d),
        lookup-insert (key x) k sum d,
        eq_iff (key x) k,
      )

  -- The table that starts empty holds the totals.
  pub tally-total :
      (k : String) (xs : List T)
      → get_or zero_num k (tally key amount xs []) ≡ total (amounts_of k xs)
  unfolding total lookup
  tally-total k xs = tally_from k xs []
