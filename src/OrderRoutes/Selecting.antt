-- ===== src/OrderRoutes/Selecting.antt =====
-- interface/routes/orders.py: the lists that the handlers filter, and the orders of a dictionary.
use cto_test_ai_trading_bot.Prelude.{
  ◌≡◌, refl, String, Bool, true, false, some, List, [], ◌∷◌, map, keep, arith, All, eq_iff,
}
use cto_test_ai_trading_bot.Prelude.Dict.{Dict, lookup, contains}
use cto_test_ai_trading_bot.Prelude.Sets.{string_eq, has, IsSetList}
use cto_test_ai_trading_bot.Idempotency.Keys.{IsUnique}

module _ {ℓ} {T : Type ℓ} where
  pub All-map {κ μ} :
      {P : T → Type κ} {Q : T → Type μ}
      → ((x : T) → P x → Q x)
      → (xs : List T) → All P xs
      → All Q xs
  All-map f [] h = tt
  All-map f (x ∷ xs) h = (f x h.0, All-map f xs h.1)

  pub All-keep_test : (p : T → Bool) (xs : List T) → All (λ x. p x ≡ true) (keep p xs)
  All-keep_test p [] = tt
  All-keep_test p (x ∷ xs) = ground (arith, All-keep_test p xs)

  has-map-keep :
      (f : T → String) (k : String) (p : T → Bool) (xs : List T)
      → has k (map f xs) ≡ false
      → has k (map f (keep p xs)) ≡ false
  unfolding has
  has-map-keep f k p [] h = refl
  has-map-keep f k p (x ∷ xs) h = ground (arith, has-map-keep f k p xs)

  pub keep-IsSetList :
      (f : T → String) (p : T → Bool) (xs : List T)
      → IsSetList (map f xs)
      → IsSetList (map f (keep p xs))
  keep-IsSetList f p [] h = tt
  keep-IsSetList f p (x ∷ xs) h =
      ground (arith, keep-IsSetList f p xs h.1, has-map-keep f (f x) p xs h.0)

  pub contains-keys : (k : String) (d : Dict T) → has k (map (λ e. e.0) d) ≡ contains k d
  unfolding has lookup
  contains-keys k [] = refl
  contains-keys k ((j, v) ∷ d) = ground (arith, contains-keys k d)

-- in a dictionary every entry is found under its key
pub entries_found {ℓ} :
    {T : Type ℓ} (d : Dict T) → IsUnique d → All (λ e. lookup e.0 d ≡ some e.1) d
unfolding lookup
entries_found [] u = tt
entries_found ((k, v) ∷ d) u = (
  ground (arith, eq_iff k k),
  All-map (λ e h. ground (arith, u.0, eq_iff k e.0)) d (entries_found d u.1),
)
