-- ===== src/Idempotency.antt =====
-- core/idempotency.py: the idempotency manager. `R` is the type of the cached results and `M` of
-- the metadata values. The readings of the clock within one method call are one value, `now`.
pub mod Keys
pub mod Invariant
mod Meanwhile
pub mod Once
mod Tests
use cto_test_ai_trading_bot.Prelude.{
  ℕ, ◌+◌, ◌-◌, String, Bool, true, false, Option, none, some, List, [], ◌∷◌, map, foldl, leb, ltb,
  if◌then◌else◌, keep, take, length,
}
use cto_test_ai_trading_bot.Prelude.Dict.{Dict, lookup, insert, erase, contains}

pub record IdempotencyRecord (R M : Type 0) : Type 0 where
  pub result : Option R
  pub created_at : ℕ
  pub expires_at : ℕ
  pub metadata : Dict M

pub record IdempotencyManager (R M : Type 0) : Type 0 where
  pub ttl : ℕ
  pub max_size : ℕ
  pub records : Dict (IdempotencyRecord R M)

abbrev pub keys {ℓ} : {V : Type ℓ} → Dict V → List String
keys = map (λ e. e.0)

-- `for key in ks: del d[key]`
unfoldable pub erase_all {ℓ} : {V : Type ℓ} → List String → Dict V → Dict V
erase_all [] d = d
erase_all (k ∷ ks) d = erase_all ks (erase k d)

-- `d.update(given)`
abbrev pub update {ℓ} : {V : Type ℓ} → Dict V → Dict V → Dict V
update d given = foldl (λ acc e. insert e.0 e.1 acc) d given

module _ {R M : Type 0} where
  unfoldable pub init : ℕ → ℕ → IdempotencyManager R M
  init ttl max_size = record { ttl = ttl; max_size = max_size; records = [] }

  -- Python's `sorted(items, key=created_at)`: stable, so an entry goes before its equals.
  unfoldable pub insert_by_age :
      String × IdempotencyRecord R M → Dict (IdempotencyRecord R M) → Dict (IdempotencyRecord R M)
  insert_by_age x [] = x ∷ []
  insert_by_age x (y ∷ ys) =
      if leb (x.1).created_at (y.1).created_at then x ∷ y ∷ ys else y ∷ insert_by_age x ys

  unfoldable pub sort_by_age : Dict (IdempotencyRecord R M) → Dict (IdempotencyRecord R M)
  sort_by_age [] = []
  sort_by_age (x ∷ xs) = insert_by_age x (sort_by_age xs)

  abbrev pub is_expired : ℕ → String × IdempotencyRecord R M → Bool
  is_expired now e = leb (e.1).expires_at now

  unfoldable pub expired_keys : ℕ → Dict (IdempotencyRecord R M) → List String
  expired_keys now d = keys (keep (is_expired now) d)

  unfoldable pub cleanup_expired : ℕ → IdempotencyManager R M → IdempotencyManager R M
  cleanup_expired now m = record m { records = erase_all (expired_keys now m.records) m.records }

  unfoldable pub enforce_size_limit : IdempotencyManager R M → IdempotencyManager R M
  enforce_size_limit m =
      if ltb m.max_size (length m.records)
      then record m {
        records =
            erase_all (keys (take (length m.records - m.max_size) (sort_by_age m.records)))
              m.records;
      }
      else m

  abbrev pub fresh : ℕ → ℕ → IdempotencyRecord R M
  fresh now ttl = record { result = none; created_at = now; expires_at = now + ttl; metadata = [] }

  -- `check_and_set` behind the lookup, in the manager without the stale record
  unfoldable pub store : String → ℕ → IdempotencyManager R M → IdempotencyManager R M
  unfolding enforce_size_limit
  store key now m =
      enforce_size_limit (record m { records = insert key (fresh now m.ttl) m.records })

  unfoldable pub check_found :
      String
      → ℕ
      → IdempotencyManager R M
      → Option (IdempotencyRecord R M)
      → IdempotencyManager R M × Bool
  unfolding store
  check_found key now m none = (store key now m, false)
  check_found key now m (some r) =
      if ltb now r.expires_at
      then (m, true)
      else (store key now (record m { records = erase key m.records }), false)

  unfoldable pub check_and_set : String → ℕ → IdempotencyManager R M → IdempotencyManager R M × Bool
  unfolding check_found cleanup_expired
  check_and_set key now m =
      let m' = cleanup_expired now m in check_found key now m' (lookup key m'.records)

  unfoldable pub set_result : String → R → Dict M → IdempotencyManager R M → IdempotencyManager R M
  set_result key result metadata m = elim (lookup key m.records) [
    | none ↦ m
    | some r ↦ record m {
      records =
          insert key (record r { result = some result; metadata = update r.metadata metadata })
            m.records;
    }
  ]

  unfoldable pub get_result : String → ℕ → IdempotencyManager R M → Option R
  get_result key now m = elim (lookup key m.records) [
    | none ↦ none
    | some r ↦ if ltb now r.expires_at then r.result else none
  ]

  unfoldable pub delete : String → IdempotencyManager R M → IdempotencyManager R M × Bool
  delete key m =
      if contains key m.records
      then (record m { records = erase key m.records }, true)
      else (m, false)

  -- the entry "total_records" of `get_stats`
  unfoldable pub total_records : IdempotencyManager R M → ℕ
  total_records m = length m.records
