-- ===== src/Idempotency/Invariant.antt =====
-- core/idempotency.py: the table holds each key once and never more than `max_size` records.
use cto_test_ai_trading_bot.Prelude.{
  ℕ, ◌+◌, ◌-◌, ◌≤◌, ◌<◌, ◌≡◌, refl, String, Option, none, some, List, [], ◌∷◌, arith, ltb, take,
  length, eq_iff, inl, inr, Option-cases, Bool-cases,
}
use cto_test_ai_trading_bot.Prelude.Dict.{
  Dict, lookup, insert, erase, contains, lookup-insert, length-insert, length-erase-le,
  length-erase-lt,
}
use cto_test_ai_trading_bot.Idempotency.{
  IdempotencyManager, IdempotencyRecord, keys, erase_all, sort_by_age, expired_keys, fresh,
  enforce_size_limit, store, check_found, check_and_set, cleanup_expired, set_result, delete,
  update,
}
use cto_test_ai_trading_bot.Idempotency.Keys.{
  IsUnique, member, contains-member, erase-IsUnique, erase_all-IsUnique, member-sort_by_age,
  length-sort_by_age,
}

pub record IsValid {R M : Type 0} (m : IdempotencyManager R M) : Type 0 where
  pub unique : IsUnique m.records
  pub bounded : length m.records ≤ m.max_size

module _ {ℓ} {V : Type ℓ} where
  pub length-erase_all-le : (ks : List String) (d : Dict V) → length (erase_all ks d) ≤ length d
  unfolding erase_all
  length-erase_all-le [] d = omega arith
  length-erase_all-le (k ∷ ks) d =
      omega (arith, length-erase_all-le ks (erase k d), length-erase-le k d)

  pub insert-IsUnique : (k : String) (v : V) (d : Dict V) → IsUnique d → IsUnique (insert k v d)
  unfolding insert lookup
  insert-IsUnique k v [] h = (refl, tt)
  insert-IsUnique k v ((j, w) ∷ d) h =
      ground (arith, insert-IsUnique k v d h.1, lookup-insert k j v d, eq_iff j k, eq_iff k j)

  first_erased :
      (s : Dict V) (d : Dict V)
      → length s ≡ length d
      → 0 < length d
      → ((k : String) → member k (keys s) ≡ member k (keys d))
      → length (erase_all (keys (take 1 s)) d) + 1 ≤ length d
  unfolding erase_all member
  first_erased [] d e p same = absurd (omega arith)
  first_erased ((k, v) ∷ s) d e p same = elim (Option-cases (lookup k d)) [
    | inl missing ↦ ground (arith, same k, contains-member k d, eq_iff k k)
    | inr (w, found) ↦ length-erase-lt k w d found
  ]

module _ {R M : Type 0} where
  enforce_size_limit-IsValid :
      (m : IdempotencyManager R M)
      → IsUnique m.records
      → length m.records ≤ m.max_size + 1
      → IsValid (enforce_size_limit m)
  unfolding enforce_size_limit
  enforce_size_limit-IsValid m u h = elim (Bool-cases (ltb m.max_size (length m.records))) [
    | inl over ↦
        let one : length m.records - m.max_size ≡ 1 = ground arith in
        let sorted = sort_by_age m.records in
        let erased = erase_all (keys (take 1 sorted)) m.records in
        let fewer : length erased + 1 ≤ length m.records =
          first_erased sorted m.records (length-sort_by_age m.records) (ground arith)
            (λ k. member-sort_by_age k m.records) in
        rw (over, one)
          (record {
            unique = erase_all-IsUnique (keys (take 1 sorted)) m.records u;
            bounded = omega arith;
          })
    | inr fits ↦ rw fits (record { unique = u; bounded = ground arith })
  ]

  store-IsValid :
      (key : String) (now : ℕ) (m : IdempotencyManager R M) → IsValid m → IsValid (store key now m)
  unfolding store
  store-IsValid key now m v =
      enforce_size_limit-IsValid (record m { records = insert key (fresh now m.ttl) m.records })
        (insert-IsUnique key (fresh now m.ttl) m.records v.unique)
        (ground (arith, length-insert key (fresh now m.ttl) m.records))

  pub cleanup_expired-IsValid :
      (now : ℕ) (m : IdempotencyManager R M) → IsValid m → IsValid (cleanup_expired now m)
  unfolding cleanup_expired
  cleanup_expired-IsValid now m v = record {
    unique = erase_all-IsUnique (expired_keys now m.records) m.records v.unique;
    bounded = omega (arith, length-erase_all-le (expired_keys now m.records) m.records, v.bounded);
  }

  check_found-IsValid :
      (key : String) (now : ℕ) (m : IdempotencyManager R M) (o : Option (IdempotencyRecord R M))
      → IsValid m
      → IsValid (check_found key now m o).0
  unfolding check_found
  check_found-IsValid key now m none v = store-IsValid key now m v
  check_found-IsValid key now m (some r) v = elim (Bool-cases (ltb now r.expires_at)) [
    | inl live ↦ rw live v
    | inr stale ↦ rw stale (
        store-IsValid key now (record m { records = erase key m.records })
          (record {
            unique = erase-IsUnique key m.records v.unique;
            bounded = omega (arith, length-erase-le key m.records, v.bounded);
          }))
  ]

  -- `check_and_set` keeps every key unique and the table within `max_size`, also when it stores a
  -- new key in a full table.
  pub check_and_set-IsValid :
      (key : String) (now : ℕ) (m : IdempotencyManager R M)
      → IsValid m
      → IsValid (check_and_set key now m).0
  unfolding check_and_set
  check_and_set-IsValid key now m v =
      check_found-IsValid key now (cleanup_expired now m)
        (lookup key (cleanup_expired now m).records) (cleanup_expired-IsValid now m v)

  -- Storing a result and deleting a key keep the table valid.
  pub set_result-IsValid :
      (key : String) (r : R) (given : Dict M) (m : IdempotencyManager R M)
      → IsValid m
      → IsValid (set_result key r given m)
  unfolding set_result
  set_result-IsValid key r given m v = elim (Option-cases (lookup key m.records)) [
    | inl missing ↦ rw (set_result, missing) v
    | inr (old, found) ↦
        let new = record old { result = some r; metadata = update old.metadata given } in
        rw (set_result, found)
          (record {
            unique = insert-IsUnique key new m.records v.unique;
            bounded = ground (arith, length-insert key new m.records);
          })
  ]

  pub delete-IsValid :
      (key : String) (m : IdempotencyManager R M) → IsValid m → IsValid (delete key m).0
  unfolding delete
  delete-IsValid key m v = elim (Bool-cases (contains key m.records)) [
    | inl found ↦ rw found (record {
      unique = erase-IsUnique key m.records v.unique;
      bounded = omega (arith, length-erase-le key m.records);
    })
    | inr missing ↦ rw missing v
  ]
