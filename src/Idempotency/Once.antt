-- ===== src/Idempotency/Once.antt =====
-- core/idempotency.py: a key is new once, and is then a duplicate until its time to live has passed.
use cto_test_ai_trading_bot.Prelude.{
  ℕ, zero, suc, ◌+◌, ◌-◌, ◌≤◌, ◌<◌, ◌≡◌, refl, ap, ◌∙◌, String, Bool, false, Option, none, some,
  List, [], ◌∷◌, ◌++◌, arith, ltb, if◌then◌else◌, take, length, All, inl, inr, Bool-cases,
  length-append,
}
use cto_test_ai_trading_bot.Prelude.Dict.{Dict, lookup, insert, erase, lookup-insert_self}
use cto_test_ai_trading_bot.Idempotency.{
  IdempotencyManager, IdempotencyRecord, keys, erase_all, sort_by_age, expired_keys, fresh, store,
  check_found, check_and_set, cleanup_expired, set_result, get_result, update,
}
use cto_test_ai_trading_bot.Idempotency.Keys.{
  member, contains-member, member-sort_by_age, length-sort_by_age, lookup-erase_all,
  member-expired_keys, insert-append, sort_by_age-append,
}
use cto_test_ai_trading_bot.Idempotency.Invariant.{IsValid}

module _ {ℓ} {V : Type ℓ} where
  take-append : (n : ℕ) (xs ys : List V) → n ≤ length xs → take n (xs ++ ys) ≡ take n xs
  take-append zero xs ys h = refl
  take-append (suc n) [] ys h = elim h [ ]
  take-append (suc n) (x ∷ xs) ys h = ap (◌∷◌ x) (take-append n xs ys (omega arith))

  member-take :
      (k : String) (n : ℕ) (d : Dict V)
      → member k (keys d) ≡ false
      → member k (keys (take n d)) ≡ false
  unfolding member
  member-take k zero d h = refl
  member-take k (suc n) [] h = refl
  member-take k (suc n) (e ∷ d) h = ground (arith, member-take k n d)

module _ {R M : Type 0} where
  -- No record is from the future: the clock has not run backwards.
  abbrev pub IsPast : ℕ → IdempotencyManager R M → Type 0
  IsPast now m = All (λ e. (e.1).created_at ≤ now) m.records

  -- what a caller is told of the record that it finds
  abbrev pub is_live : ℕ → Option (IdempotencyRecord R M) → Bool
  is_live now none = false
  is_live now (some r) = ltb now r.expires_at

  abbrev pub drop_stale : ℕ → Option (IdempotencyRecord R M) → Option (IdempotencyRecord R M)
  drop_stale now none = none
  drop_stale now (some r) = if ltb now r.expires_at then some r else none

  pub lookup-cleanup_expired :
      (key : String) (now : ℕ) (m : IdempotencyManager R M)
      → IsValid m
      → lookup key (cleanup_expired now m).records ≡ drop_stale now (lookup key m.records)
  unfolding cleanup_expired
  lookup-cleanup_expired key now m v = ground (
    arith,
    lookup-erase_all key (expired_keys now m.records) m.records,
    member-expired_keys now key m.records v.unique,
  )

  -- `check_and_set` answers that the key is a duplicate exactly when there is a record of it that
  -- has not expired.
  pub check_and_set_answer :
      (key : String) (now : ℕ) (m : IdempotencyManager R M)
      → IsValid m
      → (check_and_set key now m).1 ≡ is_live now (lookup key m.records)
  unfolding check_and_set
  check_and_set_answer key now m v = ground (arith, lookup-cleanup_expired key now m v)

  All-erase :
      (now : ℕ) (k : String) (d : Dict (IdempotencyRecord R M))
      → All (λ e. (e.1).created_at ≤ now) d
      → All (λ e. (e.1).created_at ≤ now) (erase k d)
  unfolding erase
  All-erase now k [] h = tt
  All-erase now k (e ∷ d) h = ground (arith, All-erase now k d h.1)

  All-erase_all :
      (now : ℕ) (ks : List String) (d : Dict (IdempotencyRecord R M))
      → All (λ e. (e.1).created_at ≤ now) d
      → All (λ e. (e.1).created_at ≤ now) (erase_all ks d)
  unfolding erase_all
  All-erase_all now [] d h = h
  All-erase_all now (k ∷ ks) d h = All-erase_all now ks (erase k d) (All-erase now k d h)

  -- the new record is the last that the size limit would remove
  lookup-store :
      (key : String) (now : ℕ) (m : IdempotencyManager R M)
      → 0 < m.max_size
      → IsPast now m
      → lookup key m.records ≡ none
      → lookup key (store key now m).records ≡ some (fresh now m.ttl)
  unfolding store
  lookup-store key now m room past missing =
      let d = m.records in
      let x : String × IdempotencyRecord R M = (key, fresh now m.ttl) in
      let appended = insert-append key (fresh now m.ttl) d missing in
      elim (Bool-cases (ltb m.max_size (length (insert key (fresh now m.ttl) d)))) [
        | inl over ↦
            let n = length (insert key (fresh now m.ttl) d) - m.max_size in
            let short : n ≤ length (sort_by_age d) =
              omega (arith, ap length appended, length-append d (x ∷ []), length-sort_by_age d) in
            let old : take n (sort_by_age (insert key (fresh now m.ttl) d))
                ≡ take n (sort_by_age d) =
              ap (λ l. take n (sort_by_age l)) appended
              ∙ ap (take n) (sort_by_age-append x d past)
              ∙ take-append n (sort_by_age d) (x ∷ []) short in
            ground (
              arith,
              ap keys old,
              member-take key n (sort_by_age d),
              member-sort_by_age key d,
              contains-member key d,
              lookup-erase_all key (keys (take n (sort_by_age d))) (insert key (fresh now m.ttl) d),
              lookup-insert_self key (fresh now m.ttl) d,
            )
        | inr fits ↦ rw fits (lookup-insert_self key (fresh now m.ttl) d)
      ]

  IsPast-cleanup :
      (now : ℕ) (m : IdempotencyManager R M) → IsPast now m → IsPast now (cleanup_expired now m)
  unfolding cleanup_expired
  IsPast-cleanup now m past = All-erase_all now (expired_keys now m.records) m.records past

  lookup-check_found :
      (key : String) (now : ℕ) (m : IdempotencyManager R M) (o : Option (IdempotencyRecord R M))
      → 0 < m.max_size
      → IsPast now m
      → lookup key m.records ≡ o
      → drop_stale now o ≡ o
      → (check_found key now m o).1 ≡ false
      → lookup key (check_found key now m o).0.records ≡ some (fresh now m.ttl)
  unfolding check_found
  lookup-check_found key now m none room past e live new = lookup-store key now m room past e
  lookup-check_found key now m (some r) room past e live new = ground arith

  pub drop_stale_idem :
      (now : ℕ) (o : Option (IdempotencyRecord R M))
      → drop_stale now (drop_stale now o) ≡ drop_stale now o
  drop_stale_idem now none = refl
  drop_stale_idem now (some r) = ground arith

  -- A key that was new is recorded: its record has no result and expires after the time to live.
  pub lookup-check_and_set :
      (key : String) (now : ℕ) (m : IdempotencyManager R M)
      → IsValid m
      → 0 < m.max_size
      → IsPast now m
      → (check_and_set key now m).1 ≡ false
      → lookup key (check_and_set key now m).0.records ≡ some (fresh now m.ttl)
  unfolding check_and_set
  lookup-check_and_set key now m v room past new =
      let c = cleanup_expired now m in
      let seen = lookup-cleanup_expired key now m v in
      lookup-check_found key now c (lookup key c.records) room (IsPast-cleanup now m past) refl
        (rw seen (drop_stale_idem now (lookup key m.records))) new

  -- The result that is stored for a new key is what later reads of the key return until it expires.
  pub get_result-set_result :
      (key : String) (now later : ℕ) (r : R) (given : Dict M) (m : IdempotencyManager R M)
      → IsValid m
      → 0 < m.max_size
      → IsPast now m
      → (check_and_set key now m).1 ≡ false
      → get_result key later (set_result key r given (check_and_set key now m).0)
        ≡ (if ltb later (now + m.ttl) then some r else none)
  unfolding get_result set_result
  get_result-set_result key now later r given m v room past new =
      let d = (check_and_set key now m).0.records in
      let stored = lookup-check_and_set key now m v room past new in
      let updated : IdempotencyRecord R M = record (fresh now m.ttl) {
        result = some r;
        metadata = update [] given;
      } in
      ground (arith, stored, lookup-insert_self key updated d)
