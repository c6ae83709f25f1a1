-- ===== src/Idempotency/Meanwhile.antt =====
-- core/idempotency.py: a key stays a duplicate while other keys are checked.
use cto_test_ai_trading_bot.Prelude.{
  ℕ, ◌+◌, ◌≤◌, ◌<◌, ◌≡◌, refl, ap, ◌∙◌, String, true, false, Option, none, some, List, [], ◌∷◌,
  arith, ltb, length, All, eq_iff,
}
use cto_test_ai_trading_bot.Prelude.Dict.{lookup, lookup-insert, length-insert}
use cto_test_ai_trading_bot.Idempotency.{
  IdempotencyManager, IdempotencyRecord, fresh, store, enforce_size_limit, expired_keys,
  check_found, check_and_set, cleanup_expired,
}
use cto_test_ai_trading_bot.Idempotency.Invariant.{
  IsValid, check_and_set-IsValid, length-erase_all-le,
}
use cto_test_ai_trading_bot.Idempotency.Once.{
  IsPast, is_live, drop_stale, drop_stale_idem, lookup-cleanup_expired, check_and_set_answer,
  lookup-check_and_set,
}

module _ {R M : Type 0} where
  -- checks of keys at their times, one after the other
  unfoldable pub checks : List (String × ℕ) → IdempotencyManager R M → IdempotencyManager R M
  checks [] m = m
  checks (c ∷ cs) m = checks cs (check_and_set c.0 c.1 m).0

  -- a table in which a record stands, with room for `n` further records
  record IsKept (key : String) (r : IdempotencyRecord R M) (size n : ℕ) (m : IdempotencyManager R M)
      : Type 0 where
    found : lookup key m.records ≡ some r
    room : length m.records + n ≤ m.max_size
    same_size : m.max_size ≡ size

  check_found-IsKept :
      (key k : String) (now n : ℕ) (r : IdempotencyRecord R M) (m : IdempotencyManager R M)
      (o : Option (IdempotencyRecord R M))
      → lookup k m.records ≡ o
      → drop_stale now o ≡ o
      → IsKept key r m.max_size (n + 1) m
      → IsKept key r m.max_size n (check_found k now m o).0
  unfolding check_found store enforce_size_limit
  check_found-IsKept key k now n r m none missing live h =
      let longer = length-insert k (fresh now m.ttl) m.records in
      record {
        found = ground (
          arith,
          h.found,
          h.room,
          missing,
          longer,
          lookup-insert k key (fresh now m.ttl) m.records,
          eq_iff k key,
        );
        room = ground (arith, h.room, longer);
        same_size = ground (arith, h.room, longer);
      }
  check_found-IsKept key k now n r m (some s) there live h =
      let current : ltb now s.expires_at ≡ true = ground arith in
      rw current (record { found = h.found; room = omega (arith, h.room); same_size = refl })

  check_and_set-IsKept :
      (key k : String) (now n : ℕ) (r : IdempotencyRecord R M) (m : IdempotencyManager R M)
      → IsValid m
      → now < r.expires_at
      → IsKept key r m.max_size (n + 1) m
      → IsKept key r m.max_size n (check_and_set k now m).0
  unfolding check_and_set cleanup_expired
  check_and_set-IsKept key k now n r m v soon h =
      let c = cleanup_expired now m in
      let shorter : length c.records ≤ length m.records =
        length-erase_all-le (expired_keys now m.records) m.records in
      check_found-IsKept key k now n r c (lookup k c.records) refl
        (rw (lookup-cleanup_expired k now m v) (drop_stale_idem now (lookup k m.records)))
        (record {
          found = lookup-cleanup_expired key now m v ∙ ap (drop_stale now) h.found ∙ ground arith;
          room = omega (arith, shorter, h.room);
          same_size = refl;
        })

  checks-IsKept :
      (key : String) (r : IdempotencyRecord R M) (cs : List (String × ℕ))
      (m : IdempotencyManager R M)
      → IsValid m
      → All (λ c. c.1 < r.expires_at) cs
      → IsKept key r m.max_size (length cs) m
      → IsValid (checks cs m) × (lookup key (checks cs m).records ≡ some r)
  unfolding checks
  checks-IsKept key r [] m v soon h = (v, h.found)
  checks-IsKept key r (c ∷ cs) m v soon h =
      let m' = (check_and_set c.0 c.1 m).0 in
      let k =
        check_and_set-IsKept key c.0 c.1 (length cs) r m v soon.0
          (record { found = h.found; room = omega (arith, h.room); same_size = refl }) in
      checks-IsKept key r cs m' (check_and_set-IsValid c.0 c.1 m v) soon.1
        (record { found = k.found; room = k.room; same_size = refl })

  -- A valid table that allows at least one record, and has none from the future, answers that a key is
  -- new. Then any keys are checked, before the time to live of this key has passed, and the table has
  -- room for a record for each of these checks. A check of the key after that answers that it is a
  -- duplicate before its time to live has passed, and not from then on.
  pub check_and_set_again :
      (key : String) (now later : ℕ) (cs : List (String × ℕ)) (m : IdempotencyManager R M)
      → IsValid m
      → 0 < m.max_size
      → IsPast now m
      → (check_and_set key now m).1 ≡ false
      → All (λ c. c.1 < now + m.ttl) cs
      → length (check_and_set key now m).0.records + length cs
        ≤ (check_and_set key now m).0.max_size
      → (check_and_set key later (checks cs (check_and_set key now m).0)).1
        ≡ ltb later (now + m.ttl)
  check_and_set_again key now later cs m v positive past new soon room =
      let m' = (check_and_set key now m).0 in
      let (valid, found) =
        checks-IsKept key (fresh now m.ttl) cs m' (check_and_set-IsValid key now m v) soon (record {
          found = lookup-check_and_set key now m v positive past new;
          room = room;
          same_size = refl;
        }) in
      check_and_set_answer key later (checks cs m') valid ∙ ap (is_live later) found
