-- ===== src/Idempotency/Tests.antt =====
-- core/idempotency.py: runs of the idempotency manager, and its theorems at concrete inputs.
use cto_test_ai_trading_bot.Prelude.{
  ◌+◌, ◌≡◌, refl, String, none, some, [], ◌∷◌, arith, ltb, if◌then◌else◌,
}
use cto_test_ai_trading_bot.Prelude.Dict.{lookup, insert, erase}
use cto_test_ai_trading_bot.Idempotency.{
  IdempotencyManager, check_and_set, check_found, store, cleanup_expired, expired_keys, erase_all,
  enforce_size_limit, sort_by_age, insert_by_age, set_result, get_result, keys,
}
use cto_test_ai_trading_bot.Idempotency.Invariant.{IsValid, check_and_set-IsValid}
use cto_test_ai_trading_bot.Idempotency.Meanwhile.{checks, check_and_set_again}
use cto_test_ai_trading_bot.Idempotency.Once.{is_live, check_and_set_answer, get_result-set_result}

-- a full table: "old" has expired at 1100, "young" has not
abbrev two_records : IdempotencyManager String String
two_records = record {
  ttl = 1000;
  max_size = 2;
  records =
      ("old", record { result = some "ord_0"; created_at = 100; expires_at = 1100; metadata = [] })
      ∷ ("young", record { result = none; created_at = 900; expires_at = 1900; metadata = [] })
      ∷ [];
}

program : Unit {0}
unfolding lookup insert erase check_and_set check_found store cleanup_expired expired_keys erase_all
    enforce_size_limit sort_by_age insert_by_age set_result get_result
program = tt

two_records-IsValid : IsValid two_records
unfolding program
two_records-IsValid = record { unique = (refl, (refl, tt)); bounded = omega arith }

-- before "old" has expired, a third key takes its place
evicted : keys (check_and_set "new" 1000 two_records).0.records ≡ "young" ∷ "new" ∷ []
unfolding program
evicted = refl

check_and_set-IsValid_example : IsValid (check_and_set "new" 1000 two_records).0
check_and_set-IsValid_example = check_and_set-IsValid "new" 1000 two_records two_records-IsValid

answered :
    (check_and_set "young" 1200 two_records).1 ≡ is_live 1200 (lookup "young" two_records.records)
answered = check_and_set_answer "young" 1200 two_records two_records-IsValid

-- a larger table; two other keys are checked before the key comes again
abbrev roomy : IdempotencyManager String String
roomy = record two_records { max_size = 5 }

check_and_set_again_example :
    (check_and_set "new" 1500
      (checks (("a", 1100) ∷ ("b", 1200) ∷ []) (check_and_set "new" 1000 roomy).0)).1
    ≡ ltb 1500 (1000 + roomy.ttl)
unfolding program
check_and_set_again_example =
    check_and_set_again "new" 1000 1500 (("a", 1100) ∷ ("b", 1200) ∷ []) roomy
      (record { unique = two_records-IsValid.unique; bounded = omega arith }) (omega arith)
      (omega arith, (omega arith, tt)) refl (omega arith, (omega arith, tt)) (omega arith)

get_result-set_result_case :
    get_result "new" 1500 (set_result "new" "ord_1" [] (check_and_set "new" 1000 two_records).0)
    ≡ (if ltb 1500 (1000 + two_records.ttl) then some "ord_1" else none)
unfolding program
get_result-set_result_case =
    get_result-set_result "new" 1000 1500 "ord_1" [] two_records two_records-IsValid (omega arith)
      (omega arith, (omega arith, tt)) refl
