-- ===== src/OrderManager/Retry.antt =====
-- execution/order_manager.py: a second `place_order` with the client id of an order that was created
-- returns that order and places nothing.
use cto_test_ai_trading_bot.Prelude.{
  ℕ, ◌+◌, ◌<◌, ◌≡◌, refl, sym, ap, ◌∙◌, String, true, false, some, [], arith,
}
use cto_test_ai_trading_bot.Prelude.Dict.{Dict, lookup, lookup-insert_self}
use cto_test_ai_trading_bot.Prelude.Number.{Number}
use cto_test_ai_trading_bot.Idempotency.{
  IdempotencyManager, IdempotencyRecord, check_and_set, set_result, fresh,
}
use cto_test_ai_trading_bot.Idempotency.Invariant as Table
use cto_test_ai_trading_bot.Idempotency.Invariant.{check_and_set-IsValid, set_result-IsValid}
use cto_test_ai_trading_bot.Idempotency.Once.{
  IsPast, is_live, check_and_set_answer, lookup-check_and_set,
}
use cto_test_ai_trading_bot.Order.{Order, Metadata}
use cto_test_ai_trading_bot.OrderManager.{
  OrderManager, Reply, created, idempotent_retry, breaker_open, record_audit,
}
use cto_test_ai_trading_bot.OrderManager.Methods.{
  Request, client_id, new_order, store_order, place_order,
}
use cto_test_ai_trading_bot.OrderManager.Placing.{routed, checked, place_order_created}

-- the table after a new key was checked and its result was stored
duplicate_after_result :
    (key : String) (now later : ℕ) (id : String) (t : IdempotencyManager String String)
    → Table.IsValid t
    → 0 < t.max_size
    → IsPast now t
    → is_live now (lookup key t.records) ≡ false
    → later < now + t.ttl
    → (check_and_set key later (set_result key id [] (check_and_set key now t).0)).1 ≡ true
unfolding set_result
duplicate_after_result key now later id t v room past new soon =
    let t' = (check_and_set key now t).0 in
    let stored =
      lookup-check_and_set key now t v room past (check_and_set_answer key now t v ∙ new) in
    let valid = set_result-IsValid key id [] t' (check_and_set-IsValid key now t v) in
    let updated : IdempotencyRecord String String = record (fresh now t.ttl) {
      result = some id;
      metadata = [];
    } in
    check_and_set_answer key later (set_result key id [] t') valid
    ∙ ground (arith, stored, lookup-insert_self key updated t'.records)

module _ {A : Type 0} ⦃num : Number A⦄ where
  client_order_id-new_order :
      (r : Request A) (venue : String) (metadata : Dict (Metadata A))
      → (new_order r venue metadata).client_order_id ≡ client_id r
  unfolding new_order
  client_order_id-new_order r venue metadata = ground arith

  -- what the store holds for the retry
  retry_state :
      (r : Request A) (o : Order A) (m : OrderManager A)
      → o.client_order_id ≡ client_id r
      → let m' = store_order o r.now m in
        (lookup (client_id r) m'.client_order_map ≡ some o.order_id)
        × (m'.idempotency ≡ set_result (client_id r) o.order_id [] m.idempotency)
  unfolding store_order record_audit
  retry_state r o m e =
      rw (← e) (lookup-insert_self o.client_order_id o.order_id m.client_order_map, refl)

  place_order_duplicate :
      (r : Request A) (id : String) (m : OrderManager A)
      → breaker_open r.breaker ≡ false
      → (check_and_set (client_id r) r.now m.idempotency).1 ≡ true
      → lookup (client_id r) m.client_order_map ≡ some id
      → let (m', reply) = place_order r m in
        (reply ≡ record { success = true; order = some id; reason = idempotent_retry })
        × (m'.orders ≡ m.orders)
        × (m'.client_order_map ≡ m.client_order_map)
        × (m'.audit_log ≡ m.audit_log)
  unfolding place_order
  place_order_duplicate r id m go dup known = ground arith

  -- A call has created an order for a client id that was not in use; the idempotency table was valid,
  -- allows at least one record, and had none from the future. Then the next call, if it has the same
  -- client id, comes before the time to live has passed, and finds the breaker not open, succeeds with
  -- the same order: no order, client id or audit entry is added or changed, whatever the other arguments
  -- of the call are.
  pub place_order_retry :
      (r r' : Request A) (m : OrderManager A)
      → Table.IsValid m.idempotency
      → 0 < m.idempotency.max_size
      → IsPast r.now m.idempotency
      → is_live r.now (lookup (client_id r) m.idempotency.records) ≡ false
      → (place_order r m).1.success ≡ true
      → (place_order r m).1.reason ≡ created
      → client_id r' ≡ client_id r
      → breaker_open r'.breaker ≡ false
      → r'.now < r.now + m.idempotency.ttl
      → let m' = (place_order r m).0 in
        let (m'', reply) = place_order r' m' in
        (reply.success ≡ true)
        × (reply.order ≡ (place_order r m).1.order)
        × (reply.reason ≡ idempotent_retry)
        × (m''.orders ≡ m'.orders)
        × (m''.client_order_map ≡ m'.client_order_map)
        × (m''.audit_log ≡ m'.audit_log)
  place_order_retry r r' m v room past new s e same go soon =
      let (clear, state, order) = place_order_created r m s e in
      let o = new_order r (routed r).0 (routed r).1 in
      let (mapped, table) =
        retry_state r o (checked r m) (client_order_id-new_order r (routed r).0 (routed r).1) in
      let again =
        duplicate_after_result (client_id r) r.now r'.now o.order_id m.idempotency v room past new
          soon in
      let known : lookup (client_id r') (place_order r m).0.client_order_map ≡ some o.order_id =
        rw (same, state) mapped in
      let dup : (check_and_set (client_id r') r'.now (place_order r m).0.idempotency).1 ≡ true =
        rw (same, state, table) again in
      let (reply, orders, map, log) =
        place_order_duplicate r' o.order_id (place_order r m).0 go dup known in
      (
        ap (λ (q : Reply). q.success) reply,
        ap (λ (q : Reply). q.order) reply ∙ sym order,
        ap (λ (q : Reply). q.reason) reply,
        orders,
        map,
        log,
      )
