-- ===== src/OrderManager/Books.antt =====
-- execution/order_manager.py: every method keeps the manager valid, so the books of the orders
-- balance under any sequence of calls.
use cto_test_ai_trading_bot.Prelude.{
  ℕ, ◌≡◌, refl, String, Bool, true, false, Option, none, some, arith, Option-cases, Bool-cases, inl,
  inr, List,
}
use cto_test_ai_trading_bot.Prelude.Dict.{Dict, lookup}
use cto_test_ai_trading_bot.Prelude.Number.{Number, total}
use cto_test_ai_trading_bot.Idempotency.{check_and_set}
use cto_test_ai_trading_bot.Idempotency.Invariant.{check_and_set-IsValid}
use cto_test_ai_trading_bot.Order.{Order, Metadata, is_active, cancelled, submitted, is_filled}
use cto_test_ai_trading_bot.OrderManager.{
  OrderManager, get_order, check_self_trade, breaker_open, init, record_audit,
}
use cto_test_ai_trading_bot.OrderManager.Methods.{
  Request, new_order, create_order, place_checked, place_order, client_id, update_order,
  confirm_order_submission, apply_fill, record_fill, cancel_order,
}
use cto_test_ai_trading_bot.OrderManager.Invariant.{
  IsBooked, IsValid, get_order-linked, record_audit-IsValid, update_order-IsValid,
  store_order-IsValid, apply_fill-IsBooked,
}

module _ {A : Type 0} ⦃num : Number A⦄ where
  new_order-IsBooked :
      (r : Request A) (venue : String) (metadata : Dict (Metadata A))
      → IsBooked (new_order r venue metadata)
  unfolding new_order total is_filled
  new_order-IsBooked r venue metadata = record {
    quantity_booked = ground arith;
    fee_booked = ground arith;
    filled_dated = ground arith;
  }

  order_id-new_order :
      (r : Request A) (venue : String) (metadata : Dict (Metadata A))
      → (new_order r venue metadata).order_id ≡ r.generated_order_id
  unfolding new_order
  order_id-new_order r venue metadata = ground arith

  create_order-IsValid :
      (r : Request A) (routed : String × Dict (Metadata A)) (m : OrderManager A)
      → IsValid m
      → lookup r.generated_order_id m.orders ≡ none
      → IsValid (create_order r routed m).0
  unfolding create_order
  create_order-IsValid r (venue, metadata) m v fresh =
      elim (Option-cases (check_self_trade venue r.symbol r.side r.now m)) [
        | inl clear ↦
            rw (create_order, clear)
              (store_order-IsValid (new_order r venue metadata) r.now m v
                (rw (order_id-new_order r venue metadata) fresh)
                (new_order-IsBooked r venue metadata))
        | inr (reason, risky) ↦ rw (create_order, risky) v
      ]

  place_checked-IsValid :
      (r : Request A) (duplicate : Bool) (cached : Option String) (m : OrderManager A)
      → IsValid m
      → lookup r.generated_order_id m.orders ≡ none
      → IsValid (place_checked r duplicate cached m).0
  unfolding place_checked
  place_checked-IsValid r true (some id) m v fresh = v
  place_checked-IsValid r true none m v fresh = create_order-IsValid r _ m v fresh
  place_checked-IsValid r false cached m v fresh = create_order-IsValid r _ m v fresh

  pub place_order-IsValid :
      (r : Request A) (m : OrderManager A)
      → IsValid m
      → lookup r.generated_order_id m.orders ≡ none
      → IsValid (place_order r m).0
  unfolding place_order
  place_order-IsValid r m v fresh =
      let checked = check_and_set (client_id r) r.now m.idempotency in
      let m' = record m { idempotency = checked.0 } in
      elim (Bool-cases (breaker_open r.breaker)) [
        | inl stop ↦ rw stop v
        | inr go ↦ rw go (
            place_checked-IsValid r checked.1 (lookup (client_id r) m.client_order_map) m'
              (record {
                linked = v.linked;
                keyed = v.keyed;
                booked = v.booked;
                once = check_and_set-IsValid (client_id r) r.now m.idempotency v.once;
                log_positive = v.log_positive;
                log_bounded = v.log_bounded;
              })
              fresh)
      ]

  -- an order that is written back with its ids, and noted in the audit trail
  saved-IsValid :
      (event : String) (o o' : Order A) (c : String) (now : ℕ) (m : OrderManager A)
      → IsValid m
      → get_order c m ≡ some o
      → o'.order_id ≡ o.order_id
      → o'.client_order_id ≡ o.client_order_id
      → (IsBooked o → IsBooked o')
      → IsValid (record_audit event o' now (update_order o' m))
  saved-IsValid event o o' c now m v found same_id same_client keep_booked =
      let (_, at, client) = get_order-linked c o m v found in
      record_audit-IsValid event o' now (update_order o' m) (
        update_order-IsValid o o' m v at same_id same_client
          (keep_booked (v.booked o.order_id o at)))

  exchange_order_map-IsValid :
      (x : List (String × String × String)) (m : OrderManager A)
      → IsValid m
      → IsValid (record m { exchange_order_map = x })
  exchange_order_map-IsValid x m v = record {
    linked = v.linked;
    keyed = v.keyed;
    booked = v.booked;
    once = v.once;
    log_positive = v.log_positive;
    log_bounded = v.log_bounded;
  }

  pub confirm-IsValid :
      (c e : String) (now : ℕ) (m : OrderManager A)
      → IsValid m
      → IsValid (confirm_order_submission c e now m).0
  unfolding confirm_order_submission is_filled
  confirm-IsValid c e now m v = elim (Option-cases (get_order c m)) [
    | inl missing ↦ rw (confirm_order_submission, missing) v
    | inr (o, found) ↦
        let o' = record o {
          exchange_order_id = some e;
          status = submitted;
          submitted_at = some now;
        } in
        rw (confirm_order_submission, found)
          (exchange_order_map-IsValid _ _ (
            saved-IsValid "ORDER_SUBMITTED" o o' c now m v found refl refl λ b. record {
              quantity_booked = b.quantity_booked;
              fee_booked = b.fee_booked;
              filled_dated = ground arith;
            }))
  ]

  pub record_fill-IsValid :
      (c fill_id : String) (quantity price fee : A) (now : ℕ) (m : OrderManager A)
      → IsValid m
      → IsValid (record_fill c fill_id quantity price fee now m).0
  unfolding record_fill apply_fill
  record_fill-IsValid c fill_id quantity price fee now m v = elim (Option-cases (get_order c m)) [
    | inl missing ↦ rw (record_fill, missing) v
    | inr (o, found) ↦
        rw (record_fill, found)
          (saved-IsValid "ORDER_FILL" o (apply_fill fill_id quantity price fee now o) c now m v
            found refl refl (apply_fill-IsBooked fill_id quantity price fee now o))
  ]

  pub cancel_order-IsValid :
      (c : String) (now : ℕ) (m : OrderManager A) → IsValid m → IsValid (cancel_order c now m).0
  unfolding cancel_order is_filled
  cancel_order-IsValid c now m v = elim (Option-cases (get_order c m)) [
    | inl missing ↦ rw (cancel_order, missing) v
    | inr (o, found) ↦ elim (Bool-cases (is_active o.status)) [
      | inl active ↦
          rw (cancel_order, found, active)
            (saved-IsValid "ORDER_CANCELLED" o (record o { status = cancelled }) c now m v found
              refl refl
              λ b. record {
                quantity_booked = b.quantity_booked;
                fee_booked = b.fee_booked;
                filled_dated = ground arith;
              })
      | inr over ↦ rw (cancel_order, found, over) v
    ]
  ]

  -- One call of a method that changes the manager. A new order has an id that no order has.
  pub data Step (m : OrderManager A) : OrderManager A → Type 0 where
    placed :
        (r : Request A) → lookup r.generated_order_id m.orders ≡ none → Step m (place_order r m).0
    confirmed : (c e : String) (now : ℕ) → Step m (confirm_order_submission c e now m).0
    filled_by :
        (c fill_id : String) (quantity price fee : A) (now : ℕ)
        → Step m (record_fill c fill_id quantity price fee now m).0
    cancelled_by : (c : String) (now : ℕ) → Step m (cancel_order c now m).0

  pub data Reach (m : OrderManager A) : OrderManager A → Type 0 where
    here : Reach m m
    next : {n p : OrderManager A} → Reach m n → Step n p → Reach m p

  pub Step-IsValid : {m n : OrderManager A} → Step m n → IsValid m → IsValid n
  Step-IsValid {m} (placed r fresh) v = place_order-IsValid r m v fresh
  Step-IsValid {m} (confirmed c e now) v = confirm-IsValid c e now m v
  Step-IsValid {m} (filled_by c fill_id quantity price fee now) v =
      record_fill-IsValid c fill_id quantity price fee now m v
  Step-IsValid {m} (cancelled_by c now) v = cancel_order-IsValid c now m v

  -- Whatever calls are made of a valid manager, it stays valid: every client id leads to an order
  -- with that client id, the cumulative quantity and the fees of every order are the sums over its
  -- fills, a FILLED order has the time of its fill, no key of the idempotency table stands twice,
  -- and the table and the audit trail keep to their sizes.
  pub calls-IsValid : {m n : OrderManager A} → IsValid m → Reach m n → IsValid n
  calls-IsValid v here = v
  calls-IsValid v (next r s) = Step-IsValid s (calls-IsValid v r)

  pub init-IsValid : IsValid (init {A = A})
  unfolding init lookup
  init-IsValid = record {
    linked = λ c id e. absurd (cc);
    keyed = λ id o e. cc;
    booked = λ id o e. absurd (cc);
    once = record { unique = tt; bounded = omega arith };
    log_positive = omega arith;
    log_bounded = omega arith;
  }
