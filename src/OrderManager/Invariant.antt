-- ===== src/OrderManager/Invariant.antt =====
-- execution/order_manager.py: what holds of the manager between two calls of its methods.
use cto_test_ai_trading_bot.Prelude.{
  ℕ, ◌≤◌, ◌<◌, ◌≡◌, refl, sym, String, true, none, some, List, [], ◌∷◌, ◌++◌, map, arith, length,
  length-push_bounded, str_eq, eq_iff, is_some, Option-cases, Bool-cases, inl, inr,
}
use mathlib.Core.List.{foldl-append, map-append}
use mathlib.Core.Path.{subst}
use cto_test_ai_trading_bot.Prelude.Dict.{lookup, lookup-insert}
use cto_test_ai_trading_bot.Prelude.Number.{Number, ◌⊕◌, total}
use cto_test_ai_trading_bot.Idempotency.Invariant as Once
use cto_test_ai_trading_bot.Idempotency.Invariant.{check_and_set-IsValid, set_result-IsValid}
use cto_test_ai_trading_bot.Order.{Order, OrderFill, is_filled}
use cto_test_ai_trading_bot.OrderManager.{OrderManager, record_audit, get_order}
use cto_test_ai_trading_bot.OrderManager.Methods.{store_order, update_order, apply_fill}

module _ {A : Type 0} ⦃num : Number A⦄ where
  -- The sums of an order are those over its fills, and a FILLED order has the time of its fill.
  pub record IsBooked (o : Order A) : Type 0 where
    pub quantity_booked : o.cumulative_quantity ≡ total (map (λ f. f.quantity) o.fills)
    pub fee_booked : o.total_fee ≡ total (map (λ f. f.fee) o.fills)
    pub filled_dated : is_filled o.status ≡ true → is_some o.filled_at ≡ true

  pub record IsValid (m : OrderManager A) : Type 0 where
    pub linked :
        (c id : String)
        → lookup c m.client_order_map ≡ some id
        → (o : Order A) × (lookup id m.orders ≡ some o) × (o.client_order_id ≡ c)
    pub keyed : (id : String) (o : Order A) → lookup id m.orders ≡ some o → o.order_id ≡ id
    pub booked : (id : String) (o : Order A) → lookup id m.orders ≡ some o → IsBooked o
    pub once : Once.IsValid m.idempotency
    pub log_positive : 0 < m.max_audit_log_size
    pub log_bounded : length m.audit_log ≤ m.max_audit_log_size

  total-append : (xs : List A) (x : A) → total (xs ++ x ∷ []) ≡ total xs ⊕ x
  unfolding total
  total-append xs x = rw foldl-append

  pub total-map-append :
      (f : OrderFill A → A) (fs : List (OrderFill A)) (x : OrderFill A)
      → total (map f (fs ++ x ∷ [])) ≡ total (map f fs) ⊕ f x
  total-map-append f fs x = rw map-append (total-append (map f fs) (f x))

  pub apply_fill-IsBooked :
      (fill_id : String) (quantity price fee : A) (now : ℕ) (o : Order A)
      → IsBooked o
      → IsBooked (apply_fill fill_id quantity price fee now o)
  unfolding apply_fill is_filled
  apply_fill-IsBooked fill_id quantity price fee now o b =
      let x : OrderFill A = record {
        fill_id = fill_id;
        timestamp = now;
        quantity = quantity;
        price = price;
        fee = fee;
      } in
      record {
        quantity_booked = rw (total-map-append (λ f. f.quantity) o.fills x, b.quantity_booked) refl;
        fee_booked = rw (total-map-append (λ f. f.fee) o.fills x, b.fee_booked) refl;
        filled_dated = ground (arith, b.filled_dated);
      }

  -- the order that a client id leads to
  pub get_order-linked :
      (c : String) (o : Order A) (m : OrderManager A)
      → IsValid m
      → get_order c m ≡ some o
      → (lookup c m.client_order_map ≡ some o.order_id)
        × (lookup o.order_id m.orders ≡ some o)
        × (o.client_order_id ≡ c)
  unfolding get_order
  get_order-linked c o m v e = elim (Option-cases (lookup c m.client_order_map)) [
    | inl missing ↦ ground arith
    | inr (id, found) ↦
        let at : lookup id m.orders ≡ some o = ground arith in
        let (o', at', client) = v.linked c id found in
        let key : o.order_id ≡ id = v.keyed id o at in
        (rw key found, subst (λ k. lookup k m.orders ≡ some o) (sym key) at, ground arith)
  ]

  pub record_audit-IsValid :
      (event : String) (o : Order A) (now : ℕ) (m : OrderManager A)
      → IsValid m
      → IsValid (record_audit event o now m)
  unfolding record_audit
  record_audit-IsValid event o now m v = record {
    linked = v.linked;
    keyed = v.keyed;
    booked = v.booked;
    once = v.once;
    log_positive = v.log_positive;
    log_bounded =
        length-push_bounded m.max_audit_log_size _ m.audit_log v.log_positive v.log_bounded;
  }

  pub update_order-IsValid :
      (o o' : Order A) (m : OrderManager A)
      → IsValid m
      → lookup o.order_id m.orders ≡ some o
      → o'.order_id ≡ o.order_id
      → o'.client_order_id ≡ o.client_order_id
      → IsBooked o'
      → IsValid (update_order o' m)
  unfolding update_order
  update_order-IsValid o o' m v at same_id same_client booked' = record {
    linked = λ c id e.
        let (p, at', client) = v.linked c id e in
        let new = lookup-insert o'.order_id id o' m.orders in
        elim (Bool-cases (str_eq o'.order_id id)) [
          | inl here ↦ (o', ground arith, ground (arith, eq_iff o'.order_id id))
          | inr there ↦ (p, ground arith, client)
        ];
    keyed = λ id p e.
        ground
          (arith, v.keyed id p, lookup-insert o'.order_id id o' m.orders, eq_iff o'.order_id id);
    booked = λ id p e.
        let new = lookup-insert o'.order_id id o' m.orders in
        elim (Bool-cases (str_eq o'.order_id id)) [
          | inl here ↦ let e' : o' ≡ p = ground arith in subst IsBooked e' booked'
          | inr there ↦ v.booked id p (ground arith)
        ];
    once = v.once;
    log_positive = v.log_positive;
    log_bounded = v.log_bounded;
  }

  pub store_order-IsValid :
      (o : Order A) (now : ℕ) (m : OrderManager A)
      → IsValid m
      → lookup o.order_id m.orders ≡ none
      → IsBooked o
      → IsValid (store_order o now m)
  unfolding store_order
  store_order-IsValid o now m v fresh b = record_audit-IsValid "ORDER_CREATED" o now _ (record {
    linked = λ c id e.
        let client = lookup-insert o.client_order_id c o.order_id m.client_order_map in
        let new = lookup-insert o.order_id id o m.orders in
        elim (Bool-cases (str_eq o.client_order_id c)) [
          | inl here ↦
              (o, ground (arith, eq_iff o.order_id id), ground (arith, eq_iff o.client_order_id c))
          | inr there ↦
              let (p, at, linked) = v.linked c id (ground arith) in
              (p, ground (arith, eq_iff o.order_id id), linked)
        ];
    keyed = λ id p e.
        ground (arith, v.keyed id p, lookup-insert o.order_id id o m.orders, eq_iff o.order_id id);
    booked = λ id p e.
        let new = lookup-insert o.order_id id o m.orders in
        elim (Bool-cases (str_eq o.order_id id)) [
          | inl here ↦ let e' : o ≡ p = ground arith in subst IsBooked e' b
          | inr there ↦ v.booked id p (ground arith)
        ];
    once = set_result-IsValid o.client_order_id o.order_id [] m.idempotency v.once;
    log_positive = v.log_positive;
    log_bounded = v.log_bounded;
  })
