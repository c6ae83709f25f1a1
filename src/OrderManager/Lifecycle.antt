-- ===== src/OrderManager/Lifecycle.antt =====
-- execution/order_manager.py: what the methods make of the status of an order: cancelling, filling,
-- and the states that are not final.
use cto_test_ai_trading_bot.Prelude.{
  ℕ, ◌≡◌, refl, String, true, false, some, arith, if◌then◌else◌, str_eq,
}
use cto_test_ai_trading_bot.Prelude.Dict.{lookup, lookup-insert, lookup-insert_self}
use cto_test_ai_trading_bot.Prelude.Number.{
  Number, IsOrdered, IsLe, IsLt, ◌⊕◌, ◌⊖◌, ratio, zero_num, absolute,
}
use cto_test_ai_trading_bot.Order.{Order, cancelled, partially_filled, submitted, is_active}
use cto_test_ai_trading_bot.OrderManager.{OrderManager, get_order, record_audit, order_not_active}
use cto_test_ai_trading_bot.OrderManager.Methods.{
  update_order, apply_fill, record_fill, cancel_order, confirm_order_submission,
}
use cto_test_ai_trading_bot.OrderManager.Invariant.{IsValid, get_order-linked}

module _ {A : Type 0} ⦃num : Number A⦄ where
  -- the order that the client id leads to after a write, and every other order
  get_order-saved :
      (event c : String) (o o' : Order A) (now : ℕ) (m : OrderManager A)
      → IsValid m
      → get_order c m ≡ some o
      → o'.order_id ≡ o.order_id
      → get_order c (record_audit event o' now (update_order o' m)) ≡ some o'
  unfolding get_order update_order record_audit
  get_order-saved event c o o' now m v found same =
      let (mapped, at, client) = get_order-linked c o m v found in
      let stored = lookup-insert_self o'.order_id o' m.orders in ground (arith, mapped, stored)

  -- Cancelling an active order marks it CANCELLED and changes nothing else of it; a second attempt
  -- is refused with that status and leaves the manager as it is.
  pub cancel_order_lem :
      (c : String) (now later : ℕ) (o : Order A) (m : OrderManager A)
      → IsValid m
      → get_order c m ≡ some o
      → is_active o.status ≡ true
      → let (m', reply) = cancel_order c now m in
        (reply.success ≡ true)
        × (get_order c m' ≡ some (record o { status = cancelled }))
        × (cancel_order c later m' ≡ (
          m',
          record { success = false; order = some o.order_id; reason = order_not_active cancelled },
        ))
  unfolding cancel_order is_active
  cancel_order_lem c now later o m v found active =
      let saved =
        get_order-saved "ORDER_CANCELLED" c o (record o { status = cancelled }) now m v found
          refl in
      (ground arith, ground (arith, saved), ground (arith, saved))

  -- An order that is not active cannot be cancelled: the call fails and changes nothing.
  pub cancel_order_inactive :
      (c : String) (now : ℕ) (o : Order A) (m : OrderManager A)
      → get_order c m ≡ some o
      → is_active o.status ≡ false
      → cancel_order c now m ≡ (
        m,
        record { success = false; order = some o.order_id; reason = order_not_active o.status },
      )
  unfolding cancel_order
  cancel_order_inactive c now o m found over = ground arith

  -- A fill is booked on the order of its client id, and on no other: the order that any id led to
  -- before is the same unless it is the filled one.
  pub record_fill_lem :
      (c fill_id id : String) (quantity price fee : A) (now : ℕ) (o : Order A) (m : OrderManager A)
      → IsValid m
      → get_order c m ≡ some o
      → let m' = (record_fill c fill_id quantity price fee now m).0 in
        (get_order c m' ≡ some (apply_fill fill_id quantity price fee now o))
        × (lookup id m'.orders ≡ (
            if str_eq o.order_id id
            then some (apply_fill fill_id quantity price fee now o)
            else lookup id m.orders))
  unfolding record_fill update_order record_audit apply_fill
  record_fill_lem c fill_id id quantity price fee now o m v found =
      let o' = apply_fill fill_id quantity price fee now o in
      let saved = get_order-saved "ORDER_FILL" c o o' now m v found refl in
      (
        rw (record_fill, found) saved,
        rw (record_fill, found) (lookup-insert o'.order_id id o' m.orders),
      )

  -- CANCELLED is not final: a fill that arrives for a cancelled order, and that neither completes
  -- it nor leaves its quantity at zero or below, makes the order active again.
  pub record_fill_revives :
      (c fill_id : String) (quantity price fee : A) (now : ℕ) (o : Order A) (m : OrderManager A)
      → IsValid m
      → get_order c m ≡ some o
      → o.status ≡ cancelled
      → IsLt zero_num (o.cumulative_quantity ⊕ quantity)
      → IsLe (ratio 1 100_000_000) (absolute (o.cumulative_quantity ⊕ quantity ⊖ o.quantity))
      → (o' : Order A) × (get_order c (record_fill c fill_id quantity price fee now m).0 ≡ some o')
        × (o'.status ≡ partially_filled)
        × (is_active o'.status ≡ true)
  unfolding apply_fill is_active
  record_fill_revives c fill_id quantity price fee now o m v found dead some_left open_left =
      let (saved, _) = record_fill_lem c fill_id "" quantity price fee now o m v found in
      (apply_fill fill_id quantity price fee now o, saved, ground arith, ground arith)

  -- Confirming a submission sets SUBMITTED whatever the status was, also CANCELLED or FILLED, and
  -- so makes the order active again.
  pub confirm_revives :
      (c e : String) (now : ℕ) (o : Order A) (m : OrderManager A)
      → IsValid m
      → get_order c m ≡ some o
      → (o' : Order A) × (get_order c (confirm_order_submission c e now m).0 ≡ some o')
        × (o'.status ≡ submitted)
        × (is_active o'.status ≡ true)
  unfolding confirm_order_submission get_order update_order record_audit is_active
  confirm_revives c e now o m v found =
      let o' = record o {
        exchange_order_id = some e;
        status = submitted;
        submitted_at = some now;
      } in
      let (mapped, at, client) = get_order-linked c o m v found in
      let stored = lookup-insert_self o'.order_id o' m.orders in
      (o', ground (arith, mapped, stored), refl, refl)

  -- An order that is filled beyond its quantity, by the tolerance or more, is PARTIALLY_FILLED and
  -- stays active.
  pub apply_fill_overfilled :
      IsOrdered num
      → (fill_id : String) (quantity price fee : A) (now : ℕ) (o : Order A)
      → IsLt zero_num (o.cumulative_quantity ⊕ quantity)
      → IsLe {A = A} zero_num (ratio 1 100_000_000)
      → IsLe (ratio 1 100_000_000) (o.cumulative_quantity ⊕ quantity ⊖ o.quantity)
      → ((apply_fill fill_id quantity price fee now o).status ≡ partially_filled)
        × (is_active (apply_fill fill_id quantity price fee now o).status ≡ true)
  unfolding apply_fill is_active absolute
  apply_fill_overfilled ord fill_id quantity price fee now o some_left tol over =
      let excess = o.cumulative_quantity ⊕ quantity ⊖ o.quantity in
      let positive = ord.le_trans zero_num (ratio 1 100_000_000) excess tol over in
      (ground arith, ground arith)
