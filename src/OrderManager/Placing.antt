-- ===== src/OrderManager/Placing.antt =====
-- execution/order_manager.py: `place_order` acts once for each client id, and never opposes an order
-- of its own that is open and young.
use cto_test_ai_trading_bot.Prelude.{
  ℕ, ◌+◌, ◌≤◌, ◌≡◌, refl, sym, ◌≢◌, ◌⊎◌, String, Bool, true, false, Option, none, some, List, [],
  ◌∷◌, arith, if◌then◌else◌, Option-cases, Bool-cases, inl, inr, str_eq, eq_iff, keep, All,
}
use mathlib.Core.Path.{subst}
use cto_test_ai_trading_bot.Prelude.Dict.{Dict, lookup, values}
use cto_test_ai_trading_bot.Prelude.Number.{Number}
use cto_test_ai_trading_bot.Idempotency.{check_and_set}
use cto_test_ai_trading_bot.Order.{Order, OrderSide, buy, sell, Metadata, is_active, same_side}
use cto_test_ai_trading_bot.OrderManager.{
  OrderManager, Reply, created, check_self_trade, find_opposing, is_open_at, resolve_exchange,
  breaker_open,
}
use cto_test_ai_trading_bot.OrderManager.Methods.{
  Request, client_id, new_order, store_order, create_order, place_checked, place_order,
}

same_side_eq : (s t : OrderSide) → same_side s t ≡ true → s ≡ t
unfolding same_side
same_side_eq buy buy e = refl
same_side_eq buy sell e = cc
same_side_eq sell buy e = cc
same_side_eq sell sell e = refl

module _ {A : Type 0} ⦃num : Number A⦄ where
  -- the venue and the metadata that the request is routed to
  abbrev pub routed : Request A → String × Dict (Metadata A)
  routed r = resolve_exchange r.exchanges r.router r.exchange r.metadata

  -- the manager after the idempotency check
  abbrev pub checked : Request A → OrderManager A → OrderManager A
  checked r m = record m { idempotency = (check_and_set (client_id r) r.now m.idempotency).0 }

  -- What a call that created an order has done
  abbrev pub IsPlaced : Request A → OrderManager A → OrderManager A × Reply → Type 0
  IsPlaced r m out =
      (check_self_trade (routed r).0 r.symbol r.side r.now m ≡ none)
      × (out.0 ≡ store_order (new_order r (routed r).0 (routed r).1) r.now m)
      × (out.1.order ≡ some (new_order r (routed r).0 (routed r).1).order_id)

  create_order_created :
      (r : Request A) (m : OrderManager A)
      → (create_order r (routed r) m).1.success ≡ true
      → IsPlaced r m (create_order r (routed r) m)
  unfolding create_order
  create_order_created r m e =
      elim (Option-cases (check_self_trade (routed r).0 r.symbol r.side r.now m)) [
        | inl clear ↦ (clear, rw (create_order, clear), rw (create_order, clear))
        | inr (reason, risky) ↦ ground arith
      ]

  place_checked_created :
      (r : Request A) (duplicate : Bool) (cached : Option String) (m : OrderManager A)
      → (place_checked r duplicate cached m).1.success ≡ true
      → (place_checked r duplicate cached m).1.reason ≡ created
      → IsPlaced r m (place_checked r duplicate cached m)
  unfolding place_checked
  place_checked_created r true (some id) m s e = cc
  place_checked_created r true none m s e = create_order_created r m s
  place_checked_created r false cached m s e = create_order_created r m s

  pub place_order_created :
      (r : Request A) (m : OrderManager A)
      → (place_order r m).1.success ≡ true
      → (place_order r m).1.reason ≡ created
      → IsPlaced r (checked r m) (place_order r m)
  unfolding place_order
  place_order_created r m s e = elim (Bool-cases (breaker_open r.breaker)) [
    | inl stop ↦ ground arith
    | inr go ↦
        let answer = (check_and_set (client_id r) r.now m.idempotency).1 in
        let cached = lookup (client_id r) m.client_order_map in
        rw (place_order, go)
          (place_checked_created r answer cached (checked r m) (ground arith) (ground arith))
  ]

  -- Self-trade prevention
  find_opposing-none :
      (now window : ℕ) (side : OrderSide) (os : List (Order A))
      → find_opposing now window side os ≡ none
      → All (λ p. (same_side p.side side ≡ true) ⊎ (p.created_at + window ≤ now)) os
  unfolding find_opposing
  find_opposing-none now window side [] e = tt
  find_opposing-none now window side (o ∷ os) e =
      ground (arith, find_opposing-none now window side os)

  -- what holds of the kept orders holds of every order that passes the test
  keep-All :
      (P : Order A → Type 0) (test : Order A → Bool) (os : List (Order A))
      → All P (keep test os)
      → All (λ o. test o ≡ true → P o) os
  keep-All P test [] h = tt
  keep-All P test (o ∷ os) h =
      let kept = keep test os in
      elim (Bool-cases (test o)) [
        | inl t ↦
            let h' : P o × All P kept = subst (λ b. All P (if b then o ∷ kept else kept)) t h in
            ((λ _. h'.0), keep-All P test os h'.1)
        | inr t ↦
            let h' : All P kept = subst (λ b. All P (if b then o ∷ kept else kept)) t h in
            ((λ u. absurd (cc)), keep-All P test os h')
      ]

  All-lookup :
      (P : Order A → Type 0) (id : String) (p : Order A) (d : Dict (Order A))
      → All P (values d)
      → lookup id d ≡ some p
      → P p
  unfolding lookup
  All-lookup P id p [] h e = absurd (cc)
  All-lookup P id p ((k, o) ∷ d) h e = elim (Bool-cases (str_eq k id)) [
    | inl here ↦ let same : o ≡ p = ground arith in subst P same h.0
    | inr there ↦ All-lookup P id p d h.1 (ground arith)
  ]

  check_self_trade-none :
      (exchange symbol : String) (side : OrderSide) (now : ℕ) (id : String) (p : Order A)
      (m : OrderManager A)
      → check_self_trade exchange symbol side now m ≡ none
      → lookup id m.orders ≡ some p
      → p.venue ≡ exchange
      → p.symbol ≡ symbol
      → is_active p.status ≡ true
      → (same_side p.side side ≡ true) ⊎ (p.created_at + m.self_trade_window_ms ≤ now)
  unfolding check_self_trade
  check_self_trade-none exchange symbol side now id p m none_found found v s active =
      let os = values m.orders in
      let clear = keep-All _ (is_open_at exchange symbol) os (
        find_opposing-none now m.self_trade_window_ms side (keep (is_open_at exchange symbol) os)
          none_found) in
      All-lookup _ id p m.orders clear found
        (ground (arith, eq_iff p.venue exchange, eq_iff p.symbol symbol))

  -- When `place_order` creates an order at a venue, every order of the other side that it held
  -- there for the symbol, and that is still active, is at least as old as the self-trade window.
  pub place_order_no_self_trade :
      (r : Request A) (m : OrderManager A) (id : String) (p : Order A)
      → (place_order r m).1.success ≡ true
      → (place_order r m).1.reason ≡ created
      → lookup id m.orders ≡ some p
      → p.venue ≡ (routed r).0
      → p.symbol ≡ r.symbol
      → is_active p.status ≡ true
      → p.side ≢ r.side
      → p.created_at + m.self_trade_window_ms ≤ r.now
  place_order_no_self_trade r m id p s e found v sym active opposes =
      let (clear, _, _) = place_order_created r m s e in
      ground (
        arith,
        check_self_trade-none (routed r).0 r.symbol r.side r.now id p (checked r m) clear found v
            sym active,
        same_side_eq p.side r.side,
      )
