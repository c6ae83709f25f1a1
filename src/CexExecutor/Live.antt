-- ===== src/CexExecutor/Live.antt =====
-- execution/cex_executor.py: when the live path orders at the market, and what becomes of an order that
-- is filled in part.
use cto_test_ai_trading_bot.Prelude.{
  ℕ, ◌≡◌, refl, ap, ◌∙◌, Bool, true, false, Option, none, some, List, [], ◌∷◌, arith, Bool-cases,
  Option-cases, inl, inr, All,
}
use mathlib.Core.Path.{subst}
use cto_test_ai_trading_bot.Prelude.Number.{Number, IsLe, IsLt, ◌≺◌, zero_num, divide}
use cto_test_ai_trading_bot.Position.{TradingSignal}
use cto_test_ai_trading_bot.RiskManager.{RiskManager}
use cto_test_ai_trading_bot.CexExecutor.{
  OrderInfo, Polled, Action, limit_order, cancel_order, market_order, Answers, Outcome, OrderResult,
  number, fetched, timed_out, failed, is_done, float_or, poll, side_of, wait_for_fill, place_live,
  result_of, conclude, finish, live_execute, order_failed,
}

module _ {A : Type 0} ⦃num : Number A⦄ where
  -- an attempt that raised, or that saw an open order with nothing filled
  abbrev pub IsUnfilled : Option (OrderInfo A) → Type 0
  IsUnfilled none = Unit
  IsUnfilled (some f) =
      (is_done f.status ≡ false)
      × (q : A) × (float_or (some zero_num) f.filled ≡ some q)
      × IsLe q zero_num

  poll-IsUnfilled :
      (answers : List (Option (OrderInfo A))) → poll answers ≡ timed_out → All IsUnfilled answers
  unfolding poll
  poll-IsUnfilled [] e = tt
  poll-IsUnfilled (none ∷ rest) e = (tt, poll-IsUnfilled rest e)
  poll-IsUnfilled (some f ∷ rest) e = elim (Bool-cases (is_done f.status)) [
    | inl done ↦ absurd (ground arith)
    | inr waiting ↦ elim (Option-cases (float_or (some zero_num) f.filled)) [
      | inl bad ↦ absurd (ground arith)
      | inr (q, read) ↦ elim (Bool-cases (zero_num ≺ q)) [
        | inl part ↦ absurd (ground arith)
        | inr nothing ↦ ((waiting, q, read, nothing), poll-IsUnfilled rest (ground arith))
      ]
    ]
  ]

  -- the actions contain an order at the market
  abbrev pub has_market : List (Action A) → Bool
  has_market [] = false
  has_market (market_order side amount ∷ actions) = true
  has_market (limit_order side amount price ∷ actions) = has_market actions
  has_market (cancel_order ∷ actions) = has_market actions

  -- a conclusion keeps the actions, whatever the result
  actions-conclude :
      (s : TradingSignal A) (size : A) (now : ℕ) (m : RiskManager A) (actions : List (Action A))
      (r : Option (OrderResult A))
      → (conclude s size now m actions r).actions ≡ actions
  unfolding conclude
  actions-conclude s size now m actions none = refl
  actions-conclude s size now m actions (some r) = ground arith

  actions-finish :
      (s : TradingSignal A) (size : A) (now : ℕ) (m : RiskManager A) (amount : A)
      (placed : Option (OrderInfo A) × List (Action A))
      → (finish s size now m amount placed).actions ≡ placed.1
  unfolding finish
  actions-finish s size now m amount (none, actions) = actions-conclude s size now m actions none
  actions-finish s size now m amount (some order, actions) =
      actions-conclude s size now m actions (result_of s amount order)

  -- the actions after the limit order, for how the polling ended
  IsFallback : TradingSignal A → A → Answers A → Polled A → Type 0
  IsFallback s amount answers p =
      has_market (wait_for_fill s amount answers p).1 ≡ true
      → (p ≡ timed_out)
        × ((wait_for_fill s amount answers p).1
            ≡ cancel_order ∷ market_order (side_of s) amount ∷ [])

  wait_for_fill_lem :
      (s : TradingSignal A) (amount : A) (answers : Answers A) (p : Polled A)
      → IsFallback s amount answers p
  unfolding wait_for_fill IsFallback
  wait_for_fill_lem s amount answers (fetched f) e = absurd (cc)
  wait_for_fill_lem s amount answers failed e = absurd (cc)
  wait_for_fill_lem s amount answers timed_out e = (refl, refl)

  place_live_lem :
      (s : TradingSignal A) (amount : A) (answers : Answers A)
      → has_market (place_live s false amount answers).1 ≡ true
      → All IsUnfilled answers.fetch_answers
        × ((place_live s false amount answers).1
            ≡ limit_order (side_of s) amount s.price
              ∷ cancel_order
              ∷ market_order (side_of s) amount
              ∷ [])
  unfolding place_live IsFallback
  place_live_lem s amount answers e = elim (Option-cases answers.limit_answer) [
    | inl refused ↦ absurd (ground arith)
    | inr (order, taken) ↦
        let fallback =
          wait_for_fill_lem s amount answers (poll answers.fetch_answers) (ground arith) in
        (poll-IsUnfilled answers.fetch_answers fallback.0, rw (taken, fallback.1))
  ]

  -- Outside of an emergency the live path orders at the market only after a limit order for the same
  -- amount of which no attempt saw any part filled, and after an attempt to cancel it: these three are
  -- then all its actions.
  pub live_execute_market :
      (s : TradingSignal A) (size amount : A) (answers : Answers A) (now : ℕ) (m : RiskManager A)
      → divide size s.price ≡ some amount
      → has_market (live_execute s size false answers now m).actions ≡ true
      → All IsUnfilled answers.fetch_answers
        × ((live_execute s size false answers now m).actions
            ≡ limit_order (side_of s) amount s.price
              ∷ cancel_order
              ∷ market_order (side_of s) amount
              ∷ [])
  unfolding live_execute
  live_execute_market s size amount answers now m e h =
      let placed = place_live s false amount answers in
      let same : (live_execute s size false answers now m).actions ≡ placed.1 =
        rw (live_execute, e) (actions-finish s size now m amount placed) in
      let (unfilled, actions) =
        place_live_lem s amount answers (subst (λ l. has_market l ≡ true) same h) in
      (unfilled, same ∙ actions)

  poll_partial :
      (f : OrderInfo A) (rest : List (Option (OrderInfo A))) (quantity : A)
      → is_done f.status ≡ false
      → f.filled ≡ number quantity
      → IsLt zero_num quantity
      → poll (some f ∷ rest) ≡ fetched f
  unfolding poll float_or
  poll_partial f rest quantity waiting part positive = ground arith

  place_live_partial :
      (s : TradingSignal A) (amount : A) (f order : OrderInfo A) (answers : Answers A)
      → answers.limit_answer ≡ some order
      → poll answers.fetch_answers ≡ fetched f
      → place_live s false amount answers ≡ (some f, limit_order (side_of s) amount s.price ∷ [])
  unfolding place_live wait_for_fill
  place_live_partial s amount f order answers taken polled = rw (taken, polled)

  -- the result of an order with a quantity and a price
  abbrev result_with : TradingSignal A → OrderInfo A → A → A → OrderResult A
  result_with s f quantity price = record {
    symbol = s.symbol;
    direction = s.direction;
    price = price;
    quantity = quantity;
    status = f.status;
  }

  finish_partial :
      (s : TradingSignal A) (size amount quantity price : A) (f : OrderInfo A) (now : ℕ)
      (m : RiskManager A) (actions : List (Action A))
      → is_done f.status ≡ false
      → f.filled ≡ number quantity
      → f.average ≡ number price
      → finish s size now m amount (some f, actions) ≡ record {
        actions = actions;
        result = some (result_with s f quantity price);
        event = some order_failed;
        manager = m;
      }
  unfolding finish conclude result_of float_or
  finish_partial s size amount quantity price f now m actions waiting part average =
      rw (average, part, waiting)

  -- When the limit order was taken and the first attempt sees it filled in part, with a quantity above
  -- zero and an average price that are numbers, and with a status that is not filled or closed, the live
  -- path takes it as it is, but reports it as failed: the rest of the order is not cancelled, and the
  -- risk manager gets no position for the quantity that was bought. The price of the signal is not zero.
  pub live_execute_partial :
      (s : TradingSignal A) (size amount quantity price : A) (f order : OrderInfo A)
      (rest : List (Option (OrderInfo A))) (answers : Answers A) (now : ℕ) (m : RiskManager A)
      → divide size s.price ≡ some amount
      → answers.limit_answer ≡ some order
      → answers.fetch_answers ≡ some f ∷ rest
      → is_done f.status ≡ false
      → f.filled ≡ number quantity
      → f.average ≡ number price
      → IsLt zero_num quantity
      → let out = live_execute s size false answers now m in
        (out.actions ≡ limit_order (side_of s) amount s.price ∷ [])
        × (out.event ≡ some order_failed)
        × (out.manager ≡ m)
        × (r : OrderResult A) × (out.result ≡ some r)
        × (r.quantity ≡ quantity)
  unfolding live_execute
  live_execute_partial s size amount quantity price f order rest answers now m sized taken seen
        waiting part average positive =
      let polled = ap poll seen ∙ poll_partial f rest quantity waiting part positive in
      let limit = limit_order (side_of s) amount s.price ∷ [] in
      let out : live_execute s size false answers now m ≡ record {
        actions = limit;
        result = some (result_with s f quantity price);
        event = some order_failed;
        manager = m;
      } =
        rw (live_execute, sized)
          (ap (finish s size now m amount)
              (place_live_partial s amount f order answers taken polled)
            ∙ finish_partial s size amount quantity price f now m limit waiting part average) in
      (
        ap (λ (o : Outcome A). o.actions) out,
        ap (λ (o : Outcome A). o.event) out,
        ap (λ (o : Outcome A). o.manager) out,
        result_with s f quantity price,
        ap (λ (o : Outcome A). o.result) out,
        refl,
      )
