-- ===== src/RiskManager/Trading.antt =====
-- execution/risk_manager.py and the handlers of execution/cex_executor.py: the sequences of events that
-- act on the risk manager, in paper and in live mode, one handled after the other.
use cto_test_ai_trading_bot.Prelude.{
  ℕ, ◌<◌, ◌≡◌, refl, String, Bool, true, false, List, if◌then◌else◌, Bool-cases, inl, inr, str_eq,
  not, Option, none, some, Option-cases, ◌⊎◌, sym,
}
use mathlib.Core.Path.{subst}
use cto_test_ai_trading_bot.Prelude.Number.{Number, divide}
use cto_test_ai_trading_bot.RiskBreaker.{tripped}
use cto_test_ai_trading_bot.Position.{TradingSignal}
use cto_test_ai_trading_bot.RiskManager.{
  RiskManager, Decision, approved, rejected, raised, approve_signal,
}
use cto_test_ai_trading_bot.CexExecutor.{
  Answers, OrderInfo, Action, is_done, result_of, conclude, finish, place_live, live_execute,
}
use cto_test_ai_trading_bot.RiskManager.Approval.{approve_signal-IsApproved}
use cto_test_ai_trading_bot.RiskManager.Methods.{
  open_position, close_position, activate_kill_switch, deactivate_kill_switch, update_prices,
}
use cto_test_ai_trading_bot.RiskManager.Positions.{
  IsValid, open_position-IsValid, close_position-IsValid, update_prices-IsValid,
}
use cto_test_ai_trading_bot.RiskManager.KillSwitch.{
  activate_kill_switch-IsValid, deactivate_kill_switch-IsValid,
}

-- Paper mode; or live mode, with the client, if there is one: whether the signal is an emergency exit, and
-- what the exchange answers; and with the time at which the order is done. The awaits of the live mode
-- stand between the approval and the opening: the model has the handlers that nothing interrupts there.
pub data Mode (A : Type 0) : Type 0 where
  paper : Mode A
  live : (client : Option (Bool × Answers A)) → (finished : ℕ) → Mode A

module _ {A : Type 0} ⦃num : Number A⦄ (percentile : List A → A → A) where
  -- `execute_signal`
  unfoldable pub execute_signal : Mode A → TradingSignal A → A → ℕ → RiskManager A → RiskManager A
  execute_signal paper s size now m = open_position s size now m
  execute_signal (live none finished) s size now m = m
  execute_signal (live (some (emergency, answers)) finished) s size now m =
      (live_execute s size emergency answers finished m).manager

  -- what `_handle_signal` does with the answer of `approve_signal`
  unfoldable pub act_on : Mode A → TradingSignal A → ℕ → RiskManager A → Decision A → RiskManager A
  unfolding execute_signal
  act_on mode s now m (approved size) = execute_signal mode s size now m
  act_on mode s now m (rejected reason) = m
  act_on mode s now m raised = m

  -- `CEXExecutor._handle_signal` of the executor for an exchange
  unfoldable pub handle_signal :
      String → Mode A → TradingSignal A → ℕ → ℕ → RiskManager A → RiskManager A
  unfolding act_on
  handle_signal exchange_id mode s now minutes m =
      if not (str_eq s.exchange exchange_id)
      then m
      else let (m', decision) = approve_signal percentile s now minutes m in
        act_on mode s now m' decision

  -- One event: a signal, a closing by `_handle_stop_loss`, a price, the kill switch and its end
  pub data Step (m : RiskManager A) : RiskManager A → Type 0 where
    signalled :
        (exchange_id : String) (mode : Mode A) (s : TradingSignal A) (now minutes : ℕ)
        → minutes < 1440
        → Step m (handle_signal exchange_id mode s now minutes m)
    stopped :
        (exchange symbol : String) (price : A) (now : ℕ)
        → Step m (close_position exchange symbol price now m).0
    priced :
        (exchange symbol : String) (price : A) (now : ℕ)
        → Step m (update_prices exchange symbol price now m).0
    killed : (now : ℕ) → Step m (activate_kill_switch now m).0
    revived : Step m (deactivate_kill_switch m)

  pub data Reach (m : RiskManager A) : RiskManager A → Type 0 where
    here : Reach m m
    next : {n p : RiskManager A} → Reach m n → Step n p → Reach m p

  breaker-IsValid :
      (now : ℕ) (m : RiskManager A)
      → IsValid m
      → IsValid (record m { circuit_breaker = (tripped now m.circuit_breaker).0 })
  breaker-IsValid now m v = record {
    keyed = v.keyed;
    unique = v.unique;
    few = v.few;
    window_positive = v.window_positive;
    history_bounded = v.history_bounded;
  }

  either-IsValid :
      (b : Bool) (x y : RiskManager A × Decision A)
      → IsValid x.0
      → IsValid y.0
      → IsValid (if b then x else y).0
  either-IsValid true x y v w = v
  either-IsValid false x y v w = w

  approve_signal-IsValid :
      (s : TradingSignal A) (now minutes : ℕ) (m : RiskManager A)
      → IsValid m
      → IsValid (approve_signal percentile s now minutes m).0
  unfolding approve_signal
  approve_signal-IsValid s now minutes m v =
      let read = breaker-IsValid now m v in
      either-IsValid m.killed _ _ v (either-IsValid (tripped now m.circuit_breaker).1 _ _ read read)

  -- a live order opens the position, or leaves the manager as it is
  finish_manager :
      (s : TradingSignal A) (size amount : A) (now : ℕ) (m : RiskManager A)
      (order : Option (OrderInfo A) × List (Action A))
      → ((finish s size now m amount order).manager ≡ m)
        ⊎ ((finish s size now m amount order).manager ≡ open_position s size now m)
  unfolding finish conclude
  finish_manager s size amount now m (none, actions) = inl refl
  finish_manager s size amount now m (some order, actions) =
      elim (Option-cases (result_of s amount order)) [
        | inl failed ↦ inl (rw (finish, failed) refl)
        | inr (r, result) ↦ elim (Bool-cases (is_done r.status)) [
          | inl done ↦ inr (rw (finish, result, done) refl)
          | inr waiting ↦ inl (rw (finish, result, waiting) refl)
        ]
      ]

  live_execute_manager :
      (s : TradingSignal A) (size : A) (emergency : Bool) (answers : Answers A) (now : ℕ)
      (m : RiskManager A)
      → let m' = (live_execute s size emergency answers now m).manager in
        (m' ≡ m) ⊎ (m' ≡ open_position s size now m)
  unfolding live_execute conclude
  live_execute_manager s size emergency answers now m = elim (Option-cases (divide size s.price)) [
    | inl no_amount ↦ inl (rw (live_execute, no_amount) refl)
    | inr (amount, sized) ↦
        rw (live_execute, sized)
          (finish_manager s size amount now m (place_live s emergency amount answers))
  ]

  execute_signal-IsValid :
      (mode : Mode A) (s : TradingSignal A) (size : A) (now : ℕ) (m : RiskManager A)
      → IsValid m
      → ((at : ℕ) → IsValid (open_position s size at m))
      → IsValid (execute_signal mode s size now m)
  unfolding execute_signal
  execute_signal-IsValid paper s size now m v opens = opens now
  execute_signal-IsValid (live none finished) s size now m v opens = v
  execute_signal-IsValid (live (some (emergency, answers)) finished) s size now m v opens =
      elim (live_execute_manager s size emergency answers finished m) [
        | inl same ↦ subst IsValid (sym same) v
        | inr opened ↦ subst IsValid (sym opened) (opens finished)
      ]

  act_on-IsValid :
      (mode : Mode A) (s : TradingSignal A) (now minutes : ℕ) (m : RiskManager A) (d : Decision A)
      → minutes < 1440
      → IsValid m
      → (approve_signal percentile s now minutes m).1 ≡ d
      → IsValid (act_on mode s now (approve_signal percentile s now minutes m).0 d)
  unfolding act_on
  act_on-IsValid mode s now minutes m (approved size) day v e =
      let m' = (approve_signal percentile s now minutes m).0 in
      let v' = approve_signal-IsValid s now minutes m v in
      let (_, _, _, a) = approve_signal-IsApproved percentile s now minutes m size day e in
      execute_signal-IsValid mode s size now m' v'
        (λ at. open_position-IsValid s size at m' v' a.no_position a.room)
  act_on-IsValid mode s now minutes m (rejected reason) day v e =
      approve_signal-IsValid s now minutes m v
  act_on-IsValid mode s now minutes m raised day v e = approve_signal-IsValid s now minutes m v

  handle_signal-IsValid :
      (exchange_id : String) (mode : Mode A) (s : TradingSignal A) (now minutes : ℕ)
      (m : RiskManager A)
      → minutes < 1440
      → IsValid m
      → IsValid (handle_signal exchange_id mode s now minutes m)
  unfolding handle_signal
  handle_signal-IsValid exchange_id mode s now minutes m day v =
      elim (Bool-cases (str_eq s.exchange exchange_id)) [
        | inl mine ↦ rw mine (act_on-IsValid mode s now minutes m _ day v refl)
        | inr other ↦ rw other v
      ]

  Step-IsValid : {m n : RiskManager A} → Step m n → IsValid m → IsValid n
  Step-IsValid {m} (signalled exchange_id mode s now minutes day) v =
      handle_signal-IsValid exchange_id mode s now minutes m day v
  Step-IsValid {m} (stopped exchange symbol price now) v =
      close_position-IsValid exchange symbol price now m v
  Step-IsValid {m} (priced exchange symbol price now) v =
      update_prices-IsValid exchange symbol price now m v
  Step-IsValid {m} (killed now) v = activate_kill_switch-IsValid now m v
  Step-IsValid {m} revived v = deactivate_kill_switch-IsValid m v

  -- From a valid manager, whatever signals, prices, stops and kill switches come in, one handled after
  -- the other: there are never more positions than the maximum, at most one for an exchange and symbol,
  -- each under its key, and the history of returns keeps to its window. The signals are executed in paper
  -- mode, or in live mode without another event between the approval of a signal and the end of its
  -- order.
  pub events-IsValid : {m n : RiskManager A} → IsValid m → Reach m n → IsValid n
  events-IsValid v here = v
  events-IsValid v (next r s) = Step-IsValid s (events-IsValid v r)
