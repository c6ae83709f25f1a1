-- ===== src/ConfigRoutes/Live.antt =====
-- interface/routes/config.py: how the trading mode becomes LIVE.
use cto_test_ai_trading_bot.Prelude.{
  ℕ, ◌≤◌, ◌≡◌, String, Bool, true, false, List, [], ◌∷◌, arith, length, push_bounded,
  length-push_bounded, Bool-cases, inl, inr,
}
use cto_test_ai_trading_bot.Prelude.Number.{Number}
use cto_test_ai_trading_bot.ConfigRoutes.{
  TradingMode, AlgoConfig, ConfigState, Change, paper, live, simulation, is_live, record_change,
  set_trading_mode, toggle_venue, reload_config,
}
use cto_test_ai_trading_bot.ConfigRoutes.Settings.{set_algo_config}

-- the requests that change the state
pub data Call (A : Type 0) : Type 0 where
  set_mode : TradingMode → (confirmation : Bool) → (now : ℕ) → Call A
  set_algo : AlgoConfig A → (now : ℕ) → Call A
  toggle : String → Bool → (now : ℕ) → Call A
  reload : (now : ℕ) → Call A

-- Among the calls is one that sets LIVE and confirms it.
pub data IsConfirmed {A : Type 0} : List (Call A) → Type 0 where
  here : (now : ℕ) (cs : List (Call A)) → IsConfirmed (set_mode live true now ∷ cs)
  later : (c : Call A) {cs : List (Call A)} → IsConfirmed cs → IsConfirmed (c ∷ cs)

module _ {A : Type 0} ⦃num : Number A⦄ where
  unfoldable pub perform : Call A → ConfigState A → ConfigState A
  perform (set_mode mode confirmation now) s = (set_trading_mode mode confirmation now s).0
  perform (set_algo c now) s = (set_algo_config c now s).0
  perform (toggle venue enabled now) s = (toggle_venue venue enabled now s).0
  perform (reload now) s = reload_config now s

  unfoldable pub run : List (Call A) → ConfigState A → ConfigState A
  unfolding perform
  run [] s = s
  run (c ∷ cs) s = run cs (perform c s)

  push-bounded :
      (x : ℕ × Change A) (xs : List (ℕ × Change A))
      → length xs ≤ 1000
      → length (push_bounded 1000 x xs) ≤ 1000
  push-bounded x xs h = length-push_bounded 1000 x xs (omega arith) h

  perform-bounded :
      (c : Call A) (s : ConfigState A)
      → length s.config_history ≤ 1000
      → length (perform c s).config_history ≤ 1000
  unfolding perform set_trading_mode set_algo_config toggle_venue reload_config is_live
  perform-bounded (set_mode live false now) s h = h
  perform-bounded (set_mode live true now) s h = push-bounded _ s.config_history h
  perform-bounded (set_mode paper confirmation now) s h = push-bounded _ s.config_history h
  perform-bounded (set_mode simulation confirmation now) s h = push-bounded _ s.config_history h
  perform-bounded (set_algo c now) s h = push-bounded _ s.config_history h
  perform-bounded (toggle venue enabled now) s h = push-bounded _ s.config_history h
  perform-bounded (reload now) s h = push-bounded _ s.config_history h

  -- a call that makes the mode LIVE confirms it
  perform_live :
      (c : Call A) (cs : List (Call A)) (s : ConfigState A)
      → is_live s.trading_mode ≡ false
      → is_live (perform c s).trading_mode ≡ true
      → IsConfirmed (c ∷ cs)
  unfolding perform set_trading_mode set_algo_config toggle_venue reload_config record_change
      is_live
  perform_live (set_mode live true now) cs s off on = here now cs
  perform_live (set_mode live false now) cs s off on = absurd (ground arith)
  perform_live (set_mode _ confirmation now) cs s off on = absurd (ground arith)
  perform_live (set_algo c now) cs s off on = absurd (ground arith)
  perform_live (toggle venue enabled now) cs s off on = absurd (ground arith)
  perform_live (reload now) cs s off on = absurd (ground arith)

  -- The history keeps to a thousand entries, if it did before.
  pub run-bounded :
      (cs : List (Call A)) (s : ConfigState A)
      → length s.config_history ≤ 1000
      → length (run cs s).config_history ≤ 1000
  unfolding run
  run-bounded [] s h = h
  run-bounded (c ∷ cs) s h = run-bounded cs (perform c s) (perform-bounded c s h)

  -- If the mode is not LIVE before a run of requests and is LIVE after it, then one of the requests asked
  -- for LIVE and confirmed it.
  pub run_live :
      (cs : List (Call A)) (s : ConfigState A)
      → is_live s.trading_mode ≡ false
      → is_live (run cs s).trading_mode ≡ true
      → IsConfirmed cs
  unfolding run
  run_live [] s off on = absurd (ground arith)
  run_live (c ∷ cs) s off on = elim (Bool-cases (is_live (perform c s).trading_mode)) [
    | inl lives ↦ perform_live c cs s off lives
    | inr stays ↦ later c (run_live cs (perform c s) stays on)
  ]
