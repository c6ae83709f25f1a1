-- ===== src/RiskManager/KillSwitch.antt =====
-- execution/risk_manager.py: the kill switch closes every position and blocks every signal.
use cto_test_ai_trading_bot.Prelude.{
  ℕ, suc, ◌≡◌, refl, ap, ◌∙◌, String, Bool, true, false, none, some, List, [], ◌∷◌, map, arith,
  length, Option-cases, inl, inr, All, eq_iff,
}
use cto_test_ai_trading_bot.Prelude.Dict.{Dict, lookup, erase, contains}
use cto_test_ai_trading_bot.Prelude.Number.{Number, equal, zero_num}
use cto_test_ai_trading_bot.Idempotency.Keys.{IsUnique}
use cto_test_ai_trading_bot.Position.{TradingSignal, Position, try_update_price}
use cto_test_ai_trading_bot.RiskManager.{
  RiskManager, rejected, kill_switch_active, position_key, approve_signal,
}
use cto_test_ai_trading_bot.RiskManager.Methods.{
  Closing, absent, closed, raised, close_position, settle, after_closing, close_all,
  activate_kill_switch, deactivate_kill_switch,
}
use cto_test_ai_trading_bot.RiskManager.Positions.{IsValid, IsKeyed, close_position-IsValid}

module _ {A : Type 0} ⦃num : Number A⦄ where
  pub deactivate_kill_switch-IsValid :
      (m : RiskManager A) → IsValid m → IsValid (deactivate_kill_switch m)
  unfolding deactivate_kill_switch
  deactivate_kill_switch-IsValid m v = record {
    keyed = v.keyed;
    unique = v.unique;
    few = v.few;
    window_positive = v.window_positive;
    history_bounded = v.history_bounded;
  }

  after_closing-IsValid :
      (r : Closing A) (m : RiskManager A) (rest : RiskManager A × List (Position A) × Bool)
      → IsValid m
      → IsValid rest.0
      → IsValid (after_closing r m rest).0
  unfolding after_closing
  after_closing-IsValid absent m rest v w = w
  after_closing-IsValid (closed p) m rest v w = w
  after_closing-IsValid raised m rest v w = v

  close_all-IsValid :
      (keys : List String) (now : ℕ) (m : RiskManager A)
      → IsValid m
      → IsValid (close_all keys now m).0
  unfolding close_all
  close_all-IsValid [] now m v = v
  close_all-IsValid (key ∷ keys) now m v = elim (Option-cases (lookup key m.positions)) [
    | inl missing ↦ rw (close_all, missing) v
    | inr (p, found) ↦
        let (m', result) = close_position p.exchange p.symbol p.current_price now m in
        let v' = close_position-IsValid p.exchange p.symbol p.current_price now m v in
        rw (close_all, found)
          (after_closing-IsValid result m' (close_all keys now m') v'
            (close_all-IsValid keys now m' v'))
  ]

  pub activate_kill_switch-IsValid :
      (now : ℕ) (m : RiskManager A) → IsValid m → IsValid (activate_kill_switch now m).0
  unfolding activate_kill_switch
  activate_kill_switch-IsValid now m v =
      close_all-IsValid _ now (record m { killed = true })
        (record {
          keyed = v.keyed;
          unique = v.unique;
          few = v.few;
          window_positive = v.window_positive;
          history_bounded = v.history_bounded;
        })

  -- an entry price of zero would make `update_price` raise
  abbrev pub IsPriced : Dict (Position A) → Type 0
  IsPriced = All (λ e. equal (e.1).entry_price zero_num ≡ false)

  erase_absent : (k : String) (d : Dict (Position A)) → lookup k d ≡ none → erase k d ≡ d
  unfolding lookup erase
  erase_absent k [] e = refl
  erase_absent k ((j, p) ∷ d) e = ground (arith, erase_absent k d)

  lookup_first :
      (k : String) (p : Position A) (d : Dict (Position A)) → lookup k ((k, p) ∷ d) ≡ some p
  unfolding lookup
  lookup_first k p d = ground (arith, eq_iff k k)

  erase_first :
      (k : String) (p : Position A) (d : Dict (Position A))
      → contains k d ≡ false
      → erase k ((k, p) ∷ d) ≡ d
  unfolding erase
  erase_first k p d fresh = ground (arith, eq_iff k k, erase_absent k d)

  -- closing the position that stands first
  pub close_first :
      (k : String) (p : Position A) (d : Dict (Position A)) (price : A) (now : ℕ)
      (m : RiskManager A)
      → m.positions ≡ (k, p) ∷ d
      → k ≡ position_key p.exchange p.symbol
      → contains k d ≡ false
      → equal p.entry_price zero_num ≡ false
      → let (m', result) = close_position p.exchange p.symbol price now m in
        (m'.positions ≡ d) × (m'.killed ≡ m.killed) × (result ≡ closed (try_update_price price p).0)
  unfolding close_position settle try_update_price
  close_first k p d price now m e key fresh priced =
      let found : lookup (position_key p.exchange p.symbol) m.positions ≡ some p =
        rw (← key, e) (lookup_first k p d) in
      let rest : erase (position_key p.exchange p.symbol) m.positions ≡ d =
        rw (← key, e) (erase_first k p d fresh) in
      (ground arith, ground arith, ground arith)

  close_all_lem :
      (d : Dict (Position A)) (now : ℕ) (m : RiskManager A)
      → m.positions ≡ d
      → IsKeyed d
      → IsUnique d
      → IsPriced d
      → let (m', ps, done) = close_all (map (λ e. e.0) d) now m in
        (m'.positions ≡ []) × (m'.killed ≡ m.killed) × (length ps ≡ length d) × (done ≡ true)
  unfolding close_all
  close_all_lem [] now m e keyed unique priced = (e, refl, refl, refl)
  close_all_lem ((k, p) ∷ d) now m e keyed unique priced =
      let found : lookup k m.positions ≡ some p = rw e (lookup_first k p d) in
      let (m', result) = close_position p.exchange p.symbol p.current_price now m in
      let (rest, flag, closing) =
        close_first k p d p.current_price now m e keyed.0 unique.0 priced.0 in
      let (empty, flag', count, ended) = close_all_lem d now m' rest keyed.1 unique.1 priced.1 in
      rw (close_all, found, closing) (empty, flag' ∙ flag, ap suc count, ended)

  -- The kill switch closes every position of a valid manager whose positions have entry prices: it
  -- ends without an exception, no position is left, as many positions are returned as were open,
  -- and until it is deactivated every signal is rejected.
  pub activate_kill_switch_lem :
      (percentile : List A → A → A) (s : TradingSignal A) (now later minutes : ℕ)
      (m : RiskManager A)
      → IsValid m
      → IsPriced m.positions
      → let (m', ps, done) = activate_kill_switch now m in
        (m'.positions ≡ [])
        × (length ps ≡ length m.positions)
        × (done ≡ true)
        × (approve_signal percentile s later minutes m' ≡ (m', rejected kill_switch_active))
  unfolding activate_kill_switch approve_signal
  activate_kill_switch_lem percentile s now later minutes m v priced =
      let (empty, flag, count, ended) =
        close_all_lem m.positions now (record m { killed = true }) refl v.keyed v.unique priced in
      (empty, count, ended, rw flag)
