-- ===== src/RiskManager/Positions.antt =====
-- execution/risk_manager.py: what every sequence of signals, prices, closings and kill switches keeps
-- of the open positions.
use cto_test_ai_trading_bot.Prelude.{
  ℕ, ◌≤◌, ◌<◌, ◌≡◌, refl, ◌∙◌, String, none, some, [], ◌∷◌, arith, length, length-push_bounded,
  Option-cases, Bool-cases, inl, inr, All, eq_iff, str_eq,
}
use cto_test_ai_trading_bot.Prelude.Dict.{
  Dict, lookup, insert, erase, length-insert, length-erase-le,
}
use cto_test_ai_trading_bot.Prelude.Number.{Number}
use cto_test_ai_trading_bot.Idempotency.Keys.{IsUnique, erase-IsUnique}
use cto_test_ai_trading_bot.Idempotency.Invariant.{insert-IsUnique}
use cto_test_ai_trading_bot.Position.{
  TradingSignal, Position, StopRules, try_update_price, manage_position, move_breakeven, trail_stop,
  profit_in_atr,
}
use cto_test_ai_trading_bot.RiskManager.{RiskManager, position_key}
use cto_test_ai_trading_bot.RiskManager.Methods.{
  new_position, open_position, close_position, settle, update_prices,
}

module _ {A : Type 0} ⦃num : Number A⦄ where
  -- every position stands under the key of its exchange and symbol
  abbrev pub IsKeyed : Dict (Position A) → Type 0
  IsKeyed = All (λ e. e.0 ≡ position_key (e.1).exchange (e.1).symbol)

  pub record IsValid (m : RiskManager A) : Type 0 where
    pub keyed : IsKeyed m.positions
    pub unique : IsUnique m.positions
    pub few : length m.positions ≤ m.config.max_open
    pub window_positive : 0 < m.config.returns_window
    pub history_bounded : length m.return_history ≤ m.config.returns_window

  insert-IsKeyed :
      (k : String) (p : Position A) (d : Dict (Position A))
      → k ≡ position_key p.exchange p.symbol
      → IsKeyed d
      → IsKeyed (insert k p d)
  unfolding insert
  insert-IsKeyed k p [] e h = (e, tt)
  insert-IsKeyed k p ((j, q) ∷ d) e h = elim (Bool-cases (str_eq j k)) [
    | inl here ↦ rw here (e, h.1)
    | inr there ↦ rw there (h.0, insert-IsKeyed k p d e h.1)
  ]

  erase-IsKeyed : (k : String) (d : Dict (Position A)) → IsKeyed d → IsKeyed (erase k d)
  unfolding erase
  erase-IsKeyed k [] h = tt
  erase-IsKeyed k ((j, q) ∷ d) h = elim (Bool-cases (str_eq j k)) [
    | inl here ↦ rw here (erase-IsKeyed k d h.1)
    | inr there ↦ rw there (h.0, erase-IsKeyed k d h.1)
  ]

  pub lookup-IsKeyed :
      (k : String) (p : Position A) (d : Dict (Position A))
      → IsKeyed d
      → lookup k d ≡ some p
      → k ≡ position_key p.exchange p.symbol
  unfolding lookup
  lookup-IsKeyed k p [] h e = cc
  lookup-IsKeyed k p ((j, q) ∷ d) h e = ground (arith, lookup-IsKeyed k p d h.1, eq_iff j k)

  -- neither a price nor the moving of stops changes what a position is of
  pub place-try_update_price :
      (price : A) (p : Position A)
      → ((try_update_price price p).0.exchange ≡ p.exchange)
        × ((try_update_price price p).0.symbol ≡ p.symbol)
        × ((try_update_price price p).0.entry_price ≡ p.entry_price)
  unfolding try_update_price
  place-try_update_price price p = (ground arith, ground arith, ground arith)

  place-staged :
      (rules : StopRules A) (profit : A) (p : Position A)
      → ((trail_stop rules profit (move_breakeven rules profit p)).exchange ≡ p.exchange)
        × ((trail_stop rules profit (move_breakeven rules profit p)).symbol ≡ p.symbol)
  unfolding trail_stop move_breakeven
  place-staged rules profit p = (ground arith, ground arith)

  place-manage_position :
      (rules : StopRules A) (now : ℕ) (p : Position A)
      → ((manage_position rules now p).0.exchange ≡ p.exchange)
        × ((manage_position rules now p).0.symbol ≡ p.symbol)
  unfolding manage_position
  place-manage_position rules now p =
      let staged = place-staged rules (profit_in_atr p) p in
      (ground (arith, staged), ground (arith, staged))

  settle-IsValid :
      (symbol : String) (p : Position A) (now : ℕ) (m : RiskManager A)
      → IsValid m
      → IsValid (settle symbol p now m)
  unfolding settle
  settle-IsValid symbol p now m v = record {
    keyed = v.keyed;
    unique = v.unique;
    few = v.few;
    window_positive = v.window_positive;
    history_bounded =
        length-push_bounded m.config.returns_window p.pnl_pct m.return_history v.window_positive
          v.history_bounded;
  }

  popped-IsValid :
      (k : String) (m : RiskManager A)
      → IsValid m
      → IsValid (record m { positions = erase k m.positions })
  popped-IsValid k m v = record {
    keyed = erase-IsKeyed k m.positions v.keyed;
    unique = erase-IsUnique k m.positions v.unique;
    few = omega (arith, length-erase-le k m.positions, v.few);
    window_positive = v.window_positive;
    history_bounded = v.history_bounded;
  }

  pub close_position-IsValid :
      (exchange symbol : String) (price : A) (now : ℕ) (m : RiskManager A)
      → IsValid m
      → IsValid (close_position exchange symbol price now m).0
  unfolding close_position
  close_position-IsValid exchange symbol price now m v =
      let key = position_key exchange symbol in
      elim (Option-cases (lookup key m.positions)) [
        | inl missing ↦ rw (close_position, missing) v
        | inr (p, found) ↦ elim (Bool-cases (try_update_price price p).1) [
          | inl raises ↦ rw (close_position, found, raises) (popped-IsValid key m v)
          | inr ends ↦
              rw (close_position, found, ends)
                (settle-IsValid symbol (try_update_price price p).0 now _ (popped-IsValid key m v))
        ]
      ]

  -- a position that is written back under its key
  replaced-IsValid :
      (k : String) (p q : Position A) (m : RiskManager A)
      → IsValid m
      → lookup k m.positions ≡ some p
      → (q.exchange ≡ p.exchange) × (q.symbol ≡ p.symbol)
      → IsValid (record m { positions = insert k q m.positions })
  replaced-IsValid k p q m v found (same_exchange, same_symbol) = record {
    keyed =
        insert-IsKeyed k q m.positions (lookup-IsKeyed k p m.positions v.keyed found ∙ cc) v.keyed;
    unique = insert-IsUnique k q m.positions v.unique;
    few = ground (arith, length-insert k q m.positions);
    window_positive = v.window_positive;
    history_bounded = v.history_bounded;
  }

  pub update_prices-IsValid :
      (exchange symbol : String) (price : A) (now : ℕ) (m : RiskManager A)
      → IsValid m
      → IsValid (update_prices exchange symbol price now m).0
  unfolding update_prices
  update_prices-IsValid exchange symbol price now m v =
      let key = position_key exchange symbol in
      elim (Option-cases (lookup key m.positions)) [
        | inl missing ↦ rw (update_prices, missing) v
        | inr (p, found) ↦
            let p1 = (try_update_price price p).0 in
            let p2 = (manage_position m.config.stop_rules now p1).0 in
            let (e1, s1, _) = place-try_update_price price p in
            let (e2, s2) = place-manage_position m.config.stop_rules now p1 in
            elim (Bool-cases (try_update_price price p).1) [
              | inl raises ↦
                  rw (update_prices, found, raises) (replaced-IsValid key p p1 m v found (e1, s1))
              | inr ends ↦
                  rw (update_prices, found, ends)
                    (replaced-IsValid key p p2 m v found (e2 ∙ e1, s2 ∙ s1))
            ]
      ]

  place-new_position :
      (s : TradingSignal A) (size : A) (now : ℕ) (m : RiskManager A)
      → ((new_position s size now m).exchange ≡ s.exchange)
        × ((new_position s size now m).symbol ≡ s.symbol)
  unfolding new_position
  place-new_position s size now m = (refl, refl)

  pub open_position-IsValid :
      (s : TradingSignal A) (size : A) (now : ℕ) (m : RiskManager A)
      → IsValid m
      → lookup (position_key s.exchange s.symbol) m.positions ≡ none
      → length m.positions < m.config.max_open
      → IsValid (open_position s size now m)
  unfolding open_position
  open_position-IsValid s size now m v free room =
      let key = position_key s.exchange s.symbol in
      let p = new_position s size now m in
      let (e, t) = place-new_position s size now m in
      record {
        keyed = insert-IsKeyed key p m.positions (cc) v.keyed;
        unique = insert-IsUnique key p m.positions v.unique;
        few = ground (arith, length-insert key p m.positions);
        window_positive = v.window_positive;
        history_bounded = v.history_bounded;
      }
