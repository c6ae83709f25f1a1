-- ===== src/SignalValidator/Invariant.antt =====
-- engine/signal_validator.py: a paper trade is settled once, and the trades stay consistent.
use cto_test_ai_trading_bot.Prelude.{
  ℕ, ◌≤◌, ◌≡◌, refl, String, Bool, Option, none, some, [], ◌∷◌, arith, Bool-cases, Option-cases,
  inl, inr, str_eq, eq_iff, is_some, length, All, push_bounded, length-push_bounded, not,
}
use cto_test_ai_trading_bot.Prelude.Dict.{Dict, lookup, insert, lookup-insert_self}
use cto_test_ai_trading_bot.Prelude.Number.{Number}
use cto_test_ai_trading_bot.SignalValidator.{
  Signal, SignalValidator, SignalQuality, PnlTracking, opened, is_closed, below, init,
  validate_signal,
}
use cto_test_ai_trading_bot.SignalValidator.Trades.{
  new_trade, start_paper_trade, update_paper_trade, close_paper_trade, settled, pnl_at, direction,
  time_or,
}

module _ {A : Type 0} ⦃num : Number A⦄ where
  -- A trade stands under its id, and has a result, an exit price and an exit time exactly if it is
  -- closed.
  pub record IsSettled (e : String × PnlTracking A) : Type 0 where
    pub keyed : (e.1).signal_id ≡ e.0
    pub result : is_some (e.1).realized_pnl ≡ is_closed (e.1).status
    pub price : is_some (e.1).exit_price ≡ is_closed (e.1).status
    pub time : is_some (e.1).exit_time ≡ is_closed (e.1).status

  pub record IsValid (v : SignalValidator A) : Type 0 where
    pub trades : All IsSettled v.paper_trades
    pub history_bounded : length v.performance_history ≤ 1000

  insert-All :
      (id : String) (t : PnlTracking A) (d : Dict (PnlTracking A))
      → IsSettled (id, t)
      → All IsSettled d
      → All IsSettled (insert id t d)
  unfolding insert
  insert-All id t [] p h = (p, tt)
  insert-All id t ((j, w) ∷ d) p h = elim (Bool-cases (str_eq j id)) [
    | inl same ↦ rw same (p, h.1)
    | inr other ↦ rw other (h.0, insert-All id t d p h.1)
  ]

  lookup-IsSettled :
      (id : String) (t : PnlTracking A) (d : Dict (PnlTracking A))
      → All IsSettled d
      → lookup id d ≡ some t
      → IsSettled (id, t)
  unfolding lookup
  lookup-IsSettled id t [] h e = absurd (cc)
  lookup-IsSettled id t ((j, w) ∷ d) h e = elim (Bool-cases (str_eq j id)) [
    | inl same ↦
        let at : w ≡ t = ground arith in
        let key : j ≡ id = ground (arith, eq_iff j id) in
        record {
          keyed = ground (arith, h.0.keyed);
          result = ground (arith, h.0.result);
          price = ground (arith, h.0.price);
          time = ground (arith, h.0.time);
        }
    | inr other ↦ lookup-IsSettled id t d h.1 (ground arith)
  ]

  validate_signal-IsValid :
      (s : Signal A) (regime : String) (market : Dict A) (v : SignalValidator A)
      → IsValid v
      → IsValid (validate_signal s regime market v).0
  unfolding validate_signal
  validate_signal-IsValid s regime market v h = record {
    trades = h.trades;
    history_bounded = h.history_bounded;
  }

  start_paper_trade-IsValid :
      (s : Signal A) (entry_price quantity : A) (v : SignalValidator A)
      → IsValid v
      → IsValid (start_paper_trade s entry_price quantity v).0
  unfolding start_paper_trade new_trade is_closed
  start_paper_trade-IsValid s entry_price quantity v h = elim (Bool-cases (not s.validated)) [
    | inl bad ↦ rw (start_paper_trade, bad) h
    | inr fine ↦ elim (Bool-cases (below s.quality v.min_quality)) [
      | inl low ↦ rw (start_paper_trade, fine, low) h
      | inr ok ↦
          rw (start_paper_trade, fine, ok)
            (record {
              trades =
                  insert-All s.signal_id (new_trade s entry_price quantity) v.paper_trades
                    (record { keyed = refl; result = refl; price = refl; time = refl }) h.trades;
              history_bounded = h.history_bounded;
            })
    ]
  ]

  update_paper_trade-IsValid :
      (id : String) (price : A) (update : Bool) (v : SignalValidator A)
      → IsValid v
      → IsValid (update_paper_trade id price update v).0
  unfolding update_paper_trade
  update_paper_trade-IsValid id price update v h = elim (Option-cases (lookup id v.paper_trades)) [
    | inl missing ↦ rw (update_paper_trade, missing) h
    | inr (t, found) ↦ elim (Bool-cases (is_closed t.status)) [
      | inl over ↦ rw (update_paper_trade, found, over) h
      | inr running ↦ elim (Bool-cases update) [
        | inl wanted ↦
            let at = lookup-IsSettled id t v.paper_trades h.trades found in
            rw (update_paper_trade, found, running, wanted)
              (record {
                trades =
                    insert-All id (record t { unrealized_pnl = pnl_at price t (direction id v) })
                      v.paper_trades
                      (record {
                        keyed = at.keyed;
                        result = at.result;
                        price = at.price;
                        time = at.time;
                      })
                      h.trades;
                history_bounded = h.history_bounded;
              })
        | inr not_wanted ↦ rw (update_paper_trade, found, running, not_wanted) h
      ]
    ]
  ]

  close_paper_trade-IsValid :
      (id : String) (price : A) (exit_time : Option ℕ) (now : ℕ) (v : SignalValidator A)
      → IsValid v
      → IsValid (close_paper_trade id price exit_time now v).0
  unfolding close_paper_trade settled is_closed
  close_paper_trade-IsValid id price exit_time now v h =
      elim (Option-cases (lookup id v.paper_trades)) [
        | inl missing ↦ rw (close_paper_trade, missing) h
        | inr (t, found) ↦ elim (Bool-cases (is_closed t.status)) [
          | inl over ↦ rw (close_paper_trade, found, over) h
          | inr running ↦
              let at = lookup-IsSettled id t v.paper_trades h.trades found in
              let pnl = pnl_at price t (direction id v) in
              rw (close_paper_trade, found, running)
                (record {
                  trades =
                      insert-All id (settled pnl price (time_or exit_time now) t) v.paper_trades
                        (record { keyed = at.keyed; result = refl; price = refl; time = refl })
                        h.trades;
                  history_bounded =
                      length-push_bounded 1000 pnl v.performance_history (omega arith)
                        h.history_bounded;
                })
        ]
      ]

  -- One call of a method that changes the validator
  pub data Step (v : SignalValidator A) : SignalValidator A → Type 0 where
    validated_by :
        (s : Signal A) (regime : String) (market : Dict A)
        → Step v (validate_signal s regime market v).0
    started : (s : Signal A) (entry quantity : A) → Step v (start_paper_trade s entry quantity v).0
    updated :
        (id : String) (price : A) (update : Bool) → Step v (update_paper_trade id price update v).0
    closed_by :
        (id : String) (price : A) (exit_time : Option ℕ) (now : ℕ)
        → Step v (close_paper_trade id price exit_time now v).0

  pub data Reach (v : SignalValidator A) : SignalValidator A → Type 0 where
    here : Reach v v
    next : {w x : SignalValidator A} → Reach v w → Step w x → Reach v x

  Step-IsValid : {v w : SignalValidator A} → Step v w → IsValid v → IsValid w
  Step-IsValid {v} (validated_by s regime market) h = validate_signal-IsValid s regime market v h
  Step-IsValid {v} (started s entry quantity) h = start_paper_trade-IsValid s entry quantity v h
  Step-IsValid {v} (updated id price update) h = update_paper_trade-IsValid id price update v h
  Step-IsValid {v} (closed_by id price exit_time now) h =
      close_paper_trade-IsValid id price exit_time now v h

  -- Whatever calls are made of a valid validator, every paper trade stands under its signal's id
  -- and has a result, an exit price and an exit time exactly if it is closed, and the history keeps to
  -- 1000 results at most. A validator is valid if it is so before the calls, as a new one is.
  pub paper_calls-IsValid : {v w : SignalValidator A} → IsValid v → Reach v w → IsValid w
  paper_calls-IsValid h here = h
  paper_calls-IsValid h (next r s) = Step-IsValid s (paper_calls-IsValid h r)

  pub init-IsValid : (c : A) (q : SignalQuality) → IsValid (init c q)
  unfolding init
  init-IsValid c q = record { trades = tt; history_bounded = omega arith }

  -- Closing the open paper trade of a signal books the price change times the quantity, with the
  -- sign of the direction, as its result and as the newest entry of the history, and marks it closed;
  -- after that neither closing nor updating it gives a result or changes the validator.
  pub close_paper_trade_lem :
      (id : String) (price price' : A) (exit_time exit_time' : Option ℕ) (now now' : ℕ)
      (update : Bool) (t : PnlTracking A) (v : SignalValidator A)
      → lookup id v.paper_trades ≡ some t
      → t.status ≡ opened
      → let pnl = pnl_at price t (direction id v) in
        let (v', result) = close_paper_trade id price exit_time now v in
        (result ≡ some pnl)
        × (lookup id v'.paper_trades ≡ some (settled pnl price (time_or exit_time now) t))
        × (v'.performance_history ≡ push_bounded 1000 pnl v.performance_history)
        × (close_paper_trade id price' exit_time' now' v' ≡ (v', none))
        × (update_paper_trade id price' update v' ≡ (v', none))
  unfolding close_paper_trade update_paper_trade settled is_closed
  close_paper_trade_lem id price price' exit_time exit_time' now now' update t v found running =
      let pnl = pnl_at price t (direction id v) in
      let stored =
        lookup-insert_self id (settled pnl price (time_or exit_time now) t) v.paper_trades in
      (
        ground arith,
        ground (arith, stored),
        ground arith,
        ground (arith, stored),
        ground (arith, stored),
      )
