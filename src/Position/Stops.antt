-- ===== src/Position/Stops.antt =====
-- execution/risk_manager.py: `manage_position` only tightens the stop of a position.
use cto_test_ai_trading_bot.Prelude.{
  ℕ, ◌*◌, ◌≡◌, refl, sym, ◌∙◌, ltb, leb, List, [], ◌∷◌, inl, inr, Bool, true, false, ◌&&◌, not,
  arith, if◌then◌else◌, Bool-cases,
}
use mathlib.Core.Path.{subst}
use cto_test_ai_trading_bot.Prelude.Number.{Number, IsOrdered, IsLe, ◌⊕◌, ◌⊖◌, ◌⊗◌, ◌≼◌}
use cto_test_ai_trading_bot.Position.{
  Position, StopRules, is_long, move_breakeven, trail_stop, manage_position, profit_in_atr, atr_of,
  hold_seconds, update_price,
}

module _ {A : Type 0} ⦃num : Number A⦄ where
  -- the test for the time-based exit
  abbrev is_time_exit : StopRules A → ℕ → Position A → Bool
  is_time_exit rules now p =
      ltb 0 rules.max_hold_minutes && leb (rules.max_hold_minutes * 60) (hold_seconds now p)

  -- a stop `t` is as tight as `s` for the direction: higher for a long position, lower for a short
  abbrev pub IsTighter : Bool → A → A → Type 0
  IsTighter true s t = IsLe s t
  IsTighter false s t = IsLe t s

  IsTighter-refl : IsOrdered num → (long : Bool) (s : A) → IsTighter long s s
  IsTighter-refl ord true s = ord.lt_irrefl s
  IsTighter-refl ord false s = ord.lt_irrefl s

  IsTighter-trans :
      IsOrdered num
      → (long : Bool) (s t u : A) → IsTighter long s t
      → IsTighter long t u
      → IsTighter long s u
  IsTighter-trans ord true s t u p q = ord.le_trans s t u p q
  IsTighter-trans ord false s t u p q = ord.le_trans u t s q p

  IsTighter-of :
      (long : Bool) (s t : A)
      → (long ≡ true → IsLe s t)
      → (long ≡ false → IsLe t s)
      → IsTighter long s t
  IsTighter-of true s t p q = p refl
  IsTighter-of false s t p q = q refl

  -- Until the stop is moved to the entry price, it lies on the losing side of it.
  pub record IsSound (p : Position A) : Type 0 where
    pub losing_side :
        p.breakeven_moved ≡ false → IsTighter (is_long p.direction) p.stop_loss p.entry_price

  module _ (ord : IsOrdered num) (rules : StopRules A) where
    move_breakeven-IsTighter :
        (profit : A) (p : Position A)
        → IsSound p
        → IsTighter (is_long p.direction) p.stop_loss (move_breakeven rules profit p).stop_loss
    unfolding move_breakeven
    move_breakeven-IsTighter profit p s =
        elim (Bool-cases (not p.breakeven_moved && rules.breakeven_trigger_atr ≼ profit)) [
          | inl moved ↦ rw moved (s.losing_side (ground arith))
          | inr kept ↦ rw kept (IsTighter-refl ord (is_long p.direction) p.stop_loss)
        ]

    trail_stop-IsTighter :
        (profit : A) (p : Position A)
        → IsTighter (is_long p.direction) p.stop_loss (trail_stop rules profit p).stop_loss
    unfolding trail_stop
    trail_stop-IsTighter profit p =
        let trail =
          if is_long p.direction
          then p.highest_since_entry ⊖ (atr_of p ⊗ rules.trailing_distance_atr)
          else p.lowest_since_entry ⊕ (atr_of p ⊗ rules.trailing_distance_atr) in
        IsTighter-of (is_long p.direction) p.stop_loss (trail_stop rules profit p).stop_loss
          (λ long. ground (arith, ord.lt_irrefl p.stop_loss, ord.lt_asymm p.stop_loss trail))
          (λ short. ground (arith, ord.lt_irrefl p.stop_loss, ord.lt_asymm trail p.stop_loss))

    direction-move_breakeven :
        (profit : A) (p : Position A)
        → ((move_breakeven rules profit p).direction ≡ p.direction)
          × ((move_breakeven rules profit p).entry_price ≡ p.entry_price)
    unfolding move_breakeven
    direction-move_breakeven profit p = (ground arith, ground arith)

    direction-trail_stop :
        (profit : A) (p : Position A)
        → ((trail_stop rules profit p).direction ≡ p.direction)
          × ((trail_stop rules profit p).entry_price ≡ p.entry_price)
          × ((trail_stop rules profit p).breakeven_moved ≡ p.breakeven_moved)
    unfolding trail_stop
    direction-trail_stop profit p = (ground arith, ground arith, ground arith)

    staged-IsTighter :
        (profit : A) (p : Position A)
        → IsSound p
        → IsTighter
            (is_long p.direction)
            p.stop_loss
            (trail_stop rules profit (move_breakeven rules profit p)).stop_loss
    staged-IsTighter profit p s =
        let q = move_breakeven rules profit p in
        IsTighter-trans ord (is_long p.direction) p.stop_loss q.stop_loss
          (trail_stop rules profit q).stop_loss (move_breakeven-IsTighter profit p s)
          (subst (λ d. IsTighter (is_long d) q.stop_loss (trail_stop rules profit q).stop_loss)
            (direction-move_breakeven profit p).0 (trail_stop-IsTighter profit q))

    -- One pass of `manage_position` never loosens a sound stop, for either direction.
    pub manage_position-IsTighter :
        (now : ℕ) (p : Position A)
        → IsSound p
        → IsTighter (is_long p.direction) p.stop_loss (manage_position rules now p).0.stop_loss
    unfolding manage_position
    manage_position-IsTighter now p s = elim (Bool-cases (is_time_exit rules now p)) [
      | inl exit ↦ rw exit (IsTighter-refl ord (is_long p.direction) p.stop_loss)
      | inr stay ↦ rw stay (staged-IsTighter (profit_in_atr p) p s)
    ]

    -- below the breakeven trigger nothing moves
    staged_quiet :
        (profit : A) (p : Position A)
        → IsLe rules.breakeven_trigger_atr rules.trailing_activation_atr
        → (trail_stop rules profit (move_breakeven rules profit p)).breakeven_moved ≡ false
        → (trail_stop rules profit (move_breakeven rules profit p) ≡ p)
          × (p.breakeven_moved ≡ false)
    unfolding trail_stop move_breakeven
    staged_quiet profit p early e =
        let reached =
          ord.le_trans rules.breakeven_trigger_atr rules.trailing_activation_atr profit early in
        (ground (arith, reached), ground (arith, reached))

    staged-IsSound :
        (profit : A) (p : Position A)
        → IsLe rules.breakeven_trigger_atr rules.trailing_activation_atr
        → IsSound p
        → IsSound (trail_stop rules profit (move_breakeven rules profit p))
    staged-IsSound profit p early s = record {
      losing_side = λ e.
          let (same, unmoved) = staged_quiet profit p early e in
          subst (λ q. IsTighter (is_long q.direction) q.stop_loss q.entry_price) (sym same)
            (s.losing_side unmoved);
    }

    -- If the breakeven move is triggered no later than the trailing stop, the stop stays sound.
    pub manage_position-IsSound :
        (now : ℕ) (p : Position A)
        → IsLe rules.breakeven_trigger_atr rules.trailing_activation_atr
        → IsSound p
        → IsSound (manage_position rules now p).0
    unfolding manage_position
    manage_position-IsSound now p early s = elim (Bool-cases (is_time_exit rules now p)) [
      | inl exit ↦ rw exit s
      | inr stay ↦ rw stay (staged-IsSound (profit_in_atr p) p early s)
    ]

    -- the ticks of a position, each with its price and its time
    unfoldable pub follow : List (A × ℕ) → Position A → Position A
    follow [] p = p
    follow ((price, now) ∷ ticks) p =
        follow ticks (manage_position rules now (update_price price p)).0

    direction-manage_position :
        (now : ℕ) (p : Position A) → (manage_position rules now p).0.direction ≡ p.direction
    unfolding manage_position
    direction-manage_position now p = elim (Bool-cases (is_time_exit rules now p)) [
      | inl exit ↦ rw exit
      | inr stay ↦ rw stay (
          (direction-trail_stop (profit_in_atr p) (move_breakeven rules (profit_in_atr p) p)).0
          ∙ (direction-move_breakeven (profit_in_atr p) p).0)
    ]

    -- Over any sequence of price ticks the stop of a sound position only tightens, for either
    -- direction, if the breakeven move is triggered no later than the trailing stop.
    pub follow-IsTighter :
        (ticks : List (A × ℕ)) (p : Position A)
        → IsLe rules.breakeven_trigger_atr rules.trailing_activation_atr
        → IsSound p
        → IsTighter (is_long p.direction) p.stop_loss (follow ticks p).stop_loss
    unfolding follow update_price
    follow-IsTighter [] p early s = IsTighter-refl ord (is_long p.direction) p.stop_loss
    follow-IsTighter ((price, now) ∷ ticks) p early s =
        let p' = update_price price p in
        let s' : IsSound p' = record { losing_side = s.losing_side } in
        let q = (manage_position rules now p').0 in
        IsTighter-trans ord (is_long p.direction) p.stop_loss q.stop_loss (follow ticks q).stop_loss
          (manage_position-IsTighter now p' s')
          (subst (λ d. IsTighter (is_long d) q.stop_loss (follow ticks q).stop_loss)
            (direction-manage_position now p')
            (follow-IsTighter ticks q early (manage_position-IsSound now p' early s')))
