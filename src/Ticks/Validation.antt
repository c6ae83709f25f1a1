-- ===== src/Ticks/Validation.antt =====
-- data_ingestion/validators.py: which ticks `TickValidator` accepts.
use cto_test_ai_trading_bot.Prelude.{
  ℕ, ◌≡◌, refl, ap, ◌∙◌, String, false, some, Option, Bool, ◌&&◌, if◌then◌else◌, str_eq, List, [],
  ◌∷◌, map, arith, All,
}
use cto_test_ai_trading_bot.Prelude.Dict.{lookup, lookup-insert}
use cto_test_ai_trading_bot.Prelude.Number.{Number, IsLt, ◌⊖◌, ◌⊘◌, ratio, zero_num, absolute}
use cto_test_ai_trading_bot.Ticks.{
  Tick, TickValidator, tick_key, is_suspicious, validate_tick, validate_ticks,
}

module _ {A : Type 0} ⦃num : Number A⦄ where
  -- the price has moved by more than a tenth from the last one
  abbrev pub IsJump : A → A → Type 0
  IsJump last price = IsLt (ratio 10 100) (absolute (price ⊖ last) ⊘ last)

  validate_tick-IsJump :
      (last : A) (t : Tick A) (now : ℕ) (v : TickValidator A)
      → lookup (tick_key t) v.last_prices ≡ some last
      → IsLt zero_num last
      → IsJump last t.price
      → validate_tick t now v ≡ (v, false)
  unfolding validate_tick is_suspicious
  validate_tick-IsJump last t now v found p jump = ground arith

  -- the price of the last tick of a key that was accepted, for the answers to the ticks
  abbrev pub last_accepted : String → List (Tick A × ℕ) → List Bool → Option A → Option A
  last_accepted key [] answers before = before
  last_accepted key (e ∷ es) [] before = before
  last_accepted key (e ∷ es) (b ∷ answers) before =
      last_accepted key es answers
        (if b && str_eq (tick_key e.0) key then some (e.0).price else before)

  validate_tick-last :
      (key : String) (t : Tick A) (now : ℕ) (v : TickValidator A)
      → lookup key (validate_tick t now v).0.last_prices ≡ (
          if (validate_tick t now v).1 && str_eq (tick_key t) key
          then some t.price
          else lookup key v.last_prices)
  unfolding validate_tick
  validate_tick-last key t now v =
      ground (arith, lookup-insert (tick_key t) key t.price v.last_prices)

  validate_ticks-last :
      (key : String) (es : List (Tick A × ℕ)) (v : TickValidator A)
      → let (v', answers) = validate_ticks es v in
        lookup key v'.last_prices ≡ last_accepted key es answers (lookup key v.last_prices)
  unfolding validate_ticks
  validate_ticks-last key [] v = refl
  validate_ticks-last key (e ∷ es) v =
      let v' = (validate_tick e.0 e.1 v).0 in
      validate_ticks-last key es v'
      ∙ ap (last_accepted key es (validate_ticks es v').1) (validate_tick-last key e.0 e.1 v)

  jumps_rejected :
      (key : String) (last : A) (es : List (Tick A × ℕ)) (v : TickValidator A)
      → lookup key v.last_prices ≡ some last
      → IsLt zero_num last
      → All (λ e. (tick_key e.0 ≡ key) × IsJump last e.0.price) es
      → validate_ticks es v ≡ (v, map (λ e. false) es)
  unfolding validate_ticks
  jumps_rejected key last [] v found p h = refl
  jumps_rejected key last (e ∷ es) v found p h =
      let rejected : validate_tick e.0 e.1 v ≡ (v, false) =
        validate_tick-IsJump last e.0 e.1 v (ap (λ k. lookup k v.last_prices) h.0.0 ∙ found) p
          h.0.1 in
      let rest = jumps_rejected key last es v found p h.1 in rw (rejected, rest)

  -- After any ticks, of any symbols, the price that the validator compares with is that of the last tick
  -- of the symbol that it accepted (or the one that it started with, if it accepted none): rejected ticks
  -- do not set it. If this price is positive and then only ticks of the symbol come that are more than a
  -- tenth away from it, every one of them is rejected, however many come and however much time passes,
  -- and the validator does not change.
  pub validate_ticks_stuck :
      (key : String) (last : A) (before later : List (Tick A × ℕ)) (v : TickValidator A)
      → last_accepted key before (validate_ticks before v).1 (lookup key v.last_prices) ≡ some last
      → IsLt zero_num last
      → All (λ e. (tick_key e.0 ≡ key) × IsJump last e.0.price) later
      → let v' = (validate_ticks before v).0 in
        (lookup key v'.last_prices ≡ some last)
        × (validate_ticks later v' ≡ (v', map (λ e. false) later))
  validate_ticks_stuck key last before later v accepted positive far =
      let found = validate_ticks-last key before v ∙ accepted in
      (found, jumps_rejected key last later (validate_ticks before v).0 found positive far)
