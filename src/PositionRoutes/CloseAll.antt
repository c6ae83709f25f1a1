-- ===== src/PositionRoutes/CloseAll.antt =====
-- interface/routes/positions.py: closing the positions through the API.
use cto_test_ai_trading_bot.Prelude.{
  ℕ, ◌+◌, ◌≡◌, refl, ap, ◌∙◌, none, some, [], ◌∷◌, map, foldl, arith, length,
}
use cto_test_ai_trading_bot.Prelude.Dict.{Dict, values}
use cto_test_ai_trading_bot.Prelude.Number.{Number, ◌⊕◌, zero_num, total}
use cto_test_ai_trading_bot.Idempotency.Keys.{IsUnique}
use cto_test_ai_trading_bot.Position.{Position, try_update_price}
use cto_test_ai_trading_bot.RiskManager.{RiskManager}
use cto_test_ai_trading_bot.RiskManager.Methods.{close_position}
use cto_test_ai_trading_bot.RiskManager.Positions.{IsValid, IsKeyed}
use cto_test_ai_trading_bot.RiskManager.KillSwitch.{IsPriced, close_first}
use cto_test_ai_trading_bot.Http.{ok, as_internal, require, narrow}
use cto_test_ai_trading_bot.PositionRoutes.{count_closed, close_each, close_all_positions}

module _ {A : Type 0} ⦃num : Number A⦄ where
  -- the result of a position that is closed at its current price
  abbrev pub result_of : Position A → A
  result_of p = (try_update_price p.current_price p).0.pnl

  close_each_lem :
      (d : Dict (Position A)) (now : ℕ) (m : RiskManager A) (sum : A) (n : ℕ)
      → m.positions ≡ d
      → IsKeyed d
      → IsUnique d
      → IsPriced d
      → let (m', reply) = close_each now (values d) m sum n in
        (m'.positions ≡ [])
        × (reply ≡ ok (n + length d, foldl num.plus sum (map result_of (values d))))
  unfolding close_each
  close_each_lem [] now m sum n e keyed unique priced = (e, ap (λ k. ok (k, sum)) (omega arith))
  close_each_lem ((k, p) ∷ d) now m sum n e keyed unique priced =
      let m' = (close_position p.exchange p.symbol p.current_price now m).0 in
      let (rest, flag, closing) =
        close_first k p d p.current_price now m e keyed.0 unique.0 priced.0 in
      let (empty, reply) =
        close_each_lem d now m' (sum ⊕ result_of p) (n + 1) rest keyed.1 unique.1 priced.1 in
      let shift : n + 1 + length d ≡ n + length ((k, p) ∷ d) = omega arith in
      rw (closing, count_closed)
        (
          empty,
          reply
              ∙ ap (λ j. ok (j, foldl num.plus (sum ⊕ result_of p) (map result_of (values d))))
                  shift,
        )

  -- Without a venue the handler closes every position of a valid manager whose positions have entry
  -- prices: none is left, and the response has the number of those that were open and the sum of
  -- their results at their current prices.
  pub close_all_positions_lem :
      (now : ℕ) (m : RiskManager A)
      → IsValid m
      → IsPriced m.positions
      → (m' : RiskManager A) × (close_all_positions none now (some m)
          ≡ (some m', ok (length m.positions, total (map result_of (values m.positions)))))
        × (m'.positions ≡ [])
  unfolding close_all_positions require as_internal narrow total
  close_all_positions_lem now m v priced =
      let (empty, reply) =
        close_each_lem m.positions now m zero_num 0 refl v.keyed v.unique priced in
      let m' = (close_each now (values m.positions) m zero_num 0).0 in
      let all : 0 + length m.positions ≡ length m.positions = omega arith in
      (
        m',
        ap (λ r. (some m', as_internal r)) reply
            ∙ ap (λ k. (some m', ok (k, total (map result_of (values m.positions))))) all,
        empty,
      )
