-- ===== src/PositionRoutes.antt =====
-- interface/routes/positions.py: the handlers of the positions API, over the risk manager. `whole` is
-- `int(max(1, round(x)))`. A quantity to close is taken and given back, and not used.
pub mod CloseAll
mod Tests
use cto_test_ai_trading_bot.Prelude.{
  ℕ, ◌+◌, String, Option, none, some, List, [], ◌∷◌, map, if◌then◌else◌, length, str_eq,
}
use cto_test_ai_trading_bot.Prelude.Dict.{Dict, lookup, values}
use cto_test_ai_trading_bot.Prelude.Text.{text_ltb}
use cto_test_ai_trading_bot.Prelude.Number.{Number, ◌⊕◌, ◌⊘◌, zero_num, larger, total}
use cto_test_ai_trading_bot.Position.{Position}
use cto_test_ai_trading_bot.RiskManager.{RiskManager, position_key}
use cto_test_ai_trading_bot.RiskManager.Methods.{
  Closing, absent, closed, raised, close_position, portfolio_notional,
}
use cto_test_ai_trading_bot.Http.{threw, internal_error, ok, http_error, narrow, tally}
use cto_test_ai_trading_bot.RiskRoutes.{
  Response, position_not_found, crashed, with_manager, internal, one, exposure,
}

pub record PositionResponse (A : Type 0) : Type 0 where
  pub symbol : String
  pub side : String
  pub quantity : A
  pub avg_price : A
  pub unrealized_pnl : A
  pub leverage : ℕ
  pub venue : String
  pub entry_time : ℕ

pub record PositionSummary (A : Type 0) : Type 0 where
  pub total_positions : ℕ
  pub total_unrealized_pnl : A
  pub total_margin_used : A
  pub open_symbols : List String
  pub by_venue : Dict A

-- what `close_position` answers
pub record ClosedResponse (A : Type 0) : Type 0 where
  pub quantity : Option A
  pub closed_quantity : A
  pub exit_price : A
  pub realized_pnl : A

-- `sorted({…})` of texts: `insert_text` puts a text before the greater ones, unless it is there
unfoldable pub insert_text : String → List String → List String
insert_text t [] = t ∷ []
insert_text t (u ∷ us) =
    if str_eq t u then u ∷ us else if text_ltb t u then t ∷ u ∷ us else u ∷ insert_text t us

unfoldable pub sorted_set : List String → List String
unfolding insert_text
sorted_set [] = []
sorted_set (t ∷ ts) = insert_text t (sorted_set ts)

module _ {A : Type 0} ⦃num : Number A⦄ where
  unfoldable pub to_response : (A → ℕ) → A → Position A → PositionResponse A
  to_response whole leverage p = record {
    symbol = p.symbol;
    side = p.direction;
    quantity = p.size;
    avg_price = p.entry_price;
    unrealized_pnl = p.pnl;
    leverage = whole leverage;
    venue = p.exchange;
    entry_time = p.open_time;
  }

  unfoldable pub get_positions :
      (A → ℕ)
      → Option String
      → Option String
      → Option (RiskManager A)
      → Option (RiskManager A) × Response (List (PositionResponse A))
  unfolding to_response
  get_positions whole venue symbol manager = internal (
      with_manager
        (λ m. (
          m,
          ok (
              map (to_response whole m.config.leverage) (
                narrow symbol (λ s p. str_eq p.symbol s)
                  (narrow venue (λ v p. str_eq p.exchange v) (values m.positions)))),
        ))
        manager)

  unfoldable pub get_position_summary :
      Option (RiskManager A) → Option (RiskManager A) × Response (PositionSummary A)
  unfolding sorted_set
  get_position_summary manager = internal (
      with_manager
        (λ m.
          let positions = values m.positions in
          (
            m,
            ok (record {
              total_positions = length positions;
              total_unrealized_pnl = total (map (λ p. p.pnl) positions);
              total_margin_used = portfolio_notional m ⊘ larger one m.config.leverage;
              open_symbols = sorted_set (map (λ p. p.symbol) positions);
              by_venue = tally (λ p. p.exchange) exposure positions [];
            }),
          ))
        manager)

  unfoldable pub get_position :
      (A → ℕ)
      → String
      → String
      → Option (RiskManager A)
      → Option (RiskManager A) × Response (PositionResponse A)
  unfolding to_response
  get_position whole symbol venue = with_manager λ m. (
    m,
    elim (lookup (position_key venue symbol) m.positions) [
      | none ↦ http_error 404 position_not_found
      | some p ↦ ok (to_response whole m.config.leverage p)
    ],
  )

  unfoldable pub closed_response : Option A → A → Closing A → Response (ClosedResponse A)
  closed_response quantity price absent = http_error 404 position_not_found
  closed_response quantity price (closed p) = ok (record {
    quantity = quantity;
    closed_quantity = p.size;
    exit_price = price;
    realized_pnl = p.pnl;
  })
  closed_response quantity price raised = internal_error [] crashed

  -- `price if price is not None else default`
  abbrev given : A → Option A → A
  given default none = default
  given default (some x) = x

  -- the handler `close_position`, for a price and a quantity that may be missing
  unfoldable pub close_on_request :
      String
      → String
      → Option A
      → Option A
      → ℕ
      → Option (RiskManager A)
      → Option (RiskManager A) × Response (ClosedResponse A)
  unfolding closed_response
  close_on_request symbol venue quantity price now = with_manager λ m.
      elim (lookup (position_key venue symbol) m.positions) [
        | none ↦ (m, http_error 404 position_not_found)
        | some pos ↦
            let close_price = given pos.current_price price in
            let (m', result) = close_position venue symbol close_price now m in
            (m', closed_response quantity close_price result)
      ]

  -- one round of the loop of `close_all_positions`, for what `close_position` returned
  unfoldable pub count_closed :
      Closing A
      → RiskManager A
      → (A → ℕ → RiskManager A × Response (ℕ × A))
      → A
      → ℕ
      → RiskManager A × Response (ℕ × A)
  count_closed absent m continue sum n = continue sum n
  count_closed (closed p) m continue sum n = continue (sum ⊕ p.pnl) (n + 1)
  count_closed raised m continue sum n = (m, threw crashed)

  unfoldable pub close_each :
      ℕ → List (Position A) → RiskManager A → A → ℕ → RiskManager A × Response (ℕ × A)
  unfolding count_closed
  close_each now [] m sum n = (m, ok (n, sum))
  close_each now (p ∷ ps) m sum n =
      let (m', result) = close_position p.exchange p.symbol p.current_price now m in
      count_closed result m' (λ sum' n'. close_each now ps m' sum' n') sum n

  unfoldable pub close_all_positions :
      Option String → ℕ → Option (RiskManager A) → Option (RiskManager A) × Response (ℕ × A)
  unfolding close_each
  close_all_positions venue now manager = internal (
      with_manager
        (λ m.
          close_each now (narrow venue (λ v p. str_eq p.exchange v) (values m.positions)) m zero_num
            0)
        manager)
