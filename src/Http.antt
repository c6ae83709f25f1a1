-- ===== src/Http.antt =====
-- interface/routes: what the handlers of the web API share: responses and their errors (HTTPException),
-- the filters on query parameters, and the tables that count by a text. `D` is the type of the details
-- of the errors.
pub mod Tally
use cto_test_ai_trading_bot.Prelude.{
  ℕ, String, Bool, Option, none, some, List, [], ◌∷◌, if◌then◌else◌, keep, str_eq,
}
use cto_test_ai_trading_bot.Prelude.Dict.{Dict, get_or, insert}
use cto_test_ai_trading_bot.Prelude.Number.{Number, ◌⊕◌, zero_num}

pub data Response (D B : Type 0) : Type 0 where
  ok : B → Response D B
  -- an HTTPException
  http_error : (code : ℕ) → D → Response D B
  -- another exception, by its text
  threw : D → Response D B
  -- the 500 that a handler makes of an exception `e`, with the detail `str(e)`: that is the text of the
  -- detail, behind "code: " for each HTTPException that it went through
  internal_error : List ℕ → D → Response D B

-- `except Exception as e: raise HTTPException(500, detail=str(e))`, without a clause for HTTPException
unfoldable pub as_internal : {D B : Type 0} → Response D B → Response D B
as_internal (ok b) = ok b
as_internal (http_error code detail) = internal_error (code ∷ []) detail
as_internal (threw detail) = internal_error [] detail
as_internal (internal_error codes detail) = internal_error (500 ∷ codes) detail

-- `_require_order_manager` and `_require_risk_manager`, before what the handler does with the manager
unfoldable pub require :
    {M D B : Type 0} → D → (M → M × Response D B) → Option M → Option M × Response D B
require unavailable handle none = (none, http_error 503 unavailable)
require unavailable handle (some m) = (some (handle m).0, (handle m).1)

-- `if value: xs = [x for x in xs if …]`
unfoldable pub narrow {ℓ} : {T : Type ℓ} → Option String → (String → T → Bool) → List T → List T
narrow none p xs = xs
narrow (some v) p xs = if str_eq v "" then xs else keep (p v) xs

-- `next((x for x in xs if p(x)), None)`
unfoldable pub first_where : {T : Type 0} → (T → Bool) → List T → Option T
first_where p [] = none
first_where p (x ∷ xs) = if p x then some x else first_where p xs

-- `for x in xs: d[key(x)] = d.get(key(x), 0.0) + amount(x)`
unfoldable pub tally :
    {A T : Type 0} ⦃num : Number A⦄ → (T → String) → (T → A) → List T → Dict A → Dict A
tally key amount [] d = d
tally key amount (x ∷ xs) d =
    tally key amount xs (insert (key x) (get_or zero_num (key x) d ⊕ amount x) d)
