-- ===== src/Config/Tests.antt =====
-- core/config.py: runs of the configuration, and its theorems at concrete inputs.
use cto_test_ai_trading_bot.Prelude.{
  ◌≡◌, refl, true, false, Option, none, some, [], ◌∷◌, arith, if◌then◌else◌, eq_iff,
}
use cto_test_ai_trading_bot.Prelude.Int.{ℤ}
use cto_test_ai_trading_bot.Prelude.Fixed.{fixed}
use cto_test_ai_trading_bot.Prelude.Text.{codes, same_codes}
use cto_test_ai_trading_bot.Config.{
  Text, Value, Entries, flag, text, table, end, entry, until_brace, split_colon, split_dash,
  replace, substitute, interpolate_text, find, put, section, get_value, paper_mode, set_paper_mode,
}
use cto_test_ai_trading_bot.Config.Interpolation.{Expands, interpolate_text-Expands}
use cto_test_ai_trading_bot.Config.Sections.{paper_mode-set_paper_mode}

program : Unit {0}
unfolding codes same_codes until_brace split_colon split_dash replace substitute interpolate_text
    find put section get_value
program = tt

-- one variable is set
abbrev env : Text → Option Text
env name = if same_codes name (codes "HOST") then some (codes "db1") else none

expanded :
    interpolate_text env (codes "$x ${HOST}:${PORT:-5432}/${} ${A-b}${C}")
    ≡ codes "$x db1:5432/${} b"
unfolding program
expanded = refl

interpolate_text-Expands_example :
    Expands env
      (codes "redis://${HOST}/${DB:-0}")
      (interpolate_text env (codes "redis://${HOST}/${DB:-0}"))
interpolate_text-Expands_example = interpolate_text-Expands env (codes "redis://${HOST}/${DB:-0}")

abbrev settings : Entries ℤ
settings =
    entry "system" (table (entry "log_level" (text (codes "INFO")) end)) (
      entry "exchanges" (table (entry "binance" (table (entry "enabled" (flag true) end)) end)) end)

paper_mode-set_paper_mode_case :
    (c' : Value ℤ) × (set_paper_mode false (table settings) ≡ some c')
    × (paper_mode c' ≡ some false)
    × (section ("exchanges" ∷ "binance" ∷ []) c'
        ≡ section ("exchanges" ∷ "binance" ∷ []) (table settings))
unfolding program
paper_mode-set_paper_mode_case =
    paper_mode-set_paper_mode false settings "exchanges" ("binance" ∷ []) refl
      (λ same. ground (arith, eq_iff "exchanges" "system"))
