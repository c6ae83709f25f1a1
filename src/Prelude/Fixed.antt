-- ===== src/Prelude/Fixed.antt =====
-- Numbers with eight decimals, as an instance of the interface: products and quotients round
-- towards zero. The examples run on them.
use Prim.Native.Nat.{ℕ, ◌+◌, ◌*◌, ◌/◌}
use native.Mathlib.Omega.{arith}
use cto_test_ai_trading_bot.Prelude.Int.{ℤ, pos, pos_part, neg_part, sub_ℕ, ltb_ℤ, ◌+ℤ◌, ◌-ℤ◌}
use cto_test_ai_trading_bot.Prelude.Number.{Number, IsOrdered}

abbrev pub scale : ℕ
scale = 100_000_000

unfoldable pub fixed_times : ℤ → ℤ → ℤ
fixed_times a b =
    sub_ℕ ((pos_part a * pos_part b + neg_part a * neg_part b) / scale)
      ((pos_part a * neg_part b + neg_part a * pos_part b) / scale)

unfoldable pub fixed_over : ℤ → ℤ → ℤ
fixed_over a b =
    sub_ℕ (pos_part a * scale / pos_part b + neg_part a * scale / neg_part b)
      (pos_part a * scale / neg_part b + neg_part a * scale / pos_part b)

instance abbrev pub fixed : Number ℤ
fixed = record {
  plus = ◌+ℤ◌;
  minus = ◌-ℤ◌;
  times = fixed_times;
  over = fixed_over;
  less = ltb_ℤ;
  of_ratio = λ n d. pos (n * scale / d);
}

pub fixed-IsOrdered : IsOrdered fixed
fixed-IsOrdered = record {
  lt_irrefl = λ a. ground arith;
  lt_asymm = λ a b h. ground arith;
  le_trans = λ a b c p q. ground arith;
}
