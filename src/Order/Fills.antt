-- ===== src/Order/Fills.antt =====
-- execution/order_manager.py: what `Order.update_fill` leaves, on both of its branches.
use cto_test_ai_trading_bot.Prelude.{
  ℕ, ◌+◌, ◌≡◌, arith, if◌then◌else◌, length, length-append, [], ◌∷◌, Bool-cases, inl, inr,
}
use cto_test_ai_trading_bot.Prelude.Number.{
  Number, IsOrdered, IsLe, zero_num, ◌⊕◌, ◌⊖◌, ◌≼◌, le-larger_left, le-larger_right,
}
use cto_test_ai_trading_bot.Order.{
  Order, filled, partially_filled, update_fill, complete_fill, partial_fill,
}

module _ {A : Type 0} ⦃num : Number A⦄ (ord : IsOrdered num) where
  -- A fill makes the order FILLED exactly when the quantity filled so far reaches the quantity of
  -- the order, and PARTIALLY_FILLED otherwise; the remaining quantity is not negative and not less
  -- than what is open; one lifecycle stage is added.
  pub update_fill_lem :
      (qty price : A) (now : ℕ) (o : Order A)
      → let o' = update_fill qty price now o in
        (o'.filled_quantity ≡ o.filled_quantity ⊕ qty)
        × (o'.status ≡ (if o.quantity ≼ o'.filled_quantity then filled else partially_filled))
        × IsLe zero_num o'.remaining_quantity
        × IsLe (o.quantity ⊖ o'.filled_quantity) o'.remaining_quantity
        × (length o'.stages ≡ length o.stages + 1)
  unfolding update_fill
  update_fill_lem qty price now o =
      let done = o.filled_quantity ⊕ qty in
      elim (Bool-cases (o.quantity ≼ done)) [
        | inl full ↦ (
          ground arith,
          ground arith,
          rw full (le-larger_left ord zero_num (o.quantity ⊖ done)),
          rw full (le-larger_right ord zero_num (o.quantity ⊖ done)),
          rw full (length-append o.stages (record { stage = complete_fill; timestamp = now } ∷ [])),
        )
        | inr part ↦ (
          ground arith,
          ground arith,
          rw part (le-larger_left ord zero_num (o.quantity ⊖ done)),
          rw part (le-larger_right ord zero_num (o.quantity ⊖ done)),
          rw part (length-append o.stages (record { stage = partial_fill; timestamp = now } ∷ [])),
        )
      ]
