-- ===== src/OrderRoutes/Batch.antt =====
-- interface/routes/orders.py: `create_batch_orders` is not all or nothing.
use cto_test_ai_trading_bot.Prelude.{
  ℕ, ◌≡◌, refl, ap, Option, none, List, [], ◌∷◌, ◌++◌, ◌⊎◌, inl, inr, arith, Option-cases,
  Bool-cases, some,
}
use cto_test_ai_trading_bot.Prelude.Number.{Number}
use cto_test_ai_trading_bot.OrderManager.{OrderManager}
use cto_test_ai_trading_bot.OrderManager.Methods.{place_order}
use cto_test_ai_trading_bot.Http.{ok, http_error, threw, internal_error, as_internal, require}
use cto_test_ai_trading_bot.OrderRoutes.{
  because, require_order_manager, to_response, OrderRequest, OrderResponse, Outside, Response,
  Detail,
}
use cto_test_ai_trading_bot.OrderRoutes.Changes.{
  create_with, answer, order_of, to_call, create_order, create_each, create_batch_orders,
}

module _ {A : Type 0} ⦃num : Number A⦄ where
  -- The requests are placed one after the other, each of them with success.
  pub data Created
      : List (OrderRequest A × Outside A)
        → List (OrderResponse A)
        → Option (OrderManager A)
        → Option (OrderManager A)
        → Type 0 where
    done : {manager : Option (OrderManager A)} → Created [] [] manager manager
    next :
        {r : OrderRequest A} {out : Outside A} {rest : List (OrderRequest A × Outside A)}
        {b : OrderResponse A} {bs : List (OrderResponse A)}
        {manager manager1 manager2 : Option (OrderManager A)}
        → create_order r none out manager ≡ (manager1, ok b)
        → Created rest bs manager1 manager2
        → Created ((r, out) ∷ rest) (b ∷ bs) manager manager2

  -- how a loop over the requests ends, with the error as `wrap` passes it on
  abbrev Outcome :
      ((code : ℕ) → Detail → Response (List (OrderResponse A)))
      → List (OrderRequest A × Outside A)
      → Option (OrderManager A)
      → Option (OrderManager A) × Response (List (OrderResponse A))
      → Type 0
  Outcome wrap orders manager result =
      ((results : List (OrderResponse A)) × (manager' : Option (OrderManager A)) × Created orders
          results manager manager'
        × (result ≡ (manager', ok results)))
      ⊎ ((before : List (OrderRequest A × Outside A)) × (failed : OrderRequest A × Outside A)
          × (after : List (OrderRequest A × Outside A)) × (results : List (OrderResponse A))
          × (manager1 : Option (OrderManager A)) × (manager2 : Option (OrderManager A)) × (code : ℕ)
          × (detail : Detail) × (orders ≡ before ++ failed ∷ after)
          × Created before results manager manager1
          × (create_order failed.0 none failed.1 manager1 ≡ (manager2, http_error code detail))
          × (result ≡ (manager2, wrap code detail)))

  -- the answer of a batch: a 500 with the detail "code: detail" after a failure
  abbrev pub IsBatch :
      List (OrderRequest A × Outside A)
      → Option (OrderManager A)
      → Option (OrderManager A) × Response (List (OrderResponse A))
      → Type 0
  IsBatch = Outcome (λ code detail. internal_error (code ∷ []) detail)

  -- `create_order` succeeds or raises an HTTPException
  create_order_answer :
      (r : OrderRequest A) (out : Outside A) (manager : Option (OrderManager A))
      → ((b : OrderResponse A) × ((create_order r none out manager).1 ≡ ok b))
        ⊎ ((code : ℕ) × (detail : Detail) × ((create_order r none out manager).1
              ≡ http_error code detail))
  unfolding create_order create_with answer require_order_manager require
  create_order_answer r out none = inr (_, _, refl)
  create_order_answer r out (some m) =
      let reply = (place_order (to_call r none out) m).1 in
      let m' = (place_order (to_call r none out) m).0 in
      elim (Option-cases (order_of m' reply)) [
        | inl missing ↦ inr (400, because reply.reason, rw missing refl)
        | inr (o, found) ↦ elim (Bool-cases reply.success) [
          | inl placed ↦ inl (to_response o, rw (found, placed) refl)
          | inr failed ↦ inr (400, because reply.reason, rw (found, failed) refl)
        ]
      ]

  no_other :
      (r : OrderRequest A) (out : Outside A) (manager : Option (OrderManager A)) (detail : Detail)
      (codes : List ℕ)
      → ¬ (
          ((create_order r none out manager).1 ≡ threw detail)
          ⊎ ((create_order r none out manager).1 ≡ internal_error codes detail))
  no_other r out manager detail codes other = elim (create_order_answer r out manager) [
    | inl (b, fine) ↦ elim other [
      | inl e ↦ ground (arith, e, fine)
      | inr e ↦ ground (arith, e, fine)
    ]
    | inr (code, why, fails) ↦ elim other [
      | inl e ↦ ground (arith, e, fails)
      | inr e ↦ ground (arith, e, fails)
    ]
  ]

  create_each_step :
      (r : OrderRequest A) (out : Outside A) (rest : List (OrderRequest A × Outside A))
      (manager : Option (OrderManager A))
      (first : Option (OrderManager A) × Response (OrderResponse A))
      → create_order r none out manager ≡ first
      → Outcome http_error rest first.0 (create_each rest first.0)
      → Outcome http_error ((r, out) ∷ rest) manager (create_each ((r, out) ∷ rest) manager)
  unfolding create_each
  create_each_step r out rest manager (manager1, threw detail) e later =
      absurd (no_other r out manager detail [] (inl (ap (λ x. x.1) e)))
  create_each_step r out rest manager (manager1, internal_error codes detail) e later =
      absurd (no_other r out manager detail codes (inr (ap (λ x. x.1) e)))
  create_each_step r out rest manager (manager1, http_error code detail) e later =
      inr
        ([], (r, out), rest, [], manager, manager1, code, detail, refl, done, e, ground (arith, e))
  create_each_step r out rest manager (manager1, ok b) e (inl (results, manager', created, same)) =
      inl (b ∷ results, manager', next e created, ground (arith, e, same))
  create_each_step r out rest manager (manager1, ok b) e
        (inr (before, failed, after, results, m1, m2, code, detail, split, created, fails, same)) =
      inr (
        (r, out) ∷ before,
        failed,
        after,
        b ∷ results,
        m1,
        m2,
        code,
        detail,
        ap (◌∷◌ (r, out)) split,
        next e created,
        fails,
        ground (arith, e, same),
      )

  create_each_outcome :
      (orders : List (OrderRequest A × Outside A)) (manager : Option (OrderManager A))
      → Outcome http_error orders manager (create_each orders manager)
  unfolding create_each
  create_each_outcome [] manager = inl ([], manager, done, refl)
  create_each_outcome ((r, out) ∷ rest) manager =
      create_each_step r out rest manager (create_order r none out manager) refl
        (create_each_outcome rest (create_order r none out manager).0)

  -- Either every order of the batch was created, one after the other, and the responses are listed;
  -- or the orders before the first failure were created and stay with the manager, no later one was
  -- tried, and the response is a 500, whatever the code of the failure was, with the code and the detail
  -- of the failure as its detail.
  pub create_batch_orders_lem :
      (orders : List (OrderRequest A × Outside A)) (manager : Option (OrderManager A))
      → IsBatch orders manager (create_batch_orders orders manager)
  unfolding create_batch_orders as_internal
  create_batch_orders_lem orders manager = elim (create_each_outcome orders manager) [
    | inl (results, manager', created, same) ↦
        inl (results, manager', created, ap (λ x. (x.0, as_internal x.1)) same)
    | inr (before, failed, after, results, m1, m2, code, detail, split, created, fails, same) ↦
        inr (
          before,
          failed,
          after,
          results,
          m1,
          m2,
          code,
          detail,
          split,
          created,
          fails,
          ap (λ x. (x.0, as_internal x.1)) same,
        )
  ]
