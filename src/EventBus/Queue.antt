-- ===== src/EventBus/Queue.antt =====
-- core/event_bus.py: the bus against a first-in-first-out queue with its log of calls, for handlers that
-- publish by `publish_nowait`.
use cto_test_ai_trading_bot.Prelude.{
  ℕ, zero, suc, ◌+◌, ◌≤◌, ◌<◌, ◌≡◌, refl, sym, ap, ◌∙◌, String, Bool, true, Option, none, some,
  List, [], ◌∷◌, ◌++◌, map, arith, leb, length, drop, length-append, Bool-cases, inl, inr,
  if◌then◌else◌,
}
use cto_test_ai_trading_bot.Prelude.Sets.{Eq}
use cto_test_ai_trading_bot.EventBus.Dispatch.{handler_at-over, handler_at-next}
use cto_test_ai_trading_bot.EventBus.{
  EventBus, Action, publishing_nowait, subscribers, put, publish_nowait, act, act_all, dispatch,
  run_once,
}

-- an event for a queue of at most `size` entries
unfoldable offer {ℓ} : {X : Type ℓ} → ℕ → X → List X → List X
offer size x q = if leb size (length q) then q else q ++ x ∷ []

unfoldable offer_all {ℓ} : {X : Type ℓ} → ℕ → List X → List X → List X
offer_all size [] q = q
offer_all size (x ∷ xs) q = offer_all size xs (offer size x q)

module _ {X : Type 0} where
  offer_all-append :
      (size : ℕ) (xs ys q : List X)
      → offer_all size (xs ++ ys) q ≡ offer_all size ys (offer_all size xs q)
  unfolding offer_all
  offer_all-append size [] ys q = refl
  offer_all-append size (x ∷ xs) ys q = offer_all-append size xs ys (offer size x q)

  length-offer_all :
      (size : ℕ) (xs q : List X) → length q ≤ size → length (offer_all size xs q) ≤ size
  unfolding offer_all offer
  length-offer_all size [] q h = h
  length-offer_all size (x ∷ xs) q h =
      length-offer_all size xs (offer size x q) (ground (arith, length-append q (x ∷ [])))

-- an event from outside, or a round of `run`
pub data Call (P : Type 0) : Type 0 where
  offering : String → P → Call P
  serving : Call P

module _ {H P : Type 0} where
  -- the handlers that were called for an event, each with the event
  abbrev pub logged : String × P → List H → List (H × String × P)
  logged x = map (λ h. (h, x.0, x.1))

  module _ (posts : H → P → List (String × P)) where
    -- what the handlers publish for a payload, one after the other
    abbrev pub posts_of : P → List H → List (String × P)
    posts_of p [] = []
    posts_of p (h ∷ hs) = posts h p ++ posts_of p hs

    module _ (size : ℕ) (subs : String → List H) where
      -- The queue alone: an event from outside joins it at the end if there is room; a round takes the
      -- first event, calls its subscribers in turn, and what they publish joins at the end.
      unfoldable pub step : Call P → List (String × P) → List (String × P) × List (H × String × P)
      unfolding offer offer_all
      step (offering e p) q = (offer size (e, p) q, [])
      step serving [] = ([], [])
      step serving (x ∷ q) = (offer_all size (posts_of x.1 (subs x.0)) q, logged x (subs x.0))

      unfoldable pub replay :
          List (Call P) → List (String × P) → List (String × P) × List (H × String × P)
      unfolding step
      replay [] q = (q, [])
      replay (c ∷ cs) q =
          let (q', log) = step c q in let (q'', later) = replay cs q' in (q'', log ++ later)

      length-step :
          (c : Call P) (q : List (String × P)) → length q ≤ size → length (step c q).0 ≤ size
      unfolding step offer
      length-step (offering e p) q h = ground (arith, length-append q ((e, p) ∷ []))
      length-step serving [] h = h
      length-step serving (x ∷ q) h =
          length-offer_all size (posts_of x.1 (subs x.0)) q (omega (arith, h))

      length-replay :
          (cs : List (Call P)) (q : List (String × P))
          → length q ≤ size
          → length (replay cs q).0 ≤ size
      unfolding replay
      length-replay [] q h = h
      length-replay (c ∷ cs) q h = length-replay cs (step c q).0 (length-step c q h)

module _ {H P : Type 0} ⦃eq : Eq H⦄ (posts : H → P → List (String × P)) where
  -- each handler publishes its events by `publish_nowait`, and does nothing else to the bus
  abbrev pub script : H → P → List (Action H P)
  script h p = map (λ x. publishing_nowait x.0 x.1) (posts h p)

  publish_nowait-offer :
      (e : String) (p : P) (b : EventBus H P)
      → publish_nowait e p b ≡ record b { queue = offer b.maxsize (e, p) b.queue }
  unfolding publish_nowait put offer
  publish_nowait-offer e p b = elim (Bool-cases (leb b.maxsize (length b.queue))) [
    | inl full ↦ rw (publish_nowait, put, offer, full) refl
    | inr room ↦ rw (publish_nowait, put, offer, room) refl
  ]

  act_all-offer_all :
      (es : List (String × P)) (b : EventBus H P)
      → act_all (map (λ x. publishing_nowait x.0 x.1) es) b
        ≡ (record b { queue = offer_all b.maxsize es b.queue }, true)
  unfolding act_all act offer_all
  act_all-offer_all [] b = refl
  act_all-offer_all (x ∷ es) b =
      rw (publish_nowait-offer x.0 x.1 b)
        (act_all-offer_all es (record b { queue = offer b.maxsize x b.queue }))

  dispatch-offer_all :
      (fuel : ℕ) (e : String) (p : P) (i : ℕ) (b : EventBus H P) (later : List H)
      → drop i (subscribers e b) ≡ later
      → length later < fuel
      → dispatch script fuel e p i b
        ≡ (record b { queue = offer_all b.maxsize (posts_of posts p later) b.queue }, later, true)
  unfolding dispatch offer_all
  dispatch-offer_all zero e p i b later d k = absurd (omega arith)
  dispatch-offer_all (suc fuel) e p i b [] d k =
      rw (dispatch, handler_at-over i (subscribers e b) d) refl
  dispatch-offer_all (suc fuel) e p i b (h ∷ later) d k =
      let (next, rest) = handler_at-next i (subscribers e b) h later d in
      let acted = act_all-offer_all (posts h p) b in
      let b' = record b { queue = offer_all b.maxsize (posts h p) b.queue } in
      let moved : drop (i + 1) (subscribers e b') ≡ later =
        ap (λ n. drop n (subscribers e b)) {y = suc i} (omega arith) ∙ rest in
      let called = dispatch-offer_all fuel e p (i + 1) b' later moved (omega arith) in
      rw (dispatch, next, acted, called)
        (ap (λ q. (record b { queue = q }, h ∷ later, true))
          (sym (offer_all-append b.maxsize (posts h p) (posts_of posts p later) b.queue)))

  module _ (fuel : ℕ) where
    -- the calls that a round made
    abbrev calls_of : List (String × P) → Option (List H × Bool) → List (H × String × P)
    calls_of [] r = []
    calls_of (x ∷ q) none = []
    calls_of (x ∷ q) (some (hs, ended)) = logged x hs

    unfoldable pub perform : Call P → EventBus H P → EventBus H P × List (H × String × P)
    perform (offering e p) b = (publish_nowait e p b, [])
    perform serving b = let (b', round) = run_once script fuel b in (b', calls_of b.queue round)

    unfoldable pub run : List (Call P) → EventBus H P → EventBus H P × List (H × String × P)
    unfolding perform
    run [] b = (b, [])
    run (c ∷ cs) b =
        let (b', log) = perform c b in let (b'', later) = run cs b' in (b'', log ++ later)

    perform-serving :
        (q : List (String × P)) (b : EventBus H P)
        → ((e : String) → length (subscribers e b) < fuel)
        → b.queue ≡ q
        → perform serving b ≡ (
          record b { queue = (step posts b.maxsize (λ e. subscribers e b) serving q).0 },
          (step posts b.maxsize (λ e. subscribers e b) serving q).1,
        )
    unfolding perform step run_once
    perform-serving [] b k e = rw (run_once, e) (ap (λ q. (record b { queue = q }, [])) e)
    perform-serving (x ∷ q) b k e =
        rw
          (
            run_once,
            e,
            dispatch-offer_all fuel x.0 x.1 0 (record b { queue = q }) (subscribers x.0 b) refl
                (k x.0),
          )
          refl

    perform-step :
        (c : Call P) (b : EventBus H P)
        → ((e : String) → length (subscribers e b) < fuel)
        → perform c b ≡ (
          record b { queue = (step posts b.maxsize (λ e. subscribers e b) c b.queue).0 },
          (step posts b.maxsize (λ e. subscribers e b) c b.queue).1,
        )
    unfolding perform step run_once
    perform-step (offering e p) b k = ap (λ x. (x, [])) (publish_nowait-offer e p b)
    perform-step serving b k = perform-serving b.queue b k refl

    -- A bus whose handlers publish by `publish_nowait` and do nothing else to it, with a fuel above the
    -- number of the subscribers of each event: any sequence of events from outside and rounds of `run`
    -- leaves the queue, and calls the handlers for the events, as the queue alone does. So events are
    -- delivered in the order in which they found room, each to all subscribers of its event in the order
    -- of their subscription. The queue keeps to its size if it did.
    pub run-replay :
        (cs : List (Call P)) (b : EventBus H P)
        → ((e : String) → length (subscribers e b) < fuel)
        → length b.queue ≤ b.maxsize
        → (run cs b ≡ (
          record b { queue = (replay posts b.maxsize (λ e. subscribers e b) cs b.queue).0 },
          (replay posts b.maxsize (λ e. subscribers e b) cs b.queue).1,
        ))
          × (length (run cs b).0.queue ≤ (run cs b).0.maxsize)
    unfolding run replay
    run-replay [] b k room = (refl, room)
    run-replay (c ∷ cs) b k room =
        let subs : String → List H = λ e. subscribers e b in
        let first = perform-step c b k in
        let q = (step posts b.maxsize subs c b.queue).0 in
        let (rest, short) =
          run-replay cs (record b { queue = q }) k
            (length-step posts b.maxsize subs c b.queue room) in
        rw first (ap (λ x. (x.0, (step posts b.maxsize subs c b.queue).1 ++ x.1)) rest, short)
