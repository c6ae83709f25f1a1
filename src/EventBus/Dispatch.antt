-- ===== src/EventBus/Dispatch.antt =====
-- core/event_bus.py: which handlers a round of `run` calls.
use cto_test_ai_trading_bot.Prelude.{
  ℕ, zero, suc, ◌+◌, ◌<◌, ◌≡◌, refl, ap, ◌∙◌, String, Bool, true, false, not, none, some, List, [],
  ◌∷◌, ◌++◌, arith, length, drop, All, str_eq, eq_iff, Option-cases, inl, inr,
}
use cto_test_ai_trading_bot.Prelude.Dict.{lookup, insert, lookup-insert, lookup-insert_self}
use cto_test_ai_trading_bot.Prelude.Sets.{Eq, same}
use cto_test_ai_trading_bot.EventBus.{
  EventBus, Action, subscribing, unsubscribing, publishing, publishing_nowait, subscribers,
  subscribe, unsubscribe, put, publish_nowait, remove, act, act_all, handler_at, dispatch,
}

pub handler_at-over : {H : Type 0} (i : ℕ) (hs : List H) → drop i hs ≡ [] → handler_at i hs ≡ none
unfolding handler_at
handler_at-over i [] e = refl
handler_at-over zero (g ∷ hs) e = absurd (ground arith)
handler_at-over (suc i) (g ∷ hs) e = handler_at-over i hs e

pub handler_at-next :
    {H : Type 0} (i : ℕ) (hs : List H) (h : H) (rest : List H)
    → drop i hs ≡ h ∷ rest
    → (handler_at i hs ≡ some h) × (drop (suc i) hs ≡ rest)
unfolding handler_at
handler_at-next zero [] h rest e = absurd (ground arith)
handler_at-next (suc i) [] h rest e = absurd (ground arith)
handler_at-next zero (g ∷ hs) h rest e = ground arith
handler_at-next (suc i) (g ∷ hs) h rest e = handler_at-next i hs h rest e

module _ {H P : Type 0} ⦃eq : Eq H⦄ where
  -- a call that returns and leaves the handlers of the event alone
  unfoldable pub is_quiet : String → Action H P → Bool
  is_quiet e (subscribing f h) = not (str_eq f e)
  is_quiet e (unsubscribing f h) = not (str_eq f e)
  is_quiet e (publishing f p) = false
  is_quiet e (publishing_nowait f p) = true

  act_quiet :
      (e : String) (a : Action H P) (b : EventBus H P)
      → is_quiet e a ≡ true
      → (b' : EventBus H P) × (act a b ≡ some b') × (subscribers e b' ≡ subscribers e b)
  unfolding act is_quiet subscribe unsubscribe publish_nowait put
  act_quiet e (subscribing f h) b q = (
    _,
    refl,
    ground (arith, lookup-insert f e (subscribers f b ++ h ∷ []) b.handlers, eq_iff f e),
  )
  act_quiet e (unsubscribing f h) b q = elim (Option-cases (lookup f b.handlers)) [
    | inl missing ↦ (b, ground arith, refl)
    | inr (hs, found) ↦ (
      record b { handlers = insert f (remove h hs) b.handlers },
      ground arith,
      ground (arith, lookup-insert f e (remove h hs) b.handlers, eq_iff f e),
    )
  ]
  act_quiet e (publishing f p) b q = absurd (ground arith)
  act_quiet e (publishing_nowait f p) b q = (publish_nowait f p b, refl, ground arith)

  act_all_quiet :
      (e : String) (actions : List (Action H P)) (b : EventBus H P)
      → All (λ a. is_quiet e a ≡ true) actions
      → ((act_all actions b).1 ≡ true) × (subscribers e (act_all actions b).0 ≡ subscribers e b)
  unfolding act_all
  act_all_quiet e [] b q = (refl, refl)
  act_all_quiet e (a ∷ later) b q =
      let (b', returned, same) = act_quiet e a b q.0 in
      let (all, kept) = act_all_quiet e later b' q.1 in rw (act_all, returned) (all, kept ∙ same)

  unsubscribe_first :
      (e : String) (h : H) (later : List H) (b : EventBus H P)
      → lookup e b.handlers ≡ some (h ∷ later)
      → subscribers e (unsubscribe e h b) ≡ later
  unfolding unsubscribe remove
  unsubscribe_first e h later b found =
      ground
        (arith, lookup-insert_self e (remove h (h ∷ later)) b.handlers, (eq.beq_iff h h).1 refl)

  module _ (script : H → P → List (Action H P)) where
    dispatch_from :
        (fuel : ℕ) (e : String) (p : P) (i : ℕ) (b : EventBus H P) (later : List H)
        → drop i (subscribers e b) ≡ later
        → All (λ h. All (λ a. is_quiet e a ≡ true) (script h p)) later
        → length later < fuel
        → ((dispatch script fuel e p i b).1 ≡ later) × ((dispatch script fuel e p i b).2 ≡ true)
    unfolding dispatch
    dispatch_from zero e p i b later d q k = absurd (omega arith)
    dispatch_from (suc fuel) e p i b [] d q k =
        rw (dispatch, handler_at-over i (subscribers e b) d) (refl, refl)
    dispatch_from (suc fuel) e p i b (h ∷ later) d q k =
        let (next, rest) = handler_at-next i (subscribers e b) h later d in
        let (returned, same) = act_all_quiet e (script h p) b q.0 in
        let b' = (act_all (script h p) b).0 in
        let moved : drop (i + 1) (subscribers e b') ≡ drop (suc i) (subscribers e b) =
          ap (drop (i + 1)) same ∙ ap (λ n. drop n (subscribers e b)) {y = suc i} (omega arith) in
        let (called, ended) =
          dispatch_from fuel e p (i + 1) b' later (moved ∙ rest) q.1 (omega arith) in
        rw (dispatch, next, returned) (ap (◌∷◌ h) called, ended)

    -- A round of `run` calls the handlers that were subscribed for the event when it began, each of
    -- them once and in the order of their subscription, and comes to its end, if none of them makes a
    -- call that waits (`publish`) or that changes the handlers of this event. A fuel above the number of
    -- the handlers is enough.
    pub dispatch_quiet :
        (fuel : ℕ) (e : String) (p : P) (b : EventBus H P)
        → All (λ h. All (λ a. is_quiet e a ≡ true) (script h p)) (subscribers e b)
        → length (subscribers e b) < fuel
        → ((dispatch script fuel e p 0 b).1 ≡ subscribers e b)
          × ((dispatch script fuel e p 0 b).2 ≡ true)
    dispatch_quiet fuel e p b q k = dispatch_from fuel e p 0 b (subscribers e b) refl q k

    -- A handler that unsubscribes itself while it runs hides the one behind it: the next handler `g`
    -- is not called for this event, and the handlers after `g` are, if these are quiet. `h` stands
    -- first in the list of the handlers.
    pub dispatch_skips :
        (fuel : ℕ) (e : String) (p : P) (b : EventBus H P) (h g : H) (later : List H)
        → lookup e b.handlers ≡ some (h ∷ g ∷ later)
        → script h p ≡ unsubscribing e h ∷ []
        → All (λ k. All (λ a. is_quiet e a ≡ true) (script k p)) later
        → length later + 1 < fuel
        → ((dispatch script fuel e p 0 b).1 ≡ h ∷ later) × ((dispatch script fuel e p 0 b).2 ≡ true)
    unfolding dispatch
    dispatch_skips zero e p b h g later found leaves q k = absurd (omega arith)
    dispatch_skips (suc fuel) e p b h g later found leaves q k =
        let b' = unsubscribe e h b in
        let left : subscribers e b' ≡ g ∷ later = unsubscribe_first e h (g ∷ later) b found in
        let acted : act_all (script h p) b ≡ (b', true) = rw (leaves) refl in
        let (called, ended) =
          dispatch_from fuel e p (0 + 1) b' later (ap (drop (0 + 1)) left) q (omega arith) in
        rw (dispatch, found, acted) (ap (◌∷◌ h) called, ended)
