-- ===== src/WebsocketManager/Hub.antt =====
-- interface/websocket_manager.py: what a client of the manager can observe of it, as a function from
-- client ids to sets of channels, and any run of the manager as a run on that function.
use cto_test_ai_trading_bot.Prelude.{
  ℕ, ◌+◌, ◌≡◌, refl, ap, ◌∙◌, String, Bool, false, not, ◌&&◌, ◌||◌, Option, none, some, List, [],
  ◌∷◌, leb, if◌then◌else◌, length, arith, Option-cases, Bool-cases, inl, inr,
}
use mathlib.Core.Path.{fun_ext}
use cto_test_ai_trading_bot.Prelude.Dict.{
  Dict, lookup, insert, contains, lookup-insert, lookup-erase, length-insert,
}
use cto_test_ai_trading_bot.Prelude.Sets.{
  string_eq, has, add_all, discard_all, has-add_all, has-discard_all,
}
use cto_test_ai_trading_bot.WebsocketManager.{
  Channel, channel_eq, ClientSubscription, WebsocketManager, enter, leave, connect, disconnect,
  subscribe, unsubscribe, send_personal_message,
}
use cto_test_ai_trading_bot.WebsocketManager.Listeners.{
  Hub, put, part, retune, hub_ext, part-none, part-some, retune-none, retune-some,
}
use cto_test_ai_trading_bot.WebsocketManager.Index.{
  IsValid, connect-IsValid, disconnect-IsValid, subscribe-IsValid, unsubscribe-IsValid,
  send_personal_message-IsValid, length-erase_unique,
}

pub data Call (W : Type 0) : Type 0 where
  connecting : String → W → List Channel → ℕ → Call W
  disconnecting : String → Call W
  subscribing : String → List Channel → Call W
  unsubscribing : String → List Channel → Call W
  sending : Bool → String → Call W

module _ {W : Type 0} where
  unfoldable pub perform : Call W → WebsocketManager W → WebsocketManager W
  perform (connecting id w cs now) m = (connect id w cs now m).0
  perform (disconnecting id) m = disconnect id m
  perform (subscribing id cs) m = (subscribe id cs m).0
  perform (unsubscribing id cs) m = (unsubscribe id cs m).0
  perform (sending delivered id) m = (send_personal_message delivered id m).0

  unfoldable pub run : List (Call W) → WebsocketManager W → WebsocketManager W
  unfolding perform
  run [] m = m
  run (c ∷ cs) m = run cs (perform c m)

  -- the same calls on the abstract state, for at most `limit` connections
  unfoldable pub act : ℕ → Call W → Hub → Hub
  act limit (connecting id w cs now) h = if leb limit h.connected then h else record {
    connected = h.connected + 1;
    listeners = put id (some (λ c. has c cs)) h.listeners;
  }
  act limit (disconnecting id) h = part id h
  act limit (subscribing id cs) h = retune id (λ f c. has c cs || f c) h
  act limit (unsubscribing id cs) h = retune id (λ f c. not (has c cs) && f c) h
  act limit (sending delivered id) h = if delivered then h else part id h

  unfoldable pub replay : ℕ → List (Call W) → Hub → Hub
  unfolding act
  replay limit [] h = h
  replay limit (c ∷ cs) h = replay limit cs (act limit c h)

  -- Every id that a connection is given is fresh.
  abbrev pub IsFreshCall : Call W → WebsocketManager W → Type 0
  IsFreshCall (connecting id w cs now) m = contains id m.active_connections ≡ false
  IsFreshCall _ m = Unit

  abbrev pub IsFresh : List (Call W) → WebsocketManager W → Type 0
  IsFresh [] m = Unit
  IsFresh (c ∷ cs) m = IsFreshCall c m × IsFresh cs (perform c m)

  abbrev pub tuned : Option (ClientSubscription W) → Option (Channel → Bool)
  tuned none = none
  tuned (some s) = some (λ c. has c s.channels)

  unfoldable pub view : WebsocketManager W → Hub
  view m = record {
    connected = length m.active_connections;
    listeners = λ id. tuned (lookup id m.active_connections);
  }

  tuned-insert :
      (id j : String) (s : ClientSubscription W) (d : Dict (ClientSubscription W))
      → tuned (lookup j (insert id s d)) ≡ put id (tuned (some s)) (λ k. tuned (lookup k d)) j
  tuned-insert id j s d = ground (arith, lookup-insert id j s d)

  view-connect :
      (id : String) (w : W) (cs : List Channel) (now : ℕ) (m : WebsocketManager W)
      → contains id m.active_connections ≡ false
      → view (connect id w cs now m).0 ≡ act m.max_connections (connecting id w cs now) (view m)
  unfolding connect view act
  view-connect id w cs now m new =
      elim (Bool-cases (leb m.max_connections (length m.active_connections))) [
        | inl full ↦ rw full refl
        | inr room ↦
            let s : ClientSubscription W = record {
              client_id = id;
              websocket = w;
              channels = cs;
              subscribed_at = now;
            } in
            rw room (
              hub_ext _ _ (ground (arith, length-insert id s m.active_connections))
                (λ j. tuned-insert id j s m.active_connections))
      ]

  view-disconnect :
      (id : String) (m : WebsocketManager W) → IsValid m → view (disconnect id m) ≡ part id (view m)
  unfolding disconnect view
  view-disconnect id m v = elim (Option-cases (lookup id m.active_connections)) [
    | inl missing ↦ rw (disconnect, missing, part-none id (view m) (ap tuned missing)) refl
    | inr (s, found) ↦
        rw (disconnect, found, part-some id (λ c. has c s.channels) (view m) (ap tuned found))
          (hub_ext _ _ (ground (arith, length-erase_unique id m.active_connections v.unique))
            (λ j. ground (arith, lookup-erase id j m.active_connections)))
  ]

  -- `subscribe` and `unsubscribe` exchange the channels of a client that is connected
  view-insert :
      (id : String) (change : (Channel → Bool) → Channel → Bool) (s t : ClientSubscription W)
      (subscribers : Channel → List String) (m : WebsocketManager W)
      → lookup id m.active_connections ≡ some s
      → ((c : Channel) → has c t.channels ≡ change (λ d. has d s.channels) c)
      → view (record m {
        active_connections = insert id t m.active_connections;
        channel_subscribers = subscribers;
      })
        ≡ retune id change (view m)
  unfolding view
  view-insert id change s t subscribers m found h =
      rw (retune-some id change (λ c. has c s.channels) (view m) (ap tuned found)) (
        hub_ext _ _ (ground (arith, length-insert id t m.active_connections)) (λ j.
          tuned-insert id j t m.active_connections
          ∙ ap (λ f. put id (some f) (view m).listeners j) (fun_ext h)))

  view-subscribe :
      (id : String) (cs : List Channel) (m : WebsocketManager W)
      → view (subscribe id cs m).0 ≡ retune id (λ f c. has c cs || f c) (view m)
  unfolding subscribe view
  view-subscribe id cs m = elim (Option-cases (lookup id m.active_connections)) [
    | inl missing ↦
        rw (subscribe, missing, retune-none id (λ f c. has c cs || f c) (view m) (ap tuned missing))
          refl
    | inr (s, found) ↦
        rw (subscribe, found)
          (view-insert id (λ f c. has c cs || f c) s (record s { channels = add_all cs s.channels })
            (enter id cs m.channel_subscribers) m found (λ c. has-add_all c cs s.channels))
  ]

  view-unsubscribe :
      (id : String) (cs : List Channel) (m : WebsocketManager W)
      → view (unsubscribe id cs m).0 ≡ retune id (λ f c. not (has c cs) && f c) (view m)
  unfolding unsubscribe view
  view-unsubscribe id cs m = elim (Option-cases (lookup id m.active_connections)) [
    | inl missing ↦
        rw
          (
            unsubscribe,
            missing,
            retune-none id (λ f c. not (has c cs) && f c) (view m) (ap tuned missing),
          )
          refl
    | inr (s, found) ↦
        rw (unsubscribe, found)
          (view-insert id (λ f c. not (has c cs) && f c) s
            (record s { channels = discard_all cs s.channels }) (leave id cs m.channel_subscribers)
            m found (λ c. has-discard_all c cs s.channels))
  ]

  view-sending :
      (delivered : Bool) (id : String) (m : WebsocketManager W)
      → IsValid m
      → view (send_personal_message delivered id m).0
        ≡ (if delivered then view m else part id (view m))
  unfolding send_personal_message view
  view-sending delivered id m v = elim (Option-cases (lookup id m.active_connections)) [
    | inl missing ↦ ground (arith, missing, part-none id (view m) (ap tuned missing))
    | inr (s, found) ↦ ground (arith, found, view-disconnect id m v)
  ]

  perform-IsValid :
      (c : Call W) (m : WebsocketManager W)
      → IsFreshCall c m
      → IsValid m
      → IsValid (perform c m) × ((perform c m).max_connections ≡ m.max_connections)
  unfolding perform connect disconnect subscribe unsubscribe send_personal_message
  perform-IsValid (connecting id w cs now) m f v = (connect-IsValid id w cs now m f v, ground arith)
  perform-IsValid (disconnecting id) m f v = (disconnect-IsValid id m v, ground arith)
  perform-IsValid (subscribing id cs) m f v = (subscribe-IsValid id cs m v, ground arith)
  perform-IsValid (unsubscribing id cs) m f v = (unsubscribe-IsValid id cs m v, ground arith)
  perform-IsValid (sending b id) m f v = (send_personal_message-IsValid b id m v, ground arith)

  view-perform :
      (c : Call W) (m : WebsocketManager W)
      → IsFreshCall c m
      → IsValid m
      → view (perform c m) ≡ act m.max_connections c (view m)
  unfolding perform act
  view-perform (connecting id w cs now) m f v = view-connect id w cs now m f
  view-perform (disconnecting id) m f v = view-disconnect id m v
  view-perform (subscribing id cs) m f v = view-subscribe id cs m
  view-perform (unsubscribing id cs) m f v = view-unsubscribe id cs m
  view-perform (sending b id) m f v = view-sending b id m v

  -- Any run of connections, disconnections, subscriptions and sendings keeps a valid manager valid,
  -- if the ids of the connections are fresh: a client stands in the set of a channel exactly if it
  -- is connected and subscribed to it, and the connections keep to their maximum. What the clients
  -- listen to afterwards, and their number, is what the same calls make of a function from ids to
  -- sets of channels.
  pub run_refines :
      (cs : List (Call W)) (m : WebsocketManager W)
      → IsValid m
      → IsFresh cs m
      → IsValid (run cs m) × (view (run cs m) ≡ replay m.max_connections cs (view m))
  unfolding run replay
  run_refines [] m v f = (v, refl)
  run_refines (c ∷ cs) m v f =
      let (valid, same) = perform-IsValid c m f.0 v in
      let (ends, rest) = run_refines cs (perform c m) valid f.1 in
      (
        ends,
        rest
            ∙ ap (λ n. replay n cs (view (perform c m))) same
            ∙ ap (replay m.max_connections cs) (view-perform c m f.0 v),
      )
