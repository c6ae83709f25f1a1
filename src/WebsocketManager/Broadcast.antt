-- ===== src/WebsocketManager/Broadcast.antt =====
-- interface/websocket_manager.py: what a broadcast delivers, and to whom.
use cto_test_ai_trading_bot.Prelude.{
  ◌≡◌, ◌≢◌, refl, String, Bool, true, not, ◌&&◌, none, List, [], ◌∷◌, if◌then◌else◌, length, keep,
  arith, eq_iff, str_eq, Option-cases, inl, inr,
}
use cto_test_ai_trading_bot.Prelude.Dict.{lookup, lookup-erase}
use cto_test_ai_trading_bot.Prelude.Sets.{string_eq, has, IsSetList}
use cto_test_ai_trading_bot.WebsocketManager.{
  Channel, channel_eq, WebsocketManager, disconnect, send_personal_message, send_to, broadcast,
}
use cto_test_ai_trading_bot.WebsocketManager.Index.{IsValid, listens, send_personal_message-IsValid}

module _ {W : Type 0} where
  lookup-send :
      (delivered : Bool) (id j : String) (m : WebsocketManager W)
      → lookup j (send_personal_message delivered id m).0.active_connections
        ≡ (if str_eq id j && not delivered then none else lookup j m.active_connections)
  unfolding send_personal_message disconnect
  lookup-send delivered id j m = elim (Option-cases (lookup id m.active_connections)) [
    | inl missing ↦ ground (arith, missing, eq_iff id j)
    | inr (s, found) ↦ ground (arith, found, lookup-erase id j m.active_connections)
  ]

  send_answer :
      (delivered : Bool) (id : String) (m : WebsocketManager W)
      → lookup id m.active_connections ≢ none
      → (send_personal_message delivered id m).1 ≡ delivered
  unfolding send_personal_message
  send_answer delivered id m h = ground arith

  -- The ids of the list are sent to one by one: those that are connected and take the text are
  -- counted, those that do not are disconnected, and all others keep their connection.
  send_to_lem :
      (delivers : String → Bool) (ids : List String) (m : WebsocketManager W)
      → IsSetList ids
      → ((id : String) → has id ids ≡ true → lookup id m.active_connections ≢ none)
      → let (m', sent) = send_to delivers ids m in
        (sent ≡ length (keep delivers ids))
        × ((j : String)
            → lookup j m'.active_connections
              ≡ (if has j ids && not (delivers j) then none else lookup j m.active_connections))
  unfolding send_to has
  send_to_lem delivers [] m u there = (refl, λ j. refl)
  send_to_lem delivers (id ∷ ids) m u there =
      let m1 = (send_personal_message (delivers id) id m).0 in
      let rest =
        send_to_lem delivers ids m1 u.1
          (λ j h. ground (arith, there j, lookup-send (delivers id) id j m, eq_iff id j)) in
      (
        ground (
          arith,
          rest.0,
          send_answer (delivers id) id m (there id (ground (arith, eq_iff id id))),
        ),
        λ j. ground (arith, rest.1 j, lookup-send (delivers id) id j m, eq_iff id j),
      )

  connected_of_subscribed :
      (channel : Channel) (m : WebsocketManager W)
      → IsValid m
      → (id : String) → has id (m.channel_subscribers channel) ≡ true
      → lookup id m.active_connections ≢ none
  unfolding listens
  connected_of_subscribed channel m v id h = ground (arith, v.agrees id channel)

  send_to-IsValid :
      (delivers : String → Bool) (ids : List String) (m : WebsocketManager W)
      → IsValid m
      → IsValid (send_to delivers ids m).0
  unfolding send_to
  send_to-IsValid delivers [] m v = v
  send_to-IsValid delivers (id ∷ ids) m v =
      send_to-IsValid delivers ids (send_personal_message (delivers id) id m).0
        (send_personal_message-IsValid (delivers id) id m v)

  -- A broadcast on a channel of a valid manager reports how many of the clients in the set of the
  -- channel took the message. Those that did not are disconnected, so they are in no set any more;
  -- every other client keeps its connection and its channels.
  pub broadcast_lem :
      (delivers : String → Bool) (channel : Channel) (m : WebsocketManager W)
      → IsValid m
      → let (m', sent) = broadcast delivers channel m in
        (sent ≡ length (keep delivers (m.channel_subscribers channel)))
        × IsValid m'
        × ((j : String)
            → lookup j m'.active_connections ≡ (
                if has j (m.channel_subscribers channel) && not (delivers j)
                then none
                else lookup j m.active_connections))
        × ((j : String) (c : Channel)
            → has j (m'.channel_subscribers c)
              ≡ not (has j (m.channel_subscribers channel) && not (delivers j))
                && has j (m.channel_subscribers c))
  unfolding broadcast listens
  broadcast_lem delivers channel m v =
      let ids = m.channel_subscribers channel in
      let (count, kept) =
        send_to_lem delivers ids m (v.sets channel) (connected_of_subscribed channel m v) in
      let v' = send_to-IsValid delivers ids m v in
      (count, v', kept, λ j c. ground (arith, v'.agrees j c, v.agrees j c, kept j))
