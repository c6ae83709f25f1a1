-- ===== src/WebsocketManager.antt =====
-- interface/websocket_manager.py: the manager of the dashboard's connections. `W` is the type of the
-- sockets; whether a socket takes a text that is sent to it is an argument of the call that sends.
-- A client id is a fresh one that the caller of `connect` is given.
pub mod Index
pub mod Hub
mod Listeners
pub mod Broadcast
mod Tests
use cto_test_ai_trading_bot.Prelude.{
  ℕ, ◌+◌, ◌≡◌, refl, ap, ◌∙◌, sym, ◌↔◌, String, Bool, true, false, Option, none, some, List, [],
  ◌∷◌, map, leb, ◌==◌, if◌then◌else◌, length, is_some, arith,
}
use cto_test_ai_trading_bot.Prelude.Dict.{Dict, lookup, insert, erase, contains}
use cto_test_ai_trading_bot.Prelude.Sets.{Eq, string_eq, has, add, discard, add_all, discard_all}

pub data Channel : Type 0 where
  ticker : Channel
  orderbook : Channel
  trades : Channel
  orders : Channel
  positions : Channel
  risk : Channel
  signals : Channel
  alerts : Channel
  all : Channel

-- the place of a channel in the enumeration, which tells channels apart
abbrev place : Channel → ℕ
place ticker = 0
place orderbook = 1
place trades = 2
place orders = 3
place positions = 4
place risk = 5
place signals = 6
place alerts = 7
place all = 8

abbrev at_place : ℕ → Channel
at_place n =
    if n == 0
    then ticker
    else if n == 1
    then orderbook
    else if n == 2
    then trades
    else if n == 3
    then orders
    else if n == 4
    then positions
    else if n == 5
    then risk
    else if n == 6
    then signals
    else if n == 7
    then alerts
    else all

at_place-place : (c : Channel) → at_place (place c) ≡ c
at_place-place ticker = refl
at_place-place orderbook = refl
at_place-place trades = refl
at_place-place orders = refl
at_place-place positions = refl
at_place-place risk = refl
at_place-place signals = refl
at_place-place alerts = refl
at_place-place all = refl

pub same_channel_iff : (c d : Channel) → ((place c == place d) ≡ true) ↔ (c ≡ d)
same_channel_iff c d = (
  (λ h.
      let level : place c ≡ place d = ground arith in
      sym (at_place-place c) ∙ ap at_place level ∙ at_place-place d),
  λ h. let level : place c ≡ place d = ap place h in ground arith,
)

instance abbrev pub channel_eq : Eq Channel
channel_eq = record { beq = λ c d. place c == place d; beq_iff = same_channel_iff }

pub record ClientSubscription (W : Type 0) : Type 0 where
  pub client_id : String
  pub websocket : W
  pub channels : List Channel
  pub subscribed_at : ℕ

pub record WebsocketManager (W : Type 0) : Type 0 where
  pub heartbeat_interval : ℕ
  pub max_connections : ℕ
  pub active_connections : Dict (ClientSubscription W)
  pub channel_subscribers : Channel → List String

-- `subscribers[c] = f(subscribers[c])`
abbrev pub alter :
    Channel → (List String → List String) → (Channel → List String) → Channel → List String
alter c f subscribers d = if place c == place d then f (subscribers d) else subscribers d

-- `for channel in channels: self.channel_subscribers[channel].add(client_id)`
unfoldable pub enter : String → List Channel → (Channel → List String) → Channel → List String
enter id [] subscribers = subscribers
enter id (c ∷ cs) subscribers = enter id cs (alter c (add id) subscribers)

-- `for channel in channels: self.channel_subscribers[channel].discard(client_id)`
unfoldable pub leave : String → List Channel → (Channel → List String) → Channel → List String
leave id [] subscribers = subscribers
leave id (c ∷ cs) subscribers = leave id cs (alter c (discard id) subscribers)

module _ {W : Type 0} where
  unfoldable pub init : ℕ → ℕ → WebsocketManager W
  init heartbeat_interval max_connections = record {
    heartbeat_interval = heartbeat_interval;
    max_connections = max_connections;
    active_connections = [];
    channel_subscribers = λ c. [];
  }

  -- `none` where the code raises "Max connections exceeded"; `channels` is the set that was given,
  -- or the empty one
  unfoldable pub connect :
      String → W → List Channel → ℕ → WebsocketManager W → WebsocketManager W × Option String
  unfolding enter
  connect client_id websocket channels now m =
      if leb m.max_connections (length m.active_connections) then (m, none) else (
        record m {
          active_connections =
              insert client_id
                (record {
                  client_id = client_id;
                  websocket = websocket;
                  channels = channels;
                  subscribed_at = now;
                })
                m.active_connections;
          channel_subscribers = enter client_id channels m.channel_subscribers;
        },
        some client_id,
      )

  unfoldable pub disconnect : String → WebsocketManager W → WebsocketManager W
  unfolding leave
  disconnect client_id m = elim (lookup client_id m.active_connections) [
    | none ↦ m
    | some subscription ↦ record m {
      active_connections = erase client_id m.active_connections;
      channel_subscribers = leave client_id subscription.channels m.channel_subscribers;
    }
  ]

  unfoldable pub subscribe : String → List Channel → WebsocketManager W → WebsocketManager W × Bool
  unfolding enter add_all
  subscribe client_id channels m = elim (lookup client_id m.active_connections) [
    | none ↦ (m, false)
    | some subscription ↦ (
      record m {
        active_connections =
            insert client_id
              (record subscription { channels = add_all channels subscription.channels })
              m.active_connections;
        channel_subscribers = enter client_id channels m.channel_subscribers;
      },
      true,
    )
  ]

  unfoldable pub unsubscribe :
      String → List Channel → WebsocketManager W → WebsocketManager W × Bool
  unfolding leave discard_all
  unsubscribe client_id channels m = elim (lookup client_id m.active_connections) [
    | none ↦ (m, false)
    | some subscription ↦ (
      record m {
        active_connections =
            insert client_id
              (record subscription { channels = discard_all channels subscription.channels })
              m.active_connections;
        channel_subscribers = leave client_id channels m.channel_subscribers;
      },
      true,
    )
  ]

  -- `delivered` says whether `send_text` returns or raises
  unfoldable pub send_personal_message :
      Bool → String → WebsocketManager W → WebsocketManager W × Bool
  unfolding disconnect
  send_personal_message delivered client_id m = elim (lookup client_id m.active_connections) [
    | none ↦ (m, false)
    | some subscription ↦ if delivered then (m, true) else (disconnect client_id m, false)
  ]

  -- `for client_id in ids: ...`, with the number of successes
  unfoldable pub send_to :
      (String → Bool) → List String → WebsocketManager W → WebsocketManager W × ℕ
  send_to delivers [] m = (m, 0)
  send_to delivers (client_id ∷ ids) m =
      let (m1, success) = send_personal_message (delivers client_id) client_id m in
      let (m2, sent_count) = send_to delivers ids m1 in
      (m2, if success then sent_count + 1 else sent_count)

  unfoldable pub broadcast : (String → Bool) → Channel → WebsocketManager W → WebsocketManager W × ℕ
  unfolding send_to
  broadcast delivers channel m = send_to delivers (m.channel_subscribers channel) m

  unfoldable pub broadcast_to_all : (String → Bool) → WebsocketManager W → WebsocketManager W × ℕ
  unfolding send_to
  broadcast_to_all delivers m = send_to delivers (map (λ e. e.0) m.active_connections) m

  -- one round of the heartbeat loop
  unfoldable pub heartbeat : (String → Bool) → WebsocketManager W → WebsocketManager W
  unfolding send_to
  heartbeat delivers m = (send_to delivers (map (λ e. e.0) m.active_connections) m).0

  unfoldable pub get_connection_count : WebsocketManager W → ℕ
  get_connection_count m = length m.active_connections

  unfoldable pub get_channel_subscribers : Channel → WebsocketManager W → ℕ
  get_channel_subscribers channel m = length (m.channel_subscribers channel)

  unfoldable pub get_client_info : String → WebsocketManager W → Option (String × List Channel × ℕ)
  get_client_info client_id m = elim (lookup client_id m.active_connections) [
    | none ↦ none
    | some sub ↦ some (client_id, sub.channels, sub.subscribed_at)
  ]
