-- ===== src/WebsocketManager/Index.antt =====
-- interface/websocket_manager.py: the index of the channels and the channels of the clients agree.
use cto_test_ai_trading_bot.Prelude.{
  ℕ, ◌+◌, ◌≤◌, ◌≡◌, refl, String, Bool, false, not, ◌&&◌, ◌||◌, Option, none, some, List, [], ◌∷◌,
  leb, if◌then◌else◌, length, arith, eq_iff, str_eq, Option-cases, Bool-cases, inl, inr,
}
use cto_test_ai_trading_bot.Prelude.Dict.{
  Dict, lookup, erase, contains, lookup-insert, lookup-erase, length-insert, length-erase-le,
}
use cto_test_ai_trading_bot.Prelude.Sets.{
  string_eq, has, add, discard, add_all, discard_all, IsSetList, has-add, has-discard, has-add_all,
  has-discard_all, add-IsSetList, discard-IsSetList,
}
use cto_test_ai_trading_bot.Idempotency.Keys.{IsUnique, erase-IsUnique}
use cto_test_ai_trading_bot.Idempotency.Invariant.{insert-IsUnique}
use cto_test_ai_trading_bot.WebsocketManager.{
  Channel, channel_eq, alter, ClientSubscription, WebsocketManager, enter, leave, connect,
  disconnect, subscribe, unsubscribe, send_personal_message,
}

pub has-enter :
    (id j : String) (cs : List Channel) (subscribers : Channel → List String) (d : Channel)
    → has j (enter id cs subscribers d) ≡ (str_eq id j && has d cs) || has j (subscribers d)
unfolding enter has
has-enter id j [] subscribers d = ground arith
has-enter id j (c ∷ cs) subscribers d =
    ground (arith, has-enter id j cs (alter c (add id) subscribers) d, has-add id j (subscribers d))

pub has-leave :
    (id j : String) (cs : List Channel) (subscribers : Channel → List String) (d : Channel)
    → has j (leave id cs subscribers d) ≡ not (str_eq id j && has d cs) && has j (subscribers d)
unfolding leave has
has-leave id j [] subscribers d = ground arith
has-leave id j (c ∷ cs) subscribers d = ground (
  arith,
  has-leave id j cs (alter c (discard id) subscribers) d,
  has-discard id j (subscribers d),
)

enter-IsSetList :
    (id : String) (cs : List Channel) (subscribers : Channel → List String)
    → ((d : Channel) → IsSetList (subscribers d))
    → (d : Channel) → IsSetList (enter id cs subscribers d)
unfolding enter
enter-IsSetList id [] subscribers h d = h d
enter-IsSetList id (c ∷ cs) subscribers h d =
    enter-IsSetList id cs (alter c (add id) subscribers)
      (λ b. ground (arith, h b, add-IsSetList id (subscribers b))) d

leave-IsSetList :
    (id : String) (cs : List Channel) (subscribers : Channel → List String)
    → ((d : Channel) → IsSetList (subscribers d))
    → (d : Channel) → IsSetList (leave id cs subscribers d)
unfolding leave
leave-IsSetList id [] subscribers h d = h d
leave-IsSetList id (c ∷ cs) subscribers h d =
    leave-IsSetList id cs (alter c (discard id) subscribers)
      (λ b. ground (arith, h b, discard-IsSetList id (subscribers b))) d

pub length-erase_unique {ℓ} :
    {V : Type ℓ} (k : String) (d : Dict V)
    → IsUnique d
    → length d ≡ (if contains k d then length (erase k d) + 1 else length (erase k d))
unfolding lookup erase
length-erase_unique k [] u = refl
length-erase_unique k ((j, w) ∷ d) u = ground (arith, length-erase_unique k d u.1, eq_iff j k)

module _ {W : Type 0} where
  -- what a client listens to, if it is connected
  unfoldable pub listens : Channel → Option (ClientSubscription W) → Bool
  listens c none = false
  listens c (some s) = has c s.channels

  pub record IsValid (m : WebsocketManager W) : Type 0 where
    pub agrees :
        (id : String) (c : Channel)
        → has id (m.channel_subscribers c) ≡ listens c (lookup id m.active_connections)
    pub sets : (c : Channel) → IsSetList (m.channel_subscribers c)
    pub unique : IsUnique m.active_connections
    pub bounded : length m.active_connections ≤ m.max_connections

  pub connect-IsValid :
      (id : String) (w : W) (cs : List Channel) (now : ℕ) (m : WebsocketManager W)
      → contains id m.active_connections ≡ false
      → IsValid m
      → IsValid (connect id w cs now m).0
  unfolding connect listens
  connect-IsValid id w cs now m new v =
      elim (Bool-cases (leb m.max_connections (length m.active_connections))) [
        | inl full ↦ rw full v
        | inr room ↦
            let s : ClientSubscription W = record {
              client_id = id;
              websocket = w;
              channels = cs;
              subscribed_at = now;
            } in
            rw room (record {
              agrees = λ j c. ground (
                arith,
                v.agrees j c,
                has-enter id j cs m.channel_subscribers c,
                lookup-insert id j s m.active_connections,
                eq_iff id j,
              );
              sets = enter-IsSetList id cs m.channel_subscribers v.sets;
              unique = insert-IsUnique id s m.active_connections v.unique;
              bounded = ground (arith, length-insert id s m.active_connections);
            })
      ]

  pub disconnect-IsValid :
      (id : String) (m : WebsocketManager W) → IsValid m → IsValid (disconnect id m)
  unfolding disconnect listens
  disconnect-IsValid id m v = elim (Option-cases (lookup id m.active_connections)) [
    | inl missing ↦ rw (disconnect, missing) v
    | inr (s, found) ↦
        rw (disconnect, found)
          (record {
            agrees = λ j c. ground (
              arith,
              v.agrees j c,
              has-leave id j s.channels m.channel_subscribers c,
              lookup-erase id j m.active_connections,
              eq_iff id j,
            );
            sets = leave-IsSetList id s.channels m.channel_subscribers v.sets;
            unique = erase-IsUnique id m.active_connections v.unique;
            bounded = omega (arith, length-erase-le id m.active_connections, v.bounded);
          })
  ]

  pub subscribe-IsValid :
      (id : String) (cs : List Channel) (m : WebsocketManager W)
      → IsValid m
      → IsValid (subscribe id cs m).0
  unfolding subscribe listens
  subscribe-IsValid id cs m v = elim (Option-cases (lookup id m.active_connections)) [
    | inl missing ↦ rw (subscribe, missing) v
    | inr (s, found) ↦
        let t : ClientSubscription W = record s { channels = add_all cs s.channels } in
        rw (subscribe, found)
          (record {
            agrees = λ j c. ground (
              arith,
              v.agrees j c,
              has-enter id j cs m.channel_subscribers c,
              has-add_all c cs s.channels,
              lookup-insert id j t m.active_connections,
              eq_iff id j,
            );
            sets = enter-IsSetList id cs m.channel_subscribers v.sets;
            unique = insert-IsUnique id t m.active_connections v.unique;
            bounded = ground (arith, length-insert id t m.active_connections, v.bounded);
          })
  ]

  pub unsubscribe-IsValid :
      (id : String) (cs : List Channel) (m : WebsocketManager W)
      → IsValid m
      → IsValid (unsubscribe id cs m).0
  unfolding unsubscribe listens
  unsubscribe-IsValid id cs m v = elim (Option-cases (lookup id m.active_connections)) [
    | inl missing ↦ rw (unsubscribe, missing) v
    | inr (s, found) ↦
        let t : ClientSubscription W = record s { channels = discard_all cs s.channels } in
        rw (unsubscribe, found)
          (record {
            agrees = λ j c. ground (
              arith,
              v.agrees j c,
              has-leave id j cs m.channel_subscribers c,
              has-discard_all c cs s.channels,
              lookup-insert id j t m.active_connections,
              eq_iff id j,
            );
            sets = leave-IsSetList id cs m.channel_subscribers v.sets;
            unique = insert-IsUnique id t m.active_connections v.unique;
            bounded = ground (arith, length-insert id t m.active_connections, v.bounded);
          })
  ]

  pub send_personal_message-IsValid :
      (delivered : Bool) (id : String) (m : WebsocketManager W)
      → IsValid m
      → IsValid (send_personal_message delivered id m).0
  unfolding send_personal_message
  send_personal_message-IsValid delivered id m v = ground (arith, v, disconnect-IsValid id m v)
