-- ===== src/WebsocketManager/Tests.antt =====
-- interface/websocket_manager.py: runs of the manager, and its theorems at concrete inputs.
use cto_test_ai_trading_bot.Prelude.{
  ℕ, ◌≡◌, refl, String, Bool, not, ◌&&◌, none, some, List, [], ◌∷◌, if◌then◌else◌, length, keep,
  arith, str_eq,
}
use cto_test_ai_trading_bot.Prelude.Dict.{lookup, insert, erase}
use cto_test_ai_trading_bot.Prelude.Sets.{string_eq, has, add, discard, add_all, discard_all}
use cto_test_ai_trading_bot.WebsocketManager
use cto_test_ai_trading_bot.WebsocketManager.{
  Channel, WebsocketManager, channel_eq, orders, risk, trades, enter, leave, connect, disconnect,
  subscribe, unsubscribe, send_personal_message, send_to, broadcast, broadcast_to_all,
  get_channel_subscribers, get_client_info,
}
use cto_test_ai_trading_bot.WebsocketManager.Index.{IsValid, listens}
use cto_test_ai_trading_bot.WebsocketManager.Hub.{
  Call, connecting, subscribing, unsubscribing, perform, run, replay, view, run_refines,
}
use cto_test_ai_trading_bot.WebsocketManager.Broadcast.{broadcast_lem}

program : Unit {0}
unfolding lookup insert erase has add discard add_all discard_all WebsocketManager.init enter leave
    connect disconnect subscribe unsubscribe send_personal_message send_to broadcast
    broadcast_to_all get_channel_subscribers get_client_info perform run listens
program = tt

-- the sockets are numbers, and there is room for two
abbrev empty : WebsocketManager ℕ
empty = WebsocketManager.init 30 2

abbrev calls : List (Call ℕ)
calls =
    connecting "ws_1" 1 (orders ∷ risk ∷ []) 100
    ∷ connecting "ws_2" 2 (orders ∷ []) 200
    ∷ connecting "ws_3" 3 (orders ∷ []) 300
    ∷ unsubscribing "ws_1" (risk ∷ [])
    ∷ subscribing "ws_2" (trades ∷ [])
    ∷ []

abbrev two_clients : WebsocketManager ℕ
two_clients = run calls empty

-- the third connection finds no room
counted : get_channel_subscribers orders two_clients ≡ 2
unfolding program
counted = refl

informed : get_client_info "ws_1" two_clients ≡ some ("ws_1", orders ∷ [], 100)
unfolding program
informed = refl

empty-IsValid : IsValid empty
unfolding program
empty-IsValid = record { agrees = λ id c. refl; sets = λ c. tt; unique = tt; bounded = omega arith }

two_clients-IsValid : IsValid two_clients
unfolding program
two_clients-IsValid =
    (run_refines calls empty empty-IsValid (refl, (refl, (refl, (tt, (tt, tt)))))).0

run_refines_example :
    IsValid (run calls empty) × (view (run calls empty) ≡ replay 2 calls (view empty))
unfolding program
run_refines_example = run_refines calls empty empty-IsValid (refl, (refl, (refl, (tt, (tt, tt)))))

abbrev only_first : String → Bool
only_first id = str_eq id "ws_1"

broadcast_lem_case :
    let (m', sent) = broadcast only_first orders two_clients in
    (sent ≡ length (keep only_first (two_clients.channel_subscribers orders)))
    × IsValid m'
    × ((j : String)
        → lookup j m'.active_connections ≡ (
            if has j (two_clients.channel_subscribers orders) && not (only_first j)
            then none
            else lookup j two_clients.active_connections))
    × ((j : String) (c : Channel)
        → has j (m'.channel_subscribers c)
          ≡ not (has j (two_clients.channel_subscribers orders) && not (only_first j))
            && has j (two_clients.channel_subscribers c))
broadcast_lem_case = broadcast_lem only_first orders two_clients two_clients-IsValid

-- the second client is gone, from the connections and from every channel
dropped : (broadcast only_first orders two_clients).0.channel_subscribers trades ≡ []
unfolding program
dropped = refl
