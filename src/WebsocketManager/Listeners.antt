-- ===== src/WebsocketManager/Listeners.antt =====
-- interface/websocket_manager.py: what can be observed of the manager: a function from the ids of the
-- connected clients to their sets of channels, and its changes.
use cto_test_ai_trading_bot.Prelude.{
  ℕ, ◌-◌, ◌≡◌, refl, String, Bool, Option, none, some, if◌then◌else◌, str_eq,
}
use mathlib.Core.Path.{fun_ext}
use cto_test_ai_trading_bot.Prelude.Sets.{string_eq}
use cto_test_ai_trading_bot.WebsocketManager.{Channel, channel_eq}

-- the number of connections, and what each connected client listens to
pub record Hub : Type 0 where
  pub connected : ℕ
  pub listeners : String → Option (Channel → Bool)

-- a function, changed at one id
abbrev pub put :
    String
    → Option (Channel → Bool)
    → (String → Option (Channel → Bool))
    → String
    → Option (Channel → Bool)
put id o f j = if str_eq id j then o else f j

unfoldable pub part : String → Hub → Hub
part id h = elim (h.listeners id) [
  | none ↦ h
  | some f ↦ record { connected = h.connected - 1; listeners = put id none h.listeners }
]

-- change what a connected client listens to
unfoldable pub retune : String → ((Channel → Bool) → Channel → Bool) → Hub → Hub
retune id change h = elim (h.listeners id) [
  | none ↦ h
  | some f ↦ record h { listeners = put id (some (change f)) h.listeners }
]

pub hub_ext :
    (g h : Hub)
    → g.connected ≡ h.connected
    → ((id : String) → g.listeners id ≡ h.listeners id)
    → g ≡ h
hub_ext g h p q = λ i. record { connected = p i; listeners = fun_ext q i }

pub part-none : (id : String) (h : Hub) → h.listeners id ≡ none → part id h ≡ h
unfolding part
part-none id h e = rw (part, e) refl

pub part-some :
    (id : String) (f : Channel → Bool) (h : Hub)
    → h.listeners id ≡ some f
    → part id h ≡ record { connected = h.connected - 1; listeners = put id none h.listeners }
unfolding part
part-some id f h e = rw (part, e) refl

pub retune-none :
    (id : String) (change : (Channel → Bool) → Channel → Bool) (h : Hub)
    → h.listeners id ≡ none
    → retune id change h ≡ h
unfolding retune
retune-none id change h e = rw (retune, e) refl

pub retune-some :
    (id : String) (change : (Channel → Bool) → Channel → Bool) (f : Channel → Bool) (h : Hub)
    → h.listeners id ≡ some f
    → retune id change h ≡ record h { listeners = put id (some (change f)) h.listeners }
unfolding retune
retune-some id change f h e = rw (retune, e) refl
