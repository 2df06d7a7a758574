-- ===== src/Bridge/Events.antt =====
-- handleEvent, loggedOutReason, recordSessionLost, signalFatal, runQRLoop and WatchResetRequests of
-- internal/wabridge/wabridge.go: what the client tells the bridge, one event after another. The
-- heartbeat of Connected and a history sync run beside the events that follow in the program; here
-- they run to their end first.
pub mod Rise
pub mod Arrival
pub mod Unread
use enviadores_wabridge.Prelude.{
  ℕ, String, Bool, true, false, Option, none, some, List, [], ◌∷◌, ◌++◌, if◌then◌else◌,
}
use enviadores_wabridge.Text.Utf8.{Bytes, utf8}
use enviadores_wabridge.Store.Failure.{Result, ok, err}
use enviadores_wabridge.Store.Exec.{Env, World, Action}
use enviadores_wabridge.Store.Chats.{clear_all_peer_typing}
use enviadores_wabridge.Pairing.{
  set_qr_code, set_paired, set_event, set_session_lost, consume_reset_request, heartbeat,
}
use enviadores_wabridge.Bridge.Whatsapp.{Jid}
use enviadores_wabridge.Bridge.Client.{Client}
use enviadores_wabridge.Bridge.Location.{Floats}
use enviadores_wabridge.Bridge.Inbound.{Receipt, handle_receipt, handle_chat_presence}
use enviadores_wabridge.Bridge.Inbound.Media.{Incoming, Outside}
use enviadores_wabridge.Bridge.Inbound.Live.{handle_message}
use enviadores_wabridge.Bridge.History.{Conversation, handle_history_sync}

-- The events of the client's library that handleEvent knows. Where the time goes into a text, the
-- event carries it formatted.
pub data Event : Type 0 where
  connected disconnected stream_replaced connect_failure : Event
  -- the chat, whether it composes, and the bridge's clock
  chat_presence : Jid → Bool → ℕ → Event
  -- OnConnect, the reason and its code
  logged_out : Bool → Bytes → Bytes → Bytes → Event
  temporary_ban : Bytes → Bytes → Event
  client_outdated : Bytes → Event
  receipt : Receipt → Event
  message : Incoming → Outside → Event
  history : List Conversation → Event

-- The database and what is in fatalCh, which holds one error.
pub record Process : Type 0 where
  pub world : World
  pub fatal : Option Bytes

-- signalFatal
unfoldable pub signal_fatal : Bytes → Process → Process
signal_fatal e p = elim p.fatal [ none ↦ record p { fatal = some e } | some _ ↦ p ]

-- A call of the store whose error is only logged.
abbrev pub run_in : Action → Process → Process
run_in m p = record p { world = (m p.world).1 }

-- loggedOutReason
unfoldable pub logged_out_reason : Bool → Bytes → Bytes → Bytes
logged_out_reason on_connect reason code =
    if on_connect
    then reason ++ (utf8 ", code " ++ code)
    else utf8 "stream error, usually the device was removed on the phone"

-- recordSessionLost, at the formatted time
unfoldable pub record_session_lost : Env → Bytes → Bytes → Process → Process
record_session_lost env reason at = run_in (set_session_lost env reason at)

module _ (env : Env) (c : Client) (fl : Floats) where
  -- handleEvent
  unfoldable pub handle_event : Event → Process → Process
  handle_event connected p = run_in (clear_all_peer_typing env) (run_in (heartbeat env) p)
  handle_event disconnected p = p
  handle_event stream_replaced p = p
  handle_event connect_failure p = p
  handle_event (chat_presence chat composing now) p = record p {
    world = handle_chat_presence env c chat composing now p.world;
  }
  handle_event (logged_out on_connect reason code at) p =
      let why = logged_out_reason on_connect reason code in
      signal_fatal (utf8 "logged out: " ++ why)
        (record_session_lost env (utf8 "logged out by WhatsApp (" ++ (why ++ utf8 ")")) at p)
  handle_event (temporary_ban text at) p =
      record_session_lost env (utf8 "temporary ban: " ++ text) at p
  handle_event (client_outdated at) p =
      record_session_lost env (utf8 "client outdated: update whatsmeow") at p
  handle_event (receipt r) p = record p { world = handle_receipt env c r p.world }
  handle_event (message e out) p = record p { world = handle_message env c fl out e p.world }
  handle_event (history vs) p = record p { world = handle_history_sync env c fl vs p.world }

  unfoldable pub handle_events : List Event → Process → Process
  handle_events [] p = p
  handle_events (e ∷ es) p = handle_events es (handle_event e p)

-- An item of the QR channel: a code with the bridge's clock, success with the JID of the device
-- where it is known, the time-out, or another event.
pub data QrItem : Type 0 where
  code : Bytes → ℕ → QrItem
  success : Option String → QrItem
  timeout : QrItem
  failed : Bytes → QrItem

abbrev pub paired : Env → Option String → Process → Process
paired env none p = p
paired env (some id) p = run_in (set_paired env id) p

unfoldable pub qr_item : Env → QrItem → Process → Process
qr_item env (code text now) p = run_in (set_qr_code env text now 20) p
qr_item env (success id) p = paired env id p
qr_item env timeout p =
    signal_fatal (utf8 "qr timeout") (run_in (set_event env "error" (utf8 "qr timeout")) p)
qr_item env (failed event) p =
    let text = utf8 "qr event: " ++ event in
    signal_fatal text (run_in (set_event env "error" text) p)

-- runQRLoop
unfoldable pub run_qr_loop : Env → List QrItem → Process → Process
run_qr_loop env [] p = p
run_qr_loop env (i ∷ is) p = run_qr_loop env is (qr_item env i p)

-- WatchResetRequests over the formatted times of its ticks: it returns after a reset.
abbrev pub after_reset : Env → Bytes → (World → Bool × World) → Result Bool × World → Bool × World
after_reset env at rest (ok true, w) =
    (true, (set_session_lost env (utf8 "reset requested from the web UI") at w).1)
after_reset env at rest (_, w) = rest w

unfoldable pub watch_reset_requests : Env → List Bytes → World → Bool × World
watch_reset_requests env [] w = (false, w)
watch_reset_requests env (at ∷ ats) w =
    after_reset env at (watch_reset_requests env ats) (consume_reset_request env w)
