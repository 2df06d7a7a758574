-- ===== src/Bridge/Events/Unread.antt =====
-- How far the unread count of a chat can rise through the events of internal/wabridge/wabridge.go.
use enviadores_wabridge.Prelude.{
  ℕ, ◌+◌, ◌≡◌, ◌≤◌, refl, String, Option, none, some, List, [], ◌∷◌, ◌++◌, if◌then◌else◌, if-cases,
  arith,
}
use enviadores_wabridge.Text.Utf8.{Bytes, utf8}
use enviadores_wabridge.Store.Exec.{Env, World}
use enviadores_wabridge.Store.Fallback.Keeps.{Keeps-exec}
use enviadores_wabridge.Store.Messages.{is_empty}
use enviadores_wabridge.Pairing.{heartbeat, set_session_lost}
use enviadores_wabridge.Bridge.Client.{Client}
use enviadores_wabridge.Bridge.Location.{Floats}
use enviadores_wabridge.Bridge.NewChat.{canonical_chat_jid}
use enviadores_wabridge.Bridge.Inbound.{
  Receipt, is_self_read, new_status, mark_status, handle_receipt, handle_chat_presence,
}
use enviadores_wabridge.Bridge.History.Unread.{handle_history_sync-unread}
use enviadores_wabridge.Bridge.Events.{
  Event, connected, disconnected, stream_replaced, connect_failure, chat_presence, logged_out,
  temporary_ban, client_outdated, receipt, message, history, Process, signal_fatal,
  record_session_lost, logged_out_reason, handle_event, handle_events,
}
use enviadores_wabridge.Bridge.Inbound.Live.Stored.{unread_of}
use enviadores_wabridge.Bridge.Events.Rise.{
  AtMost, typing-AtMost, stop_typing-AtMost, clear-AtMost, mark-AtMost, heartbeat-AtMost,
}
use enviadores_wabridge.Bridge.Events.Arrival.{counts_for, handle_message-unread}

abbrev pub arrival : Client → Floats → String → Event → ℕ
arrival c fl key (message e out) = if counts_for c fl key e out then 1 else 0
arrival c fl key _ = 0

-- The messages of some events that count for a chat.
abbrev pub arrivals : Client → Floats → String → List Event → ℕ
arrivals c fl key [] = 0
arrivals c fl key (e ∷ es) = arrival c fl key e + arrivals c fl key es

module _ (env : Env) (c : Client) (fl : Floats) (key : String) where
  session_lost-unread :
      (reason at : Bytes) (p : Process)
      → unread_of key (record_session_lost env reason at p).world.db.chats
        ≤ unread_of key p.world.db.chats
  unfolding record_session_lost set_session_lost
  session_lost-unread reason at p =
      let n = unread_of key p.world.db.chats in
      (Keeps-exec {P = AtMost key n} env _ (λ now db k. k)).at p.world (omega arith)

  signal_fatal-chats : (e : Bytes) (p : Process) → (signal_fatal e p).world ≡ p.world
  unfolding signal_fatal
  signal_fatal-chats e p = go p.fatal
    where
      go :
          (o : Option Bytes)
          → (elim o as (λ _. Process) [ none ↦ record p { fatal = some e } | some _ ↦ p ]).world
            ≡ p.world
      go none = refl
      go (some _) = refl

  receipt-unread :
      (r : Receipt) (w : World)
      → unread_of key (handle_receipt env c r w).db.chats ≤ unread_of key w.db.chats
  unfolding handle_receipt
  receipt-unread r w =
      let n = unread_of key w.db.chats in
      let P = λ (x : World). AtMost key n x.db in
      if-cases P (is_empty r.message_ids) (omega arith) (
        if-cases P (is_self_read r)
          ((clear-AtMost key n env (canonical_chat_jid c.whatsapp r.chat).text r.message_ids).at w
            (omega arith))
          (go (new_status r.type)))
    where
      go :
          (o : Option String)
          → unread_of key (mark_status env c r.message_ids o w).db.chats ≤ unread_of key w.db.chats
      go none = omega arith
      go (some s) =
          (mark-AtMost key (unread_of key w.db.chats) env r.message_ids s).at w (omega arith)

  handle_event-unread :
      (e : Event) (p : Process)
      → unread_of key (handle_event env c fl e p).world.db.chats
        ≤ unread_of key p.world.db.chats + arrival c fl key e
  unfolding handle_event handle_chat_presence
  handle_event-unread connected p =
      let n = unread_of key p.world.db.chats in
      let beaten = (heartbeat env p.world).1 in
      let le =
        (stop_typing-AtMost key n env).at beaten
          ((heartbeat-AtMost key n env).at p.world (omega arith)) in
      omega (arith, le)
  handle_event-unread disconnected p = omega arith
  handle_event-unread stream_replaced p = omega arith
  handle_event-unread connect_failure p = omega arith
  handle_event-unread (chat_presence chat composing now) p =
      let n = unread_of key p.world.db.chats in
      let le =
        (typing-AtMost key n env (canonical_chat_jid c.whatsapp chat).text
            (if composing then some (now + 15) else none)).at
          p.world (omega arith) in
      omega (arith, le)
  handle_event-unread (logged_out on_connect reason code at) p =
      let why = logged_out_reason on_connect reason code in
      let text = utf8 "logged out by WhatsApp (" ++ (why ++ utf8 ")") in
      let le = session_lost-unread text at p in
      rw (signal_fatal-chats (utf8 "logged out: " ++ why) (record_session_lost env text at p))
        (omega (arith, le))
  handle_event-unread (temporary_ban text at) p =
      let le = session_lost-unread (utf8 "temporary ban: " ++ text) at p in omega (arith, le)
  handle_event-unread (client_outdated at) p =
      let le = session_lost-unread (utf8 "client outdated: update whatsmeow") at p in
      omega (arith, le)
  handle_event-unread (receipt r) p = let le = receipt-unread r p.world in omega (arith, le)
  handle_event-unread (message e out) p = handle_message-unread env c fl key out e p.world
  handle_event-unread (history vs) p =
      let same = handle_history_sync-unread env c fl vs p.world key in omega (arith, same)

  -- Whatever events the client reports in whatever order, live messages, receipts, typing, history
  -- and lost sessions among them, and whatever the server answers: the unread count of a chat (0
  -- where it is not stored) ends at no more than it was plus the number of live messages that
  -- count for it, which are those of the other side, in that chat and in one that is shown, that
  -- carry no reaction and are no notice of the system.
  pub handle_events-unread :
      (es : List Event) (p : Process)
      → unread_of key (handle_events env c fl es p).world.db.chats
        ≤ unread_of key p.world.db.chats + arrivals c fl key es
  unfolding handle_events
  handle_events-unread [] p = omega arith
  handle_events-unread (e ∷ es) p =
      let one = handle_event-unread e p in
      let rest = handle_events-unread es (handle_event env c fl e p) in omega (arith, one, rest)
