-- ===== src/Bridge/NewChat/Pace.antt =====
-- How much one tick of the first messages may hand to WhatsApp.
use enviadores_wabridge.Prelude.{
  ℕ, suc, ◌≡◌, ◌≤◌, String, Bool, true, false, not, ◌||◌, ◌&&◌, Option, none, some, List, [], ◌∷◌,
  ◌==◌, length, arith, if-cases, Option-cases, inl, inr,
}
use enviadores_wabridge.Text.Utf8.{Bytes}
use enviadores_wabridge.Text.Trim.{trim_space}
use enviadores_wabridge.Store.Failure.{Result, ok, err}
use enviadores_wabridge.Store.Exec.{Env, World, feature_off}
use enviadores_wabridge.Store.Messages.{is_empty}
use enviadores_wabridge.Store.Outbound.{claim_new_chat_message_id}
use enviadores_wabridge.Bridge.Whatsapp.{
  Jid, OnWhatsapp, SendResult, sent, send_failed, Whatsapp, default_user_server, hidden_user_server,
}
use enviadores_wabridge.Bridge.NewChat.{
  feature_new_chat, NewChatWrites, Bridge, NewChatRow, Send, is_mx_phone, text_of, unstamped_of,
  forget, fail_new_chat, finish_new_chat,
}
use enviadores_wabridge.Bridge.NewChat.Tick.{
  new_chat_writes, send_as, after_send, after_claim, claim_and_send, with_message_id, send_to_hit,
  after_lookup, kind_text, too_soon, send_fresh, send_new_chat_row, with_row, process_new_chats,
}

finish_new_chat-sends :
    (env : Env) (id : ℕ) (w : NewChatWrites) (b : Bridge)
    → (finish_new_chat env id w b).sends ≡ b.sends
unfolding finish_new_chat
finish_new_chat-sends env id w b = ground arith

-- A row that this process has sent and not yet stamped is stamped and stored again, and is never
-- handed to WhatsApp a second time, whatever the server answers.
pub send_new_chat_row-stamped :
    (env : Env) (wa : Whatsapp) (r : NewChatRow) (w : NewChatWrites) (b : Bridge)
    → unstamped_of r.id b.unstamped ≡ some w
    → (send_new_chat_row env wa r b).sends ≡ b.sends
unfolding send_new_chat_row
send_new_chat_row-stamped env wa r w b h =
    rw (h, send_new_chat_row) (finish_new_chat-sends env r.id w b)

-- At most one more send.
abbrev pub OneMore : List Send → Bridge → Type 0
OneMore ss b = length b.sends ≤ suc (length ss)

module _ (env : Env) (wa : Whatsapp) where
  send_as-OneMore :
      (r : NewChatRow) (hit : OnWhatsapp) (to : Jid) (wa_id : String) (b : Bridge)
      → OneMore b.sends (send_as env wa r hit to wa_id b)
  unfolding send_as
  send_as-OneMore r hit to wa_id b = go (wa.send b.calls to (text_of r.body) wa_id)
    where
      sending : Bridge
      sending = record b {
        sends = record { row = r.id; wa_id = wa_id } ∷ b.sends;
        calls = suc b.calls;
      }

      go : (res : SendResult) → OneMore b.sends (after_send env wa r hit to res sending)
      go (send_failed msg) = omega arith
      go (sent resp) =
          let w = new_chat_writes env wa r hit to resp in
          rw
            (finish_new_chat-sends env r.id w
              (record sending { unstamped = (r.id, w) ∷ forget r.id b.unstamped }))
            (omega arith)

  claim_and_send-OneMore :
      (r : NewChatRow) (hit : OnWhatsapp) (to : Jid) (b : Bridge)
      → OneMore b.sends (claim_and_send env wa r hit to b)
  unfolding claim_and_send
  claim_and_send-OneMore r hit to b =
      go (claim_new_chat_message_id env r.id (wa.new_id b.calls) b.world)
    where
      go :
          (claim : Result Bool × World)
          → OneMore b.sends (
              after_claim env wa r hit to
                (wa.new_id b.calls)
                claim.0
                (record b { world = claim.1; calls = suc b.calls }))
      go (err e, w) = omega arith
      go (ok false, w) = omega arith
      go (ok true, w) =
          send_as-OneMore r hit to (wa.new_id b.calls) (record b { world = w; calls = suc b.calls })

  with_message_id-OneMore :
      (r : NewChatRow) (hit : OnWhatsapp) (to : Jid) (o : Option String) (b : Bridge)
      → OneMore b.sends (with_message_id env wa r hit to o b)
  with_message_id-OneMore r hit to none b = claim_and_send-OneMore r hit to b
  with_message_id-OneMore r hit to (some wa_id) b =
      if-cases (OneMore b.sends) (wa_id == "") (claim_and_send-OneMore r hit to b)
        (send_as-OneMore r hit to wa_id b)

  after_lookup-OneMore :
      (r : NewChatRow) (found : List OnWhatsapp × Option Bytes) (b : Bridge)
      → OneMore b.sends (after_lookup env wa r found b)
  unfolding send_to_hit fail_new_chat
  after_lookup-OneMore r ([], some e) b = omega arith
  after_lookup-OneMore r ([], none) b = omega arith
  after_lookup-OneMore r (hit ∷ hits, e) b =
      if-cases (OneMore b.sends) (not hit.is_in) (omega arith) (
        if-cases (OneMore b.sends)
          (is_empty hit.jid.user
            || not (hit.jid.server == default_user_server)
              && not (hit.jid.server == hidden_user_server))
          (omega arith) (with_message_id-OneMore r hit _ r.wa_message_id b))

  send_new_chat_row-OneMore :
      (r : NewChatRow) (b : Bridge) → OneMore b.sends (send_new_chat_row env wa r b)
  unfolding send_fresh fail_new_chat send_new_chat_row
  send_new_chat_row-OneMore r b = elim (Option-cases (unstamped_of r.id b.unstamped)) [
    | inr (w, e) ↦ rw (send_new_chat_row-stamped env wa r w b e) (omega arith)
    | inl e ↦
        rw (e, send_new_chat_row)
          (if-cases (OneMore b.sends) r.expired (omega arith) (
            if-cases (OneMore b.sends)
              (not (kind_text r.kind == "text") || is_empty (trim_space (text_of r.body)))
              (omega arith)
              (if-cases (OneMore b.sends) (not (is_mx_phone (text_of r.to_phone))) (omega arith)
                (after_lookup-OneMore r (wa.lookup b.calls (text_of r.to_phone)) _))))
  ]

  with_row-OneMore :
      (res : Result (Option NewChatRow)) (b : Bridge) → OneMore b.sends (with_row env wa res b)
  with_row-OneMore (err e) b = omega arith
  with_row-OneMore (ok none) b = omega arith
  with_row-OneMore (ok (some r)) b = send_new_chat_row-OneMore r b

-- One tick hands at most one message to WhatsApp, whatever the server and WhatsApp answer.
pub process_new_chats-OneMore :
    (env : Env) (wa : Whatsapp) (b : Bridge) → OneMore b.sends (process_new_chats env wa b)
unfolding process_new_chats
process_new_chats-OneMore env wa b =
    if-cases (OneMore b.sends) (feature_off b.world feature_new_chat) (omega arith) (
      if-cases (OneMore b.sends) (too_soon b.last_lookup (wa.now b.calls)) (omega arith)
        (with_row-OneMore env wa _ _))
