-- ===== src/Bridge/NewChat/Tick.antt =====
-- processNewChats, sendNewChatRow, claimNewChatMessageID's caller and newChatDisplayName of
-- internal/wabridge/newchat.go: one tick of first messages.
use enviadores_wabridge.Prelude.{
  ℕ, suc, ◌-◌, String, Bool, true, false, not, ◌&&◌, ◌||◌, Option, none, some, List, [], ◌∷◌, ◌++◌,
  ◌==◌, ltb, if◌then◌else◌,
}
use enviadores_wabridge.Text.Utf8.{Bytes, utf8}
use enviadores_wabridge.Text.Cut.{truncate, quote_for_log}
use enviadores_wabridge.Text.Trim.{trim_space}
use enviadores_wabridge.Store.Failure.{Result, ok, err}
use enviadores_wabridge.Store.Exec.{Env, feature_off}
use enviadores_wabridge.Store.Fallback.{fallback}
use enviadores_wabridge.Store.Messages.{is_empty}
use enviadores_wabridge.Store.Outbound.{mark_attempt, claim_new_chat_message_id}
use enviadores_wabridge.Bridge.Whatsapp.{
  Jid, OnWhatsapp, SendResponse, SendResult, sent, send_failed, Whatsapp, default_user_server,
  hidden_user_server,
}
use enviadores_wabridge.Bridge.NewChat.{
  feature_new_chat, new_chat_min_gap, is_mx_phone, NewChatWrites, Bridge, canonical_chat_jid,
  null_string, null_bytes, text_of, NewChatRow, query_resolve_outbound, quietly, fail_new_chat,
  unstamped_of, forget, finish_new_chat,
}

-- newChatDisplayName
unfoldable pub new_chat_display_name : Whatsapp → Jid → OnWhatsapp → Option Bytes → Option Bytes
new_chat_display_name wa target hit to_name =
    let verified = trim_space (text_of hit.verified_name) in
    if not (is_empty (wa.contact_name target))
    then null_bytes (wa.contact_name target)
    else if not (is_empty (wa.contact_name hit.phone_number))
    then null_bytes (wa.contact_name hit.phone_number)
    else if not (is_empty verified)
    then null_bytes verified
    else null_bytes (trim_space (text_of to_name))

abbrev pub expired_detail : Option String → Bytes
expired_detail none = utf8 "queued more than 23h0m0s ago, not sent"
expired_detail (some wa_id) =
    utf8 "queued more than 23h0m0s ago, not sent"
    ++ (utf8 " (an earlier attempt may have sent it as " ++ (utf8 wa_id ++ b')' ∷ []))

abbrev pub kind_text : Option String → String
kind_text none = ""
kind_text (some k) = k

abbrev pub too_soon : Option ℕ → ℕ → Bool
too_soon none now = false
too_soon (some last) now = ltb (now - last) new_chat_min_gap

module _ (env : Env) (wa : Whatsapp) where
  -- What the send of a row still has to store.
  unfoldable pub new_chat_writes : NewChatRow → OnWhatsapp → Jid → SendResponse → NewChatWrites
  new_chat_writes r hit target resp = record {
    chat = record {
      jid = target.text;
      display_name = new_chat_display_name wa target hit r.to_name;
      phone_e164 =
          if hit.phone_number.server == default_user_server && not (is_empty hit.phone_number.user)
          then some (b'+' ∷ hit.phone_number.user)
          else r.to_phone;
      is_group = false;
      profile_pic_url = none;
      last_message_at = some resp.timestamp;
      last_message_preview = null_bytes (truncate (text_of r.body) 160);
      last_message_from_me = true;
      increment_unread = false;
    };
    message = record {
      id = resp.id;
      chat_jid = target.text;
      sender_jid = null_string wa.self;
      from_me = true;
      message_type = "text";
      body = null_bytes (text_of r.body);
      media_url = none;
      media_mime = none;
      media_size = none;
      media_filename = none;
      media_sha256 = none;
      media_thumbnail_url = none;
      quoted_message_id = none;
      quoted_preview = none;
      quoted_sender_jid = none;
      target_message_id = none;
      client_request_id = r.client_request_id;
      location_name = none;
      location_address = none;
      timestamp = resp.timestamp;
      status = some "sent";
    };
    wa_id = resp.id;
  }

  abbrev pub after_send : NewChatRow → OnWhatsapp → Jid → SendResult → Bridge → Bridge
  after_send r hit target (send_failed msg) b =
      quietly (mark_attempt env r.id r.attempts "SEND_FAILED" msg) b
  after_send r hit target (sent resp) b =
      let w = new_chat_writes r hit target resp in
      finish_new_chat env r.id w (record b { unstamped = (r.id, w) ∷ forget r.id b.unstamped })

  -- The send itself, under a message id that is on the row.
  unfoldable pub send_as : NewChatRow → OnWhatsapp → Jid → String → Bridge → Bridge
  send_as r hit target wa_id b =
      after_send r hit target (wa.send b.calls target (text_of r.body) wa_id)
        (record b { sends = record { row = r.id; wa_id = wa_id } ∷ b.sends; calls = suc b.calls })

  abbrev pub after_claim : NewChatRow → OnWhatsapp → Jid → String → Result Bool → Bridge → Bridge
  after_claim r hit target wa_id (err e) b = b
  after_claim r hit target wa_id (ok false) b = b
  after_claim r hit target wa_id (ok true) b = send_as r hit target wa_id b

  -- A row with no message id gets a fresh one first.
  unfoldable pub claim_and_send : NewChatRow → OnWhatsapp → Jid → Bridge → Bridge
  claim_and_send r hit target b =
      let wa_id = wa.new_id b.calls in
      let m = claim_new_chat_message_id env r.id wa_id in
      after_claim r hit target wa_id (m b.world).0
        (record b { world = (m b.world).1; calls = suc b.calls })

  abbrev pub with_message_id : NewChatRow → OnWhatsapp → Jid → Option String → Bridge → Bridge
  with_message_id r hit target none b = claim_and_send r hit target b
  with_message_id r hit target (some wa_id) b =
      if wa_id == "" then claim_and_send r hit target b else send_as r hit target wa_id b

  unfoldable pub send_to_hit : NewChatRow → OnWhatsapp → Bridge → Bridge
  send_to_hit r hit b =
      if not hit.is_in
      then fail_new_chat env r.id "NOT_ON_WHATSAPP" (utf8 "number is not on WhatsApp") b
      else if is_empty hit.jid.user
          || not (hit.jid.server == default_user_server)
            && not (hit.jid.server == hidden_user_server)
      then fail_new_chat env r.id "INVALID_PHONE"
          (utf8 "lookup returned a non-user JID " ++ utf8 hit.jid.text) b
      else with_message_id r hit
          (if hit.jid.server == default_user_server then canonical_chat_jid wa hit.jid else hit.jid)
          r.wa_message_id b

  abbrev pub after_lookup : NewChatRow → List OnWhatsapp × Option Bytes → Bridge → Bridge
  after_lookup r ([], some e) b =
      quietly (mark_attempt env r.id r.attempts "LOOKUP_FAILED" (utf8 "whatsapp lookup: " ++ e)) b
  after_lookup r ([], none) b =
      fail_new_chat env r.id "NOT_ON_WHATSAPP" (utf8 "number is not on WhatsApp") b
  after_lookup r (hit ∷ _, _) b = send_to_hit r hit b

  -- A row that is not already sent by this process.
  unfoldable pub send_fresh : NewChatRow → Bridge → Bridge
  send_fresh r b =
      if r.expired
      then fail_new_chat env r.id "EXPIRED" (expired_detail r.wa_message_id) b
      else if not (kind_text r.kind == "text") || is_empty (trim_space (text_of r.body))
      then fail_new_chat env r.id "UNSUPPORTED_KIND"
          (utf8 "a new chat takes a text message, got kind " ++ utf8 (kind_text r.kind)) b
      else if not (is_mx_phone (text_of r.to_phone))
      then fail_new_chat env r.id "INVALID_PHONE"
          (utf8 "to_phone must be +52 and 10 digits, got " ++ quote_for_log (text_of r.to_phone)) b
      else after_lookup r (wa.lookup b.calls (text_of r.to_phone))
          (record b { last_lookup = some (wa.now b.calls); calls = suc b.calls })

  -- sendNewChatRow
  unfoldable pub send_new_chat_row : NewChatRow → Bridge → Bridge
  send_new_chat_row r b = elim (unstamped_of r.id b.unstamped) [
    | some w ↦ finish_new_chat env r.id w b
    | none ↦ send_fresh r b
  ]

  abbrev pub with_row : Result (Option NewChatRow) → Bridge → Bridge
  with_row (err e) b = b
  with_row (ok none) b = b
  with_row (ok (some r)) b = send_new_chat_row r b

  -- processNewChats
  unfoldable pub process_new_chats : Bridge → Bridge
  process_new_chats b =
      let m = fallback feature_new_chat (query_resolve_outbound env) none none in
      let b' = record b { calls = suc b.calls } in
      if feature_off b.world feature_new_chat
      then b
      else if too_soon b.last_lookup (wa.now b.calls)
      then b'
      else with_row (m b'.world).0 (record b' { world = (m b'.world).1 })
