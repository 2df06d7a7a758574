-- ===== src/Bridge/Inbound/Live.antt =====
-- handleMessage of internal/wabridge/wabridge.go: one message as it arrives.
pub mod Kept
pub mod Rows
pub mod Stored
use enviadores_wabridge.Prelude.{
  ℕ, String, Bool, true, false, not, Option, none, some, List, [], ◌∷◌, ◌==◌, if◌then◌else◌,
}
use enviadores_wabridge.Text.Utf8.{Bytes}
use enviadores_wabridge.Store.Failure.{Result, ok, err}
use enviadores_wabridge.Store.Tables.{Message}
use enviadores_wabridge.Store.Exec.{Env, World}
use enviadores_wabridge.Store.Messages.{insert_message}
use enviadores_wabridge.Store.Chats.{Chat, upsert_chat}
use enviadores_wabridge.Bridge.Whatsapp.{Jid}
use enviadores_wabridge.Bridge.Client.{Client}
use enviadores_wabridge.Bridge.Location.{Floats}
use enviadores_wabridge.Bridge.Preview.{MediaDescriptor, preview_for}
use enviadores_wabridge.Bridge.NewChat.{canonical_chat_jid, null_string, null_bytes}
use enviadores_wabridge.Bridge.Proto.Classify.{Classified, classify_message}
use enviadores_wabridge.Bridge.Proto.Reply.{QuoteInfo, context_info_of, quote_from_context}
use enviadores_wabridge.Bridge.Proto.Action.{
  Resolved, none_asked, edits, revokes, drops, resolve_action, ReactionFound, no_reaction, reacted,
  unreadable, reaction_of,
}
use enviadores_wabridge.Bridge.Inbound.{MessageInfo, is_skipped_chat, default_status, chat_aliases}
use enviadores_wabridge.Bridge.Inbound.Actions.{
  ProtoAction, ordinary, edit, revoke, dropped, apply_protocol_action, store_reaction,
}
use enviadores_wabridge.Bridge.Inbound.Media.{
  Incoming, Outside, Columns, location_fields, fetch_media, fetch_profile_pic_url,
  resolve_display_name, resolve_phone,
}

-- An action with the body that classifyMessage finds in an edit.
abbrev pub action_of : Floats → Resolved → ProtoAction
action_of fl none_asked = ordinary
action_of fl (edits target m) = edit target (null_bytes (classify_message fl m).body)
action_of fl (revokes target) = revoke target
action_of fl (drops reason) = dropped reason

-- The rows that a message becomes.
unfoldable pub message_chat : Client → Outside → Incoming → Jid → Classified → Chat
message_chat c out e chat k = record {
  jid = chat.text;
  display_name = resolve_display_name c e;
  phone_e164 = resolve_phone c e.info.chat;
  is_group = e.info.is_group;
  profile_pic_url = fetch_profile_pic_url out chat;
  last_message_at = some e.info.timestamp;
  last_message_preview = null_bytes (preview_for k.message_type k.body k.media);
  last_message_from_me = e.info.is_from_me;
  increment_unread = not e.info.is_from_me;
}

unfoldable pub message_row : MessageInfo → String → Classified → QuoteInfo → Columns → Message
message_row i jid k q m = record {
  id = i.id;
  chat_jid = jid;
  sender_jid = null_string i.sender.text;
  from_me = i.is_from_me;
  message_type = k.message_type;
  body = null_bytes k.body;
  media_url = m.url;
  media_mime = m.mime;
  media_size = m.size;
  media_filename = m.filename;
  media_sha256 = m.sha256;
  media_thumbnail_url = m.thumbnail_url;
  quoted_message_id = q.message_id;
  quoted_preview = q.preview;
  quoted_sender_jid = q.sender_jid;
  target_message_id = none;
  client_request_id = none;
  location_name = (location_fields k.media).0;
  location_address = (location_fields k.media).1;
  timestamp = i.timestamp;
  status = some (default_status i.is_from_me);
}

module _ (env : Env) (c : Client) (fl : Floats) (out : Outside) where
  -- After UpsertChat: the message goes in only if the chat is stored.
  abbrev pub after_upsert : Message → Result (Unit {0}) × World → World
  after_upsert m (err e, w) = w
  after_upsert m (ok _, w) = (insert_message env m w).1

  -- A message that is stored.
  unfoldable pub store_message : Incoming → Jid → Classified → World → World
  store_message e chat k w =
      let q = quote_from_context fl (context_info_of e.message) in
      after_upsert (message_row e.info chat.text k q (fetch_media out k.message_type k.media))
        (upsert_chat env (message_chat c out e chat k) w)

  abbrev pub store_content : Incoming → Jid → World → World
  store_content e chat w =
      let k = classify_message fl e.message in
      if k.message_type == "system" then w else store_message e chat k w

  -- What is no edit and no delete.
  unfoldable pub store_incoming : Incoming → Jid → List String → World → World
  store_incoming e chat chats w = elim (reaction_of e.message out.secret_reaction) [
    | unreadable ↦ w
    | reacted target emoji ↦ store_reaction env c e.info chats target emoji w
    | no_reaction ↦ store_content e chat w
  ]

  -- handleMessage
  unfoldable pub handle_message : Incoming → World → World
  handle_message e w =
      let chat = canonical_chat_jid c.whatsapp e.info.chat in
      let chats = chat_aliases c e.info.chat chat in
      let act = action_of fl (resolve_action e.message out.secret) in
      let handled = apply_protocol_action env e.info chats act w in
      if is_skipped_chat e.info.chat
      then w
      else if handled.0
      then handled.1
      else store_incoming e chat chats handled.1
