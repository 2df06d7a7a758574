-- ===== src/Bridge/Outbound/Record.antt =====
-- What is written once WhatsApp took an outbound message: the stamp of its row, the row of
-- wa_messages and the chat's tail, from sendOutboundRow of internal/wabridge/wabridge.go.
use enviadores_wabridge.Prelude.{ℕ, String, true, false, Option, none, some, if◌then◌else◌}
use enviadores_wabridge.Text.Utf8.{Bytes}
use enviadores_wabridge.Text.Cut.{truncate}
use enviadores_wabridge.Store.Tables.{Message}
use enviadores_wabridge.Store.Exec.{Env, Action, exec}
use enviadores_wabridge.Store.Messages.{is_empty, insert_message}
use enviadores_wabridge.Store.Chats.{Chat, upsert_chat}
use enviadores_wabridge.Store.Outbound.{update_outbound, sent_row}
use enviadores_wabridge.Bridge.Whatsapp.{SendResponse}
use enviadores_wabridge.Bridge.Content.{QuoteContext, Place}
use enviadores_wabridge.Bridge.Client.{Client}
use enviadores_wabridge.Bridge.Location.{Floats, coordinates}
use enviadores_wabridge.Bridge.Preview.{location_label}
use enviadores_wabridge.Bridge.NewChat.{text_of, null_bytes, null_string}
use enviadores_wabridge.Bridge.Outbound.{OutboundWork, Outbox, on_store, preview_for_kind}

-- outboundQuote
pub record OutboundQuote : Type 0 where
  pub context : QuoteContext
  pub preview : Bytes
  pub sender_jid : String

-- The reply target of a row, empty when it has none.
abbrev pub quoted_id : OutboundWork → String
quoted_id r = elim r.quoted_message_id [ none ↦ "" | some id ↦ id ]

-- The UPDATE that stamps a row: it leaves error_code as it is.
unfoldable pub stamp : Env → ℕ → String → Action
stamp env id wa_id = exec env λ now. update_outbound id (sent_row false wa_id now)

abbrev pub body_of : Floats → OutboundWork → Option Place → Option Bytes
body_of fl r none = null_bytes r.body
body_of fl r (some p) = null_bytes (coordinates fl (p.lat, p.lng))

-- The row of wa_messages for a sent row.
unfoldable pub sent_message :
    Client
    → Floats
    → OutboundWork
    → String
    → Option OutboundQuote
    → String
    → Option Bytes
    → Option Place
    → SendResponse
    → Message
sent_message c fl r store_jid quote kind thumb place resp = record {
  id = resp.id;
  chat_jid = store_jid;
  sender_jid = null_string c.whatsapp.self;
  from_me = true;
  message_type = kind;
  body = body_of fl r place;
  media_url = r.media_url;
  media_mime = r.media_mime;
  media_size = r.media_size;
  media_filename = r.media_filename;
  media_sha256 = r.media_sha256;
  media_thumbnail_url = thumb;
  quoted_message_id = elim quote [ none ↦ none | some q ↦ null_string (quoted_id r) ];
  quoted_preview = elim quote [ none ↦ none | some q ↦ null_bytes q.preview ];
  quoted_sender_jid = elim quote [ none ↦ none | some q ↦ null_string q.sender_jid ];
  target_message_id = none;
  client_request_id = null_string r.client_request_id;
  location_name = elim place [ none ↦ none | some p ↦ null_bytes p.name ];
  location_address = elim place [ none ↦ none | some p ↦ null_bytes p.address ];
  timestamp = resp.timestamp;
  status = some "sent";
}

abbrev pub sent_preview : OutboundWork → String → Option Place → Bytes
sent_preview r kind (some p) = location_label p.name
sent_preview r kind none =
    if is_empty r.body then preview_for_kind kind (text_of r.media_filename) else r.body

-- The chat's tail after a sent row.
unfoldable pub sent_chat : OutboundWork → String → String → Option Place → SendResponse → Chat
sent_chat r store_jid kind place resp = record {
  jid = store_jid;
  display_name = none;
  phone_e164 = none;
  is_group = false;
  profile_pic_url = none;
  last_message_at = some resp.timestamp;
  last_message_preview = null_bytes (truncate (sent_preview r kind place) 160);
  last_message_from_me = true;
  increment_unread = false;
}

module _ (env : Env) (c : Client) (fl : Floats) where
  -- What is written after WhatsApp took a message; errors are logged only.
  unfoldable pub record_sent :
      OutboundWork
      → String
      → Option OutboundQuote
      → String
      → Option Bytes
      → Option Place
      → SendResponse
      → Outbox
      → Outbox
  record_sent r store_jid quote kind thumb place resp o =
      on_store (upsert_chat env (sent_chat r store_jid kind place resp)) (
        on_store (insert_message env (sent_message c fl r store_jid quote kind thumb place resp))
          (on_store (stamp env r.id resp.id) o))
