-- ===== src/Bridge/Outbound.antt =====
-- Rows of wa_outbound for chats that exist: outboundRow, queryPendingOutbound, markOutboundAttempt,
-- markOutboundPermanentlyFailed and previewForKind of internal/wabridge/wabridge.go.
pub mod Record
pub mod Build
pub mod Send
pub mod Quiet
pub mod Steps
pub mod Attempt
pub mod Batch
pub mod Tick
pub mod Lost
use enviadores_wabridge.Prelude.{
  ℕ, suc, ◌+◌, ◌≡◌, String, Bool, true, false, not, ◌&&◌, ◌||◌, Option, none, some, List, [], ◌∷◌,
  ◌++◌, ◌==◌, eqb, ltb, leb, if◌then◌else◌, take,
}
use enviadores_wabridge.Text.Utf8.{Bytes, utf8}
use enviadores_wabridge.Store.Failure.{Error, Result, ok, err, other}
use enviadores_wabridge.Store.Tables.{OutboundRow, Db}
use enviadores_wabridge.Store.Exec.{Env, World, M, Action, query, ◌>>=◌, pure, fail}
use enviadores_wabridge.Store.Fallback.{fallback}
use enviadores_wabridge.Store.Messages.{is_empty}
use enviadores_wabridge.Store.Outbound.{outbound_max_attempts, fail_outbound, mark_attempt}
use enviadores_wabridge.Bridge.Whatsapp.{Jid}
use enviadores_wabridge.Bridge.Content.{Content}
use enviadores_wabridge.Bridge.NewChat.{Bridge, backoff_over, quietly}

abbrev pub feature_outbound_quote : String
feature_outbound_quote = "wa_outbound.quoted_message_id"

-- outboundRow
pub record OutboundWork : Type 0 where
  pub id : ℕ
  pub client_request_id : String
  pub chat_jid : String
  pub body : Bytes
  pub kind : String
  pub media_url : Option Bytes
  pub media_mime : Option Bytes
  pub media_filename : Option Bytes
  pub media_size : Option ℕ
  pub media_sha256 : Option Bytes
  pub attempts : ℕ
  pub quoted_message_id : Option String

-- What was handed to WhatsApp for a row.
pub data Payload : Type 0 where
  message : Content → Payload
  reaction : String → Bytes → Payload

pub record Handed : Type 0 where
  pub row : ℕ
  pub payload : Payload

-- The bridge, and what its outbound queue handed to WhatsApp so far, newest first.
pub record Outbox : Type 0 where
  pub bridge : Bridge
  pub handed : List Handed

-- WHERE status = 'pending' AND attempts < 5 AND the backoff is over
abbrev pub sendable : ℕ → OutboundRow → Bool
sendable now r = r.status == "pending" && ltb r.attempts outbound_max_attempts && backoff_over now r

-- ORDER BY id over the rows that a condition selects.
unfoldable pub insert_by_id : OutboundRow → List OutboundRow → List OutboundRow
insert_by_id r [] = r ∷ []
insert_by_id r (q ∷ qs) =
    let later = insert_by_id r qs in if leb r.id q.id then r ∷ q ∷ qs else q ∷ later

unfoldable pub sorted_where : (OutboundRow → Bool) → List OutboundRow → List OutboundRow
sorted_where p [] = []
sorted_where p (r ∷ rs) = let rest = sorted_where p rs in if p r then insert_by_id r rest else rest

-- Scan: a NULL in one of the columns that are read as plain values fails.
abbrev pub scan_row : Bool → OutboundRow → Option OutboundWork
scan_row with_quote r = scan_texts r.client_request_id r.chat_jid r.body r.kind
  where
    scan_texts : Option String → Option String → Option Bytes → Option String → Option OutboundWork
    scan_texts (some request) (some chat) (some body) (some kind) = some (record {
      id = r.id;
      client_request_id = request;
      chat_jid = chat;
      body = body;
      kind = kind;
      media_url = r.media_url;
      media_mime = r.media_mime;
      media_filename = r.media_filename;
      media_size = r.media_size;
      media_sha256 = r.media_sha256;
      attempts = r.attempts;
      quoted_message_id = if with_quote then r.quoted_message_id else none;
    })
    scan_texts _ _ _ _ = none

abbrev pub scan_more : Option OutboundWork → Option (List OutboundWork) → Option (List OutboundWork)
scan_more (some w) (some ws) = some (w ∷ ws)
scan_more _ _ = none

unfoldable pub scan_rows : Bool → List OutboundRow → Option (List OutboundWork)
scan_rows with_quote [] = some []
scan_rows with_quote (r ∷ rs) = scan_more (scan_row with_quote r) (scan_rows with_quote rs)

abbrev pub scan_error : Error
scan_error = other (utf8 "sql: Scan error: converting NULL to string is unsupported")

abbrev pub scanned_or_fail : Option (List OutboundWork) → M (List OutboundWork)
scanned_or_fail none = fail scan_error
scanned_or_fail (some ws) = pure ws

-- queryPendingOutbound
unfoldable pub query_pending_outbound : Env → Bool → M (List OutboundWork)
query_pending_outbound env with_quote =
    query env (λ now db. scan_rows with_quote (take 10 (sorted_where (sendable now) db.outbound)))
    >>= scanned_or_fail

unfoldable pub read_batch : Env → M (List OutboundWork)
read_batch env =
    fallback feature_outbound_quote (query_pending_outbound env true)
      (some (query_pending_outbound env false)) []

-- A store call whose error is only logged.
abbrev pub on_store : Action → Outbox → Outbox
on_store m o = record o { bridge = quietly m o.bridge }

-- markOutboundAttempt
unfoldable pub mark_outbound_attempt : Env → OutboundWork → Bytes → Outbox → Outbox
mark_outbound_attempt env r msg = on_store (mark_attempt env r.id r.attempts "SEND_FAILED" msg)

-- markOutboundPermanentlyFailed
unfoldable pub mark_outbound_permanently_failed : Env → ℕ → String → Bytes → Outbox → Outbox
mark_outbound_permanently_failed env id code msg =
    on_store (fail_outbound env id outbound_max_attempts code msg)

-- previewForKind
unfoldable pub preview_for_kind : String → Bytes → Bytes
preview_for_kind kind filename =
    if kind == "image"
    then utf8 "📷 Imagen"
    else if kind == "video"
    then utf8 "🎬 Video"
    else if kind == "audio"
    then utf8 "🎵 Audio"
    else if kind == "document"
    then (if is_empty filename then utf8 "📄 Documento" else utf8 "📄 " ++ filename)
    else []
