-- ===== src/Bridge/Proto/Reply.antt =====
-- The reply that a message carries: contextInfoOf, quoteInfo, quoteFromContext and quotedPreview of
-- internal/wabridge/messages.go.
use enviadores_wabridge.Prelude.{
  ℕ, String, not, ◌&&◌, ◌||◌, Option, none, some, List, [], ◌∷◌, ◌==◌, ltb, leb, length,
  if◌then◌else◌,
}
use enviadores_wabridge.Text.Utf8.{Bytes, utf8}
use enviadores_wabridge.Text.Cut.{truncate_runes}
use enviadores_wabridge.Text.Search.{starts_with}
use enviadores_wabridge.Store.Messages.{is_empty}
use enviadores_wabridge.Bridge.Location.{Floats}
use enviadores_wabridge.Bridge.Preview.{MediaDescriptor, location_label}
use enviadores_wabridge.Bridge.Quote.{quoted_preview_max, quote_label}
use enviadores_wabridge.Bridge.NewChat.{null_string, null_bytes}
use enviadores_wabridge.Bridge.Proto.{
  Proto, Field, Inner, absent, holds, Context, no_context, context, extended_text, image, video,
  audio, document, sticker, location, live_location, contact, poll, buttons, buttons_response, list,
  list_response, plain, get, unwrap_message,
}
use enviadores_wabridge.Bridge.Proto.Classify.{Classified, classify_message}

-- GetContextInfo of a field, nil for a field that is not set.
abbrev pub context_info : Option Field → Context
context_info (some (extended_text _ c)) = c
context_info (some (image _ c)) = c
context_info (some (video _ c)) = c
context_info (some (audio _ c)) = c
context_info (some (document _ c)) = c
context_info (some (sticker _ c)) = c
context_info (some (location _ c)) = c
context_info (some (live_location _ c)) = c
context_info (some (contact _ c)) = c
context_info (some (poll _ _ _ c)) = c
context_info (some (buttons _ c)) = c
context_info (some (buttons_response _ c)) = c
context_info (some (list _ _ c)) = c
context_info (some (list_response _ c)) = c
context_info (some (plain _ c)) = c
context_info _ = no_context

-- The contents that contextInfoOf asks, in its order.
abbrev pub repliers : List String
repliers =
    "ExtendedTextMessage" ∷ "ImageMessage" ∷ "VideoMessage" ∷ "AudioMessage" ∷ "DocumentMessage"
    ∷ "StickerMessage" ∷ "LocationMessage" ∷ "LiveLocationMessage" ∷ "ContactMessage"
    ∷ "ContactsArrayMessage" ∷ "ButtonsMessage" ∷ "ButtonsResponseMessage" ∷ "ListMessage"
    ∷ "ListResponseMessage" ∷ "TemplateMessage" ∷ "TemplateButtonReplyMessage"
    ∷ "InteractiveMessage" ∷ "InteractiveResponseMessage" ∷ "PollCreationMessage"
    ∷ "GroupInviteMessage" ∷ "ProductMessage" ∷ "OrderMessage" ∷ []

unfoldable pub first_context : List String → Proto → Context
first_context [] m = no_context
first_context (n ∷ ns) m =
    let rest = first_context ns m in
    elim (context_info (get n m)) [ no_context ↦ rest | context i p q ↦ context i p q ]

-- contextInfoOf
unfoldable pub context_info_of : Proto → Context
unfolding first_context
context_info_of m = first_context repliers (unwrap_message m)

-- quoteInfo
pub record QuoteInfo : Type 0 where
  pub message_id : Option String
  pub preview : Option Bytes
  pub sender_jid : Option String

abbrev pub no_quote : QuoteInfo
no_quote = record { message_id = none; preview = none; sender_jid = none }

-- maxJIDLen
abbrev pub max_jid_len : ℕ
max_jid_len = 64

module _ (fl : Floats) where
  abbrev pub filename_of : Option MediaDescriptor → Bytes
  filename_of none = []
  filename_of (some m) = m.filename

  abbrev pub place_name : Option MediaDescriptor → Bytes
  place_name none = []
  place_name (some m) = m.location_name

  abbrev pub preview_of : Classified → Bytes
  preview_of c =
      if c.message_type == "system"
        || c.message_type == "other" && starts_with (utf8 "[proto:") c.body
      then []
      else if c.message_type == "location" && not (is_empty (place_name c.media))
      then truncate_runes (location_label (place_name c.media)) quoted_preview_max
      else truncate_runes (quote_label c.message_type c.body (filename_of c.media))
          quoted_preview_max

  -- quotedPreview
  unfoldable pub quoted_preview : Inner → Bytes
  quoted_preview absent = []
  quoted_preview (holds m) = preview_of (classify_message fl (unwrap_message m))

  -- quoteFromContext
  unfoldable pub quote_from_context : Context → QuoteInfo
  quote_from_context no_context = no_quote
  quote_from_context (context stanza participant quoted) =
      if stanza == "" || ltb 64 (length (utf8 stanza)) then no_quote else record {
        message_id = null_string stanza;
        preview = null_bytes (quoted_preview quoted);
        sender_jid =
            if not (participant == "") && leb (length (utf8 participant)) max_jid_len
            then null_string participant
            else none;
      }
