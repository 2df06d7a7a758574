-- ===== src/Bridge/Quote.antt =====
-- Quotes of outbound replies: quoteLabel, participantFor and buildQuoteContext of
-- internal/wabridge/messages.go.
use enviadores_wabridge.Prelude.{
  ℕ, String, Bool, false, not, ◌&&◌, Option, none, some, [], ◌++◌, ◌==◌, if◌then◌else◌,
}
use enviadores_wabridge.Text.Utf8.{Bytes, utf8}
use enviadores_wabridge.Text.Trim.{trim_space}
use enviadores_wabridge.Store.Messages.{is_empty}
use enviadores_wabridge.Store.Tail.{QuotedRow}
use enviadores_wabridge.Bridge.Whatsapp.{Jid, group_server, hidden_user_server}
use enviadores_wabridge.Bridge.Content.{QuoteContext}
use enviadores_wabridge.Bridge.Client.{jid, bad_jid, Client}
use enviadores_wabridge.Bridge.NewChat.{text_of}

-- quotedPreviewMax
abbrev pub quoted_preview_max : ℕ
quoted_preview_max = 255

-- The label of a message that has no text.
abbrev pub type_label : String → Bytes → Bytes
type_label kind filename =
    if kind == "image"
    then utf8 "📷 Foto"
    else if kind == "video"
    then utf8 "🎥 Video"
    else if kind == "audio"
    then utf8 "🎤 Audio"
    else if kind == "document"
    then (if is_empty filename then utf8 "📄 Documento" else utf8 "📄 " ++ filename)
    else if kind == "sticker"
    then utf8 "Sticker"
    else if kind == "revoked"
    then utf8 "Mensaje eliminado"
    else []

-- quoteLabel
unfoldable pub quote_label : String → Bytes → Bytes → Bytes
quote_label kind body filename =
    if kind == "location"
    then utf8 "📍 Ubicación"
    else if kind == "contact"
    then (if is_empty body then utf8 "👤 Contacto" else utf8 "👤 " ++ body)
    else if not (is_empty (trim_space body))
    then body
    else type_label kind filename

module _ (c : Client) where
  abbrev pub in_lid_form : Option String → Bool
  in_lid_form none = false
  in_lid_form (some text) = elim (c.parse_jid text) [
    | jid j ↦ j.server == hidden_user_server
    | bad_jid _ ↦ false
  ]

  abbrev pub member : Option String → Jid
  member none = c.empty_jid
  member (some text) = elim (c.parse_jid text) [ jid j ↦ c.to_non_ad j | bad_jid _ ↦ c.empty_jid ]

  -- participantFor, with our own JIDs as ownPN and ownLID give them
  unfoldable pub participant_for : QuotedRow → Jid → Jid
  participant_for row chat =
      if row.from_me
      then (if chat.server == hidden_user_server && not (c.is_empty_jid c.own_lid)
          then c.to_non_ad c.own_lid
          else if chat.server == group_server
              && not (c.is_empty_jid c.own_lid)
              && in_lid_form row.sender_jid
          then c.to_non_ad c.own_lid
          else c.to_non_ad c.own_pn)
      else if chat.server == group_server
      then member row.sender_jid
      else c.to_non_ad chat

-- buildQuoteContext
unfoldable pub build_quote_context : Client → String → Jid → QuotedRow → QuoteContext
build_quote_context c stanza_id participant row = record {
  stanza_id = stanza_id;
  participant = if c.is_empty_jid participant then none else some participant.text;
  quoted_text = quote_label row.message_type (text_of row.body) (text_of row.media_filename);
}
