-- ===== src/Bridge/Content.antt =====
-- Outbound messages as they are handed to WhatsApp, and attachQuote of internal/wabridge/messages.go.
use enviadores_wabridge.Prelude.{ℕ, String, Option, some}
use enviadores_wabridge.Text.Utf8.{Bytes}

-- whatsmeow.UploadResponse
pub record Upload : Type 0 where
  pub url : Bytes
  pub direct_path : Bytes
  pub media_key : Bytes
  pub file_enc_sha256 : Bytes
  pub file_sha256 : Bytes
  pub file_length : ℕ

-- A picture made of a file: its JPEG bytes and its size.
pub record Picture : Type 0 where
  pub jpeg : Bytes
  pub width : ℕ
  pub height : ℕ

-- waProto.ContextInfo, the fields that a reply sets
pub record QuoteContext : Type 0 where
  pub stanza_id : String
  pub participant : Option String
  pub quoted_text : Bytes

-- The fields of an image, video, audio or document message.
pub record Media : Type 0 where
  pub upload : Upload
  pub mime : Bytes
  pub caption : Option Bytes
  pub file_name : Option Bytes
  pub title : Option Bytes
  pub page_count : Option ℕ
  pub thumbnail : Option Picture

-- whatsmeow.MediaType, what an upload is encrypted as
pub data MediaType : Type 0 where
  media_image media_video media_audio media_document : MediaType

-- outboundLocation, which is what a location message carries: the coordinates, each by the text
-- that stands for the number, and the place.
pub record Place : Type 0 where
  pub lat : Bytes
  pub lng : Bytes
  pub name : Bytes
  pub address : Bytes
  pub url : Bytes

-- waProto.Message, the shapes that the bridge sends
pub data Content : Type 0 where
  conversation : Bytes → Content
  extended_text : Bytes → Option QuoteContext → Content
  image video audio document captioned_document : Media → Option QuoteContext → Content
  location : Place → Option QuoteContext → Content

-- attachQuote
unfoldable pub attach_quote : Content → QuoteContext → Content
attach_quote (conversation s) q = extended_text s (some q)
attach_quote (extended_text s _) q = extended_text s (some q)
attach_quote (image m _) q = image m (some q)
attach_quote (video m _) q = video m (some q)
attach_quote (audio m _) q = audio m (some q)
attach_quote (document m _) q = document m (some q)
attach_quote (captioned_document m _) q = captioned_document m (some q)
attach_quote (location p _) q = location p (some q)
