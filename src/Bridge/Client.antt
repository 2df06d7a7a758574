-- ===== src/Bridge/Client.antt =====
-- What else the bridge asks of the WhatsApp client and of the host that it runs on, by their
-- answers: JIDs and their texts, sending, the upload to WhatsApp, the shared file host, and the
-- tools that read pictures and PDF files.
use enviadores_wabridge.Prelude.{ℕ, String, Bool, Option}
use enviadores_wabridge.Text.Utf8.{Bytes}
use enviadores_wabridge.Store.Failure.{Error}
use enviadores_wabridge.Bridge.Whatsapp.{Jid, SendResult, Whatsapp}
use enviadores_wabridge.Bridge.Content.{Upload, Picture, MediaType, Content}

-- types.ParseJID: the JID, or the text of the error.
pub data ParsedJid : Type 0 where
  jid : Jid → ParsedJid
  bad_jid : Bytes → ParsedJid

-- A step outside the program that yields a value or the text of an error.
pub data Answer {ℓ} (A : Type ℓ) : Type ℓ where
  given : A → Answer A
  failure : Bytes → Answer A

-- What ExtractPDFPreview of internal/media/pdf.go reads through poppler's tools.
pub record PdfPreview : Type 0 where
  pub page_count : ℕ
  pub title : Bytes
  pub thumbnail : Picture

pub record Client : Type 0 where
  pub whatsapp : Whatsapp
  pub parse_jid : String → ParsedJid
  -- JID.IsEmpty and JID.ToNonAD
  pub is_empty_jid : Jid → Bool
  pub to_non_ad : Jid → Jid
  -- the empty JID
  pub empty_jid : Jid
  -- GetPNForLID: the phone JID that is known for a LID
  pub pn_for_lid : Jid → Option Jid
  -- the account's own JIDs, without the device
  pub own_pn : Jid
  pub own_lid : Jid
  -- SendMessage, and SendMessage of what BuildReaction makes of a sender, a message id and an emoji
  pub send_content : ℕ → Jid → Content → SendResult
  pub send_reaction : ℕ → Jid → Jid → String → Bytes → SendResult

-- The shared file host, the tools, and the texts of the store's errors.
pub record Host : Type 0 where
  -- the name of a media URL below the public base, empty when it is not one of ours
  pub basename : Bytes → Bytes
  pub public_base : Bytes
  pub read : ℕ → Bytes → Answer Bytes
  pub upload : ℕ → Bytes → MediaType → Answer Upload
  pub image_thumbnail : Bytes → Option Picture
  pub pdf_preview : ℕ → Bytes → Option PdfPreview
  pub error_text : Error → Bytes
  -- the public URL of a stored thumbnail
  pub store_thumbnail : ℕ → Bytes → Bytes → Option Bytes
