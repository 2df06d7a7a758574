-- ===== src/Bridge/Inbound/Media.antt =====
-- What a message brings along: its files and the previews, locationFields, uploadLocationPreview,
-- deriveInboundThumbnail and the download of handleMessage, and the names of a chat,
-- resolveDisplayName, resolveDisplayNameForJID, resolvePhone and fetchProfilePicURL, of
-- internal/wabridge/wabridge.go.
use enviadores_wabridge.Prelude.{
  ℕ, String, not, ◌&&◌, ◌||◌, Option, none, some, [], ◌∷◌, ◌==◌, length, if◌then◌else◌,
}
use enviadores_wabridge.Text.Utf8.{Bytes, utf8}
use enviadores_wabridge.Text.Cut.{truncate_runes}
use enviadores_wabridge.Text.Search.{contains}
use enviadores_wabridge.Text.Trim.{trim_space}
use enviadores_wabridge.Store.Messages.{is_empty, is_some}
use enviadores_wabridge.Bridge.Whatsapp.{Jid, default_user_server, hidden_user_server, group_server}
use enviadores_wabridge.Bridge.Client.{Client, Answer, given, failure}
use enviadores_wabridge.Bridge.Preview.{MediaDescriptor}
use enviadores_wabridge.Bridge.NewChat.{null_bytes}
use enviadores_wabridge.Bridge.Outbound.Build.{location_name_max, location_address_max}
use enviadores_wabridge.Bridge.Proto.{Proto, Inner}
use enviadores_wabridge.Bridge.Inbound.{MessageInfo, resolve_pn_for_lid}

-- events.Message
pub record Incoming : Type 0 where
  pub info : MessageInfo
  pub push_name : Bytes
  pub message : Proto

-- What is asked of others while one event is handled, by their answers.
pub record Outside : Type 0 where
  -- the decryptors of an edit and of a reaction; none where there is none
  pub secret : Option (Answer Inner)
  pub secret_reaction : Option (Answer (Option (String × Bytes)))
  -- Download, by the file's handle
  pub download : Bytes → Answer Bytes
  -- Uploader.Upload of the content, its type and its name: the public URL and the hash
  pub publish : Bytes → Bytes → Bytes → Answer (Bytes × Bytes)
  -- uploadThumbnail by the hash, where there is one; none also for its error
  pub store_thumbnail : Bytes → Bytes → Option Bytes
  -- the JPEG bytes of ExtractPDFPreview, none for its error
  pub pdf_thumbnail : Bytes → Option Bytes
  pub sha256_hex : Bytes → Bytes
  -- the URL of GetProfilePictureInfo, empty where there is none
  pub profile_picture : Jid → Bytes

-- locationFields
unfoldable pub location_fields : Option MediaDescriptor → Option Bytes × Option Bytes
location_fields none = (none, none)
location_fields (some m) = (
  null_bytes (truncate_runes m.location_name location_name_max),
  null_bytes (truncate_runes m.location_address location_address_max),
)

-- The media columns of a row.
pub record Columns : Type 0 where
  pub url : Option Bytes
  pub mime : Option Bytes
  pub size : Option ℕ
  pub filename : Option Bytes
  pub sha256 : Option Bytes
  pub thumbnail_url : Option Bytes

abbrev pub no_columns : Columns
no_columns = record {
  url = none;
  mime = none;
  size = none;
  filename = none;
  sha256 = none;
  thumbnail_url = none;
}

abbrev pub url_of : Option Bytes → Option Bytes
url_of none = none
url_of (some u) = null_bytes u

module _ (out : Outside) where
  -- uploadLocationPreview
  unfoldable pub upload_location_preview : Option MediaDescriptor → Option Bytes
  upload_location_preview none = none
  upload_location_preview (some m) =
      if is_some m.downloadable || is_empty m.embedded_thumbnail
      then none
      else url_of (out.store_thumbnail (out.sha256_hex m.embedded_thumbnail) m.embedded_thumbnail)

  -- deriveInboundThumbnail; its error and no bytes are one, since both leave the column NULL
  unfoldable pub derive_inbound_thumbnail : String → MediaDescriptor → Bytes → Option Bytes
  derive_inbound_thumbnail kind m content =
      if not (is_empty m.embedded_thumbnail)
      then some m.embedded_thumbnail
      else if kind == "document" && contains (utf8 "pdf") m.mime
      then out.pdf_thumbnail content
      else none

  abbrev pub stored_thumbnail : Bytes → Option Bytes → Option Bytes
  stored_thumbnail sha none = none
  stored_thumbnail sha (some jpeg) =
      if is_empty jpeg then none else url_of (out.store_thumbnail sha jpeg)

  abbrev pub published : String → MediaDescriptor → Bytes → Answer (Bytes × Bytes) → Columns
  published kind m content (failure e) = no_columns
  published kind m content (given (url, sha)) = record {
    url = null_bytes url;
    mime = null_bytes m.mime;
    size = some (length content);
    filename = null_bytes m.filename;
    sha256 = null_bytes sha;
    thumbnail_url = stored_thumbnail sha (derive_inbound_thumbnail kind m content);
  }

  abbrev pub downloaded : String → MediaDescriptor → Answer Bytes → Columns
  downloaded kind m (failure e) = no_columns
  downloaded kind m (given content) =
      published kind m content (out.publish content m.mime m.filename)

  -- The download and upload of handleMessage.
  unfoldable pub fetch_media : String → Option MediaDescriptor → Columns
  fetch_media kind none = no_columns
  fetch_media kind (some m) = elim m.downloadable [
    | none ↦ record no_columns { thumbnail_url = upload_location_preview (some m) }
    | some handle ↦ downloaded kind m (out.download handle)
  ]

  -- fetchProfilePicURL
  unfoldable pub fetch_profile_pic_url : Jid → Option Bytes
  fetch_profile_pic_url j = null_bytes (out.profile_picture j)

module _ (c : Client) where
  -- The contact's name under the JID, or under the phone that is known for it.
  abbrev pub known_name : Jid → Bytes
  known_name j =
      let pn = resolve_pn_for_lid c j in
      if not (is_empty (c.whatsapp.contact_name j))
      then c.whatsapp.contact_name j
      else if c.is_empty_jid pn
      then []
      else c.whatsapp.contact_name pn

  -- resolveDisplayName
  unfoldable pub resolve_display_name : Incoming → Option Bytes
  resolve_display_name e =
      if not e.info.is_group && not (is_empty (known_name e.info.chat))
      then null_bytes (known_name e.info.chat)
      else if not e.info.is_from_me
      then null_bytes (trim_space e.push_name)
      else none

  -- resolveDisplayNameForJID
  unfoldable pub resolve_display_name_for_jid : Jid → Bytes → Option Bytes
  resolve_display_name_for_jid j conv_name =
      if not (is_empty (trim_space conv_name))
      then null_bytes (trim_space conv_name)
      else if j.server == group_server
      then none
      else null_bytes (known_name j)

  -- resolvePhone
  unfoldable pub resolve_phone : Jid → Option Bytes
  resolve_phone chat =
      let pn = resolve_pn_for_lid c chat in
      if chat.server == default_user_server && not (is_empty chat.user)
      then some (b'+' ∷ chat.user)
      else if chat.server == hidden_user_server && not (c.is_empty_jid pn) && not (is_empty pn.user)
      then some (b'+' ∷ pn.user)
      else none
