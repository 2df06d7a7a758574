-- ===== src/Bridge/Outbound/Build.antt =====
-- What is sent for a row of wa_outbound: buildOutboundMessage and mediaTypeForKind of
-- internal/wabridge/wabridge.go, buildLocationMessage of internal/wabridge/sendlocation.go.
use enviadores_wabridge.Prelude.{
  ℕ, ◌+◌, ◌%◌, ◌^◌, String, ◌||◌, Option, none, some, ◌++◌, ◌==◌, if◌then◌else◌, ltb,
}
use enviadores_wabridge.Text.Utf8.{Bytes, utf8}
use enviadores_wabridge.Text.Cut.{truncate_runes, quote_for_log}
use enviadores_wabridge.Text.Trim.{trim_space}
use enviadores_wabridge.Text.Search.{contains}
use enviadores_wabridge.Store.Failure.{Result, ok, err}
use enviadores_wabridge.Store.Exec.{Env, World}
use enviadores_wabridge.Store.Messages.{is_empty}
use enviadores_wabridge.Store.Outbound.{OutboundPlace, outbound_location}
use enviadores_wabridge.Bridge.Content.{
  Upload, Picture, Media, MediaType, media_image, media_video, media_audio, media_document, Place,
  Content, conversation, image, video, audio, document, captioned_document, location,
}
use enviadores_wabridge.Bridge.Client.{Answer, given, failure, PdfPreview, Host}
use enviadores_wabridge.Bridge.Location.{Floats, parse_coordinates}
use enviadores_wabridge.Bridge.NewChat.{text_of, null_bytes}
use enviadores_wabridge.Bridge.Outbound.{OutboundWork, Outbox, mark_outbound_permanently_failed}

-- What a build returns: the message, its wa_messages.message_type, the URL of a stored thumbnail
-- and the place of a location; or the text of an error to retry; or errOutboundPermanent, with the
-- row marked already.
pub data Built : Type 0 where
  built : Content → String → Option Bytes → Option Place → Built
  transient : Bytes → Built
  permanent : Built

-- store.LocationNameMax and store.LocationAddressMax
abbrev pub location_name_max : ℕ
location_name_max = 255

abbrev pub location_address_max : ℕ
location_address_max = 500

-- mediaTypeForKind
unfoldable pub media_type_for_kind : String → Option MediaType
media_type_for_kind kind =
    if kind == "image"
    then some media_image
    else if kind == "video"
    then some media_video
    else if kind == "audio"
    then some media_audio
    else if kind == "document"
    then some media_document
    else none

-- uint32(n) of a count or a length
abbrev pub u32 : ℕ → ℕ
u32 n = n % 2 ^ 32

abbrev pub u32_picture : Picture → Picture
u32_picture p = record { jpeg = p.jpeg; width = u32 p.width; height = u32 p.height }

-- A step of the build that is not the store's.
abbrev pub after_calls : ℕ → Outbox → Outbox
after_calls k o = record o { bridge = record o.bridge { calls = o.bridge.calls + k } }

abbrev pub at_world : World → Outbox → Outbox
at_world w o = record o { bridge = record o.bridge { world = w } }

abbrev pub preview_pages : Option PdfPreview → Option ℕ
preview_pages none = none
preview_pages (some p) = if ltb 0 p.page_count then some (u32 p.page_count) else none

abbrev pub preview_title : Bytes → Option PdfPreview → Option Bytes
preview_title filename none = null_bytes filename
preview_title filename (some p) = if is_empty p.title then null_bytes filename else some p.title

abbrev pub preview_picture : Option PdfPreview → Option Picture
preview_picture none = none
preview_picture (some p) = if is_empty p.thumbnail.jpeg then none else some p.thumbnail

abbrev pub scaled : Option Picture → Option Picture
scaled none = none
scaled (some p) = some (u32_picture p)

module _ (env : Env) (host : Host) where
  -- The thumbnail as it is stored for the sender's own chat: the URL, if there is one.
  abbrev pub thumbnail_url : ℕ → OutboundWork → Option Picture → Option Bytes
  thumbnail_url n r none = none
  thumbnail_url n r (some p) =
      if is_empty (text_of r.media_sha256)
      then none
      else null_bytes (text_of (host.store_thumbnail n (text_of r.media_sha256) p.jpeg))

  abbrev pub plain_media : OutboundWork → Upload → Media
  plain_media r up = record {
    upload = up;
    mime = text_of r.media_mime;
    caption = null_bytes r.body;
    file_name = none;
    title = none;
    page_count = none;
    thumbnail = none;
  }

  abbrev pub document_media : OutboundWork → Upload → Option PdfPreview → Media
  document_media r up preview = record {
    upload = up;
    mime = text_of r.media_mime;
    caption = none;
    file_name = null_bytes (text_of r.media_filename);
    title = preview_title (text_of r.media_filename) preview;
    page_count = preview_pages preview;
    thumbnail = scaled (preview_picture preview);
  }

  -- The cases of the switch, for a file that is uploaded.
  unfoldable pub media_message : ℕ → OutboundWork → Bytes → Upload → MediaType → Built
  media_message n r file up media_image =
      built
        (image (record (plain_media r up) { thumbnail = scaled (host.image_thumbnail file) }) none)
        "image" none none
  media_message n r file up media_video = built (video (plain_media r up) none) "video" none none
  media_message n r file up media_audio =
      built (audio (record (plain_media r up) { caption = none }) none) "audio" none none
  media_message n r file up media_document =
      let preview =
        if contains (utf8 "pdf") (text_of r.media_mime)
        then host.pdf_preview (n + 2) file
        else none in
      let doc = document_media r up preview in
      built (if is_empty r.body then document doc none else captioned_document doc none) "document"
        (thumbnail_url (n + 3) r (preview_picture preview)) none

  abbrev pub after_upload : ℕ → OutboundWork → Bytes → MediaType → Answer Upload → Built
  after_upload n r file kind (failure e) = transient (utf8 "upload to WA CDN: " ++ e)
  after_upload n r file kind (given up) = media_message n r file up kind

  abbrev pub after_read : ℕ → OutboundWork → MediaType → Answer Bytes → Built
  after_read n r kind (failure e) = transient (utf8 "read media: " ++ e)
  after_read n r kind (given file) = after_upload n r file kind (host.upload (n + 1) file kind)

  -- The file of a media row, read and uploaded.
  unfoldable pub build_media : OutboundWork → MediaType → Outbox → Built × Outbox
  build_media r kind o =
      let name = host.basename (text_of r.media_url) in
      if is_empty (text_of r.media_url)
      then (
        permanent,
        mark_outbound_permanently_failed env r.id "MEDIA" (utf8 "media row missing media_url") o,
      )
      else if is_empty name
      then (
        permanent,
        mark_outbound_permanently_failed env r.id "MEDIA"
            (utf8 "media_url path is not under public_base_url ("
              ++ (host.public_base ++ (utf8 "): " ++ text_of r.media_url)))
            o,
      )
      else (after_read o.bridge.calls r kind (host.read o.bridge.calls name), after_calls 4 o)

  abbrev pub build_kind : OutboundWork → String → Option MediaType → Outbox → Built × Outbox
  build_kind r kind none o = (
    permanent,
    mark_outbound_permanently_failed env r.id "UNSUPPORTED_KIND"
        (utf8 "unsupported kind: " ++ utf8 kind) o,
  )
  build_kind r kind (some t) o = build_media r t o

  -- buildOutboundMessage
  unfoldable pub build_outbound_message : OutboundWork → Outbox → Built × Outbox
  build_outbound_message r o =
      if r.kind == "" || r.kind == "text"
      then (built (conversation r.body) "text" none none, o)
      else build_kind r r.kind (media_type_for_kind r.kind) o

  abbrev pub outbound_place : Bytes × Bytes → OutboundPlace → Place
  outbound_place (lat, lng) p = record {
    lat = lat;
    lng = lng;
    name = truncate_runes (trim_space (text_of p.name)) location_name_max;
    address = truncate_runes (trim_space (text_of p.address)) location_address_max;
    url = trim_space (text_of p.url);
  }

  abbrev pub with_place : Bytes × Bytes → Result OutboundPlace → Built
  with_place at (err e) = transient (utf8 "read location: " ++ host.error_text e)
  with_place at (ok p) =
      built (location (outbound_place at p) none) "location" none (some (outbound_place at p))

  abbrev pub build_place : OutboundWork → Option (Bytes × Bytes) → Outbox → Built × Outbox
  build_place r none o = (
    permanent,
    mark_outbound_permanently_failed env r.id "INVALID_LOCATION"
        (utf8 "body must be \"lat, lng\", got " ++ quote_for_log r.body) o,
  )
  build_place r (some at) o =
      let m = outbound_location env r.id o.bridge.world in (with_place at m.0, at_world m.1 o)

  -- buildLocationMessage
  unfoldable pub build_location_message : Floats → OutboundWork → Outbox → Built × Outbox
  build_location_message fl r o = build_place r (parse_coordinates fl r.body) o
