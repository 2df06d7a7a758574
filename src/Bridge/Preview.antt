-- ===== src/Bridge/Preview.antt =====
-- The labels of the chat list: previewFor, locationLabel and tailPreview of
-- internal/wabridge/wabridge.go.
use enviadores_wabridge.Prelude.{
  ◌≡◌, refl, String, true, ◌||◌, Option, none, some, [], ◌++◌, ◌==◌, if◌then◌else◌, arith,
  Bool-cases, inl, inr, not,
}
use enviadores_wabridge.Text.Utf8.{Bytes, utf8}
use enviadores_wabridge.Text.Cut.{truncate}
use enviadores_wabridge.Text.Trim.{trim_space}
use enviadores_wabridge.Store.Messages.{is_some, is_empty}
use enviadores_wabridge.Store.Tail.{TailRow}
use enviadores_wabridge.Bridge.NewChat.{text_of}

-- mediaDescriptor; a location has nothing to download.
pub record MediaDescriptor : Type 0 where
  pub downloadable : Option Bytes
  pub mime : Bytes
  pub filename : Bytes
  pub embedded_thumbnail : Bytes
  pub location_name : Bytes
  pub location_address : Bytes

-- locationLabel
unfoldable pub location_label : Bytes → Bytes
location_label name =
    if is_empty (trim_space name)
    then utf8 "📍 Ubicación"
    else truncate (utf8 "📍 " ++ trim_space name) 160

abbrev pub place_of : Option MediaDescriptor → Bytes
place_of none = []
place_of (some m) = m.location_name

abbrev pub document_label : Option MediaDescriptor → Bytes
document_label none = utf8 "📄 Documento"
document_label (some m) =
    if is_empty m.filename then utf8 "📄 Documento" else utf8 "📄 " ++ m.filename

-- previewFor
unfoldable pub preview_for : String → Bytes → Option MediaDescriptor → Bytes
preview_for kind body m =
    if kind == "location"
    then location_label (place_of m)
    else if not (is_empty body)
    then truncate body 160
    else if kind == "image"
    then utf8 "📷 Imagen"
    else if kind == "video"
    then utf8 "🎥 Video"
    else if kind == "audio"
    then utf8 "🎤 Audio"
    else if kind == "document"
    then document_label m
    else if kind == "sticker"
    then utf8 "Sticker"
    else if kind == "contact"
    then utf8 "👤 Contacto"
    else if kind == "reaction"
    then body
    else if kind == "revoked"
    then utf8 "Mensaje eliminado"
    else []

-- tailPreview
unfoldable pub tail_preview : TailRow → Bytes
tail_preview t =
    if t.revoked
    then utf8 "Mensaje eliminado"
    else preview_for t.message_type (text_of t.body) (
        if is_some t.media_filename || is_some t.location_name
        then some (record {
          downloadable = none;
          mime = [];
          filename = text_of t.media_filename;
          embedded_thumbnail = [];
          location_address = [];
          location_name = text_of t.location_name;
        })
        else none)

-- The label of a deleted message or of a location tells nothing of its body: neither the text that
-- is kept for audit nor the coordinates.
pub tail_preview_hides :
    (t : TailRow) (body : Option Bytes)
    → (t.revoked || t.message_type == "location") ≡ true
    → tail_preview (record t { body = body }) ≡ tail_preview t
unfolding tail_preview preview_for
tail_preview_hides t body h = elim (Bool-cases t.revoked) [
  | inl e ↦ rw e refl
  | inr e ↦ elim (Bool-cases (t.message_type == "location")) [
    | inl l ↦ rw (e, l) refl
    | inr l ↦ absurd (ground arith)
  ]
]
