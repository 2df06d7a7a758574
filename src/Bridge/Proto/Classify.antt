-- ===== src/Bridge/Proto/Classify.antt =====
-- classifyMessage, classifyProtocol, setProtoFields, pollOptionNames and pollPreview of
-- internal/wabridge/wabridge.go.
use enviadores_wabridge.Prelude.{
  String, Option, none, some, List, [], ◌∷◌, ◌++◌, ◌==◌, any, if◌then◌else◌,
}
use enviadores_wabridge.Text.Utf8.{Bytes, utf8}
use enviadores_wabridge.Text.Trim.{trim_space}
use enviadores_wabridge.Store.Messages.{is_empty}
use enviadores_wabridge.Bridge.Location.{Floats, coordinates}
use enviadores_wabridge.Bridge.Preview.{MediaDescriptor}
use enviadores_wabridge.Bridge.Proto.{
  File, Proto, blank, with_field, Field, conversation, extended_text, image, video, audio, document,
  sticker, location, live_location, contact, reaction, protocol, poll, secret_encrypted,
  enc_reaction, buttons, buttons_response, list, list_response, wrapper, plain, field_name, get,
  unwrap_message,
}

-- What classifyMessage returns.
pub record Classified : Type 0 where
  pub message_type : String
  pub body : Bytes
  pub media : Option MediaDescriptor

abbrev pub bodied : String → Bytes → Classified
bodied kind body = record { message_type = kind; body = body; media = none }

-- A file, with its name and the sender's thumbnail where the type carries them.
abbrev pub file_media : File → Bytes → Bytes → Option MediaDescriptor
file_media f name thumbnail = some (record {
  downloadable = some f.handle;
  mime = f.mime;
  filename = name;
  embedded_thumbnail = thumbnail;
  location_name = [];
  location_address = [];
})

abbrev pub place_media : Bytes → Bytes → Bytes → Option MediaDescriptor
place_media thumbnail name address = some (record {
  downloadable = none;
  mime = [];
  filename = [];
  embedded_thumbnail = thumbnail;
  location_name = name;
  location_address = address;
})

abbrev pub media_row : String → Bytes → Option MediaDescriptor → Classified
media_row kind body m = record { message_type = kind; body = body; media = m }

-- strings.Join
unfoldable pub strings_join : Bytes → List Bytes → Bytes
strings_join sep [] = []
strings_join sep (p ∷ ps) =
    let rest = strings_join sep ps in if is_empty ps then p else p ++ (sep ++ rest)

-- pollOptionNames
unfoldable pub poll_option_names : List Bytes → List Bytes
poll_option_names [] = []
poll_option_names (o ∷ os) =
    let rest = poll_option_names os in if is_empty (trim_space o) then rest else trim_space o ∷ rest

abbrev pub bullets : List Bytes → List Bytes
bullets [] = []
bullets (o ∷ os) = (utf8 "• " ++ o) ∷ bullets os

-- pollPreview
unfoldable pub poll_preview : Bytes → List Bytes → Bytes
poll_preview name options = strings_join (10 ∷ []) (
    (if is_empty (trim_space name) then utf8 "📊 Encuesta" else utf8 "📊 " ++ trim_space name)
    ∷ bullets options)

-- The types of classifyProtocol that are never stored.
abbrev pub plumbing : List String
plumbing =
    "MESSAGE_EDIT" ∷ "EPHEMERAL_SETTING" ∷ "EPHEMERAL_SYNC_RESPONSE" ∷ "HISTORY_SYNC_NOTIFICATION"
    ∷ "APP_STATE_SYNC_KEY_SHARE" ∷ "APP_STATE_SYNC_KEY_REQUEST" ∷ "MSG_FANOUT_BACKFILL_REQUEST"
    ∷ "INITIAL_SECURITY_NOTIFICATION_SETTING_SYNC" ∷ "APP_STATE_FATAL_EXCEPTION_NOTIFICATION"
    ∷ "SHARE_PHONE_NUMBER" ∷ "PEER_DATA_OPERATION_REQUEST_MESSAGE"
    ∷ "PEER_DATA_OPERATION_REQUEST_RESPONSE_MESSAGE" ∷ "REQUEST_WELCOME_MESSAGE"
    ∷ "MEDIA_NOTIFY_MESSAGE" ∷ "CLOUD_API_THREAD_CONTROL_NOTIFICATION"
    ∷ "LID_MIGRATION_MAPPING_SYNC" ∷ "LIMIT_SHARING" ∷ "GROUP_MEMBER_LABEL_CHANGE"
    ∷ "MESSAGE_UNSCHEDULE" ∷ "CHAT_THEME_SETTING" ∷ "MARK_AS_VERIFIED_ACTION" ∷ "COEX_STATE_SYNC"
    ∷ "SHARED_DEVICE_CONTACT_HASH_KEY_SHARE" ∷ "SHARED_DEVICE_CONTACT_HASH_KEY_REQUEST" ∷ []

-- classifyProtocol
unfoldable pub classify_protocol : String → Classified
classify_protocol t =
    if t == "REVOKE"
    then bodied "revoked" []
    else if any (λ p. p == t) plumbing
    then bodied "system" []
    else bodied "other" (utf8 "[proto: protocolMessage/" ++ (utf8 t ++ utf8 "]"))

-- setProtoFields, in the order of the message's fields
unfoldable pub set_proto_fields : Proto → List Bytes
set_proto_fields blank = []
set_proto_fields (with_field f m) =
    let rest = set_proto_fields m in
    if field_name f == "MessageContextInfo" then rest else utf8 (field_name f) ∷ rest

abbrev pub or_else : Bytes → Bytes → Bytes
or_else s t = if is_empty s then t else s

-- The default case of the switch.
abbrev pub unclassified : Proto → Classified
unclassified m =
    if is_empty (set_proto_fields m)
    then bodied "other" []
    else bodied "other"
        (utf8 "[proto: " ++ (strings_join (utf8 ", ") (set_proto_fields m) ++ utf8 "]"))

-- The cases of the switch in their order, by the getter that each asks.
abbrev pub cases : List String
cases =
    "Conversation" ∷ "ExtendedTextMessage" ∷ "ImageMessage" ∷ "VideoMessage" ∷ "AudioMessage"
    ∷ "DocumentMessage" ∷ "StickerMessage" ∷ "LocationMessage" ∷ "LiveLocationMessage"
    ∷ "ContactMessage" ∷ "ReactionMessage" ∷ "ProtocolMessage" ∷ "PollCreationMessage"
    ∷ "PollCreationMessageV2" ∷ "PollCreationMessageV3" ∷ "PollUpdateMessage"
    ∷ "SenderKeyDistributionMessage" ∷ "AlbumMessage" ∷ "SecretEncryptedMessage"
    ∷ "EncReactionMessage" ∷ "ButtonsMessage" ∷ "ButtonsResponseMessage" ∷ "ListMessage"
    ∷ "ListResponseMessage" ∷ "TemplateMessage" ∷ []

-- The fields with nothing but their name.
abbrev pub classify_plain : String → Classified
classify_plain name =
    if name == "PollUpdateMessage"
    then bodied "other" (utf8 "🗳" ++ 0xEF ∷ 0xB8 ∷ 0x8F ∷ utf8 " Voto en encuesta")
    else if name == "TemplateMessage"
    then bodied "other" (utf8 "📋 Plantilla")
    else bodied "system" []

module _ (fl : Floats) where
  -- The bodies of the cases.
  unfoldable pub classify_field : Field → Classified
  classify_field (conversation s) = bodied "text" s
  classify_field (extended_text s _) = bodied "text" s
  classify_field (image f _) = media_row "image" f.caption (file_media f [] f.jpeg_thumbnail)
  classify_field (video f _) = media_row "video" f.caption (file_media f [] f.jpeg_thumbnail)
  classify_field (audio f _) = media_row "audio" [] (file_media f [] [])
  classify_field (document f _) =
      media_row "document" f.caption (file_media f f.file_name f.jpeg_thumbnail)
  classify_field (sticker f _) = media_row "sticker" [] (file_media f [] [])
  classify_field (location l _) =
      media_row "location" (coordinates fl (l.latitude, l.longitude))
        (place_media l.jpeg_thumbnail (trim_space l.name) (trim_space l.address))
  classify_field (live_location l _) =
      media_row "location" (coordinates fl (l.latitude, l.longitude))
        (place_media l.jpeg_thumbnail [] [])
  classify_field (contact name _) = bodied "contact" name
  classify_field (reaction _ emoji) = bodied "reaction" emoji
  classify_field (protocol t _ _) = classify_protocol t
  classify_field (poll _ name options _) =
      bodied "other" (poll_preview name (poll_option_names options))
  classify_field (secret_encrypted _ _ _) = bodied "system" []
  classify_field (enc_reaction _) = bodied "system" []
  classify_field (buttons content _) =
      bodied "other" (utf8 "🔘 " ++ or_else (trim_space content) (utf8 "Mensaje con botones"))
  classify_field (buttons_response text _) = bodied "other" (utf8 "▶ " ++ text)
  classify_field (list title description _) = bodied "other" (
      utf8 "📋 "
      ++ or_else (or_else (trim_space title) (trim_space description)) (utf8 "Lista interactiva"))
  classify_field (list_response title _) = bodied "other" (utf8 "▶ " ++ title)
  classify_field (wrapper name _) = classify_plain name
  classify_field (plain name _) = classify_plain name

  -- The test of a case: the field is there, and a conversation is not empty.
  abbrev pub case_of : Option Field → Option Field
  case_of (some (conversation [])) = none
  case_of f = f

  unfoldable pub classify_cases : List String → Proto → Classified
  classify_cases [] m = unclassified m
  classify_cases (n ∷ ns) m =
      let rest = classify_cases ns m in
      elim (case_of (get n m)) [ none ↦ rest | some f ↦ classify_field f ]

  -- classifyMessage
  unfoldable pub classify_message : Proto → Classified
  unfolding classify_cases classify_field
  classify_message m = classify_cases cases (unwrap_message m)
