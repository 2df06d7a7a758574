-- ===== src/Bridge/Proto.antt =====
-- WhatsApp messages as they arrive. The type waProto.Message belongs to go.mau.fi/whatsmeow: here a
-- message is the list of its fields that are set, each with what the program reads of it, under the
-- name of its getter. unwrapMessage of internal/wabridge/messages.go.
pub mod Unwrap
pub mod Classify
pub mod Reply
pub mod Action
use enviadores_wabridge.Prelude.{
  ℕ, zero, suc, String, Bool, true, false, not, Option, none, some, List, [], ◌∷◌, ◌==◌,
  if◌then◌else◌,
}
use enviadores_wabridge.Text.Utf8.{Bytes}

-- What the program reads of an image, video, audio, document or sticker: `handle` stands for what
-- Download takes.
pub record File : Type 0 where
  pub handle : Bytes
  pub caption : Bytes
  pub mime : Bytes
  pub file_name : Bytes
  pub jpeg_thumbnail : Bytes

-- A location: each coordinate by a text that stands for the number.
pub record Spot : Type 0 where
  pub latitude : Bytes
  pub longitude : Bytes
  pub name : Bytes
  pub address : Bytes
  pub jpeg_thumbnail : Bytes

mutual
  -- The fields that are set, with the empty message also for the nil one.
  pub data Proto : Type 0 where
    blank : Proto
    with_field : Field → Proto → Proto

  pub data Field : Type 0 where
    conversation : Bytes → Field
    -- with its text and its ContextInfo
    extended_text : Bytes → Context → Field
    image video audio document sticker : File → Context → Field
    location live_location : Spot → Context → Field
    contact : Bytes → Context → Field
    -- the id of the reacted-to message and the emoji
    reaction : String → Bytes → Field
    -- the name of its type, the id in its key, and EditedMessage
    protocol : String → String → Inner → Field
    -- PollCreationMessage and its versions, by the getter's name, with the name and the options
    poll : String → Bytes → List Bytes → Context → Field
    -- whether it is a MESSAGE_EDIT, the name of its type, and the id in TargetMessageKey
    secret_encrypted : Bool → Bytes → String → Field
    -- the id in TargetMessageKey
    enc_reaction : String → Field
    buttons : Bytes → Context → Field
    buttons_response : Bytes → Context → Field
    -- its title and its description
    list : Bytes → Bytes → Context → Field
    list_response : Bytes → Context → Field
    -- a message that holds another, by the getter's name
    wrapper : String → Inner → Field
    -- any other field, by the getter's name
    plain : String → Context → Field

  -- A message that may be nil.
  pub data Inner : Type 0 where
    absent : Inner
    holds : Proto → Inner

  -- ContextInfo: StanzaID, Participant and QuotedMessage
  pub data Context : Type 0 where
    no_context : Context
    context : String → String → Inner → Context

-- The name of a field's getter, less Get.
unfoldable pub field_name : Field → String
field_name (conversation _) = "Conversation"
field_name (extended_text _ _) = "ExtendedTextMessage"
field_name (image _ _) = "ImageMessage"
field_name (video _ _) = "VideoMessage"
field_name (audio _ _) = "AudioMessage"
field_name (document _ _) = "DocumentMessage"
field_name (sticker _ _) = "StickerMessage"
field_name (location _ _) = "LocationMessage"
field_name (live_location _ _) = "LiveLocationMessage"
field_name (contact _ _) = "ContactMessage"
field_name (reaction _ _) = "ReactionMessage"
field_name (protocol _ _ _) = "ProtocolMessage"
field_name (poll name _ _ _) = name
field_name (secret_encrypted _ _ _) = "SecretEncryptedMessage"
field_name (enc_reaction _) = "EncReactionMessage"
field_name (buttons _ _) = "ButtonsMessage"
field_name (buttons_response _ _) = "ButtonsResponseMessage"
field_name (list _ _ _) = "ListMessage"
field_name (list_response _ _) = "ListResponseMessage"
field_name (wrapper name _) = name
field_name (plain name _) = name

-- A getter: the field of that name.
unfoldable pub get : String → Proto → Option Field
get name blank = none
get name (with_field f m) = let rest = get name m in if field_name f == name then some f else rest

abbrev pub inner_of : Option Field → Inner
inner_of (some (wrapper _ i)) = i
inner_of _ = absent

-- The containers, in the order of unwrapMessage.
abbrev pub wrappers : List String
wrappers =
    "DeviceSentMessage" ∷ "EphemeralMessage" ∷ "ViewOnceMessage" ∷ "ViewOnceMessageV2"
    ∷ "ViewOnceMessageV2Extension" ∷ "DocumentWithCaptionMessage" ∷ "AssociatedChildMessage"
    ∷ "EditedMessage" ∷ []

-- The switch of unwrapMessage.
unfoldable pub inner_message : List String → Proto → Inner
inner_message [] m = absent
inner_message (w ∷ ws) m =
    let rest = inner_message ws m in elim (inner_of (get w m)) [ absent ↦ rest | holds i ↦ holds i ]

-- The loop, with the rounds that are left.
unfoldable pub unwrap_rounds : ℕ → Proto → Proto
unwrap_rounds zero m = m
unwrap_rounds (suc n) m = elim (inner_message wrappers m) [
  | absent ↦ m
  | holds i ↦ unwrap_rounds n i
]

-- unwrapMessage
unfoldable pub unwrap_message : Proto → Proto
unfolding unwrap_rounds inner_message get field_name
unwrap_message m = unwrap_rounds 8 m
