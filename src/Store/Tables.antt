-- ===== src/Store/Tables.antt =====
-- The MySQL tables that the store writes, with the columns that its statements name: wa_chats,
-- wa_messages, wa_outbound, wa_typing_outbound and the one row of wa_pairing. NULL is `none`.
-- Times are numbers of seconds.
use enviadores_wabridge.Prelude.{ℕ, String, Bool, Option, none, some, List, [], ◌∷◌, if◌then◌else◌}
use enviadores_wabridge.Text.Utf8.{Bytes}

pub record ChatRow : Type 0 where
  pub jid : String
  pub display_name : Option Bytes
  pub phone_e164 : Option Bytes
  pub is_group : Bool
  pub profile_pic_url : Option Bytes
  pub profile_pic_updated_at : Option ℕ
  pub last_message_at : Option ℕ
  pub last_message_preview : Option Bytes
  pub last_message_from_me : Bool
  pub unread_count : ℕ
  pub peer_typing_until : Option ℕ
  pub archived : Bool

-- Message of internal/store/store.go: what one INSERT writes.
pub record Message : Type 0 where
  pub id : String
  pub chat_jid : String
  pub sender_jid : Option String
  pub from_me : Bool
  pub message_type : String
  pub body : Option Bytes
  pub media_url : Option Bytes
  pub media_mime : Option Bytes
  pub media_size : Option ℕ
  pub media_filename : Option Bytes
  pub media_sha256 : Option Bytes
  pub media_thumbnail_url : Option Bytes
  pub quoted_message_id : Option String
  pub quoted_preview : Option Bytes
  pub quoted_sender_jid : Option String
  pub target_message_id : Option String
  pub client_request_id : Option String
  pub location_name : Option Bytes
  pub location_address : Option Bytes
  pub timestamp : ℕ
  pub status : Option String

-- A row of wa_messages: the inserted columns and those that only updates write.
pub record MessageRow : Type 0 where
  pub message : Message
  pub open message use *
  pub original_body : Option Bytes
  pub edited_at : Option ℕ
  pub revoked_at : Option ℕ
  pub status_updated_at : Option ℕ

pub record OutboundRow : Type 0 where
  pub id : ℕ
  pub client_request_id : Option String
  pub chat_jid : Option String
  pub to_phone : Option Bytes
  pub to_name : Option Bytes
  pub body : Option Bytes
  pub kind : Option String
  pub status : String
  pub attempts : ℕ
  pub last_attempt_at : Option ℕ
  pub created_at : ℕ
  pub sent_at : Option ℕ
  pub whatsapp_message_id : Option String
  pub error_message : Option Bytes
  pub error_code : Option String
  pub location_name : Option Bytes
  pub location_address : Option Bytes
  pub location_url : Option Bytes
  pub media_url : Option Bytes
  pub media_mime : Option Bytes
  pub media_filename : Option Bytes
  pub media_size : Option ℕ
  pub media_sha256 : Option Bytes
  pub quoted_message_id : Option String

pub record TypingRow : Type 0 where
  pub chat_jid : String
  pub state : String
  pub requested_at : ℕ
  pub processed_at : Option ℕ

pub record PairingRow : Type 0 where
  pub status : String
  pub qr_code : Option Bytes
  pub qr_expires_at : Option ℕ
  pub device_jid : Option String
  pub last_event : Option Bytes
  pub reset_requested_at : Option ℕ
  pub paired_at : Option ℕ
  pub last_seen_at : Option ℕ
  pub bridge_features : Option String
  pub bridge_features_at : Option ℕ

pub record Db : Type 0 where
  pub chats : List ChatRow
  pub messages : List MessageRow
  pub outbound : List OutboundRow
  pub typing : List TypingRow
  pub pairing : PairingRow

-- `UPDATE ... SET ... WHERE ...` over the rows of a table.
module _ {ℓ} {R : Type ℓ} where
  unfoldable pub update_where : (R → Bool) → (R → R) → List R → List R
  update_where p f [] = []
  update_where p f (r ∷ rs) = (if p r then f r else r) ∷ update_where p f rs

  -- The first row of a table that a condition selects.
  unfoldable pub find_where : (R → Bool) → List R → Option R
  find_where p [] = none
  find_where p (r ∷ rs) = if p r then some r else find_where p rs

  unfoldable pub filter_where : (R → Bool) → List R → List R
  filter_where p [] = []
  filter_where p (r ∷ rs) = let rest = filter_where p rs in if p r then r ∷ rest else rest

-- COALESCE(a, b)
abbrev pub coalesce {ℓ} : {A : Type ℓ} → Option A → Option A → Option A
coalesce (some a) b = some a
coalesce none b = b
