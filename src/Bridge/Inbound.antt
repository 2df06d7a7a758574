-- ===== src/Bridge/Inbound.antt =====
-- Events from WhatsApp: the forms of chats and senders, receipts and typing, of
-- internal/wabridge/wabridge.go and isSkippedChat of internal/wabridge/messages.go.
pub mod Receipts
pub mod Actions
pub mod Media
pub mod Live
use enviadores_wabridge.Prelude.{
  ℕ, ◌+◌, String, Bool, true, false, not, ◌&&◌, ◌||◌, Option, none, some, List, [], ◌∷◌, ◌++◌, ◌==◌,
  any, if◌then◌else◌,
}
use enviadores_wabridge.Text.Utf8.{Bytes, utf8}
use enviadores_wabridge.Store.Failure.{
  Error, Result, ok, err, bytes_eq, not_author, edits_unsupported,
}
use enviadores_wabridge.Store.Tables.{Message}
use enviadores_wabridge.Store.Exec.{Env, World}
use enviadores_wabridge.Store.Messages.{
  MessageRef, Located, not_found, is_empty, insert_message, locate_message,
}
use enviadores_wabridge.Store.Chats.{set_peer_typing, clear_unread_up_to}
use enviadores_wabridge.Store.Status.{mark_messages_status}
use enviadores_wabridge.Store.Edits.{apply_edit, revoke_message}
use enviadores_wabridge.Store.Reactions.{Reaction, upsert_reaction}
use enviadores_wabridge.Store.Tail.{recompute_chat_tail}
use enviadores_wabridge.Bridge.Whatsapp.{
  Jid, default_user_server, hidden_user_server, broadcast_server, bot_server,
}
use enviadores_wabridge.Bridge.Client.{Client}
use enviadores_wabridge.Bridge.Preview.{tail_preview}
use enviadores_wabridge.Bridge.NewChat.{
  is_answer, retry_delays, retried, canonical_chat_jid, null_string, null_bytes,
}

-- types.MessageInfo, the fields that are read here
pub record MessageInfo : Type 0 where
  pub id : String
  pub chat : Jid
  pub sender : Jid
  pub is_from_me : Bool
  pub is_group : Bool
  pub timestamp : ℕ

-- isSkippedChat
unfoldable pub is_skipped_chat : Jid → Bool
is_skipped_chat j =
    if j.server == broadcast_server && bytes_eq j.user (utf8 "status")
    then true
    else j.server == bot_server

-- defaultStatus
abbrev pub default_status : Bool → String
default_status from_me = if from_me then "sent" else "received"

module _ (c : Client) where
  -- resolvePNForLID
  unfoldable pub resolve_pn_for_lid : Jid → Jid
  resolve_pn_for_lid lid =
      if not (lid.server == hidden_user_server)
      then c.empty_jid
      else elim (c.pn_for_lid lid) [ none ↦ c.empty_jid | some pn ↦ pn ]

  -- The closure `add` of chatAliases and senderAliases.
  unfoldable pub add_alias : Jid → List String → List String
  add_alias j out =
      if c.is_empty_jid j || is_empty j.user || any (λ o. o == j.text) out
      then out
      else out ++ j.text ∷ []

  -- chatAliases
  unfoldable pub chat_aliases : Jid → Jid → List String
  chat_aliases raw canonical =
      add_alias (resolve_pn_for_lid raw)
        (add_alias (resolve_pn_for_lid canonical) (add_alias raw (canonical.text ∷ [])))

  abbrev pub counterpart : Jid → Jid
  counterpart base =
      if base.server == hidden_user_server
      then resolve_pn_for_lid base
      else if base.server == default_user_server
      then elim (c.whatsapp.lid_for_pn base) [ none ↦ c.empty_jid | some lid ↦ lid ]
      else c.empty_jid

  -- senderAliases
  unfoldable pub sender_aliases : Jid → List String
  sender_aliases sender =
      let base = c.to_non_ad sender in
      if c.is_empty_jid sender
      then []
      else add_alias (counterpart base) (add_alias sender (base.text ∷ []))

-- events.Receipt: its Type, with what is not a known one as `other`.
pub data ReceiptType : Type 0 where
  delivered read read_self played other : ReceiptType

pub record Receipt : Type 0 where
  pub message_ids : List String
  pub chat : Jid
  pub is_from_me : Bool
  pub type : ReceiptType

-- isSelfRead
abbrev pub is_read : ReceiptType → Bool
is_read read = true
is_read read_self = true
is_read _ = false

unfoldable pub is_self_read : Receipt → Bool
is_self_read e = e.is_from_me && is_read e.type

abbrev pub new_status : ReceiptType → Option String
new_status read = some "read"
new_status read_self = some "read"
new_status played = some "read"
new_status delivered = some "delivered"
new_status other = none

module _ (env : Env) (c : Client) where
  -- The statuses of a receipt that is not a read on one of our own devices.
  abbrev pub mark_status : List String → Option String → World → World
  mark_status ids none w = w
  mark_status ids (some status) w = (mark_messages_status env ids status w).1

  -- handleReceipt
  unfoldable pub handle_receipt : Receipt → World → World
  handle_receipt e w =
      let chat = (canonical_chat_jid c.whatsapp e.chat).text in
      if is_empty e.message_ids
      then w
      else if is_self_read e
      then (clear_unread_up_to env chat e.message_ids w).1
      else mark_status e.message_ids (new_status e.type) w

  abbrev pub composing_ttl : ℕ
  composing_ttl = 15

  -- handleChatPresence, for the composing state and for any other, with the bridge's clock
  unfoldable pub handle_chat_presence : Jid → Bool → ℕ → World → World
  handle_chat_presence chat composing now w =
      let jid = (canonical_chat_jid c.whatsapp chat).text in
      (set_peer_typing env jid (if composing then some (now + composing_ttl) else none) w).1
