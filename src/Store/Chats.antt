-- ===== src/Store/Chats.antt =====
-- UpsertChat, SetPeerTyping, ClearAllPeerTyping, UpdateProfilePic and ClearUnreadUpTo of internal/store/store.go.
pub mod Unread
use enviadores_wabridge.Prelude.{
  ℕ, suc, ◌+◌, ◌≡◌, ◌≤◌, String, Bool, true, false, not, ◌&&◌, ◌||◌, Option, none, some, List, [],
  ◌∷◌, ◌++◌, ◌==◌, eqb, ltb, leb, if◌then◌else◌, length, any,
}
use Prim.Native.Nat.{min, max}
use enviadores_wabridge.Text.Utf8.{Bytes}
use enviadores_wabridge.Store.Tables.{
  ChatRow, MessageRow, TypingRow, Db, update_where, find_where, filter_where, coalesce,
}
use enviadores_wabridge.Store.Exec.{Env, World, M, Action, exec, query, pure}
use enviadores_wabridge.Store.Messages.{is_some, has_chat, is_empty}

-- Chat: what one upsert says about a conversation.
pub record Chat : Type 0 where
  pub jid : String
  pub display_name : Option Bytes
  pub phone_e164 : Option Bytes
  pub is_group : Bool
  pub profile_pic_url : Option Bytes
  pub last_message_at : Option ℕ
  pub last_message_preview : Option Bytes
  pub last_message_from_me : Bool
  pub increment_unread : Bool

-- The row of the INSERT half.
abbrev pub inserted_chat : ℕ → Chat → ChatRow
inserted_chat now c = record {
  jid = c.jid;
  display_name = c.display_name;
  phone_e164 = c.phone_e164;
  is_group = c.is_group;
  profile_pic_url = c.profile_pic_url;
  profile_pic_updated_at = if is_some c.profile_pic_url then some now else none;
  last_message_at = c.last_message_at;
  last_message_preview = c.last_message_preview;
  last_message_from_me = c.last_message_from_me;
  unread_count = if c.increment_unread && not c.last_message_from_me then 1 else 0;
  peer_typing_until = none;
  archived = false;
}

-- The ON DUPLICATE KEY UPDATE half.
abbrev pub updated_chat : ℕ → Chat → ChatRow → ChatRow
updated_chat now c r = record r {
  display_name = coalesce c.display_name r.display_name;
  phone_e164 = coalesce c.phone_e164 r.phone_e164;
  profile_pic_url = coalesce c.profile_pic_url r.profile_pic_url;
  profile_pic_updated_at = if is_some c.profile_pic_url then some now else r.profile_pic_updated_at;
  last_message_at = coalesce c.last_message_at r.last_message_at;
  last_message_preview = coalesce c.last_message_preview r.last_message_preview;
  last_message_from_me = c.last_message_from_me;
  unread_count =
      if c.last_message_from_me
      then 0
      else if c.increment_unread
      then r.unread_count + 1
      else r.unread_count;
}

unfoldable pub upsert_table : ℕ → Chat → Db → Db
upsert_table now c db =
    if has_chat c.jid db.chats
    then record db { chats = update_where (λ r. r.jid == c.jid) (updated_chat now c) db.chats }
    else record db { chats = db.chats ++ inserted_chat now c ∷ [] }

-- UpsertChat
unfoldable pub upsert_chat : Env → Chat → Action
upsert_chat env c = exec env λ now. upsert_table now c

-- SetPeerTyping
unfoldable pub set_peer_typing : Env → String → Option ℕ → Action
set_peer_typing env jid until = exec env λ now db. record db {
  chats = update_where (λ r. r.jid == jid) (λ r. record r { peer_typing_until = until }) db.chats;
}

-- ClearAllPeerTyping
unfoldable pub clear_all_peer_typing : Env → Action
clear_all_peer_typing env = exec env λ now db. record db {
  chats =
      update_where (λ r. is_some r.peer_typing_until) (λ r. record r { peer_typing_until = none })
        db.chats;
}

-- UpdateProfilePic; an empty URL is stored as NULL.
unfoldable pub update_profile_pic : Env → String → Bytes → Action
update_profile_pic env jid url = exec env λ now db. record db {
  chats =
      update_where (λ r. r.jid == jid)
        (λ r. record r {
          profile_pic_url = if is_empty url then none else some url;
          profile_pic_updated_at = some now;
        })
        db.chats;
}

-- The newest timestamp among the messages with one of the ids: MAX, NULL for no row.
unfoldable pub newest : List String → List MessageRow → Option ℕ
newest ids [] = none
newest ids (r ∷ rs) =
    let rest = newest ids rs in
    if any (λ i. i == r.id) ids
    then some (elim rest [ none ↦ r.timestamp | some t ↦ max r.timestamp t ])
    else rest

-- The inbound messages of a chat that a read up to `limit` leaves unread.
abbrev pub unread_after : String → Option ℕ → MessageRow → Bool
unread_after jid limit r =
    r.chat_jid == jid
    && not r.from_me
    && not (r.message_type == "reaction" || r.message_type == "system")
    && elim limit [ none ↦ false | some t ↦ ltb t r.timestamp ]

abbrev pub cleared_chat : List String → List MessageRow → ChatRow → ChatRow
cleared_chat ids messages r = record r {
  unread_count =
      min r.unread_count
        (length (filter_where (unread_after r.jid (newest ids messages)) messages));
}

-- ClearUnreadUpTo. No message is newer than the default '9999-12-31', so with none of the ids
-- stored nothing is left unread.
unfoldable pub clear_unread_up_to : Env → String → List String → Action
clear_unread_up_to env jid ids =
    if is_empty ids
    then pure tt
    else exec env λ now db. record db {
      chats =
          update_where (λ r. r.jid == jid && ltb 0 r.unread_count) (cleared_chat ids db.messages)
            db.chats;
    }
