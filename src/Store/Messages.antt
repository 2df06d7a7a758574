-- ===== src/Store/Messages.antt =====
-- InsertMessage and LocateMessage of internal/store/store.go.
pub mod Insert
use enviadores_wabridge.Prelude.{
  ℕ, ◌≡◌, String, Bool, true, false, not, ◌&&◌, ◌||◌, Option, none, some, List, [], ◌∷◌, ◌++◌, ◌==◌,
  if◌then◌else◌, any,
}
use enviadores_wabridge.Store.Failure.{
  Error, Result, ok, err, no_rows, feature_quotes, feature_location,
}
use enviadores_wabridge.Store.Tables.{ChatRow, Message, MessageRow, Db, find_where}
use enviadores_wabridge.Store.Exec.{Env, World, M, Action, exec, query_row}
use enviadores_wabridge.Store.Fallback.{fallback}

abbrev pub is_some {ℓ} : {A : Type ℓ} → Option A → Bool
is_some none = false
is_some (some a) = true

-- The row that a message becomes when no update has touched it.
abbrev pub new_row : Message → MessageRow
new_row m = record {
  message = m;
  original_body = none;
  edited_at = none;
  revoked_at = none;
  status_updated_at = none;
}

abbrev pub has_message : String → List MessageRow → Bool
has_message id = any (λ r. r.id == id)

abbrev pub has_chat : String → List ChatRow → Bool
has_chat jid = any (λ c. c.jid == jid)

-- INSERT IGNORE INTO wa_messages: a row with that primary key, or a chat_jid with no wa_chats row
-- (its foreign key), makes it a no-op.
unfoldable pub insert_ignore : Message → Db → Db
insert_ignore m db =
    if has_message m.id db.messages || not (has_chat m.chat_jid db.chats)
    then db
    else record db { messages = db.messages ++ new_row m ∷ [] }

-- The columns that a statement names: a column that it does not name is NULL.
unfoldable pub with_columns : Bool → Bool → Message → Message
with_columns quotes location m = record m {
  quoted_preview = if quotes then m.quoted_preview else none;
  quoted_sender_jid = if quotes then m.quoted_sender_jid else none;
  target_message_id = if quotes then m.target_message_id else none;
  location_name = if location then m.location_name else none;
  location_address = if location then m.location_address else none;
}

-- insertMessage
unfoldable pub insert_message_with : Env → Message → Bool → Action
insert_message_with env m location =
    fallback feature_quotes (exec env (λ now. insert_ignore (with_columns true location m)))
      (some (exec env (λ now. insert_ignore (with_columns false location m)))) tt

-- InsertMessage
unfoldable pub insert_message : Env → Message → Action
insert_message env m =
    if not (is_some m.location_name) && not (is_some m.location_address)
    then insert_message_with env m false
    else fallback feature_location (insert_message_with env m true)
        (some (insert_message_with env m false)) tt

pub record MessageRef : Type 0 where
  pub chat_jid : String
  pub from_me : Bool

-- What LocateMessage, ApplyEdit and RevokeMessage return.
pub record Located : Type 0 where
  pub ref : MessageRef
  pub found : Bool
  pub error : Option Error

abbrev pub no_ref : MessageRef
no_ref = record { chat_jid = ""; from_me = false }

abbrev pub not_found : Located
not_found = record { ref = no_ref; found = false; error = none }

-- WHERE id = ? AND chat_jid IN (...)
abbrev pub in_chats : String → List String → MessageRow → Bool
in_chats id chats r = r.id == id && any (λ c. c == r.chat_jid) chats

abbrev pub row_ref : MessageRow → MessageRef
row_ref r = record { chat_jid = r.chat_jid; from_me = r.from_me }

abbrev pub located : Result MessageRow → Located
located (ok r) = record { ref = row_ref r; found = true; error = none }
located (err no_rows) = not_found
located (err e) = record { ref = no_ref; found = false; error = some e }

abbrev pub is_empty {ℓ} : {A : Type ℓ} → List A → Bool
is_empty [] = true
is_empty (x ∷ xs) = false

unfoldable pub locate_message : Env → String → List String → World → Located × World
locate_message env id chats w =
    if id == "" || is_empty chats
    then (not_found, w)
    else let (r, w') = query_row env (λ now db. find_where (in_chats id chats) db.messages) w in
      (located r, w')
