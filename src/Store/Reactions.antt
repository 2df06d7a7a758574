-- ===== src/Store/Reactions.antt =====
-- UpsertReaction, insertLegacyReaction and reactionStatus of internal/store/store.go.
pub mod Slots
pub mod One
use enviadores_wabridge.Prelude.{
  ℕ, String, Bool, true, false, not, ◌&&◌, ◌||◌, Option, none, some, List, [], ◌∷◌, ◌==◌, any, ltb,
  leb, if◌then◌else◌,
}
use enviadores_wabridge.Text.Utf8.{Bytes}
use enviadores_wabridge.Store.Failure.{ok, feature_quotes}
use enviadores_wabridge.Store.Tables.{Message, MessageRow, Db, update_where}
use enviadores_wabridge.Store.Exec.{
  Env, World, M, Action, pure, query, exec, feature_off, ◌>>=◌, ◌>>◌,
}
use enviadores_wabridge.Store.Fallback.{fallback}
use enviadores_wabridge.Store.Messages.{insert_message, is_empty}
use enviadores_wabridge.Store.Edits.{bool_eq, names}

pub record Reaction : Type 0 where
  pub id : String
  pub chat_jid : String
  pub sender_jid : Option String
  pub sender_aliases : List String
  pub from_me : Bool
  pub is_group : Bool
  pub target_id : String
  -- empty when the sender removed theirs
  pub emoji : Bytes
  pub timestamp : ℕ

-- reactionStatus
abbrev pub reaction_status : Bool → String
reaction_status from_me = if from_me then "sent" else "received"

-- The forms of the sender that a group's rows are matched on.
abbrev pub senders : Reaction → List String
senders r =
    if is_empty r.sender_aliases
    then (elim r.sender_jid [ none ↦ "" | some s ↦ s ]) ∷ []
    else r.sender_aliases

-- A NULL column equals nothing.
abbrev pub is_text : Option String → String → Bool
is_text none s = false
is_text (some t) s = t == s

abbrev pub is_sender : Option String → List String → Bool
is_sender none names = false
is_sender (some t) names = any (λ n. n == t) names

-- The WHERE of the search for the sender's earlier reaction.
unfoldable pub same_slot : Reaction → MessageRow → Bool
same_slot r x =
    x.chat_jid == r.chat_jid
    && is_text x.target_message_id r.target_id
    && (x.message_type == "reaction" || x.message_type == "system")
    && bool_eq x.from_me r.from_me
    && (if not r.from_me && r.is_group then is_sender x.sender_jid (senders r) else true)

-- ORDER BY timestamp DESC LIMIT 1; among equal timestamps the first row of the table.
unfoldable pub newest_row : (MessageRow → Bool) → List MessageRow → Option MessageRow
newest_row p [] = none
newest_row p (x ∷ xs) =
    let rest = newest_row p xs in
    if p x
    then elim rest [
      | none ↦ some x
      | some y ↦ if ltb x.timestamp y.timestamp then some y else some x
    ]
    else rest

abbrev pub row_id : Option MessageRow → String
row_id none = ""
row_id (some x) = x.id

-- The row of a reaction that is new.
abbrev pub reaction_message : Reaction → Option String → Message
reaction_message r target = record {
  id = r.id;
  chat_jid = r.chat_jid;
  sender_jid = r.sender_jid;
  from_me = r.from_me;
  message_type = "reaction";
  body = some r.emoji;
  media_url = none;
  media_mime = none;
  media_size = none;
  media_filename = none;
  media_sha256 = none;
  media_thumbnail_url = none;
  quoted_message_id = none;
  quoted_preview = none;
  quoted_sender_jid = none;
  target_message_id = target;
  client_request_id = none;
  location_name = none;
  location_address = none;
  timestamp = r.timestamp;
  status = some (reaction_status r.from_me);
}

-- insertLegacyReaction
unfoldable pub insert_legacy_reaction : Env → Reaction → Action
insert_legacy_reaction env r = insert_message env (reaction_message r none)

-- The id of the sender's earlier reaction, empty when there is none.
unfoldable pub existing_reaction : Env → Reaction → M String
existing_reaction env r =
    fallback feature_quotes (query env λ now db. row_id (newest_row (same_slot r) db.messages))
      (some (if is_empty r.emoji then pure "" else insert_legacy_reaction env r >> pure "")) ""

-- What an update writes: a removal hides the row, another emoji revives it.
abbrev pub reacted_row : Reaction → MessageRow → MessageRow
reacted_row r x = record x {
  message = record x.message {
    message_type = if is_empty r.emoji then "system" else "reaction";
    body = if is_empty r.emoji then none else some r.emoji;
    timestamp = r.timestamp;
  };
}

unfoldable pub update_reaction : Reaction → String → Db → Db
update_reaction r existing db = record db {
  messages =
      update_where (λ x. x.id == existing && leb x.timestamp r.timestamp) (reacted_row r)
        db.messages;
}

-- The reacted-to message is picked up by the web client's refresh.
unfoldable pub bump_target : Env → Reaction → Action
bump_target env r = exec env λ now db. record db {
  messages =
      update_where (names r.target_id r.chat_jid) (λ x. record x { status_updated_at = some now })
        db.messages;
}

abbrev pub write_reaction : Env → Reaction → String → Action
write_reaction env r existing =
    if not (existing == "")
    then exec env (λ now. update_reaction r existing) >> bump_target env r
    else if is_empty r.emoji
    then pure tt
    else insert_message env (reaction_message r (some r.target_id)) >> bump_target env r

-- UpsertReaction
unfoldable pub upsert_reaction : Env → Reaction → Action
upsert_reaction env r =
    if r.target_id == ""
    then pure tt
    else existing_reaction env r >>= λ existing w.
        if feature_off w feature_quotes then (ok tt, w) else write_reaction env r existing w
