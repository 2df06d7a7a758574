-- ===== src/Bridge/Inbound/Actions.antt =====
-- Events that act on an earlier message: applyProtocolAction, storeEditAsRow, recomputeTail and
-- storeReaction of internal/wabridge/wabridge.go, protoAction, reactionRecord and senderNonAD of
-- internal/wabridge/messages.go. An edit comes with the body that classifyMessage found in it.
pub mod Handled
use enviadores_wabridge.Prelude.{
  ℕ, String, Bool, true, false, not, ◌&&◌, ◌||◌, Option, none, some, List, [], ◌∷◌, ◌==◌,
  if◌then◌else◌, leb, length,
}
use enviadores_wabridge.Text.Utf8.{Bytes}
use enviadores_wabridge.Store.Failure.{Error, Result, ok, err, not_author, edits_unsupported}
use enviadores_wabridge.Store.Tables.{Message}
use enviadores_wabridge.Store.Exec.{Env, World}
use enviadores_wabridge.Store.Messages.{
  Located, not_found, is_empty, is_some, insert_message, locate_message,
}
use enviadores_wabridge.Store.Edits.{apply_edit, revoke_message}
use enviadores_wabridge.Store.Reactions.{Reaction, upsert_reaction}
use enviadores_wabridge.Store.Tail.{recompute_chat_tail}
use enviadores_wabridge.Bridge.Whatsapp.{Jid}
use enviadores_wabridge.Bridge.Client.{Client}
use enviadores_wabridge.Bridge.Preview.{tail_preview}
use enviadores_wabridge.Bridge.NewChat.{is_answer, retry_delays, retried, null_string, null_bytes}
use enviadores_wabridge.Bridge.Inbound.{MessageInfo, default_status, sender_aliases}

-- protoAction
pub data ProtoAction : Type 0 where
  ordinary : ProtoAction
  edit : String → Option Bytes → ProtoAction
  revoke : String → ProtoAction
  dropped : Bytes → ProtoAction

-- storeRetry over a call that also reports which message it found.
unfoldable pub retry_located : List ℕ → (World → Located × World) → World → Located × World
retry_located [] m w = (not_found, w)
retry_located (d ∷ ds) m w = elim (m w).0.error [
  | none ↦ m w
  | some e ↦
      let again = retry_located ds m (m w).1 in if is_answer e || is_empty ds then m w else again
]

unfoldable pub retried_located : (World → Located × World) → World → Located × World
unfolding retry_located
retried_located m = retry_located retry_delays m

-- recomputeTail
unfoldable pub recompute_tail : Env → String → World → World
recompute_tail env jid w = (retried (recompute_chat_tail env jid tail_preview) w).1

-- The row that an edit becomes on a schema without the edit columns.
abbrev pub edit_message : MessageInfo → String → Option Bytes → Message
edit_message e jid body = record {
  id = e.id;
  chat_jid = jid;
  sender_jid = null_string e.sender.text;
  from_me = e.is_from_me;
  message_type = "text";
  body = body;
  media_url = none;
  media_mime = none;
  media_size = none;
  media_filename = none;
  media_sha256 = none;
  media_thumbnail_url = none;
  quoted_message_id = none;
  quoted_preview = none;
  quoted_sender_jid = none;
  target_message_id = none;
  client_request_id = none;
  location_name = none;
  location_address = none;
  timestamp = e.timestamp;
  status = some (default_status e.is_from_me);
}

module _ (env : Env) where
  abbrev pub after_edit_row : String → Result (Unit {0}) × World → World
  after_edit_row jid (err e, w) = w
  after_edit_row jid (ok _, w) = recompute_tail env jid w

  -- storeEditAsRow
  unfoldable pub store_edit_as_row : MessageInfo → String → Option Bytes → World → World
  store_edit_as_row e jid body w =
      after_edit_row jid (retried (insert_message env (edit_message e jid body)) w)

  -- The cases after ApplyEdit.
  abbrev pub after_apply_edit : MessageInfo → Option Bytes → Located → World → World
  after_apply_edit e body l w = elim l.error [
    | some edits_unsupported ↦ store_edit_as_row e l.ref.chat_jid body w
    | some _ ↦ w
    | none ↦ if l.found then recompute_tail env l.ref.chat_jid w else w
  ]

  -- The cases after RevokeMessage; the Boolean says whether the event is handled.
  abbrev pub after_apply_revoke : Located → World → Bool × World
  after_apply_revoke l w = elim l.error [
    | some not_author ↦ (true, w)
    | some _ ↦ (false, w)
    | none ↦ if l.found then (true, recompute_tail env l.ref.chat_jid w) else (false, w)
  ]

  -- applyProtocolAction
  unfoldable pub apply_protocol_action :
      MessageInfo → List String → ProtoAction → World → Bool × World
  apply_protocol_action e chats ordinary w = (false, w)
  apply_protocol_action e chats (dropped reason) w = (true, w)
  apply_protocol_action e chats (edit target body) w =
      let m = retried_located (apply_edit env chats target e.is_from_me body) w in
      (true, after_apply_edit e body m.0 m.1)
  apply_protocol_action e chats (revoke target) w =
      let m = retried_located (revoke_message env chats target e.is_from_me e.is_group) w in
      after_apply_revoke m.0 m.1

  -- senderNonAD
  abbrev pub sender_non_ad : Client → Jid → String
  sender_non_ad c j = if c.is_empty_jid j then "" else (c.to_non_ad j).text

  -- reactionRecord, of a reaction's target and emoji
  unfoldable pub reaction_record :
      Client → MessageInfo → String → String → Bytes → List String → Reaction
  reaction_record c e jid target emoji aliases = record {
    id = e.id;
    chat_jid = jid;
    sender_jid = null_string (sender_non_ad c e.sender);
    sender_aliases = aliases;
    from_me = e.is_from_me;
    is_group = e.is_group;
    target_id = target;
    emoji = emoji;
    timestamp = e.timestamp;
  }

  -- The chat of the reacted-to message, where it is found.
  abbrev pub located_chat : String → Located → String
  located_chat jid l = if not (is_some l.error) && l.found then l.ref.chat_jid else jid

  abbrev pub reaction_chat : String → List String → World → String × World
  reaction_chat target [] w = ("", w)
  reaction_chat target (jid ∷ []) w = (jid, w)
  reaction_chat target (jid ∷ more ∷ jids) w =
      let l = locate_message env target (jid ∷ more ∷ jids) w in (located_chat jid l.0, l.1)

  -- storeReaction
  unfoldable pub store_reaction :
      Client → MessageInfo → List String → String → Bytes → World → World
  store_reaction c e chats target emoji w =
      let at = reaction_chat target chats w in
      let r = reaction_record c e at.0 target emoji (sender_aliases c e.sender) in
      if target == "" then w else (upsert_reaction env r at.1).1
