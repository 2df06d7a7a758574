-- ===== src/Bridge/History.antt =====
-- handleHistorySync of internal/wabridge/wabridge.go: the conversations that WhatsApp delivers after
-- pairing and from time to time. The loop ends early when its ten minutes are over, which is a
-- shorter list of conversations here.
pub mod Kept
pub mod Unread
use enviadores_wabridge.Prelude.{
  ℕ, suc, ◌+◌, String, Bool, true, false, not, ◌&&◌, ◌||◌, Option, none, some, List, [], ◌∷◌, ◌==◌,
  ltb, if◌then◌else◌,
}
use enviadores_wabridge.Text.Utf8.{Bytes}
use enviadores_wabridge.Store.Failure.{Error, Result, ok, err, not_author}
use enviadores_wabridge.Store.Tables.{Message}
use enviadores_wabridge.Store.Exec.{Env, World}
use enviadores_wabridge.Store.Messages.{Located, insert_message}
use enviadores_wabridge.Store.Chats.{Chat, upsert_chat}
use enviadores_wabridge.Store.Edits.{revoke_message}
use enviadores_wabridge.Store.Reactions.{upsert_reaction}
use enviadores_wabridge.Store.Tail.{recompute_chat_tail}
use enviadores_wabridge.Bridge.Whatsapp.{Jid, group_server}
use enviadores_wabridge.Bridge.Client.{ParsedJid, jid, bad_jid, Client}
use enviadores_wabridge.Bridge.Location.{Floats}
use enviadores_wabridge.Bridge.Preview.{MediaDescriptor, tail_preview}
use enviadores_wabridge.Bridge.NewChat.{canonical_chat_jid, null_bytes}
use enviadores_wabridge.Bridge.Proto.Classify.{Classified, classify_message}
use enviadores_wabridge.Bridge.Proto.Reply.{context_info_of, quote_from_context}
use enviadores_wabridge.Bridge.Proto.Action.{
  Resolved, revokes, resolve_action, ReactionFound, reacted, reaction_of,
}
use enviadores_wabridge.Bridge.Inbound.{MessageInfo, is_skipped_chat, chat_aliases, sender_aliases}
use enviadores_wabridge.Bridge.Inbound.Actions.{reaction_record}
use enviadores_wabridge.Bridge.Inbound.Media.{
  Incoming, Outside, Columns, no_columns, upload_location_preview, resolve_display_name_for_jid,
  resolve_phone,
}
use enviadores_wabridge.Bridge.Inbound.Live.{message_row}

-- A message of the history: what ParseWebMessage makes of it, none for one that is skipped, and what
-- the file host answers for it.
abbrev pub Past : Type 0
Past = Option (Incoming × Outside)

-- waHistorySync.Conversation
pub record Conversation : Type 0 where
  pub id : String
  pub name : Bytes
  pub messages : List Past

-- The chat before its messages.
unfoldable pub history_chat : Client → Jid → Bytes → Chat
history_chat c chat name = record {
  jid = chat.text;
  display_name = resolve_display_name_for_jid c chat name;
  phone_e164 = resolve_phone c chat;
  is_group = chat.server == group_server;
  profile_pic_url = none;
  last_message_at = none;
  last_message_preview = none;
  last_message_from_me = false;
  increment_unread = false;
}

-- Media of the history is never downloaded.
abbrev pub past_columns : Outside → Option MediaDescriptor → Columns
past_columns out none = no_columns
past_columns out (some m) = record no_columns {
  mime = null_bytes m.mime;
  filename = null_bytes m.filename;
  thumbnail_url = upload_location_preview out (some m);
}

-- Whether a delete is done with.
abbrev pub revoke_done : Located → Bool
revoke_done l = elim l.error [ some not_author ↦ true | some _ ↦ false | none ↦ l.found ]

module _ (env : Env) (c : Client) (fl : Floats) (chat : Jid) (chats : List String) where
  -- The delete that a message may be, and whether the message is done with.
  abbrev pub past_revoke : Incoming → Resolved → World → Bool × World
  past_revoke e (revokes target) w =
      let r = revoke_message env chats target e.info.is_from_me (chat.server == group_server) w in
      (revoke_done r.0, r.1)
  past_revoke e _ w = (false, w)

  abbrev pub past_reaction : Incoming → ReactionFound → World → World
  past_reaction e (reacted target emoji) w =
      (upsert_reaction env
        (reaction_record env c e.info chat.text target emoji (sender_aliases c e.info.sender)) w).1
  past_reaction e _ w = w

  abbrev pub counted : ℕ → Result (Unit {0}) × World → ℕ × World
  counted n (err e, w) = (n, w)
  counted n (ok _, w) = (suc n, w)

  abbrev pub past_row : Incoming → Outside → Classified → Message
  past_row e out k =
      message_row e.info chat.text k (quote_from_context fl (context_info_of e.message))
        (past_columns out k.media)

  -- A message that is no delete; the count of those inserted goes along.
  unfoldable pub past_content : Incoming → Outside → ℕ → World → ℕ × World
  past_content e out n w =
      let k = classify_message fl e.message in
      if k.message_type == "system"
      then (n, w)
      else if k.message_type == "reaction"
      then (n, past_reaction e (reaction_of e.message none) w)
      else counted n (insert_message env (past_row e out k) w)

  unfoldable pub past_message : Past → ℕ → World → ℕ × World
  past_message none n w = (n, w)
  past_message (some (e, out)) n w =
      let r = past_revoke e (resolve_action e.message none) w in
      if r.0 then (n, r.1) else past_content e out n r.1

  unfoldable pub past_messages : List Past → ℕ → World → ℕ × World
  past_messages [] n w = (n, w)
  past_messages (m ∷ ms) n w = let r = past_message m n w in past_messages ms r.0 r.1

  abbrev pub retailed : ℕ × World → World
  retailed (n, w) = if ltb 0 n then (recompute_chat_tail env chat.text tail_preview w).1 else w

  -- After UpsertChat.
  abbrev pub past_chat : List Past → Result (Unit {0}) × World → World
  past_chat ms (err e, w) = w
  past_chat ms (ok _, w) = retailed (past_messages ms 0 w)

module _ (env : Env) (c : Client) (fl : Floats) where
  abbrev pub with_chat : Conversation → ParsedJid → World → World
  with_chat v (bad_jid e) w = w
  with_chat v (jid raw) w =
      let chat = canonical_chat_jid c.whatsapp raw in
      if is_skipped_chat raw
      then w
      else past_chat env c fl chat (chat_aliases c raw chat) v.messages
          (upsert_chat env (history_chat c chat v.name) w)

  unfoldable pub handle_conversation : Conversation → World → World
  handle_conversation v w = with_chat v (c.parse_jid v.id) w

  -- handleHistorySync
  unfoldable pub handle_history_sync : List Conversation → World → World
  handle_history_sync [] w = w
  handle_history_sync (v ∷ vs) w = handle_history_sync vs (handle_conversation v w)
