-- ===== src/Bridge/History/Kept.antt =====
-- What the history keeps true of the tables: it never raises an unread count.
use enviadores_wabridge.Prelude.{ℕ, refl, String, none, some, List, [], ◌∷◌, ◌==◌, if-cases, ltb}
use enviadores_wabridge.Text.Utf8.{Bytes}
use enviadores_wabridge.Store.Failure.{Result, ok, err}
use enviadores_wabridge.Store.Tables.{Message, Db}
use enviadores_wabridge.Store.Exec.{Env, World}
use enviadores_wabridge.Store.Fallback.Keeps.{Keeps}
use enviadores_wabridge.Store.Messages.{insert_message}
use enviadores_wabridge.Store.Chats.{upsert_chat}
use enviadores_wabridge.Store.Writes.{
  Bears, BearsTail, Keeps-retail, Keeps-insert, revoke_message_keeps, Keeps-react,
}
use enviadores_wabridge.Bridge.Whatsapp.{Jid, group_server}
use enviadores_wabridge.Bridge.Client.{ParsedJid, jid, bad_jid, Client}
use enviadores_wabridge.Bridge.Location.{Floats}
use enviadores_wabridge.Bridge.Preview.{tail_preview}
use enviadores_wabridge.Bridge.NewChat.{canonical_chat_jid}
use enviadores_wabridge.Bridge.Proto.Classify.{classify_message}
use enviadores_wabridge.Bridge.Proto.Action.{
  Resolved, none_asked, edits, revokes, drops, resolve_action, ReactionFound, no_reaction, reacted,
  unreadable, reaction_of,
}
use enviadores_wabridge.Bridge.Inbound.{is_skipped_chat, chat_aliases, sender_aliases}
use enviadores_wabridge.Bridge.Inbound.Actions.{reaction_record}
use enviadores_wabridge.Bridge.Inbound.Media.{Incoming}
use enviadores_wabridge.Bridge.History.{
  Past, Conversation, history_chat, past_revoke, past_reaction, past_row, counted, past_content,
  past_message, past_messages, past_chat, with_chat, handle_conversation, handle_history_sync,
}

module _ {P : Db → Type 0} (env : Env) (c : Client) (fl : Floats) (b : (id : String) → Bears P id)
    (t : BearsTail P)
    (u : (chat : Jid) (name : Bytes) → Keeps P (upsert_chat env (history_chat c chat name))) where
  past_revoke_keeps :
      (chat : Jid) (chats : List String) (e : Incoming) (r : Resolved) (w : World)
      → P w.db
      → P (past_revoke env c fl chat chats e r w).1.db
  past_revoke_keeps chat chats e (revokes target) w h =
      revoke_message_keeps env (b "") chats target e.info.is_from_me (chat.server == group_server) w
        h
  past_revoke_keeps chat chats e none_asked w h = h
  past_revoke_keeps chat chats e (edits _ _) w h = h
  past_revoke_keeps chat chats e (drops _) w h = h

  past_reaction_keeps :
      (chat : Jid) (chats : List String) (e : Incoming) (r : ReactionFound) (w : World)
      → P w.db
      → P (past_reaction env c fl chat chats e r w).db
  unfolding reaction_record
  past_reaction_keeps chat chats e (reacted target emoji) w h =
      (Keeps-react env (b e.info.id)
          (reaction_record env c e.info chat.text target emoji (sender_aliases c e.info.sender))
          refl).at
        w h
  past_reaction_keeps chat chats e no_reaction w h = h
  past_reaction_keeps chat chats e unreadable w h = h

  counted_keeps :
      (chat : Jid) (chats : List String) (n : ℕ) (m : Message) (w : World)
      → P w.db
      → P (counted env c fl chat chats n (insert_message env m w)).1.db
  counted_keeps chat chats n m w h = go _ _ ((Keeps-insert env (b m.id) m refl).at w h)
    where
      go :
          (r : Result (Unit {0})) (v : World)
          → P v.db
          → P (counted env c fl chat chats n (r, v)).1.db
      go (err x) v p = p
      go (ok _) v p = p

  past_message_keeps :
      (chat : Jid) (chats : List String) (m : Past) (n : ℕ) (w : World)
      → P w.db
      → P (past_message env c fl chat chats m n w).1.db
  unfolding past_message past_content
  past_message_keeps chat chats none n w h = h
  past_message_keeps chat chats (some (e, out)) n w h =
      let r = past_revoke env c fl chat chats e (resolve_action e.message none) w in
      let p = past_revoke_keeps chat chats e (resolve_action e.message none) w h in
      let k = classify_message fl e.message in
      let Kept = λ (x : ℕ × World). P x.1.db in
      if-cases Kept r.0 p (
        if-cases Kept (k.message_type == "system") p (
          if-cases Kept (k.message_type == "reaction")
            (past_reaction_keeps chat chats e (reaction_of e.message none) r.1 p)
            (counted_keeps chat chats n (past_row env c fl chat chats e out k) r.1 p)))

  past_messages_keeps :
      (chat : Jid) (chats : List String) (ms : List Past) (n : ℕ) (w : World)
      → P w.db
      → P (past_messages env c fl chat chats ms n w).1.db
  unfolding past_messages
  past_messages_keeps chat chats [] n w h = h
  past_messages_keeps chat chats (m ∷ ms) n w h =
      let r = past_message env c fl chat chats m n w in
      past_messages_keeps chat chats ms r.0 r.1 (past_message_keeps chat chats m n w h)

  past_chat_keeps :
      (chat : Jid) (chats : List String) (ms : List Past) (r : Result (Unit {0})) (w : World)
      → P w.db
      → P (past_chat env c fl chat chats ms (r, w)).db
  past_chat_keeps chat chats ms (err e) w h = h
  past_chat_keeps chat chats ms (ok _) w h =
      let r = past_messages env c fl chat chats ms 0 w in
      let p = past_messages_keeps chat chats ms 0 w h in
      if-cases (λ (x : World). P x.db) (ltb 0 r.0)
        ((Keeps-retail env t chat.text tail_preview).at r.1 p) p

  conversation_keeps :
      (v : Conversation) (w : World) → P w.db → P (handle_conversation env c fl v w).db
  unfolding handle_conversation
  conversation_keeps v w h = go (c.parse_jid v.id)
    where
      go : (p : ParsedJid) → P (with_chat env c fl v p w).db
      go (bad_jid e) = h
      go (jid raw) =
          let chat = canonical_chat_jid c.whatsapp raw in
          if-cases (λ (x : World). P x.db) (is_skipped_chat raw) h
            (past_chat_keeps chat (chat_aliases c raw chat) v.messages _ _ ((u chat v.name).at w h))

  -- The history keeps what its writes keep.
  pub history_sync_keeps :
      (vs : List Conversation) (w : World) → P w.db → P (handle_history_sync env c fl vs w).db
  unfolding handle_history_sync
  history_sync_keeps [] w h = h
  history_sync_keeps (v ∷ vs) w h = history_sync_keeps vs _ (conversation_keeps v w h)
