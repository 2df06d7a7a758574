-- ===== src/Bridge/Events/Arrival.antt =====
-- How far the unread count of a chat can rise through one message: handleMessage of
-- internal/wabridge/wabridge.go.
use enviadores_wabridge.Prelude.{
  ◌+◌, ◌≡◌, ◌≤◌, refl, String, Bool, true, false, not, ◌&&◌, List, ◌==◌, if◌then◌else◌, Bool-cases,
  inl, inr, arith,
}
use enviadores_wabridge.Store.Failure.{Result, ok, err}
use enviadores_wabridge.Store.Exec.{Env, World}
use enviadores_wabridge.Store.Chats.{upsert_chat}
use enviadores_wabridge.Store.Writes.{Keeps-insert}
use enviadores_wabridge.Store.Tables.{Message}
use enviadores_wabridge.Bridge.Whatsapp.{Jid}
use enviadores_wabridge.Bridge.Client.{Client}
use enviadores_wabridge.Bridge.Location.{Floats}
use enviadores_wabridge.Bridge.NewChat.{canonical_chat_jid}
use enviadores_wabridge.Bridge.Proto.Classify.{Classified, classify_message}
use enviadores_wabridge.Bridge.Proto.Action.{
  ReactionFound, no_reaction, reacted, unreadable, reaction_of, resolve_action,
}
use enviadores_wabridge.Bridge.Inbound.{is_skipped_chat, chat_aliases}
use enviadores_wabridge.Bridge.Inbound.Actions.{apply_protocol_action, store_reaction}
use enviadores_wabridge.Bridge.Inbound.Media.{Incoming, Outside}
use enviadores_wabridge.Bridge.Inbound.Live.{
  action_of, message_chat, after_upsert, store_message, store_content, store_incoming,
  handle_message,
}
use enviadores_wabridge.Bridge.Inbound.Live.Kept.{apply_protocol_action_keeps, store_reaction_keeps}
use enviadores_wabridge.Bridge.Inbound.Live.Stored.{unread_of}
use enviadores_wabridge.Bridge.Events.Rise.{
  raise, AtMost, AtMost-Bears, AtMost-BearsTail, upsert-unread,
}

abbrev pub is_no_reaction : ReactionFound → Bool
is_no_reaction no_reaction = true
is_no_reaction _ = false

-- Whether a message counts for a chat: it lies in that chat, in one that is shown, comes from the
-- other side, and is neither a reaction nor a notice of the system.
abbrev pub counts_for : Client → Floats → String → Incoming → Outside → Bool
counts_for c fl key e out =
    (canonical_chat_jid c.whatsapp e.info.chat).text == key
    && not (is_skipped_chat e.info.chat)
    && not e.info.is_from_me
    && is_no_reaction (reaction_of e.message out.secret_reaction)
    && not ((classify_message fl e.message).message_type == "system")

module _ (env : Env) (c : Client) (fl : Floats) (key : String) where
  store_message-unread :
      (out : Outside) (e : Incoming) (chat : Jid) (k : Classified) (w : World)
      → unread_of key (store_message env c fl out e chat k w).db.chats
        ≤ unread_of key w.db.chats + (if chat.text == key && not e.info.is_from_me then 1 else 0)
  unfolding store_message message_chat
  store_message-unread out e chat k w =
      go _ (upsert_chat env (message_chat c out e chat k) w)
        (upsert-unread env key (message_chat c out e chat k) w)
    where
      go :
          (m : Message) (r : Result (Unit {0}) × World)
          → unread_of key r.1.db.chats
            ≤ unread_of key w.db.chats + raise key (message_chat c out e chat k)
          → unread_of key (after_upsert env c fl out m r).db.chats
            ≤ unread_of key w.db.chats
              + (if chat.text == key && not e.info.is_from_me then 1 else 0)
      go m (err x, v) h = ground (arith, h)
      go m (ok _, v) h =
          let n = unread_of key v.db.chats in
          let le = (Keeps-insert env (AtMost-Bears key n m.id) m refl).at v (omega arith) in
          ground (arith, h, le)

  store_content-unread :
      (out : Outside) (e : Incoming) (chat : Jid) (w : World)
      → unread_of key (store_content env c fl out e chat w).db.chats
        ≤ unread_of key w.db.chats
          + (if chat.text == key
                && not e.info.is_from_me
                && not ((classify_message fl e.message).message_type == "system")
              then 1
              else 0)
  store_content-unread out e chat w =
      let k = classify_message fl e.message in
      let le = store_message-unread out e chat k w in
      elim (Bool-cases (k.message_type == "system")) [
        | inl system ↦ rw system (omega arith)
        | inr content ↦ rw content (ground (arith, le))
      ]

  -- A message that is stored after its edits and deletes.
  incoming-unread :
      (out : Outside) (e : Incoming) (chats : List String) (w : World)
      → is_skipped_chat e.info.chat ≡ false
      → unread_of key
          (store_incoming env c fl out e
            (canonical_chat_jid c.whatsapp e.info.chat)
            chats
            w).db.chats
        ≤ unread_of key w.db.chats + (if counts_for c fl key e out then 1 else 0)
  unfolding store_incoming
  incoming-unread out e chats w shown = go (reaction_of e.message out.secret_reaction)
    where
      chat : Jid
      chat = canonical_chat_jid c.whatsapp e.info.chat

      Bound : ReactionFound → World → Type 0
      Bound r v =
          unread_of key v.db.chats
          ≤ unread_of key w.db.chats
            + (if (chat.text == key
                  && not (is_skipped_chat e.info.chat)
                  && not e.info.is_from_me
                  && is_no_reaction r
                  && not ((classify_message fl e.message).message_type == "system"))
                then 1
                else 0)

      go :
          (r : ReactionFound)
          → Bound r (elim r as (λ _. World) [
            | unreadable ↦ w
            | reacted target emoji ↦ store_reaction env c e.info chats target emoji w
            | no_reaction ↦ store_content env c fl out e chat w
          ])
      go unreadable = omega arith
      go (reacted target emoji) =
          let n = unread_of key w.db.chats in
          let le =
            store_reaction_keeps {P = AtMost key n} env e.info (AtMost-Bears key n e.info.id) c
              chats target emoji w (omega arith) in
          omega (arith, le)
      go no_reaction = let le = store_content-unread out e chat w in rw shown (ground (arith, le))

  pub handle_message-unread :
      (out : Outside) (e : Incoming) (w : World)
      → unread_of key (handle_message env c fl out e w).db.chats
        ≤ unread_of key w.db.chats + (if counts_for c fl key e out then 1 else 0)
  unfolding handle_message
  handle_message-unread out e w =
      let chat = canonical_chat_jid c.whatsapp e.info.chat in
      let chats = chat_aliases c e.info.chat chat in
      let act = action_of fl (resolve_action e.message out.secret) in
      let n = unread_of key w.db.chats in
      let handled = apply_protocol_action env e.info chats act w in
      let kept =
        apply_protocol_action_keeps {P = AtMost key n} env e.info (AtMost-Bears key n e.info.id)
          (AtMost-BearsTail key n) chats act w (omega arith) in
      elim (Bool-cases (is_skipped_chat e.info.chat)) [
        | inl skipped ↦ rw skipped (omega arith)
        | inr shown ↦
            let le = incoming-unread out e chats handled.1 shown in
            elim (Bool-cases handled.0) [
              | inl yes_handled ↦ rw (shown, yes_handled) (omega (arith, kept))
              | inr no_action ↦ rw (shown, no_action) (ground (arith, kept, le))
            ]
      ]
