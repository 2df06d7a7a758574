-- ===== src/Bridge/Inbound/Live/Rows.antt =====
-- The rows that an incoming message adds: handleMessage of internal/wabridge/wabridge.go.
use enviadores_wabridge.Prelude.{
  ◌≡◌, refl, ◌∙◌, sym, ap, String, Bool, true, false, ◌||◌, not, List, [], ◌∷◌, ◌==◌, ◌++◌,
  if-cases, arith, Bool-cases, inl, inr, ◌⊎◌, any, eq_refl,
}
use enviadores_wabridge.Text.Utf8.{Bytes}
use enviadores_wabridge.Store.Tables.{Message, MessageRow, Db, update_where}
use enviadores_wabridge.Store.Exec.{Env, World}
use enviadores_wabridge.Store.Fallback.Keeps.{Keeps-exec}
use enviadores_wabridge.Store.Messages.{has_message, has_chat, insert_ignore, new_row}
use enviadores_wabridge.Store.Invariant.{KeepsKeys, same_id}
use enviadores_wabridge.Store.Chats.{upsert_chat, upsert_table}
use enviadores_wabridge.Store.Tail.{set_tail}
use enviadores_wabridge.Store.Writes.{Bears}
use enviadores_wabridge.Bridge.Client.{Client}
use enviadores_wabridge.Bridge.Location.{Floats}
use enviadores_wabridge.Bridge.NewChat.{canonical_chat_jid}
use enviadores_wabridge.Bridge.Proto.Action.{none_asked, reacted, reaction_of, resolve_action}
use enviadores_wabridge.Bridge.Inbound.{is_skipped_chat, chat_aliases}
use enviadores_wabridge.Bridge.Inbound.Actions.{apply_protocol_action}
use enviadores_wabridge.Bridge.Inbound.Actions.Handled.{message_ids}
use enviadores_wabridge.Bridge.Inbound.Media.{Incoming, Outside}
use enviadores_wabridge.Bridge.Inbound.Live.{handle_message, store_incoming}
use enviadores_wabridge.Bridge.Inbound.Live.Kept.{handle_message_keeps, store_reaction_keeps}

update_where-ids :
    (p : MessageRow → Bool) (f : MessageRow → MessageRow) (k : KeepsKeys f) (rs : List MessageRow)
    → message_ids (update_where p f rs) ≡ message_ids rs
unfolding message_ids update_where
update_where-ids p f k [] = refl
update_where-ids p f k (r ∷ rs) = rw (same_id p f k r, update_where-ids p f k rs) refl

append-ids :
    (rs : List MessageRow) (r : MessageRow)
    → message_ids (rs ++ r ∷ []) ≡ message_ids rs ++ r.id ∷ []
unfolding message_ids
append-ids [] r = refl
append-ids (x ∷ rs) r = ap (λ l. x.id ∷ l) (append-ids rs r)

has_message-ids :
    (id : String) (rs : List MessageRow) → has_message id rs ≡ any (λ o. o == id) (message_ids rs)
unfolding message_ids
has_message-ids id [] = refl
has_message-ids id (r ∷ rs) = rw (has_message-ids id rs) refl

any-last : (id : String) (ids : List String) → any (λ o. o == id) (ids ++ id ∷ []) ≡ true
any-last id [] = rw (eq_refl id) refl
any-last id (x ∷ ids) = ground (arith, any-last id ids)

module _ (id : String) (rs : List MessageRow) where
  -- The keys are those of the rows, or these and a new one.
  abbrev pub OneMore : List MessageRow → Type 0
  OneMore rs' =
      (message_ids rs' ≡ message_ids rs)
      ⊎ ((has_message id rs ≡ false) × (message_ids rs' ≡ message_ids rs ++ id ∷ []))

  insert-OneMore :
      (m : Message)
      → m.id ≡ id
      → (db : Db) → OneMore db.messages
      → OneMore (insert_ignore m db).messages
  unfolding insert_ignore
  insert-OneMore m same db (inr (new, e)) =
      let stored : has_message m.id db.messages ≡ true =
        has_message-ids m.id db.messages ∙ rw (e, same) (any-last id (message_ids rs)) in
      rw stored (inr (new, e))
  insert-OneMore m same db (inl e) = elim (Bool-cases (has_message m.id db.messages)) [
    | inl stored ↦ rw stored (inl e)
    | inr new ↦
        let fresh : has_message id rs ≡ false =
          has_message-ids id rs ∙ rw (← e, ← same) (sym (has_message-ids m.id db.messages) ∙ new) in
        rw new (
          if-cases (λ (x : Db). OneMore x.messages) (not (has_chat m.chat_jid db.chats)) (inl e)
            (inr (fresh, append-ids db.messages (new_row m) ∙ rw (e, same) refl)))
  ]

  OneMore-Bears : Bears (λ db. OneMore db.messages) id
  OneMore-Bears = record {
    update = λ p f k db h. rw (update_where-ids p f k db.messages) h;
    insert = insert-OneMore;
  }

-- Whatever arrives, with whatever wrapping and whatever the server answers, with every retry: an
-- event of a message leaves the primary keys of wa_messages as they are, or adds one at the end,
-- which is the event's own id, and that only if it was not there.
pub handle_message-OneMore :
    (env : Env) (c : Client) (fl : Floats) (out : Outside) (e : Incoming) (w : World)
    → OneMore e.info.id w.db.messages (handle_message env c fl out e w).db.messages
unfolding upsert_chat upsert_table set_tail
handle_message-OneMore env c fl out e w =
    let P : Db → Type 0 = λ db. OneMore e.info.id w.db.messages db.messages in
    handle_message_keeps {P = P} env c fl out e (OneMore-Bears e.info.id w.db.messages)
      (λ jid t preview db h. h)
      (λ chat. Keeps-exec {P = P} env _ (λ now db h. if-cases P (has_chat chat.jid db.chats) h h)) w
      (inl refl)

-- An event that asks for no edit or delete and carries a reaction changes nothing of wa_chats,
-- whatever the server answers: neither the tail nor the unread count of a chat moves, and no chat
-- is added.
pub handle_message-reaction :
    (env : Env) (c : Client) (fl : Floats) (out : Outside) (e : Incoming) (w : World)
    (target : String) (emoji : Bytes)
    → resolve_action e.message out.secret ≡ none_asked
    → reaction_of e.message out.secret_reaction ≡ reacted target emoji
    → (handle_message env c fl out e w).db.chats ≡ w.db.chats
unfolding handle_message store_incoming apply_protocol_action insert_ignore
handle_message-reaction env c fl out e w target emoji ordinary found =
    let P : Db → Type 0 = λ db. db.chats ≡ w.db.chats in
    let chats = chat_aliases c e.info.chat (canonical_chat_jid c.whatsapp e.info.chat) in
    let bears : Bears P e.info.id = record {
      update = λ p f k db h. h;
      insert = λ m same db h.
          if-cases P (has_message m.id db.messages || not (has_chat m.chat_jid db.chats)) h h;
    } in
    rw ordinary (
      if-cases (λ (x : World). P x.db) (is_skipped_chat e.info.chat) refl
        (rw (found, store_incoming)
          (store_reaction_keeps {P = P} env e.info bears c chats target emoji w refl)))
