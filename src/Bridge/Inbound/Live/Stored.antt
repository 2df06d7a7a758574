-- ===== src/Bridge/Inbound/Live/Stored.antt =====
-- With a server that does every statement, a message that arrives is stored; one that is delivered
-- again counts as unread again. handleMessage of internal/wabridge/wabridge.go.
use enviadores_wabridge.Prelude.{
  ℕ, suc, ◌+◌, ◌≡◌, refl, ◌∙◌, String, Bool, true, false, ◌&&◌, not, List, [], ◌∷◌, ◌==◌, ◌++◌,
  if◌then◌else◌, arith, Bool-cases, inl, inr, eq_refl,
}
use enviadores_wabridge.Store.Failure.{ok, feature_location, feature_quotes}
use enviadores_wabridge.Store.Tables.{Message, MessageRow, ChatRow, Db, update_where}
use enviadores_wabridge.Store.Exec.{Env, World, exec, exec_with, done, feature_off}
use enviadores_wabridge.Store.Fallback.{fallback, legacy}
use enviadores_wabridge.Store.Messages.{
  has_message, has_chat, insert_ignore, new_row, insert_message, insert_message_with, with_columns,
  is_some,
}
use enviadores_wabridge.Store.Messages.Insert.{insert_message-stored}
use enviadores_wabridge.Store.Chats.{Chat, upsert_chat, upsert_table, updated_chat, inserted_chat}
use enviadores_wabridge.Bridge.Client.{Client}
use enviadores_wabridge.Bridge.Location.{Floats}
use enviadores_wabridge.Bridge.NewChat.{canonical_chat_jid}
use enviadores_wabridge.Bridge.Proto.Classify.{classify_message}
use enviadores_wabridge.Bridge.Proto.Action.{none_asked, no_reaction, reaction_of, resolve_action}
use enviadores_wabridge.Bridge.Proto.Reply.{context_info_of, quote_from_context}
use enviadores_wabridge.Bridge.Inbound.{is_skipped_chat}
use enviadores_wabridge.Bridge.Inbound.Actions.{apply_protocol_action}
use enviadores_wabridge.Bridge.Inbound.Media.{Incoming, Outside, fetch_media}
use enviadores_wabridge.Bridge.Inbound.Live.{
  handle_message, store_incoming, store_message, message_chat, message_row,
}

-- An event of a chat that is shown, with content to store: no edit, delete or reaction, and no
-- message of the protocol.
pub record IsContent (fl : Floats) (out : Outside) (e : Incoming) : Type 0 where
  pub shown : is_skipped_chat e.info.chat ≡ false
  pub ordinary : resolve_action e.message out.secret ≡ none_asked
  pub plain : reaction_of e.message out.secret_reaction ≡ no_reaction
  pub kept : (classify_message fl e.message).message_type == "system" ≡ false

-- The unread count of a chat, 0 where there is none.
unfoldable pub unread_of : String → List ChatRow → ℕ
unread_of jid [] = 0
unread_of jid (r ∷ rs) =
    let rest = unread_of jid rs in if r.jid == jid then r.unread_count else rest

has_message-append :
    (id : String) (rs : List MessageRow) (r : MessageRow)
    → r.id ≡ id
    → has_message id (rs ++ r ∷ []) ≡ true
has_message-append id [] r e = rw (e, eq_refl id) refl
has_message-append id (x ∷ rs) r e = ground (arith, has_message-append id rs r e)

has_chat-append :
    (jid : String) (rs : List ChatRow) (r : ChatRow)
    → r.jid ≡ jid
    → has_chat jid (rs ++ r ∷ []) ≡ true
has_chat-append jid [] r e = rw (e, eq_refl jid) refl
has_chat-append jid (x ∷ rs) r e = ground (arith, has_chat-append jid rs r e)

-- A message whose chat is stored is there after its insertion, and so is the chat.
inserted-has :
    (q l : Bool) (m : Message) (db : Db)
    → has_chat m.chat_jid db.chats ≡ true
    → (has_message m.id (insert_ignore (with_columns q l m) db).messages ≡ true)
      × (has_chat m.chat_jid (insert_ignore (with_columns q l m) db).chats ≡ true)
unfolding insert_ignore with_columns
inserted-has q l m db chat = elim (Bool-cases (has_message m.id db.messages)) [
  | inl old ↦ rw old (old, chat)
  | inr new ↦
      rw (new, chat) (has_message-append m.id db.messages (new_row (with_columns q l m)) refl, chat)
]

inserted-has_as :
    (q l : Bool) (m : Message) (db : Db) (id jid : String)
    → m.id ≡ id
    → m.chat_jid ≡ jid
    → has_chat jid db.chats ≡ true
    → (has_message id (insert_ignore (with_columns q l m) db).messages ≡ true)
      × (has_chat jid (insert_ignore (with_columns q l m) db).chats ≡ true)
inserted-has_as q l m db id jid same at chat =
    rw (← same, ← at) (inserted-has q l m db (rw at chat))

module _ (now : ℕ) (c : Chat) where
  has_chat-updated :
      (rs : List ChatRow)
      → has_chat c.jid (update_where (λ r. r.jid == c.jid) (updated_chat now c) rs)
        ≡ has_chat c.jid rs
  unfolding update_where
  has_chat-updated [] = refl
  has_chat-updated (r ∷ rs) = ground (arith, has_chat-updated rs)

  upsert_table-has : (db : Db) → has_chat c.jid (upsert_table now c db).chats ≡ true
  unfolding upsert_table
  upsert_table-has db = elim (Bool-cases (has_chat c.jid db.chats)) [
    | inl old ↦ rw old (has_chat-updated db.chats ∙ old)
    | inr new ↦ rw new (has_chat-append c.jid db.chats (inserted_chat now c) refl)
  ]

  unread_of-updated :
      (rs : List ChatRow)
      → has_chat c.jid rs ≡ true
      → c.last_message_from_me ≡ false
      → c.increment_unread ≡ true
      → unread_of c.jid (update_where (λ r. r.jid == c.jid) (updated_chat now c) rs)
        ≡ unread_of c.jid rs + 1
  unfolding unread_of update_where
  unread_of-updated [] h f u = cc
  unread_of-updated (r ∷ rs) h f u = ground (arith, h, f, u, unread_of-updated rs)

  upsert_table-unread :
      (db : Db)
      → has_chat c.jid db.chats ≡ true
      → c.last_message_from_me ≡ false
      → c.increment_unread ≡ true
      → unread_of c.jid (upsert_table now c db).chats ≡ unread_of c.jid db.chats + 1
  unfolding upsert_table
  upsert_table-unread db h f u = rw h (unread_of-updated db.chats h f u)

upsert_table-messages :
    (now : ℕ) (c : Chat) (db : Db) → (upsert_table now c db).messages ≡ db.messages
unfolding upsert_table
upsert_table-messages now c db = ground arith

module _ (env : Env) (does : (n : ℕ) → env.outcome n ≡ done) where
  -- What a done statement leaves.
  abbrev wrote : Message → Bool → Bool → World → World
  wrote m q l w = record w {
    db = insert_ignore (with_columns q l m) w.db;
    statements = suc w.statements;
  }

  insert_message_with-does :
      (m : Message) (l : Bool) (w : World)
      → (q : Bool) × (insert_message_with env m l w ≡ (ok tt, wrote m q l w))
  unfolding insert_message_with fallback legacy exec exec_with
  insert_message_with-does m l w = elim (Bool-cases (feature_off w feature_quotes)) [
    | inl off ↦ (false, rw (off, does w.statements) refl)
    | inr on ↦ (true, rw (on, does w.statements) refl)
  ]

  insert_message-does :
      (m : Message) (w : World)
      → (q : Bool) × (l : Bool) × (insert_message env m w ≡ (ok tt, wrote m q l w))
  unfolding insert_message fallback legacy
  insert_message-does m w =
      let (q, e) = insert_message_with-does m false w in
      let (q', e') = insert_message_with-does m true w in
      elim (Bool-cases (not (is_some m.location_name) && not (is_some m.location_address))) [
        | inl plain ↦ (q, false, rw plain e)
        | inr place ↦ elim (Bool-cases (feature_off w feature_location)) [
          | inl off ↦ (q, false, rw (place, off) e)
          | inr on ↦ (q', true, rw (place, on, e') refl)
        ]
      ]

  upsert_chat-does :
      (c : Chat) (w : World)
      → upsert_chat env c w ≡ (
        ok tt,
        record w {
          db = upsert_table (env.clock w.statements) c w.db;
          statements = suc w.statements;
        },
      )
  unfolding upsert_chat exec exec_with
  upsert_chat-does c w = rw (does w.statements) refl

module _ (env : Env) (c : Client) (fl : Floats) (out : Outside) (e : Incoming) (w : World)
    (does : (n : ℕ) → env.outcome n ≡ done) (content : IsContent fl out e) where
  -- The chat that the message is stored in, and its row after UpsertChat.
  abbrev chat : Chat
  chat =
      message_chat c out e (canonical_chat_jid c.whatsapp e.info.chat)
        (classify_message fl e.message)

  abbrev upserted : World
  upserted = record w {
    db = upsert_table (env.clock w.statements) chat w.db;
    statements = suc w.statements;
  }

  row : Message
  row =
      let k = classify_message fl e.message in
      message_row e.info chat.jid k (quote_from_context fl (context_info_of e.message))
        (fetch_media out k.message_type k.media)

  row-id : row.id ≡ e.info.id
  unfolding row message_row
  row-id = refl

  row-chat : row.chat_jid ≡ (canonical_chat_jid c.whatsapp e.info.chat).text
  unfolding row message_row message_chat
  row-chat = refl

  stores : handle_message env c fl out e w ≡ (insert_message env row upserted).1
  unfolding handle_message apply_protocol_action store_message store_incoming row message_chat
  stores =
      rw (content.shown, content.ordinary)
        (rw (content.plain, store_incoming)
          (rw (content.kept, upsert_chat-does env does chat w) refl))

  -- With a server that does every statement, a message of a chat that is shown, which asks for no
  -- edit or delete, is no reaction and not of the protocol, is in wa_messages under its id after
  -- handleMessage, and its canonical chat is in wa_chats.
  pub handle_message-stored :
      (has_message e.info.id (handle_message env c fl out e w).db.messages ≡ true)
      × (has_chat
            (canonical_chat_jid c.whatsapp e.info.chat).text
            (handle_message env c fl out e w).db.chats
          ≡ true)
  unfolding message_chat
  handle_message-stored =
      let (q, l, wrote) = insert_message-does env does row upserted in
      rw (stores, wrote)
        (inserted-has_as q l row upserted.db e.info.id
          (canonical_chat_jid c.whatsapp e.info.chat).text row-id row-chat
          (upsert_table-has (env.clock w.statements) chat w.db))

  -- With a server that does every statement, a message of the other side that has content to store
  -- and is stored already, in a stored chat, changes no message when it is delivered again, but
  -- its chat counts one more unread message.
  pub handle_message-again :
      e.info.is_from_me ≡ false
      → has_message e.info.id w.db.messages ≡ true
      → has_chat (canonical_chat_jid c.whatsapp e.info.chat).text w.db.chats ≡ true
      → ((handle_message env c fl out e w).db.messages ≡ w.db.messages)
        × (unread_of
              (canonical_chat_jid c.whatsapp e.info.chat).text
              (handle_message env c fl out e w).db.chats
            ≡ unread_of (canonical_chat_jid c.whatsapp e.info.chat).text w.db.chats + 1)
  unfolding message_chat
  handle_message-again inbound old known =
      let same = upsert_table-messages (env.clock w.statements) chat w.db in
      let kept = insert_message-stored env row upserted (rw (row-id, same) old) in
      (
        rw (stores, kept) same,
        rw (stores, kept)
            (upsert_table-unread (env.clock w.statements) chat w.db known inbound
              (rw inbound refl)),
      )
