-- ===== src/Bridge/History/Unread.antt =====
-- What the history does to the chat list: handleHistorySync of internal/wabridge/wabridge.go raises
-- no unread count, and a conversation without messages loses who wrote the last one.
use enviadores_wabridge.Prelude.{
  ℕ, ◌≡◌, refl, ◌∙◌, String, Bool, false, ◌||◌, not, List, [], ◌∷◌, ◌==◌, ◌++◌, if◌then◌else◌,
  if-cases, arith, Bool-cases, inl, inr, eq_refl,
}
use enviadores_wabridge.Text.Utf8.{Bytes}
use enviadores_wabridge.Store.Tables.{ChatRow, Db, update_where}
use enviadores_wabridge.Store.Exec.{Env, World, done, exec, exec_with}
use enviadores_wabridge.Store.Fallback.Keeps.{Keeps-exec}
use enviadores_wabridge.Store.Messages.{has_chat, has_message, insert_ignore}
use enviadores_wabridge.Store.Chats.{upsert_chat, upsert_table, updated_chat, inserted_chat}
use enviadores_wabridge.Store.Tail.{set_tail, tailed}
use enviadores_wabridge.Bridge.Whatsapp.{Jid}
use enviadores_wabridge.Bridge.Client.{jid, Client}
use enviadores_wabridge.Bridge.Location.{Floats}
use enviadores_wabridge.Bridge.NewChat.{canonical_chat_jid}
use enviadores_wabridge.Bridge.Inbound.{is_skipped_chat}
use enviadores_wabridge.Bridge.Inbound.Live.Stored.{unread_of}
use enviadores_wabridge.Bridge.History.{
  Conversation, history_chat, past_messages, handle_conversation, handle_history_sync,
}
use enviadores_wabridge.Bridge.History.Kept.{history_sync_keeps}

unread_of-update_where :
    (p : ChatRow → Bool) (f : ChatRow → ChatRow)
    → ((r : ChatRow) → (f r).jid ≡ r.jid)
    → ((r : ChatRow) → (f r).unread_count ≡ r.unread_count)
    → (key : String) (rs : List ChatRow) → unread_of key (update_where p f rs) ≡ unread_of key rs
unfolding unread_of update_where
unread_of-update_where p f same count key [] = refl
unread_of-update_where p f same count key (r ∷ rs) =
    ground (arith, same r, count r, unread_of-update_where p f same count key rs)

unread_of-append :
    (key : String) (rs : List ChatRow) (r : ChatRow)
    → r.unread_count ≡ 0
    → unread_of key (rs ++ r ∷ []) ≡ unread_of key rs
unfolding unread_of
unread_of-append key [] r h = ground (arith, h)
unread_of-append key (x ∷ rs) r h = rw (unread_of-append key rs r h) refl

-- A history sync changes the unread count of no chat, whatever it brings and whatever the server
-- answers, where a chat that is not stored counts as 0.
pub handle_history_sync-unread :
    (env : Env) (c : Client) (fl : Floats) (vs : List Conversation) (w : World) (key : String)
    → unread_of key (handle_history_sync env c fl vs w).db.chats ≡ unread_of key w.db.chats
unfolding upsert_chat upsert_table set_tail insert_ignore history_chat
handle_history_sync-unread env c fl vs w key =
    let P : Db → Type 0 = λ db. unread_of key db.chats ≡ unread_of key w.db.chats in
    history_sync_keeps {P = P} env c fl
      (λ id. record {
        update = λ p f k db h. h;
        insert = λ m same db h.
            if-cases P (has_message m.id db.messages || not (has_chat m.chat_jid db.chats)) h h;
      })
      (λ chat t preview db h.
        unread_of-update_where (λ r. r.jid == chat) (tailed t preview) (λ r. refl) (λ r. refl) key
          db.chats
        ∙ h)
      (λ chat name. Keeps-exec {P = P} env _ (λ now db h.
        if-cases P (has_chat chat.text db.chats)
          (unread_of-update_where (λ r. r.jid == chat.text)
              (updated_chat now (history_chat c chat name)) (λ r. refl) (λ r. refl) key db.chats
            ∙ h)
          (unread_of-append key db.chats (inserted_chat now (history_chat c chat name)) refl ∙ h)))
      vs w refl

-- Who wrote the last message of a chat.
unfoldable pub last_from_me : String → List ChatRow → Bool
last_from_me key [] = false
last_from_me key (r ∷ rs) =
    let rest = last_from_me key rs in if r.jid == key then r.last_message_from_me else rest

module _ (now : ℕ) (c : Client) (chat : Jid) (name : Bytes) where
  last_from_me-updated :
      (rs : List ChatRow)
      → last_from_me chat.text
          (update_where (λ r. r.jid == chat.text) (updated_chat now (history_chat c chat name)) rs)
        ≡ false
  unfolding last_from_me update_where history_chat
  last_from_me-updated [] = refl
  last_from_me-updated (r ∷ rs) = ground (arith, last_from_me-updated rs)

  last_from_me-new :
      (rs : List ChatRow)
      → has_chat chat.text rs ≡ false
      → last_from_me chat.text (rs ++ inserted_chat now (history_chat c chat name) ∷ []) ≡ false
  unfolding last_from_me history_chat
  last_from_me-new [] h = rw (eq_refl chat.text) refl
  last_from_me-new (r ∷ rs) h = ground (arith, h, last_from_me-new rs)

  last_from_me-upserted :
      (db : Db)
      → last_from_me chat.text (upsert_table now (history_chat c chat name) db).chats ≡ false
  unfolding upsert_table history_chat
  last_from_me-upserted db = elim (Bool-cases (has_chat chat.text db.chats)) [
    | inl old ↦ rw old (last_from_me-updated db.chats)
    | inr new ↦ rw new (last_from_me-new db.chats new)
  ]

-- With a server that does every statement, a conversation of the history with no messages, of a
-- chat that is shown, leaves its chat marked as one whose last message is not ours, whoever wrote
-- it.
pub handle_conversation-forgets :
    (env : Env) (c : Client) (fl : Floats) (v : Conversation) (w : World) (raw : Jid)
    → ((n : ℕ) → env.outcome n ≡ done)
    → c.parse_jid v.id ≡ jid raw
    → is_skipped_chat raw ≡ false
    → v.messages ≡ []
    → last_from_me
        (canonical_chat_jid c.whatsapp raw).text
        (handle_conversation env c fl v w).db.chats
      ≡ false
unfolding handle_conversation upsert_chat exec exec_with past_messages
handle_conversation-forgets env c fl v w raw does parsed shown empty =
    let chat = canonical_chat_jid c.whatsapp raw in
    rw (parsed, shown, empty, does w.statements)
      (last_from_me-upserted (env.clock w.statements) c chat v.name w.db)
