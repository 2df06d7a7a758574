-- ===== src/Bridge/Events/Rise.antt =====
-- What the calls of the store do to the unread count of a chat: only UpsertChat can raise it.
use enviadores_wabridge.Prelude.{
  ℕ, ap, eq_iff, ◌+◌, ◌≡◌, ◌≤◌, refl, String, Bool, not, ◌&&◌, ◌||◌, Option, none, some, List, [],
  ◌∷◌, ◌++◌, ◌==◌, if◌then◌else◌, if-cases, Bool-cases, inl, inr, arith,
}
use enviadores_wabridge.Store.Failure.{feature_heartbeat, feature_bridge_features}
use enviadores_wabridge.Store.Tables.{ChatRow, Db, update_where}
use enviadores_wabridge.Store.Exec.{Env, World}
use enviadores_wabridge.Store.Fallback.{legacy}
use enviadores_wabridge.Store.Fallback.Keeps.{
  Keeps, Keeps-exec, Keeps-pure, Keeps-fail, Keeps-fallback, exec_cases,
}
use enviadores_wabridge.Store.Messages.{is_empty, has_chat, has_message, insert_ignore}
use enviadores_wabridge.Store.Chats.{
  Chat, inserted_chat, updated_chat, upsert_table, upsert_chat, set_peer_typing,
  clear_all_peer_typing, cleared_chat, clear_unread_up_to,
}
use enviadores_wabridge.Store.Status.{mark_messages_status, mark_target, rank, allowed_current}
use enviadores_wabridge.Pairing.{heartbeat}
use enviadores_wabridge.Store.Tail.{set_tail, tailed}
use enviadores_wabridge.Store.Writes.{Bears, BearsTail}
use enviadores_wabridge.Bridge.Inbound.Live.Stored.{unread_of}

-- An update that raises no count and renames no chat raises the count of no chat.
update_where-unread :
    (p : ChatRow → Bool) (f : ChatRow → ChatRow)
    → ((r : ChatRow) → (f r).jid ≡ r.jid)
    → ((r : ChatRow) → (f r).unread_count ≤ r.unread_count)
    → (key : String) (rs : List ChatRow) → unread_of key (update_where p f rs) ≤ unread_of key rs
unfolding unread_of update_where
update_where-unread p f same falls key [] = omega arith
update_where-unread p f same falls key (r ∷ rs) =
    ground (arith, same r, falls r, update_where-unread p f same falls key rs)

-- What one upsert may add to the count of a chat.
abbrev pub raise : String → Chat → ℕ
raise key c = if c.jid == key && c.increment_unread && not c.last_message_from_me then 1 else 0

updated-unread :
    (key : String) (now : ℕ) (c : Chat) (rs : List ChatRow)
    → unread_of key (update_where (λ r. r.jid == c.jid) (updated_chat now c) rs)
      ≤ unread_of key rs + raise key c
unfolding unread_of update_where
updated-unread key now c [] = ground arith
updated-unread key now c (r ∷ rs) =
    let rest = updated-unread key now c rs in
    elim (Bool-cases (r.jid == c.jid)) [
      | inl hit ↦
          let same = ap (λ j. j == key) ((eq_iff r.jid c.jid).0 hit) in
          ground (arith, hit, same, rest)
      | inr missed ↦ rw missed (ground (arith, rest))
    ]

appended-unread :
    (key : String) (now : ℕ) (c : Chat) (rs : List ChatRow)
    → unread_of key (rs ++ inserted_chat now c ∷ []) ≤ unread_of key rs + raise key c
unfolding unread_of
appended-unread key now c [] = ground arith
appended-unread key now c (r ∷ rs) = ground (arith, appended-unread key now c rs)

upsert_table-unread :
    (key : String) (now : ℕ) (c : Chat) (db : Db)
    → unread_of key (upsert_table now c db).chats ≤ unread_of key db.chats + raise key c
unfolding upsert_table
upsert_table-unread key now c db =
    if-cases (λ (x : Db). unread_of key x.chats ≤ unread_of key db.chats + raise key c)
      (has_chat c.jid db.chats) (updated-unread key now c db.chats)
      (appended-unread key now c db.chats)

module _ (key : String) (n : ℕ) where
  -- The chat has at most so many unread messages.
  abbrev pub AtMost : Db → Type 0
  AtMost db = unread_of key db.chats ≤ n

  pub AtMost-Bears : (id : String) → Bears AtMost id
  unfolding insert_ignore
  AtMost-Bears id = record {
    update = λ p f k db h. h;
    insert = λ m same db h.
        if-cases AtMost (has_message m.id db.messages || not (has_chat m.chat_jid db.chats)) h h;
  }

  update_chats-AtMost :
      (p : ChatRow → Bool) (f : ChatRow → ChatRow)
      → ((r : ChatRow) → (f r).jid ≡ r.jid)
      → ((r : ChatRow) → (f r).unread_count ≤ r.unread_count)
      → (db : Db) → AtMost db
      → AtMost (record db { chats = update_where p f db.chats })
  update_chats-AtMost p f same falls db h =
      let le = update_where-unread p f same falls key db.chats in omega (arith, le, h)

  pub AtMost-BearsTail : BearsTail AtMost
  unfolding set_tail
  AtMost-BearsTail jid t preview =
      update_chats-AtMost (λ r. r.jid == jid) (tailed t preview) (λ r. refl) (λ r. omega arith)

  pub typing-AtMost :
      (env : Env) (jid : String) (until : Option ℕ) → Keeps AtMost (set_peer_typing env jid until)
  unfolding set_peer_typing
  typing-AtMost env jid until =
      Keeps-exec env _ (λ now. update_chats-AtMost _ _ (λ r. refl) (λ r. omega arith))

  pub stop_typing-AtMost : (env : Env) → Keeps AtMost (clear_all_peer_typing env)
  unfolding clear_all_peer_typing
  stop_typing-AtMost env =
      Keeps-exec env _ (λ now. update_chats-AtMost _ _ (λ r. refl) (λ r. omega arith))

  pub clear-AtMost :
      (env : Env) (jid : String) (ids : List String) → Keeps AtMost (clear_unread_up_to env jid ids)
  unfolding clear_unread_up_to
  clear-AtMost env jid ids = if-cases (Keeps AtMost) (is_empty ids) (Keeps-pure tt) (
      Keeps-exec env _ (λ now db.
        update_chats-AtMost _ (cleared_chat ids db.messages) (λ r. refl) (λ r. omega arith) db))

  pub mark-AtMost :
      (env : Env) (ids : List String) (s : String) → Keeps AtMost (mark_messages_status env ids s)
  unfolding mark_messages_status
  mark-AtMost env ids s = if-cases (Keeps AtMost) (is_empty ids) (Keeps-pure tt) (go (rank s))
    where
      go : (o : Option ℕ) → Keeps AtMost (mark_target env ids s o)
      go none = Keeps-fail _
      go (some t) =
          if-cases (Keeps AtMost) (is_empty (allowed_current t)) (Keeps-pure tt)
            (Keeps-exec env _ (λ now db k. k))

  pub heartbeat-AtMost : (env : Env) → Keeps AtMost (heartbeat env)
  unfolding heartbeat legacy
  heartbeat-AtMost env =
      Keeps-fallback feature_bridge_features _ _ tt (Keeps-exec env _ (λ now db k. k))
        (Keeps-fallback feature_heartbeat _ _ tt (Keeps-exec env _ (λ now db k. k)) (Keeps-pure tt))

-- An upsert of a chat, whatever the server answers.
pub upsert-unread :
    (env : Env) (key : String) (chat : Chat) (w : World)
    → unread_of key (upsert_chat env chat w).1.db.chats ≤ unread_of key w.db.chats + raise key chat
unfolding upsert_chat
upsert-unread env key chat w = elim (exec_cases env (λ now. upsert_table now chat) w) [
  | inl kept ↦ rw kept (omega arith)
  | inr wrote ↦ rw wrote (upsert_table-unread key _ chat w.db)
]
