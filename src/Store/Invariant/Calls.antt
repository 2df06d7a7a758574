-- ===== src/Store/Invariant/Calls.antt =====
-- Any sequence of the store's calls on wa_chats and wa_messages keeps the keys of wa_messages.
use enviadores_wabridge.Prelude.{
  ℕ, ◌≡◌, refl, ◌∙◌, String, Bool, true, ◌&&◌, Option, none, some, List, [], ◌∷◌, ◌++◌, ◌==◌,
  if◌then◌else◌, arith, Bool-cases, inl, inr, ltb, if-cases,
}
use enviadores_wabridge.Text.Utf8.{Bytes}
use enviadores_wabridge.Store.Tables.{ChatRow, Message, MessageRow, Db, update_where}
use enviadores_wabridge.Store.Exec.{Env, World}
use enviadores_wabridge.Store.Fallback.Keeps.{Keeps, Keeps-exec, Keeps-pure, Keeps-fail}
use enviadores_wabridge.Store.Messages.{has_chat, insert_message, is_empty}
use enviadores_wabridge.Store.Status.{
  rank, allowed_current, mark_rows, mark_target, mark_messages_status,
}
use enviadores_wabridge.Store.Edits.{apply_edit, revoke_message}
use enviadores_wabridge.Store.Edits.History.{apply_edit-IsConsistent}
use enviadores_wabridge.Store.Edits.Revoke.{revoke_message-IsConsistent}
use enviadores_wabridge.Store.Chats.{
  Chat, inserted_chat, updated_chat, upsert_table, upsert_chat, set_peer_typing,
  clear_all_peer_typing, update_profile_pic, cleared_chat, clear_unread_up_to,
}
use enviadores_wabridge.Store.Reactions.{Reaction, upsert_reaction}
use enviadores_wabridge.Store.Tail.{TailRow, tailed, set_tail, recompute_chat_tail}
use enviadores_wabridge.Store.Writes.{Bears, BearsTail, Keeps-retail, Keeps-insert, Keeps-react}
use enviadores_wabridge.Store.Invariant.{
  IsLinked, IsConsistent, update_messages-IsConsistent, insert_ignore-IsConsistent,
}

module _ (p : ChatRow → Bool) (f : ChatRow → ChatRow)
    (same : (r : ChatRow) → (f r).jid ≡ r.jid) where
  same_jid : (r : ChatRow) → (if p r then f r else r).jid ≡ r.jid
  same_jid r = ground (arith, same r)

  has_chat-update_where :
      (jid : String) (rs : List ChatRow) → has_chat jid (update_where p f rs) ≡ has_chat jid rs
  unfolding update_where
  has_chat-update_where jid [] = refl
  has_chat-update_where jid (r ∷ rs) = rw (same_jid r, has_chat-update_where jid rs) refl

-- Messages stay linked when no chat goes.
IsLinked-mono :
    (cs ds : List ChatRow) (rs : List MessageRow)
    → ((jid : String) → has_chat jid cs ≡ true → has_chat jid ds ≡ true)
    → IsLinked cs rs
    → IsLinked ds rs
IsLinked-mono cs ds [] h l = tt
IsLinked-mono cs ds (r ∷ rs) h l = (h r.chat_jid l.0, IsLinked-mono cs ds rs h l.1)

more_chats :
    (db : Db) (cs : List ChatRow)
    → ((jid : String) → has_chat jid db.chats ≡ true → has_chat jid cs ≡ true)
    → IsConsistent db
    → IsConsistent (record db { chats = cs })
more_chats db cs h k = record {
  keyed = k.keyed;
  linked = IsLinked-mono db.chats cs db.messages h k.linked;
}

update_chats-IsConsistent :
    (p : ChatRow → Bool) (f : ChatRow → ChatRow) (same : (r : ChatRow) → (f r).jid ≡ r.jid)
    (db : Db)
    → IsConsistent db
    → IsConsistent (record db { chats = update_where p f db.chats })
update_chats-IsConsistent p f same db =
    more_chats db _ (λ jid h. has_chat-update_where p f same jid db.chats ∙ h)

has_chat-append :
    (jid : String) (rs : List ChatRow) (r : ChatRow)
    → has_chat jid rs ≡ true
    → has_chat jid (rs ++ r ∷ []) ≡ true
has_chat-append jid [] r h = ground arith
has_chat-append jid (x ∷ rs) r h = ground (arith, has_chat-append jid rs r)

upsert_table-IsConsistent :
    (now : ℕ) (c : Chat) (db : Db) → IsConsistent db → IsConsistent (upsert_table now c db)
unfolding upsert_table
upsert_table-IsConsistent now c db k = elim (Bool-cases (has_chat c.jid db.chats)) [
  | inl e ↦
      rw e (update_chats-IsConsistent (λ r. r.jid == c.jid) (updated_chat now c) (λ r. refl) db k)
  | inr e ↦ rw e (more_chats db _ (λ jid h. has_chat-append jid db.chats (inserted_chat now c) h) k)
]

-- The store's calls that write wa_chats or wa_messages.
pub data Call : Type 0 where
  upsert : Chat → Call
  insert : Message → Call
  mark : List String → String → Call
  edit : List String → String → Bool → Option Bytes → Call
  revoke : List String → String → Bool → Bool → Call
  clear_unread : String → List String → Call
  typing : String → Option ℕ → Call
  stop_typing : Call
  picture : String → Bytes → Call
  react : Reaction → Call
  retail : String → (TailRow → Bytes) → Call

unfoldable pub run_call : Env → Call → World → World
run_call env (upsert c) w = (upsert_chat env c w).1
run_call env (insert m) w = (insert_message env m w).1
run_call env (mark ids s) w = (mark_messages_status env ids s w).1
run_call env (edit chats id from_me body) w = (apply_edit env chats id from_me body w).1
run_call env (revoke chats id from_me is_group) w =
    (revoke_message env chats id from_me is_group w).1
run_call env (clear_unread jid ids) w = (clear_unread_up_to env jid ids w).1
run_call env (typing jid until) w = (set_peer_typing env jid until w).1
run_call env stop_typing w = (clear_all_peer_typing env w).1
run_call env (picture jid url) w = (update_profile_pic env jid url w).1
run_call env (react r) w = (upsert_reaction env r w).1
run_call env (retail jid preview) w = (recompute_chat_tail env jid preview w).1

unfoldable pub run_calls : Env → List Call → World → World
run_calls env [] w = w
run_calls env (c ∷ cs) w = run_calls env cs (run_call env c w)

Keeps-mark :
    (env : Env) (ids : List String) (s : String)
    → Keeps IsConsistent (mark_messages_status env ids s)
unfolding mark_messages_status mark_rows
Keeps-mark env [] s = Keeps-pure tt
Keeps-mark env (i ∷ ids) s = go (rank s)
  where
    go : (o : Option ℕ) → Keeps IsConsistent (mark_target env (i ∷ ids) s o)
    go none = Keeps-fail _
    go (some t) = if-cases (Keeps IsConsistent) (is_empty (allowed_current t)) (Keeps-pure tt) (
        Keeps-exec env _
          (λ now. update_messages-IsConsistent _ _ (record { id = λ r. refl; chat = λ r. refl })))

pub IsConsistent-Bears : (id : String) → Bears IsConsistent id
IsConsistent-Bears id = record {
  update = λ p f k db h. update_messages-IsConsistent p f k db h;
  insert = λ m same db h. insert_ignore-IsConsistent m db h;
}

pub IsConsistent-BearsTail : BearsTail IsConsistent
unfolding set_tail
IsConsistent-BearsTail jid t preview db h =
    update_chats-IsConsistent (λ r. r.jid == jid) (tailed t preview) (λ r. refl) db h

pub run_call-IsConsistent :
    (env : Env) (c : Call) (w : World) → IsConsistent w.db → IsConsistent (run_call env c w).db
unfolding run_call upsert_chat set_peer_typing clear_all_peer_typing update_profile_pic
    clear_unread_up_to
run_call-IsConsistent env (upsert c) w k =
    (Keeps-exec env _ (λ now. upsert_table-IsConsistent now c)).at w k
run_call-IsConsistent env (insert m) w k =
    (Keeps-insert env (IsConsistent-Bears m.id) m refl).at w k
run_call-IsConsistent env (mark ids s) w k = (Keeps-mark env ids s).at w k
run_call-IsConsistent env (edit chats id from_me body) w k =
    apply_edit-IsConsistent env chats id from_me body w k
run_call-IsConsistent env (revoke chats id from_me is_group) w k =
    revoke_message-IsConsistent env chats id from_me is_group w k
run_call-IsConsistent env (clear_unread jid []) w k = k
run_call-IsConsistent env (clear_unread jid (i ∷ ids)) w k =
    (Keeps-exec env _ (λ now db.
        update_chats-IsConsistent (λ r. r.jid == jid && ltb 0 r.unread_count)
          (cleared_chat (i ∷ ids) db.messages) (λ r. refl) db)).at
      w k
run_call-IsConsistent env (typing jid until) w k =
    (Keeps-exec env _ (λ now. update_chats-IsConsistent _ _ (λ r. refl))).at w k
run_call-IsConsistent env stop_typing w k =
    (Keeps-exec env _ (λ now. update_chats-IsConsistent _ _ (λ r. refl))).at w k
run_call-IsConsistent env (picture jid url) w k =
    (Keeps-exec env _ (λ now. update_chats-IsConsistent _ _ (λ r. refl))).at w k
run_call-IsConsistent env (react r) w k = (Keeps-react env (IsConsistent-Bears r.id) r refl).at w k
run_call-IsConsistent env (retail jid preview) w k =
    (Keeps-retail env IsConsistent-BearsTail jid preview).at w k

-- Whatever the calls and whatever the server answers: if no two messages share an id and each lies
-- in a stored chat before the calls, then so it is after them.
pub run_calls-IsConsistent :
    (env : Env) (cs : List Call) (w : World)
    → IsConsistent w.db
    → IsConsistent (run_calls env cs w).db
unfolding run_calls
run_calls-IsConsistent env [] w k = k
run_calls-IsConsistent env (c ∷ cs) w k =
    run_calls-IsConsistent env cs (run_call env c w) (run_call-IsConsistent env c w k)
