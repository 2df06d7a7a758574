-- ===== src/Store/Writes.antt =====
-- The calls that an event makes of the store come down to four writes: an update of wa_messages
-- that leaves the keys alone, the insertion of a message under the event's id, a change of a chat's
-- tail, and the upsert of a chat. What bears these is kept, whatever the server answers.
use enviadores_wabridge.Prelude.{
  ◌≡◌, refl, String, Bool, not, Option, none, some, List, ◌==◌, arith, inl, inr, if-cases,
}
use enviadores_wabridge.Text.Utf8.{Bytes}
use enviadores_wabridge.Store.Failure.{Result, ok, err, feature_quotes}
use enviadores_wabridge.Store.Tables.{Message, MessageRow, Db, update_where}
use enviadores_wabridge.Store.Exec.{Env, World, feature_off}
use enviadores_wabridge.Store.Fallback.{legacy}
use enviadores_wabridge.Store.Fallback.Keeps.{
  Keeps, Keeps-exec, Keeps-pure, Keeps-fallback, Keeps-query, Keeps-bind,
}
use enviadores_wabridge.Store.Messages.{is_empty, insert_ignore, with_columns, insert_message}
use enviadores_wabridge.Store.Messages.Insert.{Keeps-insert_message}
use enviadores_wabridge.Store.Invariant.{KeepsKeys}
use enviadores_wabridge.Store.Edits.{
  names, edit_row, revoke_row, edit_table, revoke_table, apply_edit, revoke_message,
}
use enviadores_wabridge.Store.Edits.History.{EditOf, apply_edit_cases}
use enviadores_wabridge.Store.Edits.Revoke.{RevokeOf, revoke_message_cases}
use enviadores_wabridge.Store.Reactions.{
  Reaction, existing_reaction, insert_legacy_reaction, reaction_message, update_reaction,
  bump_target, write_reaction, upsert_reaction,
}
use enviadores_wabridge.Store.Tail.{TailRow, read_tail, set_tail, write_tail, recompute_chat_tail}
use enviadores_wabridge.Store.Tail.Newest.{Keeps-read_tail}

-- `P` bears the updates of messages and the insertions under the id.
pub record Bears (P : Db → Type 0) (id : String) : Type 0 where
  pub update :
      (p : MessageRow → Bool) (f : MessageRow → MessageRow)
      → KeepsKeys f
      → (db : Db) → P db
      → P (record db { messages = update_where p f db.messages })
  pub insert : (m : Message) → m.id ≡ id → (db : Db) → P db → P (insert_ignore m db)

-- `P` bears a new tail of a chat.
abbrev pub BearsTail : (Db → Type 0) → Type 0
BearsTail P =
    (jid : String) (t : TailRow) (preview : Bytes) (db : Db) → P db → P (set_tail jid t preview db)

pub Keeps-retail :
    {P : Db → Type 0} (env : Env)
    → BearsTail P
    → (jid : String) (preview : TailRow → Bytes) → Keeps P (recompute_chat_tail env jid preview)
unfolding recompute_chat_tail
Keeps-retail {P} env bears jid preview = record {
  at = λ w h.
      go (read_tail env jid w).0 (read_tail env jid w).1 ((Keeps-read_tail {P = P} env jid).at w h);
}
  where
    go : (r : Result TailRow) (v : World) → P v.db → P (write_tail env jid preview r v).1.db
    go (err e) v h = ground (arith, h)
    go (ok t) v h = (Keeps-exec {P = P} env _ (λ now. bears jid t (preview t))).at v h

module _ {P : Db → Type 0} {id : String} (env : Env) (b : Bears P id) where
  pub Keeps-insert : (m : Message) → m.id ≡ id → Keeps P (insert_message env m)
  unfolding with_columns
  Keeps-insert m e = Keeps-insert_message env m (λ q l db. b.insert (with_columns q l m) e db)

  pub apply_edit_keeps :
      (chats : List String) (target : String) (from_me : Bool) (body : Option Bytes) (w : World)
      → P w.db
      → P (apply_edit env chats target from_me body w).1.db
  unfolding EditOf edit_table
  apply_edit_keeps chats target from_me body w h =
      elim (apply_edit_cases env chats target from_me body w) [
        | inl kept ↦ rw kept h
        | inr (r, n, hit, author, wrote) ↦ rw wrote (
            b.update (names target r.chat_jid) (edit_row n body)
              (record { id = λ x. refl; chat = λ x. refl }) w.db h)
      ]

  pub revoke_message_keeps :
      (chats : List String) (target : String) (from_me is_group : Bool) (w : World)
      → P w.db
      → P (revoke_message env chats target from_me is_group w).1.db
  unfolding RevokeOf revoke_table
  revoke_message_keeps chats target from_me is_group w h =
      elim (revoke_message_cases env chats target from_me is_group w) [
        | inl kept ↦ rw kept h
        | inr (r, n, hit, allowed, wrote) ↦ rw wrote (
            b.update (names target r.chat_jid) (revoke_row n)
              (record { id = λ x. refl; chat = λ x. refl }) w.db h)
      ]

  pub Keeps-react : (r : Reaction) → r.id ≡ id → Keeps P (upsert_reaction env r)
  unfolding upsert_reaction existing_reaction insert_legacy_reaction legacy update_reaction
      bump_target
  Keeps-react r same = if-cases (Keeps P) (r.target_id == "") (Keeps-pure tt) (
      Keeps-bind (existing_reaction env r) _ search (λ e. record {
        at = λ w k.
            if-cases (λ (x : Result (Unit {0}) × World). P x.1.db) (feature_off w feature_quotes) k
              ((write e).at w k);
      }))
    where
      search : Keeps P (existing_reaction env r)
      search = Keeps-fallback feature_quotes _ _ "" (Keeps-query env _) (
          if-cases (Keeps P) (is_empty r.emoji) (Keeps-pure "")
            (Keeps-bind _ _ (Keeps-insert (reaction_message r none) same) (λ _. Keeps-pure "")))

      bump : Keeps P (bump_target env r)
      bump = Keeps-exec env _ (λ now. b.update _ _ (record { id = λ r. refl; chat = λ r. refl }))

      write : (e : String) → Keeps P (write_reaction env r e)
      write e =
          if-cases (Keeps P) (not (e == ""))
            (Keeps-bind _ _
              (Keeps-exec env _ (λ now. b.update _ _ (record { id = λ r. refl; chat = λ r. refl })))
              (λ _. bump))
            (if-cases (Keeps P) (is_empty r.emoji) (Keeps-pure tt) (
              Keeps-bind _ _ (Keeps-insert (reaction_message r (some r.target_id)) same)
                (λ _. bump)))
