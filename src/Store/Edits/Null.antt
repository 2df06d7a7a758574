-- ===== src/Store/Edits/Null.antt =====
-- Edits of a message that was stored without a text: ApplyEdit of internal/store/store.go.
use enviadores_wabridge.Prelude.{
  ℕ, suc, ◌≡◌, refl, ◌∙◌, ap, String, Bool, true, false, ◌||◌, Option, none, some, List, [], ◌∷◌,
  ◌==◌, eq_refl, &&-split, Bool-cases, inl, inr,
}
use enviadores_wabridge.Text.Utf8.{Bytes}
use enviadores_wabridge.Store.Failure.{feature_edits}
use enviadores_wabridge.Store.Tables.{MessageRow, update_where, find_where}
use enviadores_wabridge.Store.Exec.{
  Env, World, done, feature_off, query_row, query, exec, exec_with,
}
use enviadores_wabridge.Store.Fallback.{fallback}
use enviadores_wabridge.Store.Messages.{is_empty, locate_message, in_chats}
use enviadores_wabridge.Store.Edits.{bool_eq, names, edit_row, edit_table, apply_edit}
use enviadores_wabridge.Store.Edits.Target.{target_row, find_where-holds, some_inj}

bool_eq_refl : (b : Bool) → bool_eq b b ≡ true
bool_eq_refl true = refl
bool_eq_refl false = refl

-- The first row that a condition selects stays so under an update that the condition does not see.
find-updated :
    (p q : MessageRow → Bool) (f : MessageRow → MessageRow)
    → ((x : MessageRow) → p (f x) ≡ p x)
    → (rs : List MessageRow) (r : MessageRow) → find_where p rs ≡ some r
    → q r ≡ true
    → find_where p (update_where q f rs) ≡ some (f r)
unfolding find_where update_where
find-updated p q f same [] r h k = cc
find-updated p q f same (x ∷ rs) r h k = elim (Bool-cases (p x)) [
  | inl e ↦
      let is_r = some_inj x r (rw e at h) in
      rw (ap q is_r ∙ k, same x, e) (ap (λ y. some (f y)) is_r)
  | inr e ↦
      let rest = find-updated p q f same rs r (rw e at h) k in
      elim (Bool-cases (q x)) [
        | inl hit ↦ rw (hit, same x, e) rest
        | inr missed ↦ rw (missed, e) rest
      ]
]

module _ (env : Env) (does : (n : ℕ) → env.outcome n ≡ done) (chats : List String)
    (id : String) where
  -- ApplyEdit of the message's author, with its statements done.
  apply_edit_done :
      (body : Option Bytes) (w : World) (r : MessageRow)
      → target_row chats id w.db ≡ some r
      → (id == "" || is_empty chats) ≡ false
      → feature_off w feature_edits ≡ false
      → (n : ℕ) × ((apply_edit env chats id r.from_me body w).1.db
          ≡ edit_table id r.chat_jid body n w.db)
        × ((apply_edit env chats id r.from_me body w).1.off ≡ w.off)
  unfolding apply_edit locate_message query_row query fallback exec exec_with feature_off edit_table
  apply_edit_done body w r at named on = (
    env.clock (suc w.statements),
    rw (named, does w.statements, at, bool_eq_refl r.from_me, on, does (suc w.statements), on) refl,
    rw (named, does w.statements, at, bool_eq_refl r.from_me, on, does (suc w.statements), on) refl,
  )

  -- The message as the next call finds it.
  edited_once :
      (body : Option Bytes) (w : World) (r : MessageRow)
      → target_row chats id w.db ≡ some r
      → (id == "" || is_empty chats) ≡ false
      → feature_off w feature_edits ≡ false
      → (n : ℕ) × (target_row chats id (apply_edit env chats id r.from_me body w).1.db
          ≡ some (edit_row n body r))
        × (feature_off (apply_edit env chats id r.from_me body w).1 feature_edits ≡ false)
  unfolding edit_table feature_off
  edited_once body w r at named on =
      let (n, db, off) = apply_edit_done body w r at named on in
      let (own, _) =
        &&-split (r.id == id) _ (find_where-holds (in_chats id chats) w.db.messages r at) in
      let hit : names id r.chat_jid r ≡ true = rw (own, eq_refl r.chat_jid) refl in
      (
        n,
        rw db (
            find-updated (in_chats id chats) (names id r.chat_jid) (edit_row n body) (λ x. refl)
              w.db.messages r at hit),
        rw off on,
      )

  -- With a server that does every statement and with the edit columns in place: a message stored
  -- without a text, such as a photo with no caption, loses what it said before its first edit:
  -- after three edits by its author its body is the text of the third and original_body that of
  -- the first, not NULL.
  pub apply_edit-null :
      (a b c : Bytes) (w : World) (r : MessageRow)
      → target_row chats id w.db ≡ some r
      → (id == "" || is_empty chats) ≡ false
      → feature_off w feature_edits ≡ false
      → r.body ≡ none
      → r.original_body ≡ none
      → (s : MessageRow) × (target_row chats id
            (apply_edit env chats id r.from_me
              (some c)
              (apply_edit env chats id r.from_me
                (some b)
                (apply_edit env chats id r.from_me (some a) w).1).1).1.db
          ≡ some s)
        × (s.body ≡ some c)
        × (s.original_body ≡ some a)
  apply_edit-null a b c w r at named on no_body no_original =
      let first = (apply_edit env chats id r.from_me (some a) w).1 in
      let second = (apply_edit env chats id r.from_me (some b) first).1 in
      let (n, at1, on1) = edited_once (some a) w r at named on in
      let r1 = edit_row n (some a) r in
      let (m, at2, on2) = edited_once (some b) first r1 at1 named on1 in
      let r2 = edit_row m (some b) r1 in
      let (k, at3, on3) = edited_once (some c) second r2 at2 named on2 in
      (edit_row k (some c) r2, at3, refl, rw (no_original, no_body) refl)
