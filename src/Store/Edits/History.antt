-- ===== src/Store/Edits/History.antt =====
-- Which rows ApplyEdit may touch, and that the text from before the first edit is kept.
use enviadores_wabridge.Prelude.{
  ℕ, ◌≡◌, ◌≢◌, refl, ◌∙◌, sym, ap, String, Bool, true, ◌||◌, not, Option, none, some, List, [], ◌∷◌,
  arith, Bool-cases, Option-cases, inl, inr, ◌⊎◌, Each, Each-refl, Each-map, Each-trans,
}
use enviadores_wabridge.Text.Utf8.{Bytes}
use enviadores_wabridge.Store.Failure.{Result, ok, err, feature_edits}
use enviadores_wabridge.Store.Tables.{MessageRow, Db, coalesce}
use enviadores_wabridge.Store.Exec.{Env, World}
use enviadores_wabridge.Store.Fallback.Keeps.{fallback-exec_cases}
use enviadores_wabridge.Store.Invariant.{
  IsKeyed, KeepsKeys, update_where-IsKeyed, IsConsistent, update_messages-IsConsistent,
}
use enviadores_wabridge.Store.Messages.{
  MessageRef, Located, is_some, locate_message, in_chats, row_ref,
}
use enviadores_wabridge.Store.Edits.{
  bool_eq, names, edit_row, edit_table, apply_edit, write_edit, after_edit,
}
use enviadores_wabridge.Store.Edits.Target.{
  target_row, locate_same, locate_found, Touches, bool_eq_iff, find_where-holds, update_target,
}

after_edit-db :
    (ref : MessageRef) (r : Result (Unit {0})) (w : World) → (after_edit ref r w).1.db ≡ w.db
after_edit-db ref (ok _) w = ground arith
after_edit-db ref (err e) w = refl

module _ (env : Env) (chats : List String) (id : String) (from_me : Bool) (body : Option Bytes)
    (w : World) where
  unfoldable pub EditOf : Db → Type 0
  EditOf = Touches w chats id (λ r. edit_table id r.chat_jid body) (λ r. r.from_me ≡ from_me)

  write_edit_cases :
      (l : Located) (v : World)
      → v.db ≡ w.db
      → (l.found ≡ true
          → (r : MessageRow) × (target_row chats id w.db ≡ some r) × (l.ref ≡ row_ref r))
      → EditOf (write_edit env id from_me body (l, v)).1.db
  unfolding EditOf
  write_edit_cases l v same found = elim (Bool-cases (is_some l.error || not l.found)) [
    | inl e ↦ rw e (inl same)
    | inr e ↦ elim (Bool-cases (bool_eq l.ref.from_me from_me)) [
      | inr f ↦ rw (e, f) (inl same)
      | inl f ↦
          rw (e, f)
            (rw after_edit-db
              (elim (fallback-exec_cases feature_edits env (edit_table id l.ref.chat_jid body) v) [
                | inl kept ↦ inl (kept ∙ same)
                | inr wrote ↦
                    let (r, hit, ref) = found (ground arith) in
                    let n = env.clock v.statements in
                    inr (
                      r,
                      n,
                      hit,
                      sym (ap (λ x. x.from_me) ref) ∙ bool_eq_iff _ _ f,
                      wrote
                          ∙ ap (λ c. edit_table id c body n v.db) (ap (λ x. x.chat_jid) ref)
                          ∙ ap (edit_table id r.chat_jid body n) same,
                    )
              ]))
    ]
  ]

  pub apply_edit_cases : EditOf (apply_edit env chats id from_me body w).1.db
  unfolding apply_edit
  apply_edit_cases =
      write_edit_cases (locate_message env id chats w).0 (locate_message env id chats w).1
        (locate_same env id chats w) (locate_found env id chats w)

-- What an edit by the side `from_me` may do to a row.
abbrev pub Edited : List String → String → Bool → Option Bytes → MessageRow → MessageRow → Type 0
Edited chats id from_me body r r' =
    (r' ≡ r)
    ⊎ ((n : ℕ) × (in_chats id chats r ≡ true) × (r.from_me ≡ from_me) × (r' ≡ edit_row n body r))

module _ (env : Env) (chats : List String) (id : String) (from_me : Bool) (body : Option Bytes)
    (w : World) where
  -- Over messages with distinct ids and whatever the server answers, an edit changes at most the
  -- row with the target's id, in one of the given chats and written by the same side, and changes
  -- it to the edited row; no row is added or removed.
  pub apply_edit-Edited :
      IsKeyed w.db.messages
      → Each
          (Edited chats id from_me body)
          w.db.messages
          (apply_edit env chats id from_me body w).1.db.messages
  unfolding EditOf edit_table
  apply_edit-Edited keyed = elim (apply_edit_cases env chats id from_me body w) [
    | inl kept ↦ rw kept (Each-refl _ (λ r. inl refl) w.db.messages)
    | inr (r, n, hit, author, wrote) ↦ rw wrote (
        update_target id chats (edit_row n body) r (Edited chats id from_me body) (λ x. inl refl)
          w.db.messages keyed hit
          (inr (n, find_where-holds (in_chats id chats) w.db.messages r hit, author, refl)))
  ]

-- The text of a message before its first edit.
abbrev pub first_text : MessageRow → Option Bytes
first_text r = coalesce r.original_body r.body

coalesce_again {ℓ} :
    {A : Type ℓ} (o b c : Option A) → coalesce o b ≢ none → coalesce (coalesce o b) c ≡ coalesce o b
coalesce_again (some a) b c h = refl
coalesce_again none (some b) c h = refl
coalesce_again none none c h = absurd (h refl)

first_text-kept :
    (chats : List String) (id : String) (from_me : Bool) (body : Option Bytes) (r r' : MessageRow)
    → Edited chats id from_me body r r'
    → first_text r ≢ none
    → first_text r' ≡ first_text r
first_text-kept chats id from_me body r r' (inl e) h = ap first_text e
first_text-kept chats id from_me body r r' (inr (n, i, a, e)) h =
    ap first_text e ∙ coalesce_again r.original_body r.body body h

-- One ApplyEdit call, by some bridge in some environment.
pub record EditCall : Type 0 where
  pub env : Env
  pub chats : List String
  pub id : String
  pub from_me : Bool
  pub body : Option Bytes

pub run_edits : List EditCall → World → World
run_edits [] w = w
run_edits (c ∷ cs) w = run_edits cs (apply_edit c.env c.chats c.id c.from_me c.body w).1

edit_row-KeepsKeys : (n : ℕ) (body : Option Bytes) → KeepsKeys (edit_row n body)
edit_row-KeepsKeys n body = record { id = λ r. refl; chat = λ r. refl }

apply_edit-IsKeyed :
    (c : EditCall) (w : World)
    → IsKeyed w.db.messages
    → IsKeyed (apply_edit c.env c.chats c.id c.from_me c.body w).1.db.messages
unfolding EditOf edit_table
apply_edit-IsKeyed c w k = elim (apply_edit_cases c.env c.chats c.id c.from_me c.body w) [
  | inl kept ↦ rw kept k
  | inr (r, n, _, _, wrote) ↦ rw wrote (
      update_where-IsKeyed (names c.id r.chat_jid) (edit_row n c.body) (edit_row-KeepsKeys n c.body)
        w.db.messages k)
]

abbrev pub KeepsText : MessageRow → MessageRow → Type 0
KeepsText r r' = (first_text r ≡ none) ⊎ (first_text r' ≡ first_text r)

KeepsText-trans : (a b c : MessageRow) → KeepsText a b → KeepsText b c → KeepsText a c
KeepsText-trans a b c (inl f) g = inl f
KeepsText-trans a b c (inr f) (inl g) = inl (sym f ∙ g)
KeepsText-trans a b c (inr f) (inr g) = inr (g ∙ f)

keeps_text :
    (chats : List String) (id : String) (from_me : Bool) (body : Option Bytes) (r r' : MessageRow)
    → Edited chats id from_me body r r'
    → KeepsText r r'
keeps_text chats id from_me body r r' e = elim (Option-cases (first_text r)) [
  | inl n ↦ inl n
  | inr (t, k) ↦ inr (first_text-kept chats id from_me body r r' e (λ n. absurd cc))
]

pub apply_edit-IsConsistent :
    (env : Env) (chats : List String) (id : String) (from_me : Bool) (body : Option Bytes)
    (w : World)
    → IsConsistent w.db
    → IsConsistent (apply_edit env chats id from_me body w).1.db
unfolding EditOf edit_table
apply_edit-IsConsistent env chats id from_me body w k =
    elim (apply_edit_cases env chats id from_me body w) [
      | inl kept ↦ rw kept k
      | inr (r, n, _, _, wrote) ↦ rw wrote (
          update_messages-IsConsistent (names id r.chat_jid) (edit_row n body)
            (edit_row-KeepsKeys n body) w.db k)
    ]

-- After any edits, with failed and repeated statements among them, over messages with distinct
-- ids: each message that had a text still has the text from before its first edit in
-- original_body, or in body if it was not edited.
pub run_edits-first_text :
    (cs : List EditCall) (w : World)
    → IsKeyed w.db.messages
    → Each KeepsText w.db.messages (run_edits cs w).db.messages
unfolding run_edits
run_edits-first_text [] w k = Each-refl KeepsText (λ r. inr refl) w.db.messages
run_edits-first_text (c ∷ cs) w k =
    Each-trans KeepsText KeepsText KeepsText KeepsText-trans w.db.messages _ _
      (Each-map _ _ (keeps_text c.chats c.id c.from_me c.body) w.db.messages _
        (apply_edit-Edited c.env c.chats c.id c.from_me c.body w k))
      (run_edits-first_text cs _ (apply_edit-IsKeyed c w k))
