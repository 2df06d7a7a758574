-- ===== src/Bridge/Inbound/Actions/Handled.antt =====
-- What an edit or a delete may do to the rows of wa_messages: applyProtocolAction of
-- internal/wabridge/wabridge.go adds none, but for an edit on a schema without the edit columns.
use enviadores_wabridge.Prelude.{
  ℕ, ◌≡◌, refl, ◌∙◌, String, Bool, ◌||◌, Option, none, some, List, [], ◌∷◌, if◌then◌else◌, if-cases,
  inl, inr, ◌⊎◌, arith,
}
use enviadores_wabridge.Text.Utf8.{Bytes}
use enviadores_wabridge.Store.Failure.{Error, Result, ok, err, no_rows, edits_unsupported}
use enviadores_wabridge.Store.Tables.{MessageRow, Db, update_where}
use enviadores_wabridge.Store.Exec.{Env, World}
use enviadores_wabridge.Store.Fallback.Keeps.{Keeps, Keeps-exec}
use enviadores_wabridge.Store.Messages.{Located, is_empty}
use enviadores_wabridge.Store.Edits.{
  names, edit_row, revoke_row, edit_table, revoke_table, apply_edit, revoke_message,
}
use enviadores_wabridge.Store.Edits.History.{EditOf, apply_edit_cases}
use enviadores_wabridge.Store.Edits.Revoke.{RevokeOf, revoke_message_cases}
use enviadores_wabridge.Store.Tail.{TailRow, read_tail, set_tail, write_tail, recompute_chat_tail}
use enviadores_wabridge.Store.Tail.Newest.{Keeps-read_tail}
use enviadores_wabridge.Bridge.Preview.{tail_preview}
use enviadores_wabridge.Bridge.NewChat.{is_answer, retry_delays}
use enviadores_wabridge.Bridge.NewChat.Sound.{Keeps-retried}
use enviadores_wabridge.Bridge.Inbound.{MessageInfo}
use enviadores_wabridge.Bridge.Inbound.Actions.{
  ProtoAction, ordinary, edit, revoke, dropped, retry_located, retried_located, recompute_tail,
  after_apply_edit, after_apply_revoke, apply_protocol_action,
}

-- The primary keys of wa_messages, row by row.
unfoldable pub message_ids : List MessageRow → List String
message_ids [] = []
message_ids (r ∷ rs) = r.id ∷ message_ids rs

update_where-ids :
    (p : MessageRow → Bool) (f : MessageRow → MessageRow)
    → ((r : MessageRow) → (f r).id ≡ r.id)
    → (rs : List MessageRow) → message_ids (update_where p f rs) ≡ message_ids rs
unfolding message_ids update_where
update_where-ids p f same [] = refl
update_where-ids p f same (r ∷ rs) = rw (update_where-ids p f same rs) (
    if-cases (λ (x : MessageRow). (x.id ∷ message_ids rs) ≡ (r.id ∷ message_ids rs)) (p r)
      (rw (same r) refl) refl)

module _ (env : Env) (ids : List String) where
  -- The rows are those with these keys.
  abbrev HasIds : Db → Type 0
  HasIds db = message_ids db.messages ≡ ids

  apply_edit-HasIds :
      (chats : List String) (id : String) (from_me : Bool) (body : Option Bytes) (w : World)
      → HasIds w.db
      → HasIds (apply_edit env chats id from_me body w).1.db
  unfolding EditOf edit_table
  apply_edit-HasIds chats id from_me body w h =
      elim (apply_edit_cases env chats id from_me body w) [
        | inl kept ↦ rw kept h
        | inr (r, n, hit, author, wrote) ↦
            rw wrote (
              update_where-ids (names id r.chat_jid) (edit_row n body) (λ x. refl) w.db.messages
              ∙ h)
      ]

  revoke_message-HasIds :
      (chats : List String) (id : String) (from_me is_group : Bool) (w : World)
      → HasIds w.db
      → HasIds (revoke_message env chats id from_me is_group w).1.db
  unfolding RevokeOf revoke_table
  revoke_message-HasIds chats id from_me is_group w h =
      elim (revoke_message_cases env chats id from_me is_group w) [
        | inl kept ↦ rw kept h
        | inr (r, n, hit, allowed, wrote) ↦
            rw wrote
              (update_where-ids (names id r.chat_jid) (revoke_row n) (λ x. refl) w.db.messages ∙ h)
      ]

  retry_located-HasIds :
      (ds : List ℕ) (m : World → Located × World)
      → ((w : World) → HasIds w.db → HasIds (m w).1.db)
      → (w : World) → HasIds w.db
      → HasIds (retry_located ds m w).1.db
  unfolding retry_located
  retry_located-HasIds [] m k w h = h
  retry_located-HasIds (d ∷ ds) m k w h =
      step (m w).0.error (retry_located-HasIds ds m k (m w).1 (k w h))
    where
      step :
          (o : Option Error)
          → HasIds (retry_located ds m (m w).1).1.db
          → HasIds
              (elim o as (λ _. Located × World) [
                | none ↦ m w
                | some e ↦ if is_answer e || is_empty ds then m w else retry_located ds m (m w).1
              ]).1.db
      step none a = k w h
      step (some e) a =
          if-cases (λ (x : Located × World). HasIds x.1.db) (is_answer e || is_empty ds) (k w h) a

  recompute-HasIds : (jid : String) → Keeps HasIds (recompute_chat_tail env jid tail_preview)
  unfolding recompute_chat_tail set_tail
  recompute-HasIds jid = record {
    at = λ w h.
        go (read_tail env jid w).0 (read_tail env jid w).1
          ((Keeps-read_tail {P = HasIds} env jid).at w h);
  }
    where
      go :
          (r : Result TailRow) (v : World)
          → HasIds v.db
          → HasIds (write_tail env jid tail_preview r v).1.db
      go (err no_rows) v h = h
      go (err e) v h = ground (arith, h)
      go (ok t) v h = (Keeps-exec {P = HasIds} env _ (λ now db k. k)).at v h

  recompute_tail-HasIds :
      (jid : String) (w : World) → HasIds w.db → HasIds (recompute_tail env jid w).db
  unfolding recompute_tail
  recompute_tail-HasIds jid = (Keeps-retried _ (recompute-HasIds jid)).at

  after_apply_revoke-HasIds :
      (l : Located) (w : World) → HasIds w.db → HasIds (after_apply_revoke env l w).1.db
  after_apply_revoke-HasIds l w h = ground (arith, h, recompute_tail-HasIds l.ref.chat_jid w h)

  after_apply_edit-HasIds :
      (e : MessageInfo) (body : Option Bytes) (l : Located) (w : World)
      → HasIds w.db
      → HasIds (after_apply_edit env e body l w).db ⊎ (l.error ≡ some edits_unsupported)
  after_apply_edit-HasIds e body l w h = ground (arith, h, recompute_tail-HasIds l.ref.chat_jid w h)

-- Whatever the server answers, with every retry: what applyProtocolAction itself does for an edit
-- or a delete adds no row to wa_messages, removes none and changes no primary key, unless it is an
-- edit that ApplyEdit answers with ErrEditsUnsupported. What handleMessage does next with an event
-- that applyProtocolAction leaves to it, such as a delete of a message that is not stored, is not
-- part of this.
pub apply_protocol_action-HasIds :
    (env : Env) (e : MessageInfo) (chats : List String) (act : ProtoAction) (w : World)
    → (message_ids (apply_protocol_action env e chats act w).1.db.messages
        ≡ message_ids w.db.messages)
      ⊎ ((target : String) × (body : Option Bytes) × (act ≡ edit target body)
          × ((retried_located (apply_edit env chats target e.is_from_me body) w).0.error
              ≡ some edits_unsupported))
unfolding apply_protocol_action retried_located
apply_protocol_action-HasIds env e chats ordinary w = inl refl
apply_protocol_action-HasIds env e chats (dropped reason) w = inl refl
apply_protocol_action-HasIds env e chats (revoke target) w =
    let ids = message_ids w.db.messages in
    let call = revoke_message env chats target e.is_from_me e.is_group in
    let m = retried_located call w in
    inl (
      after_apply_revoke-HasIds env ids m.0 m.1 (
        retry_located-HasIds env ids retry_delays call
          (revoke_message-HasIds env ids chats target e.is_from_me e.is_group) w refl))
apply_protocol_action-HasIds env e chats (edit target body) w =
    let ids = message_ids w.db.messages in
    let call = apply_edit env chats target e.is_from_me body in
    let m = retried_located call w in
    elim (after_apply_edit-HasIds env ids e body m.0 m.1 (
      retry_located-HasIds env ids retry_delays call
        (apply_edit-HasIds env ids chats target e.is_from_me body) w refl)) [
          | inl h ↦ inl h
          | inr u ↦ inr (target, body, refl, u)
        ]
