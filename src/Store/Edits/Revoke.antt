-- ===== src/Store/Edits/Revoke.antt =====
-- Which rows RevokeMessage may touch, and what it keeps of them.
use enviadores_wabridge.Prelude.{
  ℕ, ◌≡◌, refl, ◌∙◌, sym, ap, String, Bool, true, false, ◌&&◌, ◌||◌, not, some, List, arith,
  Bool-cases, inl, inr, ◌⊎◌, Each, Each-refl,
}
use enviadores_wabridge.Store.Failure.{Result, ok, err, feature_edits}
use enviadores_wabridge.Store.Tables.{MessageRow, Db, coalesce}
use enviadores_wabridge.Store.Exec.{Env, World, feature_off}
use enviadores_wabridge.Store.Fallback.Keeps.{fallback-exec_cases}
use enviadores_wabridge.Store.Invariant.{IsKeyed, IsConsistent, update_messages-IsConsistent}
use enviadores_wabridge.Store.Messages.{
  MessageRef, Located, is_some, locate_message, in_chats, row_ref,
}
use enviadores_wabridge.Store.Edits.{
  bool_eq, names, revoke_row, revoke_table, revoke_message, write_revoke, after_revoke,
}
use enviadores_wabridge.Store.Edits.Target.{
  target_row, locate_same, locate_found, Touches, bool_eq_iff, find_where-holds, update_target,
}

after_revoke-db :
    (ref : MessageRef) (r : Result (Unit {0})) (w : World) → (after_revoke ref r w).1.db ≡ w.db
after_revoke-db ref (ok _) w = refl
after_revoke-db ref (err e) w = refl

-- Who may delete: anybody in a group, the author elsewhere.
abbrev pub MayRevoke : Bool → Bool → MessageRow → Type 0
MayRevoke is_group from_me r = (is_group ≡ true) ⊎ (r.from_me ≡ from_me)

module _ (env : Env) (chats : List String) (id : String) (from_me is_group : Bool) (w : World) where
  unfoldable pub RevokeOf : Db → Type 0
  RevokeOf = Touches w chats id (λ r. revoke_table id r.chat_jid) (MayRevoke is_group from_me)

  may_revoke :
      (l : Located) (r : MessageRow)
      → (not is_group && not (bool_eq l.ref.from_me from_me)) ≡ false
      → l.ref ≡ row_ref r
      → MayRevoke is_group from_me r
  may_revoke l r h ref = elim (Bool-cases is_group) [
    | inl g ↦ inl g
    | inr g ↦ inr (sym (ap (λ x. x.from_me) ref) ∙ bool_eq_iff _ _ (ground (arith, g, h)))
  ]

  write_revoke_cases :
      (l : Located) (v : World)
      → v.db ≡ w.db
      → (l.found ≡ true
          → (r : MessageRow) × (target_row chats id w.db ≡ some r) × (l.ref ≡ row_ref r))
      → RevokeOf (write_revoke env id from_me is_group (l, v)).1.db
  unfolding RevokeOf
  write_revoke_cases l v same found = elim (Bool-cases (is_some l.error || not l.found)) [
    | inl e ↦ rw e (inl same)
    | inr e ↦ elim (Bool-cases (not is_group && not (bool_eq l.ref.from_me from_me))) [
      | inl f ↦ rw (e, f) (inl same)
      | inr f ↦
          rw (e, f)
            (rw after_revoke-db
              (elim (fallback-exec_cases feature_edits env (revoke_table id l.ref.chat_jid) v) [
                | inl kept ↦ inl (kept ∙ same)
                | inr wrote ↦
                    let (r, hit, ref) = found (ground arith) in
                    let n = env.clock v.statements in
                    inr (
                      r,
                      n,
                      hit,
                      may_revoke l r f ref,
                      wrote
                          ∙ ap (λ c. revoke_table id c n v.db) (ap (λ x. x.chat_jid) ref)
                          ∙ ap (revoke_table id r.chat_jid n) same,
                    )
              ]))
    ]
  ]

-- What a delete by the side `from_me` may do to a row.
abbrev pub Revoked : List String → String → Bool → Bool → MessageRow → MessageRow → Type 0
Revoked chats id from_me is_group r r' =
    (r' ≡ r)
    ⊎ ((n : ℕ) × (in_chats id chats r ≡ true)
        × MayRevoke is_group from_me r
        × (r' ≡ record r { revoked_at = coalesce r.revoked_at (some n) }))

revoked :
    (env : Env) (chats : List String) (id : String) (from_me is_group : Bool) (w : World) (db : Db)
    → IsKeyed w.db.messages
    → RevokeOf env chats id from_me is_group w db
    → Each (Revoked chats id from_me is_group) w.db.messages db.messages
unfolding RevokeOf revoke_table
revoked env chats id from_me is_group w db keyed (inl kept) =
    rw kept (Each-refl _ (λ r. inl refl) w.db.messages)
revoked env chats id from_me is_group w db keyed (inr (r, n, hit, allowed, wrote)) = rw wrote (
    update_target id chats (revoke_row n) r (Revoked chats id from_me is_group) (λ x. inl refl)
      w.db.messages keyed hit
      (inr (n, find_where-holds (in_chats id chats) w.db.messages r hit, allowed, refl)))

pub revoke_message_cases :
    (env : Env) (chats : List String) (id : String) (from_me is_group : Bool) (w : World)
    → RevokeOf env chats id from_me is_group w (revoke_message env chats id from_me is_group w).1.db
unfolding revoke_message RevokeOf
revoke_message_cases env chats id from_me is_group w =
    elim (Bool-cases (feature_off w feature_edits)) [
      | inl off ↦ rw off (inl refl)
      | inr on ↦ rw on (
          write_revoke_cases env chats id from_me is_group w (locate_message env id chats w).0
            (locate_message env id chats w).1 (locate_same env id chats w)
            (locate_found env id chats w))
    ]

-- Over messages with distinct ids and whatever the server answers, a delete changes at most
-- revoked_at of the row with the target's id, in one of the given chats: the body stays, a time
-- that is set stays, and outside groups the row is one that the same side wrote.
pub revoke_message-Revoked :
    (env : Env) (chats : List String) (id : String) (from_me is_group : Bool) (w : World)
    → IsKeyed w.db.messages
    → Each
        (Revoked chats id from_me is_group)
        w.db.messages
        (revoke_message env chats id from_me is_group w).1.db.messages
revoke_message-Revoked env chats id from_me is_group w keyed =
    revoked env chats id from_me is_group w _ keyed
      (revoke_message_cases env chats id from_me is_group w)

revoked-IsConsistent :
    (env : Env) (chats : List String) (id : String) (from_me is_group : Bool) (w : World) (db : Db)
    → IsConsistent w.db
    → RevokeOf env chats id from_me is_group w db
    → IsConsistent db
unfolding RevokeOf revoke_table
revoked-IsConsistent env chats id from_me is_group w db k (inl kept) = rw kept k
revoked-IsConsistent env chats id from_me is_group w db k (inr (r, n, hit, allowed, wrote)) =
    rw wrote (
      update_messages-IsConsistent (names id r.chat_jid) (revoke_row n)
        (record { id = λ r. refl; chat = λ r. refl }) w.db k)

pub revoke_message-IsConsistent :
    (env : Env) (chats : List String) (id : String) (from_me is_group : Bool) (w : World)
    → IsConsistent w.db
    → IsConsistent (revoke_message env chats id from_me is_group w).1.db
unfolding revoke_message
revoke_message-IsConsistent env chats id from_me is_group w k =
    elim (Bool-cases (feature_off w feature_edits)) [
      | inl off ↦ rw off k
      | inr on ↦ rw on (
          revoked-IsConsistent env chats id from_me is_group w _ k (
            write_revoke_cases env chats id from_me is_group w (locate_message env id chats w).0
              (locate_message env id chats w).1 (locate_same env id chats w)
              (locate_found env id chats w)))
    ]
