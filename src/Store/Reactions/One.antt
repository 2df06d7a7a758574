-- ===== src/Store/Reactions/One.antt =====
-- One reaction per sender and message.
use enviadores_wabridge.Prelude.{
  ℕ, ◌≡◌, refl, ◌∙◌, sym, ap, subst, String, Bool, true, false, ◌&&◌, Option, none, some, List,
  ◌==◌, eq_iff, if◌then◌else◌, arith, inl, inr, Bool-cases, if-cases, &&-split, Mem, leb,
}
use mathlib.Core.Bool.{false≢true}
use enviadores_wabridge.Store.Failure.{Result, ok, err, feature_quotes}
use enviadores_wabridge.Store.Tables.{MessageRow, Db, update_where}
use enviadores_wabridge.Store.Exec.{
  Env, World, Action, pure, exec, query, feature_off, ◌>>◌, continue,
}
use enviadores_wabridge.Store.Fallback.{legacy}
use enviadores_wabridge.Store.Fallback.Off.{
  StaysOff, StaysOff-bind, StaysOff-insert_message, fallback_on,
}
use enviadores_wabridge.Store.Fallback.Keeps.{
  Keeps, Keeps-query, Keeps-pure, Keeps-fallback, Keeps-bind, exec_cases,
}
use enviadores_wabridge.Store.Invariant.{IsKeyed}
use enviadores_wabridge.Store.Messages.{
  new_row, has_message, with_columns, insert_message, is_empty,
}
use enviadores_wabridge.Store.Messages.Insert.{Keeps-insert_message}
use enviadores_wabridge.Store.Reactions.Slots.{
  takes_slot, slot_same, slots, slots-update_where, newest_row-Mem, newest_row-none,
  Mem-has_message, keyed_same, reacted_same, AtMostOne, outside_slot, Empty-AtMostOne,
  first_in_slot, bump-AtMostOne,
}
use enviadores_wabridge.Store.Reactions.{
  Reaction, same_slot, newest_row, row_id, reaction_message, insert_legacy_reaction,
  existing_reaction, reacted_row, update_reaction, bump_target, write_reaction, upsert_reaction,
}

query_answer :
    (env : Env) (read : ℕ → Db → String) (w : World) (e : String)
    → (query env read w).0 ≡ ok e
    → ((query env read w).1.db ≡ w.db) × (e ≡ read (env.clock w.statements) w.db)
unfolding query
query_answer env read w e h = ground arith

-- With the feature on at its end, the search has read the slot. (Else the old statement ran.)
existing_read :
    (env : Env) (r : Reaction) (w : World) (e : String)
    → (existing_reaction env r w).0 ≡ ok e
    → feature_off (existing_reaction env r w).1 feature_quotes ≡ false
    → ((existing_reaction env r w).1.db ≡ w.db)
      × (e ≡ row_id (newest_row (same_slot r) w.db.messages))
unfolding existing_reaction insert_legacy_reaction
existing_read env r w e h on =
    let (answered, same) =
      fallback_on feature_quotes (query env λ now db. row_id (newest_row (same_slot r) db.messages))
        (if is_empty r.emoji then pure "" else insert_legacy_reaction env r >> pure "") "" w e
        (if-cases (StaysOff feature_quotes) (is_empty r.emoji) (record { at = λ w h. h })
          (StaysOff-bind feature_quotes _ _
            (StaysOff-insert_message feature_quotes env (reaction_message r none))
            (λ _. record { at = λ w h. h })))
        h on in
    let (kept, read) =
      query_answer env (λ now db. row_id (newest_row (same_slot r) db.messages)) w e answered in
    (ap (λ w. w.db) same ∙ kept, read)

-- The search keeps what there is: the old statement stores a row outside the slot.
existing_AtMostOne : (env : Env) (r : Reaction) → Keeps (AtMostOne r) (existing_reaction env r)
unfolding existing_reaction insert_legacy_reaction legacy
existing_AtMostOne env r = Keeps-fallback feature_quotes _ _ "" (Keeps-query env _) (
    if-cases (Keeps (AtMostOne r)) (is_empty r.emoji) (Keeps-pure "") (
      Keeps-bind _ _
        (Keeps-insert_message env (reaction_message r none) (λ q l db.
          outside_slot r (with_columns q l (reaction_message r none)) db (no_target q l)))
        (λ _. Keeps-pure "")))
  where
    no_target :
        (q l : Bool) → takes_slot r (new_row (with_columns q l (reaction_message r none))) ≡ false
    no_target q l = unfold takes_slot with_columns in ground arith

-- The update meets the row that was found and no other, and leaves it in its slot.
update_slots :
    (r : Reaction) (rows : List MessageRow) (y : MessageRow)
    → IsKeyed rows
    → Mem y rows
    → takes_slot r y ≡ true
    → slots r (update_where (λ x. x.id == y.id && leb x.timestamp r.timestamp) (reacted_row r) rows)
      ≡ slots r rows
update_slots r rows y keyed m slot =
    slots-update_where r (λ x. x.id == y.id && leb x.timestamp r.timestamp) (reacted_row r) rows
      (λ x n p.
        let e =
          keyed_same rows x y keyed n m ((eq_iff x.id y.id).0 (&&-split (x.id == y.id) _ p).0) in
        let here = ap (takes_slot r) e ∙ slot in reacted_same r x here ∙ sym here)

bumped :
    (env : Env) (r : Reaction) (x : Result (Unit {0}) × World)
    → AtMostOne r x.1.db
    → AtMostOne r (continue x.0 (λ _. bump_target env r) x.1).1.db
bumped env r (ok _, w) a = (bump-AtMostOne env r).at w a
bumped env r (err e, w) a = a

write_AtMostOne :
    (env : Env) (r : Reaction) (w : World)
    → IsKeyed w.db.messages
    → has_message "" w.db.messages ≡ false
    → AtMostOne r w.db
    → AtMostOne r (write_reaction env r (row_id (newest_row (same_slot r) w.db.messages)) w).1.db
write_AtMostOne env r w keyed named a =
    go (newest_row (same_slot r) w.db.messages)
      (λ y h.
        let (m, k) = newest_row-Mem (same_slot r) w.db.messages y h in (m, sym (slot_same r y) ∙ k))
      (newest_row-none r w.db.messages)
  where
    go :
        (o : Option MessageRow)
        → ((y : MessageRow) → o ≡ some y → Mem y w.db.messages × (takes_slot r y ≡ true))
        → (o ≡ none → slots r w.db.messages ≡ 0)
        → AtMostOne r (write_reaction env r (row_id o) w).1.db
    go none found free =
        if-cases (λ (m : Action). AtMostOne r (m w).1.db) (is_empty r.emoji) a
          (bumped env r (insert_message env (reaction_message r (some r.target_id)) w) (
            Empty-AtMostOne r (insert_message env (reaction_message r (some r.target_id)) w).1.db (
              (Keeps-insert_message env (reaction_message r (some r.target_id)) (λ q l db.
                  first_in_slot r (with_columns q l (reaction_message r (some r.target_id))) db
                    (unfold with_columns in refl))).at
                w (inl (free refl)))))
    go (some y) found free =
        let (m, slot) = found y refl in
        elim (Bool-cases (y.id == "")) [
          | inl e ↦ absurd (
              false≢true (
                sym named
                ∙ (ap (λ i. has_message i w.db.messages) (sym ((eq_iff y.id "").0 e))
                    ∙ Mem-has_message w.db.messages y m)))
          | inr e ↦ rw e (
              bumped env r (exec env (λ now. update_reaction r y.id) w)
                (elim (exec_cases env (λ now. update_reaction r y.id) w) [
                  | inl kept ↦ rw kept a
                  | inr wrote ↦
                      rw wrote (
                        unfold update_reaction in
                        rw (update_slots r w.db.messages y keyed m slot) a)
                ]))
        ]

-- Whatever the server answers, over messages with distinct ids none of which is empty: a sender
-- with at most one reaction to a message (a hidden one counts) has at most one after the next
-- reaction or removal too.
pub upsert_reaction-AtMostOne :
    (env : Env) (r : Reaction) (w : World)
    → IsKeyed w.db.messages
    → has_message "" w.db.messages ≡ false
    → AtMostOne r w.db
    → AtMostOne r (upsert_reaction env r w).1.db
unfolding upsert_reaction
upsert_reaction-AtMostOne env r w keyed named a =
    if-cases (λ (m : Action). AtMostOne r (m w).1.db) (r.target_id == "") a
      (go (existing_reaction env r w) (λ e. existing_read env r w e)
        ((existing_AtMostOne env r).at w a))
  where
    go :
        (x : Result String × World)
        → ((e : String)
            → x.0 ≡ ok e
            → feature_off x.1 feature_quotes ≡ false
            → (x.1.db ≡ w.db) × (e ≡ row_id (newest_row (same_slot r) w.db.messages)))
        → AtMostOne r x.1.db
        → AtMostOne r
            (continue x.0
              (λ existing v.
                if feature_off v feature_quotes
                then (ok tt, v)
                else write_reaction env r existing v)
              x.1).1.db
    go (err e, v) read b = b
    go (ok e, v) read b = elim (Bool-cases (feature_off v feature_quotes)) [
      | inl off ↦ rw off b
      | inr on ↦
          let (same, it) = read e refl on in
          rw on (
            subst (λ e. AtMostOne r (write_reaction env r e v).1.db)
              (sym (it ∙ ap (λ db. row_id (newest_row (same_slot r) db.messages)) (sym same)))
              (write_AtMostOne env r v (rw same keyed) (rw same named) b))
    ]
