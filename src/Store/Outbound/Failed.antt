-- ===== src/Store/Outbound/Failed.antt =====
-- What FailOutbound leaves behind: a row that no later tick picks up, with a message that fits.
use enviadores_wabridge.Prelude.{
  ℕ, ◌≡◌, ◌≤◌, refl, String, Bool, true, false, some, ◌∷◌, ◌++◌, eqb, if◌then◌else◌, length, arith,
  ◌⊎◌, inl, inr, Bool-cases, Mem,
}
use enviadores_wabridge.Text.Utf8.{Bytes, utf8}
use enviadores_wabridge.Text.Cut.{IsValid}
use enviadores_wabridge.Text.Cut.Clip.{clip_bounds, clip-IsValid}
use enviadores_wabridge.Store.Failure.{
  Result, ok, err, feature_error_code, is_unknown_column, column_owner,
}
use enviadores_wabridge.Store.Tables.{OutboundRow, Db}
use enviadores_wabridge.Store.Exec.{Env, World, exec, exec_with, feature_off}
use enviadores_wabridge.Store.Fallback.{fallback, legacy, after_new, owned_elsewhere, switch_off}
use enviadores_wabridge.Store.Outbound.{
  outbound_message_max, update_outbound, failure_message, failed_row, fail_outbound,
}
use enviadores_wabridge.Store.Outbound.Ids.{Mem-update_where}

pub record IsFailed (attempts : ℕ) (msg : Bytes) (r : OutboundRow) : Type 0 where
  pub status : r.status ≡ "failed"
  pub attempts_left : r.attempts ≡ attempts
  pub message : r.error_message ≡ some msg

failed_row-IsFailed :
    (b : Bool) (attempts now : ℕ) (msg : Bytes) (code : String) (r : OutboundRow)
    → IsFailed attempts msg (failed_row b attempts msg code now r)
failed_row-IsFailed b attempts now msg code r = record {
  status = refl;
  attempts_left = refl;
  message = refl;
}

updated :
    (b : Bool) (id attempts now : ℕ) (msg : Bytes) (code : String) (db : Db) (r : OutboundRow)
    → Mem r (update_outbound id (failed_row b attempts msg code now) db).outbound
    → r.id ≡ id
    → IsFailed attempts msg r
unfolding update_outbound
updated b id attempts now msg code db r m e =
    let (q, n, k) =
      Mem-update_where (λ r. eqb r.id id) (failed_row b attempts msg code now) db.outbound r m in
    elim (Bool-cases (eqb q.id id)) [
      | inl y ↦ rw (the_row q k y) (failed_row-IsFailed b attempts now msg code q)
      | inr y ↦ absurd (ground arith)
    ]
  where
    the_row :
        (q : OutboundRow)
        → r ≡ (if eqb q.id id then failed_row b attempts msg code now q else q)
        → eqb q.id id ≡ true
        → r ≡ failed_row b attempts msg code now q
    the_row q k y = rw y at k

exec_ok :
    (env : Env) (write : ℕ → Db → Db) (w : World)
    → (exec env write w).0 ≡ ok tt
    → (exec env write w).1.db ≡ write (env.clock w.statements) w.db
unfolding exec exec_with
exec_ok env write w h = ground arith

-- A fallback over two statements that answers has run one of them to its end, and it last.
fallback_ok :
    (feature : String) (env : Env) (new old : ℕ → Db → Db) (w : World)
    → (fallback feature (exec env new) (some (exec env old)) tt w).0 ≡ ok tt
    → ((now : ℕ) × (db : Db) × ((fallback feature (exec env new) (some (exec env old)) tt w).1.db
          ≡ new now db))
      ⊎ ((now : ℕ) × (db : Db) × ((fallback feature (exec env new) (some (exec env old)) tt w).1.db
            ≡ old now db))
unfolding fallback legacy
fallback_ok feature env new old w h = start (feature_off w feature) h
  where
    Ended : World → Type 0
    Ended v =
        ((now : ℕ) × (db : Db) × (v.db ≡ new now db))
        ⊎ ((now : ℕ) × (db : Db) × (v.db ≡ old now db))

    ended_old : (v : World) → (exec env old v).0 ≡ ok tt → Ended (exec env old v).1
    ended_old v e = inr (env.clock v.statements, v.db, exec_ok env old v e)

    after :
        (r : Result (Unit {0})) (v : World)
        → (r ≡ ok tt → v.db ≡ new (env.clock w.statements) w.db)
        → (after_new feature (some (exec env old)) tt (r, v)).0 ≡ ok tt
        → Ended (after_new feature (some (exec env old)) tt (r, v)).1
    after (ok _) v k e = inl (env.clock w.statements, w.db, k refl)
    after (err x) v k e = elim (Bool-cases (is_unknown_column x)) [
      | inr n ↦ absurd (ground arith)
      | inl u ↦ elim (Bool-cases (owned_elsewhere feature (column_owner x))) [
        | inl o ↦ absurd (ground arith)
        | inr o ↦ rw (u, o) (ended_old (switch_off feature v) (rw (u, o) at e))
      ]
    ]

    start :
        (b : Bool)
        → (if b
            then exec env old w
            else after_new feature (some (exec env old)) tt (exec env new w)).0
          ≡ ok tt
        → Ended
            (if b
              then exec env old w
              else after_new feature (some (exec env old)) tt (exec env new w)).1
    start true e = ended_old w e
    start false e = after (exec env new w).0 (exec env new w).1 (exec_ok env new w) e

-- FailOutbound that returns without an error, on the new schema or on the old one: each row with
-- the id is failed, with the attempts and the clipped message.
pub fail_outbound-IsFailed :
    (env : Env) (id attempts : ℕ) (code : String) (detail : Bytes) (w : World) (r : OutboundRow)
    → (fail_outbound env id attempts code detail w).0 ≡ ok tt
    → Mem r (fail_outbound env id attempts code detail w).1.db.outbound
    → r.id ≡ id
    → IsFailed attempts (failure_message code detail) r
unfolding fail_outbound
fail_outbound-IsFailed env id attempts code detail w r h m =
    elim (fallback_ok feature_error_code env _ _ w h) [
      | inl (now, db, e) ↦
          updated true id attempts now (failure_message code detail) code db r (rw e at m)
      | inr (now, db, e) ↦
          updated false id attempts now (failure_message code detail) code db r (rw e at m)
    ]

-- The message of a failed row fits its 500 bytes and is a prefix of the code and the detail, and
-- it is valid UTF-8, where the code and the detail are.
pub failure_message_bounds :
    (code : String) (detail : Bytes)
    → IsValid (utf8 code ++ (b':' ∷ b' ' ∷ detail))
    → (length (failure_message code detail) ≤ 500)
      × IsValid (failure_message code detail)
      × ((rest : Bytes) × (failure_message code detail ++ rest
            ≡ utf8 code ++ (b':' ∷ b' ' ∷ detail)))
unfolding failure_message
failure_message_bounds code detail v =
    let (le, prefix) = clip_bounds (utf8 code ++ (b':' ∷ b' ' ∷ detail)) outbound_message_max in
    (le, clip-IsValid _ outbound_message_max v, prefix)
