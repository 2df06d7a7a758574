-- ===== src/Bridge/Outbound/Batch/Reads.antt =====
-- The readings of the outbound queue, read_batch under either form of its statement.
use enviadores_wabridge.Prelude.{
  ℕ, ◌≡◌, ◌≢◌, refl, sym, ◌∙◌, ap, inl, inr, String, Bool, true, false, some, List, [], ◌∷◌,
  if◌then◌else◌, take, arith, All, Mem, Bool-cases,
}
use enviadores_wabridge.Store.Failure.{Result, ok, err, is_unknown_column, column_owner}
use enviadores_wabridge.Store.Tables.{OutboundRow}
use enviadores_wabridge.Store.Exec.{Env, World, M, query, feature_off}
use enviadores_wabridge.Store.Fallback.{fallback, legacy, after_new, switch_off, owned_elsewhere}
use enviadores_wabridge.Store.Fallback.Keeps.{switch_off-db}
use enviadores_wabridge.Bridge.Outbound.{
  feature_outbound_quote, OutboundWork, sendable, sorted_where, scan_rows, query_pending_outbound,
  read_batch,
}
use enviadores_wabridge.Bridge.Outbound.Steps.{waiting, stage}
use enviadores_wabridge.Bridge.Outbound.Batch.{
  Apart, Distinct, Due, All-take, Apart-take, sorted_where-All, sorted_where-Apart, Scanned,
  scan_rows-Scanned,
}

-- What a reading of the queue returns, over the rows that it reads.
abbrev pub IsReading : List OutboundRow → List OutboundWork → Type 0
IsReading rows ws =
    (b : Bool) × (now : ℕ) × (scan_rows b (take 10 (sorted_where (sendable now) rows)) ≡ some ws)

-- Whatever such a statement answers is a reading of the table as it was.
pub record Reads (m : M (List OutboundWork)) : Type 0 where
  pub kept : (w : World) → (m w).1.db ≡ w.db
  pub read : (w : World) (ws : List OutboundWork) → (m w).0 ≡ ok ws → IsReading w.db.outbound ws

query_pending-Reads : (env : Env) (b : Bool) → Reads (query_pending_outbound env b)
unfolding query_pending_outbound query
query_pending-Reads env b = record {
  kept = λ w. ground arith;
  read = λ w ws h. (b, env.clock w.statements, ground arith);
}

fallback-Reads :
    (feature : String) (new old : M (List OutboundWork))
    → Reads new
    → Reads old
    → Reads (fallback feature new (some old) [])
unfolding fallback legacy
fallback-Reads feature new old n o = record {
  kept = λ w. start-kept w (feature_off w feature);
  read = λ w ws. start-read w ws (feature_off w feature);
}
  where
    after-kept :
        (r : Result (List OutboundWork)) (v : World)
        → (after_new feature (some old) [] (r, v)).1.db ≡ v.db
    after-kept (ok a) v = refl
    after-kept (err e) v = elim (Bool-cases (is_unknown_column e)) [
      | inl u ↦ elim (Bool-cases (owned_elsewhere feature (column_owner e))) [
        | inl k ↦ rw (u, k) refl
        | inr k ↦ rw (u, k) (o.kept (switch_off feature v) ∙ switch_off-db feature v)
      ]
      | inr u ↦ rw u refl
    ]

    start-kept :
        (w : World) (b : Bool)
        → (if b then old w else after_new feature (some old) [] (new w)).1.db ≡ w.db
    start-kept w true = o.kept w
    start-kept w false = after-kept (new w).0 (new w).1 ∙ n.kept w

    after-read :
        (rows : List OutboundRow) (ws : List OutboundWork) (r : Result (List OutboundWork))
        (v : World)
        → v.db.outbound ≡ rows
        → (r ≡ ok ws → IsReading rows ws)
        → (after_new feature (some old) [] (r, v)).0 ≡ ok ws
        → IsReading rows ws
    after-read rows ws (ok a) v k f h = f h
    after-read rows ws (err e) v k f h = elim (Bool-cases (is_unknown_column e)) [
      | inl u ↦ elim (Bool-cases (owned_elsewhere feature (column_owner e))) [
        | inl l ↦ absurd (ground arith)
        | inr l ↦
            rw (sym k, sym (ap (λ d. d.outbound) (switch_off-db feature v)))
              (o.read (switch_off feature v) ws (rw (u, l) at h))
      ]
      | inr u ↦ absurd (ground arith)
    ]

    start-read :
        (w : World) (ws : List OutboundWork) (b : Bool)
        → (if b then old w else after_new feature (some old) [] (new w)).0 ≡ ok ws
        → IsReading w.db.outbound ws
    start-read w ws true h = o.read w ws h
    start-read w ws false h =
        after-read w.db.outbound ws (new w).0 (new w).1 (ap (λ d. d.outbound) (n.kept w))
          (n.read w ws) h

pub read_batch-Reads : (env : Env) → Reads (read_batch env)
unfolding read_batch
read_batch-Reads env =
    fallback-Reads feature_outbound_quote (query_pending_outbound env true)
      (query_pending_outbound env false) (query_pending-Reads env true)
      (query_pending-Reads env false)

sendable-stage : (now : ℕ) (r : OutboundRow) → sendable now r ≡ true → stage r ≡ waiting r.attempts
unfolding stage
sendable-stage now r h = ground arith

Scanned-Due :
    (rows rs : List OutboundRow) (ws : List OutboundWork)
    → All (λ r. Mem r rows × (stage r ≡ waiting r.attempts)) rs
    → Scanned rs ws
    → All (Due rows) ws
Scanned-Due rows [] [] h k = tt
Scanned-Due rows [] (w ∷ ws) h k = absurd k
Scanned-Due rows (r ∷ rs) [] h k = absurd k
Scanned-Due rows (r ∷ rs) (w ∷ ws) ((m, e), hs) (at, n, k) =
    ((r, m, sym at, rw n e), Scanned-Due rows rs ws hs k)

Scanned-ids :
    (id : ℕ) (rs : List OutboundRow) (ws : List OutboundWork)
    → All (λ q. q.id ≢ id) rs
    → Scanned rs ws
    → All (λ v. v.id ≢ id) ws
Scanned-ids id [] [] h k = tt
Scanned-ids id [] (w ∷ ws) h k = absurd k
Scanned-ids id (r ∷ rs) [] h k = absurd k
Scanned-ids id (r ∷ rs) (w ∷ ws) h (at, n, k) =
    ((λ e. h.0 (sym at ∙ e)), Scanned-ids id rs ws h.1 k)

Scanned-Distinct :
    (rs : List OutboundRow) (ws : List OutboundWork) → Apart rs → Scanned rs ws → Distinct ws
Scanned-Distinct [] [] h k = tt
Scanned-Distinct [] (w ∷ ws) h k = absurd k
Scanned-Distinct (r ∷ rs) [] h k = absurd k
Scanned-Distinct (r ∷ rs) (w ∷ ws) h (at, n, k) =
    (Scanned-ids w.id rs ws (rw at h.0) k, Scanned-Distinct rs ws h.1 k)

-- Over a table whose ids are unique, a reading has distinct rows that are due.
pub IsReading-Distinct :
    (rows : List OutboundRow) (ws : List OutboundWork)
    → Apart rows
    → IsReading rows ws
    → Distinct ws × All (Due rows) ws
IsReading-Distinct rows ws a (b, now, h) =
    let k = scan_rows-Scanned b _ ws h in
    (
      Scanned-Distinct _ ws (Apart-take 10 _ (sorted_where-Apart (sendable now) rows a)) k,
      Scanned-Due rows _ ws
          (All-take _ 10 _
            (sorted_where-All (sendable now) _ rows (λ r m e. (m, sendable-stage now r e))))
          k,
    )
