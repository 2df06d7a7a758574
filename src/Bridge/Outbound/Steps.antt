-- ===== src/Bridge/Outbound/Steps.antt =====
-- What an attempt at a row of the outbound queue may do to wa_outbound: the stages of a row, the
-- steps between them, and the writes of internal/wabridge/wabridge.go that stay within those steps.
use enviadores_wabridge.Prelude.{
  ℕ, suc, ◌+◌, ◌≡◌, ◌≢◌, ◌<◌, refl, sym, ◌∙◌, ap, ◌⊎◌, inl, inr, String, Bool, true, false, List,
  [], ◌∷◌, ◌==◌, eqb, leb, if◌then◌else◌, arith, Bool-cases, Each, Mem,
}
use enviadores_wabridge.Text.Utf8.{Bytes}
use enviadores_wabridge.Text.Cut.{byte_cut}
use enviadores_wabridge.Store.Failure.{feature_error_code}
use enviadores_wabridge.Store.Tables.{OutboundRow, Db, update_where}
use enviadores_wabridge.Store.Exec.{Env}
use enviadores_wabridge.Store.Fallback.{legacy}
use enviadores_wabridge.Store.Fallback.Keeps.{Keeps, Keeps-exec, Keeps-fallback}
use enviadores_wabridge.Store.Outbound.{
  outbound_max_attempts, update_outbound, failure_message, failed_row, fail_outbound, attempted_row,
  mark_attempt, sent_row,
}
use enviadores_wabridge.Bridge.Outbound.Record.{stamp}
use enviadores_wabridge.Bridge.Outbound.Quiet.{Rows}

-- Where a row stands: to be sent after so many failed attempts, sent, given up, or none of these.
pub data Stage : Type 0 where
  waiting : ℕ → Stage
  out dead elsewhere : Stage

unfoldable pub stage : OutboundRow → Stage
stage r =
    if r.status == "pending"
    then waiting r.attempts
    else if r.status == "sent"
    then out
    else if r.status == "failed"
    then dead
    else elsewhere

-- What an attempt at a waiting row may make of it; the Boolean says whether the attempt handed it to
-- WhatsApp. Nothing may have been written, whatever happened before.
pub data Step : Stage → Bool → Stage → Type 0 where
  kept : {n : ℕ} {b : Bool} → Step (waiting n) b (waiting n)
  retried : {n : ℕ} {b : Bool} → suc n < 5 → Step (waiting n) b (waiting (suc n))
  failed : {n : ℕ} {b : Bool} → Step (waiting n) b dead
  delivered : {n : ℕ} → Step (waiting n) true out

-- The row with the id takes a step, the others stay as they are.
abbrev pub Served : ℕ → Bool → OutboundRow → OutboundRow → Type 0
Served id b q q' =
    ((q.id ≢ id) × (q' ≡ q)) ⊎ ((q.id ≡ id) × (q'.id ≡ id) × Step (stage q) b (stage q'))

Step-hand : {n : ℕ} {s : Stage} → Step (waiting n) false s → Step (waiting n) true s
Step-hand kept = kept
Step-hand (retried l) = retried l
Step-hand failed = failed

attempted-Step :
    {b : Bool} (n : ℕ) (msg : Bytes) (now : ℕ)
    → suc n < 5
    → (q : OutboundRow) (s : Stage) → stage q ≡ s
    → Step (waiting n) b s
    → (t : Stage) × (stage (attempted_row (n + 1) msg now q) ≡ t) × Step (waiting n) b t
unfolding stage
attempted-Step n msg now l q s e kept = (waiting (suc n), ground arith, retried l)
attempted-Step n msg now l q s e (retried _) = (waiting (suc n), ground arith, retried l)
attempted-Step n msg now l q s e failed = (dead, ground arith, failed)
attempted-Step n msg now l q s e delivered = (out, ground arith, delivered)

module _ (id n : ℕ) where
  -- The same with the stages named, for a row that waits after `n` attempts.
  abbrev pub Moved : Bool → OutboundRow → OutboundRow → Type 0
  Moved b q q' =
      ((q.id ≢ id) × (q' ≡ q))
      ⊎ ((q.id ≡ id)
          × (q'.id ≡ id)
          × (stage q ≡ waiting n)
          × ((s : Stage) × (stage q' ≡ s) × Step (waiting n) b s))

  pub Moved-hand : (q q' : OutboundRow) → Moved false q q' → Moved true q q'
  Moved-hand q q' (inl h) = inl h
  Moved-hand q q' (inr (a, b, w, (s, e, t))) = inr (a, b, w, (s, e, Step-hand t))

  pub Moved-Served : (b : Bool) (q q' : OutboundRow) → Moved b q q' → Served id b q q'
  Moved-Served b q q' (inl h) = inl h
  Moved-Served b q q' (inr (a, c, w, (s, e, t))) = inr (a, c, rw (w, e) t)

  pub Moved-start :
      (rows : List OutboundRow)
      → ((q : OutboundRow) → Mem q rows → q.id ≡ id → stage q ≡ waiting n)
      → Each (Moved false) rows rows
  Moved-start [] h = tt
  Moved-start (q ∷ rows) h = (
    elim (Bool-cases (eqb q.id id)) [
      | inl e ↦
          let at : q.id ≡ id = ground arith in
          inr (at, at, h q (inl refl) at, (waiting n, h q (inl refl) at, kept))
      | inr e ↦ inl ((λ at. absurd (ground arith)), refl)
    ],
    Moved-start rows (λ r m. h r (inr m)),
  )

  -- A write to the row with the id that makes steps of steps.
  update-Moved :
      (b : Bool) (f : OutboundRow → OutboundRow)
      → ((q : OutboundRow) → q.id ≡ id → (f q).id ≡ id)
      → ((q : OutboundRow) (s : Stage)
          → stage q ≡ s
          → Step (waiting n) b s
          → (t : Stage) × (stage (f q) ≡ t) × Step (waiting n) b t)
      → (rows rows' : List OutboundRow) → Each (Moved b) rows rows'
      → Each (Moved b) rows (update_where (λ r. eqb r.id id) f rows')
  unfolding update_where
  update-Moved b f same step [] [] h = tt
  update-Moved b f same step [] (q' ∷ rows') h = h
  update-Moved b f same step (q ∷ rows) [] h = h
  update-Moved b f same step (q ∷ rows) (q' ∷ rows') (h, hs) =
      (one h, update-Moved b f same step rows rows' hs)
    where
      one : Moved b q q' → Moved b q (if eqb q'.id id then f q' else q')
      one (inl (ne, e)) = elim (Bool-cases (eqb q'.id id)) [
        | inl y ↦ absurd (ne (sym (ap (λ r. r.id) e) ∙ ground arith))
        | inr y ↦ rw y (inl (ne, e))
      ]
      one (inr (a, c, w, (s, e, t))) = elim (Bool-cases (eqb q'.id id)) [
        | inl y ↦ rw y (inr (a, same q' c, w, step q' s e t))
        | inr y ↦ absurd (ground arith)
      ]

  module _ (env : Env) (b : Bool) (rows : List OutboundRow) where
    pub fail_outbound-Moved :
        (attempts : ℕ) (code : String) (detail : Bytes)
        → Keeps (Rows (Each (Moved b) rows)) (fail_outbound env id attempts code detail)
    unfolding fail_outbound legacy update_outbound stage
    fail_outbound-Moved attempts code detail =
        Keeps-fallback feature_error_code _ _ tt (Keeps-exec env _ (write true))
          (Keeps-exec env _ (write false))
      where
        write :
            (c : Bool) (now : ℕ) (db : Db)
            → Each (Moved b) rows db.outbound
            → Each (Moved b) rows (
                update_where
                  (λ r. eqb r.id id)
                  (failed_row c attempts (failure_message code detail) code now)
                  db.outbound)
        write c now db =
            update-Moved b _ (λ q e. e) (λ q s e t. (dead, refl, failed)) rows db.outbound

    -- `attempts` of the row as it was read: n
    pub mark_attempt-Moved :
        (code : String) (msg : Bytes)
        → Keeps (Rows (Each (Moved b) rows)) (mark_attempt env id n code msg)
    unfolding mark_attempt update_outbound stage
    mark_attempt-Moved code msg = elim (Bool-cases (leb outbound_max_attempts (n + 1))) [
      | inl e ↦ rw e (fail_outbound-Moved (n + 1) code (byte_cut 500 msg))
      | inr e ↦ rw e (Keeps-exec env _ (write (ground arith)))
    ]
      where
        write :
            suc n < 5
            → (now : ℕ) (db : Db) → Each (Moved b) rows db.outbound
            → Each
                (Moved b)
                rows
                (update_outbound id (attempted_row (n + 1) (byte_cut 500 msg) now) db).outbound
        write l now db =
            update-Moved b _ (λ q e. e) (attempted-Step n (byte_cut 500 msg) now l) rows db.outbound

  pub stamp-Moved :
      (env : Env) (rows : List OutboundRow) (wa_id : String)
      → Keeps (Rows (Each (Moved true) rows)) (stamp env id wa_id)
  unfolding stamp update_outbound stage
  stamp-Moved env rows wa_id = Keeps-exec env _ write
    where
      write :
          (now : ℕ) (db : Db)
          → Each (Moved true) rows db.outbound
          → Each (Moved true) rows (update_outbound id (sent_row false wa_id now) db).outbound
      write now db =
          update-Moved true _ (λ q e. e) (λ q s e t. (out, refl, delivered)) rows db.outbound
