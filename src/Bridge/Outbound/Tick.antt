-- ===== src/Bridge/Outbound/Tick.antt =====
-- One tick of the outbound queue, processOutboundBatch of internal/wabridge/wabridge.go, as an
-- abstract machine sees it: a stage per row, and how often the row was handed to WhatsApp.
use enviadores_wabridge.Prelude.{
  ℕ, ◌+◌, ◌≡◌, ◌≢◌, refl, sym, ◌∙◌, ap, subst, ◌⊎◌, inl, inr, Bool, true, false, List, [], ◌∷◌, eqb,
  if◌then◌else◌, arith, All, Each, Each-map, Each-trans, Mem,
}
use enviadores_wabridge.Store.Failure.{ok}
use enviadores_wabridge.Store.Tables.{OutboundRow}
use enviadores_wabridge.Store.Exec.{Env}
use enviadores_wabridge.Bridge.Client.{Client, Host}
use enviadores_wabridge.Bridge.Location.{Floats}
use enviadores_wabridge.Bridge.Outbound.{OutboundWork, Handed, Outbox, read_batch}
use enviadores_wabridge.Bridge.Outbound.Build.{at_world}
use enviadores_wabridge.Bridge.Outbound.Send.{send_outbound_row, send_rows}
use enviadores_wabridge.Bridge.Outbound.Steps.{waiting, stage, Step, Served}
use enviadores_wabridge.Bridge.Outbound.Attempt.{Handing, send_outbound_row-Served}
use enviadores_wabridge.Bridge.Outbound.Batch.Reads.{IsReading-Distinct, read_batch-Reads}
use enviadores_wabridge.Bridge.Outbound.Batch.{Apart, Apart-unique, Distinct, Due}

-- How often a row was handed to WhatsApp.
unfoldable pub times : ℕ → List Handed → ℕ
times id [] = 0
times id (h ∷ hs) = (if eqb h.row id then 1 else 0) + times id hs

-- A row as one tick found it and as it left it: no attempt, or one attempt, with the stage and the
-- count of hand-overs that this attempt gives.
pub data Attended (hs hs' : List Handed) (q q' : OutboundRow) : Type 0 where
  untouched : q' ≡ q → times q.id hs' ≡ times q.id hs → Attended hs hs' q q'
  attempted :
      (b : Bool)
      → q'.id ≡ q.id
      → Step (stage q) b (stage q')
      → times q.id hs' ≡ (if b then 1 else 0) + times q.id hs
      → Attended hs hs' q q'

abbrev Waits : List OutboundRow → OutboundWork → Type 0
Waits rows w = (q : OutboundRow) → Mem q rows → q.id ≡ w.id → stage q ≡ waiting w.attempts

Each-Mem :
    (R : OutboundRow → OutboundRow → Type 0) (rows rows' : List OutboundRow)
    → Each R rows rows'
    → (q' : OutboundRow) → Mem q' rows'
    → (q : OutboundRow) × Mem q rows × R q q'
Each-Mem R [] [] h q' m = absurd m
Each-Mem R [] (y ∷ ys) h q' m = absurd h
Each-Mem R (x ∷ xs) [] h q' m = absurd m
Each-Mem R (x ∷ xs) (y ∷ ys) h q' (inl e) = (x, inl refl, subst (R x) (sym e) h.0)
Each-Mem R (x ∷ xs) (y ∷ ys) h q' (inr m) =
    let (q, n, k) = Each-Mem R xs ys h.1 q' m in (q, inr n, k)

-- Serving one row leaves the others waiting.
Waits-Served :
    (id : ℕ) (b : Bool) (rows rows' : List OutboundRow) (w : OutboundWork)
    → Each (Served id b) rows rows'
    → w.id ≢ id
    → Waits rows w
    → Waits rows' w
Waits-Served id b rows rows' w h ne k q' m e = go (Each-Mem (Served id b) rows rows' h q' m)
  where
    go : (q : OutboundRow) × Mem q rows × Served id b q q' → stage q' ≡ waiting w.attempts
    go (q, n, inl (other, same)) = rw same (k q n (ap (λ r. r.id) (sym same) ∙ e))
    go (q, n, inr (at, at', s)) = absurd (ne (sym e ∙ at'))

Waits-All :
    (id : ℕ) (b : Bool) (rows rows' : List OutboundRow) (ws : List OutboundWork)
    → Each (Served id b) rows rows'
    → All (λ v. v.id ≢ id) ws
    → All (Waits rows) ws
    → All (Waits rows') ws
Waits-All id b rows rows' [] h d k = tt
Waits-All id b rows rows' (w ∷ ws) h d k =
    (Waits-Served id b rows rows' w h d.0 k.0, Waits-All id b rows rows' ws h d.1 k.1)

times-other :
    (id : ℕ) (b : Bool) (hs hs' : List Handed) (other : ℕ)
    → Handing id b hs hs'
    → other ≢ id
    → times other hs' ≡ times other hs
unfolding times
times-other id true hs hs' other (p, e) ne = rw e (ground arith)
times-other id false hs hs' other e ne = rw e refl

times-own :
    (id : ℕ) (b : Bool) (hs hs' : List Handed)
    → Handing id b hs hs'
    → times id hs' ≡ (if b then 1 else 0) + times id hs
unfolding times
times-own id true hs hs' (p, e) = rw e (ground arith)
times-own id false hs hs' e = rw e (ground arith)

-- The rows that the works name are attended, the others untouched.
abbrev Covered : List OutboundWork → List Handed → List Handed → OutboundRow → OutboundRow → Type 0
Covered ws hs hs' q q' =
    (All (λ w. w.id ≢ q.id) ws × (q' ≡ q) × (times q.id hs' ≡ times q.id hs))
    ⊎ ((¬ All (λ w. w.id ≢ q.id) ws) × Attended hs hs' q q')

module _ (w : OutboundWork) (ws : List OutboundWork) (b : Bool) (hs ks ls : List Handed)
    (hand : Handing w.id b hs ks) where
  Covered-other :
      (q s : OutboundRow) → q.id ≢ w.id → Covered ws ks ls q s → Covered (w ∷ ws) hs ls q s
  Covered-other q s ne (inl (out, f, t)) =
      inl (((λ k. ne (sym k)), out), f, t ∙ times-other w.id b hs ks q.id hand ne)
  Covered-other q s ne (inr (in_ws, untouched e t)) =
      inr ((λ k. in_ws k.1), untouched e (t ∙ times-other w.id b hs ks q.id hand ne))
  Covered-other q s ne (inr (in_ws, attempted c i step t)) = inr (
    (λ k. in_ws k.1),
    attempted c i step
        (t ∙ ap (λ n. (if c then 1 else 0) + n) (times-other w.id b hs ks q.id hand ne)),
  )

  Covered-step :
      All (λ v. v.id ≢ w.id) ws
      → (q r s : OutboundRow) → Served w.id b q r
      → Covered ws ks ls r s
      → Covered (w ∷ ws) hs ls q s
  Covered-step d q r s (inl (ne, e)) k =
      Covered-other q s ne (subst (λ x. Covered ws ks ls x s) e k)
  Covered-step d q r s (inr (at, at', step)) (inr (in_ws, a)) = absurd (in_ws (rw at' d))
  Covered-step d q r s (inr (at, at', step)) (inl (out, f, t)) = inr (
    (λ k. k.0 (sym at)),
    attempted b (ap (λ r. r.id) f ∙ (at' ∙ sym at)) (rw f step)
        (rw at ((rw at' at t) ∙ times-own w.id b hs ks hand)),
  )

Covered-none : (hs : List Handed) (rows : List OutboundRow) → Each (Covered [] hs hs) rows rows
Covered-none hs [] = tt
Covered-none hs (q ∷ rows) = (inl (tt, refl, refl), Covered-none hs rows)

Covered-Attended :
    (ws : List OutboundWork) (hs hs' : List Handed) (q q' : OutboundRow)
    → Covered ws hs hs' q q'
    → Attended hs hs' q q'
Covered-Attended ws hs hs' q q' (inl (out, e, t)) = untouched e t
Covered-Attended ws hs hs' q q' (inr (in_ws, a)) = a

Due-Waits :
    (rows : List OutboundRow) (ws : List OutboundWork)
    → Apart rows
    → All (Due rows) ws
    → All (Waits rows) ws
Due-Waits rows [] a h = tt
Due-Waits rows (w ∷ ws) a ((q, m, at, e), h) =
    ((λ q' m' at'. rw (Apart-unique rows q' q a m' m (at' ∙ sym at)) e), Due-Waits rows ws a h)

module _ (env : Env) (c : Client) (host : Host) (fl : Floats) where
  send_rows-Covered :
      (ws : List OutboundWork) (o : Outbox)
      → Distinct ws
      → All (Waits o.bridge.world.db.outbound) ws
      → Each
          (Covered ws o.handed (send_rows env c host fl ws o).handed)
          o.bridge.world.db.outbound
          (send_rows env c host fl ws o).bridge.world.db.outbound
  unfolding send_rows
  send_rows-Covered [] o d k = Covered-none o.handed o.bridge.world.db.outbound
  send_rows-Covered (w ∷ ws) o d k =
      let (b, hand, moved) = send_outbound_row-Served env c host fl w o k.0 in
      let o' = send_outbound_row env c host fl w o in
      let rest = send_rows-Covered ws o' d.1 (
        Waits-All w.id b o.bridge.world.db.outbound o'.bridge.world.db.outbound ws moved d.0 k.1) in
      Each-trans _ _ _
        (Covered-step w ws b o.handed o'.handed (send_rows env c host fl ws o').handed hand d.0)
        o.bridge.world.db.outbound o'.bridge.world.db.outbound _ moved rest

-- A tick refines an abstract queue: over a wa_outbound with unique ids, when the rows that the
-- query returned are worked through, whatever the server, WhatsApp and the file host answer, each
-- row of the table is either untouched and not handed over, or takes one step of a waiting row:
-- kept, one attempt more and still below five, given up, or sent, the last only if the tick handed
-- it to WhatsApp; and no row is handed over more than once.
pub send_rows-Attended :
    (env : Env) (c : Client) (host : Host) (fl : Floats) (o : Outbox) (ws : List OutboundWork)
    → Apart o.bridge.world.db.outbound
    → (read_batch env o.bridge.world).0 ≡ ok ws
    → (let o' = send_rows env c host fl ws (at_world (read_batch env o.bridge.world).1 o) in
        Each (Attended o.handed o'.handed) o.bridge.world.db.outbound o'.bridge.world.db.outbound)
send_rows-Attended env c host fl o ws a h =
    let rows = o.bridge.world.db.outbound in
    let o1 = at_world (read_batch env o.bridge.world).1 o in
    let same = ap (λ d. d.outbound) ((read_batch-Reads env).kept o.bridge.world) in
    let (d, due) = IsReading-Distinct rows ws a ((read_batch-Reads env).read o.bridge.world ws h) in
    let o' = send_rows env c host fl ws o1 in
    let waits = subst (λ x. All (Waits x) ws) (sym same) (Due-Waits rows ws a due) in
    subst (λ x. Each (Attended o.handed o'.handed) x o'.bridge.world.db.outbound) same
      (Each-map _ _ (Covered-Attended ws o.handed o'.handed) o1.bridge.world.db.outbound
        o'.bridge.world.db.outbound (send_rows-Covered env c host fl ws o1 d waits))
