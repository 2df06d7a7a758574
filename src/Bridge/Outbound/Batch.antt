-- ===== src/Bridge/Outbound/Batch.antt =====
-- What queryPendingOutbound of internal/wabridge/wabridge.go reads: rows of the table that are due,
-- no two with one id.
pub mod Reads
use enviadores_wabridge.Prelude.{
  ℕ, zero, suc, ◌≡◌, ◌≢◌, refl, sym, ◌∙◌, ap, inl, inr, String, Bool, true, false, Option, none,
  some, List, [], ◌∷◌, if◌then◌else◌, leb, take, arith, All, Mem, Bool-cases, if-cases,
}
use enviadores_wabridge.Store.Failure.{Result, ok, err, is_unknown_column, column_owner}
use enviadores_wabridge.Store.Tables.{OutboundRow}
use enviadores_wabridge.Store.Exec.{Env, World, M, query, feature_off}
use enviadores_wabridge.Store.Fallback.{fallback, legacy, after_new, switch_off, owned_elsewhere}
use enviadores_wabridge.Store.Fallback.Keeps.{switch_off-db}
use enviadores_wabridge.Bridge.Outbound.{
  feature_outbound_quote, OutboundWork, sendable, insert_by_id, sorted_where, scan_row, scan_more,
  scan_rows, query_pending_outbound, read_batch,
}
use enviadores_wabridge.Bridge.Outbound.Steps.{waiting, stage}

-- No two rows, and no two works, with one id.
abbrev pub Apart : List OutboundRow → Type 0
Apart [] = Unit
Apart (r ∷ rs) = All (λ q. q.id ≢ r.id) rs × Apart rs

abbrev pub Distinct : List OutboundWork → Type 0
Distinct [] = Unit
Distinct (w ∷ ws) = All (λ v. v.id ≢ w.id) ws × Distinct ws

-- The work is a row of the table that is due.
abbrev pub Due : List OutboundRow → OutboundWork → Type 0
Due rows w = (q : OutboundRow) × Mem q rows × (q.id ≡ w.id) × (stage q ≡ waiting w.attempts)

-- `r` is a row that the condition selects.
abbrev Selected : (OutboundRow → Bool) → List OutboundRow → OutboundRow → Type 0
Selected p rows r = Mem r rows × (p r ≡ true)

pub All-map :
    {A : Type 0} (P Q : A → Type 0) → ((a : A) → P a → Q a) → (xs : List A) → All P xs → All Q xs
All-map P Q f [] h = tt
All-map P Q f (x ∷ xs) h = (f x h.0, All-map P Q f xs h.1)

pub All-take : {A : Type 0} (P : A → Type 0) (n : ℕ) (xs : List A) → All P xs → All P (take n xs)
All-take P zero xs h = tt
All-take P (suc n) [] h = tt
All-take P (suc n) (x ∷ xs) h = (h.0, All-take P n xs h.1)

pub Apart-take : (n : ℕ) (rs : List OutboundRow) → Apart rs → Apart (take n rs)
Apart-take zero rs h = tt
Apart-take (suc n) [] h = tt
Apart-take (suc n) (r ∷ rs) h = (All-take (λ q. q.id ≢ r.id) n rs h.0, Apart-take n rs h.1)

insert_by_id-All :
    (P : OutboundRow → Type 0) (r : OutboundRow) (qs : List OutboundRow)
    → P r
    → All P qs
    → All P (insert_by_id r qs)
unfolding insert_by_id
insert_by_id-All P r [] h k = (h, tt)
insert_by_id-All P r (q ∷ qs) h k =
    if-cases (All P) (leb r.id q.id) (h, k) (k.0, insert_by_id-All P r qs h k.1)

insert_by_id-Apart :
    (r : OutboundRow) (qs : List OutboundRow)
    → All (λ q. q.id ≢ r.id) qs
    → Apart qs
    → Apart (insert_by_id r qs)
unfolding insert_by_id
insert_by_id-Apart r [] h k = (tt, tt)
insert_by_id-Apart r (q ∷ qs) h k =
    if-cases Apart (leb r.id q.id) (h, k)
      (
        insert_by_id-All (λ x. x.id ≢ q.id) r qs (λ e. h.0 (sym e)) k.0,
        insert_by_id-Apart r qs h.1 k.1,
      )

pub All-Mem :
    (P : OutboundRow → Type 0) (rows : List OutboundRow)
    → All P rows
    → (q : OutboundRow) → Mem q rows
    → P q
All-Mem P [] h q m = absurd m
All-Mem P (r ∷ rows) h q (inl e) = rw e h.0
All-Mem P (r ∷ rows) h q (inr m) = All-Mem P rows h.1 q m

module _ (p : OutboundRow → Bool) where
  pub sorted_where-All :
      (P : OutboundRow → Type 0) (rows : List OutboundRow)
      → ((r : OutboundRow) → Mem r rows → p r ≡ true → P r)
      → All P (sorted_where p rows)
  unfolding sorted_where
  sorted_where-All P [] h = tt
  sorted_where-All P (r ∷ rows) h =
      let rest = sorted_where-All P rows (λ q m. h q (inr m)) in
      elim (Bool-cases (p r)) [
        | inl e ↦ rw e (insert_by_id-All P r (sorted_where p rows) (h r (inl refl) e) rest)
        | inr e ↦ rw e rest
      ]

  pub sorted_where-Apart : (rows : List OutboundRow) → Apart rows → Apart (sorted_where p rows)
  unfolding sorted_where
  sorted_where-Apart [] h = tt
  sorted_where-Apart (r ∷ rows) h =
      if-cases Apart (p r)
        (insert_by_id-Apart r (sorted_where p rows)
          (sorted_where-All (λ q. q.id ≢ r.id) rows
            (λ q m _. All-Mem (λ q. q.id ≢ r.id) rows h.0 q m))
          (sorted_where-Apart rows h.1))
        (sorted_where-Apart rows h.1)

-- A scanned row keeps its id and its attempts.
scan_row-same :
    (b : Bool) (r : OutboundRow) (w : OutboundWork)
    → scan_row b r ≡ some w
    → (w.id ≡ r.id) × (w.attempts ≡ r.attempts)
scan_row-same b r w h = ground arith

-- The rows of a scan, one for one.
abbrev pub Scanned : List OutboundRow → List OutboundWork → Type 0
Scanned [] [] = Unit
Scanned [] (w ∷ ws) = ⊥
Scanned (r ∷ rs) [] = ⊥
Scanned (r ∷ rs) (w ∷ ws) = (w.id ≡ r.id) × (w.attempts ≡ r.attempts) × Scanned rs ws

pub scan_rows-Scanned :
    (b : Bool) (rs : List OutboundRow) (ws : List OutboundWork)
    → scan_rows b rs ≡ some ws
    → Scanned rs ws
unfolding scan_rows
scan_rows-Scanned b [] [] h = tt
scan_rows-Scanned b [] (w ∷ ws) h = absurd (ground arith)
scan_rows-Scanned b (r ∷ rs) ws h =
    go (scan_row b r) (scan_rows b rs) refl (scan_rows-Scanned b rs) ws h
  where
    go :
        (o : Option OutboundWork) (os : Option (List OutboundWork))
        → scan_row b r ≡ o
        → ((vs : List OutboundWork) → os ≡ some vs → Scanned rs vs)
        → (ws : List OutboundWork) → scan_more o os ≡ some ws
        → Scanned (r ∷ rs) ws
    go none os e es ws k = absurd (ground arith)
    go (some v) none e es ws k = absurd (ground arith)
    go (some v) (some vs) e es [] k = absurd (ground arith)
    go (some v) (some vs) e es (w ∷ ws) k =
        let (at, n) = scan_row-same b r w (ground arith) in (at, n, es ws (ground arith))

pub Apart-unique :
    (rows : List OutboundRow) (q r : OutboundRow)
    → Apart rows
    → Mem q rows
    → Mem r rows
    → q.id ≡ r.id
    → q ≡ r
Apart-unique [] q r a m n e = absurd m
Apart-unique (x ∷ rows) q r a (inl h) (inl k) e = h ∙ sym k
Apart-unique (x ∷ rows) q r a (inl h) (inr n) e =
    absurd (All-Mem _ rows a.0 r n (sym e ∙ ap (λ r. r.id) h))
Apart-unique (x ∷ rows) q r a (inr m) (inl k) e =
    absurd (All-Mem _ rows a.0 q m (e ∙ ap (λ r. r.id) k))
Apart-unique (x ∷ rows) q r a (inr m) (inr n) e = Apart-unique rows q r a.1 m n e
