-- ===== src/Store/Typing/Once.antt =====
-- A typing request is handed out once: what DrainTypingOutbound leaves for the next drain.
use enviadores_wabridge.Prelude.{
  ℕ, zero, suc, ◌≡◌, refl, sym, subst, ◌∙◌, false, ◌&&◌, some, List, [], ◌∷◌, leb, take, if-cases,
  All, inl, inr, Bool-cases, arith,
}
use enviadores_wabridge.Store.Failure.{Result, ok, err}
use enviadores_wabridge.Store.Tables.{TypingRow, Db, update_where}
use enviadores_wabridge.Store.Exec.{
  Env, World, M, in_transaction, query, exec_with, ◌>>=◌, continue,
}
use enviadores_wabridge.Store.Typing.{
  TypingRequest, unprocessed, insert_request, oldest_requests, requests, in_batch, process_batch,
  claim_batch, drain_typing_outbound,
}

-- No unprocessed row of the table is of a chat of the batch.
abbrev Claimed : List TypingRequest → List TypingRow → Type 0
Claimed batch rows = All (λ r. (unprocessed r && in_batch batch r.chat_jid) ≡ false) rows

process_batch-Claimed :
    (batch : List TypingRequest) (now : ℕ) (rows : List TypingRow)
    → Claimed batch (
        update_where
          (λ r. in_batch batch r.chat_jid && unprocessed r)
          (λ r. record r { processed_at = some now })
          rows)
unfolding update_where
process_batch-Claimed batch now [] = tt
process_batch-Claimed batch now (r ∷ rows) = (ground arith, process_batch-Claimed batch now rows)

-- What a drain hands out is of no chat of the batch.
abbrev Fresh : List TypingRequest → List TypingRow → Type 0
Fresh batch rows = All (λ r. in_batch batch r.chat_jid ≡ false) rows

insert_request-Fresh :
    (batch : List TypingRequest) (r : TypingRow) (qs : List TypingRow)
    → in_batch batch r.chat_jid ≡ false
    → Fresh batch qs
    → Fresh batch (insert_request r qs)
unfolding insert_request
insert_request-Fresh batch r [] h k = (h, tt)
insert_request-Fresh batch r (q ∷ qs) h k =
    if-cases (Fresh batch) (leb r.requested_at q.requested_at) (h, k)
      (k.0, insert_request-Fresh batch r qs h k.1)

oldest_requests-Fresh :
    (batch : List TypingRequest) (rows : List TypingRow)
    → Claimed batch rows
    → Fresh batch (oldest_requests rows)
unfolding oldest_requests
oldest_requests-Fresh batch [] h = tt
oldest_requests-Fresh batch (r ∷ rows) h = elim (Bool-cases (unprocessed r)) [
  | inl e ↦ rw e (
      insert_request-Fresh batch r (oldest_requests rows) (rw e at h.0)
        (oldest_requests-Fresh batch rows h.1))
  | inr e ↦ rw e (oldest_requests-Fresh batch rows h.1)
]

requests-Fresh :
    (batch : List TypingRequest) (n : ℕ) (rows : List TypingRow)
    → Fresh batch rows
    → All (λ (t : TypingRequest). in_batch batch t.chat_jid ≡ false) (requests (take n rows))
unfolding requests
requests-Fresh batch zero rows h = tt
requests-Fresh batch (suc n) [] h = tt
requests-Fresh batch (suc n) (r ∷ rows) h = (h.0, requests-Fresh batch n rows h.1)

Claimed-none : (rows : List TypingRow) → Claimed [] rows
Claimed-none [] = tt
Claimed-none (r ∷ rows) = (ground arith, Claimed-none rows)

-- A chain that answers has answered at its first step.
bind_ok :
    {A B : Type 0} (m : M A) (f : A → M B) (w : World) (b : B)
    → ((m >>= f) w).0 ≡ ok b
    → (a : A) × ((m >>= f) w ≡ f a (m w).1) × ((m w).0 ≡ ok a)
bind_ok {A = A} m f w b h = go (m w).0 h
  where
    go :
        (r : Result A)
        → (continue r f (m w).1).0 ≡ ok b
        → (a : A) × (continue r f (m w).1 ≡ f a (m w).1) × (r ≡ ok a)
    go (ok a) k = (a, refl, refl)
    go (err e) k = absurd (ground arith)

in_transaction-db : (env : Env) (w : World) → (in_transaction env w).1.db ≡ w.db
unfolding query
in_transaction-db env w = ground arith

pub query_ok :
    {A : Type 0} (env : Env) (read : ℕ → Db → A) (w : World) (a : A)
    → (query env read w).0 ≡ ok a
    → a ≡ read (env.clock w.statements) w.db
unfolding query
query_ok env read w a h = ground arith

exec_with_ok :
    {A : Type 0} (env : Env) (write : ℕ → Db → Db × A) (w : World) (a : A)
    → (exec_with env write w).0 ≡ ok a
    → (a ≡ (write (env.clock w.statements) w.db).1)
      × ((exec_with env write w).1.db ≡ (write (env.clock w.statements) w.db).0)
unfolding exec_with
exec_with_ok env write w a h = ground arith

-- A drain that answers has nothing to do, or its batch is processed.
claim_batch-Claimed :
    (env : Env) (found batch : List TypingRequest) (w : World)
    → (claim_batch env found w).0 ≡ ok batch
    → Claimed batch (claim_batch env found w).1.db.typing
claim_batch-Claimed env [] batch w h =
    subst (λ b. Claimed b (claim_batch env [] w).1.db.typing)
      (sym (query_ok env (λ now db. []) w batch h)) (Claimed-none _)
claim_batch-Claimed env (t ∷ ts) batch w h =
    let write : ℕ → Db → Db × List TypingRequest =
      λ now db. (process_batch (t ∷ ts) now db, t ∷ ts) in
    let (_, e, _) = bind_ok (in_transaction env) (λ _. exec_with env write) w batch h in
    let v = (in_transaction env w).1 in
    let (b, d) = exec_with_ok env write v batch (rw e at h) in
    rw (e, d, b) (process_batch-Claimed (t ∷ ts) (env.clock v.statements) v.db.typing)

drain-Claimed :
    (env : Env) (limit : ℕ) (w : World) (batch : List TypingRequest)
    → (drain_typing_outbound env limit w).0 ≡ ok batch
    → Claimed batch (drain_typing_outbound env limit w).1.db.typing
unfolding drain_typing_outbound
drain-Claimed env limit w batch h =
    let (_, e, _) = bind_ok (in_transaction env) _ w batch h in
    let (found, f, _) =
      bind_ok (query env _) (claim_batch env) (in_transaction env w).1 batch (rw e at h) in
    rw (e, f) (claim_batch-Claimed env found batch _ (rw (e, f) at h))

-- What a drain hands out was read from the table.
claim_batch-same :
    (env : Env) (found batch : List TypingRequest) (w : World)
    → (claim_batch env found w).0 ≡ ok batch
    → batch ≡ found
claim_batch-same env [] batch w h = query_ok env (λ now db. []) w batch h
claim_batch-same env (t ∷ ts) batch w h =
    let write : ℕ → Db → Db × List TypingRequest =
      λ now db. (process_batch (t ∷ ts) now db, t ∷ ts) in
    let (_, e, _) = bind_ok (in_transaction env) (λ _. exec_with env write) w batch h in
    (exec_with_ok env write (in_transaction env w).1 batch (rw e at h)).0

drained-Fresh :
    (batch : List TypingRequest) (env : Env) (limit : ℕ) (w : World) (found : List TypingRequest)
    → Claimed batch w.db.typing
    → (drain_typing_outbound env limit w).0 ≡ ok found
    → All (λ (t : TypingRequest). in_batch batch t.chat_jid ≡ false) found
unfolding drain_typing_outbound
drained-Fresh batch env limit w found c h =
    let read : ℕ → Db → List TypingRequest =
      λ now db. requests (take limit (oldest_requests db.typing)) in
    let (_, e, _) =
      bind_ok (in_transaction env) (λ _. query env read >>= claim_batch env) w found h in
    let v = (in_transaction env w).1 in
    let (got, f, a) = bind_ok (query env read) (claim_batch env) v found (rw e at h) in
    let same = claim_batch-same env got found _ (rw f at (rw e at h)) in
    subst (All (λ (t : TypingRequest). in_batch batch t.chat_jid ≡ false))
      (sym (same ∙ query_ok env read v got a))
      (requests-Fresh batch limit _
        (oldest_requests-Fresh batch _ (rw (in_transaction-db env w) c)))

-- A typing request is handed out once: when a drain answers, whatever the server does with its
-- statements, and another follows with no new request in between, the second answers no chat of
-- the first.
pub drain_typing_outbound-Fresh :
    (env env' : Env) (limit limit' : ℕ) (w : World) (batch batch' : List TypingRequest)
    → (drain_typing_outbound env limit w).0 ≡ ok batch
    → (drain_typing_outbound env' limit' (drain_typing_outbound env limit w).1).0 ≡ ok batch'
    → All (λ (t : TypingRequest). in_batch batch t.chat_jid ≡ false) batch'
drain_typing_outbound-Fresh env env' limit limit' w batch batch' h h' =
    drained-Fresh batch env' limit' (drain_typing_outbound env limit w).1 batch'
      (drain-Claimed env limit w batch h) h'
