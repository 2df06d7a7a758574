-- ===== src/Store/Outbound/Claim.antt =====
-- How a row of wa_outbound gets its message id, and the writes that leave wa_outbound alone.
use enviadores_wabridge.Prelude.{
  ℕ, ◌≡◌, refl, ◌∙◌, sym, ap, String, Bool, true, false, none, some, List, [], ◌∷◌, eqb,
  if◌then◌else◌, length, arith, inl, inr, Bool-cases, Mem,
}
use mathlib.Core.Bool.{false≢true}
use enviadores_wabridge.Store.Failure.{ok, feature_error_code}
use enviadores_wabridge.Store.Tables.{Message, OutboundRow, Db, update_where, filter_where}
use enviadores_wabridge.Store.Exec.{Env, World, exec_with}
use enviadores_wabridge.Store.Fallback.{legacy}
use enviadores_wabridge.Store.Fallback.Keeps.{Keeps, Keeps-exec, Keeps-exec_with, Keeps-fallback}
use enviadores_wabridge.Store.Messages.{insert_ignore, with_columns, insert_message}
use enviadores_wabridge.Store.Messages.Insert.{Keeps-insert_message}
use enviadores_wabridge.Store.Chats.{Chat, upsert_table, upsert_chat}
use enviadores_wabridge.Store.Outbound.{
  update_outbound, unclaimed, claim_row, claim_new_chat_message_id, sent_row, mark_new_chat_sent,
}
use enviadores_wabridge.Store.Outbound.Ids.{
  IsUnique, IsAssigned, Continues, Advances-trans, Advances-IsAssigned, After,
  update_where-Advances, Mem-update_where,
}

pub unclaimed-none :
    (id : ℕ) (r : OutboundRow)
    → unclaimed id r ≡ true
    → (r.whatsapp_message_id ≡ none) × (r.id ≡ id)
unclaimed-none id r h = ground arith

claim-Continues :
    (id : ℕ) (wa_id : String) (r : OutboundRow)
    → unclaimed id r ≡ true
    → Continues r (claim_row wa_id r)
claim-Continues id wa_id r h = record {
  id = refl;
  wa = λ x e. let (n, _) = unclaimed-none id r h in cc;
}

filter_some :
    (p : OutboundRow → Bool) (rows : List OutboundRow)
    → eqb (length (filter_where p rows)) 1 ≡ true
    → (q : OutboundRow) × Mem q rows × (p q ≡ true)
unfolding filter_where
filter_some p [] h = absurd (ground arith)
filter_some p (x ∷ rows) h = elim (Bool-cases (p x)) [
  | inl e ↦ (x, inl refl, e)
  | inr e ↦ let (q, m, k) = filter_some p rows (rw e at h) in (q, inr m, k)
]

module _ (rows : List OutboundRow) where
  pub claim-After :
      (env : Env) (id : ℕ) (wa_id : String)
      → Keeps (After rows) (claim_new_chat_message_id env id wa_id)
  unfolding claim_new_chat_message_id
  claim-After env id wa_id = Keeps-exec_with env _ λ now db a. Advances-trans a (
      update_where-Advances (unclaimed id) (claim_row wa_id) db.outbound
        (λ r _. claim-Continues id wa_id r))

  pub upsert_chat-After : (env : Env) (c : Chat) → Keeps (After rows) (upsert_chat env c)
  unfolding upsert_chat upsert_table
  upsert_chat-After env c = Keeps-exec env _ λ now db a. ground (arith, a)

  insert_ignore-After : (m : Message) (db : Db) → After rows db → After rows (insert_ignore m db)
  unfolding insert_ignore
  insert_ignore-After m db a = ground (arith, a)

  pub insert_message-After : (env : Env) (m : Message) → Keeps (After rows) (insert_message env m)
  insert_message-After env m =
      Keeps-insert_message env m (λ q l db. insert_ignore-After (with_columns q l m) db)

  -- The stamp of a sent row writes the id that the row has already.
  pub mark_new_chat_sent-After :
      (env : Env) (id : ℕ) (wa_id : String)
      → IsAssigned id wa_id rows
      → Keeps (After rows) (mark_new_chat_sent env id wa_id)
  unfolding mark_new_chat_sent update_outbound legacy
  mark_new_chat_sent-After env id wa_id h =
      let same = λ (b : Bool) (now : ℕ) (db : Db) (a : After rows db). Advances-trans a (
        update_where-Advances (λ r. eqb r.id id) (sent_row b wa_id now) db.outbound
          (λ r m e. record {
            id = refl;
            wa = λ x k. sym (Advances-IsAssigned id wa_id a h r m (ground arith)) ∙ k;
          })) in
      Keeps-fallback feature_error_code _ _ tt (Keeps-exec env _ (same true))
        (Keeps-exec env _ (same false))

-- The answer of a claim: the statement was done, and its WHERE held of some row.
claimed :
    (env : Env) (id : ℕ) (wa_id : String) (w : World)
    → (claim_new_chat_message_id env id wa_id w).0 ≡ ok true
    → ((claim_new_chat_message_id env id wa_id w).1.db.outbound
        ≡ update_where (unclaimed id) (claim_row wa_id) w.db.outbound)
      × (eqb (length (filter_where (unclaimed id) w.db.outbound)) 1 ≡ true)
unfolding claim_new_chat_message_id exec_with
claimed env id wa_id w h = ground arith

-- Over a wa_outbound with unique ids, a claim that answers yes gives the row its message id, and
-- the row had none before.
pub claim_yes :
    (env : Env) (id : ℕ) (wa_id : String) (w : World)
    → IsUnique w.db.outbound
    → (claim_new_chat_message_id env id wa_id w).0 ≡ ok true
    → IsAssigned id wa_id (claim_new_chat_message_id env id wa_id w).1.db.outbound
      × ((q : OutboundRow) × Mem q w.db.outbound × (q.id ≡ id) × (q.whatsapp_message_id ≡ none))
claim_yes env id wa_id w u h =
    let (db', n) = claimed env id wa_id w h in
    let (q, m, k) = filter_some (unclaimed id) w.db.outbound n in
    let (no_id, at) = unclaimed-none id q k in
    (
      rw db' (λ r mr e.
          let (s, ms, c) = Mem-update_where (unclaimed id) (claim_row wa_id) w.db.outbound r mr in
          given s ms q m k c e),
      (q, m, at, no_id),
    )
  where
    given :
        (s : OutboundRow)
        → Mem s w.db.outbound
        → (q : OutboundRow) → Mem q w.db.outbound
        → unclaimed id q ≡ true
        → {r : OutboundRow} → r ≡ (if unclaimed id s then claim_row wa_id s else s)
        → r.id ≡ id
        → r.whatsapp_message_id ≡ some wa_id
    given s ms q m k {r} c e = elim (Bool-cases (unclaimed id s)) [
      | inl y ↦ ap (λ r. r.whatsapp_message_id) (rw y at c)
      | inr y ↦
          let c' : r ≡ s = rw y at c in
          let same = u s q ms m (ap (λ r. r.id) (sym c') ∙ (e ∙ sym (unclaimed-none id q k).1)) in
          absurd (false≢true (sym y ∙ (ap (unclaimed id) same ∙ k)))
    ]
