-- ===== src/Store/Outbound/Ids.antt =====
-- The message ids of wa_outbound: a write of the store may give an id to a row that has none, and
-- never takes a row's id away or changes it.
use enviadores_wabridge.Prelude.{
  ℕ, ◌+◌, ◌≡◌, refl, ◌∙◌, sym, ap, subst, String, Bool, true, false, some, List, [], ◌∷◌, eqb, leb,
  if◌then◌else◌, inl, inr, Bool-cases, Mem,
}
use enviadores_wabridge.Text.Utf8.{Bytes}
use enviadores_wabridge.Text.Cut.{byte_cut}
use enviadores_wabridge.Store.Failure.{feature_error_code}
use enviadores_wabridge.Store.Tables.{OutboundRow, Db, update_where}
use enviadores_wabridge.Store.Exec.{Env}
use enviadores_wabridge.Store.Fallback.{legacy}
use enviadores_wabridge.Store.Fallback.Keeps.{Keeps, Keeps-exec, Keeps-fallback}
use enviadores_wabridge.Store.Outbound.{
  outbound_max_attempts, update_outbound, failure_message, failed_row, fail_outbound,
  set_outbound_chat, mark_attempt, attempted_row,
}

-- The primary key of wa_outbound.
abbrev pub IsUnique : List OutboundRow → Type 0
IsUnique rows = (r q : OutboundRow) → Mem r rows → Mem q rows → r.id ≡ q.id → r ≡ q

-- Whichever rows have this id, WhatsApp's message id on them is `wa_id`.
abbrev pub IsAssigned : ℕ → String → List OutboundRow → Type 0
IsAssigned id wa_id rows =
    (r : OutboundRow) → Mem r rows → r.id ≡ id → r.whatsapp_message_id ≡ some wa_id

-- `r'` is the row `r` later on: the same id, and the message id if it had one.
pub record Continues (r r' : OutboundRow) : Type 0 where
  pub id : r'.id ≡ r.id
  pub wa :
      (wa_id : String) → r.whatsapp_message_id ≡ some wa_id → r'.whatsapp_message_id ≡ some wa_id

abbrev pub Extends : List OutboundRow → List OutboundRow → Type 0
Extends rows rows' =
    (r' : OutboundRow) → Mem r' rows' → (r : OutboundRow) × Mem r rows × Continues r r'

-- What a write may do to wa_outbound.
pub record Advances (rows rows' : List OutboundRow) : Type 0 where
  pub unique : IsUnique rows → IsUnique rows'
  pub extends : Extends rows rows'

pub Continues-refl : (r : OutboundRow) → Continues r r
Continues-refl r = record { id = refl; wa = λ _ h. h }

Continues-trans : {r q s : OutboundRow} → Continues r q → Continues q s → Continues r s
Continues-trans c d = record { id = d.id ∙ c.id; wa = λ x h. d.wa x (c.wa x h) }

pub Advances-refl : (rows : List OutboundRow) → Advances rows rows
Advances-refl rows = record { unique = λ u. u; extends = λ r m. (r, m, Continues-refl r) }

pub Advances-trans : {a b c : List OutboundRow} → Advances a b → Advances b c → Advances a c
Advances-trans f g = record {
  unique = λ u. g.unique (f.unique u);
  extends = λ r m.
      let (q, n, c) = g.extends r m in let (p, o, d) = f.extends q n in (p, o, Continues-trans d c);
}

pub Advances-IsAssigned :
    {rows rows' : List OutboundRow} (id : ℕ) (wa_id : String)
    → Advances rows rows'
    → IsAssigned id wa_id rows
    → IsAssigned id wa_id rows'
Advances-IsAssigned id wa_id a h r m e =
    let (q, n, c) = a.extends r m in c.wa wa_id (h q n (sym c.id ∙ e))

module _ (p : OutboundRow → Bool) (f : OutboundRow → OutboundRow) where
  pub Mem-update_where :
      (rows : List OutboundRow) (r : OutboundRow)
      → Mem r (update_where p f rows)
      → (q : OutboundRow) × Mem q rows × (r ≡ (if p q then f q else q))
  unfolding update_where
  Mem-update_where [] r m = absurd m
  Mem-update_where (x ∷ rows) r (inl e) = (x, inl refl, e)
  Mem-update_where (x ∷ rows) r (inr m) = let (q, n, e) = Mem-update_where rows r m in (q, inr n, e)

  -- An update that continues each row that it changes.
  pub update_where-Advances :
      (rows : List OutboundRow)
      → ((r : OutboundRow) → Mem r rows → p r ≡ true → Continues r (f r))
      → Advances rows (update_where p f rows)
  update_where-Advances rows h = record {
    unique = λ u r s m n e.
        let (q, m', a) = Mem-update_where rows r m in
        let (t, n', b) = Mem-update_where rows s n in
        let same = u q t m' n' (
          sym (continued q m').id
          ∙ (ap (λ r. r.id) (sym a) ∙ (e ∙ (ap (λ r. r.id) b ∙ (continued t n').id)))) in
        a ∙ (ap (λ q. if p q then f q else q) same ∙ sym b);
    extends = λ r m.
        let (q, n, e) = Mem-update_where rows r m in
        (q, n, subst (Continues q) (sym e) (continued q n));
  }
    where
      continued : (q : OutboundRow) → Mem q rows → Continues q (if p q then f q else q)
      continued q n = elim (Bool-cases (p q)) [
        | inl e ↦ rw e (h q n e)
        | inr e ↦ rw e (Continues-refl q)
      ]

-- The database as `rows` left it.
abbrev pub After : List OutboundRow → Db → Type 0
After rows db = Advances rows db.outbound

module _ (rows : List OutboundRow) (id : ℕ) where
  update_outbound-After :
      (f : OutboundRow → OutboundRow) (db : Db)
      → ((r : OutboundRow) → Continues r (f r))
      → After rows db
      → After rows (update_outbound id f db)
  unfolding update_outbound
  update_outbound-After f db c a =
      Advances-trans a (update_where-Advances (λ r. eqb r.id id) f db.outbound (λ r _ _. c r))

  pub fail_outbound-After :
      (env : Env) (attempts : ℕ) (code : String) (detail : Bytes)
      → Keeps (After rows) (fail_outbound env id attempts code detail)
  unfolding fail_outbound legacy
  fail_outbound-After env attempts code detail =
      let same = λ (b : Bool) (now : ℕ) (db : Db).
        update_outbound-After (failed_row b attempts (failure_message code detail) code now) db
          (λ r. record { id = refl; wa = λ _ h. h }) in
      Keeps-fallback feature_error_code _ _ tt (Keeps-exec env _ (same true))
        (Keeps-exec env _ (same false))

  pub mark_attempt-After :
      (env : Env) (attempts : ℕ) (code : String) (msg : Bytes)
      → Keeps (After rows) (mark_attempt env id attempts code msg)
  unfolding mark_attempt
  mark_attempt-After env attempts code msg =
      elim (Bool-cases (leb outbound_max_attempts (attempts + 1))) [
        | inl e ↦ rw e (fail_outbound-After env (attempts + 1) code (byte_cut 500 msg))
        | inr e ↦ rw e (
            Keeps-exec env _ λ now db.
              update_outbound-After (attempted_row (attempts + 1) (byte_cut 500 msg) now) db
                (λ r. record { id = refl; wa = λ _ h. h }))
      ]

  pub set_outbound_chat-After :
      (env : Env) (jid : String) → Keeps (After rows) (set_outbound_chat env id jid)
  unfolding set_outbound_chat
  set_outbound_chat-After env jid = Keeps-exec env _ λ now db.
      update_outbound-After (λ r. record r { chat_jid = some jid }) db
        (λ r. record { id = refl; wa = λ _ h. h })
