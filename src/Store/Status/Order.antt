-- ===== src/Store/Status/Order.antt =====
-- Receipts in any order: statuses only rise, and the order of arrival does not matter.
use enviadores_wabridge.Prelude.{
  ℕ, zero, suc, ◌≡◌, ◌≤◌, ◌<◌, refl, ◌∙◌, sym, ap, String, Bool, true, false, ◌&&◌, ◌||◌, Option,
  none, some, List, [], ◌∷◌, ◌==◌, eq_iff, if◌then◌else◌, any, arith, Bool-cases, Option-cases, inl,
  inr, ◌⊎◌, ltb, Each, Each-refl,
}
use enviadores_wabridge.Store.Failure.{ok}
use enviadores_wabridge.Store.Tables.{MessageRow, update_where}
use enviadores_wabridge.Store.Exec.{Env, World, exec, exec_with, done, ◌>>◌}
use enviadores_wabridge.Store.Messages.{is_empty}
use enviadores_wabridge.Store.Fallback.Keeps.{exec_cases}
use enviadores_wabridge.Store.Status.{
  rank, ranks, below, allowed_current, status_in, mark_rows, mark_messages_status,
}

-- The status is absent or of a lower rank: what a receipt of that rank may overwrite.
abbrev pub lower : ℕ → Option String → Bool
lower target none = true
lower target (some s) = elim (rank s) [ none ↦ false | some n ↦ ltb n target ]

any_below : ℕ → String → List (String × ℕ) → Bool
any_below t s [] = false
any_below t s ((name, n) ∷ rest) = (ltb n t && name == s) || any_below t s rest

any-below :
    (t : ℕ) (s : String) (table : List (String × ℕ))
    → any (λ c. c == s) (below t table) ≡ any_below t s table
unfolding below any_below
any-below t s [] = refl
any-below t s ((name, n) ∷ rest) = ground (arith, any-below t s rest)

-- A text is one name at most.
one_name : (a b s : String) → (a == b) ≡ false → (a == s) ≡ true → (b == s) ≡ false
one_name a b s ne h = ground (arith, eq_iff a s, eq_iff b s, eq_iff a b)

allowed-lower :
    (target : ℕ) (s : Option String) → status_in (allowed_current target) s ≡ lower target s
unfolding allowed_current rank any_below
allowed-lower target none = refl
allowed-lower target (some s) = rw (any-below target s ranks) (
    ground (
      arith,
      one_name "received" "sent" s refl,
      one_name "received" "delivered" s refl,
      one_name "received" "read" s refl,
      one_name "sent" "delivered" s refl,
      one_name "sent" "read" s refl,
      one_name "delivered" "read" s refl,
    ))

rank-lt : (s : String) (n : ℕ) → rank s ≡ some n → n < 4
unfolding rank
rank-lt s n h = ground arith

abbrev name_of : ℕ → String
name_of zero = "received"
name_of (suc zero) = "sent"
name_of (suc (suc zero)) = "delivered"
name_of (suc (suc (suc n))) = "read"

rank-name_of : (s : String) (n : ℕ) → rank s ≡ some n → s ≡ name_of n
unfolding rank
rank-name_of s n h =
    ground (arith, eq_iff "received" s, eq_iff "sent" s, eq_iff "delivered" s, eq_iff "read" s)

-- One row under one receipt.
mark_row : List String → String → ℕ → MessageRow → MessageRow
mark_row ids s t r =
    if any (λ i. i == r.id) ids && r.from_me && lower t r.status
    then record r { message = record r.message { status = some s } }
    else r

mark_rows-cons :
    (ids : List String) (s : String) (t : ℕ) (r : MessageRow) (rs : List MessageRow)
    → mark_rows ids s (allowed_current t) (r ∷ rs)
      ≡ mark_row ids s t r ∷ mark_rows ids s (allowed_current t) rs
unfolding mark_rows mark_row update_where
mark_rows-cons ids s t r rs = rw (allowed-lower t r.status)

mark_row_comm :
    (ids ids' : List String) (a b : String) (ta tb : ℕ) (r : MessageRow)
    → rank a ≡ some ta
    → rank b ≡ some tb
    → mark_row ids a ta (mark_row ids' b tb r) ≡ mark_row ids' b tb (mark_row ids a ta r)
unfolding mark_row
mark_row_comm ids ids' a b ta tb r h k =
    ground (arith, h, k, rank-name_of a ta h, rank-name_of b tb k)

mark_rows_comm :
    (ids ids' : List String) (a b : String) (ta tb : ℕ) (rs : List MessageRow)
    → rank a ≡ some ta
    → rank b ≡ some tb
    → mark_rows ids a (allowed_current ta) (mark_rows ids' b (allowed_current tb) rs)
      ≡ mark_rows ids' b (allowed_current tb) (mark_rows ids a (allowed_current ta) rs)
mark_rows_comm ids ids' a b ta tb [] h k = unfold mark_rows update_where in refl
mark_rows_comm ids ids' a b ta tb (r ∷ rs) h k = rw (
  mark_rows-cons ids' b tb r rs,
  mark_rows-cons ids a ta (mark_row ids' b tb r) (mark_rows ids' b (allowed_current tb) rs),
  mark_rows-cons ids a ta r rs,
  mark_rows-cons ids' b tb (mark_row ids a ta r) (mark_rows ids a (allowed_current ta) rs),
  mark_row_comm ids ids' a b ta tb r h k,
  mark_rows_comm ids ids' a b ta tb rs h k,
)

-- The rows after a call whose statement is done.
marked : List String → String → Option ℕ → List MessageRow → List MessageRow
marked ids s none rs = rs
marked [] s (some t) rs = rs
marked (i ∷ ids) s (some t) rs =
    if is_empty (allowed_current t) then rs else mark_rows (i ∷ ids) s (allowed_current t) rs

module _ (env : Env) (up : (n : ℕ) → env.outcome n ≡ done) where
  mark_done :
      (ids : List String) (s : String) (t : ℕ) (w : World)
      → rank s ≡ some t
      → ((mark_messages_status env ids s w).0 ≡ ok tt)
        × ((mark_messages_status env ids s w).1.db.messages ≡ marked ids s (some t) w.db.messages)
  unfolding mark_messages_status exec exec_with marked
  mark_done [] s t w h = (refl, refl)
  mark_done (i ∷ ids) s t w h = ground (arith, h, up w.statements)

marked_comm :
    (ids ids' : List String) (a b : String) (ta tb : ℕ) (rs : List MessageRow)
    → rank a ≡ some ta
    → rank b ≡ some tb
    → marked ids a (some ta) (marked ids' b (some tb) rs)
      ≡ marked ids' b (some tb) (marked ids a (some ta) rs)
unfolding marked
marked_comm [] ids' a b ta tb rs h k = refl
marked_comm (i ∷ ids) [] a b ta tb rs h k = refl
marked_comm (i ∷ ids) (j ∷ ids') a b ta tb rs h k =
    ground (arith, mark_rows_comm (i ∷ ids) (j ∷ ids') a b ta tb rs h k)

abbrev pub IsSome {ℓ} : {A : Type ℓ} → Option A → Type 0
IsSome none = ⊥
IsSome (some a) = Unit

known {ℓ} : {A : Type ℓ} (o : Option A) → IsSome o → (a : A) × (o ≡ some a)
known none h = absurd h
known (some a) h = (a, refl)

both_marked :
    (env : Env) (up : (n : ℕ) → env.outcome n ≡ done) (ids ids' : List String) (a b : String)
    (ta tb : ℕ) (w : World)
    → rank a ≡ some ta
    → rank b ≡ some tb
    → ((mark_messages_status env ids a >> mark_messages_status env ids' b) w).1.db.messages
      ≡ marked ids' b (some tb) (marked ids a (some ta) w.db.messages)
both_marked env up ids ids' a b ta tb w h k =
    let first = mark_done env up ids a ta w h in
    rw (first.0) (
      (mark_done env up ids' b tb (mark_messages_status env ids a w).1 k).1
      ∙ ap (marked ids' b (some tb)) first.1)

-- With a server that does every statement, two receipts for any messages and any two known
-- statuses leave the same rows in either order.
pub mark_messages_status_comm :
    (env : Env) (ids ids' : List String) (a b : String) (w : World)
    → ((n : ℕ) → env.outcome n ≡ done)
    → IsSome (rank a)
    → IsSome (rank b)
    → ((mark_messages_status env ids a >> mark_messages_status env ids' b) w).1.db.messages
      ≡ ((mark_messages_status env ids' b >> mark_messages_status env ids a) w).1.db.messages
mark_messages_status_comm env ids ids' a b w up h k =
    let (ta, ha) = known (rank a) h in
    let (tb, hb) = known (rank b) k in
    both_marked env up ids ids' a b ta tb w ha hb
    ∙ sym (marked_comm ids ids' a b ta tb w.db.messages ha hb)
    ∙ sym (both_marked env up ids' ids b a tb ta w hb ha)

-- How far a status has come: none, the ranked ones, and those that no receipt may replace.
abbrev pub level : Option String → ℕ
level none = 0
level (some s) = elim (rank s) [ none ↦ 5 | some n ↦ suc n ]

-- What a receipt may do to a row.
pub record Forward (r r' : MessageRow) : Type 0 where
  pub rises : level r.status ≤ level r'.status
  pub inbound : (r.from_me ≡ true) ⊎ (r' ≡ r)
  pub final : (level r.status < 5) ⊎ (r' ≡ r)
  pub status_only : record r' { message = record r'.message { status = r.status } } ≡ r

pub Forward-refl : (r : MessageRow) → Forward r r
Forward-refl r = record {
  rises = omega arith;
  inbound = inr refl;
  final = inr refl;
  status_only = refl;
}

lower-final : (t : ℕ) (o : Option String) → t < 4 → level o ≡ 5 → lower t o ≡ false
lower-final t none h e = absurd (omega arith)
lower-final t (some s) h e = elim (Option-cases (rank s)) [
  | inl u ↦ rw (u, lower) refl
  | inr (n, u) ↦ absurd (ground (arith, rank-lt s n u))
]

level-cases : (o : Option String) → (level o < 5) ⊎ (level o ≡ 5)
level-cases none = inl (omega arith)
level-cases (some s) = elim (Option-cases (rank s)) [
  | inl u ↦ inr (rw (u, level) refl)
  | inr (n, u) ↦ inl (rw (u, level) (omega (arith, rank-lt s n u)))
]

mark_row-Forward :
    (ids : List String) (s : String) (t : ℕ) (r : MessageRow)
    → rank s ≡ some t
    → Forward r (mark_row ids s t r)
unfolding mark_row
mark_row-Forward ids s t r h = record {
  rises = ground arith;
  inbound = elim (Bool-cases r.from_me) [ inl o ↦ inl o | inr i ↦ inr (ground arith) ];
  final = elim (level-cases r.status) [
    | inl l ↦ inl l
    | inr f ↦ inr (ground (arith, lower-final t r.status (rank-lt s t h) f))
  ];
  status_only = ground arith;
}

mark_rows-Forward :
    (ids : List String) (s : String) (t : ℕ) (rs : List MessageRow)
    → rank s ≡ some t
    → Each Forward rs (mark_rows ids s (allowed_current t) rs)
mark_rows-Forward ids s t [] h = unfold mark_rows update_where in tt
mark_rows-Forward ids s t (r ∷ rs) h =
    rw (mark_rows-cons ids s t r rs) (mark_row-Forward ids s t r h, mark_rows-Forward ids s t rs h)

-- Whatever the server answers, a receipt moves statuses forward only, and leaves every other
-- column, every inbound row and every row with a status outside the ranks (such as failed) as it
-- was.
pub mark_messages_status-Forward :
    (env : Env) (ids : List String) (s : String) (w : World)
    → Each Forward w.db.messages (mark_messages_status env ids s w).1.db.messages
unfolding mark_messages_status
mark_messages_status-Forward env [] s w = Each-refl Forward Forward-refl w.db.messages
mark_messages_status-Forward env (i ∷ ids) s w = elim (Option-cases (rank s)) [
  | inl u ↦ rw u (Each-refl Forward Forward-refl w.db.messages)
  | inr (t, u) ↦ elim (Bool-cases (is_empty (allowed_current t))) [
    | inl e ↦ rw (u, e) (Each-refl Forward Forward-refl w.db.messages)
    | inr e ↦
        rw (u, e)
          (elim (exec_cases env
            (λ now db. record db {
              messages = mark_rows (i ∷ ids) s (allowed_current t) db.messages;
            })
            w) [
              | inl same ↦ rw same (Each-refl Forward Forward-refl w.db.messages)
              | inr new ↦ rw new (mark_rows-Forward (i ∷ ids) s t w.db.messages u)
            ])
  ]
]
