-- ===== src/Store/Edits/Target.antt =====
-- How an edit or a delete finds its row, and that its update meets no other row.
use enviadores_wabridge.Prelude.{
  ℕ, ◌≡◌, refl, ◌∙◌, sym, subst, String, Bool, true, false, ◌||◌, Option, some, List, [], ◌∷◌, ◌==◌,
  eq_iff, eq_refl, any, arith, Bool-cases, inl, inr, ◌⊎◌, &&-split, Each, Each-refl,
}
use mathlib.Core.Bool.{false≢true}
use enviadores_wabridge.Store.Failure.{Result, ok, err, no_rows}
use enviadores_wabridge.Store.Tables.{MessageRow, Db, update_where, find_where}
use enviadores_wabridge.Store.Exec.{Env, World, query, query_row}
use enviadores_wabridge.Store.Invariant.{IsKeyed}
use enviadores_wabridge.Store.Messages.{
  is_empty, locate_message, located, in_chats, row_ref, has_message,
}
use enviadores_wabridge.Store.Edits.{bool_eq, names}

-- The row that the chats and the id select, read out of the tables.
abbrev pub target_row : List String → String → Db → Option MessageRow
target_row chats id db = find_where (in_chats id chats) db.messages

pub locate_same :
    (env : Env) (id : String) (chats : List String) (w : World)
    → (locate_message env id chats w).1.db ≡ w.db
unfolding locate_message query_row query
locate_same env id chats w = ground arith

pub query_row_ok {ℓ} :
    {A : Type ℓ} (env : Env) (read : ℕ → Db → Option A) (w : World) (a : A)
    → (query_row env read w).0 ≡ ok a
    → read (env.clock w.statements) w.db ≡ some a
unfolding query_row query
query_row_ok env read w a h = ground arith

pub located_found :
    (r : Result MessageRow)
    → (located r).found ≡ true
    → (a : MessageRow) × (r ≡ ok a) × ((located r).ref ≡ row_ref a)
located_found (ok a) h = (a, refl, refl)
located_found (err no_rows) h = cc
located_found (err e) h = cc

-- LocateMessage says that it found a row only if the tables hold it, and then says what it is.
pub locate_found :
    (env : Env) (id : String) (chats : List String) (w : World)
    → (locate_message env id chats w).0.found ≡ true
    → (r : MessageRow) × (target_row chats id w.db ≡ some r)
      × ((locate_message env id chats w).0.ref ≡ row_ref r)
unfolding locate_message
locate_found env id chats w h = elim (Bool-cases (id == "" || is_empty chats)) [
  | inl e ↦ absurd (ground (arith, h, e))
  | inr e ↦
      let read = λ (now : ℕ) (db : Db). target_row chats id db in
      let (r, is_ok, ref) = located_found (query_row env read w).0 (rw e at h) in
      rw e (r, query_row_ok env read w r is_ok, ref)
]

-- What an action leaves of the tables: all of them, or one statement's change of the row found.
module _ (w : World) (chats : List String) (id : String) (write : MessageRow → ℕ → Db → Db)
    (allowed : MessageRow → Type 0) where
  abbrev pub Touches : Db → Type 0
  Touches db =
      (db ≡ w.db)
      ⊎ ((r : MessageRow) × (n : ℕ) × (target_row chats id w.db ≡ some r)
          × allowed r
          × (db ≡ write r n w.db))

pub bool_eq_iff : (a b : Bool) → bool_eq a b ≡ true → a ≡ b
bool_eq_iff true b h = sym h
bool_eq_iff false true h = cc
bool_eq_iff false false h = refl

pub some_inj {ℓ} : {A : Type ℓ} (a b : A) → some a ≡ some b → a ≡ b
some_inj a b h = cc

pub find_where-holds {ℓ} :
    {A : Type ℓ} (p : A → Bool) (xs : List A) (a : A) → find_where p xs ≡ some a → p a ≡ true
unfolding find_where
find_where-holds p [] a h = cc
find_where-holds p (x ∷ xs) a h = elim (Bool-cases (p x)) [
  | inl e ↦ subst (λ y. p y ≡ true) (some_inj x a (rw e at h)) e
  | inr e ↦ find_where-holds p xs a (rw e at h)
]

pub update_other :
    (id chat : String) (f : MessageRow → MessageRow) (rs : List MessageRow)
    → has_message id rs ≡ false
    → update_where (names id chat) f rs ≡ rs
unfolding update_where
update_other id chat f [] h = refl
update_other id chat f (r ∷ rs) h = ground (arith, update_other id chat f rs)

pub names-in_chats :
    (id : String) (chats : List String) (x r : MessageRow)
    → in_chats id chats r ≡ true
    → names id r.chat_jid x ≡ true
    → in_chats id chats x ≡ true
names-in_chats id chats x r i n =
    let (same_id, same_chat) = &&-split (x.id == id) (x.chat_jid == r.chat_jid) n in
    let listed = &&-split (r.id == id) (any (λ c. c == r.chat_jid) chats) i in
    rw same_id (
      subst (λ c. any (λ d. d == c) chats ≡ true) (sym ((eq_iff x.chat_jid r.chat_jid).0 same_chat))
        listed.1)

-- With unique ids, an update of the row that `find_where` hit changes that row alone.
module _ (id : String) (chats : List String) (f : MessageRow → MessageRow) (r : MessageRow)
    (R : MessageRow → MessageRow → Type 0) (same : (x : MessageRow) → R x x) where
  pub update_target :
      (rs : List MessageRow)
      → IsKeyed rs
      → find_where (in_chats id chats) rs ≡ some r
      → R r (f r)
      → Each R rs (update_where (names id r.chat_jid) f rs)
  unfolding find_where update_where
  update_target [] k h c = tt
  update_target (x ∷ rs) k h c = elim (Bool-cases (in_chats id chats x)) [
    | inl e ↦
        let here : x ≡ r = some_inj x r (rw e at h) in
        let x_id = (&&-split (x.id == id) (any (λ c. c == x.chat_jid) chats) e).0 in
        let named : names id r.chat_jid x ≡ true =
          subst (λ y. names id y.chat_jid x ≡ true) here (rw (x_id, eq_refl) refl) in
        let others : has_message id rs ≡ false =
          subst (λ i. has_message i rs ≡ false) ((eq_iff x.id id).0 x_id) k.0 in
        rw (named, update_other id r.chat_jid f rs others)
          (subst (λ y. R y (f y)) (sym here) c, Each-refl R same rs)
    | inr e ↦
        let found = rw e at h in
        elim (Bool-cases (names id r.chat_jid x)) [
          | inl n ↦ absurd (
              false≢true (
                sym e
                ∙ names-in_chats id chats x r (find_where-holds (in_chats id chats) rs r found) n))
          | inr n ↦ rw n (same x, update_target rs k.1 found c)
        ]
  ]
