-- ===== src/Store/Exec.antt =====
-- The store's methods as actions on the database and the set of features switched off.
--
-- The database server is not part of the program. Each statement asks the environment for its
-- outcome: it is done, it is refused with some error and does nothing, or it takes effect and the
-- answer is lost on the way back (the connection is an SSH tunnel), which the program sees as an
-- error too. Which of these happens, and with which error, is arbitrary.
use enviadores_wabridge.Prelude.{ℕ, suc, String, Bool, Option, none, some, List, ◌==◌, any}
use enviadores_wabridge.Store.Failure.{Error, Result, ok, err, no_rows}
use enviadores_wabridge.Store.Tables.{Db}

pub data Outcome : Type 0 where
  done : Outcome
  refused lost : Error → Outcome

-- What the server does with the statement of a given number, and its UTC clock at that statement.
pub record Env : Type 0 where
  pub outcome : ℕ → Outcome
  pub clock : ℕ → ℕ

pub record World : Type 0 where
  pub db : Db
  -- the keys of Store.off
  pub off : List String
  -- the features whose fallback was logged, newest first
  pub logged : List String
  -- statements run so far
  pub statements : ℕ

abbrev pub M {ℓ} : Type ℓ → Type ℓ
M A = World → Result A × World

abbrev pub Action : Type 0
Action = M (Unit {0})

abbrev pub pure {ℓ} : {A : Type ℓ} → A → M A
pure a w = (ok a, w)

abbrev pub fail {ℓ} : {A : Type ℓ} → Error → M A
fail e w = (err e, w)

abbrev pub continue {ℓ κ} : {A : Type ℓ} {B : Type κ} → Result A → (A → M B) → M B
continue (ok a) f w = f a w
continue (err e) f w = (err e, w)

infixl 5 ◌>>=◌ ◌>>◌
abbrev pub ◌>>=◌ {ℓ κ} : {A : Type ℓ} {B : Type κ} → M A → (A → M B) → M B
◌>>=◌ m f w = continue (m w).0 f (m w).1

abbrev pub ◌>>◌ {ℓ} : {B : Type ℓ} → Action → M B → M B
m >> k = m >>= λ _. k

abbrev pub advance : World → World
advance w = record w { statements = suc w.statements }

-- A statement that writes: `write now db` is the table change and the value that the driver reports.
module _ {ℓ} {A : Type ℓ} where
  abbrev pub settle : Outcome → (Db × A) → World → Result A × World
  settle done (db', a) w = (ok a, record w { db = db' })
  settle (refused e) r w = (err e, w)
  settle (lost e) (db', a) w = (err e, record w { db = db' })

  unfoldable pub exec_with : Env → (ℕ → Db → Db × A) → M A
  exec_with env write w =
      settle (env.outcome w.statements) (write (env.clock w.statements) w.db) (advance w)

  abbrev pub answer : Outcome → A → World → Result A × World
  answer done a w = (ok a, w)
  answer (refused e) a w = (err e, w)
  answer (lost e) a w = (err e, w)

  -- A statement that only reads.
  unfoldable pub query : Env → (ℕ → Db → A) → M A
  query env read w =
      answer (env.outcome w.statements) (read (env.clock w.statements) w.db) (advance w)

-- A statement of a transaction that changes nothing yet: BEGIN, or an UPDATE before its COMMIT.
abbrev pub in_transaction : Env → Action
in_transaction env = query env (λ now db. tt)

-- ExecContext where the program looks at the error alone.
unfoldable pub exec : Env → (ℕ → Db → Db) → Action
unfolding exec_with
exec env write = exec_with env (λ now db. (write now db, tt))

-- QueryRowContext and Scan: no row is sql.ErrNoRows.
unfoldable pub query_row {ℓ} : {A : Type ℓ} → Env → (ℕ → Db → Option A) → M A
unfolding query
query_row env read w =
    continue (query env read w).0 (λ o. elim o [ none ↦ fail no_rows | some a ↦ pure a ])
      (query env read w).1

-- FeatureOff
unfoldable pub feature_off : World → String → Bool
feature_off w feature = any (λ f. f == feature) w.off
