-- ===== src/Store/Fallback/Keeps.antt =====
-- Facts about the database that an action preserves, whatever the server answers.
use enviadores_wabridge.Prelude.{
  ℕ, ◌≡◌, refl, String, Bool, true, false, Option, none, some, if◌then◌else◌, arith, ◌⊎◌, inl, inr,
  Bool-cases,
}
use enviadores_wabridge.Store.Failure.{Error, Result, ok, err, is_unknown_column, column_owner}
use enviadores_wabridge.Store.Tables.{Db}
use enviadores_wabridge.Store.Exec.{
  Env, Outcome, done, refused, lost, World, M, exec, exec_with, query, query_row, pure, fail,
  feature_off, ◌>>=◌, continue, advance, settle, answer,
}
use enviadores_wabridge.Store.Fallback.{fallback, legacy, switch_off, owned_elsewhere, after_new}

-- The action `m` keeps `P` true of the database, whether it returns or fails.
pub record Keeps {ℓ} {A : Type ℓ} (P : Db → Type 0) (m : M A) : Type ℓ where
  pub at : (w : World) → P w.db → P (m w).1.db

module _ {ℓ} {A : Type ℓ} {P : Db → Type 0} where
  pub Keeps-exec_with :
      (env : Env) (write : ℕ → Db → Db × A)
      → ((now : ℕ) (db : Db) → P db → P (write now db).0)
      → Keeps P (exec_with env write)
  unfolding exec_with
  Keeps-exec_with env write h = record { at = λ w p. go w p (env.outcome w.statements) }
    where
      go :
          (w : World)
          → P w.db
          → (o : Outcome) → P (settle o (write (env.clock w.statements) w.db) (advance w)).1.db
      go w p done = h _ _ p
      go w p (refused e) = p
      go w p (lost e) = h _ _ p

  pub Keeps-pure : (a : A) → Keeps P (pure a)
  Keeps-pure a = record { at = λ w p. p }

  pub Keeps-fail : (e : Error) → Keeps P (fail {A = A} e)
  Keeps-fail e = record { at = λ w p. p }

  pub Keeps-query : (env : Env) (read : ℕ → Db → A) → Keeps P (query env read)
  unfolding query
  Keeps-query env read = record { at = λ w p. go w p (env.outcome w.statements) }
    where
      go :
          (w : World)
          → P w.db
          → (o : Outcome) → P (answer o (read (env.clock w.statements) w.db) (advance w)).1.db
      go w p done = p
      go w p (refused e) = p
      go w p (lost e) = p

  pub Keeps-query_row : (env : Env) (read : ℕ → Db → Option A) → Keeps P (query_row env read)
  unfolding query_row
  Keeps-query_row env read = record { at = λ w p. ground (arith, p) }

  pub Keeps-legacy :
      (old : Option (M A)) (zero : A)
      → ((m : M A) → old ≡ some m → Keeps P m)
      → Keeps P (legacy old zero)
  unfolding legacy
  Keeps-legacy none zero h = record { at = λ w p. p }
  Keeps-legacy (some m) zero h = h m refl

pub Keeps-exec :
    {P : Db → Type 0} (env : Env) (write : ℕ → Db → Db)
    → ((now : ℕ) (db : Db) → P db → P (write now db))
    → Keeps P (exec env write)
unfolding exec
Keeps-exec env write h = Keeps-exec_with env (λ now db. (write now db, tt)) h

pub switch_off-db : (feature : String) (w : World) → (switch_off feature w).db ≡ w.db
unfolding switch_off
switch_off-db feature w = ground arith

module _ {ℓ} {A : Type ℓ} {P : Db → Type 0} where
  -- A fallback keeps what both of its statements keep.
  pub Keeps-fallback :
      (feature : String) (new : M A) (old : Option (M A)) (zero : A)
      → Keeps P new
      → Keeps P (legacy old zero)
      → Keeps P (fallback feature new old zero)
  unfolding fallback
  Keeps-fallback feature new old zero kn ko = record {
    at = λ w p. start w p (feature_off w feature);
  }
    where
      after : (r : Result A) (w : World) → P w.db → P (after_new feature old zero (r, w)).1.db
      after (ok a) w p = p
      after (err e) w p = elim (Bool-cases (is_unknown_column e)) [
        | inl u ↦ elim (Bool-cases (owned_elsewhere feature (column_owner e))) [
          | inl o ↦ rw (u, o) p
          | inr o ↦ rw (u, o) (ko.at (switch_off feature w) (rw switch_off-db p))
        ]
        | inr u ↦ rw u p
      ]

      start :
          (w : World)
          → P w.db
          → (b : Bool)
          → P (if b then legacy old zero w else after_new feature old zero (new w)).1.db
      start w p true = ko.at w p
      start w p false = after (new w).0 (new w).1 (kn.at w p)

module _ {ℓ κ} {A : Type ℓ} {B : Type κ} {P : Db → Type 0} where
  pub Keeps-bind :
      (m : M A) (f : A → M B) → Keeps P m → ((a : A) → Keeps P (f a)) → Keeps P (m >>= f)
  Keeps-bind m f km kf = record { at = λ w p. go (m w).0 (m w).1 (km.at w p) }
    where
      go : (r : Result A) (w : World) → P w.db → P (continue r f w).1.db
      go (ok a) w p = (kf a).at w p
      go (err e) w p = p

-- A statement took effect or did nothing.
pub exec_cases :
    (env : Env) (write : ℕ → Db → Db) (w : World)
    → ((exec env write w).1.db ≡ w.db)
      ⊎ ((exec env write w).1.db ≡ write (env.clock w.statements) w.db)
unfolding exec exec_with
exec_cases env write w = go (env.outcome w.statements)
  where
    go :
        (o : Outcome)
        → ((settle {0} o (write (env.clock w.statements) w.db, tt) (advance w)).1.db ≡ w.db)
          ⊎ ((settle {0} o (write (env.clock w.statements) w.db, tt) (advance w)).1.db
              ≡ write (env.clock w.statements) w.db)
    go done = inr refl
    go (refused e) = inl refl
    go (lost e) = inr refl

-- So did a statement with no legacy form.
pub fallback-exec_cases :
    (feature : String) (env : Env) (write : ℕ → Db → Db) (w : World)
    → ((fallback feature (exec env write) none tt w).1.db ≡ w.db)
      ⊎ ((fallback feature (exec env write) none tt w).1.db ≡ write (env.clock w.statements) w.db)
unfolding fallback legacy
fallback-exec_cases feature env write w =
    start (feature_off w feature) (exec env write w).0 (exec env write w).1 (exec_cases env write w)
  where
    Written : Db → Type 0
    Written db = (db ≡ w.db) ⊎ (db ≡ write (env.clock w.statements) w.db)

    moved : (v : World) → Written v.db → Written (switch_off feature v).db
    moved v h = rw switch_off-db h

    start :
        (b : Bool) (r : Result (Unit {0})) (v : World)
        → Written v.db
        → Written (if b then legacy none tt w else after_new feature none tt (r, v)).1.db
    start true r v h = inl refl
    start false (ok _) v h = h
    start false (err e) v h = elim (Bool-cases (is_unknown_column e)) [
      | inr u ↦ rw u h
      | inl u ↦ elim (Bool-cases (owned_elsewhere feature (column_owner e))) [
        | inl o ↦ rw (u, o) h
        | inr o ↦ rw (u, o) (moved v h)
      ]
    ]
