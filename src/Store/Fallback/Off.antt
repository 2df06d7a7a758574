-- ===== src/Store/Fallback/Off.antt =====
-- A feature that is switched off stays off until a restart.
use enviadores_wabridge.Prelude.{
  ℕ, ◌≡◌, refl, sym, ◌∙◌, String, Bool, true, false, ◌&&◌, some, eq_refl, arith, Bool-cases,
  if-cases, inl, inr, if◌then◌else◌, not,
}
use mathlib.Core.Bool.{false≢true}
use enviadores_wabridge.Store.Failure.{
  Result, ok, err, is_unknown_column, column_owner, feature_quotes, feature_location,
}
use enviadores_wabridge.Store.Tables.{Message, Db}
use enviadores_wabridge.Store.Exec.{Env, World, M, exec, exec_with, feature_off, continue, ◌>>=◌}
use enviadores_wabridge.Store.Fallback.{fallback, legacy, switch_off, owned_elsewhere, after_new}
use enviadores_wabridge.Store.Messages.{insert_message, insert_message_with, is_some}

-- The action leaves the feature off.
pub record StaysOff {ℓ} {A : Type ℓ} (feature : String) (m : M A) : Type ℓ where
  pub at : (w : World) → feature_off w feature ≡ true → feature_off (m w).1 feature ≡ true

pub switch_off-off :
    (f g : String) (w : World) → feature_off w f ≡ true → feature_off (switch_off g w) f ≡ true
unfolding switch_off feature_off
switch_off-off f g w h = ground arith

pub switch_off_itself : (f : String) (w : World) → feature_off (switch_off f w) f ≡ true
unfolding switch_off feature_off
switch_off_itself f w = ground (arith, eq_refl f)

pub StaysOff-exec : (f : String) (env : Env) (write : ℕ → Db → Db) → StaysOff f (exec env write)
unfolding exec exec_with feature_off
StaysOff-exec f env write = record { at = λ w h. ground arith }

module _ {ℓ} {A : Type ℓ} (f : String) where
  pub StaysOff-fallback :
      (g : String) (new : M A) (old : M A) (zero : A)
      → StaysOff f new
      → StaysOff f old
      → StaysOff f (fallback g new (some old) zero)
  unfolding fallback legacy
  StaysOff-fallback g new old zero kn ko = record { at = λ w h. start w h (feature_off w g) }
    where
      Off : Result A × World → Type 0
      Off x = feature_off x.1 f ≡ true

      after :
          (r : Result A) (w : World)
          → feature_off w f ≡ true
          → Off (after_new g (some old) zero (r, w))
      after (ok a) w h = h
      after (err e) w h =
          if-cases Off (is_unknown_column e)
            (if-cases Off (owned_elsewhere g (column_owner e)) h
              (ko.at (switch_off g w) (switch_off-off f g w h)))
            h

      start :
          (w : World)
          → feature_off w f ≡ true
          → (b : Bool) → Off (if b then old w else after_new g (some old) zero (new w))
      start w h true = ko.at w h
      start w h false = after (new w).0 (new w).1 (kn.at w h)

pub StaysOff-insert_message :
    (f : String) (env : Env) (m : Message) → StaysOff f (insert_message env m)
unfolding insert_message insert_message_with
StaysOff-insert_message f env m =
    if-cases (StaysOff f) (not (is_some m.location_name) && not (is_some m.location_address))
      (one false) (StaysOff-fallback f feature_location _ _ tt (one true) (one false))
  where
    one : (location : Bool) → StaysOff f (insert_message_with env m location)
    one location =
        StaysOff-fallback f feature_quotes _ _ tt (StaysOff-exec f env _) (StaysOff-exec f env _)

pub StaysOff-bind {ℓ κ} :
    {A : Type ℓ} {B : Type κ} (f : String) (m : M A) (k : A → M B)
    → StaysOff f m
    → ((a : A) → StaysOff f (k a))
    → StaysOff f (m >>= k)
StaysOff-bind {A = A} f m k sm sk = record { at = λ w h. go (m w).0 (m w).1 (sm.at w h) }
  where
    go :
        (r : Result A) (w : World)
        → feature_off w f ≡ true
        → feature_off (continue r k w).1 f ≡ true
    go (ok a) w h = (sk a).at w h
    go (err e) w h = h

-- An answer with the feature still on is the answer of the new statement.
pub fallback_on {ℓ} :
    {A : Type ℓ} (f : String) (new old : M A) (zero : A) (w : World) (a : A)
    → StaysOff f old
    → (fallback f new (some old) zero w).0 ≡ ok a
    → feature_off (fallback f new (some old) zero w).1 f ≡ false
    → ((new w).0 ≡ ok a) × ((fallback f new (some old) zero w).1 ≡ (new w).1)
unfolding fallback legacy
fallback_on {A = A} f new old zero w a ko h on = elim (Bool-cases (feature_off w f)) [
  | inl off ↦ absurd (false≢true (sym (rw off at on) ∙ ko.at w off))
  | inr off ↦ rw off (after (new w).0 (new w).1 (rw off at h) (rw off at on))
]
  where
    after :
        (r : Result A) (v : World)
        → (after_new f (some old) zero (r, v)).0 ≡ ok a
        → feature_off (after_new f (some old) zero (r, v)).1 f ≡ false
        → (r ≡ ok a) × ((after_new f (some old) zero (r, v)).1 ≡ v)
    after (ok b) v h on = (h, refl)
    after (err e) v h on = elim (Bool-cases (is_unknown_column e)) [
      | inr u ↦ absurd (ground arith)
      | inl u ↦ elim (Bool-cases (owned_elsewhere f (column_owner e))) [
        | inl o ↦ absurd (ground arith)
        | inr o ↦
            absurd
              (false≢true (sym (rw (u, o) at on) ∙ ko.at (switch_off f v) (switch_off_itself f v)))
      ]
    ]
