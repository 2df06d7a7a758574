-- ===== src/Store/Fallback.antt =====
-- Fallback of internal/store/store.go: statements of a newer migration and their legacy form.
pub mod Keeps
pub mod Off
use enviadores_wabridge.Prelude.{
  ℕ, ◌≡◌, ◌≢◌, refl, String, Bool, true, false, ◌||◌, Option, none, some, List, [], ◌∷◌, ◌==◌,
  eq_iff, eq_refl, if◌then◌else◌, any, arith, Bool-cases, inl, inr,
}
use enviadores_wabridge.Store.Failure.{Error, Result, ok, err, is_unknown_column, column_owner}
use enviadores_wabridge.Store.Exec.{World, M, pure, feature_off}

-- The mutex section: the feature is switched off, and the first time that is logged.
unfoldable pub switch_off : String → World → World
unfolding feature_off
switch_off feature w =
    if feature_off w feature
    then w
    else record w { off = feature ∷ w.off; logged = feature ∷ w.logged }

-- `owner, ok := columnOwner(err); ok && owner != feature`
abbrev pub owned_elsewhere : String → Option String → Bool
owned_elsewhere feature none = false
owned_elsewhere feature (some owner) = if owner == feature then false else true

module _ {ℓ} {A : Type ℓ} where
  -- A nil legacy statement leaves the captured variables as they are: `zero`.
  unfoldable pub legacy : Option (M A) → A → M A
  legacy none zero = pure zero
  legacy (some old) zero = old

  abbrev pub after_new : String → Option (M A) → A → Result A × World → Result A × World
  after_new feature old zero (ok a, w) = (ok a, w)
  after_new feature old zero (err e, w) =
      if is_unknown_column e
      then if owned_elsewhere feature (column_owner e)
        then (err e, w)
        else legacy old zero (switch_off feature w)
      else (err e, w)

  unfoldable pub fallback : String → M A → Option (M A) → A → M A
  fallback feature new old zero w =
      if feature_off w feature then legacy old zero w else after_new feature old zero (new w)
