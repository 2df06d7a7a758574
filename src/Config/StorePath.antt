-- ===== src/Config/StorePath.antt =====
-- Where the session database is found: resolveStorePath of internal/config/config.go from two working
-- directories.
use enviadores_wabridge.Prelude.{
  ◌≡◌, ◌≢◌, refl, sym, ap, ◌∙◌, true, false, Option, none, some, ◌⊎◌, inl, inr, Bool-cases,
  if-cases,
}
use enviadores_wabridge.Text.Utf8.{Bytes}
use enviadores_wabridge.Store.Failure.{bytes_eq, bytes_eq_iff, differs_from}
use enviadores_wabridge.Config.{Os, file_exists, or_given, legacy_path, resolve_store_path}

-- The place next to the configuration.
abbrev pub anchored_path : Os → Bytes → Bytes → Bytes
anchored_path o p base_dir = o.join (or_given base_dir (o.abs base_dir)) p

-- No other database stands in the working directory.
abbrev pub NoLegacy : Os → Bytes → Bytes → Type 0
NoLegacy o p base_dir =
    (legacy : Bytes)
    → o.abs p ≡ some legacy
    → legacy ≢ anchored_path o p base_dir
    → file_exists o legacy ≡ false

no_legacy :
    (o : Os) (anchored : Bytes) (r : Option Bytes)
    → ((legacy : Bytes) → r ≡ some legacy → legacy ≢ anchored → file_exists o legacy ≡ false)
    → legacy_path o anchored r ≡ (anchored, false)
no_legacy o anchored none h = refl
no_legacy o anchored (some legacy) h = elim (Bool-cases (bytes_eq legacy anchored)) [
  | inl equal ↦ rw equal refl
  | inr apart ↦ rw (apart, h legacy refl (differs_from legacy anchored apart)) refl
]

legacy_exists :
    (o : Os) (anchored legacy : Bytes)
    → file_exists o anchored ≡ false
    → file_exists o legacy ≡ true
    → file_exists o (legacy_path o anchored (some legacy)).0 ≡ true
legacy_exists o anchored legacy missing found = elim (Bool-cases (bytes_eq legacy anchored)) [
  | inl equal ↦ let same = ap (file_exists o) ((bytes_eq_iff legacy anchored).0 equal) in cc
  | inr apart ↦ rw (apart, found) found
]

legacy_there :
    (o : Os) (anchored legacy : Bytes) (r : Option Bytes)
    → file_exists o anchored ≡ false
    → (file_exists o anchored ≡ true) ⊎ ((r ≡ some legacy) × (file_exists o legacy ≡ true))
    → file_exists o (legacy_path o anchored r).0 ≡ true
legacy_there o anchored legacy r missing (inl found) = cc
legacy_there o anchored legacy r missing (inr (at, found)) =
    rw at (legacy_exists o anchored legacy missing found)

without_legacy :
    (o : Os) (p base_dir : Bytes)
    → (file_exists o (anchored_path o p base_dir) ≡ true) ⊎ NoLegacy o p base_dir
    → o.is_abs p ≡ false
    → resolve_store_path o p base_dir ≡ (anchored_path o p base_dir, false)
unfolding resolve_store_path
without_legacy o p base_dir (inl found) relative = rw (relative, found) refl
without_legacy o p base_dir (inr none_there) relative = rw relative (
    if-cases (λ r. r ≡ (anchored_path o p base_dir, false))
      (file_exists o (anchored_path o p base_dir)) refl
      (no_legacy o (anchored_path o p base_dir) (o.abs p) none_there))

either_there :
    (o : Os) (abs' : Bytes → Option Bytes) (p base_dir : Bytes)
    → abs' base_dir ≡ o.abs base_dir
    → (file_exists o (anchored_path o p base_dir) ≡ true)
      ⊎ (NoLegacy o p base_dir × NoLegacy (record o { abs = abs' }) p base_dir)
    → (file_exists (record o { abs = abs' }) (anchored_path (record o { abs = abs' }) p base_dir)
        ≡ true)
      ⊎ NoLegacy (record o { abs = abs' }) p base_dir
unfolding file_exists
either_there o abs' p base_dir same (inl found) = inl (rw same found)
either_there o abs' p base_dir same (inr (here, there)) = inr there

either_here :
    (o : Os) (abs' : Bytes → Option Bytes) (p base_dir : Bytes)
    → (file_exists o (anchored_path o p base_dir) ≡ true)
      ⊎ (NoLegacy o p base_dir × NoLegacy (record o { abs = abs' }) p base_dir)
    → (file_exists o (anchored_path o p base_dir) ≡ true) ⊎ NoLegacy o p base_dir
either_here o abs' p base_dir (inl found) = inl found
either_here o abs' p base_dir (inr (here, there)) = inr here

absolute :
    (o : Os) (p base_dir : Bytes) → o.is_abs p ≡ true → resolve_store_path o p base_dir ≡ (p, false)
unfolding resolve_store_path
absolute o p base_dir h = rw h refl

-- ResolveStorePath gives the same path and the same flag from two working directories, which
-- differ in what filepath.Abs makes of a path but agree on the directory of the configuration,
-- when a database stands next to the configuration, or when neither directory leads to another
-- database.
pub resolve_store_path-anywhere :
    (o : Os) (abs' : Bytes → Option Bytes) (p base_dir : Bytes)
    → abs' base_dir ≡ o.abs base_dir
    → (file_exists o (anchored_path o p base_dir) ≡ true)
      ⊎ (NoLegacy o p base_dir × NoLegacy (record o { abs = abs' }) p base_dir)
    → resolve_store_path (record o { abs = abs' }) p base_dir ≡ resolve_store_path o p base_dir
resolve_store_path-anywhere o abs' p base_dir same either =
    let o' = record o { abs = abs' } in
    elim (Bool-cases (o.is_abs p)) [
      | inl rooted ↦ absolute o' p base_dir rooted ∙ sym (absolute o p base_dir rooted)
      | inr relative ↦
          without_legacy o' p base_dir (either_there o abs' p base_dir same either) relative
          ∙ ap (λ a. (o.join (or_given base_dir a) p, false)) same
          ∙ sym (without_legacy o p base_dir (either_here o abs' p base_dir either) relative)
    ]

-- A relative path leads to a database that exists, when one stands next to the configuration or
-- where the path leads from the working directory.
pub resolve_store_path-exists :
    (o : Os) (p base_dir legacy : Bytes)
    → o.is_abs p ≡ false
    → (file_exists o (anchored_path o p base_dir) ≡ true)
      ⊎ ((o.abs p ≡ some legacy) × (file_exists o legacy ≡ true))
    → file_exists o (resolve_store_path o p base_dir).0 ≡ true
unfolding resolve_store_path
resolve_store_path-exists o p base_dir legacy relative either =
    elim (Bool-cases (file_exists o (anchored_path o p base_dir))) [
      | inl found ↦ rw (relative, found) found
      | inr missing ↦
          rw (relative, missing)
            (legacy_there o (anchored_path o p base_dir) legacy (o.abs p) missing either)
    ]
