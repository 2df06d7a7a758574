-- ===== src/Media/Basename.antt =====
-- BasenameFromPublicURL of internal/media/media.go: the names it can give, and the names it finds.
use enviadores_wabridge.Prelude.{
  ℕ, ◌≡◌, refl, sym, ap, ◌∙◌, false, some, [], ◌∷◌, ◌++◌, length, drop, ◌⊎◌, inl, inr, Bool-cases,
}
use enviadores_wabridge.Text.Utf8.{Bytes}
use enviadores_wabridge.Text.Trim.{trim_space}
use enviadores_wabridge.Text.Search.{starts_with, starts_with-append}
use enviadores_wabridge.Store.Messages.{is_empty}
use enviadores_wabridge.Media.{
  Urls, trim_slashes, public_url, public_base_path, path_of, decoded, escapes,
  basename_from_public_url, or_slash,
}

-- A name that BasenameFromPublicURL gives stays in the media directory: it is neither a dot nor two
-- dots, and has no slash of either kind and no NUL.
pub basename_from_public_url_safe :
    (u : Urls) (base url : Bytes)
    → (basename_from_public_url u base url ≡ [])
      ⊎ (escapes (basename_from_public_url u base url) ≡ false)
unfolding basename_from_public_url
basename_from_public_url_safe u base url =
    let prefix = trim_slashes (public_base_path u base) ++ b'/' ∷ [] in
    let p = path_of url (u.parse url) in
    let rest = drop (length prefix) p in
    let name = decoded rest (u.unescape rest) in
    elim (Bool-cases (starts_with prefix p)) [
      | inr outside ↦ inl (rw outside refl)
      | inl inside ↦ elim (Bool-cases (escapes name)) [
        | inl bad ↦ inl (rw (inside, bad) refl)
        | inr good ↦ inr (rw (inside, good) good)
      ]
    ]

drop-append : (s t : Bytes) → drop (length s) (s ++ t) ≡ t
drop-append [] t = refl
drop-append (c ∷ s) t = drop-append s t

append_assoc : (s t : Bytes) (c : ℕ) → s ++ (c ∷ t) ≡ (s ++ c ∷ []) ++ t
append_assoc [] t c = refl
append_assoc (a ∷ s) t c = ap (λ r. a ∷ r) (append_assoc s t c)

-- A path with a slash in it is not empty.
path_of-joined :
    (url host s t : Bytes) (c : ℕ)
    → path_of url (some (host, (s ++ c ∷ []) ++ t)) ≡ (s ++ c ∷ []) ++ t
path_of-joined url host [] t c = refl
path_of-joined url host (a ∷ s) t c = refl

-- The name under a prefix.
found :
    (u : Urls) (base url host name : Bytes)
    → u.parse url ≡ some (host, (trim_slashes (public_base_path u base) ++ b'/' ∷ []) ++ name)
    → u.unescape name ≡ some name
    → escapes name ≡ false
    → basename_from_public_url u base url ≡ name
unfolding basename_from_public_url
found u base url host name parsed plain safe =
    rw
      (
        parsed,
        path_of-joined url host (trim_slashes (public_base_path u base)) name b'/',
        starts_with-append (trim_slashes (public_base_path u base) ++ b'/' ∷ []) name,
        drop-append (trim_slashes (public_base_path u base) ++ b'/' ∷ []) name,
        plain,
        safe,
      )
      refl

base_path :
    (u : Urls) (base host path : Bytes)
    → u.parse (trim_space base) ≡ some (host, path)
    → is_empty (trim_space base) ≡ false
    → is_empty host ≡ false
    → public_base_path u base ≡ or_slash path
unfolding public_base_path
base_path u base host path based full hosted = rw (full, based, hosted) refl

public_url-prefix :
    (base name : Bytes) → public_url base name ≡ (trim_slashes base ++ b'/' ∷ []) ++ name
unfolding public_url
public_url-prefix base name = append_assoc (trim_slashes base) name b'/'

-- Where the configured base URL is not blank and parses to a host and a path, a URL that parses to
-- any host and to the path below that base of a name (which needs no decoding, and is neither
-- empty, a dot or two dots nor has a slash of either kind or a NUL) gives that name back.
pub basename_from_public_url-public_url :
    (u : Urls) (base url host host' path name : Bytes)
    → u.parse (trim_space base) ≡ some (host, path)
    → is_empty (trim_space base) ≡ false
    → is_empty host ≡ false
    → u.parse url ≡ some (host', public_url (or_slash path) name)
    → u.unescape name ≡ some name
    → escapes name ≡ false
    → basename_from_public_url u base url ≡ name
basename_from_public_url-public_url u base url host host' path name based full hosted parsed plain
      safe =
    let at = base_path u base host path based full hosted in
    found u base url host' name
      (parsed
        ∙ ap (λ p. some (host', p))
            (public_url-prefix (or_slash path) name
              ∙ ap (λ b. (trim_slashes b ++ b'/' ∷ []) ++ name) (sym at)))
      plain safe
