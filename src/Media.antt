-- ===== src/Media.antt =====
-- internal/media: the names of media files and their public URLs. What net/url and the table of
-- media types answer are parameters.

pub mod Basename
pub mod Size
pub mod Upload
use enviadores_wabridge.Prelude.{
  ℕ, ◌≡◌, refl, Bool, true, false, not, ◌&&◌, ◌||◌, Option, none, some, List, [], ◌∷◌, ◌++◌, eqb,
  any, if◌then◌else◌, length, drop, ◌⊎◌, inl, inr, Bool-cases, arith,
}
use enviadores_wabridge.Text.Utf8.{Bytes, utf8}
use enviadores_wabridge.Text.Trim.{trim_space}
use enviadores_wabridge.Text.Search.{starts_with, contains}
use enviadores_wabridge.Store.Failure.{bytes_eq, bytes_eq_iff}
use enviadores_wabridge.Store.Messages.{is_empty}

-- url.Parse by the host and the path that it finds, none for an error, and url.PathUnescape.
pub record Urls : Type 0 where
  pub parse : Bytes → Option (Bytes × Bytes)
  pub unescape : Bytes → Option Bytes

-- strings.ToLower, and mime.ExtensionsByType
pub record Types : Type 0 where
  pub lower : Bytes → Bytes
  pub extensions : Bytes → List Bytes

-- path.Ext, empty where there is none
unfoldable pub path_ext : Bytes → Bytes
path_ext [] = []
path_ext (c ∷ s) =
    let rest = path_ext s in
    if not (is_empty rest)
    then rest
    else if eqb c b'.' && not (any (λ d. eqb d b'/') s)
    then c ∷ s
    else []

abbrev pub first_extension : Types → List Bytes → Bytes
first_extension t [] = utf8 ".bin"
first_extension t (e ∷ es) = t.lower e

-- The canonical extensions of a media type, before the table's.
abbrev pub mime_extension : Types → Bytes → Bytes
mime_extension t m =
    if is_empty m
    then utf8 ".bin"
    else if contains (utf8 "jpeg") m
    then utf8 ".jpg"
    else if contains (utf8 "png") m
    then utf8 ".png"
    else if contains (utf8 "webp") m
    then utf8 ".webp"
    else if contains (utf8 "gif") m
    then utf8 ".gif"
    else if contains (utf8 "pdf") m
    then utf8 ".pdf"
    else if contains (utf8 "mp4") m
    then utf8 ".mp4"
    else if contains (utf8 "ogg") m
    then utf8 ".ogg"
    else first_extension t (t.extensions m)

-- pickExtension
unfoldable pub pick_extension : Types → Bytes → Bytes → Bytes
pick_extension t m filename =
    if not (is_empty filename) && not (is_empty (path_ext filename))
    then t.lower (path_ext filename)
    else mime_extension t m

-- strings.TrimRight(s, "/")
unfoldable pub trim_slashes : Bytes → Bytes
trim_slashes [] = []
trim_slashes (c ∷ s) =
    let rest = trim_slashes s in if eqb c b'/' && is_empty rest then [] else c ∷ rest

-- publicURL
unfoldable pub public_url : Bytes → Bytes → Bytes
public_url base name = trim_slashes base ++ (b'/' ∷ name)

-- base[strings.Index(base, "/"):], or "/"
unfoldable pub from_slash : Bytes → Bytes
from_slash [] = b'/' ∷ []
from_slash (c ∷ s) = let rest = from_slash s in if eqb c b'/' then c ∷ s else rest

abbrev pub or_slash : Bytes → Bytes
or_slash p = if is_empty p then b'/' ∷ [] else p

-- The path of a URL with a host.
abbrev pub hosted_path : Bytes → Option (Bytes × Bytes) → Bytes
hosted_path base none = from_slash base
hosted_path base (some (host, path)) = if is_empty host then from_slash base else or_slash path

-- publicBasePath
unfoldable pub public_base_path : Urls → Bytes → Bytes
public_base_path u base =
    let s = trim_space base in if is_empty s then b'/' ∷ [] else hosted_path s (u.parse s)

abbrev pub path_of : Bytes → Option (Bytes × Bytes) → Bytes
path_of whole none = whole
path_of whole (some (host, path)) = if is_empty path then whole else path

abbrev pub decoded : Bytes → Option Bytes → Bytes
decoded name none = name
decoded name (some d) = d

-- A slash of either kind or a NUL.
abbrev pub is_separator : ℕ → Bool
is_separator c = eqb c b'/' || eqb c 92 || eqb c 0

abbrev pub escapes : Bytes → Bool
escapes name =
    is_empty name
    || bytes_eq name (b'.' ∷ [])
    || bytes_eq name (b'.' ∷ b'.' ∷ [])
    || any is_separator name

-- BasenameFromPublicURL, of a base URL
unfoldable pub basename_from_public_url : Urls → Bytes → Bytes → Bytes
basename_from_public_url u base url =
    let prefix = trim_slashes (public_base_path u base) ++ b'/' ∷ [] in
    let p = path_of url (u.parse url) in
    let rest = drop (length prefix) p in
    let name = decoded rest (u.unescape rest) in
    if not (starts_with prefix p) then [] else if escapes name then [] else name
