-- ===== src/Tests/Config.antt =====
-- Concrete runs of the store path.
use enviadores_wabridge.Prelude.{
  ◌≡◌, refl, false, Option, none, some, ◌∷◌, ◌++◌, if◌then◌else◌, inl,
}
use enviadores_wabridge.Text.Utf8.{Bytes, utf8}
use enviadores_wabridge.Text.Search.{starts_with}
use enviadores_wabridge.Store.Failure.{bytes_eq}
use enviadores_wabridge.Config.{Os, file_exists, resolve_store_path, expand_home}
use enviadores_wabridge.Config.StorePath.{resolve_store_path-anywhere}

-- A disk with one file, and a process in a directory.
abbrev started_in : Bytes → Bytes → Os
started_in at file = record {
  home = some (utf8 "/home/me");
  is_abs = λ p. starts_with (utf8 "/") p;
  abs = λ p. some (if starts_with (utf8 "/") p then p else at ++ b'/' ∷ p);
  join = λ d f. d ++ b'/' ∷ f;
  dir = λ p. utf8 "/etc";
  stat = λ p. if bytes_eq p file then some false else none;
}

abbrev from_system : Bytes → Option Bytes
from_system p = some (if starts_with (utf8 "/") p then p else utf8 "/system" ++ b'/' ∷ p)

resolve_store_path-anywhere_example :
    resolve_store_path (started_in (utf8 "/system") (utf8 "/etc/w.db")) (utf8 "w.db") (utf8 "/etc")
    ≡ resolve_store_path (started_in (utf8 "/app") (utf8 "/etc/w.db")) (utf8 "w.db") (utf8 "/etc")
unfolding utf8 bytes_eq file_exists
resolve_store_path-anywhere_example =
    resolve_store_path-anywhere (started_in (utf8 "/app") (utf8 "/etc/w.db")) from_system
      (utf8 "w.db") (utf8 "/etc") refl (inl refl)

expanded :
    expand_home (started_in (utf8 "/app") (utf8 "/etc/w.db")) (utf8 "~/k") ≡ utf8 "/home/me/k"
unfolding expand_home utf8 bytes_eq
expanded = refl
