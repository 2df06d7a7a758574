-- ===== src/Text/Search.antt =====
-- strings.HasPrefix and strings.Contains of the Go library.
use enviadores_wabridge.Prelude.{
  ◌≡◌, refl, Bool, true, false, ◌&&◌, ◌||◌, [], ◌∷◌, ◌++◌, eqb, arith,
}
use enviadores_wabridge.Text.Utf8.{Bytes}

abbrev pub starts_with : Bytes → Bytes → Bool
starts_with [] s = true
starts_with (c ∷ p) [] = false
starts_with (c ∷ p) (d ∷ s) = eqb c d && starts_with p s

pub starts_with-append : (p s : Bytes) → starts_with p (p ++ s) ≡ true
starts_with-append [] s = refl
starts_with-append (c ∷ p) s = ground (arith, starts_with-append p s)

unfoldable pub contains : Bytes → Bytes → Bool
contains [] [] = true
contains (c ∷ p) [] = false
contains p (c ∷ s) = starts_with p (c ∷ s) || contains p s
