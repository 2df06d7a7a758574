-- ===== src/Bridge/Location.antt =====
-- parseCoordinates of internal/wabridge/sendlocation.go, and coordinates of
-- internal/wabridge/wabridge.go. Floating-point numbers are a parameter: whether the number of a
-- text lies within a bound, and how it prints with six decimals.
pub mod Roundtrip
use enviadores_wabridge.Prelude.{
  ℕ, Bool, true, false, ◌&&◌, ◌||◌, Option, none, some, List, [], ◌∷◌, ◌++◌, eqb, leb, length,
  if◌then◌else◌,
}
use enviadores_wabridge.Text.Utf8.{Bytes}
use enviadores_wabridge.Store.Messages.{is_empty}

-- ParseFloat, the comparison with the bound on either side of zero, and `%.6f`.
pub record Floats : Type 0 where
  pub within : ℕ → Bytes → Bool
  pub six_decimals : Bytes → Bytes

abbrev pub is_digit : ℕ → Bool
is_digit c = leb b'0' c && leb c b'9'

-- `\s` of a regular expression
abbrev pub is_blank : ℕ → Bool
is_blank c = eqb c 9 || eqb c 10 || eqb c 12 || eqb c 13 || eqb c 32

-- The longest run of bytes that pass, and the rest.
unfoldable pub span : (ℕ → Bool) → Bytes → Bytes × Bytes
span p [] = ([], [])
span p (c ∷ s) = let rest = span p s in if p c then (c ∷ rest.0, rest.1) else ([], c ∷ s)

-- `(?:\.[0-9]+)?`
abbrev pub fraction : Bytes → Bytes × Bytes
fraction [] = ([], [])
fraction (c ∷ s) =
    let digits = span is_digit s in
    if eqb c b'.' && leb 1 (length digits.0) then (c ∷ digits.0, digits.1) else ([], c ∷ s)

-- `[0-9]{1,3}(?:\.[0-9]+)?`: the text and the rest
unfoldable pub unsigned : Bytes → Option (Bytes × Bytes)
unsigned s =
    let digits = span is_digit s in
    let tail = fraction digits.1 in
    if leb 1 (length digits.0) && leb (length digits.0) 3
    then some (digits.0 ++ tail.0, tail.1)
    else none

abbrev pub negated : Option (Bytes × Bytes) → Option (Bytes × Bytes)
negated none = none
negated (some (t, rest)) = some (b'-' ∷ t, rest)

-- `-?` before it
abbrev pub signed : Bytes → Option (Bytes × Bytes)
signed [] = none
signed (c ∷ s) = if eqb c b'-' then negated (unsigned s) else unsigned (c ∷ s)

abbrev pub skip_blanks : Bytes → Bytes
skip_blanks s = (span is_blank s).1

abbrev pub after_comma : Bytes → Option Bytes
after_comma [] = none
after_comma (c ∷ s) = if eqb c b',' then some s else none

-- coordinatesRE on the whole text: its two groups. What follows the first group's digits can only
-- be blanks and the comma, so the longest run of digits is the only match.
abbrev pub second_group : Bytes → Option (Bytes × Bytes) → Option (Bytes × Bytes)
second_group lat none = none
second_group lat (some (lng, rest)) = if is_empty (skip_blanks rest) then some (lat, lng) else none

abbrev pub past_comma : Bytes → Option Bytes → Option (Bytes × Bytes)
past_comma lat none = none
past_comma lat (some s) = second_group lat (signed (skip_blanks s))

abbrev pub first_group : Option (Bytes × Bytes) → Option (Bytes × Bytes)
first_group none = none
first_group (some (lat, rest)) = past_comma lat (after_comma (skip_blanks rest))

unfoldable pub match_coordinates : Bytes → Option (Bytes × Bytes)
match_coordinates s = first_group (signed (skip_blanks s))

abbrev pub on_globe : Floats → Option (Bytes × Bytes) → Option (Bytes × Bytes)
on_globe fl none = none
on_globe fl (some p) = if fl.within 90 p.0 && fl.within 180 p.1 then some p else none

-- parseCoordinates: the texts of a latitude and a longitude on the globe
unfoldable pub parse_coordinates : Floats → Bytes → Option (Bytes × Bytes)
parse_coordinates fl s = on_globe fl (match_coordinates s)

-- coordinates: "lat, lng" with six decimals
unfoldable pub coordinates : Floats → Bytes × Bytes → Bytes
coordinates fl p = fl.six_decimals p.0 ++ b',' ∷ b' ' ∷ fl.six_decimals p.1
