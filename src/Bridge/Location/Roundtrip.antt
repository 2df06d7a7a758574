-- ===== src/Bridge/Location/Roundtrip.antt =====
-- The body of a location row reads back as the coordinates that it was written from.
use enviadores_wabridge.Prelude.{
  ℕ, ◌≡◌, ◌≤◌, refl, ◌∙◌, ap, Bool, true, false, some, [], ◌∷◌, ◌++◌, length, if◌then◌else◌, arith,
  All, Bool-cases, inl, inr,
}
use mathlib.Core.List.{append_assoc, append-nil}
use enviadores_wabridge.Text.Utf8.{Bytes}
use enviadores_wabridge.Bridge.Location.{
  Floats, is_digit, span, fraction, unsigned, signed, skip_blanks, second_group, first_group,
  match_coordinates, on_globe, parse_coordinates, coordinates,
}

-- A number as `%.6f` prints one below 1000: a sign, up to three digits, a point and digits.
pub record Decimal : Type 0 where
  pub negative : Bool
  pub whole : Bytes
  pub part : Bytes

pub record IsDecimal (d : Decimal) : Type 0 where
  pub whole : All (λ c. is_digit c ≡ true) d.whole
  pub part : All (λ c. is_digit c ≡ true) d.part
  pub some_whole : 1 ≤ length d.whole
  pub few_whole : length d.whole ≤ 3
  pub some_part : 1 ≤ length d.part

unfoldable pub print : Decimal → Bytes
print d = let digits = d.whole ++ b'.' ∷ d.part in if d.negative then b'-' ∷ digits else digits

-- The text does not go on with a byte that passes.
abbrev Stops : (ℕ → Bool) → Bytes → Type 0
Stops p [] = Unit
Stops p (c ∷ s) = p c ≡ false

span-append :
    (p : ℕ → Bool) (s rest : Bytes)
    → All (λ c. p c ≡ true) s
    → Stops p rest
    → span p (s ++ rest) ≡ (s, rest)
unfolding span
span-append p [] [] h e = refl
span-append p [] (c ∷ rest) h e = rw e refl
span-append p (c ∷ s) rest h e = ground (arith, h.0, span-append p s rest h.1 e)

digits-stop : (rest : Bytes) → Stops is_digit (b'.' ∷ rest)
digits-stop rest = refl

fraction-digits :
    (part rest : Bytes)
    → All (λ c. is_digit c ≡ true) part
    → 1 ≤ length part
    → Stops is_digit rest
    → fraction (b'.' ∷ (part ++ rest)) ≡ (b'.' ∷ part, rest)
fraction-digits part rest h long e = ground (arith, span-append is_digit part rest h e)

unsigned-print :
    (d : Decimal) (rest : Bytes)
    → IsDecimal d
    → Stops is_digit rest
    → unsigned ((d.whole ++ b'.' ∷ d.part) ++ rest) ≡ some (d.whole ++ b'.' ∷ d.part, rest)
unfolding unsigned
unsigned-print d rest h e = ground (
  arith,
  h.some_whole,
  h.few_whole,
  append_assoc d.whole (b'.' ∷ d.part) rest,
  span-append is_digit d.whole (b'.' ∷ (d.part ++ rest)) h.whole refl,
  fraction-digits d.part rest h.part h.some_part e,
)

-- A digit is no sign and no blank.
unsigned_first :
    (w rest : Bytes)
    → All (λ c. is_digit c ≡ true) w
    → 1 ≤ length w
    → (signed (w ++ rest) ≡ unsigned (w ++ rest)) × (skip_blanks (w ++ rest) ≡ w ++ rest)
unfolding span
unsigned_first [] rest h long = absurd (omega arith)
unsigned_first (c ∷ w) rest h long = ground (arith, h.0)

signed-print :
    (d : Decimal) (rest : Bytes)
    → IsDecimal d
    → Stops is_digit rest
    → (signed (print d ++ rest) ≡ some (print d, rest))
      × (skip_blanks (print d ++ rest) ≡ print d ++ rest)
unfolding print
signed-print d rest h e = elim (Bool-cases d.negative) [
  | inl n ↦ rw n (ground (arith, unsigned-print d rest h e), unfold span in refl)
  | inr p ↦ rw p (
      ground (
        arith,
        unsigned-print d rest h e,
        append_assoc d.whole (b'.' ∷ d.part) rest,
        unsigned_first d.whole (b'.' ∷ (d.part ++ rest)) h.whole h.some_whole,
      ))
]

-- Two numbers with a comma between them, and blanks at most around it, are read as they stand.
pub match_coordinates-print :
    (lat lng : Decimal)
    → IsDecimal lat
    → IsDecimal lng
    → match_coordinates (print lat ++ b',' ∷ b' ' ∷ print lng) ≡ some (print lat, print lng)
unfolding match_coordinates span
match_coordinates-print lat lng h k =
    let (s1, b1) = signed-print lat (b',' ∷ b' ' ∷ print lng) h refl in
    let (s2, b2) = rw append-nil at (signed-print lng [] k tt) in
    ap (λ t. first_group (signed t)) b1
    ∙ ap first_group s1
    ∙ ap (λ t. second_group (print lat) (signed t)) b2
    ∙ ap (second_group (print lat)) s2

-- What the body must be for the numbers to be on the globe.
pub record IsOnGlobe (fl : Floats) (p : Bytes × Bytes) : Type 0 where
  pub lat : fl.within 90 p.0 ≡ true
  pub lng : fl.within 180 p.1 ≡ true

-- The body that coordinates writes, with numbers printed as a sign, one to three digits, a point
-- and digits, and within the globe, is read back by parseCoordinates as these two numbers.
pub parse_coordinates-coordinates :
    (fl : Floats) (p : Bytes × Bytes) (lat lng : Decimal)
    → IsDecimal lat
    → IsDecimal lng
    → fl.six_decimals p.0 ≡ print lat
    → fl.six_decimals p.1 ≡ print lng
    → IsOnGlobe fl (print lat, print lng)
    → parse_coordinates fl (coordinates fl p) ≡ some (print lat, print lng)
unfolding parse_coordinates coordinates
parse_coordinates-coordinates fl p lat lng h k e f g =
    rw (e, f) (ap (on_globe fl) (match_coordinates-print lat lng h k) ∙ rw (g.lat, g.lng) refl)
