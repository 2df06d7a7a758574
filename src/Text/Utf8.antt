-- ===== src/Text/Utf8.antt =====
-- Package unicode/utf8 of the Go library, as the truncating helpers use it: bytes to runes and
-- back. `runes` is the conversion `[]rune(s)`, and `encode` is `string(rs)`.
pub mod Shape
pub mod Roundtrip
use enviadores_wabridge.Prelude.{
  ℕ, zero, suc, ◌+◌, ◌-◌, ◌*◌, ◌/◌, ◌%◌, ◌≤◌, ◌<◌, String, ◌⊎◌, Bool, true, false, ◌&&◌, ◌||◌, List,
  [], ◌∷◌, ◌++◌, ltb, leb, if◌then◌else◌, length,
}
use Prim.Native.Char.{code}
use Prim.Native.String

abbrev pub Bytes : Type 0
Bytes = List ℕ

-- utf8.RuneError
abbrev pub rune_error : ℕ
rune_error = 0xFFFD

-- utf8.RuneStart: not of the form 10xxxxxx.
unfoldable pub rune_start : ℕ → Bool
rune_start b = ltb b 0x80 || leb 0xC0 b

-- The runes that are code points of a character: no surrogate, and in range.
abbrev pub IsScalar : ℕ → Type 0
IsScalar r = (r < 0xD800) ⊎ ((0xE000 ≤ r) × (r ≤ 0x10FFFF))

abbrev pub is_scalar : ℕ → Bool
is_scalar r = ltb r 0xD800 || (leb 0xE000 r && leb r 0x10FFFF)

abbrev pub encode_scalar : ℕ → Bytes
encode_scalar r =
    if ltb r 0x80
    then r ∷ []
    else if ltb r 0x800
    then (0xC0 + r / 64) ∷ (0x80 + r % 64) ∷ []
    else if ltb r 0x10000
    then (0xE0 + r / 4096) ∷ (0x80 + r / 64 % 64) ∷ (0x80 + r % 64) ∷ []
    else (0xF0 + r / 262144) ∷ (0x80 + r / 4096 % 64) ∷ (0x80 + r / 64 % 64) ∷ (0x80 + r % 64) ∷ []

-- utf8.AppendRune: what is no scalar is written as U+FFFD.
unfoldable pub encode_rune : ℕ → Bytes
encode_rune r = if is_scalar r then encode_scalar r else encode_scalar rune_error

-- string(rs)
unfoldable pub encode : List ℕ → Bytes
encode [] = []
encode (r ∷ rs) = encode_rune r ++ encode rs

-- A byte from `lo` to `hi`.
abbrev pub within : ℕ → ℕ → ℕ → Bool
within lo hi b = leb lo b && leb b hi

-- The second byte that the first allows (acceptRanges of unicode/utf8).
abbrev pub low_second : ℕ → ℕ
low_second a =
    if ltb a 0xE0
    then 0x80
    else if leb a 0xE0
    then 0xA0
    else if leb a 0xEF
    then 0x80
    else if leb a 0xF0
    then 0x90
    else 0x80

abbrev pub high_second : ℕ → ℕ
high_second a =
    if leb a 0xEC then 0xBF else if leb a 0xED then 0x9F else if leb a 0xF3 then 0xBF else 0x8F

-- utf8.DecodeRune on a text that begins with the byte `a`: the rune, and its width less one.
-- A wrong or short sequence gives U+FFFD and one byte.
abbrev pub decode_rune : ℕ → Bytes → ℕ × ℕ
decode_rune a [] = (if ltb a 0x80 then a else rune_error, 0)
decode_rune a (b ∷ []) =
    if ltb a 0x80
    then (a, 0)
    else if within 0xC2 0xDF a && within 0x80 0xBF b
    then ((a - 0xC0) * 64 + (b - 0x80), 1)
    else (rune_error, 0)
decode_rune a (b ∷ c ∷ []) =
    if ltb a 0x80
    then (a, 0)
    else if within 0xC2 0xDF a && within 0x80 0xBF b
    then ((a - 0xC0) * 64 + (b - 0x80), 1)
    else if within 0xE0 0xEF a && within (low_second a) (high_second a) b && within 0x80 0xBF c
    then ((a - 0xE0) * 4096 + (b - 0x80) * 64 + (c - 0x80), 2)
    else (rune_error, 0)
decode_rune a (b ∷ c ∷ d ∷ _) =
    if ltb a 0x80
    then (a, 0)
    else if within 0xC2 0xDF a && within 0x80 0xBF b
    then ((a - 0xC0) * 64 + (b - 0x80), 1)
    else if within 0xE0 0xEF a && within (low_second a) (high_second a) b && within 0x80 0xBF c
    then ((a - 0xE0) * 4096 + (b - 0x80) * 64 + (c - 0x80), 2)
    else if within 0xF0 0xF4 a
        && within (low_second a) (high_second a) b
        && within 0x80 0xBF c
        && within 0x80 0xBF d
    then ((a - 0xF0) * 262144 + (b - 0x80) * 4096 + (c - 0x80) * 64 + (d - 0x80), 3)
    else (rune_error, 0)

-- The runes of a text whose first `k` bytes belong to a rune that is already read.
unfoldable pub runes_skip : ℕ → Bytes → List ℕ
runes_skip k [] = []
runes_skip (suc k) (b ∷ s) = runes_skip k s
runes_skip zero (b ∷ s) = (decode_rune b s).0 ∷ runes_skip (decode_rune b s).1 s

-- []rune(s)
unfoldable pub runes : Bytes → List ℕ
unfolding runes_skip
runes s = runes_skip 0 s

-- utf8.RuneCountInString
unfoldable pub rune_count : Bytes → ℕ
unfolding runes
rune_count s = length (runes s)

codes : String → List ℕ
codes String.[] = []
codes (String.◌∷◌ c s) = code c ∷ codes s

-- The bytes of a literal.
unfoldable pub utf8 : String → Bytes
unfolding codes encode encode_rune
utf8 s = encode (codes s)
