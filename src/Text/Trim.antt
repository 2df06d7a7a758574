-- ===== src/Text/Trim.antt =====
-- strings.TrimSpace of the Go library.
use enviadores_wabridge.Prelude.{
  ℕ, zero, suc, ◌≡◌, refl, Bool, ◌||◌, ◌&&◌, List, [], ◌∷◌, ◌++◌, eqb, leb, if◌then◌else◌, take,
}
use mathlib.Core.List.{reverse}
use enviadores_wabridge.Text.Utf8.{Bytes, decode_rune}

-- unicode.IsSpace
unfoldable pub is_space : ℕ → Bool
is_space r =
    (leb 0x09 r && leb r 0x0D)
    || eqb r 0x20
    || eqb r 0x85
    || eqb r 0xA0
    || eqb r 0x1680
    || (leb 0x2000 r && leb r 0x200A)
    || eqb r 0x2028
    || eqb r 0x2029
    || eqb r 0x202F
    || eqb r 0x205F
    || eqb r 0x3000

-- The text rune by rune, each with its bytes.
unfoldable pub pieces_skip : ℕ → Bytes → List (ℕ × Bytes)
pieces_skip k [] = []
pieces_skip (suc k) (b ∷ s) = pieces_skip k s
pieces_skip zero (b ∷ s) =
    ((decode_rune b s).0, b ∷ take (decode_rune b s).1 s) ∷ pieces_skip (decode_rune b s).1 s

unfoldable pub drop_spaces : List (ℕ × Bytes) → List (ℕ × Bytes)
drop_spaces [] = []
drop_spaces ((r, w) ∷ ps) = let rest = drop_spaces ps in if is_space r then rest else (r, w) ∷ ps

unfoldable pub join : List (ℕ × Bytes) → Bytes
join [] = []
join ((r, w) ∷ ps) = w ++ join ps

unfoldable pub trim_space : Bytes → Bytes
unfolding pieces_skip drop_spaces is_space join
trim_space s = join (reverse (drop_spaces (reverse (drop_spaces (pieces_skip 0 s)))))

trim_space_test :
    trim_space (0x20 ∷ 0xC2 ∷ 0xA0 ∷ b'a' ∷ 0x20 ∷ b'b' ∷ 0x0A ∷ []) ≡ b'a' ∷ 0x20 ∷ b'b' ∷ []
unfolding trim_space
trim_space_test = refl
