-- ===== src/Text/Cut.antt =====
-- The helpers that shorten a text: `clip` of internal/store/store.go, `truncateRunes` and
-- `asciiOnly` of internal/wabridge/messages.go, `truncate` of internal/wabridge/wabridge.go and
-- `quoteForLog` of internal/wabridge/newchat.go.
pub mod Clip
pub mod Runes
use enviadores_wabridge.Prelude.{
  ℕ, zero, suc, ◌+◌, ◌∙◌, ap, arith, ◌≡◌, Bool, ◌||◌, List, [], ◌∷◌, ◌++◌, ltb, leb, if◌then◌else◌,
  length, take, map, All,
}
use enviadores_wabridge.Text.Utf8.{Bytes, IsScalar, rune_start, encode, runes, rune_count}

-- Valid UTF-8: the encoding of some scalars.
abbrev pub IsValid : Bytes → Type 0
IsValid s = (rs : List ℕ) × All IsScalar rs × (s ≡ encode rs)

-- s[i], where i is in range
abbrev pub byte_at : Bytes → ℕ → ℕ
byte_at [] i = 0
byte_at (b ∷ s) zero = b
byte_at (b ∷ s) (suc i) = byte_at s i

pub byte_at-append : (w t : Bytes) (n : ℕ) → byte_at (w ++ t) (length w + n) ≡ byte_at t n
byte_at-append [] t n = ap (byte_at t) (omega arith)
byte_at-append (b ∷ w) t n =
    ap (byte_at (b ∷ (w ++ t))) {y = suc (length w + n)} (omega arith) ∙ byte_at-append w t n

-- `for n > 0 && !utf8.RuneStart(s[n]) { n-- }`
unfoldable pub cut_point : Bytes → ℕ → ℕ
cut_point s zero = zero
cut_point s (suc n) =
    let rest = cut_point s n in if rune_start (byte_at s (suc n)) then suc n else rest

-- clip cuts s to at most n bytes without splitting a UTF-8 sequence.
unfoldable pub clip : Bytes → ℕ → Bytes
clip s n = if leb (length s) n then s else take (cut_point s n) s

-- truncateRunes cuts s to at most n characters.
unfoldable pub truncate_runes : Bytes → ℕ → Bytes
truncate_runes s n = if leb (rune_count s) n then s else encode (take n (runes s))

-- truncate shortens s to n characters and appends an ellipsis (U+2026).
unfoldable pub truncate : Bytes → ℕ → Bytes
truncate s n = if leb (rune_count s) n then s else encode (take n (runes s)) ++ encode (0x2026 ∷ [])

abbrev ascii_rune : ℕ → ℕ
ascii_rune r = if ltb r 0x20 || ltb 0x7E r then b'?' else r

-- asciiOnly replaces every rune that is not printable ASCII.
unfoldable pub ascii_only : Bytes → Bytes
ascii_only s = encode (map ascii_rune (runes s))

-- A cut by bytes: `s[:n]` where s is longer.
abbrev pub byte_cut : ℕ → Bytes → Bytes
byte_cut n s = if ltb n (length s) then take n s else s

-- quoteForLog keeps a malformed phone readable (and short) in logs.
unfoldable pub quote_for_log : Bytes → Bytes
quote_for_log s =
    let shown = if ltb 24 (length s) then take 24 s ++ (b'.' ∷ b'.' ∷ b'.' ∷ []) else s in
    b'"' ∷ (shown ++ (b'"' ∷ []))
