-- ===== src/Text/Utf8/Shape.antt =====
-- The four forms of an encoded rune.
use enviadores_wabridge.Prelude.{
  ℕ, ◌+◌, ◌-◌, ◌*◌, ◌≤◌, ◌<◌, ◌≡◌, refl, inl, inr, true, [], ◌∷◌, ltb, arith, Bool-cases,
}
use enviadores_wabridge.Text.Utf8.{Bytes, IsScalar, is_scalar, encode_rune, encode_scalar}

-- A continuation byte.
abbrev pub IsTail : ℕ → Type 0
IsTail b = (0x80 ≤ b) × (b < 0xC0)

-- The byte sequences that stand for the rune `r`.
pub data Encodes (r : ℕ) : Bytes → Type 0 where
  one : (a : ℕ) → a < 0x80 → a ≡ r → Encodes r (a ∷ [])
  two :
      (a b : ℕ)
      → 0xC2 ≤ a
      → a < 0xE0
      → IsTail b
      → (a - 0xC0) * 64 + (b - 0x80) ≡ r
      → Encodes r (a ∷ b ∷ [])
  three :
      (a b c : ℕ)
      → 0xE0 ≤ a
      → a < 0xF0
      → IsTail b
      → IsTail c
      → IsScalar r
      → 0x800 ≤ r
      → (a - 0xE0) * 4096 + (b - 0x80) * 64 + (c - 0x80) ≡ r
      → Encodes r (a ∷ b ∷ c ∷ [])
  four :
      (a b c d : ℕ)
      → 0xF0 ≤ a
      → a < 0xF5
      → IsTail b
      → IsTail c
      → IsTail d
      → 0x10000 ≤ r
      → r ≤ 0x10FFFF
      → (a - 0xF0) * 262144 + (b - 0x80) * 4096 + (c - 0x80) * 64 + (d - 0x80) ≡ r
      → Encodes r (a ∷ b ∷ c ∷ d ∷ [])

is_scalar_lem : (r : ℕ) → IsScalar r → is_scalar r ≡ true
is_scalar_lem r (inl h) = ground arith
is_scalar_lem r (inr h) = ground arith

scalar-Encodes : (r : ℕ) → IsScalar r → Encodes r (encode_scalar r)
scalar-Encodes r s = elim (Bool-cases (ltb r 0x80)) [
  | inl e ↦ rw e (one r (ground arith) refl)
  | inr e ↦ elim (Bool-cases (ltb r 0x800)) [
    | inl f ↦ rw (e, f) (two _ _ (ground arith) (ground arith) (omega arith) (omega arith))
    | inr f ↦ elim (Bool-cases (ltb r 0x10000)) [
      | inl g ↦
          rw (e, f, g)
            (three _ _ _ (omega arith) (ground arith) (omega arith) (omega arith) s (ground arith)
              (omega arith))
      | inr g ↦
          rw (e, f, g)
            (four _ _ _ _ (omega arith) (omega arith) (omega arith) (omega arith) (omega arith)
              (ground arith) (omega arith) (omega arith))
    ]
  ]
]

pub encode_rune-Encodes : (r : ℕ) → IsScalar r → Encodes r (encode_rune r)
unfolding encode_rune
encode_rune-Encodes r s = rw (is_scalar_lem r s) (scalar-Encodes r s)
