-- ===== src/Text/Utf8/Roundtrip.antt =====
-- Decoding inverts encoding, and what is decoded is always a text of scalars.
use enviadores_wabridge.Prelude.{
  ℕ, zero, suc, ◌≤◌, ◌≡◌, refl, ap, ◌+◌, ◌-◌, ◌*◌, ◌<◌, Bool, true, false, if◌then◌else◌, ◌⊎◌, inl,
  inr, List, [], ◌∷◌, ◌++◌, All, arith, ltb, ◌&&◌, Bool-cases, &&-split, ◌∙◌,
}
use enviadores_wabridge.Text.Utf8.{
  Bytes, IsScalar, encode_rune, encode, decode_rune, runes_skip, runes, within, low_second,
  high_second, rune_error,
}
use enviadores_wabridge.Text.Utf8.Shape.{Encodes, one, two, three, four, encode_rune-Encodes}

decode-one : (a : ℕ) (t : Bytes) → suc a ≤ 0x80 → decode_rune a t ≡ (a, 0)
decode-one a [] h = ground arith
decode-one a (b ∷ []) h = ground arith
decode-one a (b ∷ c ∷ []) h = ground arith
decode-one a (b ∷ c ∷ d ∷ t) h = ground arith

-- A decoder reads an encoded rune back, whatever follows it.
skip-Encodes : (r : ℕ) (w t : Bytes) → Encodes r w → runes_skip 0 (w ++ t) ≡ r ∷ runes_skip 0 t
unfolding runes_skip
skip-Encodes r _ t (one a h e) = rw (decode-one a t h) (ap (λ x. x ∷ runes_skip 0 t) e)
skip-Encodes r _ [] (two a b h k i e) = ground arith
skip-Encodes r _ (x ∷ []) (two a b h k i e) = ground arith
skip-Encodes r _ (x ∷ y ∷ t) (two a b h k i e) = ground arith
skip-Encodes r _ [] (three a b c h k i j s l e) = ground arith
skip-Encodes r _ (x ∷ t) (three a b c h k i j s l e) = ground arith
skip-Encodes r _ t (four a b c d h k i j l m n e) = ground arith

pub runes-cons : (r : ℕ) (t : Bytes) → IsScalar r → runes (encode_rune r ++ t) ≡ r ∷ runes t
unfolding runes
runes-cons r t s = skip-Encodes r (encode_rune r) t (encode_rune-Encodes r s)

-- []rune(string(rs)) is rs, for every list of scalars.
pub runes-encode : (rs : List ℕ) → All IsScalar rs → runes (encode rs) ≡ rs
unfolding encode
runes-encode [] h = unfold runes in refl
runes-encode (r ∷ rs) (s, h) = runes-cons r (encode rs) s ∙ ap (λ x. r ∷ x) (runes-encode rs h)

IsScalar-if :
    (c : Bool) (x y : ℕ × ℕ)
    → (c ≡ true → IsScalar x.0)
    → IsScalar y.0
    → IsScalar (if c then x else y).0
IsScalar-if true x y h k = h refl
IsScalar-if false x y h k = k

two-IsScalar :
    (a b : ℕ)
    → (within 0xC2 0xDF a && within 0x80 0xBF b) ≡ true
    → IsScalar ((a - 0xC0) * 64 + (b - 0x80))
two-IsScalar a b h = inl (ground arith)

second_byte :
    (a b : ℕ)
    → 0xE0 ≤ a
    → within (low_second a) (high_second a) b ≡ true
    → ((a < 0xED) × (b ≤ 0xBF)) ⊎ ((a ≡ 0xED) × (b ≤ 0x9F)) ⊎ ((0xEE ≤ a) × (0x80 ≤ b) × (b ≤ 0xBF))
second_byte a b h k = ground arith

three-value :
    (a b c : ℕ)
    → a ≤ 0xEF
    → c ≤ 0xBF
    → ((a < 0xED) × (b ≤ 0xBF)) ⊎ ((a ≡ 0xED) × (b ≤ 0x9F)) ⊎ ((0xEE ≤ a) × (0x80 ≤ b) × (b ≤ 0xBF))
    → IsScalar ((a - 0xE0) * 4096 + (b - 0x80) * 64 + (c - 0x80))
three-value a b c h k (inl (p, q)) = inl (omega arith)
three-value a b c h k (inr (inl (p, q))) = inl (omega arith)
three-value a b c h k (inr (inr (p, q, s))) = inr (omega arith, omega arith)

three-IsScalar :
    (a b c : ℕ)
    → (within 0xE0 0xEF a && within (low_second a) (high_second a) b && within 0x80 0xBF c) ≡ true
    → IsScalar ((a - 0xE0) * 4096 + (b - 0x80) * 64 + (c - 0x80))
three-IsScalar a b c h =
    let second_ok = within (low_second a) (high_second a) b in
    let (front, last) = &&-split (within 0xE0 0xEF a && second_ok) (within 0x80 0xBF c) h in
    let (first, second) = &&-split (within 0xE0 0xEF a) second_ok front in
    three-value a b c (ground arith) (ground arith) (second_byte a b (ground arith) second)

fourth_byte :
    (a b : ℕ)
    → 0xF0 ≤ a
    → a ≤ 0xF4
    → within (low_second a) (high_second a) b ≡ true
    → ((a ≡ 0xF0) × (0x90 ≤ b) × (b ≤ 0xBF))
      ⊎ ((0xF1 ≤ a) × (a ≤ 0xF3) × (b ≤ 0xBF))
      ⊎ ((a ≡ 0xF4) × (b ≤ 0x8F))
fourth_byte a b h j k = ground arith

four-value :
    (a b c d : ℕ)
    → 0xF0 ≤ a
    → c ≤ 0xBF
    → d ≤ 0xBF
    → ((a ≡ 0xF0) × (0x90 ≤ b) × (b ≤ 0xBF))
      ⊎ ((0xF1 ≤ a) × (a ≤ 0xF3) × (b ≤ 0xBF))
      ⊎ ((a ≡ 0xF4) × (b ≤ 0x8F))
    → IsScalar ((a - 0xF0) * 262144 + (b - 0x80) * 4096 + (c - 0x80) * 64 + (d - 0x80))
four-value a b c d h k l (inl (p, q, s)) = inr (omega arith, omega arith)
four-value a b c d h k l (inr (inl (p, q, s))) = inr (omega arith, omega arith)
four-value a b c d h k l (inr (inr (p, q))) = inr (omega arith, omega arith)

four-IsScalar :
    (a b c d : ℕ)
    → (within 0xF0 0xF4 a
        && within (low_second a) (high_second a) b
        && within 0x80 0xBF c
        && within 0x80 0xBF d)
      ≡ true
    → IsScalar ((a - 0xF0) * 262144 + (b - 0x80) * 4096 + (c - 0x80) * 64 + (d - 0x80))
four-IsScalar a b c d h =
    let second_ok = within (low_second a) (high_second a) b in
    let start_ok = within 0xF0 0xF4 a && second_ok in
    let (front, last) = &&-split (start_ok && within 0x80 0xBF c) (within 0x80 0xBF d) h in
    let (start, third) = &&-split start_ok (within 0x80 0xBF c) front in
    let (first, second) = &&-split (within 0xF0 0xF4 a) second_ok start in
    four-value a b c d (ground arith) (ground arith) (ground arith)
      (fourth_byte a b (ground arith) (ground arith) second)

ascii-IsScalar : (a : ℕ) → ltb a 0x80 ≡ true → IsScalar a
ascii-IsScalar a h = inl (ground arith)

rune_error-IsScalar : IsScalar rune_error
rune_error-IsScalar = inr (omega arith, omega arith)

decode_rune-IsScalar : (a : ℕ) (t : Bytes) → IsScalar (decode_rune a t).0
decode_rune-IsScalar a [] = elim (Bool-cases (ltb a 0x80)) [
  | inl e ↦ rw e (ascii-IsScalar a e)
  | inr e ↦ rw e rune_error-IsScalar
]
decode_rune-IsScalar a (b ∷ []) =
    IsScalar-if _ _ _ (ascii-IsScalar a) (IsScalar-if _ _ _ (two-IsScalar a b) rune_error-IsScalar)
decode_rune-IsScalar a (b ∷ c ∷ []) = IsScalar-if _ _ _ (ascii-IsScalar a) (
    IsScalar-if _ _ _ (two-IsScalar a b)
      (IsScalar-if _ _ _ (three-IsScalar a b c) rune_error-IsScalar))
decode_rune-IsScalar a (b ∷ c ∷ d ∷ t) = IsScalar-if _ _ _ (ascii-IsScalar a) (
    IsScalar-if _ _ _ (two-IsScalar a b) (
      IsScalar-if _ _ _ (three-IsScalar a b c)
        (IsScalar-if _ _ _ (four-IsScalar a b c d) rune_error-IsScalar)))

runes_skip-IsScalar : (k : ℕ) (s : Bytes) → All IsScalar (runes_skip k s)
unfolding runes_skip
runes_skip-IsScalar k [] = tt
runes_skip-IsScalar (suc k) (b ∷ s) = runes_skip-IsScalar k s
runes_skip-IsScalar zero (b ∷ s) =
    (decode_rune-IsScalar b s, runes_skip-IsScalar (decode_rune b s).1 s)

-- Every text, valid or not, is read as scalars.
pub runes-IsScalar : (s : Bytes) → All IsScalar (runes s)
unfolding runes
runes-IsScalar s = runes_skip-IsScalar 0 s
