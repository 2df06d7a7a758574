-- ===== src/Text/Cut/Runes.antt =====
-- Cuts by characters keep a text valid; cuts by bytes may not.
use enviadores_wabridge.Prelude.{
  ℕ, zero, suc, ◌+◌, ◌-◌, ◌≤◌, ◌<◌, ◌≡◌, refl, ap, ◌∙◌, sym, inl, inr, List, [], ◌∷◌, ◌++◌, All,
  arith, ltb, leb, lt→ltb, false, Bool-cases, length, take, length-append, length-take,
}
use enviadores_wabridge.Text.Utf8.{
  Bytes, IsScalar, rune_start, encode_rune, encode, runes, rune_count,
}
use enviadores_wabridge.Text.Utf8.Shape.{Encodes, one, two, three, four, encode_rune-Encodes}
use enviadores_wabridge.Text.Utf8.Roundtrip.{runes-encode, runes-IsScalar}
use enviadores_wabridge.Text.Cut.{
  IsValid, byte_at, truncate_runes, quote_for_log, byte_cut, byte_at-append,
}

take-IsScalar : (n : ℕ) (rs : List ℕ) → All IsScalar rs → All IsScalar (take n rs)
take-IsScalar zero rs h = tt
take-IsScalar (suc n) [] h = tt
take-IsScalar (suc n) (r ∷ rs) h = (h.0, take-IsScalar n rs h.1)

truncate_runes_cases :
    (s : Bytes) (n : ℕ)
    → (rune_count (truncate_runes s n) ≤ n)
      × (rune_count s ≤ n → truncate_runes s n ≡ s)
      × (IsValid s → runes (truncate_runes s n) ≡ take n (runes s))
      × (IsValid s → IsValid (truncate_runes s n))
unfolding truncate_runes rune_count
truncate_runes_cases s n = elim (Bool-cases (leb (length (runes s)) n)) [
  | inl e ↦ rw e (ground arith, λ h. refl, λ v. sym (take_all n (runes s) (ground arith)), λ v. v)
  | inr e ↦
      let kept = runes-encode (take n (runes s)) (take-IsScalar n (runes s) (runes-IsScalar s)) in
      rw e (
        rw kept (omega (arith, length-take n (runes s))),
        λ h. absurd (ground arith),
        λ v. kept,
        λ v. (take n (runes s), take-IsScalar n (runes s) (runes-IsScalar s), refl),
      )
]
  where
    take_all : (n : ℕ) (rs : List ℕ) → length rs ≤ n → take n rs ≡ rs
    take_all zero [] h = refl
    take_all zero (r ∷ rs) h = absurd (omega arith)
    take_all (suc n) [] h = refl
    take_all (suc n) (r ∷ rs) h = ap (λ x. r ∷ x) (take_all n rs (omega arith))

lead_inside :
    (r : ℕ) (w t : Bytes) (i : ℕ)
    → Encodes r w
    → i < length w
    → 0xC0 ≤ byte_at (w ++ t) i
    → rune_start (byte_at (w ++ t) (suc i)) ≡ false
unfolding rune_start
lead_inside r _ t zero (one a p e) h k = absurd (omega arith)
lead_inside r _ t (suc i) (one a p e) h k = absurd (omega arith)
lead_inside r _ t zero (two a b p q x e) h k = ground arith
lead_inside r _ t (suc zero) (two a b p q x e) h k = absurd (omega arith)
lead_inside r _ t (suc (suc i)) (two a b p q x e) h k = absurd (omega arith)
lead_inside r _ t zero (three a b c p q x y s l e) h k = ground arith
lead_inside r _ t (suc zero) (three a b c p q x y s l e) h k = absurd (omega arith)
lead_inside r _ t (suc (suc zero)) (three a b c p q x y s l e) h k = absurd (omega arith)
lead_inside r _ t (suc (suc (suc i))) (three a b c p q x y s l e) h k = absurd (omega arith)
lead_inside r _ t zero (four a b c d p q x y z l m e) h k = ground arith
lead_inside r _ t (suc zero) (four a b c d p q x y z l m e) h k = absurd (omega arith)
lead_inside r _ t (suc (suc zero)) (four a b c d p q x y z l m e) h k = absurd (omega arith)
lead_inside r _ t (suc (suc (suc zero))) (four a b c d p q x y z l m e) h k = absurd (omega arith)
lead_inside r _ t (suc (suc (suc (suc i)))) (four a b c d p q x y z l m e) h k =
    absurd (omega arith)

rest_byte : (w t : Bytes) (i : ℕ) → length w ≤ i → byte_at (w ++ t) i ≡ byte_at t (i - length w)
rest_byte w t i h =
    ap (byte_at (w ++ t)) {y = length w + (i - length w)} (omega arith)
    ∙ byte_at-append w t (i - length w)

-- On valid UTF-8, truncateRunes returns the first n characters, which are valid UTF-8 again.
pub truncate_runes-take :
    (s : Bytes) (n : ℕ)
    → IsValid s
    → (runes (truncate_runes s n) ≡ take n (runes s)) × IsValid (truncate_runes s n)
truncate_runes-take s n v =
    let (_, _, first, valid) = truncate_runes_cases s n in (first v, valid v)

-- On every text, valid or not, truncateRunes returns a text of at most n characters.
pub truncate_runes_bounds : (s : Bytes) (n : ℕ) → rune_count (truncate_runes s n) ≤ n
truncate_runes_bounds s n = (truncate_runes_cases s n).0

-- In valid UTF-8 a byte that announces more bytes is never the last of its rune.
lead_followed :
    (rs : List ℕ) (i : ℕ)
    → All IsScalar rs
    → 0xC0 ≤ byte_at (encode rs) i
    → rune_start (byte_at (encode rs) (suc i)) ≡ false
unfolding encode
lead_followed [] i h k = absurd (omega arith)
lead_followed (r ∷ rs) i h k = elim (Bool-cases (ltb i (length (encode_rune r)))) [
  | inl e ↦ lead_inside r (encode_rune r) (encode rs) i (encode_rune-Encodes r h.0) (ground arith) k
  | inr e ↦
      let past : length (encode_rune r) ≤ i = ground arith in
      let here = rest_byte (encode_rune r) (encode rs) i past in
      let next = rest_byte (encode_rune r) (encode rs) (suc i) (omega arith) in
      let later = lead_followed rs (i - length (encode_rune r)) h.1 (omega (arith, here)) in
      ap rune_start
        (next ∙ ap (byte_at (encode rs)) {y = suc (i - length (encode_rune r))} (omega arith))
      ∙ later
]

valid_lead :
    (s : Bytes) (i : ℕ) → IsValid s → 0xC0 ≤ byte_at s i → rune_start (byte_at s (suc i)) ≡ false
valid_lead s i (rs, h, e) k =
    ap (λ x. rune_start (byte_at x (suc i))) e ∙ lead_followed rs i h (rw (← e) k)

byte_at-take : (n i : ℕ) (s : Bytes) → i < n → byte_at (take n s) i ≡ byte_at s i
byte_at-take zero i s h = absurd (omega arith)
byte_at-take (suc n) i [] h = refl
byte_at-take (suc n) zero (b ∷ s) h = refl
byte_at-take (suc n) (suc i) (b ∷ s) h = byte_at-take n i s (omega arith)

byte_past : (s : Bytes) (i : ℕ) → length s ≤ i → byte_at s i ≡ 0
byte_past [] i h = refl
byte_past (b ∷ s) zero h = absurd (omega arith)
byte_past (b ∷ s) (suc i) h = byte_past s i (omega arith)

byte_at-left : (w t : Bytes) (i : ℕ) → i < length w → byte_at (w ++ t) i ≡ byte_at w i
byte_at-left [] t i h = absurd (omega arith)
byte_at-left (b ∷ w) t zero h = refl
byte_at-left (b ∷ w) t (suc i) h = byte_at-left w t i (omega arith)

-- A byte that announces more bytes makes a text invalid if the next byte begins a rune.
broken : (s : Bytes) (i b : ℕ) → 0xC0 ≤ byte_at s i → byte_at s (suc i) ≡ b → b < 0x80 → ¬ IsValid s
unfolding rune_start
broken s i b lead e small v = ground (arith, valid_lead s i v lead)

-- The cut of a text to its first n bytes is not valid UTF-8 where the n-th byte announces more
-- bytes and the text is longer.
pub byte_cut_splits :
    (s : Bytes) (n : ℕ) → suc n < length s → 0xC0 ≤ byte_at s n → ¬ IsValid (byte_cut (suc n) s)
byte_cut_splits s n long lead = rw (lt→ltb _ _ long) (
    broken (take (suc n) s) n 0 (rw (byte_at-take (suc n) n s (omega arith)) lead)
      (byte_past (take (suc n) s) (suc n) (omega (arith, length-take (suc n) s))) (omega arith))

quoted_byte :
    (w : Bytes) (i : ℕ) (dots tail : Bytes)
    → i < length w
    → byte_at (b'"' ∷ ((w ++ dots) ++ tail)) (suc i) ≡ byte_at w i
quoted_byte w i dots tail h =
    byte_at-left (w ++ dots) tail i (omega (arith, length-append w dots)) ∙ byte_at-left w dots i h

dot_byte :
    (w : Bytes) (i : ℕ) (dots tail : Bytes)
    → i ≡ length w
    → byte_at (b'"' ∷ ((w ++ b'.' ∷ dots) ++ tail)) (suc i) ≡ b'.'
dot_byte w i dots tail e =
    byte_at-left (w ++ b'.' ∷ dots) tail i (omega (arith, length-append w (b'.' ∷ dots)))
    ∙ rest_byte w (b'.' ∷ dots) i (omega arith)
    ∙ ap (byte_at (b'.' ∷ dots)) {y = 0} (omega arith)

-- quoteForLog cuts by bytes: a text of more than 24 bytes whose 24th byte announces more bytes
-- comes out as invalid UTF-8.
pub quote_for_log_splits :
    (s : Bytes) → 24 < length s → 0xC0 ≤ byte_at s 23 → ¬ IsValid (quote_for_log s)
unfolding quote_for_log
quote_for_log_splits s long lead =
    let size : length (take 24 s) ≡ 24 = omega (arith, length-take 24 s) in
    rw (lt→ltb 24 (length s) long) (
      broken _ 24 b'.'
        (rw (quoted_byte (take 24 s) 23 _ _ (omega arith), byte_at-take 24 23 s (omega arith)) lead)
        (dot_byte (take 24 s) 24 _ _ (sym size)) (omega arith))
