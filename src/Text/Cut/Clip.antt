-- ===== src/Text/Cut/Clip.antt =====
-- `clip` keeps the longest prefix of whole runes that fits.
use enviadores_wabridge.Prelude.{
  ℕ, zero, suc, ◌+◌, ◌-◌, ◌≤◌, ◌<◌, ◌≡◌, refl, ap, ◌∙◌, inl, inr, List, [], ◌∷◌, ◌++◌, All, arith,
  leb, true, Bool-cases, length, take, length-append, length-take, drop, take-append-drop,
  if◌then◌else◌,
}
use mathlib.Core.List.{append-nil}
use enviadores_wabridge.Text.Utf8.{Bytes, IsScalar, rune_start, encode_rune, encode}
use enviadores_wabridge.Text.Utf8.Shape.{Encodes, one, two, three, four, encode_rune-Encodes}
use enviadores_wabridge.Text.Cut.{IsValid, byte_at, cut_point, clip, byte_at-append}

-- The runes, from the front, whose encodings fit in n bytes together.
unfoldable pub fitting : ℕ → List ℕ → List ℕ
fitting n [] = []
fitting n (r ∷ rs) =
    let rest = fitting (n - length (encode_rune r)) rs in
    if leb (length (encode_rune r)) n then r ∷ rest else []

-- The first byte of an encoded rune begins it, and the others do not.
cut_point_inside :
    (r : ℕ) (w t : Bytes) (n : ℕ) → Encodes r w → n < length w → cut_point (w ++ t) n ≡ 0
unfolding cut_point rune_start
cut_point_inside r _ t zero _ h = refl
cut_point_inside r _ t (suc zero) (one a p e) h = ground arith
cut_point_inside r _ t (suc zero) (two a b p k i e) h = ground arith
cut_point_inside r _ t (suc zero) (three a b c p k i j s l e) h = ground arith
cut_point_inside r _ t (suc zero) (four a b c d p k i j l m n e) h = ground arith
cut_point_inside r _ t (suc (suc zero)) (one a p e) h = ground arith
cut_point_inside r _ t (suc (suc zero)) (two a b p k i e) h = ground arith
cut_point_inside r _ t (suc (suc zero)) (three a b c p k i j s l e) h = ground arith
cut_point_inside r _ t (suc (suc zero)) (four a b c d p k i j l m n e) h = ground arith
cut_point_inside r _ t (suc (suc (suc zero))) (one a p e) h = ground arith
cut_point_inside r _ t (suc (suc (suc zero))) (two a b p k i e) h = ground arith
cut_point_inside r _ t (suc (suc (suc zero))) (three a b c p k i j s l e) h = ground arith
cut_point_inside r _ t (suc (suc (suc zero))) (four a b c d p k i j l m n e) h = ground arith
cut_point_inside r _ t (suc (suc (suc (suc q)))) (one a p e) h = absurd (omega arith)
cut_point_inside r _ t (suc (suc (suc (suc q)))) (two a b p k i e) h = absurd (omega arith)
cut_point_inside r _ t (suc (suc (suc (suc q)))) (three a b c p k i j s l e) h =
    absurd (omega arith)
cut_point_inside r _ t (suc (suc (suc (suc q)))) (four a b c d p k i j l m n e) h =
    absurd (omega arith)

-- A text of whole runes begins with a byte that begins a rune.
encode-start : (r : ℕ) (w t : Bytes) → Encodes r w → rune_start (byte_at (w ++ t) 0) ≡ true
unfolding rune_start
encode-start r _ t (one a p e) = ground arith
encode-start r _ t (two a b p k i e) = ground arith
encode-start r _ t (three a b c p k i j s l e) = ground arith
encode-start r _ t (four a b c d p k i j l m n e) = ground arith

-- Past the first rune the search goes on in the rest.
cut_point-append :
    (w t : Bytes) (m n : ℕ)
    → n ≡ length w + m
    → 0 < length w
    → rune_start (byte_at t 0) ≡ true
    → cut_point (w ++ t) n ≡ length w + cut_point t m
unfolding cut_point
cut_point-append w t zero zero e p st = absurd (omega arith)
cut_point-append w t zero (suc n) e p st =
    ground (arith, st, ap (byte_at (w ++ t)) e ∙ byte_at-append w t 0)
cut_point-append w t (suc m) zero e p st = absurd (omega arith)
cut_point-append w t (suc m) (suc n) e p st = ground (
  arith,
  ap (byte_at (w ++ t)) e ∙ byte_at-append w t (suc m),
  cut_point-append w t m n (omega arith) p st,
)

rune-nonempty : (r : ℕ) (w : Bytes) → Encodes r w → 0 < length w
rune-nonempty r _ (one a p e) = omega arith
rune-nonempty r _ (two a b p k i e) = omega arith
rune-nonempty r _ (three a b c p k i j s l e) = omega arith
rune-nonempty r _ (four a b c d p k i j l m n e) = omega arith

texts-start :
    (rs : List ℕ)
    → All IsScalar rs
    → 0 < length (encode rs)
    → rune_start (byte_at (encode rs) 0) ≡ true
unfolding encode
texts-start [] h p = absurd (omega arith)
texts-start (r ∷ rs) h p = encode-start r (encode_rune r) (encode rs) (encode_rune-Encodes r h.0)

take_past : (w t : Bytes) (n k : ℕ) → n ≡ length w + k → take n (w ++ t) ≡ w ++ take k t
take_past [] t n k e = ap (λ x. take x t) {y = k} (omega arith)
take_past (b ∷ w) t zero k e = absurd (omega arith)
take_past (b ∷ w) t (suc n) k e = ap (λ x. b ∷ x) (take_past w t n k (omega arith))

module _ (r : ℕ) (rs : List ℕ) (n : ℕ) (fits : leb (length (encode_rune r)) n ≡ true) where
  rest_cut :
      n < length (encode_rune r ++ encode rs) → n - length (encode_rune r) < length (encode rs)
  rest_cut h = ground (arith, length-append (encode_rune r) (encode rs))

  rest_long : n < length (encode_rune r ++ encode rs) → 0 < length (encode rs)
  rest_long h = ground (arith, length-append (encode_rune r) (encode rs))

cut_encode :
    (rs : List ℕ) (n : ℕ)
    → All IsScalar rs
    → n < length (encode rs)
    → take (cut_point (encode rs) n) (encode rs) ≡ encode (fitting n rs)
unfolding encode fitting
cut_encode [] n h p = absurd (omega arith)
cut_encode (r ∷ rs) n h p = elim (Bool-cases (leb (length (encode_rune r)) n)) [
  | inl e ↦
      rw
        (
          e,
          cut_point-append (encode_rune r) (encode rs) (n - length (encode_rune r)) n (ground arith)
              (rune-nonempty r (encode_rune r) (encode_rune-Encodes r h.0))
              (texts-start rs h.1 (rest_long r rs n e p)),
          take_past (encode_rune r) (encode rs) _
              (cut_point (encode rs) (n - length (encode_rune r))) refl,
        )
        (ap (λ x. encode_rune r ++ x)
          (cut_encode rs (n - length (encode_rune r)) h.1 (rest_cut r rs n e p)))
  | inr e ↦ rw (
    e,
    cut_point_inside r (encode_rune r) (encode rs) n (encode_rune-Encodes r h.0) (ground arith),
  )
]

fitting_all : (rs : List ℕ) (n : ℕ) → length (encode rs) ≤ n → fitting n rs ≡ rs
unfolding encode fitting
fitting_all [] n p = refl
fitting_all (r ∷ rs) n p = ground (
  arith,
  length-append (encode_rune r) (encode rs),
  fitting_all rs (n - length (encode_rune r))
      (omega (arith, length-append (encode_rune r) (encode rs))),
)

-- On valid UTF-8, clip returns the longest run of whole runes, from the front, that fits in n
-- bytes: it neither splits a rune nor drops one that would fit.
pub clip-encode :
    (rs : List ℕ) (n : ℕ) → All IsScalar rs → clip (encode rs) n ≡ encode (fitting n rs)
unfolding clip
clip-encode rs n h = elim (Bool-cases (leb (length (encode rs)) n)) [
  | inl e ↦ rw (e, fitting_all rs n (ground arith))
  | inr e ↦ rw e (cut_encode rs n h (ground arith))
]

cut_point-le : (s : Bytes) (n : ℕ) → cut_point s n ≤ n
unfolding cut_point
cut_point-le s zero = omega arith
cut_point-le s (suc n) = ground (arith, cut_point-le s n)

-- Whatever the bytes, clip returns a prefix of at most n bytes.
pub clip_bounds :
    (s : Bytes) (n : ℕ) → (length (clip s n) ≤ n) × ((t : Bytes) × (clip s n ++ t ≡ s))
unfolding clip
clip_bounds s n = elim (Bool-cases (leb (length s) n)) [
  | inl e ↦ rw e (ground arith, ([], append-nil s))
  | inr e ↦ rw e (
    omega (arith, length-take (cut_point s n) s, cut_point-le s n),
    (drop (cut_point s n) s, take-append-drop (cut_point s n) s),
  )
]

fitting-IsScalar : (rs : List ℕ) (n : ℕ) → All IsScalar rs → All IsScalar (fitting n rs)
unfolding fitting
fitting-IsScalar [] n h = tt
fitting-IsScalar (r ∷ rs) n h = ground (arith, fitting-IsScalar rs (n - length (encode_rune r)) h.1)

-- A clipped text stays valid UTF-8.
pub clip-IsValid : (s : Bytes) (n : ℕ) → IsValid s → IsValid (clip s n)
clip-IsValid s n (rs, h, e) =
    (fitting n rs, fitting-IsScalar rs n h, ap (λ x. clip x n) e ∙ clip-encode rs n h)
