-- ===== src/Media/Size.antt =====
-- The size of an inline thumbnail: MakeImageThumbnail of internal/media/thumbnail.go.
use native.Mathlib.Nat.{div-le_of_le-mul, mul-le-mul_right}
use enviadores_wabridge.Prelude.{
  ℕ, ◌*◌, ◌/◌, ◌≡◌, ◌≤◌, ◌<◌, true, false, ◌||◌, ltb, leb, if◌then◌else◌, arith, Bool-cases, inl,
  inr,
}

-- thumbnailMaxEdge
abbrev pub thumbnail_max_edge : ℕ
thumbnail_max_edge = 200

abbrev pub at_least_one : ℕ → ℕ
at_least_one n = if ltb n 1 then 1 else n

-- The width and the height of the thumbnail of a picture.
unfoldable pub thumbnail_size : ℕ → ℕ → ℕ × ℕ
thumbnail_size w h =
    if ltb thumbnail_max_edge w || ltb thumbnail_max_edge h
    then (if leb h w
        then (thumbnail_max_edge, at_least_one (h * thumbnail_max_edge / w))
        else (at_least_one (w * thumbnail_max_edge / h), thumbnail_max_edge))
    else (w, h)

le_of : (a b : ℕ) → 200 < b → 200 ≤ b
le_of a b long = omega arith

wide : (a b : ℕ) → 200 < b → a * 200 ≤ b * a
wide a b long = let m = mul-le-mul_right a (le_of a b long) in omega arith

-- The bounds of a quotient of the longer edge.
scaled_bounds : (a b : ℕ) → 200 < b → a ≤ b → (a * 200 / b ≤ 200) × (a * 200 / b ≤ a)
scaled_bounds a b long le = (div-le_of_le-mul b (omega arith), div-le_of_le-mul b (wide a b long))

at_least_one_bounds :
    (q a : ℕ)
    → 0 < a
    → (q ≤ 200) × (q ≤ a)
    → (0 < at_least_one q) × (at_least_one q ≤ a) × (at_least_one q ≤ 200)
at_least_one_bounds q a pos (fits, le) = ground arith

-- The shorter edge of a picture too large.
shorter_bounds :
    (a b : ℕ)
    → 0 < a
    → 200 < b
    → a ≤ b
    → (0 < at_least_one (a * 200 / b))
      × (at_least_one (a * 200 / b) ≤ a)
      × (at_least_one (a * 200 / b) ≤ 200)
shorter_bounds a b pos long le = at_least_one_bounds (a * 200 / b) a pos (scaled_bounds a b long le)

wider : (w h : ℕ) → ltb 200 w || ltb 200 h ≡ true → leb h w ≡ true → (200 < w) × (h ≤ w)
wider w h large flat = ground arith

taller : (w h : ℕ) → ltb 200 w || ltb 200 h ≡ true → leb h w ≡ false → (200 < h) × (w ≤ h)
taller w h large tall = ground arith

longer_bounds : (b : ℕ) → 200 < b → (0 < 200) × (200 ≤ b) × (200 ≤ 200)
longer_bounds b long = (omega arith, omega arith, omega arith)

abbrev pub IsThumbnail : ℕ × ℕ → ℕ → ℕ → Type 0
IsThumbnail size w h =
    ((0 < size.0) × (size.0 ≤ w) × (size.0 ≤ 200)) × ((0 < size.1) × (size.1 ≤ h) × (size.1 ≤ 200))

small_bounds : (w h : ℕ) → ltb 200 w || ltb 200 h ≡ false → 0 < w → 0 < h → IsThumbnail (w, h) w h
small_bounds w h small pw ph = ground arith

-- For a picture with a width and a height above zero, each edge of its thumbnail is at least one
-- pixel, at most 200, and no longer than that edge of the picture.
pub thumbnail_size_bounds : (w h : ℕ) → 0 < w → 0 < h → IsThumbnail (thumbnail_size w h) w h
unfolding thumbnail_size
thumbnail_size_bounds w h pw ph = elim (Bool-cases (ltb 200 w || ltb 200 h)) [
  | inl large ↦ elim (Bool-cases (leb h w)) [
    | inl flat ↦
        rw (large, flat)
          (
            longer_bounds w ((wider w h large flat).0),
            shorter_bounds h w ph ((wider w h large flat).0) ((wider w h large flat).1),
          )
    | inr tall ↦
        rw (large, tall)
          (
            shorter_bounds w h pw ((taller w h large tall).0) ((taller w h large tall).1),
            longer_bounds h ((taller w h large tall).0),
          )
  ]
  | inr small ↦ rw small (small_bounds w h small pw ph)
]
