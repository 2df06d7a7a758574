-- ===== src/Bridge/CheckNumber/Normal.antt =====
-- What NormalizeCheckPhone of internal/wabridge/checknumber.go returns, it returns again.
use enviadores_wabridge.Prelude.{
  ℕ, ◌≡◌, ◌≤◌, refl, ap, ◌∷◌, [], List, true, false, some, eqb, ltb, length, arith, All, subst, map,
  Bool-cases, inl, inr,
}
use mathlib.Core.List.{reverse, reverse_aux, reverse-reverse}
use enviadores_wabridge.Text.Utf8.{Bytes, decode_rune}
use enviadores_wabridge.Text.Trim.{trim_space, is_space, pieces_skip, drop_spaces, join}
use enviadores_wabridge.Store.Edits.Target.{some_inj}
use enviadores_wabridge.Bridge.NewChat.{all_digits}
use enviadores_wabridge.Bridge.CheckNumber.{
  is_filler, without_fillers, with_plus, is_check_phone, normalize_check_phone,
}

-- An ASCII byte that is no space.
abbrev IsPlain : ℕ → Type 0
IsPlain c = (ltb c 0x80 ≡ true) × (is_space c ≡ false)

decode_rune-plain : (c : ℕ) (s : Bytes) → ltb c 0x80 ≡ true → decode_rune c s ≡ (c, 0)
decode_rune-plain c [] h = rw h refl
decode_rune-plain c (x ∷ []) h = rw h refl
decode_rune-plain c (x ∷ y ∷ []) h = rw h refl
decode_rune-plain c (x ∷ y ∷ z ∷ s) h = rw h refl

single : ℕ → ℕ × Bytes
single c = (c, c ∷ [])

pieces_skip-plain : (s : Bytes) → All IsPlain s → pieces_skip 0 s ≡ map single s
unfolding pieces_skip single
pieces_skip-plain [] h = refl
pieces_skip-plain (c ∷ s) h = rw (decode_rune-plain c s h.0.0, pieces_skip-plain s h.1) refl

abbrev IsWord : ℕ × Bytes → Type 0
IsWord p = is_space p.0 ≡ false

words : (s : Bytes) → All IsPlain s → All IsWord (map single s)
unfolding single
words [] h = tt
words (c ∷ s) h = (h.0.1, words s h.1)

All-reverse_aux :
    {A : Type 0} (P : A → Type 0) (s t : List A) → All P s → All P t → All P (reverse_aux s t)
All-reverse_aux P [] t h k = k
All-reverse_aux P (x ∷ s) t h k = All-reverse_aux P s (x ∷ t) h.1 (h.0, k)

drop_spaces-words : (ps : List (ℕ × Bytes)) → All IsWord ps → drop_spaces ps ≡ ps
unfolding drop_spaces
drop_spaces-words [] h = refl
drop_spaces-words (p ∷ ps) h = rw (h.0) refl

join-single : (s : Bytes) → join (map single s) ≡ s
unfolding join single
join-single [] = refl
join-single (c ∷ s) = ap (λ t. c ∷ t) (join-single s)

trim_space-plain : (s : Bytes) → All IsPlain s → trim_space s ≡ s
unfolding trim_space
trim_space-plain s h =
    let ps = map single s in
    let w = words s h in
    rw
      (
        pieces_skip-plain s h,
        drop_spaces-words ps w,
        drop_spaces-words (reverse ps) (All-reverse_aux IsWord ps [] w tt),
        reverse-reverse ps,
      )
      (join-single s)

-- A digit is neither removed nor a space.
digits-IsPlain : (s : Bytes) → all_digits s ≡ true → All IsPlain s
unfolding all_digits is_space
digits-IsPlain [] h = tt
digits-IsPlain (c ∷ s) h =
    ((ground (arith, h), ground (arith, h)), digits-IsPlain s (ground (arith, h)))

without_fillers-digits : (s : Bytes) → all_digits s ≡ true → without_fillers s ≡ s
unfolding all_digits without_fillers
without_fillers-digits [] h = refl
without_fillers-digits (c ∷ s) h = ground (arith, h, without_fillers-digits s (ground (arith, h)))

abbrev pub IsNormal : Bytes → Type 0
IsNormal s = (d : Bytes) × (s ≡ b'+' ∷ d) × (8 ≤ length d) × (length d ≤ 15) × (all_digits d ≡ true)

check_phone-IsNormal :
    (s : Bytes) → is_check_phone s ≡ true → (normalize_check_phone s ≡ some s) × IsNormal s
unfolding normalize_check_phone without_fillers is_space
check_phone-IsNormal [] h = absurd (ground (arith, h))
check_phone-IsNormal (c ∷ d) h =
    let digits : all_digits d ≡ true = ground (arith, h) in
    let plus : c ≡ b'+' = ground (arith, h) in
    let is_plus : eqb c b'+' ≡ true = ground (arith, plus) in
    let filler : is_filler c ≡ false = ground (arith, plus) in
    let plain : All IsPlain (c ∷ d) =
      ((ground (arith, plus), ground (arith, plus)), digits-IsPlain d digits) in
    (
      rw (trim_space-plain (c ∷ d) plain, without_fillers-digits d digits)
          (rw (filler, is_plus, h) refl),
      (d, ap (λ x. x ∷ d) plus, ground (arith, h), ground (arith, h), digits),
    )

-- A phone that NormalizeCheckPhone returns is a plus sign and 8 to 15 digits, and
-- NormalizeCheckPhone returns it again as it is.
pub normalize_check_phone-twice :
    (raw s : Bytes)
    → normalize_check_phone raw ≡ some s
    → (normalize_check_phone s ≡ some s) × IsNormal s
unfolding normalize_check_phone
normalize_check_phone-twice raw s h =
    let u = with_plus (without_fillers (trim_space raw)) in
    elim (Bool-cases (is_check_phone u)) [
      | inl e ↦
          subst (λ y. (normalize_check_phone y ≡ some y) × IsNormal y) (some_inj u s (rw e at h))
            (check_phone-IsNormal u e)
      | inr e ↦ absurd (cc (rw e at h))
    ]
