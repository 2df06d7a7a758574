-- ===== src/Store/Tail/Order.antt =====
-- The order of ids, by the code points of a text.
use Prim.Native.Nat.{ℕ, Ordering, compare as compare_ℕ}
use Prim.Native.String.compare
use Prim.Native.Char.{code}
use Prim.Native.String.{String, [], ◌∷◌, compare, then}
use text.Mathlib.TextPositions.{compare_refl}
use enviadores_wabridge.Prelude.{
  ◌≡◌, ◌<◌, refl, sym, ap, ◌∙◌, Bool, true, false, ◌⊎◌, ◌↔◌, inl, inr, arith,
}
use enviadores_wabridge.Store.Tail.{text_ltb}

abbrev is_less : Ordering → Bool
is_less Ordering.lt = true
is_less _ = false

ltb_of : (s t : String) → text_ltb s t ≡ is_less (compare s t)
ltb_of s t = go (compare s t)
  where
    go : (o : Ordering) → elim o as (λ _. Bool) [ Ordering.lt ↦ true | _ ↦ false ] ≡ is_less o
    go Ordering.lt = refl
    go Ordering.eq = refl
    go Ordering.gt = refl

not_less :
    (a b : ℕ) (o : Ordering)
    → (is_less (then (compare_ℕ a b) o) ≡ false) ↔ ((b < a) ⊎ ((a ≡ b) × (is_less o ≡ false)))
not_less a b o = ground arith

both :
    (a b c : ℕ) (x y z : Bool)
    → (b < a) ⊎ ((a ≡ b) × (x ≡ false))
    → (c < b) ⊎ ((b ≡ c) × (y ≡ false))
    → (x ≡ false → y ≡ false → z ≡ false)
    → (c < a) ⊎ ((a ≡ c) × (z ≡ false))
both a b c x y z (inl h) (inl k) f = inl (omega arith)
both a b c x y z (inl h) (inr (k, q)) f = inl (omega arith)
both a b c x y z (inr (h, p)) (inl k) f = inl (omega arith)
both a b c x y z (inr (h, p)) (inr (k, q)) f = inr (h ∙ k, f p q)

-- Not to come before is transitive.
pub text_ltb_trans :
    (r s t : String) → text_ltb r s ≡ false → text_ltb s t ≡ false → text_ltb r t ≡ false
text_ltb_trans r s t h k =
    ltb_of r t ∙ less_trans r s t (sym (ltb_of r s) ∙ h) (sym (ltb_of s t) ∙ k)
  where
    less_trans :
        (r s t : String)
        → is_less (compare r s) ≡ false
        → is_less (compare s t) ≡ false
        → is_less (compare r t) ≡ false
    less_trans r [] [] h k = h
    less_trans [] (d ∷ s) t h k =
        let before = sym (ap is_less (compare.nil-cons d s)) ∙ h in absurd cc
    less_trans r [] (e ∷ t) h k =
        let before = sym (ap is_less (compare.nil-cons e t)) ∙ k in absurd cc
    less_trans (c ∷ r) (d ∷ s) [] h k = ap is_less (compare.cons-nil c r)
    less_trans (c ∷ r) (d ∷ s) (e ∷ t) h k =
        let first =
          (not_less (code c) (code d) (compare r s)).0
            (sym (ap is_less (compare.cons-cons c d r s)) ∙ h) in
        let second =
          (not_less (code d) (code e) (compare s t)).0
            (sym (ap is_less (compare.cons-cons d e s t)) ∙ k) in
        ap is_less (compare.cons-cons c e r t)
        ∙ (not_less (code c) (code e) (compare r t)).1 (
            both (code c) (code d) (code e) (is_less (compare r s)) (is_less (compare s t))
              (is_less (compare r t)) first second (less_trans r s t))

is_less-then :
    (a b : ℕ) (o : Ordering)
    → (is_less (then (compare_ℕ a b) o) ≡ true) ↔ ((a < b) ⊎ ((a ≡ b) × (is_less o ≡ true)))
is_less-then a b o = ground arith

-- A text is not before one that is before it.
pub text_ltb_asymm : (s t : String) → text_ltb s t ≡ true → text_ltb t s ≡ false
text_ltb_asymm s t h = ltb_of t s ∙ less_asymm s t (sym (ltb_of s t) ∙ h)
  where
    back :
        (a b : ℕ) (x y : Bool)
        → (a < b) ⊎ ((a ≡ b) × (x ≡ true))
        → (x ≡ true → y ≡ false)
        → (a < b) ⊎ ((b ≡ a) × (y ≡ false))
    back a b x y (inl h) f = inl h
    back a b x y (inr (h, p)) f = inr (sym h, f p)

    less_asymm : (s t : String) → is_less (compare s t) ≡ true → is_less (compare t s) ≡ false
    less_asymm [] [] h = let same = sym (ap is_less compare.nil-nil) ∙ h in absurd cc
    less_asymm [] (d ∷ t) h = ap is_less (compare.cons-nil d t)
    less_asymm (c ∷ s) [] h = let after = sym (ap is_less (compare.cons-nil c s)) ∙ h in absurd cc
    less_asymm (c ∷ s) (d ∷ t) h =
        ap is_less (compare.cons-cons d c t s)
        ∙ (not_less (code d) (code c) (compare t s)).1 (
            back (code c) (code d) (is_less (compare s t)) (is_less (compare t s))
              ((is_less-then (code c) (code d) (compare s t)).0
                (sym (ap is_less (compare.cons-cons c d s t)) ∙ h))
              (less_asymm s t))

pub text_ltb_irrefl : (s : String) → text_ltb s s ≡ false
text_ltb_irrefl s = ltb_of s s ∙ ap is_less (compare_refl s)
