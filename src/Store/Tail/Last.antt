-- ===== src/Store/Tail/Last.antt =====
-- The row that the query of RecomputeChatTail finds: the last message of the chat that is shown.
use enviadores_wabridge.Prelude.{
  Bool, false, ◌≡◌, ◌≢◌, ◌<◌, ltb, eq_iff, refl, sym, ap, ◌∙◌, String, Bool, true, false, none,
  some, List, [], ◌∷◌, ◌==◌, arith, ◌⊎◌, inl, inr, Bool-cases, &&-split, Option, Mem, All, subst,
}
use enviadores_wabridge.Store.Tables.{MessageRow}
use enviadores_wabridge.Store.Edits.Target.{some_inj}
use enviadores_wabridge.Store.Tail.Order.{text_ltb_trans, text_ltb_asymm, text_ltb_irrefl}
use enviadores_wabridge.Store.Tail.{text_ltb, countable, newer, tail_row}

tail_row-Mem :
    (p : MessageRow → Bool) (xs : List MessageRow) (y : MessageRow)
    → tail_row p xs ≡ some y
    → Mem y xs × (p y ≡ true)
unfolding tail_row
tail_row-Mem p [] y h = absurd (ground arith)
tail_row-Mem p (x ∷ xs) y h = ground (arith, tail_row-Mem p xs y)

tail_row-none :
    (p : MessageRow → Bool) (xs : List MessageRow) (x : MessageRow)
    → tail_row p xs ≡ none
    → Mem x xs
    → p x ≡ false
unfolding tail_row
tail_row-none p [] x h m = absurd m
tail_row-none p (y ∷ xs) x h (inl e) = ground (arith, ap p e)
tail_row-none p (y ∷ xs) x h (inr m) = tail_row-none p xs x (ground arith) m

-- A message that the chat list shows: of the chat, and neither a reaction nor a notice of the system.
abbrev pub IsShown : String → MessageRow → Type 0
IsShown chat x = (x.chat_jid ≡ chat) × (x.message_type ≢ "reaction") × (x.message_type ≢ "system")

-- `x` is older than `y`, or of the same second with an id that is not after that of `y`.
abbrev pub NotAfter : MessageRow → MessageRow → Type 0
NotAfter x y =
    (x.timestamp < y.timestamp) ⊎ ((x.timestamp ≡ y.timestamp) × (text_ltb y.id x.id ≡ false))

NotAfter-trans : (x y z : MessageRow) → NotAfter x y → NotAfter y z → NotAfter x z
NotAfter-trans x y z (inl h) (inl k) = inl (omega arith)
NotAfter-trans x y z (inl h) (inr (k, q)) = inl (omega arith)
NotAfter-trans x y z (inr (h, p)) (inl k) = inl (omega arith)
NotAfter-trans x y z (inr (h, p)) (inr (k, q)) = inr (h ∙ k, text_ltb_trans z.id y.id x.id q p)

NotAfter-newer : (x y : MessageRow) → newer y x ≡ true → NotAfter x y
unfolding newer
NotAfter-newer x y h = elim (Bool-cases (ltb x.timestamp y.timestamp)) [
  | inl before ↦ inl (ground arith)
  | inr not_before ↦ inr (ground arith, text_ltb_asymm x.id y.id (ground arith))
]

NotAfter-not_newer : (x y : MessageRow) → newer y x ≡ false → NotAfter y x
unfolding newer
NotAfter-not_newer x y h = ground arith

unequal : (s t : String) → s ≢ t → (s == t) ≡ false
unequal s t h = elim (Bool-cases (s == t)) [ inl e ↦ absurd (h ((eq_iff s t).0 e)) | inr e ↦ e ]

IsShown-counts : (chat : String) (x : MessageRow) → IsShown chat x → countable chat x ≡ true
unfolding countable
IsShown-counts chat x (of, reaction, system) =
    rw
      (
        (eq_iff x.chat_jid chat).1 of,
        unequal x.message_type "reaction" reaction,
        unequal x.message_type "system" system,
      )
      refl

counted-IsShown : (chat : String) (x : MessageRow) → countable chat x ≡ true → IsShown chat x
unfolding countable
counted-IsShown chat x h =
    let (of, kind) = &&-split (x.chat_jid == chat) _ h in
    (
      (eq_iff x.chat_jid chat).0 of,
      λ e.
          let equal = (eq_iff x.message_type "reaction").1 e in
          absurd (ground (arith, kind, equal)),
      λ e. let equal = (eq_iff x.message_type "system").1 e in absurd (ground (arith, kind, equal)),
    )

first :
    (p : MessageRow → Bool) (xs : List MessageRow) (x : MessageRow)
    → Mem x xs
    → p x ≡ true
    → (y : MessageRow) × (tail_row p xs ≡ some y) × NotAfter x y
unfolding tail_row
first p [] x m k = absurd m
first p (z ∷ xs) x (inl e) k = go (tail_row p xs) refl
  where
    counts : p z ≡ true
    counts = ap p (sym e) ∙ k

    at_head : NotAfter x z
    at_head = inr (
      ap (λ (r : MessageRow). r.timestamp) e,
      ap (λ (r : MessageRow). text_ltb z.id r.id) e ∙ text_ltb_irrefl z.id,
    )

    go :
        (r : Option MessageRow)
        → tail_row p xs ≡ r
        → (y : MessageRow) × (tail_row p (z ∷ xs) ≡ some y) × NotAfter x y
    go none at = (z, rw (counts, tail_row, at) refl, at_head)
    go (some t) at = elim (Bool-cases (newer t z)) [
      | inl above ↦
          (t, rw (counts, at, above) refl, NotAfter-trans x z t at_head (NotAfter-newer z t above))
      | inr below ↦ (z, rw (counts, at, below) refl, at_head)
    ]
first p (z ∷ xs) x (inr m) k =
    let (t, at, le) = first p xs x m k in
    elim (Bool-cases (p z)) [
      | inr skipped ↦ (t, rw (skipped, at) refl, le)
      | inl counts ↦ elim (Bool-cases (newer t z)) [
        | inl above ↦ (t, rw (counts, at, above) refl, le)
        | inr below ↦
            (z, rw (counts, at, below) refl, NotAfter-trans x t z le (NotAfter-not_newer z t below))
      ]
    ]

-- A message that the chat list does not show for this chat.
abbrev pub IsHidden : String → MessageRow → Type 0
IsHidden chat x =
    (x.chat_jid ≢ chat) ⊎ ((x.message_type ≡ "reaction") ⊎ (x.message_type ≡ "system"))

uncounted-IsHidden : (chat : String) (x : MessageRow) → countable chat x ≡ false → IsHidden chat x
unfolding countable
uncounted-IsHidden chat x h = elim (Bool-cases (x.chat_jid == chat)) [
  | inr other ↦ inl (λ e. let same = (eq_iff x.chat_jid chat).1 e in absurd cc)
  | inl of ↦ elim (Bool-cases (x.message_type == "reaction")) [
    | inl e ↦ inr (inl ((eq_iff x.message_type "reaction").0 e))
    | inr kind ↦ inr (inr ((eq_iff x.message_type "system").0 (ground (arith, h, of, kind))))
  ]
]

All-Mem :
    {P : MessageRow → Type 0} (xs : List MessageRow)
    → ((x : MessageRow) → Mem x xs → P x)
    → All P xs
All-Mem [] h = tt
All-Mem (x ∷ xs) h = (h x (inl refl), All-Mem xs (λ y m. h y (inr m)))

-- The row that the query finds is stored and shown, and no shown message comes after it.
abbrev pub IsLast : String → List MessageRow → MessageRow → Type 0
IsLast chat xs y = Mem y xs × IsShown chat y × All (λ x. IsHidden chat x ⊎ NotAfter x y) xs

pub tail_row-IsLast :
    (chat : String) (xs : List MessageRow) (x : MessageRow)
    → Mem x xs
    → IsShown chat x
    → (y : MessageRow) × (tail_row (countable chat) xs ≡ some y) × IsLast chat xs y
tail_row-IsLast chat xs x m shown =
    let (y, at, _) = first (countable chat) xs x m (IsShown-counts chat x shown) in
    let (stored, counts) = tail_row-Mem (countable chat) xs y at in
    (y, at, (stored, counted-IsShown chat y counts, All-Mem xs (after y at)))
  where
    after :
        (y : MessageRow)
        → tail_row (countable chat) xs ≡ some y
        → (z : MessageRow) → Mem z xs
        → IsHidden chat z ⊎ NotAfter z y
    after y at z n = elim (Bool-cases (countable chat z)) [
      | inr hidden ↦ inl (uncounted-IsHidden chat z hidden)
      | inl counts ↦
          let (t, at_t, le) = first (countable chat) xs z n counts in
          inr (subst (NotAfter z) (some_inj t y (sym at_t ∙ at)) le)
    ]
