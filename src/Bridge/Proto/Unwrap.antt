-- ===== src/Bridge/Proto/Unwrap.antt =====
-- What unwrapMessage of internal/wabridge/messages.go returns.
use enviadores_wabridge.Prelude.{
  ℕ, zero, suc, ◌-◌, ◌≡◌, refl, ◌∙◌, subst, arith, String, ◌==◌, Bool-cases, inl, inr, List, [],
  ◌∷◌, some, All, Mem,
}
use enviadores_wabridge.Bridge.Proto.{
  Proto, blank, with_field, Field, wrapper, Inner, absent, holds, field_name, get, inner_of,
  wrappers, inner_message, unwrap_rounds, unwrap_message,
}

-- The message is the bare one inside so many containers, by the choice that the code makes.
pub data Peeled (b : Proto) : ℕ → Proto → Type 0 where
  bare : inner_message wrappers b ≡ absent → Peeled b 0 b
  within :
      {n : ℕ} {m i : Proto} → inner_message wrappers m ≡ holds i → Peeled b n i → Peeled b (suc n) m

holds_inj : (i j : Proto) → holds i ≡ holds j → i ≡ j
holds_inj i j e = cc

recount : (b m : Proto) (n k : ℕ) → n ≡ k → Peeled b n m → Peeled b k m
recount b m n k e w = subst (λ j. Peeled b j m) e w

rounds-Peeled : (k n : ℕ) (b m : Proto) → Peeled b n m → Peeled b (n - k) (unwrap_rounds k m)
unfolding unwrap_rounds
rounds-Peeled zero n b m w = recount b m n (n - 0) (omega arith) w
rounds-Peeled (suc k) zero b m (bare e) =
    rw (e, unwrap_rounds) (recount m m 0 (0 - suc k) (omega arith) (bare e))
rounds-Peeled (suc k) (suc n) b m (within {i = i} e w) =
    rw (e, unwrap_rounds)
      (recount b (unwrap_rounds k i) (n - k) (suc n - suc k) (omega arith)
        (rounds-Peeled k n b i w))

-- The nesting of a message has an end.
abbrev IsFinite : Proto → Type 0
IsFinite m = (n : ℕ) × (b : Proto) × Peeled b n m

abbrev AreFinite : Proto → Type 0
AreFinite m = (name : String) (i : Proto) → inner_of (get name m) ≡ holds i → IsFinite i

first_inner :
    (ws : List String) (m i : Proto) → AreFinite m → inner_message ws m ≡ holds i → IsFinite i
unfolding inner_message
first_inner [] m i h e = absurd (cc)
first_inner (w ∷ ws) m i h e = go (first_inner ws m i h) (inner_of (get w m)) refl
  where
    go :
        (inner_message ws m ≡ holds i → IsFinite i)
        → (x : Inner) → inner_of (get w m) ≡ x
        → IsFinite i
    go rest absent at = rest (rw (at, inner_message) at e)
    go rest (holds j) at = h w i (at ∙ rw (at, inner_message) at e)

AreFinite-IsFinite : (m : Proto) → AreFinite m → IsFinite m
AreFinite-IsFinite m h = go (inner_message wrappers m) refl
  where
    go : (x : Inner) → inner_message wrappers m ≡ x → IsFinite m
    go absent e = (0, m, bare e)
    go (holds i) e = let (n, b, w) = first_inner wrappers m i h e in (suc n, b, within e w)

mutual
  unfolding get

  proto-AreFinite : (m : Proto) → AreFinite m
  proto-AreFinite blank name i e = absurd (cc)
  proto-AreFinite (with_field f m) name i e = elim (Bool-cases (field_name f == name)) [
    | inl here ↦ field-IsFinite f i (rw here at e)
    | inr there ↦ proto-AreFinite m name i (rw there at e)
  ]

  field-IsFinite : (f : Field) (i : Proto) → inner_of (some f) ≡ holds i → IsFinite i
  field-IsFinite (wrapper name x) i e = inner-IsFinite x i e
  field-IsFinite f i e = absurd (cc)

  inner-IsFinite : (x : Inner) (i : Proto) → x ≡ holds i → IsFinite i
  inner-IsFinite absent i e = absurd (cc)
  inner-IsFinite (holds j) i e =
      subst IsFinite (holds_inj j i e) (AreFinite-IsFinite j (proto-AreFinite j))

-- The messages of WhatsApp that carry another message and no content of their own.
pub data Container : Type 0 where
  device_sent ephemeral view_once view_once_v2 view_once_v2_extension document_with_caption
        associated_child edited :
      Container

-- The getter of a container, less Get.
abbrev pub getter : Container → String
getter device_sent = "DeviceSentMessage"
getter ephemeral = "EphemeralMessage"
getter view_once = "ViewOnceMessage"
getter view_once_v2 = "ViewOnceMessageV2"
getter view_once_v2_extension = "ViewOnceMessageV2Extension"
getter document_with_caption = "DocumentWithCaptionMessage"
getter associated_child = "AssociatedChildMessage"
getter edited = "EditedMessage"

-- The container is set in the message, around that inner message.
abbrev pub Carries : Container → Proto → Proto → Type 0
Carries k m i = inner_of (get (getter k) m) ≡ holds i

-- No container is set in the message.
abbrev pub IsBare : Proto → Type 0
IsBare m = (k : Container) → inner_of (get (getter k) m) ≡ absent

-- The message is a bare one inside so many containers of any kind.
pub data Wrapped (b : Proto) : ℕ → Proto → Type 0 where
  bare_message : IsBare b → Wrapped b 0 b
  inside :
      {n : ℕ} {m i : Proto} (k : Container) → Carries k m i → Wrapped b n i → Wrapped b (suc n) m

absent-All :
    (ws : List String) (m : Proto)
    → inner_message ws m ≡ absent
    → All (λ w. inner_of (get w m) ≡ absent) ws
unfolding inner_message
absent-All [] m e = tt
absent-All (w ∷ ws) m e = go (absent-All ws m) (inner_of (get w m)) refl
  where
    go :
        (inner_message ws m ≡ absent → All (λ v. inner_of (get v m) ≡ absent) ws)
        → (x : Inner) → inner_of (get w m) ≡ x
        → (inner_of (get w m) ≡ absent) × All (λ v. inner_of (get v m) ≡ absent) ws
    go rest absent at = (at, rest (rw (at, inner_message) at e))
    go rest (holds j) at = let no_inner = rw (at, inner_message) at e in absurd cc

absent-IsBare : (m : Proto) → inner_message wrappers m ≡ absent → IsBare m
absent-IsBare m e device_sent = (absent-All wrappers m e).0
absent-IsBare m e ephemeral = (absent-All wrappers m e).1.0
absent-IsBare m e view_once = (absent-All wrappers m e).1.1.0
absent-IsBare m e view_once_v2 = (absent-All wrappers m e).1.1.1.0
absent-IsBare m e view_once_v2_extension = (absent-All wrappers m e).1.1.1.1.0
absent-IsBare m e document_with_caption = (absent-All wrappers m e).1.1.1.1.1.0
absent-IsBare m e associated_child = (absent-All wrappers m e).1.1.1.1.1.1.0
absent-IsBare m e edited = (absent-All wrappers m e).1.1.1.1.1.1.1.0

holder :
    (ws : List String) (m i : Proto)
    → inner_message ws m ≡ holds i
    → (w : String) × Mem w ws × (inner_of (get w m) ≡ holds i)
unfolding inner_message
holder [] m i e = absurd cc
holder (w ∷ ws) m i e = go (holder ws m i) (inner_of (get w m)) refl
  where
    go :
        (inner_message ws m ≡ holds i → (v : String) × Mem v ws × (inner_of (get v m) ≡ holds i))
        → (x : Inner) → inner_of (get w m) ≡ x
        → (v : String) × Mem v (w ∷ ws) × (inner_of (get v m) ≡ holds i)
    go rest absent at =
        let (v, within_it, h) = rest (rw (at, inner_message) at e) in (v, inr within_it, h)
    go rest (holds j) at = (w, inl refl, at ∙ rw (at, inner_message) at e)

container_of : (w : String) → Mem w wrappers → (k : Container) × (w ≡ getter k)
container_of w (inl e) = (device_sent, e)
container_of w (inr (inl e)) = (ephemeral, e)
container_of w (inr (inr (inl e))) = (view_once, e)
container_of w (inr (inr (inr (inl e)))) = (view_once_v2, e)
container_of w (inr (inr (inr (inr (inl e))))) = (view_once_v2_extension, e)
container_of w (inr (inr (inr (inr (inr (inl e)))))) = (document_with_caption, e)
container_of w (inr (inr (inr (inr (inr (inr (inl e))))))) = (associated_child, e)
container_of w (inr (inr (inr (inr (inr (inr (inr (inl e)))))))) = (edited, e)
container_of w (inr (inr (inr (inr (inr (inr (inr (inr x)))))))) = elim x [ ]

carrier : (m i : Proto) → inner_message wrappers m ≡ holds i → (k : Container) × Carries k m i
carrier m i e =
    let (w, listed, h) = holder wrappers m i e in
    let (k, same) = container_of w listed in (k, subst (λ v. inner_of (get v m) ≡ holds i) same h)

Peeled-Wrapped : (b m : Proto) (n : ℕ) → Peeled b n m → Wrapped b n m
Peeled-Wrapped b m zero (bare e) = bare_message (absent-IsBare m e)
Peeled-Wrapped b m (suc n) (within {i = i} e w) =
    let (k, c) = carrier m i e in inside k c (Peeled-Wrapped b i n w)

-- Any message is some number n of containers around a message in which none of the eight
-- containers is set, and unwrapMessage peels eight of them, so that n - 8 are left: for n up to 8
-- it returns that inner message. The containers are device-sent, ephemeral, the three view-once
-- ones, document with caption, associated child and edited.
pub unwrap_message-Wrapped :
    (m : Proto) → (n : ℕ) × (b : Proto) × Wrapped b n m × Wrapped b (n - 8) (unwrap_message m)
unfolding unwrap_message
unwrap_message-Wrapped m =
    let (n, b, w) = AreFinite-IsFinite m (proto-AreFinite m) in
    (n, b, Peeled-Wrapped b m n w, Peeled-Wrapped b _ (n - 8) (rounds-Peeled 8 n b m w))
