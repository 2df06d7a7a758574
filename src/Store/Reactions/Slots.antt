-- ===== src/Store/Reactions/Slots.antt =====
-- The rows that a sender's reactions to a message take up, and what inserts and updates do to
-- their number.
use enviadores_wabridge.Prelude.{
  ℕ, suc, ◌+◌, ◌≡◌, ◌≤◌, refl, ◌∙◌, sym, ap, Bool, true, false, not, ◌&&◌, ◌||◌, none, some, List,
  [], ◌∷◌, ◌++◌, ◌==◌, eq_refl, if◌then◌else◌, arith, ◌⊎◌, inl, inr, Bool-cases, if-cases, Mem,
}
use mathlib.Core.Bool.{false≢true}
use enviadores_wabridge.Store.Tables.{Message, MessageRow, Db, update_where}
use enviadores_wabridge.Store.Exec.{Env}
use enviadores_wabridge.Store.Fallback.Keeps.{Keeps, Keeps-exec}
use enviadores_wabridge.Store.Invariant.{IsKeyed}
use enviadores_wabridge.Store.Messages.{new_row, has_message, has_chat, insert_ignore, is_empty}
use enviadores_wabridge.Store.Edits.{bool_eq, names}
use enviadores_wabridge.Store.Reactions.{
  Reaction, same_slot, is_sender, senders, newest_row, reacted_row, bump_target,
}

-- The row takes up the sender's place for a reaction to the message: a reaction or a hidden one to
-- it, in the same chat, from the same side, and in a group from one of the sender's names.
unfoldable pub takes_slot : Reaction → MessageRow → Bool
takes_slot r x = elim x.target_message_id [
  | none ↦ false
  | some target ↦
      x.chat_jid == r.chat_jid
      && target == r.target_id
      && (x.message_type == "system" || x.message_type == "reaction")
      && bool_eq r.from_me x.from_me
      && (r.from_me || not r.is_group || is_sender x.sender_jid (senders r))
]

pub slot_same : (r : Reaction) (x : MessageRow) → same_slot r x ≡ takes_slot r x
unfolding same_slot takes_slot
slot_same r x = ground arith

-- How many rows the sender's reactions to the message take up.
unfoldable pub slots : Reaction → List MessageRow → ℕ
slots r [] = 0
slots r (x ∷ xs) = let rest = slots r xs in if takes_slot r x then suc rest else rest

pub slots-append :
    (r : Reaction) (xs : List MessageRow) (x : MessageRow)
    → slots r (xs ++ x ∷ []) ≡ slots r xs + slots r (x ∷ [])
unfolding slots
slots-append r [] x = omega arith
slots-append r (y ∷ xs) x = ground (arith, slots-append r xs x)

pub slots-one : (r : Reaction) (x : MessageRow) → slots r (x ∷ []) ≤ 1
unfolding slots
slots-one r x = ground arith

-- An update that leaves the rows in their slots leaves their number.
pub slots-update_where :
    (r : Reaction) (p : MessageRow → Bool) (f : MessageRow → MessageRow) (xs : List MessageRow)
    → ((x : MessageRow) → Mem x xs → p x ≡ true → takes_slot r (f x) ≡ takes_slot r x)
    → slots r (update_where p f xs) ≡ slots r xs
unfolding slots update_where
slots-update_where r p f [] h = refl
slots-update_where r p f (x ∷ xs) h =
    let rest = slots-update_where r p f xs (λ y m. h y (inr m)) in
    elim (Bool-cases (p x)) [
      | inl e ↦ rw (e, rest, h x (inl refl) e) refl
      | inr e ↦ rw (e, rest) refl
    ]

pub newest_row-Mem :
    (p : MessageRow → Bool) (xs : List MessageRow) (y : MessageRow)
    → newest_row p xs ≡ some y
    → Mem y xs × (p y ≡ true)
unfolding newest_row
newest_row-Mem p [] y h = absurd (ground arith)
newest_row-Mem p (x ∷ xs) y h = ground (arith, newest_row-Mem p xs y)

pub newest_row-none :
    (r : Reaction) (xs : List MessageRow) → newest_row (same_slot r) xs ≡ none → slots r xs ≡ 0
unfolding newest_row slots
newest_row-none r [] h = refl
newest_row-none r (x ∷ xs) h = ground (arith, slot_same r x, newest_row-none r xs)

pub Mem-has_message :
    (xs : List MessageRow) (y : MessageRow) → Mem y xs → has_message y.id xs ≡ true
Mem-has_message [] y m = absurd m
Mem-has_message (x ∷ xs) y (inl e) = ground (arith, ap (λ x. x.id) e, eq_refl y.id)
Mem-has_message (x ∷ xs) y (inr m) = ground (arith, Mem-has_message xs y m)

pub keyed_same :
    (xs : List MessageRow) (a b : MessageRow)
    → IsKeyed xs
    → Mem a xs
    → Mem b xs
    → a.id ≡ b.id
    → a ≡ b
keyed_same [] a b k m n h = absurd m
keyed_same (x ∷ xs) a b k (inl e) (inl f) h = e ∙ sym f
keyed_same (x ∷ xs) a b k (inl e) (inr n) h = absurd (
    false≢true (
      sym k.0 ∙ (ap (λ i. has_message i xs) (sym (ap (λ x. x.id) e) ∙ h) ∙ Mem-has_message xs b n)))
keyed_same (x ∷ xs) a b k (inr m) (inl f) h = absurd (
    false≢true (
      sym k.0
      ∙ (ap (λ i. has_message i xs) (sym (ap (λ x. x.id) f) ∙ sym h) ∙ Mem-has_message xs a m)))
keyed_same (x ∷ xs) a b k (inr m) (inr n) h = keyed_same xs a b k.1 m n h

pub reacted_same :
    (r : Reaction) (x : MessageRow) → takes_slot r x ≡ true → takes_slot r (reacted_row r x) ≡ true
unfolding takes_slot
reacted_same r x h = elim (Bool-cases (is_empty r.emoji)) [
  | inl e ↦ rw e (ground arith)
  | inr e ↦ rw e (ground arith)
]

pub bumped_same :
    (r : Reaction) (x : MessageRow) (n : ℕ)
    → takes_slot r (record x { status_updated_at = some n }) ≡ takes_slot r x
unfolding takes_slot
bumped_same r x n = refl

abbrev pub AtMostOne : Reaction → Db → Type 0
AtMostOne r db = slots r db.messages ≤ 1

-- A row outside the slot may be inserted at will.
pub outside_slot :
    (r : Reaction) (m : Message) (db : Db)
    → takes_slot r (new_row m) ≡ false
    → AtMostOne r db
    → AtMostOne r (insert_ignore m db)
unfolding insert_ignore slots
outside_slot r m db h a =
    if-cases (AtMostOne r) (has_message m.id db.messages || not (has_chat m.chat_jid db.chats)) a
      (rw (slots-append r db.messages (new_row m), slots, h) (omega arith))

-- Nothing is in the slot yet, or the row in it is the one that is being inserted.
abbrev pub Empty : Reaction → Db → Type 0
Empty r db =
    (slots r db.messages ≡ 0) ⊎ ((slots r db.messages ≤ 1) × (has_message r.id db.messages ≡ true))

pub Empty-AtMostOne : (r : Reaction) (db : Db) → Empty r db → AtMostOne r db
Empty-AtMostOne r db (inl e) = omega arith
Empty-AtMostOne r db (inr (e, _)) = e

pub has_message-last :
    (rs : List MessageRow) (x : MessageRow) → has_message x.id (rs ++ x ∷ []) ≡ true
has_message-last [] x = ground (arith, eq_refl x.id)
has_message-last (y ∷ rs) x = ground (arith, has_message-last rs x)

pub first_in_slot :
    (r : Reaction) (m : Message) (db : Db) → m.id ≡ r.id → Empty r db → Empty r (insert_ignore m db)
unfolding insert_ignore
first_in_slot r m db same a =
    elim (Bool-cases (has_message m.id db.messages || not (has_chat m.chat_jid db.chats))) [
      | inl e ↦ rw e a
      | inr e ↦ rw e (
          inr (
            rw (slots-append r db.messages (new_row m)) (go e a),
            ap (λ i. has_message i (db.messages ++ new_row m ∷ [])) (sym same)
                ∙ has_message-last db.messages (new_row m),
          ))
    ]
  where
    go :
        (has_message m.id db.messages || not (has_chat m.chat_jid db.chats)) ≡ false
        → Empty r db
        → (slots r db.messages + slots r (new_row m ∷ [])) ≤ 1
    go e (inl z) = let k = slots-one r (new_row m) in omega arith
    go e (inr (_, h)) =
        let k : has_message m.id db.messages ≡ true =
          ap (λ i. has_message i db.messages) same ∙ h in
        absurd (ground arith)

pub bump-AtMostOne : (env : Env) (r : Reaction) → Keeps (AtMostOne r) (bump_target env r)
unfolding bump_target
bump-AtMostOne env r = Keeps-exec env _ λ now db a.
    rw
      (slots-update_where r (names r.target_id r.chat_jid)
        (λ x. record x { status_updated_at = some now }) db.messages (λ x _ _. bumped_same r x now))
      a
