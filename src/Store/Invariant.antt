-- ===== src/Store/Invariant.antt =====
-- The keys of wa_messages: its primary key, and the foreign key into wa_chats.
pub mod Calls
use enviadores_wabridge.Prelude.{
  ℕ, ◌≡◌, refl, ◌∙◌, ap, String, Bool, true, false, ◌&&◌, ◌||◌, not, Option, none, some, List, [],
  ◌∷◌, ◌++◌, ◌==◌, eq_iff, eq_refl, if◌then◌else◌, any, arith, All, Bool-cases, inl, inr,
}
use enviadores_wabridge.Store.Tables.{ChatRow, Message, MessageRow, Db, update_where}
use enviadores_wabridge.Store.Messages.{new_row, has_message, has_chat, insert_ignore}

-- No two messages share an id.
abbrev pub IsKeyed : List MessageRow → Type 0
IsKeyed [] = Unit
IsKeyed (r ∷ rs) = (has_message r.id rs ≡ false) × IsKeyed rs

-- Every message lies in a chat of wa_chats.
abbrev pub IsLinked : List ChatRow → List MessageRow → Type 0
IsLinked chats [] = Unit
IsLinked chats (r ∷ rs) = (has_chat r.chat_jid chats ≡ true) × IsLinked chats rs

pub record IsConsistent (db : Db) : Type 0 where
  pub keyed : IsKeyed db.messages
  pub linked : IsLinked db.chats db.messages

-- An update that leaves the id and the chat of a row alone.
pub record KeepsKeys (f : MessageRow → MessageRow) : Type 0 where
  pub id : (r : MessageRow) → (f r).id ≡ r.id
  pub chat : (r : MessageRow) → (f r).chat_jid ≡ r.chat_jid

module _ (p : MessageRow → Bool) (f : MessageRow → MessageRow) (k : KeepsKeys f) where
  pub same_id : (r : MessageRow) → (if p r then f r else r).id ≡ r.id
  same_id r = ground (arith, k.id r)

  same_chat : (r : MessageRow) → (if p r then f r else r).chat_jid ≡ r.chat_jid
  same_chat r = ground (arith, k.chat r)

  pub has_message-update_where :
      (id : String) (rs : List MessageRow)
      → has_message id (update_where p f rs) ≡ has_message id rs
  unfolding update_where
  has_message-update_where id [] = refl
  has_message-update_where id (r ∷ rs) = rw (same_id r, has_message-update_where id rs) refl

  pub update_where-IsKeyed : (rs : List MessageRow) → IsKeyed rs → IsKeyed (update_where p f rs)
  unfolding update_where
  update_where-IsKeyed [] h = tt
  update_where-IsKeyed (r ∷ rs) h =
      (rw (same_id r, has_message-update_where r.id rs) h.0, update_where-IsKeyed rs h.1)

  update_where-IsLinked :
      (chats : List ChatRow) (rs : List MessageRow)
      → IsLinked chats rs
      → IsLinked chats (update_where p f rs)
  unfolding update_where
  update_where-IsLinked chats [] h = tt
  update_where-IsLinked chats (r ∷ rs) h =
      (rw (same_chat r) h.0, update_where-IsLinked chats rs h.1)

  pub update_messages-IsConsistent :
      (db : Db)
      → IsConsistent db
      → IsConsistent (record db { messages = update_where p f db.messages })
  update_messages-IsConsistent db h = record {
    keyed = update_where-IsKeyed db.messages h.keyed;
    linked = update_where-IsLinked db.chats db.messages h.linked;
  }

has_message-append :
    (id : String) (rs : List MessageRow) (r : MessageRow)
    → has_message id (rs ++ r ∷ []) ≡ (has_message id rs || r.id == id)
has_message-append id [] r = ground arith
has_message-append id (x ∷ rs) r = ground (arith, has_message-append id rs r)

str_sym : (a b : String) → (a == b) ≡ (b == a)
str_sym a b = ground (arith, eq_iff a b, eq_iff b a)

append-IsKeyed :
    (rs : List MessageRow) (r : MessageRow)
    → has_message r.id rs ≡ false
    → IsKeyed rs
    → IsKeyed (rs ++ r ∷ [])
append-IsKeyed [] r n h = (refl, tt)
append-IsKeyed (x ∷ rs) r n h = (
  ground (arith, has_message-append x.id rs r, str_sym x.id r.id),
  append-IsKeyed rs r (ground arith) h.1,
)

append-IsLinked :
    (chats : List ChatRow) (rs : List MessageRow) (r : MessageRow)
    → has_chat r.chat_jid chats ≡ true
    → IsLinked chats rs
    → IsLinked chats (rs ++ r ∷ [])
append-IsLinked chats [] r n h = (n, tt)
append-IsLinked chats (x ∷ rs) r n h = (h.0, append-IsLinked chats rs r n h.1)

pub insert_ignore-IsConsistent :
    (m : Message) (db : Db) → IsConsistent db → IsConsistent (insert_ignore m db)
unfolding insert_ignore
insert_ignore-IsConsistent m db h = elim (Bool-cases (has_message m.id db.messages)) [
  | inl old ↦ rw old h
  | inr new ↦ elim (Bool-cases (has_chat m.chat_jid db.chats)) [
    | inr no_chat ↦ rw (new, no_chat) h
    | inl chat ↦
        rw (new, chat)
          (record {
            keyed = append-IsKeyed db.messages (new_row m) new h.keyed;
            linked = append-IsLinked db.chats db.messages (new_row m) chat h.linked;
          })
  ]
]
