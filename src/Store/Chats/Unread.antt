-- ===== src/Store/Chats/Unread.antt =====
-- ClearUnreadUpTo: what a read receipt of one's own does to the unread counts.
use enviadores_wabridge.Prelude.{
  ◌≡◌, ◌≤◌, refl, ap, String, Bool, true, false, ◌&&◌, none, List, [], ◌∷◌, ◌==◌, ltb,
  if◌then◌else◌, length, arith, ◌⊎◌, inl, inr, Bool-cases, Each, Each-refl,
}
use enviadores_wabridge.Store.Tables.{ChatRow, MessageRow, update_where, filter_where}
use enviadores_wabridge.Store.Exec.{Env, World, exec, done, exec_with}
use enviadores_wabridge.Store.Fallback.Keeps.{exec_cases}
use enviadores_wabridge.Store.Chats.{newest, unread_after, cleared_chat, clear_unread_up_to}

-- What a receipt for a chat may do to a row of wa_chats.
pub record Cleared (jid : String) (r r' : ChatRow) : Type 0 where
  pub falls : r'.unread_count ≤ r.unread_count
  pub other : ((r.jid == jid) ≡ true) ⊎ (r' ≡ r)
  pub count_only : record r' { unread_count = r.unread_count } ≡ r

Cleared-refl : (jid : String) (r : ChatRow) → Cleared jid r r
Cleared-refl jid r = record { falls = omega arith; other = inr refl; count_only = refl }

module _ (jid : String) (ids : List String) (messages : List MessageRow) where
  abbrev picked : ChatRow → Bool
  picked r = r.jid == jid && ltb 0 r.unread_count

  cleared_chat-Cleared :
      (r : ChatRow) → picked r ≡ true → Cleared jid r (cleared_chat ids messages r)
  cleared_chat-Cleared r h = record {
    falls = omega arith;
    other = inl (ground arith);
    count_only = refl;
  }

  rows-Cleared :
      (rs : List ChatRow)
      → Each (Cleared jid) rs (update_where picked (cleared_chat ids messages) rs)
  unfolding update_where
  rows-Cleared [] = tt
  rows-Cleared (r ∷ rs) = (row (picked r) refl, rows-Cleared rs)
    where
      row : (b : Bool) → picked r ≡ b → Cleared jid r (if b then cleared_chat ids messages r else r)
      row true h = cleared_chat-Cleared r h
      row false h = Cleared-refl jid r

-- With no limit, no message counts as unread.
unread_none :
    (jid : String) (ms : List MessageRow) → length (filter_where (unread_after jid none) ms) ≡ 0
unfolding filter_where
unread_none jid [] = refl
unread_none jid (m ∷ ms) = ground (arith, unread_none jid ms)

all_read :
    (jid : String) (ids : List String) (ms : List MessageRow) (rs : List ChatRow)
    → newest ids ms ≡ none
    → Each
        (λ r r'. ((r.jid == jid) ≡ false) ⊎ (r'.unread_count ≡ 0))
        rs
        (update_where (picked jid ids ms) (cleared_chat ids ms) rs)
unfolding update_where
all_read jid ids ms [] h = tt
all_read jid ids ms (r ∷ rs) h = (
  elim (Bool-cases (r.jid == jid)) [
    | inr n ↦ inl n
    | inl k ↦ inr (
        ground (
          arith,
          h,
          k,
          ap (λ l. length (filter_where (unread_after r.jid l) ms)) h,
          unread_none r.jid ms,
        ))
  ],
  all_read jid ids ms rs h,
)

-- A receipt from one of our own devices never raises an unread count, changes no other chat and
-- nothing but the counts, whichever messages it names and whatever the server answers.
pub clear_unread_up_to-Cleared :
    (env : Env) (jid : String) (ids : List String) (w : World)
    → Each (Cleared jid) w.db.chats (clear_unread_up_to env jid ids w).1.db.chats
unfolding clear_unread_up_to
clear_unread_up_to-Cleared env jid [] w = Each-refl (Cleared jid) (Cleared-refl jid) w.db.chats
clear_unread_up_to-Cleared env jid (i ∷ ids) w =
    elim (exec_cases env
      (λ now db. record db {
        chats =
            update_where (picked jid (i ∷ ids) db.messages) (cleared_chat (i ∷ ids) db.messages)
              db.chats;
      })
      w) [
        | inl same ↦ rw same (Each-refl (Cleared jid) (Cleared-refl jid) w.db.chats)
        | inr new ↦ rw new (rows-Cleared jid (i ∷ ids) w.db.messages w.db.chats)
      ]

-- A receipt whose statement is done and none of whose messages is stored leaves nothing unread in
-- its chat.
pub clear_unread_up_to-all_read :
    (env : Env) (jid i : String) (ids : List String) (w : World)
    → env.outcome w.statements ≡ done
    → newest (i ∷ ids) w.db.messages ≡ none
    → Each
        (λ r r'. ((r.jid == jid) ≡ false) ⊎ (r'.unread_count ≡ 0))
        w.db.chats
        (clear_unread_up_to env jid (i ∷ ids) w).1.db.chats
unfolding clear_unread_up_to exec exec_with
clear_unread_up_to-all_read env jid i ids w up h =
    rw up (all_read jid (i ∷ ids) w.db.messages w.db.chats h)
