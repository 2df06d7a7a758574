-- ===== src/Bridge/Inbound/Receipts.antt =====
-- What a receipt may change: handleReceipt of internal/wabridge/wabridge.go over the store's calls.
use enviadores_wabridge.Prelude.{
  ◌≡◌, refl, String, Bool, true, false, Option, none, some, List, Each, Bool-cases, inl, inr, ℕ,
  if-cases,
}
use enviadores_wabridge.Store.Tables.{Db, ChatRow, MessageRow}
use enviadores_wabridge.Store.Exec.{Env, World}
use enviadores_wabridge.Store.Fallback.Keeps.{Keeps, Keeps-exec, Keeps-pure, Keeps-fail}
use enviadores_wabridge.Store.Messages.{is_empty}
use enviadores_wabridge.Store.Chats.{clear_unread_up_to}
use enviadores_wabridge.Store.Chats.Unread.{Cleared, clear_unread_up_to-Cleared}
use enviadores_wabridge.Store.Status.{mark_messages_status, mark_target, rank, allowed_current}
use enviadores_wabridge.Store.Status.Order.{Forward, mark_messages_status-Forward}
use enviadores_wabridge.Bridge.Client.{Client}
use enviadores_wabridge.Bridge.NewChat.{canonical_chat_jid}
use enviadores_wabridge.Bridge.Inbound.{
  Receipt, is_self_read, new_status, mark_status, handle_receipt,
}

-- A read on one of our own devices: counts of the receipt's chat. Any other receipt: statuses.
pub data Received (self : Bool) (jid : String) (db db' : Db) : Type 0 where
  counts :
      self ≡ true
      → db'.messages ≡ db.messages
      → Each (Cleared jid) db.chats db'.chats
      → Received self jid db db'
  statuses :
      self ≡ false
      → db'.chats ≡ db.chats
      → Each Forward db.messages db'.messages
      → Received self jid db db'
  nothing : db' ≡ db → Received self jid db db'

clear-messages :
    (env : Env) (jid : String) (ids : List String) (ms : List MessageRow)
    → Keeps (λ db. db.messages ≡ ms) (clear_unread_up_to env jid ids)
unfolding clear_unread_up_to
clear-messages env jid ids ms =
    if-cases (Keeps (λ db. db.messages ≡ ms)) (is_empty ids) (Keeps-pure tt)
      (Keeps-exec env _ λ now db h. h)

mark-chats :
    (env : Env) (ids : List String) (s : String) (cs : List ChatRow)
    → Keeps (λ db. db.chats ≡ cs) (mark_messages_status env ids s)
unfolding mark_messages_status
mark-chats env ids s cs =
    if-cases (Keeps (λ db. db.chats ≡ cs)) (is_empty ids) (Keeps-pure tt) (target (rank s))
  where
    target : (o : Option ℕ) → Keeps (λ db. db.chats ≡ cs) (mark_target env ids s o)
    target none = Keeps-fail _
    target (some t) =
        if-cases (Keeps (λ db. db.chats ≡ cs)) (is_empty (allowed_current t)) (Keeps-pure tt)
          (Keeps-exec env _ λ now db h. h)

-- Whatever the server answers, a read on one of our own devices changes at most the unread counts
-- of its chat, which never rise, and no message; any other receipt changes no chat and moves the
-- statuses of our own messages forward only.
pub handle_receipt-Received :
    (env : Env) (c : Client) (e : Receipt) (w : World)
    → Received
        (is_self_read e)
        (canonical_chat_jid c.whatsapp e.chat).text
        w.db
        (handle_receipt env c e w).db
unfolding handle_receipt
handle_receipt-Received env c e w =
    let jid = (canonical_chat_jid c.whatsapp e.chat).text in
    elim (Bool-cases (is_empty e.message_ids)) [
      | inl n ↦ rw n (nothing refl)
      | inr n ↦ elim (Bool-cases (is_self_read e)) [
        | inl s ↦
            rw (n, s)
              (counts refl ((clear-messages env jid e.message_ids w.db.messages).at w refl)
                (clear_unread_up_to-Cleared env jid e.message_ids w))
        | inr s ↦ rw (n, s) (other (new_status e.type))
      ]
    ]
  where
    other :
        (o : Option String)
        → Received false
            (canonical_chat_jid c.whatsapp e.chat).text
            w.db
            (mark_status env c e.message_ids o w).db
    other none = nothing refl
    other (some s) =
        statuses refl ((mark-chats env e.message_ids s w.db.chats).at w refl)
          (mark_messages_status-Forward env e.message_ids s w)
