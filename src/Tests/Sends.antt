-- ===== src/Tests/Sends.antt =====
-- Concrete runs of the queue of first messages and of the schema fallbacks.
use enviadores_wabridge.Prelude.{
  ◌≡◌, refl, true, none, [], ◌∷◌, zero, inl, inr, suc, arith, leb, ◌&&◌, if◌then◌else◌,
}
use enviadores_wabridge.Text.Trim.{trim_space}
use enviadores_wabridge.Store.Failure.{Error, mysql, other, is_unknown_column}
use enviadores_wabridge.Store.Tables.{update_where, filter_where}
use enviadores_wabridge.Store.Exec.{Env, done, refused, exec, exec_with, query, feature_off}
use enviadores_wabridge.Store.Fallback.{fallback, legacy}
use enviadores_wabridge.Store.Chats.{upsert_chat}
use enviadores_wabridge.Store.Outbound.{
  claim_new_chat_message_id, mark_new_chat_sent, update_outbound,
}
use enviadores_wabridge.Store.Outbound.Ids.{IsUnique}
use enviadores_wabridge.Bridge.Whatsapp.{Jid, sent, Whatsapp}
use enviadores_wabridge.Bridge.NewChat.{
  NewChatWrites, Send, Bridge, NewChatRow, new_chat_row, is_mx_phone, all_digits, store_retry,
  retried, canonical_chat_jid, backoff_over, backoff_seconds, lowest, query_resolve_outbound,
  unstamped_of, forget, finish_new_chat,
}
use enviadores_wabridge.Bridge.NewChat.Tick.{
  new_chat_writes, send_as, claim_and_send, send_to_hit, send_fresh, send_new_chat_row,
  process_new_chats,
}
use enviadores_wabridge.Bridge.NewChat.Sends.{KeepsIds}
use enviadores_wabridge.Bridge.NewChat.Once.{
  stay, step, tick, restart, fresh_bridge, restarted, process_new_chats-one_id,
}
use enviadores_wabridge.Tests.{outbound_row, small_db, start, calm}

start-IsUnique : IsUnique small_db.outbound
start-IsUnique r q (inl e) (inl k) h = ground arith
start-IsUnique r q (inl e) (inr k) h = absurd k
start-IsUnique r q (inr e) k h = absurd e

abbrev pub phone_jid : Jid
phone_jid = record { user = b'5' ∷ []; server = "s.whatsapp.net"; text = "5@s.whatsapp.net" }

-- A client that knows every number and sends everything under the id it is given.
abbrev pub willing : Whatsapp
willing = record {
  lookup = λ n phone. (
    record { is_in = true; jid = phone_jid; phone_number = phone_jid; verified_name = none } ∷ [],
    none,
  );
  send = λ n to body wa_id. sent (record { id = wa_id; timestamp = 9 });
  new_id = λ n. "A";
  lid_for_pn = λ j. none;
  self = "1@s.whatsapp.net";
  contact_name = λ j. [];
  now = λ n. n;
}

willing-KeepsIds : KeepsIds willing
willing-KeepsIds n to body wa_id resp e = cc

-- The stamp of the first send is refused three times.
abbrev no_stamp : Env
no_stamp = record {
  outcome = λ n. if leb 2 n && leb n 4 then refused (other []) else done;
  clock = λ n. n;
}

abbrev twice : Bridge
twice =
    process_new_chats calm willing
      (restarted (process_new_chats no_stamp willing (fresh_bridge start)))

abbrev the_send : Send
the_send = record { row = 7; wa_id = "A" }

-- Two sends: the second is the resend of the restarted process.
process_new_chats-one_id_example : the_send.wa_id ≡ the_send.wa_id
unfolding process_new_chats query_resolve_outbound fallback legacy query lowest backoff_over
    backoff_seconds send_new_chat_row send_fresh send_to_hit claim_and_send
    claim_new_chat_message_id exec exec_with send_as new_chat_writes finish_new_chat retried
    store_retry mark_new_chat_sent unstamped_of forget is_mx_phone all_digits trim_space
    canonical_chat_jid feature_off update_where filter_where update_outbound is_unknown_column
    upsert_chat
process_new_chats-one_id_example =
    process_new_chats-one_id start twice start-IsUnique
      (step (step (step stay (tick no_stamp willing willing-KeepsIds)) restart)
        (tick calm willing willing-KeepsIds))
      the_send the_send (inl refl) (inr (inl refl)) refl

twice_sends : twice.sends ≡ the_send ∷ the_send ∷ []
unfolding process_new_chats query_resolve_outbound fallback legacy query lowest backoff_over
    backoff_seconds send_new_chat_row send_fresh send_to_hit claim_and_send
    claim_new_chat_message_id exec exec_with send_as new_chat_writes finish_new_chat retried
    store_retry mark_new_chat_sent unstamped_of forget is_mx_phone all_digits trim_space
    canonical_chat_jid feature_off update_where filter_where update_outbound is_unknown_column
    upsert_chat
twice_sends = refl

-- What the first process has still to stamp.
abbrev unstamped_bridge : Bridge
unstamped_bridge = process_new_chats no_stamp willing (fresh_bridge start)

abbrev pub row_read : NewChatRow
row_read = new_chat_row 9 outbound_row

abbrev owed : NewChatWrites
owed =
    new_chat_writes no_stamp willing row_read
      (record { is_in = true; jid = phone_jid; phone_number = phone_jid; verified_name = none })
      phone_jid (record { id = "A"; timestamp = 9 })

-- Unknown column 'location_name'
abbrev no_column : Error
no_column = mysql 1054 (
    b'\'' ∷ b'l' ∷ b'o' ∷ b'c' ∷ b'a' ∷ b't' ∷ b'i' ∷ b'o' ∷ b'n' ∷ b'_' ∷ b'n' ∷ b'a' ∷ b'm' ∷ b'e'
    ∷ b'\'' ∷ [])

abbrev old_schema : Env
old_schema = record {
  outcome = λ n. elim n [ zero ↦ refused no_column | suc _ ↦ done ];
  clock = λ n. n;
}
