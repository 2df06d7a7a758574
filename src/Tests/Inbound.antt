-- ===== src/Tests/Inbound.antt =====
-- Concrete runs of receipts, edits and deletes.
use enviadores_wabridge.Prelude.{◌≡◌, String, Option, true, false, some, [], ◌∷◌, ◌⊎◌}
use enviadores_wabridge.Text.Utf8.{Bytes}
use enviadores_wabridge.Store.Failure.{edits_unsupported}
use enviadores_wabridge.Bridge.NewChat.{canonical_chat_jid}
use enviadores_wabridge.Bridge.Inbound.{
  MessageInfo, Receipt, read_self, is_self_read, handle_receipt,
}
use enviadores_wabridge.Bridge.Inbound.Receipts.{Received, handle_receipt-Received}
use enviadores_wabridge.Bridge.Inbound.Actions.{
  ProtoAction, edit, retried_located, apply_protocol_action,
}
use enviadores_wabridge.Bridge.Inbound.Actions.Handled.{message_ids, apply_protocol_action-HasIds}
use enviadores_wabridge.Store.Edits.{apply_edit}
use enviadores_wabridge.Tests.{start, calm}
use enviadores_wabridge.Tests.Sends.{phone_jid}
use enviadores_wabridge.Tests.Queue.{one_person}

abbrev our_read : Receipt
our_read = record { message_ids = "m1" ∷ []; chat = phone_jid; is_from_me = true; type = read_self }

handle_receipt-Received_example :
    Received
      (is_self_read our_read)
      (canonical_chat_jid one_person.whatsapp phone_jid).text
      start.db
      (handle_receipt calm one_person our_read start).db
handle_receipt-Received_example = handle_receipt-Received calm one_person our_read start

abbrev our_info : MessageInfo
our_info = record {
  id = "m2";
  chat = phone_jid;
  sender = phone_jid;
  is_from_me = true;
  is_group = false;
  timestamp = 7;
}

abbrev our_edit : ProtoAction
our_edit = edit "m1" (some (b'x' ∷ []))

apply_protocol_action-HasIds_example :
    (message_ids (apply_protocol_action calm our_info ("c1" ∷ []) our_edit start).1.db.messages
      ≡ message_ids start.db.messages)
    ⊎ ((target : String) × (body : Option Bytes) × (our_edit ≡ edit target body)
        × ((retried_located (apply_edit calm ("c1" ∷ []) target true body) start).0.error
            ≡ some edits_unsupported))
apply_protocol_action-HasIds_example =
    apply_protocol_action-HasIds calm our_info ("c1" ∷ []) our_edit start
