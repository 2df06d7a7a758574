-- ===== src/Tests/Queue.antt =====
-- Concrete runs of the outbound queue.
use enviadores_wabridge.Prelude.{
  ◌≡◌, refl, Bool, true, false, none, some, [], ◌∷◌, ◌++◌, inl, inr, Mem, Each, arith,
}
use enviadores_wabridge.Store.Tables.{OutboundRow}
use enviadores_wabridge.Store.Exec.{World, query, feature_off}
use enviadores_wabridge.Store.Fallback.{fallback, legacy}
use enviadores_wabridge.Bridge.Whatsapp.{sent}
use enviadores_wabridge.Bridge.Content.{Upload}
use enviadores_wabridge.Bridge.Client.{jid, given, Client, Host}
use enviadores_wabridge.Bridge.Location.{Floats, coordinates, parse_coordinates}
use enviadores_wabridge.Bridge.Location.Roundtrip.{
  Decimal, IsDecimal, print, parse_coordinates-coordinates,
}
use enviadores_wabridge.Bridge.NewChat.{backoff_over, backoff_seconds}
use enviadores_wabridge.Bridge.NewChat.Once.{fresh_bridge}
use enviadores_wabridge.Bridge.Outbound.{
  OutboundWork, Outbox, read_batch, query_pending_outbound, sorted_where, insert_by_id, scan_rows,
}
use enviadores_wabridge.Bridge.Outbound.Record.{record_sent}
use enviadores_wabridge.Bridge.Outbound.Build.{build_outbound_message, at_world}
use enviadores_wabridge.Bridge.Outbound.Send.{send_outbound_row, send_rows}
use enviadores_wabridge.Bridge.Outbound.Steps.{stage, waiting, Served}
use enviadores_wabridge.Bridge.Outbound.Attempt.{Handing, send_outbound_row-Served}
use enviadores_wabridge.Bridge.Outbound.Tick.{Attended, send_rows-Attended}
use enviadores_wabridge.Bridge.Outbound.Lost.{
  build_outbound_message-no_caption, record_sent-no_chat,
}
use enviadores_wabridge.Tests.{outbound_row, small_db, start, calm}
use enviadores_wabridge.Tests.Sends.{phone_jid, willing}

-- Every text is the JID of one person.
abbrev pub one_person : Client
one_person = record {
  whatsapp = willing;
  parse_jid = λ s. jid phone_jid;
  is_empty_jid = λ j. false;
  to_non_ad = λ j. j;
  empty_jid = record { user = []; server = ""; text = "" };
  pn_for_lid = λ j. none;
  own_pn = phone_jid;
  own_lid = phone_jid;
  send_content = λ n to m. sent (record { id = "W"; timestamp = 9 });
  send_reaction = λ n to who id emoji. sent (record { id = "W"; timestamp = 9 });
}

abbrev some_upload : Upload
some_upload = record {
  url = [];
  direct_path = [];
  media_key = [];
  file_enc_sha256 = [];
  file_sha256 = [];
  file_length = 1;
}

abbrev plain_host : Host
plain_host = record {
  basename = λ u. u;
  public_base = [];
  read = λ n name. given (b'%' ∷ []);
  upload = λ n file kind. given some_upload;
  image_thumbnail = λ file. none;
  pdf_preview = λ n file. none;
  error_text = λ e. [];
  store_thumbnail = λ n sha jpeg. none;
}

-- Numbers of one digit before the point.
abbrev pub one_digit : Floats
one_digit = record { within = λ n s. true; six_decimals = λ s. s ++ b'.' ∷ b'0' ∷ [] }

abbrev pending_row : OutboundRow
pending_row = record outbound_row {
  client_request_id = some "q";
  chat_jid = some "c1";
  status = "pending";
}

abbrev queued : World
queued = record start { db = record small_db { outbound = pending_row ∷ outbound_row' ∷ [] } }
  where
    outbound_row' : OutboundRow
    outbound_row' = record outbound_row { id = 8; status = "sent" }

abbrev queue : Outbox
queue = record { bridge = fresh_bridge queued; handed = [] }

abbrev work : OutboundWork
work = record {
  id = 7;
  client_request_id = "q";
  chat_jid = "c1";
  body = b'h' ∷ b'i' ∷ [];
  kind = "text";
  media_url = none;
  media_mime = none;
  media_filename = none;
  media_size = none;
  media_sha256 = none;
  attempts = 0;
  quoted_message_id = none;
}

send_rows-Attended_example :
    Each
      (Attended []
        (send_rows calm one_person plain_host one_digit
          (work ∷ [])
          (at_world (read_batch calm queued).1 queue)).handed)
      queue.bridge.world.db.outbound
      (send_rows calm one_person plain_host one_digit
        (work ∷ [])
        (at_world (read_batch calm queued).1 queue)).bridge.world.db.outbound
unfolding read_batch fallback legacy feature_off query_pending_outbound query sorted_where
    insert_by_id scan_rows backoff_over backoff_seconds
send_rows-Attended_example =
    send_rows-Attended calm one_person plain_host one_digit queue (work ∷ [])
      (((λ e. absurd (ground arith)), tt), (tt, tt)) refl

work_waits :
    (q : OutboundRow) → Mem q queue.bridge.world.db.outbound → q.id ≡ 7 → stage q ≡ waiting 0
unfolding stage
work_waits q (inl e) at = rw e refl
work_waits q (inr (inl e)) at = absurd (ground arith)
work_waits q (inr (inr m)) at = absurd m

send_outbound_row-Served_example :
    (b : Bool) × Handing 7 b []
      (send_outbound_row calm one_person plain_host one_digit work queue).handed
    × Each
        (Served 7 b)
        queue.bridge.world.db.outbound
        (send_outbound_row calm one_person plain_host one_digit work queue).bridge.world.db.outbound
send_outbound_row-Served_example =
    send_outbound_row-Served calm one_person plain_host one_digit work queue work_waits

abbrev document_work : OutboundWork
document_work = record work { kind = "document"; media_url = some (b'u' ∷ []) }

build_outbound_message-no_caption_example :
    (build_outbound_message calm plain_host (record document_work { body = b'a' ∷ [] }) queue).0
    ≡ (build_outbound_message calm plain_host (record document_work { body = b'b' ∷ [] }) queue).0
build_outbound_message-no_caption_example =
    build_outbound_message-no_caption calm plain_host document_work queue (b'a' ∷ []) (b'b' ∷ [])
      refl refl refl

record_sent-no_chat_example :
    (record_sent calm one_person one_digit work "c9" none "text" none none
      (record { id = "W"; timestamp = 9 })
      queue).bridge.world.db.messages
    ≡ queue.bridge.world.db.messages
record_sent-no_chat_example =
    record_sent-no_chat calm one_person one_digit work "c9" none "text" none none
      (record { id = "W"; timestamp = 9 }) queue refl

-- "5.0"
abbrev five : Decimal
five = record { negative = false; whole = b'5' ∷ []; part = b'0' ∷ [] }

five-IsDecimal : IsDecimal five
five-IsDecimal = record {
  whole = (refl, tt);
  part = (refl, tt);
  some_whole = omega arith;
  few_whole = omega arith;
  some_part = omega arith;
}

parse_coordinates-coordinates_example :
    parse_coordinates one_digit (coordinates one_digit (b'5' ∷ [], b'5' ∷ []))
    ≡ some (print five, print five)
unfolding print
parse_coordinates-coordinates_example =
    parse_coordinates-coordinates one_digit (b'5' ∷ [], b'5' ∷ []) five five five-IsDecimal
      five-IsDecimal refl refl (record { lat = refl; lng = refl })
