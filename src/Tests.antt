-- ===== src/Tests.antt =====
-- Concrete runs: each theorem about the bridge and its store at an input that its hypotheses allow.
pub mod Sends
pub mod Queue
pub mod Process
pub mod Inbound
pub mod Live
pub mod Media
pub mod Config
pub mod Sweeps
use enviadores_wabridge.Prelude.{
  ℕ, eq_iff, ◌≡◌, ◌≤◌, ◌<◌, refl, ap, String, Bool, true, false, Option, none, some, List, [], ◌∷◌,
  ◌++◌, ◌==◌, ◌⊎◌, inl, inr, arith, length, take, Each, Mem, All,
}
use enviadores_wabridge.Text.Utf8.{Bytes, IsScalar, encode, encode_rune, runes, rune_count, utf8}
use enviadores_wabridge.Text.Cut.{IsValid, byte_at, clip, byte_cut, quote_for_log, truncate_runes}
use enviadores_wabridge.Text.Cut.Clip.{fitting, clip-encode, clip_bounds, clip-IsValid}
use enviadores_wabridge.Text.Cut.Runes.{
  truncate_runes-take, truncate_runes_bounds, byte_cut_splits, quote_for_log_splits,
}
use enviadores_wabridge.Store.Failure.{
  Error, Result, ok, err, mysql, other, unknown_column_ref, unknown_column_name, is_unknown_column,
  column_owner, column_feature, feature_location, feature_quotes, index_byte, last_index_byte,
  bytes_eq,
}
use enviadores_wabridge.Store.Failure.Column.{message_about, unknown_column-message}
use enviadores_wabridge.Store.Tables.{
  ChatRow, Message, MessageRow, OutboundRow, PairingRow, Db, update_where, find_where, filter_where,
}
use enviadores_wabridge.Store.Exec.{
  Env, Outcome, done, refused, lost, World, exec, exec_with, query, query_row, feature_off, ◌>>◌,
  ◌>>=◌,
}
use enviadores_wabridge.Store.Fallback.{fallback, legacy, switch_off}
use enviadores_wabridge.Store.Messages.{
  new_row, insert_message, insert_ignore, with_columns, locate_message,
}
use enviadores_wabridge.Store.Messages.Insert.{insert_message-stored, insert_message-no_location}
use enviadores_wabridge.Store.Invariant.{IsKeyed, IsConsistent}
use enviadores_wabridge.Store.Invariant.Calls.{
  Call, insert, mark, edit, revoke, run_calls, run_calls-IsConsistent,
}
use enviadores_wabridge.Store.Status.{rank, rank_in, mark_messages_status}
use enviadores_wabridge.Store.Status.Order.{
  Forward, mark_messages_status_comm, mark_messages_status-Forward,
}
use enviadores_wabridge.Store.Edits.{apply_edit, revoke_message, edit_row}
use enviadores_wabridge.Store.Edits.History.{
  Edited, KeepsText, EditCall, run_edits, apply_edit-Edited, run_edits-first_text,
}
use enviadores_wabridge.Store.Edits.Revoke.{Revoked, revoke_message-Revoked}
use enviadores_wabridge.Store.Reactions.{Reaction, upsert_reaction}
use enviadores_wabridge.Store.Reactions.Slots.{AtMostOne, slots, takes_slot}
use enviadores_wabridge.Store.Reactions.One.{upsert_reaction-AtMostOne}
use enviadores_wabridge.Store.Tail.{TailRow, tail_row, countable, recompute_chat_tail}
use enviadores_wabridge.Store.Edits.Null.{apply_edit-null}
use enviadores_wabridge.Store.Edits.Target.{target_row}
use enviadores_wabridge.Store.Tail.Last.{IsShown, IsLast}
use enviadores_wabridge.Store.Tail.Recomputed.{HasTail, recompute_chat_tail-HasTail}
use enviadores_wabridge.Bridge.Preview.{tail_preview, tail_preview_hides}
use enviadores_wabridge.Store.Chats.{newest, clear_unread_up_to}
use enviadores_wabridge.Store.Chats.Unread.{
  Cleared, clear_unread_up_to-Cleared, clear_unread_up_to-all_read,
}
use enviadores_wabridge.Store.Outbound.{
  failure_message, fail_outbound, claim_new_chat_message_id, unclaimed, update_outbound,
}
use enviadores_wabridge.Store.Outbound.Failed.{
  IsFailed, fail_outbound-IsFailed, failure_message_bounds,
}

abbrev photo : Message
photo = record {
  id = "m1";
  chat_jid = "c1";
  sender_jid = none;
  from_me = true;
  message_type = "text";
  body = some (b'h' ∷ b'i' ∷ []);
  media_url = none;
  media_mime = none;
  media_size = none;
  media_filename = none;
  media_sha256 = none;
  media_thumbnail_url = none;
  quoted_message_id = none;
  quoted_preview = none;
  quoted_sender_jid = none;
  target_message_id = none;
  client_request_id = none;
  location_name = some (b'h' ∷ []);
  location_address = none;
  timestamp = 5;
  status = some "sent";
}

abbrev chat_row : ChatRow
chat_row = record {
  jid = "c1";
  display_name = none;
  phone_e164 = none;
  is_group = false;
  profile_pic_url = none;
  profile_pic_updated_at = none;
  last_message_at = none;
  last_message_preview = none;
  last_message_from_me = false;
  unread_count = 2;
  peer_typing_until = none;
  archived = false;
}

abbrev outbound_row : OutboundRow
outbound_row = record {
  id = 7;
  client_request_id = none;
  chat_jid = none;
  -- +525512345678
  to_phone = some (
      b'+' ∷ b'5' ∷ b'2' ∷ b'5' ∷ b'5' ∷ b'1' ∷ b'2' ∷ b'3' ∷ b'4' ∷ b'5' ∷ b'6' ∷ b'7' ∷ b'8'
      ∷ []);
  to_name = none;
  body = some (b'h' ∷ b'i' ∷ []);
  kind = some "text";
  status = "resolve";
  attempts = 0;
  last_attempt_at = none;
  created_at = 0;
  sent_at = none;
  whatsapp_message_id = none;
  error_message = none;
  error_code = none;
  location_name = none;
  location_address = none;
  location_url = none;
  media_url = none;
  media_mime = none;
  media_filename = none;
  media_size = none;
  media_sha256 = none;
  quoted_message_id = none;
}

abbrev small_db : Db
small_db = record {
  chats = chat_row ∷ [];
  messages = new_row photo ∷ [];
  outbound = outbound_row ∷ [];
  typing = [];
  pairing = record {
    status = "connected";
    qr_code = none;
    qr_expires_at = none;
    device_jid = none;
    last_event = none;
    reset_requested_at = none;
    paired_at = none;
    last_seen_at = none;
    bridge_features = none;
    bridge_features_at = none;
  };
}

abbrev start : World
start = record { db = small_db; off = []; logged = []; statements = 0 }

abbrev calm : Env
calm = record { outcome = λ n. done; clock = λ n. n }

small_db-IsKeyed : IsKeyed small_db.messages
small_db-IsKeyed = (refl, tt)

pub small_db-IsConsistent : IsConsistent small_db
small_db-IsConsistent = record { keyed = small_db-IsKeyed; linked = (refl, tt) }

-- "año"
abbrev year : List ℕ
year = 0x61 ∷ 0xF1 ∷ 0x6F ∷ []

year-IsScalar : All IsScalar year
year-IsScalar = (inl (omega arith), (inl (omega arith), (inl (omega arith), tt)))

abbrev year_bytes : Bytes
year_bytes = 0x61 ∷ 0xC3 ∷ 0xB1 ∷ 0x6F ∷ []

year_bytes-IsValid : IsValid year_bytes
unfolding encode encode_rune
year_bytes-IsValid = (year, year-IsScalar, refl)

clip-encode_example : clip (encode year) 2 ≡ encode (fitting 2 year)
clip-encode_example = clip-encode year 2 year-IsScalar

-- 23 letters, then "ñ".
abbrev long_name : Bytes
long_name =
    97 ∷ 97 ∷ 97 ∷ 97 ∷ 97 ∷ 97 ∷ 97 ∷ 97 ∷ 97 ∷ 97 ∷ 97 ∷ 97 ∷ 97 ∷ 97 ∷ 97 ∷ 97 ∷ 97 ∷ 97 ∷ 97
    ∷ 97 ∷ 97 ∷ 97 ∷ year_bytes

quote_for_log_splits_example : ¬ IsValid (quote_for_log long_name)
quote_for_log_splits_example = quote_for_log_splits long_name (omega arith) (omega arith)

mark_messages_status_comm_example :
    ((mark_messages_status calm ("m1" ∷ []) "read"
        >> mark_messages_status calm ("m1" ∷ []) "delivered")
      start).1.db.messages
    ≡ ((mark_messages_status calm ("m1" ∷ []) "delivered"
          >> mark_messages_status calm ("m1" ∷ []) "read")
        start).1.db.messages
unfolding rank rank_in
mark_messages_status_comm_example =
    mark_messages_status_comm calm ("m1" ∷ []) ("m1" ∷ []) "read" "delivered" start (λ n. refl) tt
      tt

mark_messages_status-Forward_example :
    Each Forward start.db.messages
      (mark_messages_status calm ("m1" ∷ []) "read" start).1.db.messages
mark_messages_status-Forward_example = mark_messages_status-Forward calm ("m1" ∷ []) "read" start

apply_edit-Edited_example :
    Each
      (Edited ("c1" ∷ []) "m1" true (some []))
      start.db.messages
      (apply_edit calm ("c1" ∷ []) "m1" true (some []) start).1.db.messages
apply_edit-Edited_example =
    apply_edit-Edited calm ("c1" ∷ []) "m1" true (some []) start small_db-IsKeyed

abbrev one_edit : EditCall
one_edit = record { env = calm; chats = "c1" ∷ []; id = "m1"; from_me = true; body = some [] }

run_edits-first_text_example :
    Each KeepsText start.db.messages (run_edits (one_edit ∷ one_edit ∷ []) start).db.messages
run_edits-first_text_example =
    run_edits-first_text (one_edit ∷ one_edit ∷ []) start small_db-IsKeyed

abbrev captionless : MessageRow
captionless = new_row (record photo { body = none })

abbrev captionless_world : World
captionless_world = record start { db = record small_db { messages = captionless ∷ [] } }

apply_edit-null_example :
    (s : MessageRow) × (target_row
        ("c1" ∷ [])
        "m1"
        (apply_edit calm
          ("c1" ∷ [])
          "m1"
          true
          (some (b'c' ∷ []))
          (apply_edit calm
            ("c1" ∷ [])
            "m1"
            true
            (some (b'b' ∷ []))
            (apply_edit calm ("c1" ∷ []) "m1" true (some (b'a' ∷ [])) captionless_world).1).1).1.db
      ≡ some s)
    × (s.body ≡ some (b'c' ∷ []))
    × (s.original_body ≡ some (b'a' ∷ []))
unfolding find_where feature_off
apply_edit-null_example =
    apply_edit-null calm (λ n. refl) ("c1" ∷ []) "m1" (b'a' ∷ []) (b'b' ∷ []) (b'c' ∷ [])
      captionless_world captionless refl refl refl refl refl

revoke_message-Revoked_example :
    Each
      (Revoked ("c1" ∷ []) "m1" true false)
      start.db.messages
      (revoke_message calm ("c1" ∷ []) "m1" true false start).1.db.messages
revoke_message-Revoked_example =
    revoke_message-Revoked calm ("c1" ∷ []) "m1" true false start small_db-IsKeyed

abbrev some_calls : List Call
some_calls =
    insert photo
    ∷ mark ("m1" ∷ []) "read"
    ∷ edit ("c1" ∷ []) "m1" true (some [])
    ∷ revoke ("c1" ∷ []) "m1" true false
    ∷ []

abbrev thumb : Reaction
thumb = record {
  id = "r1";
  chat_jid = "c1";
  sender_jid = some "x";
  sender_aliases = [];
  from_me = false;
  is_group = true;
  target_id = "m1";
  emoji = b'!' ∷ [];
  timestamp = 6;
}

upsert_reaction-AtMostOne_example : AtMostOne thumb (upsert_reaction calm thumb start).1.db
unfolding slots takes_slot
upsert_reaction-AtMostOne_example =
    upsert_reaction-AtMostOne calm thumb start small_db-IsKeyed refl (omega arith)

abbrev tail : TailRow
tail = record {
  message_type = "location";
  body = some (b'1' ∷ []);
  media_filename = none;
  revoked = false;
  from_me = true;
  timestamp = 5;
  location_name = none;
}

photo-IsShown : IsShown "c1" (new_row photo)
photo-IsShown = (
  refl,
  λ e. let differ = (eq_iff "text" "reaction").1 e in absurd cc,
  λ e. let differ = (eq_iff "text" "system").1 e in absurd cc,
)

recompute_chat_tail-HasTail_example :
    (y : MessageRow) × IsLast "c1" start.db.messages y
    × Each
        (HasTail "c1" y)
        start.db.chats
        (recompute_chat_tail calm "c1" tail_preview start).1.db.chats
recompute_chat_tail-HasTail_example =
    recompute_chat_tail-HasTail calm (λ n. refl) "c1" tail_preview start (new_row photo) (inl refl)
      photo-IsShown
