-- ===== src/Tests/Live.antt =====
-- Concrete runs of messages, of the history and of number checks.
use enviadores_wabridge.Prelude.{
  ℕ, ◌≤◌, ◌+◌, ◌-◌, ◌≡◌, refl, String, true, false, none, some, List, [], ◌∷◌,
}
use enviadores_wabridge.Text.Utf8.{Bytes}
use enviadores_wabridge.Store.Messages.{has_message, has_chat}
use enviadores_wabridge.Bridge.Whatsapp.{Jid, OnWhatsapp}
use enviadores_wabridge.Bridge.Client.{failure}
use enviadores_wabridge.Bridge.NewChat.{canonical_chat_jid, all_digits}
use enviadores_wabridge.Bridge.NewChat.Tick.{send_to_hit, with_message_id}
use enviadores_wabridge.Bridge.Proto.{
  Proto, blank, with_field, conversation, reaction, holds, wrapper, unwrap_message,
}
use enviadores_wabridge.Bridge.Proto.Unwrap.{Wrapped, unwrap_message-Wrapped}
use enviadores_wabridge.Bridge.Proto.Classify.{classify_message}
use enviadores_wabridge.Bridge.Proto.Action.{resolve_action, reaction_of}
use enviadores_wabridge.Bridge.Inbound.{is_skipped_chat}
use enviadores_wabridge.Bridge.Inbound.Media.{Incoming, Outside}
use enviadores_wabridge.Bridge.Inbound.Live.{handle_message}
use enviadores_wabridge.Bridge.Inbound.Live.Rows.{
  OneMore, handle_message-OneMore, handle_message-reaction,
}
use enviadores_wabridge.Bridge.Inbound.Live.Stored.{
  IsContent, unread_of, handle_message-stored, handle_message-again,
}
use enviadores_wabridge.Bridge.History.{Conversation, handle_conversation, handle_history_sync}
use enviadores_wabridge.Bridge.History.Unread.{
  handle_history_sync-unread, last_from_me, handle_conversation-forgets,
}
use enviadores_wabridge.Bridge.Events.{Event, message, history, connected, handle_events}
use enviadores_wabridge.Bridge.Events.Unread.{arrivals, handle_events-unread}
use enviadores_wabridge.Bridge.CheckNumber.{normalize_check_phone, without_fillers}
use enviadores_wabridge.Bridge.CheckNumber.Lookup.{check_number, check_number-store_jid}
use enviadores_wabridge.Text.Trim.{trim_space}
use enviadores_wabridge.Tests.{start, calm}
use enviadores_wabridge.Tests.Sends.{phone_jid, row_read}
use enviadores_wabridge.Bridge.NewChat.Once.{fresh_bridge}
use enviadores_wabridge.Tests.Queue.{one_person, one_digit}

-- A chat that small_db has.
abbrev known_jid : Jid
known_jid = record { user = b'1' ∷ []; server = "lid"; text = "c1" }

-- Nobody answers.
abbrev silent : Outside
silent = record {
  secret = none;
  secret_reaction = none;
  download = λ h. failure [];
  publish = λ content mime name. failure [];
  store_thumbnail = λ sha jpeg. none;
  pdf_thumbnail = λ content. none;
  sha256_hex = λ s. s;
  profile_picture = λ j. [];
}

abbrev incoming : String → Proto → Incoming
incoming id m = record {
  info = record {
    id = id;
    chat = known_jid;
    sender = known_jid;
    is_from_me = false;
    is_group = false;
    timestamp = 20;
  };
  push_name = b'A' ∷ [];
  message = m;
}

abbrev hello : Proto
hello = with_field (conversation (b'h' ∷ b'i' ∷ [])) blank

-- Sent from another device of ours, in a disappearing message.
abbrev wrapped_hello : Proto
wrapped_hello =
    with_field
      (wrapper "DeviceSentMessage"
        (holds (with_field (wrapper "EphemeralMessage" (holds hello)) blank)))
      blank

unwrap_message_test : unwrap_message wrapped_hello ≡ hello
unfolding unwrap_message
unwrap_message_test = refl

unwrap_message-Wrapped_example :
    (n : ℕ) × (b : Proto) × Wrapped b n wrapped_hello
    × Wrapped b (n - 8) (unwrap_message wrapped_hello)
unwrap_message-Wrapped_example = unwrap_message-Wrapped wrapped_hello

handle_message-OneMore_example :
    OneMore "n1" start.db.messages
      (handle_message calm one_person one_digit silent
        (incoming "n1" wrapped_hello)
        start).db.messages
handle_message-OneMore_example =
    handle_message-OneMore calm one_person one_digit silent (incoming "n1" wrapped_hello) start

abbrev thumbs_up : Incoming
thumbs_up = incoming "r9" (with_field (reaction "m1" (b'+' ∷ [])) blank)

handle_message-reaction_example :
    (handle_message calm one_person one_digit silent thumbs_up start).db.chats ≡ start.db.chats
unfolding resolve_action reaction_of unwrap_message
handle_message-reaction_example =
    handle_message-reaction calm one_person one_digit silent thumbs_up start "m1" (b'+' ∷ []) refl
      refl

wrapped-IsContent : (id : String) → IsContent one_digit silent (incoming id wrapped_hello)
unfolding is_skipped_chat resolve_action reaction_of classify_message unwrap_message
wrapped-IsContent id = record { shown = refl; ordinary = refl; plain = refl; kept = refl }

handle_message-stored_example :
    (has_message "n1"
        (handle_message calm one_person one_digit silent
          (incoming "n1" wrapped_hello)
          start).db.messages
      ≡ true)
    × (has_chat
          (canonical_chat_jid one_person.whatsapp known_jid).text
          (handle_message calm one_person one_digit silent
            (incoming "n1" wrapped_hello)
            start).db.chats
        ≡ true)
handle_message-stored_example =
    handle_message-stored calm one_person one_digit silent (incoming "n1" wrapped_hello) start
      (λ n. refl) (wrapped-IsContent "n1")

handle_message-again_example :
    ((handle_message calm one_person one_digit silent
        (incoming "m1" wrapped_hello)
        start).db.messages
      ≡ start.db.messages)
    × (unread_of
          (canonical_chat_jid one_person.whatsapp known_jid).text
          (handle_message calm one_person one_digit silent
            (incoming "m1" wrapped_hello)
            start).db.chats
        ≡ unread_of (canonical_chat_jid one_person.whatsapp known_jid).text start.db.chats + 1)
unfolding canonical_chat_jid
handle_message-again_example =
    handle_message-again calm one_person one_digit silent (incoming "m1" wrapped_hello) start
      (λ n. refl) (wrapped-IsContent "m1") refl refl refl

abbrev past : Conversation
past = record {
  id = "c1";
  name = b'A' ∷ [];
  messages = some (incoming "n2" wrapped_hello, silent) ∷ none ∷ [];
}

handle_history_sync-unread_example :
    unread_of "c1" (handle_history_sync calm one_person one_digit (past ∷ []) start).db.chats
    ≡ unread_of "c1" start.db.chats
handle_history_sync-unread_example =
    handle_history_sync-unread calm one_person one_digit (past ∷ []) start "c1"

handle_conversation-forgets_example :
    last_from_me
      (canonical_chat_jid one_person.whatsapp phone_jid).text
      (handle_conversation calm one_person one_digit (record past { messages = [] }) start).db.chats
    ≡ false
unfolding is_skipped_chat
handle_conversation-forgets_example =
    handle_conversation-forgets calm one_person one_digit (record past { messages = [] }) start
      phone_jid (λ n. refl) refl refl refl

abbrev some_events : List Event
some_events =
    connected
    ∷ message (incoming "n1" wrapped_hello) silent
    ∷ message thumbs_up silent
    ∷ history (past ∷ [])
    ∷ []

handle_events-unread_example :
    unread_of
      (canonical_chat_jid one_person.whatsapp phone_jid).text
      (handle_events calm one_person one_digit some_events
        (record { world = start; fatal = none })).world.db.chats
    ≤ unread_of (canonical_chat_jid one_person.whatsapp phone_jid).text start.db.chats
      + arrivals one_person one_digit
          (canonical_chat_jid one_person.whatsapp phone_jid).text
          some_events
handle_events-unread_example =
    handle_events-unread calm one_person one_digit
      (canonical_chat_jid one_person.whatsapp phone_jid).text some_events
      (record { world = start; fatal = none })

-- "52 5512 3456" and the form it is looked up in
abbrev asked : Bytes
asked = b'5' ∷ b'2' ∷ b' ' ∷ b'5' ∷ b'5' ∷ b'1' ∷ b'2' ∷ b' ' ∷ b'3' ∷ b'4' ∷ b'5' ∷ b'6' ∷ []

abbrev asked_phone : Bytes
asked_phone = b'+' ∷ b'5' ∷ b'2' ∷ b'5' ∷ b'5' ∷ b'1' ∷ b'2' ∷ b'3' ∷ b'4' ∷ b'5' ∷ b'6' ∷ []

abbrev found : OnWhatsapp
found = record { is_in = true; jid = phone_jid; phone_number = phone_jid; verified_name = none }

check_number-store_jid_example :
    (target : Jid) × ((check_number one_person (λ s. s) (λ hit. []) 4 true [] asked).store_jid
      ≡ target.text)
    × (send_to_hit calm one_person.whatsapp row_read found (fresh_bridge start)
        ≡ with_message_id calm one_person.whatsapp row_read found target row_read.wa_message_id
            (fresh_bridge start))
unfolding normalize_check_phone without_fillers trim_space all_digits
check_number-store_jid_example =
    check_number-store_jid one_person (λ s. s) (λ hit. []) calm 4 [] asked asked_phone found [] none
      row_read (fresh_bridge start) refl refl refl refl refl
