-- ===== src/Bridge/NewChat.antt =====
-- internal/wabridge/newchat.go: first messages to a phone number. A row of wa_outbound with status
-- 'resolve' is looked up, given a message id, sent, stamped and stored; storeRetry and
-- canonicalChatJID are those of internal/wabridge/wabridge.go.
pub mod Tick
pub mod Sound
pub mod Sends
pub mod Once
pub mod Pace
use enviadores_wabridge.Prelude.{
  ℕ, zero, suc, ◌+◌, ◌-◌, ◌*◌, ◌≡◌, String, Bool, true, false, not, ◌&&◌, ◌||◌, Option, none, some,
  List, [], ◌∷◌, ◌++◌, ◌==◌, eqb, ltb, leb, if◌then◌else◌, length, any,
}
use enviadores_wabridge.Text.Utf8.{Bytes, utf8}
use enviadores_wabridge.Text.Cut.{truncate, quote_for_log}
use enviadores_wabridge.Text.Trim.{trim_space}
use enviadores_wabridge.Store.Failure.{Error, Result, ok, err, not_author, edits_unsupported}
use enviadores_wabridge.Store.Tables.{OutboundRow, Message, Db, find_where}
use enviadores_wabridge.Store.Exec.{Env, World, M, Action, query, feature_off}
use enviadores_wabridge.Store.Fallback.{fallback}
use enviadores_wabridge.Store.Messages.{is_some, is_empty, insert_message}
use enviadores_wabridge.Store.Chats.{Chat, upsert_chat}
use enviadores_wabridge.Store.Outbound.{
  outbound_max_attempts, fail_outbound, mark_attempt, claim_new_chat_message_id, mark_new_chat_sent,
  set_outbound_chat,
}
use enviadores_wabridge.Bridge.Whatsapp.{
  Jid, OnWhatsapp, SendResponse, SendResult, sent, send_failed, Whatsapp, default_user_server,
  hidden_user_server,
}

abbrev pub feature_new_chat : String
feature_new_chat = "wa_outbound.to_phone"

-- In seconds: newChatMinGap and newChatMaxAge.
abbrev pub new_chat_min_gap : ℕ
new_chat_min_gap = 20

abbrev pub new_chat_max_age : ℕ
new_chat_max_age = 23 * 3600

-- `^\+52[0-9]{10}$`
unfoldable pub all_digits : Bytes → Bool
all_digits [] = true
all_digits (c ∷ s) = leb b'0' c && leb c b'9' && all_digits s

unfoldable pub is_mx_phone : Bytes → Bool
is_mx_phone (a ∷ b ∷ c ∷ s) =
    eqb a b'+' && eqb b b'5' && eqb c b'2' && eqb (length s) 10 && all_digits s
is_mx_phone _ = false

-- newChatWrites
pub record NewChatWrites : Type 0 where
  pub chat : Chat
  pub message : Message
  pub wa_id : String

-- A message handed to WhatsApp: for which row, under which message id.
pub record Send : Type 0 where
  pub row : ℕ
  pub wa_id : String

-- The bridge process over the database: newChatState, and what was handed to WhatsApp so far.
pub record Bridge : Type 0 where
  pub world : World
  pub last_lookup : Option ℕ
  -- the map newChatState.sent
  pub unstamped : List (ℕ × NewChatWrites)
  pub sends : List Send
  -- calls of WhatsApp and readings of the clock so far
  pub calls : ℕ

-- storeRetry over the waits that are left: an answer of the store ends it, and so does the last wait.
abbrev pub is_answer : Error → Bool
is_answer not_author = true
is_answer edits_unsupported = true
is_answer _ = false

unfoldable pub store_retry : List ℕ → Action → Action
store_retry [] m w = (ok tt, w)
store_retry (d ∷ ds) m w = elim (m w).0 [
  | ok _ ↦ (ok tt, (m w).1)
  | err e ↦
      let again = store_retry ds m (m w).1 in
      if is_answer e || is_empty ds then (err e, (m w).1) else again
]

abbrev pub retry_delays : List ℕ
retry_delays = 0 ∷ 2 ∷ 5 ∷ []

-- canonicalChatJID
unfoldable pub canonical_chat_jid : Whatsapp → Jid → Jid
canonical_chat_jid wa raw =
    if not (raw.server == default_user_server) || is_empty raw.user
    then raw
    else elim (wa.lid_for_pn raw) [ none ↦ raw | some lid ↦ if is_empty lid.user then raw else lid ]

abbrev pub null_string : String → Option String
null_string s = if s == "" then none else some s

abbrev pub null_bytes : Bytes → Option Bytes
null_bytes [] = none
null_bytes (b ∷ s) = some (b ∷ s)

-- NullString.String: NULL reads as the empty text.
abbrev pub text_of : Option Bytes → Bytes
text_of none = []
text_of (some s) = s

-- newChatRow
pub record NewChatRow : Type 0 where
  pub id : ℕ
  pub client_request_id : Option String
  pub to_phone : Option Bytes
  pub to_name : Option Bytes
  pub body : Option Bytes
  pub kind : Option String
  pub attempts : ℕ
  pub wa_message_id : Option String
  pub expired : Bool

-- The waits of outboundBackoffSQL, in seconds.
unfoldable pub backoff_seconds : ℕ → ℕ
backoff_seconds zero = 0
backoff_seconds (suc zero) = 10
backoff_seconds (suc (suc zero)) = 30
backoff_seconds (suc (suc (suc zero))) = 60
backoff_seconds (suc (suc (suc (suc zero)))) = 120
backoff_seconds _ = 300

-- outboundBackoffSQL
unfoldable pub backoff_over : ℕ → OutboundRow → Bool
backoff_over now r = elim r.last_attempt_at [
  | none ↦ true
  | some last ↦ ltb (last + backoff_seconds r.attempts) now
]

-- ORDER BY id LIMIT 1 over the rows that the condition selects.
unfoldable pub lowest : (OutboundRow → Bool) → List OutboundRow → Option OutboundRow
lowest p [] = none
lowest p (r ∷ rs) =
    let rest = lowest p rs in
    if p r
    then elim rest [ none ↦ some r | some q ↦ if ltb q.id r.id then some q else some r ]
    else rest

abbrev pub resolvable : ℕ → OutboundRow → Bool
resolvable now r =
    r.status == "resolve" && ltb r.attempts outbound_max_attempts && backoff_over now r

abbrev pub new_chat_row : ℕ → OutboundRow → NewChatRow
new_chat_row now r = record {
  id = r.id;
  client_request_id = r.client_request_id;
  to_phone = r.to_phone;
  to_name = r.to_name;
  body = r.body;
  kind = r.kind;
  attempts = r.attempts;
  wa_message_id = r.whatsapp_message_id;
  expired = ltb (r.created_at + new_chat_max_age) now;
}

abbrev pub read_resolve : ℕ → Db → Option NewChatRow
read_resolve now db = elim (lowest (resolvable now) db.outbound) [
  | none ↦ none
  | some r ↦ some (new_chat_row now r)
]

-- queryResolveOutbound
unfoldable pub query_resolve_outbound : Env → M (Option NewChatRow)
query_resolve_outbound env = query env read_resolve

-- A store call whose error is only logged.
abbrev pub quietly : Action → Bridge → Bridge
quietly m b = record b { world = (m b.world).1 }

unfoldable pub retried : Action → Action
unfolding store_retry
retried m = store_retry retry_delays m

-- failNewChat
unfoldable pub fail_new_chat : Env → ℕ → String → Bytes → Bridge → Bridge
fail_new_chat env id code detail = quietly (fail_outbound env id outbound_max_attempts code detail)

unfoldable pub unstamped_of : ℕ → List (ℕ × NewChatWrites) → Option NewChatWrites
unstamped_of id [] = none
unstamped_of id ((k, w) ∷ ws) = if eqb k id then some w else unstamped_of id ws

-- delete(b.newChat.sent, id)
unfoldable pub forget : ℕ → List (ℕ × NewChatWrites) → List (ℕ × NewChatWrites)
forget id [] = []
forget id ((k, w) ∷ ws) = let rest = forget id ws in if eqb k id then rest else (k, w) ∷ rest

-- The chat, then the message and the row's chat_jid.
abbrev pub store_chat : Env → ℕ → NewChatWrites → Bridge → Bridge
store_chat env id w b = elim (retried (upsert_chat env w.chat) b.world).0 [
  | err _ ↦ quietly (retried (upsert_chat env w.chat)) b
  | ok _ ↦ quietly (retried (set_outbound_chat env id w.chat.jid)) (
      quietly (retried (insert_message env w.message))
        (quietly (retried (upsert_chat env w.chat)) b))
]

-- finishNewChat
unfoldable pub finish_new_chat : Env → ℕ → NewChatWrites → Bridge → Bridge
finish_new_chat env id w b =
    let stamp = retried (mark_new_chat_sent env id w.wa_id) in
    elim (stamp b.world).0 [
      | err _ ↦ quietly stamp b
      | ok _ ↦
          let b' = quietly stamp b in
          store_chat env id w (record b' { unstamped = forget id b'.unstamped })
    ]
