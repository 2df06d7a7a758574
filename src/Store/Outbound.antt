-- ===== src/Store/Outbound.antt =====
-- The writes to wa_outbound: FailOutbound, ClaimNewChatMessageID, MarkNewChatSent,
-- SetOutboundChat and OutboundLocation of internal/store/store.go, and markAttempt of
-- internal/wabridge/wabridge.go.
pub mod Ids
pub mod Claim
pub mod Failed
use enviadores_wabridge.Prelude.{
  ℕ, suc, ◌+◌, ◌≡◌, String, Bool, true, false, not, ◌&&◌, ◌||◌, Option, none, some, List, [], ◌∷◌,
  ◌++◌, ◌==◌, eqb, leb, if◌then◌else◌, length,
}
use enviadores_wabridge.Text.Utf8.{Bytes, utf8}
use enviadores_wabridge.Text.Cut.{clip, byte_cut}
use enviadores_wabridge.Store.Failure.{
  Result, ok, err, feature_error_code, feature_outbound_location,
}
use enviadores_wabridge.Store.Tables.{OutboundRow, Db, update_where, find_where, filter_where}
use enviadores_wabridge.Store.Exec.{Env, World, M, Action, exec, exec_with, query_row, pure, ◌>>=◌}
use enviadores_wabridge.Store.Fallback.{fallback}
use enviadores_wabridge.Store.Messages.{is_some}

abbrev pub outbound_message_max : ℕ
outbound_message_max = 500

abbrev pub outbound_max_attempts : ℕ
outbound_max_attempts = 5

-- UPDATE wa_outbound SET ... WHERE id = ?
unfoldable pub update_outbound : ℕ → (OutboundRow → OutboundRow) → Db → Db
update_outbound id f db = record db { outbound = update_where (λ r. eqb r.id id) f db.outbound }

-- code + ": " + detail, clipped
unfoldable pub failure_message : String → Bytes → Bytes
failure_message code detail = clip (utf8 code ++ (b':' ∷ b' ' ∷ detail)) outbound_message_max

abbrev pub failed_row : Bool → ℕ → Bytes → String → ℕ → OutboundRow → OutboundRow
failed_row with_code attempts msg code now r = record r {
  status = "failed";
  attempts = attempts;
  last_attempt_at = some now;
  error_message = some msg;
  error_code = if with_code then some code else r.error_code;
}

-- FailOutbound
unfoldable pub fail_outbound : Env → ℕ → ℕ → String → Bytes → Action
fail_outbound env id attempts code detail =
    let msg = failure_message code detail in
    fallback feature_error_code
      (exec env λ now. update_outbound id (failed_row true attempts msg code now))
      (some (exec env λ now. update_outbound id (failed_row false attempts msg code now))) tt

-- WHERE id = ? AND status = 'resolve' AND whatsapp_message_id IS NULL
abbrev pub unclaimed : ℕ → OutboundRow → Bool
unclaimed id r = eqb r.id id && r.status == "resolve" && not (is_some r.whatsapp_message_id)

abbrev pub claim_row : String → OutboundRow → OutboundRow
claim_row wa_id r = record r { whatsapp_message_id = some wa_id }

-- ClaimNewChatMessageID: the answer is whether exactly one row was changed.
unfoldable pub claim_new_chat_message_id : Env → ℕ → String → M Bool
claim_new_chat_message_id env id wa_id = exec_with env λ now db. (
  record db { outbound = update_where (unclaimed id) (claim_row wa_id) db.outbound },
  eqb (length (filter_where (unclaimed id) db.outbound)) 1,
)

abbrev pub sent_row : Bool → String → ℕ → OutboundRow → OutboundRow
sent_row with_code wa_id now r = record r {
  status = "sent";
  whatsapp_message_id = some wa_id;
  sent_at = some now;
  error_message = none;
  error_code = if with_code then none else r.error_code;
}

-- MarkNewChatSent
unfoldable pub mark_new_chat_sent : Env → ℕ → String → Action
mark_new_chat_sent env id wa_id =
    fallback feature_error_code (exec env λ now. update_outbound id (sent_row true wa_id now))
      (some (exec env λ now. update_outbound id (sent_row false wa_id now))) tt

-- SetOutboundChat
unfoldable pub set_outbound_chat : Env → ℕ → String → Action
set_outbound_chat env id jid =
    exec env λ now. update_outbound id (λ r. record r { chat_jid = some jid })

abbrev pub attempted_row : ℕ → Bytes → ℕ → OutboundRow → OutboundRow
attempted_row attempts msg now r = record r {
  attempts = attempts;
  last_attempt_at = some now;
  error_message = some msg;
}

-- markAttempt; errors of its statements are logged only.
unfoldable pub mark_attempt : Env → ℕ → ℕ → String → Bytes → Action
mark_attempt env id attempts cap_code msg =
    let cut = byte_cut 500 msg in
    if leb outbound_max_attempts (attempts + 1)
    then fail_outbound env id (attempts + 1) cap_code cut
    else exec env λ now. update_outbound id (attempted_row (attempts + 1) cut now)

-- What a kind='location' row says about its place.
pub record OutboundPlace : Type 0 where
  pub name : Option Bytes
  pub address : Option Bytes
  pub url : Option Bytes

abbrev pub no_place : OutboundPlace
no_place = record { name = none; address = none; url = none }

-- OutboundLocation
unfoldable pub outbound_location : Env → ℕ → M OutboundPlace
outbound_location env id =
    fallback feature_outbound_location
      (do
        r ← query_row env (λ now db. find_where (λ r. eqb r.id id) db.outbound)
        pure
            (record { name = r.location_name; address = r.location_address; url = r.location_url }))
      (some (pure no_place)) no_place
