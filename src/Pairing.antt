-- ===== src/Pairing.antt =====
-- The row of wa_pairing: internal/pairing/pairing.go, and Heartbeat of internal/store/store.go.
pub mod Reason
pub mod Reset
use enviadores_wabridge.Prelude.{
  ℕ, ◌+◌, String, Bool, true, false, Option, none, some, List, [], ◌∷◌, ◌++◌, eqb, ◌&&◌,
  if◌then◌else◌,
}
use enviadores_wabridge.Text.Utf8.{Bytes, utf8}
use enviadores_wabridge.Text.Cut.{byte_cut}
use enviadores_wabridge.Text.Search.{starts_with}
use enviadores_wabridge.Store.Failure.{feature_heartbeat, feature_bridge_features}
use enviadores_wabridge.Store.Tables.{PairingRow, Db}
use enviadores_wabridge.Store.Exec.{
  in_transaction, Env, M, Action, query, exec, exec_with, ◌>>=◌, ◌>>◌,
}
use enviadores_wabridge.Store.Fallback.{fallback}

-- UPDATE wa_pairing SET ... WHERE id = 1
abbrev pub update_pairing : (PairingRow → PairingRow) → Db → Db
update_pairing f db = record db { pairing = f db.pairing }

abbrev pub session_lost_prefix : Bytes
session_lost_prefix = utf8 "session lost: "

-- last_event LIKE 'session lost: %'; of NULL it does not hold.
unfoldable pub is_session_lost : Option Bytes → Bool
is_session_lost none = false
is_session_lost (some s) = starts_with session_lost_prefix s

-- keepSessionLost
unfoldable pub keep_session_lost : Bytes → PairingRow → Option Bytes
keep_session_lost new r = if is_session_lost r.last_event then r.last_event else some new

-- SetQRCode, with the bridge's clock
abbrev pub qr_row : Bytes → ℕ → PairingRow → PairingRow
qr_row code expires r = record r {
  status = "awaiting_scan";
  qr_code = some code;
  qr_expires_at = some expires;
  last_event = keep_session_lost (utf8 "qr emitted") r;
}

unfoldable pub set_qr_code : Env → Bytes → ℕ → ℕ → Action
set_qr_code env code local_now valid_for =
    exec env λ now. update_pairing (qr_row code (local_now + valid_for))

-- SetPaired
abbrev pub paired_row : String → ℕ → PairingRow → PairingRow
paired_row device now r = record r {
  status = "paired";
  qr_code = none;
  qr_expires_at = none;
  device_jid = some device;
  paired_at = some now;
  last_event = some (utf8 "paired");
}

unfoldable pub set_paired : Env → String → Action
set_paired env device = exec env λ now. update_pairing (paired_row device now)

-- SetEvent
abbrev pub event_row : String → Bytes → PairingRow → PairingRow
event_row status msg r = record r { status = status; last_event = keep_session_lost msg r }

unfoldable pub set_event : Env → String → Bytes → Action
set_event env status msg = exec env λ now. update_pairing (event_row status msg)

-- The text of a lost session: the reason is cut to 180 bytes, and `at` is the formatted UTC time.
unfoldable pub session_lost_message : Bytes → Bytes → Bytes
session_lost_message reason at = session_lost_prefix ++ (byte_cut 180 reason ++ (utf8 " @ " ++ at))

-- SetSessionLost
abbrev pub lost_row : Bytes → PairingRow → PairingRow
lost_row msg r = record r { status = "error"; last_event = some msg }

unfoldable pub set_session_lost : Env → Bytes → Bytes → Action
set_session_lost env reason at =
    exec env λ now. update_pairing (lost_row (session_lost_message reason at))

abbrev pub consumed_row : PairingRow → PairingRow
consumed_row r = record r { reset_requested_at = none; last_event = some (utf8 "reset consumed") }

abbrev pub after_select : Env → Option ℕ → M Bool
after_select env none = query env λ now db. false
after_select env (some requested) =
    in_transaction env >> exec_with env λ now db. (update_pairing consumed_row db, true)

-- ConsumeResetRequest: a transaction, whose update takes effect with its COMMIT.
unfoldable pub consume_reset_request : Env → M Bool
consume_reset_request env =
    in_transaction env >> (query env (λ now db. db.pairing.reset_requested_at) >>= after_select env)

abbrev pub bridge_features : String
bridge_features = "new_chat,location_send"

abbrev pub seen_row : ℕ → PairingRow → PairingRow
seen_row now r = record r { last_seen_at = some now }

abbrev pub announced_row : ℕ → PairingRow → PairingRow
announced_row now r = record (seen_row now r) {
  bridge_features = some bridge_features;
  bridge_features_at = some now;
}

-- Heartbeat
unfoldable pub heartbeat : Env → Action
heartbeat env =
    fallback feature_bridge_features (exec env λ now. update_pairing (announced_row now))
      (some (fallback feature_heartbeat (exec env λ now. update_pairing (seen_row now)) none tt)) tt
