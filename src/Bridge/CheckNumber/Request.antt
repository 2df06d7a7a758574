-- ===== src/Bridge/CheckNumber/Request.antt =====
-- The request files of internal/wabridge/checknumber.go: answerCheckRequest and WatchCheckRequests in
-- the bridge, RequestCheckNumber in the command, and writeFileAtomic. The directory, the JSON and the
-- nonce are parameters.
pub mod Answered
use enviadores_wabridge.Prelude.{
  ℕ, suc, Bool, true, false, not, ◌||◌, Option, none, some, List, [], ◌∷◌, ◌++◌, if◌then◌else◌, ◌⊎◌,
  inl, inr,
}
use enviadores_wabridge.Text.Utf8.{Bytes, utf8}
use enviadores_wabridge.Store.Failure.{bytes_eq}
use enviadores_wabridge.Bridge.CheckNumber.{normalize_check_phone}
use enviadores_wabridge.Bridge.CheckNumber.Lookup.{CheckNumberResult}

-- CheckNumberRequest
pub record CheckNumberRequest : Type 0 where
  pub id : Bytes
  pub phone : Bytes

-- The files of the directory, by their base names: ReadFile with none for an error, Remove whose error
-- is not looked at, and WriteFile and Rename with the text of the error if there is one.
pub record Folder (S : Type 0) : Type 0 where
  pub read_file : Bytes → S → Option Bytes
  pub remove : Bytes → S → S
  pub write_file : Bytes → Bytes → S → Option Bytes × S
  pub rename : Bytes → Bytes → S → Option Bytes × S

-- encoding/json: marshalling, and unmarshalling to the text of an error or a value.
pub record Json : Type 0 where
  pub of_request : CheckNumberRequest → Bytes
  pub of_result : CheckNumberResult → Bytes
  pub to_request : Bytes → Bytes ⊎ CheckNumberRequest
  pub to_result : Bytes → Bytes ⊎ CheckNumberResult

abbrev pub check_request_file : Bytes
check_request_file = utf8 "check-number.req"

abbrev pub check_result_file : Bytes
check_result_file = utf8 "check-number.res"

abbrev pub bad_request : Bytes → CheckNumberResult
bad_request e = record {
  id = [];
  phone = [];
  error = utf8 "bad request file: " ++ e;
  is_in = false;
  query = [];
  jid = "";
  phone_number = "";
  verified_name = [];
  store_jid = "";
}

-- What RequestCheckNumber returns.
pub data RequestOutcome : Type 0 where
  bad_phone no_answer : RequestOutcome
  write_failed : Bytes → RequestOutcome
  answered : CheckNumberResult → RequestOutcome

module _ {S : Type 0} (f : Folder S) where
  abbrev pub after_temporary : Bytes → Bytes → Option Bytes × S → Option Bytes × S
  after_temporary tmp path (some e, s) = (some e, s)
  after_temporary tmp path (none, s) = f.rename tmp path s

  -- writeFileAtomic, of what is already JSON
  unfoldable pub write_file_atomic : Bytes → Bytes → S → Option Bytes × S
  write_file_atomic path bytes s =
      let tmp = path ++ utf8 ".tmp" in after_temporary tmp path (f.write_file tmp bytes s)

module _ {S : Type 0} (f : Folder S) (j : Json) where
  -- What the bridge says to the bytes of a request.
  abbrev pub reply :
      (CheckNumberRequest → CheckNumberResult) → Bytes ⊎ CheckNumberRequest → CheckNumberResult
  reply check (inl e) = bad_request e
  reply check (inr r) = check r

  abbrev pub answer_found : (CheckNumberRequest → CheckNumberResult) → Option Bytes → S → S
  answer_found check none s = s
  answer_found check (some bytes) s =
      (write_file_atomic f check_result_file (j.of_result (reply check (j.to_request bytes)))
        (f.remove check_request_file s)).1

  -- answerCheckRequest, by what checkNumber answers at that moment
  unfoldable pub answer_check_request : (CheckNumberRequest → CheckNumberResult) → S → S
  answer_check_request check s = answer_found check (f.read_file check_request_file s) s

  -- WatchCheckRequests, by what checkNumber answers at its ticks
  unfoldable pub watch_check_requests : List (CheckNumberRequest → CheckNumberResult) → S → S
  watch_check_requests [] s = s
  watch_check_requests (check ∷ checks) s =
      watch_check_requests checks (answer_check_request check s)

  abbrev pub own_result : Bytes → Bytes ⊎ CheckNumberResult → Option CheckNumberResult
  own_result id (inl e) = none
  own_result id (inr r) = if bytes_eq r.id id then some r else none

  -- The answer to the request of an id, if the result file holds it.
  abbrev pub look : Bytes → Option Bytes → Option CheckNumberResult
  look id none = none
  look id (some bytes) = own_result id (j.to_result bytes)

  abbrev pub polled :
      Option CheckNumberResult → S → Option CheckNumberResult × S → Option CheckNumberResult × S
  polled (some r) s later = (some r, f.remove check_result_file s)
  polled none s later = later

  -- The loop of RequestCheckNumber: before each look, others have changed the directory for half a
  -- second. The list ends at the deadline.
  unfoldable pub poll : Bytes → List (S → S) → S → Option CheckNumberResult × S
  poll id [] s = (none, f.remove check_request_file s)
  poll id (wait ∷ waits) s =
      let s' = wait s in
      let later = poll id waits s' in polled (look id (f.read_file check_result_file s')) s' later

  abbrev pub outcome_of : Option CheckNumberResult × S → RequestOutcome × S
  outcome_of (none, s) = (no_answer, s)
  outcome_of (some r, s) = (answered r, s)

  abbrev pub after_request : Bytes → List (S → S) → Option Bytes × S → RequestOutcome × S
  after_request id waits (some e, s) = (write_failed e, s)
  after_request id waits (none, s) = outcome_of (poll id waits s)

  abbrev pub request_phone : Bytes → Option Bytes → List (S → S) → S → RequestOutcome × S
  request_phone id none waits s = (bad_phone, s)
  request_phone id (some phone) waits s = after_request id waits (
      write_file_atomic f check_request_file (j.of_request (record { id = id; phone = phone }))
        (f.remove check_result_file s))

  -- RequestCheckNumber, by the hexadecimal nonce
  unfoldable pub request_check_number : Bytes → Bytes → List (S → S) → S → RequestOutcome × S
  request_check_number id raw waits s = request_phone id (normalize_check_phone raw) waits s
