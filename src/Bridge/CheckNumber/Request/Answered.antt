-- ===== src/Bridge/CheckNumber/Request/Answered.antt =====
-- A request that the bridge answers in time: RequestCheckNumber and answerCheckRequest of
-- internal/wabridge/checknumber.go over one directory.
use enviadores_wabridge.Prelude.{
  ℕ, zero, suc, ◌≡◌, ◌≢◌, refl, ap, ◌∙◌, Bool, true, false, Option, none, some, List, [], ◌∷◌, ◌++◌,
  inr,
}
use enviadores_wabridge.Text.Utf8.{Bytes, utf8}
use enviadores_wabridge.Store.Failure.{bytes_eq, bytes_eq_iff, differs_from}
use enviadores_wabridge.Bridge.Whatsapp.{OnWhatsapp}
use enviadores_wabridge.Bridge.Client.{Client}
use enviadores_wabridge.Bridge.CheckNumber.{normalize_check_phone}
use enviadores_wabridge.Bridge.CheckNumber.Lookup.{
  CheckNumberResult, check_number, look_up, first_hit,
}
use enviadores_wabridge.Bridge.CheckNumber.Request.{
  CheckNumberRequest, Folder, Json, RequestOutcome, answered, no_answer, check_request_file,
  check_result_file, write_file_atomic, after_temporary, answer_check_request, reply, own_result,
  poll, after_request, request_check_number, outcome_of,
}

-- A directory on which every call succeeds and changes the files that it names alone.
pub record Works {S : Type 0} (f : Folder S) : Type 0 where
  pub remove_own : (n : Bytes) (s : S) → f.read_file n (f.remove n s) ≡ none
  pub remove_keeps : (n m : Bytes) (s : S) → m ≢ n → f.read_file m (f.remove n s) ≡ f.read_file m s
  pub writes : (n b : Bytes) (s : S) → (f.write_file n b s).0 ≡ none
  pub write_own : (n b : Bytes) (s : S) → f.read_file n (f.write_file n b s).1 ≡ some b
  pub write_keeps :
      (n b m : Bytes) (s : S) → m ≢ n → f.read_file m (f.write_file n b s).1 ≡ f.read_file m s
  pub renames : (n m : Bytes) (s : S) → (f.rename n m s).0 ≡ none
  pub rename_own : (n m : Bytes) (s : S) → f.read_file m (f.rename n m s).1 ≡ f.read_file n s
  pub rename_keeps :
      (n m k : Bytes) (s : S) → k ≢ n → k ≢ m → f.read_file k (f.rename n m s).1 ≡ f.read_file k s

-- What is marshalled of this request and of this answer is unmarshalled to the same.
pub record Reads (j : Json) (r : CheckNumberRequest) (a : CheckNumberResult) : Type 0 where
  pub request : j.to_request (j.of_request r) ≡ inr r
  pub result : j.to_result (j.of_result a) ≡ inr a

abbrev pub unchanged {ℓ} : {S : Type ℓ} → ℕ → List (S → S) → List (S → S)
unchanged zero waits = waits
unchanged (suc n) waits = (λ s. s) ∷ unchanged n waits

first_hit-id :
    (c : Client) (quoted : Bytes → Bytes) (query_of : OnWhatsapp → Bytes) (id raw : Bytes)
    (r : List OnWhatsapp × Option Bytes)
    → (first_hit c quoted query_of id raw r).id ≡ id
first_hit-id c quoted query_of id raw ([], some e) = refl
first_hit-id c quoted query_of id raw ([], none) = refl
first_hit-id c quoted query_of id raw (hit ∷ hits, e) = refl

check_number-id :
    (c : Client) (quoted : Bytes → Bytes) (query_of : OnWhatsapp → Bytes) (n : ℕ) (connected : Bool)
    (id raw : Bytes)
    → (check_number c quoted query_of n connected id raw).id ≡ id
unfolding check_number
check_number-id c quoted query_of n connected id raw = go connected (normalize_check_phone raw)
  where
    go : (b : Bool) (p : Option Bytes) → (look_up c quoted query_of n b id raw p).id ≡ id
    go b none = refl
    go false (some phone) = refl
    go true (some phone) = first_hit-id c quoted query_of id raw (c.whatsapp.lookup n phone)

module _ {S : Type 0} (f : Folder S) (w : Works f) where
  renamed :
      (tmp path bytes : Bytes) (r : Option Bytes × S)
      → r.0 ≡ none
      → f.read_file tmp r.1 ≡ some bytes
      → ((after_temporary f tmp path r).0 ≡ none)
        × (f.read_file path (after_temporary f tmp path r).1 ≡ some bytes)
  renamed tmp path bytes (none, s) ok h = (w.renames tmp path s, w.rename_own tmp path s ∙ h)
  renamed tmp path bytes (some e, s) ok h = cc

  written :
      (path bytes : Bytes) (s : S)
      → ((write_file_atomic f path bytes s).0 ≡ none)
        × (f.read_file path (write_file_atomic f path bytes s).1 ≡ some bytes)
  unfolding write_file_atomic
  written path bytes s =
      go (f.write_file (path ++ utf8 ".tmp") bytes s) (w.writes (path ++ utf8 ".tmp") bytes s)
        (w.write_own (path ++ utf8 ".tmp") bytes s)
    where
      go :
          (r : Option Bytes × S)
          → r.0 ≡ none
          → f.read_file (path ++ utf8 ".tmp") r.1 ≡ some bytes
          → ((after_temporary f (path ++ utf8 ".tmp") path r).0 ≡ none)
            × (f.read_file path (after_temporary f (path ++ utf8 ".tmp") path r).1 ≡ some bytes)
      go r ok h = renamed (path ++ utf8 ".tmp") path bytes r ok h

  written_keeps :
      (path bytes m : Bytes) (s : S)
      → m ≢ path
      → m ≢ path ++ utf8 ".tmp"
      → f.read_file m (write_file_atomic f path bytes s).1 ≡ f.read_file m s
  unfolding write_file_atomic
  written_keeps path bytes m s from_path from_tmp =
      go (f.write_file (path ++ utf8 ".tmp") bytes s)
        (w.write_keeps (path ++ utf8 ".tmp") bytes m s from_tmp)
    where
      go :
          (r : Option Bytes × S)
          → f.read_file m r.1 ≡ f.read_file m s
          → f.read_file m (after_temporary f (path ++ utf8 ".tmp") path r).1 ≡ f.read_file m s
      go (none, v) h = w.rename_keeps (path ++ utf8 ".tmp") path m v from_tmp from_path ∙ h
      go (some e, v) h = h

result_not_request : check_result_file ≢ check_request_file
unfolding utf8 bytes_eq
result_not_request = differs_from check_result_file check_request_file refl

result_not_temporary : check_result_file ≢ check_request_file ++ utf8 ".tmp"
unfolding utf8 bytes_eq
result_not_temporary = differs_from check_result_file (check_request_file ++ utf8 ".tmp") refl

abbrev pub to_check :
    Client
    → (Bytes → Bytes)
    → (OnWhatsapp → Bytes)
    → ℕ
    → Bool
    → CheckNumberRequest
    → CheckNumberResult
to_check c quoted query_of n connected r = check_number c quoted query_of n connected r.id r.phone

abbrev or_answered : Option CheckNumberResult → RequestOutcome
or_answered none = no_answer
or_answered (some r) = answered r

module _ {S : Type 0} (f : Folder S) (w : Works f) (j : Json) where
  -- The bridge finds a request and answers it.
  answered_there :
      (check : CheckNumberRequest → CheckNumberResult) (r : CheckNumberRequest) (s : S)
      → Reads j r (check r)
      → f.read_file check_request_file s ≡ some (j.of_request r)
      → f.read_file check_result_file (answer_check_request f j check s)
        ≡ some (j.of_result (check r))
  unfolding answer_check_request
  answered_there check r s reads there = rw there (
      (written f w check_result_file (j.of_result (reply f j check (j.to_request (j.of_request r))))
        (f.remove check_request_file s)).1
      ∙ ap (λ x. some (j.of_result (reply f j check x))) reads.request)

  own : (id : Bytes) (r : CheckNumberResult) → r.id ≡ id → own_result f j id (inr r) ≡ some r
  own id r same = rw ((bytes_eq_iff r.id id).1 same) refl

  -- The first looks find nothing, the look after the bridge's turn its answer.
  poll_answered :
      (check : CheckNumberRequest → CheckNumberResult) (r : CheckNumberRequest)
      (waits : List (S → S)) (n : ℕ) (s : S)
      → Reads j r (check r)
      → (check r).id ≡ r.id
      → f.read_file check_request_file s ≡ some (j.of_request r)
      → f.read_file check_result_file s ≡ none
      → (poll f j r.id (unchanged n (answer_check_request f j check ∷ waits)) s).0 ≡ some (check r)
  unfolding poll
  poll_answered check r waits zero s reads same there absent =
      rw (answered_there check r s reads there, reads.result, own r.id (check r) same) refl
  poll_answered check r waits (suc n) s reads same there absent =
      rw absent (poll_answered check r waits n s reads same there absent)

  polled_answer :
      (id : Bytes) (waits : List (S → S)) (r : Option Bytes × S) (a : CheckNumberResult)
      → r.0 ≡ none
      → (poll f j id waits r.1).0 ≡ some a
      → (after_request f j id waits r).0 ≡ answered a
  polled_answer id waits (some e, s) a ok h = cc
  polled_answer id waits (none, s) a ok h = go (poll f j id waits s) h
    where
      go : (r : Option CheckNumberResult × S) → r.0 ≡ some a → (outcome_of f j r).0 ≡ answered a
      go (some b, v) k = ap or_answered k
      go (none, v) k = cc

  -- Over a directory on which every call succeeds and changes the files that it names alone, with
  -- a JSON that reads back this request and this answer: a RequestCheckNumber of an accepted
  -- phone, in which after any number of looks at an unchanged directory the bridge runs
  -- answerCheckRequest, returns what checkNumber says of the normalized phone under the request's
  -- id, even where an older result file was left behind.
  pub request_check_number-check_number :
      (c : Client) (quoted : Bytes → Bytes) (query_of : OnWhatsapp → Bytes) (n : ℕ)
      (connected : Bool) (id raw phone : Bytes) (m : ℕ) (waits : List (S → S)) (s : S)
      → normalize_check_phone raw ≡ some phone
      → Reads j
          (record { id = id; phone = phone })
          (check_number c quoted query_of n connected id phone)
      → (request_check_number f j id raw
          (unchanged m (answer_check_request f j (to_check c quoted query_of n connected) ∷ waits))
          s).0
        ≡ answered (check_number c quoted query_of n connected id phone)
  unfolding request_check_number
  request_check_number-check_number c quoted query_of n connected id raw phone m waits s normal
        reads =
      let r : CheckNumberRequest = record { id = id; phone = phone } in
      let ready = f.remove check_result_file s in
      let (ok, there) = written f w check_request_file (j.of_request r) ready in
      rw normal (
        polled_answer id _ (write_file_atomic f check_request_file (j.of_request r) ready)
          (check_number c quoted query_of n connected id phone) ok
          (poll_answered (to_check c quoted query_of n connected) r waits m _ reads
            (check_number-id c quoted query_of n connected id phone) there
            (written_keeps f w check_request_file (j.of_request r) check_result_file ready
                result_not_request result_not_temporary
              ∙ w.remove_own check_result_file s)))
