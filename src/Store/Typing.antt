-- ===== src/Store/Typing.antt =====
-- DrainTypingOutbound and FindStaleProfilePics of internal/store/store.go.
pub mod Once
use enviadores_wabridge.Prelude.{
  ℕ, ◌+◌, String, Bool, true, false, not, ◌&&◌, ◌||◌, Option, none, some, List, [], ◌∷◌, ◌==◌, any,
  leb, ltb, take, if◌then◌else◌,
}
use enviadores_wabridge.Store.Tables.{ChatRow, TypingRow, Db, update_where}
use enviadores_wabridge.Store.Exec.{Env, M, query, exec_with, in_transaction, ◌>>=◌, ◌>>◌}

-- TypingRequest
pub record TypingRequest : Type 0 where
  pub chat_jid : String
  pub state : String

-- WHERE processed_at IS NULL
abbrev pub unprocessed : TypingRow → Bool
unprocessed r = elim r.processed_at [ none ↦ true | some _ ↦ false ]

abbrev pub typing_request : TypingRow → TypingRequest
typing_request r = record { chat_jid = r.chat_jid; state = r.state }

-- ORDER BY requested_at over the rows that are not processed; rows of one second stay in the order of
-- the table.
unfoldable pub insert_request : TypingRow → List TypingRow → List TypingRow
insert_request r [] = r ∷ []
insert_request r (q ∷ qs) =
    let later = insert_request r qs in
    if leb r.requested_at q.requested_at then r ∷ q ∷ qs else q ∷ later

unfoldable pub oldest_requests : List TypingRow → List TypingRow
oldest_requests [] = []
oldest_requests (r ∷ rs) =
    let rest = oldest_requests rs in if unprocessed r then insert_request r rest else rest

unfoldable pub requests : List TypingRow → List TypingRequest
requests [] = []
requests (r ∷ rs) = typing_request r ∷ requests rs

-- chat_jid IN (...)
abbrev pub in_batch : List TypingRequest → String → Bool
in_batch batch jid = any (λ (t : TypingRequest). t.chat_jid == jid) batch

abbrev pub process_batch : List TypingRequest → ℕ → Db → Db
process_batch batch now db = record db {
  typing =
      update_where (λ r. in_batch batch r.chat_jid && unprocessed r)
        (λ r. record r { processed_at = some now }) db.typing;
}

-- The UPDATE takes effect with the COMMIT.
abbrev pub claim_batch : Env → List TypingRequest → M (List TypingRequest)
claim_batch env [] = query env (λ now db. [])
claim_batch env (t ∷ ts) =
    in_transaction env >> exec_with env (λ now db. (process_batch (t ∷ ts) now db, t ∷ ts))

-- DrainTypingOutbound
unfoldable pub drain_typing_outbound : Env → ℕ → M (List TypingRequest)
drain_typing_outbound env limit =
    in_transaction env
    >> (query env (λ now db. requests (take limit (oldest_requests db.typing))) >>= claim_batch env)

-- WHERE is_group = 0 AND archived = 0 AND the picture was never looked at, or too long ago
abbrev pub is_stale : ℕ → ℕ → ChatRow → Bool
is_stale older_than now r =
    not r.is_group
    && not r.archived
    && elim r.profile_pic_updated_at [ none ↦ true | some t ↦ ltb (t + older_than) now ]

-- ORDER BY profile_pic_updated_at IS NULL DESC, profile_pic_updated_at ASC
abbrev pub before : Option ℕ → Option ℕ → Bool
before none b = true
before (some s) none = false
before (some s) (some t) = leb s t

unfoldable pub insert_stale : ChatRow → List ChatRow → List ChatRow
insert_stale r [] = r ∷ []
insert_stale r (q ∷ qs) =
    let later = insert_stale r qs in
    if before r.profile_pic_updated_at q.profile_pic_updated_at then r ∷ q ∷ qs else q ∷ later

unfoldable pub stale_chats : ℕ → ℕ → List ChatRow → List ChatRow
stale_chats older_than now [] = []
stale_chats older_than now (r ∷ rs) =
    let rest = stale_chats older_than now rs in
    if is_stale older_than now r then insert_stale r rest else rest

unfoldable pub chat_jids : List ChatRow → List String
chat_jids [] = []
chat_jids (r ∷ rs) = r.jid ∷ chat_jids rs

-- FindStaleProfilePics
unfoldable pub find_stale_profile_pics : Env → ℕ → ℕ → M (List String)
find_stale_profile_pics env older_than limit =
    query env (λ now db. chat_jids (take limit (stale_chats older_than now db.chats)))
