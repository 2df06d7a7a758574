-- ===== src/Store/Status.antt =====
-- MarkMessagesStatus of internal/store/store.go: receipts only move a status forward.
pub mod Order
use enviadores_wabridge.Prelude.{
  ℕ, ◌≡◌, String, Bool, true, false, ◌&&◌, Option, none, some, List, [], ◌∷◌, ◌==◌, ltb,
  if◌then◌else◌, any,
}
use enviadores_wabridge.Store.Failure.{unknown_status}
use enviadores_wabridge.Store.Tables.{MessageRow, Db, update_where}
use enviadores_wabridge.Store.Exec.{Env, Action, exec, pure, fail}
use enviadores_wabridge.Store.Messages.{is_empty}

-- The map `rank`.
abbrev pub ranks : List (String × ℕ)
ranks = ("received", 0) ∷ ("sent", 1) ∷ ("delivered", 2) ∷ ("read", 3) ∷ []

unfoldable pub rank_in : List (String × ℕ) → String → Option ℕ
rank_in [] s = none
rank_in ((name, n) ∷ rest) s = if name == s then some n else rank_in rest s

unfoldable pub rank : String → Option ℕ
unfolding rank_in
rank = rank_in ranks

-- The names whose rank is below the target's.
unfoldable pub below : ℕ → List (String × ℕ) → List String
below target [] = []
below target ((name, n) ∷ rest) =
    let others = below target rest in if ltb n target then name ∷ others else others

unfoldable pub allowed_current : ℕ → List String
unfolding below
allowed_current target = below target ranks

-- status IS NULL OR status IN (...)
abbrev pub status_in : List String → Option String → Bool
status_in allowed none = true
status_in allowed (some s) = any (λ c. c == s) allowed

unfoldable pub mark_rows : List String → String → List String → List MessageRow → List MessageRow
mark_rows ids new_status allowed =
    update_where (λ r. any (λ i. i == r.id) ids && r.from_me && status_in allowed r.status)
      (λ r. record r { message = record r.message { status = some new_status } })

abbrev pub mark_target : Env → List String → String → Option ℕ → Action
mark_target env ids new_status none = fail (unknown_status new_status)
mark_target env ids new_status (some target) =
    if is_empty (allowed_current target)
    then pure tt
    else exec env λ now db. record db {
      messages = mark_rows ids new_status (allowed_current target) db.messages;
    }

unfoldable pub mark_messages_status : Env → List String → String → Action
mark_messages_status env ids new_status =
    if is_empty ids then pure tt else mark_target env ids new_status (rank new_status)
