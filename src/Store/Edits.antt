-- ===== src/Store/Edits.antt =====
-- ApplyEdit and RevokeMessage of internal/store/store.go.
pub mod Target
pub mod History
pub mod Revoke
pub mod Null
use enviadores_wabridge.Prelude.{
  ℕ, ◌≡◌, String, Bool, true, false, not, ◌&&◌, ◌||◌, Option, none, some, List, [], ◌∷◌, ◌==◌,
  if◌then◌else◌,
}
use enviadores_wabridge.Text.Utf8.{Bytes}
use enviadores_wabridge.Store.Failure.{
  Error, Result, ok, err, not_author, edits_unsupported, feature_edits,
}
use enviadores_wabridge.Store.Tables.{MessageRow, Db, update_where, coalesce}
use enviadores_wabridge.Store.Exec.{Env, World, Action, exec, feature_off}
use enviadores_wabridge.Store.Fallback.{fallback}
use enviadores_wabridge.Store.Messages.{MessageRef, Located, not_found, is_some, locate_message}

abbrev pub bool_eq : Bool → Bool → Bool
bool_eq true b = b
bool_eq false b = not b

-- WHERE id = ? AND chat_jid = ?
abbrev pub names : String → String → MessageRow → Bool
names id chat r = r.id == id && r.chat_jid == chat

abbrev pub edit_row : ℕ → Option Bytes → MessageRow → MessageRow
edit_row now body r = record r {
  original_body = coalesce r.original_body r.body;
  message = record r.message { body = body };
  edited_at = some now;
}

abbrev pub revoke_row : ℕ → MessageRow → MessageRow
revoke_row now r = record r { revoked_at = coalesce r.revoked_at (some now) }

unfoldable pub edit_table : String → String → Option Bytes → ℕ → Db → Db
edit_table id chat body now db = record db {
  messages = update_where (names id chat) (edit_row now body) db.messages;
}

unfoldable pub revoke_table : String → String → ℕ → Db → Db
revoke_table id chat now db = record db {
  messages = update_where (names id chat) (revoke_row now) db.messages;
}

abbrev pub after_edit : MessageRef → Result (Unit {0}) → World → Located × World
after_edit ref (err e) w = (record { ref = ref; found = true; error = some e }, w)
after_edit ref (ok _) w =
    if feature_off w feature_edits
    then (record { ref = ref; found = true; error = some edits_unsupported }, w)
    else (record { ref = ref; found = true; error = none }, w)

abbrev pub write_edit : Env → String → Bool → Option Bytes → Located × World → Located × World
write_edit env id from_me body (l, w) =
    if is_some l.error || not l.found
    then (l, w)
    else if not (bool_eq l.ref.from_me from_me)
    then (record { ref = l.ref; found = true; error = some not_author }, w)
    else let (r, w') =
        fallback feature_edits (exec env (edit_table id l.ref.chat_jid body)) none tt w in
      after_edit l.ref r w'

-- ApplyEdit
unfoldable pub apply_edit :
    Env → List String → String → Bool → Option Bytes → World → Located × World
apply_edit env chats id from_me body w =
    write_edit env id from_me body (locate_message env id chats w)

abbrev pub after_revoke : MessageRef → Result (Unit {0}) → World → Located × World
after_revoke ref (err e) w = (record { ref = ref; found = true; error = some e }, w)
after_revoke ref (ok _) w =
    (record { ref = ref; found = not (feature_off w feature_edits); error = none }, w)

abbrev pub write_revoke : Env → String → Bool → Bool → Located × World → Located × World
write_revoke env id from_me is_group (l, w) =
    if is_some l.error || not l.found
    then (l, w)
    else if not is_group && not (bool_eq l.ref.from_me from_me)
    then (record { ref = l.ref; found = true; error = some not_author }, w)
    else let (r, w') =
        fallback feature_edits (exec env (revoke_table id l.ref.chat_jid)) none tt w in
      after_revoke l.ref r w'

-- RevokeMessage
unfoldable pub revoke_message : Env → List String → String → Bool → Bool → World → Located × World
revoke_message env chats id from_me is_group w =
    if feature_off w feature_edits
    then (not_found, w)
    else write_revoke env id from_me is_group (locate_message env id chats w)
