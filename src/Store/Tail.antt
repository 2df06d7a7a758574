-- ===== src/Store/Tail.antt =====
-- RecomputeChatTail, GetQuotedRow and Quotable of internal/store/store.go: what is read back from
-- wa_messages for the chat list, a reply or a reaction.
pub mod Order
pub mod Last
pub mod Recomputed
pub mod Newest
use enviadores_wabridge.Prelude.{
  ℕ, String, Bool, true, false, not, ◌&&◌, ◌||◌, Option, none, some, List, [], ◌∷◌, ◌==◌, ltb, eqb,
  if◌then◌else◌,
}
use Prim.Native.String.{compare}
use Prim.Native.Nat.{Ordering}
use enviadores_wabridge.Text.Utf8.{Bytes}
use enviadores_wabridge.Store.Failure.{
  Error, Result, ok, err, no_rows, feature_edits, feature_location,
}
use enviadores_wabridge.Store.Tables.{ChatRow, MessageRow, Db, update_where, find_where}
use enviadores_wabridge.Store.Exec.{Env, World, M, Action, pure, fail, exec, query_row}
use enviadores_wabridge.Store.Fallback.{fallback}
use enviadores_wabridge.Store.Messages.{is_some}
use enviadores_wabridge.Store.Edits.{names}

pub record TailRow : Type 0 where
  pub message_type : String
  pub body : Option Bytes
  pub media_filename : Option Bytes
  pub revoked : Bool
  pub from_me : Bool
  pub timestamp : ℕ
  pub location_name : Option Bytes

-- Order of ids, by their code points.
abbrev pub text_ltb : String → String → Bool
text_ltb s t = elim (compare s t) [ Ordering.lt ↦ true | _ ↦ false ]

-- WHERE chat_jid = ? AND message_type NOT IN ('reaction', 'system')
unfoldable pub countable : String → MessageRow → Bool
countable chat x =
    x.chat_jid == chat && not (x.message_type == "reaction" || x.message_type == "system")

-- `y` comes before `x` in ORDER BY timestamp DESC, id DESC.
unfoldable pub newer : MessageRow → MessageRow → Bool
newer y x = ltb x.timestamp y.timestamp || eqb x.timestamp y.timestamp && text_ltb x.id y.id

-- The first of the rows that a condition selects, in that order.
unfoldable pub tail_row : (MessageRow → Bool) → List MessageRow → Option MessageRow
tail_row p [] = none
tail_row p (x ∷ xs) =
    let rest = tail_row p xs in
    if p x
    then elim rest [ none ↦ some x | some y ↦ if newer y x then some y else some x ]
    else rest

-- A literal stands in for a column that the statement does not name.
abbrev pub scanned : Bool → Bool → MessageRow → TailRow
scanned edits location x = record {
  message_type = x.message_type;
  body = x.body;
  media_filename = x.media_filename;
  revoked = if edits then is_some x.revoked_at else false;
  from_me = x.from_me;
  timestamp = x.timestamp;
  location_name = if location then x.location_name else none;
}

abbrev pub map_row {ℓ} : {A : Type ℓ} → (MessageRow → A) → Option MessageRow → Option A
map_row f none = none
map_row f (some x) = some (f x)

unfoldable pub scan_tail : Env → String → Bool → Bool → M TailRow
scan_tail env chat edits location =
    query_row env
      (λ now db. map_row (scanned edits location) (tail_row (countable chat) db.messages))

abbrev pub no_tail : TailRow
no_tail = record {
  message_type = "";
  body = none;
  media_filename = none;
  revoked = false;
  from_me = false;
  timestamp = 0;
  location_name = none;
}

unfoldable pub read_tail : Env → String → M TailRow
read_tail env chat =
    fallback feature_location
      (fallback feature_edits (scan_tail env chat true true) (some (scan_tail env chat false true))
        no_tail)
      (some (
        fallback feature_edits (scan_tail env chat true false)
          (some (scan_tail env chat false false)) no_tail))
      no_tail

abbrev pub tailed : TailRow → Bytes → ChatRow → ChatRow
tailed t preview r = record r {
  last_message_at = some t.timestamp;
  last_message_preview = some preview;
  last_message_from_me = t.from_me;
}

unfoldable pub set_tail : String → TailRow → Bytes → Db → Db
set_tail chat t preview db = record db {
  chats = update_where (λ r. r.jid == chat) (tailed t preview) db.chats;
}

abbrev pub write_tail : Env → String → (TailRow → Bytes) → Result TailRow → Action
write_tail env chat preview (err no_rows) w = (ok tt, w)
write_tail env chat preview (err e) w = (err e, w)
write_tail env chat preview (ok t) w = exec env (λ now. set_tail chat t (preview t)) w

-- RecomputeChatTail
unfoldable pub recompute_chat_tail : Env → String → (TailRow → Bytes) → Action
recompute_chat_tail env chat preview w =
    write_tail env chat preview (read_tail env chat w).0 (read_tail env chat w).1

pub record QuotedRow : Type 0 where
  pub sender_jid : Option String
  pub from_me : Bool
  pub message_type : String
  pub body : Option Bytes
  pub media_filename : Option Bytes
  pub revoked : Bool

-- Quotable
unfoldable pub quotable : QuotedRow → Bool
quotable r =
    not r.revoked
    && not
        (r.message_type == "revoked" || r.message_type == "reaction" || r.message_type == "system")

abbrev pub quoted : Bool → MessageRow → QuotedRow
quoted edits x = record {
  sender_jid = x.sender_jid;
  from_me = x.from_me;
  message_type = x.message_type;
  body = x.body;
  media_filename = x.media_filename;
  revoked = if edits then is_some x.revoked_at else false;
}

unfoldable pub scan_quoted : Env → String → String → Bool → M QuotedRow
scan_quoted env chat id edits =
    query_row env (λ now db. map_row (quoted edits) (find_where (names id chat) db.messages))

abbrev pub no_quoted : QuotedRow
no_quoted = record {
  sender_jid = none;
  from_me = false;
  message_type = "";
  body = none;
  media_filename = none;
  revoked = false;
}

abbrev pub found_quoted : Result QuotedRow → Result (Option QuotedRow)
found_quoted (ok r) = ok (some r)
found_quoted (err no_rows) = ok none
found_quoted (err e) = err e

-- GetQuotedRow: no row is an answer.
unfoldable pub get_quoted_row : Env → String → String → M (Option QuotedRow)
get_quoted_row env chat id w =
    let m =
      fallback feature_edits (scan_quoted env chat id true) (some (scan_quoted env chat id false))
        no_quoted in
    (found_quoted (m w).0, (m w).1)
