-- ===== src/Store/Tail/Recomputed.antt =====
-- RecomputeChatTail gives the chat the time and the side of its last message that is shown.
use enviadores_wabridge.Prelude.{
  ℕ, suc, Bool, false, Each, ◌≡◌, ◌≢◌, eq_iff, refl, String, Bool, true, false, some, List, [], ◌∷◌,
  ◌==◌, if◌then◌else◌, ◌⊎◌, inl, inr, Bool-cases, Mem, Each,
}
use enviadores_wabridge.Text.Utf8.{Bytes}
use enviadores_wabridge.Store.Failure.{ok, feature_edits, feature_location}
use enviadores_wabridge.Store.Tables.{ChatRow, MessageRow, update_where}
use enviadores_wabridge.Store.Exec.{
  Env, World, done, advance, feature_off, query_row, query, exec, exec_with,
}
use enviadores_wabridge.Store.Fallback.{legacy, fallback}
use enviadores_wabridge.Store.Tail.{
  TailRow, countable, no_tail, scanned, tail_row, scan_tail, read_tail, tailed, set_tail,
  recompute_chat_tail,
}
use enviadores_wabridge.Store.Tail.Last.{IsShown, IsLast, tail_row-IsLast}

-- The chat's row afterwards, where `y` is the newest message; the other chats are as before.
abbrev pub HasTail : String → MessageRow → ChatRow → ChatRow → Type 0
HasTail chat y r r' =
    ((r.jid ≢ chat) × (r' ≡ r))
    ⊎ ((r.jid ≡ chat)
        × (r'.last_message_at ≡ some y.timestamp)
        × (r'.last_message_from_me ≡ y.from_me))

row-HasTail :
    (chat : String) (edits location : Bool) (y : MessageRow) (s : Bytes) (r : ChatRow)
    → HasTail chat y r (if r.jid == chat then tailed (scanned edits location y) s r else r)
row-HasTail chat edits location y s r = elim (Bool-cases (r.jid == chat)) [
  | inl e ↦ rw e (inr ((eq_iff r.jid chat).0 e, refl, refl))
  | inr e ↦ rw e (inl (λ same. let equal = (eq_iff r.jid chat).1 same in absurd cc, refl))
]

rows-HasTail :
    (chat : String) (edits location : Bool) (y : MessageRow) (s : Bytes) (rs : List ChatRow)
    → Each
        (HasTail chat y)
        rs
        (update_where (λ r. r.jid == chat) (tailed (scanned edits location y) s) rs)
unfolding update_where
rows-HasTail chat edits location y s [] = tt
rows-HasTail chat edits location y s (r ∷ rs) =
    (row-HasTail chat edits location y s r, rows-HasTail chat edits location y s rs)

module _ (env : Env) (does : (n : ℕ) → env.outcome n ≡ done) where
  scan_done :
      (chat : String) (w : World) (y : MessageRow) (edits location : Bool)
      → tail_row (countable chat) w.db.messages ≡ some y
      → scan_tail env chat edits location w ≡ (ok (scanned edits location y), advance w)
  unfolding scan_tail query_row query
  scan_done chat w y edits location at = rw (does w.statements, at) refl

  scan_edits_done :
      (chat : String) (w : World) (y : MessageRow) (location : Bool)
      → tail_row (countable chat) w.db.messages ≡ some y
      → (edits : Bool) × (fallback feature_edits
            (scan_tail env chat true location)
            (some (scan_tail env chat false location))
            no_tail
            w
          ≡ (ok (scanned edits location y), advance w))
  unfolding fallback legacy
  scan_edits_done chat w y location at = elim (Bool-cases (feature_off w feature_edits)) [
    | inl off ↦ (false, rw off (scan_done chat w y false location at))
    | inr on ↦ (true, rw (on, scan_done chat w y true location at) refl)
  ]

  read_done :
      (chat : String) (w : World) (y : MessageRow)
      → tail_row (countable chat) w.db.messages ≡ some y
      → (edits : Bool) × (location : Bool) × (read_tail env chat w
          ≡ (ok (scanned edits location y), advance w))
  unfolding read_tail fallback legacy
  read_done chat w y at =
      let (e, off_answer) = scan_edits_done chat w y false at in
      let (e', on_answer) = scan_edits_done chat w y true at in
      elim (Bool-cases (feature_off w feature_location)) [
        | inl off ↦ (e, false, rw off off_answer)
        | inr on ↦ (e', true, rw (on, on_answer) refl)
      ]

  -- With a server that does every statement, on any schema, where the chat has a message other
  -- than a reaction or a notice of the system: after RecomputeChatTail the row of the chat has the
  -- time and the side of a stored message of that kind, and the rows of other chats are as before.
  -- Every message of that kind in the chat is older than that one, or of the same second with an
  -- id that is not after its id.
  pub recompute_chat_tail-HasTail :
      (chat : String) (preview : TailRow → Bytes) (w : World) (x : MessageRow)
      → Mem x w.db.messages
      → IsShown chat x
      → (y : MessageRow) × IsLast chat w.db.messages y
        × Each (HasTail chat y) w.db.chats (recompute_chat_tail env chat preview w).1.db.chats
  unfolding recompute_chat_tail exec exec_with set_tail
  recompute_chat_tail-HasTail chat preview w x m shown =
      let (y, at, last) = tail_row-IsLast chat w.db.messages x m shown in
      let (edits, location, read) = read_done chat w y at in
      let t = scanned edits location y in
      (
        y,
        last,
        rw (read, does (suc w.statements))
            (rows-HasTail chat edits location y (preview t) w.db.chats),
      )
