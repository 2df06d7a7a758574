-- ===== src/Store/Tail/Newest.antt =====
-- What RecomputeChatTail may change: the tail columns of one chat.
use enviadores_wabridge.Prelude.{
  Each, ◌≡◌, refl, String, true, List, [], ◌∷◌, ◌==◌, if◌then◌else◌, arith, ◌⊎◌, inl, inr,
  Bool-cases, Each, Each-refl,
}
use enviadores_wabridge.Text.Utf8.{Bytes}
use enviadores_wabridge.Store.Failure.{Result, ok, err, no_rows, feature_edits, feature_location}
use enviadores_wabridge.Store.Tables.{ChatRow, Db, update_where}
use enviadores_wabridge.Store.Exec.{Env, World}
use enviadores_wabridge.Store.Fallback.{legacy}
use enviadores_wabridge.Store.Fallback.Keeps.{Keeps, Keeps-query_row, Keeps-fallback, exec_cases}
use enviadores_wabridge.Store.Tail.{
  TailRow, scan_tail, read_tail, tailed, set_tail, write_tail, recompute_chat_tail,
}

-- What a recomputed tail may change.
pub record Retailed (chat : String) (r r' : ChatRow) : Type 0 where
  pub other : ((r.jid == chat) ≡ true) ⊎ (r' ≡ r)
  pub tail_only :
      record r' {
        last_message_at = r.last_message_at;
        last_message_preview = r.last_message_preview;
        last_message_from_me = r.last_message_from_me;
      }
      ≡ r

Retailed-refl : (chat : String) (r : ChatRow) → Retailed chat r r
Retailed-refl chat r = record { other = inr refl; tail_only = refl }

row-Retailed :
    (chat : String) (t : TailRow) (s : Bytes) (r : ChatRow)
    → Retailed chat r (if r.jid == chat then tailed t s r else r)
row-Retailed chat t s r = elim (Bool-cases (r.jid == chat)) [
  | inl e ↦ rw e (record { other = inl e; tail_only = refl })
  | inr e ↦ rw e (Retailed-refl chat r)
]

rows-Retailed :
    (chat : String) (t : TailRow) (s : Bytes) (rs : List ChatRow)
    → Each (Retailed chat) rs (update_where (λ r. r.jid == chat) (tailed t s) rs)
unfolding update_where
rows-Retailed chat t s [] = tt
rows-Retailed chat t s (r ∷ rs) = (row-Retailed chat t s r, rows-Retailed chat t s rs)

set_tail-Retailed :
    (chat : String) (t : TailRow) (s : Bytes) (db : Db)
    → Each (Retailed chat) db.chats (set_tail chat t s db).chats
unfolding set_tail
set_tail-Retailed chat t s db = rows-Retailed chat t s db.chats

pub Keeps-read_tail : {P : Db → Type 0} (env : Env) (chat : String) → Keeps P (read_tail env chat)
unfolding read_tail scan_tail legacy
Keeps-read_tail env chat =
    Keeps-fallback feature_location _ _ _
      (Keeps-fallback feature_edits _ _ _ (Keeps-query_row env _) (Keeps-query_row env _))
      (Keeps-fallback feature_edits _ _ _ (Keeps-query_row env _) (Keeps-query_row env _))

-- Whatever the server answers and whatever the label is made of, RecomputeChatTail changes no
-- other chat and nothing but the three columns of the tail.
pub recompute_chat_tail-Retailed :
    (env : Env) (chat : String) (preview : TailRow → Bytes) (w : World)
    → Each (Retailed chat) w.db.chats (recompute_chat_tail env chat preview w).1.db.chats
unfolding recompute_chat_tail
recompute_chat_tail-Retailed env chat preview w =
    go (read_tail env chat w).0 (read_tail env chat w).1
      ((Keeps-read_tail {P = λ db. db ≡ w.db} env chat).at w refl)
  where
    still : (v : World) → v.db ≡ w.db → Each (Retailed chat) w.db.chats v.db.chats
    still v same = rw same (Each-refl (Retailed chat) (Retailed-refl chat) w.db.chats)

    go :
        (r : Result TailRow) (v : World)
        → v.db ≡ w.db
        → Each (Retailed chat) w.db.chats (write_tail env chat preview r v).1.db.chats
    go (err no_rows) v same = still v same
    go (err e) v same = ground (arith, still v same)
    go (ok t) v same = elim (exec_cases env (λ now. set_tail chat t (preview t)) v) [
      | inl kept ↦ rw (kept, same) (Each-refl (Retailed chat) (Retailed-refl chat) w.db.chats)
      | inr wrote ↦ rw (wrote, same) (set_tail-Retailed chat t (preview t) w.db)
    ]
