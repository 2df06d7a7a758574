-- ===== src/Bridge/Outbound/Quiet.antt =====
-- The store's calls that leave wa_outbound alone, whatever the server answers: what they read for a
-- quote, a reaction or a place, and what they write to the other tables.
use enviadores_wabridge.Prelude.{
  ℕ, String, Bool, true, false, not, Option, none, some, List, ◌==◌, if-cases,
}
use enviadores_wabridge.Store.Failure.{
  Result, feature_quotes, feature_edits, feature_outbound_location,
}
use enviadores_wabridge.Store.Tables.{Message, OutboundRow, Db}
use enviadores_wabridge.Store.Exec.{Env, World, feature_off}
use enviadores_wabridge.Store.Fallback.{legacy}
use enviadores_wabridge.Store.Fallback.Keeps.{
  Keeps, Keeps-exec, Keeps-pure, Keeps-query, Keeps-query_row, Keeps-fallback, Keeps-bind,
}
use enviadores_wabridge.Store.Messages.{is_empty, insert_ignore, with_columns, insert_message}
use enviadores_wabridge.Store.Messages.Insert.{Keeps-insert_message}
use enviadores_wabridge.Store.Chats.{Chat, upsert_table, upsert_chat}
use enviadores_wabridge.Store.Reactions.{
  Reaction, insert_legacy_reaction, existing_reaction, reaction_message, update_reaction,
  bump_target, write_reaction, upsert_reaction,
}
use enviadores_wabridge.Store.Tail.{scan_quoted, get_quoted_row, no_quoted, QuotedRow}
use enviadores_wabridge.Store.Outbound.{outbound_location}
use enviadores_wabridge.Bridge.Whatsapp.{Jid}
use enviadores_wabridge.Bridge.Client.{Client, Host}
use enviadores_wabridge.Bridge.Location.{Floats}
use enviadores_wabridge.Bridge.Outbound.{OutboundWork}
use enviadores_wabridge.Bridge.Outbound.Record.{quoted_id}
use enviadores_wabridge.Bridge.Outbound.Send.{or_canonical, find_message_row, lookup_quote}

-- A fact about wa_outbound alone.
module _ (Q : List OutboundRow → Type 0) where
  abbrev pub Rows : Db → Type 0
  Rows db = Q db.outbound

  pub upsert_chat-Rows : (env : Env) (c : Chat) → Keeps Rows (upsert_chat env c)
  unfolding upsert_chat upsert_table
  upsert_chat-Rows env c = Keeps-exec env _ λ now db q. if-cases Rows _ q q

  insert_ignore-Rows : (m : Message) (db : Db) → Rows db → Rows (insert_ignore m db)
  unfolding insert_ignore
  insert_ignore-Rows m db q = if-cases Rows _ q q

  pub insert_message-Rows : (env : Env) (m : Message) → Keeps Rows (insert_message env m)
  insert_message-Rows env m =
      Keeps-insert_message env m (λ q l db. insert_ignore-Rows (with_columns q l m) db)

  bump_target-Rows : (env : Env) (r : Reaction) → Keeps Rows (bump_target env r)
  unfolding bump_target
  bump_target-Rows env r = Keeps-exec env _ λ now db q. q

  existing_reaction-Rows : (env : Env) (r : Reaction) → Keeps Rows (existing_reaction env r)
  unfolding existing_reaction legacy insert_legacy_reaction
  existing_reaction-Rows env r = Keeps-fallback feature_quotes _ _ "" (Keeps-query env _) (
      if-cases (Keeps Rows) (is_empty r.emoji) (Keeps-pure "")
        (Keeps-bind _ _ (insert_message-Rows env (reaction_message r none)) (λ _. Keeps-pure "")))

  write_reaction-Rows :
      (env : Env) (r : Reaction) (e : String) → Keeps Rows (write_reaction env r e)
  unfolding update_reaction
  write_reaction-Rows env r e =
      if-cases (Keeps Rows) (not (e == ""))
        (Keeps-bind _ _ (Keeps-exec env _ λ now db q. q) (λ _. bump_target-Rows env r))
        (if-cases (Keeps Rows) (is_empty r.emoji) (Keeps-pure tt) (
          Keeps-bind _ _ (insert_message-Rows env (reaction_message r (some r.target_id)))
            (λ _. bump_target-Rows env r)))

  pub upsert_reaction-Rows : (env : Env) (r : Reaction) → Keeps Rows (upsert_reaction env r)
  unfolding upsert_reaction
  upsert_reaction-Rows env r = if-cases (Keeps Rows) (r.target_id == "") (Keeps-pure tt) (
      Keeps-bind (existing_reaction env r) _ (existing_reaction-Rows env r) (λ e. record {
        at = λ w q.
            if-cases (λ (x : Result (Unit {0}) × World). Rows x.1.db) (feature_off w feature_quotes)
              q ((write_reaction-Rows env r e).at w q);
      }))

  scan_quoted-Rows :
      (env : Env) (chat id : String) (edits : Bool) → Keeps Rows (scan_quoted env chat id edits)
  unfolding scan_quoted
  scan_quoted-Rows env chat id edits = Keeps-query_row env _

  get_quoted_row-Rows : (env : Env) (chat id : String) → Keeps Rows (get_quoted_row env chat id)
  unfolding get_quoted_row legacy
  get_quoted_row-Rows env chat id = record {
    at =
        (Keeps-fallback feature_edits (scan_quoted env chat id true)
          (some (scan_quoted env chat id false)) no_quoted (scan_quoted-Rows env chat id true)
          (scan_quoted-Rows env chat id false)).at;
  }

  pub outbound_location-Rows : (env : Env) (id : ℕ) → Keeps Rows (outbound_location env id)
  unfolding outbound_location legacy
  outbound_location-Rows env id =
      Keeps-fallback feature_outbound_location _ _ _
        (Keeps-bind _ _ (Keeps-query_row env _) (λ r. Keeps-pure _)) (Keeps-pure _)

  pub find_message_row-Rows :
      (env : Env) (r : OutboundWork) (store_jid : String)
      → Keeps Rows (find_message_row env r store_jid)
  unfolding find_message_row
  find_message_row-Rows env r store_jid =
      Keeps-bind _ _ (get_quoted_row-Rows env r.chat_jid (quoted_id r)) again
    where
      again : (found : Option QuotedRow) → Keeps Rows (or_canonical env r store_jid found)
      again (some row) = Keeps-pure _
      again none =
          if-cases (Keeps Rows) (store_jid == r.chat_jid) (Keeps-pure none)
            (get_quoted_row-Rows env store_jid (quoted_id r))

  pub lookup_quote-Rows :
      (env : Env) (c : Client) (host : Host) (fl : Floats) (r : OutboundWork) (chat : Jid)
      (store_jid : String)
      → Keeps Rows (lookup_quote env c host fl r chat store_jid)
  unfolding lookup_quote
  lookup_quote-Rows env c host fl r chat store_jid =
      Keeps-bind _ _ (find_message_row-Rows env r store_jid) (λ found. Keeps-pure _)
