-- ===== src/Bridge/Outbound/Send.antt =====
-- One tick of the outbound queue: processOutboundBatch, sendOutboundRow, lookupQuote,
-- findMessageRow and sendReactionRow of internal/wabridge/wabridge.go.
use enviadores_wabridge.Prelude.{
  ℕ, String, not, ◌||◌, Option, none, some, List, [], ◌∷◌, ◌++◌, ◌==◌, if◌then◌else◌, true,
}
use enviadores_wabridge.Text.Utf8.{Bytes, utf8}
use enviadores_wabridge.Text.Cut.{truncate_runes}
use enviadores_wabridge.Store.Failure.{Result, ok, err}
use enviadores_wabridge.Store.Exec.{Env, M, pure, ◌>>=◌}
use enviadores_wabridge.Store.Reactions.{Reaction, upsert_reaction}
use enviadores_wabridge.Store.Tail.{QuotedRow, quotable, get_quoted_row}
use enviadores_wabridge.Bridge.Whatsapp.{
  Jid, SendResponse, SendResult, sent, send_failed, group_server,
}
use enviadores_wabridge.Bridge.Content.{Place, Content, attach_quote}
use enviadores_wabridge.Bridge.Client.{jid, bad_jid, Client, Host}
use enviadores_wabridge.Bridge.Quote.{
  quoted_preview_max, quote_label, participant_for, build_quote_context,
}
use enviadores_wabridge.Bridge.Location.{Floats}
use enviadores_wabridge.Bridge.NewChat.{canonical_chat_jid, text_of, null_string}
use enviadores_wabridge.Bridge.NewChat.Tick.{process_new_chats}
use enviadores_wabridge.Bridge.Outbound.{
  OutboundWork, Payload, message, reaction, Outbox, read_batch, on_store, mark_outbound_attempt,
  mark_outbound_permanently_failed,
}
use enviadores_wabridge.Bridge.Outbound.Record.{OutboundQuote, quoted_id, stamp, record_sent}
use enviadores_wabridge.Bridge.Outbound.Build.{
  Built, built, transient, permanent, after_calls, at_world, build_outbound_message,
  build_location_message,
}

-- A payload goes to WhatsApp.
abbrev pub hand : ℕ → Payload → Outbox → Outbox
hand id payload o = record (after_calls 1 o) {
  handed = record { row = id; payload = payload } ∷ o.handed;
}

abbrev pub or_canonical : Env → OutboundWork → String → Option QuotedRow → M (Option QuotedRow)
or_canonical env r store_jid (some row) = pure (some row)
or_canonical env r store_jid none =
    if store_jid == r.chat_jid then pure none else get_quoted_row env store_jid (quoted_id r)

-- findMessageRow: the key that the row was queued under, then the canonical one.
unfoldable pub find_message_row : Env → OutboundWork → String → M (Option QuotedRow)
find_message_row env r store_jid =
    get_quoted_row env r.chat_jid (quoted_id r) >>= or_canonical env r store_jid

module _ (env : Env) (c : Client) (host : Host) (fl : Floats) where
  abbrev pub quote_found : OutboundWork → Jid → Option QuotedRow → Option OutboundQuote
  quote_found r chat none = none
  quote_found r chat (some row) =
      let participant = participant_for c row chat in
      if not (quotable row) || c.is_empty_jid participant
      then none
      else some (record {
        context = build_quote_context c (quoted_id r) participant row;
        preview =
            truncate_runes
              (quote_label row.message_type (text_of row.body) (text_of row.media_filename))
              quoted_preview_max;
        sender_jid = participant.text;
      })

  -- lookupQuote
  unfoldable pub lookup_quote : OutboundWork → Jid → String → M (Option OutboundQuote)
  lookup_quote r chat store_jid =
      find_message_row env r store_jid >>= λ found. pure (quote_found r chat found)

  abbrev pub with_quote : Content → Option OutboundQuote → Content
  with_quote content none = content
  with_quote content (some q) = attach_quote content q.context

  abbrev pub after_hand :
      OutboundWork
      → String
      → Option OutboundQuote
      → String
      → Option Bytes
      → Option Place
      → SendResult
      → Outbox
      → Outbox
  after_hand r store_jid quote kind thumb place (send_failed e) o = mark_outbound_attempt env r e o
  after_hand r store_jid quote kind thumb place (sent resp) o =
      record_sent env c fl r store_jid quote kind thumb place resp o

  abbrev pub after_build :
      OutboundWork → Jid → String → Option OutboundQuote → Built → Outbox → Outbox
  after_build r chat store_jid quote (transient e) o = mark_outbound_attempt env r e o
  after_build r chat store_jid quote permanent o = o
  after_build r chat store_jid quote (built content kind thumb place) o =
      let whole = with_quote content quote in
      after_hand r store_jid quote kind thumb place (c.send_content o.bridge.calls chat whole)
        (hand r.id (message whole) o)

  abbrev pub build : OutboundWork → Outbox → Built × Outbox
  build r o =
      if r.kind == "location"
      then build_location_message env host fl r o
      else build_outbound_message env host r o

  unfoldable pub build_and_send :
      OutboundWork → Jid → String → Option OutboundQuote → Outbox → Outbox
  build_and_send r chat store_jid quote o =
      after_build r chat store_jid quote (build r o).0 (build r o).1

  abbrev pub after_quote :
      OutboundWork → Jid → String → Result (Option OutboundQuote) → Outbox → Outbox
  after_quote r chat store_jid (err e) o =
      mark_outbound_attempt env r (utf8 "quote lookup: " ++ host.error_text e) o
  after_quote r chat store_jid (ok quote) o = build_and_send r chat store_jid quote o

  unfoldable pub send_message_row : OutboundWork → Jid → String → Outbox → Outbox
  send_message_row r chat store_jid o =
      let m = lookup_quote r chat store_jid o.bridge.world in
      if quoted_id r == ""
      then build_and_send r chat store_jid none o
      else after_quote r chat store_jid m.0 (at_world m.1 o)

  abbrev pub refuse_reaction : OutboundWork → Bytes → Outbox → Outbox
  refuse_reaction r = mark_outbound_permanently_failed env r.id "REACTION_TARGET"

  -- The reaction as it is stored once it is sent.
  abbrev pub sent_reaction : OutboundWork → Jid → String → SendResponse → Reaction
  sent_reaction r chat store_jid resp = record {
    id = resp.id;
    chat_jid = store_jid;
    sender_jid = null_string c.whatsapp.self;
    sender_aliases = [];
    from_me = true;
    is_group = chat.server == group_server;
    target_id = quoted_id r;
    emoji = r.body;
    timestamp = resp.timestamp;
  }

  abbrev pub after_reaction : OutboundWork → Jid → String → SendResult → Outbox → Outbox
  after_reaction r chat store_jid (send_failed e) o = mark_outbound_attempt env r e o
  after_reaction r chat store_jid (sent resp) o =
      on_store (upsert_reaction env (sent_reaction r chat store_jid resp))
        (on_store (stamp env r.id resp.id) o)

  abbrev pub react_to : OutboundWork → Jid → String → QuotedRow → Outbox → Outbox
  react_to r chat store_jid row o =
      let sender = participant_for c row chat in
      if not (quotable row)
      then refuse_reaction r
          (utf8 "reacted message was deleted or cannot take a reaction: " ++ utf8 (quoted_id r)) o
      else if c.is_empty_jid sender
      then refuse_reaction r (utf8 "author of the reacted message is unknown") o
      else after_reaction r chat store_jid
          (c.send_reaction o.bridge.calls chat sender (quoted_id r) r.body)
          (hand r.id (reaction (quoted_id r) r.body) o)

  abbrev pub after_target :
      OutboundWork → Jid → String → Result (Option QuotedRow) → Outbox → Outbox
  after_target r chat store_jid (err e) o =
      mark_outbound_attempt env r (utf8 "reaction target lookup: " ++ host.error_text e) o
  after_target r chat store_jid (ok none) o =
      refuse_reaction r (utf8 "reacted message not found: " ++ utf8 (quoted_id r)) o
  after_target r chat store_jid (ok (some row)) o = react_to r chat store_jid row o

  -- sendReactionRow
  unfoldable pub send_reaction_row : OutboundWork → Jid → String → Outbox → Outbox
  send_reaction_row r chat store_jid o =
      let m = find_message_row env r store_jid o.bridge.world in
      if quoted_id r == ""
      then refuse_reaction r (utf8 "reaction without a target message") o
      else after_target r chat store_jid m.0 (at_world m.1 o)

  unfoldable pub send_to_chat : OutboundWork → Jid → String → Outbox → Outbox
  send_to_chat r chat store_jid o =
      if r.kind == "reaction"
      then send_reaction_row r chat store_jid o
      else send_message_row r chat store_jid o

  -- sendOutboundRow
  unfoldable pub send_outbound_row : OutboundWork → Outbox → Outbox
  send_outbound_row r o = elim (c.parse_jid r.chat_jid) [
    | bad_jid e ↦
        mark_outbound_permanently_failed env r.id "INVALID_JID" (utf8 "invalid chat_jid: " ++ e) o
    | jid chat ↦ send_to_chat r chat (canonical_chat_jid c.whatsapp chat).text o
  ]

  unfoldable pub send_rows : List OutboundWork → Outbox → Outbox
  send_rows [] o = o
  send_rows (r ∷ rs) o = send_rows rs (send_outbound_row r o)

  abbrev pub after_batch : Result (List OutboundWork) → Outbox → Outbox
  after_batch (err e) o = o
  after_batch (ok rs) o =
      let o' = send_rows rs o in record o' { bridge = process_new_chats env c.whatsapp o'.bridge }

  -- processOutboundBatch
  unfoldable pub process_outbound_batch : Outbox → Outbox
  process_outbound_batch o =
      after_batch (read_batch env o.bridge.world).0 (at_world (read_batch env o.bridge.world).1 o)
