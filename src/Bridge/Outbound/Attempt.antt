-- ===== src/Bridge/Outbound/Attempt.antt =====
-- One attempt at a row of the outbound queue, sendOutboundRow of internal/wabridge/wabridge.go with
-- all that it calls, within the steps that a row may take.
use enviadores_wabridge.Prelude.{
  ℕ, ◌≡◌, refl, String, Bool, true, false, not, ◌||◌, Option, none, some, List, ◌∷◌, ◌++◌, ◌==◌,
  if-cases, Each, Each-map, Mem,
}
use enviadores_wabridge.Text.Utf8.{Bytes, utf8}
use enviadores_wabridge.Store.Failure.{Result, ok, err}
use enviadores_wabridge.Store.Tables.{OutboundRow}
use enviadores_wabridge.Store.Exec.{Env, M}
use enviadores_wabridge.Store.Fallback.Keeps.{Keeps}
use enviadores_wabridge.Store.Messages.{is_empty}
use enviadores_wabridge.Store.Tail.{QuotedRow, quotable}
use enviadores_wabridge.Store.Outbound.{outbound_max_attempts, outbound_location}
use enviadores_wabridge.Bridge.Whatsapp.{Jid, SendResponse, SendResult, sent, send_failed}
use enviadores_wabridge.Bridge.Content.{MediaType, Place}
use enviadores_wabridge.Bridge.Client.{ParsedJid, jid, bad_jid, Client, Host}
use enviadores_wabridge.Bridge.Quote.{participant_for}
use enviadores_wabridge.Bridge.Location.{Floats, parse_coordinates}
use enviadores_wabridge.Bridge.NewChat.{text_of, canonical_chat_jid}
use enviadores_wabridge.Bridge.Outbound.{
  OutboundWork, Payload, Handed, Outbox, mark_outbound_attempt, mark_outbound_permanently_failed,
}
use enviadores_wabridge.Bridge.Outbound.Record.{OutboundQuote, quoted_id, record_sent}
use enviadores_wabridge.Bridge.Outbound.Build.{
  Built, built, transient, permanent, at_world, media_type_for_kind, build_media, build_kind,
  build_outbound_message, build_place, build_location_message,
}
use enviadores_wabridge.Bridge.Outbound.Send.{
  hand, after_hand, after_build, build, build_and_send, after_quote, send_message_row,
  after_reaction, after_target, send_reaction_row, send_to_chat, send_outbound_row,
}
use enviadores_wabridge.Bridge.Outbound.Quiet.{
  Rows, upsert_chat-Rows, insert_message-Rows, upsert_reaction-Rows, outbound_location-Rows,
  find_message_row-Rows, lookup_quote-Rows,
}
use enviadores_wabridge.Bridge.Outbound.Steps.{
  waiting, stage, Served, Moved, Moved-hand, Moved-Served, Moved-start, fail_outbound-Moved,
  mark_attempt-Moved, stamp-Moved,
}

-- What was handed to WhatsApp: nothing, or one payload for the row.
abbrev pub Handing : ℕ → Bool → List Handed → List Handed → Type 0
Handing id false hs hs' = hs' ≡ hs
Handing id true hs hs' = (p : Payload) × (hs' ≡ record { row = id; payload = p } ∷ hs)

module _ (env : Env) (c : Client) (host : Host) (fl : Floats) (r : OutboundWork)
    (rows : List OutboundRow) (hs : List Handed) where
  -- The outbox during an attempt at the row `r` that began with these rows and hand-overs.
  record During (b : Bool) (o : Outbox) : Type 0 where
    moved : Each (Moved r.id r.attempts b) rows o.bridge.world.db.outbound
    handing : Handing r.id b hs o.handed

  abbrev After : Outbox → Type 0
  After o = (b : Bool) × During b o

  abbrev Kept {ℓ} : {A : Type ℓ} → Bool → M A → Type ℓ
  Kept b m = Keeps (Rows (Each (Moved r.id r.attempts b) rows)) m

  During-store {ℓ} :
      {A : Type ℓ} (b : Bool) (m : M A) (o : Outbox)
      → Kept b m
      → During b o
      → During b (at_world (m o.bridge.world).1 o)
  During-store b m o k d = record { moved = k.at o.bridge.world d.moved; handing = d.handing }

  During-fail :
      (b : Bool) (code : String) (msg : Bytes) (o : Outbox)
      → During b o
      → During b (mark_outbound_permanently_failed env r.id code msg o)
  unfolding mark_outbound_permanently_failed
  During-fail b code msg o =
      During-store b _ o
        (fail_outbound-Moved r.id r.attempts env b rows outbound_max_attempts code msg)

  During-attempt :
      (b : Bool) (msg : Bytes) (o : Outbox)
      → During b o
      → During b (mark_outbound_attempt env r msg o)
  unfolding mark_outbound_attempt
  During-attempt b msg o =
      During-store b _ o (mark_attempt-Moved r.id r.attempts env b rows "SEND_FAILED" msg)

  During-hand : (p : Payload) (o : Outbox) → During false o → During true (hand r.id p o)
  During-hand p o d = record {
    moved = Each-map _ _ (Moved-hand r.id r.attempts) rows o.bridge.world.db.outbound d.moved;
    handing = (p, rw d.handing refl);
  }

  build_media-During :
      (kind : MediaType) (o : Outbox)
      → During false o
      → During false (build_media env host r kind o).1
  unfolding build_media
  build_media-During kind o d =
      if-cases (λ (x : Built × Outbox). During false x.1) (is_empty (text_of r.media_url))
        (During-fail false _ _ o d)
        (if-cases (λ (x : Built × Outbox). During false x.1)
          (is_empty (host.basename (text_of r.media_url))) (During-fail false _ _ o d)
          (record { moved = d.moved; handing = d.handing }))

  build_kind-During :
      (t : Option MediaType) (o : Outbox)
      → During false o
      → During false (build_kind env host r r.kind t o).1
  build_kind-During none o d = During-fail false _ _ o d
  build_kind-During (some t) o d = build_media-During t o d

  build_place-During :
      (at : Option (Bytes × Bytes)) (o : Outbox)
      → During false o
      → During false (build_place env host r at o).1
  build_place-During none o d = During-fail false _ _ o d
  build_place-During (some at) o d =
      During-store false (outbound_location env r.id) o (outbound_location-Rows _ env r.id) d

  build-During : (o : Outbox) → During false o → During false (build env c host fl r o).1
  unfolding build_location_message build_outbound_message
  build-During o d =
      if-cases (λ (x : Built × Outbox). During false x.1) (r.kind == "location")
        (build_place-During (parse_coordinates fl r.body) o d)
        (if-cases (λ (x : Built × Outbox). During false x.1) (r.kind == "" || r.kind == "text") d
          (build_kind-During (media_type_for_kind r.kind) o d))

  record_sent-During :
      (store_jid : String) (quote : Option OutboundQuote) (kind : String) (thumb : Option Bytes)
      (place : Option Place) (resp : SendResponse) (o : Outbox)
      → During true o
      → During true (record_sent env c fl r store_jid quote kind thumb place resp o)
  unfolding record_sent
  record_sent-During store_jid quote kind thumb place resp o d =
      During-store true _ _ (upsert_chat-Rows _ env _) (
        During-store true _ _ (insert_message-Rows _ env _)
          (During-store true _ o (stamp-Moved r.id r.attempts env rows resp.id) d))

  after_hand-During :
      (store_jid : String) (quote : Option OutboundQuote) (kind : String) (thumb : Option Bytes)
      (place : Option Place) (res : SendResult) (o : Outbox)
      → During true o
      → After (after_hand env c host fl r store_jid quote kind thumb place res o)
  after_hand-During store_jid quote kind thumb place (send_failed e) o d =
      (true, During-attempt true e o d)
  after_hand-During store_jid quote kind thumb place (sent resp) o d =
      (true, record_sent-During store_jid quote kind thumb place resp o d)

  after_build-During :
      (chat : Jid) (store_jid : String) (quote : Option OutboundQuote) (b : Built) (o : Outbox)
      → During false o
      → After (after_build env c host fl r chat store_jid quote b o)
  after_build-During chat store_jid quote (transient e) o d = (false, During-attempt false e o d)
  after_build-During chat store_jid quote permanent o d = (false, d)
  after_build-During chat store_jid quote (built content kind thumb place) o d =
      after_hand-During store_jid quote kind thumb place _ _ (During-hand _ o d)

  build_and_send-During :
      (chat : Jid) (store_jid : String) (quote : Option OutboundQuote) (o : Outbox)
      → During false o
      → After (build_and_send env c host fl r chat store_jid quote o)
  unfolding build_and_send
  build_and_send-During chat store_jid quote o d =
      after_build-During chat store_jid quote _ _ (build-During o d)

  after_quote-During :
      (chat : Jid) (store_jid : String) (q : Result (Option OutboundQuote)) (o : Outbox)
      → During false o
      → After (after_quote env c host fl r chat store_jid q o)
  after_quote-During chat store_jid (err e) o d = (false, During-attempt false _ o d)
  after_quote-During chat store_jid (ok quote) o d = build_and_send-During chat store_jid quote o d

  after_reaction-During :
      (chat : Jid) (store_jid : String) (res : SendResult) (o : Outbox)
      → During true o
      → After (after_reaction env c host fl r chat store_jid res o)
  after_reaction-During chat store_jid (send_failed e) o d = (true, During-attempt true e o d)
  after_reaction-During chat store_jid (sent resp) o d = (
    true,
    During-store true _ _ (upsert_reaction-Rows _ env _)
        (During-store true _ o (stamp-Moved r.id r.attempts env rows resp.id) d),
  )

  after_target-During :
      (chat : Jid) (store_jid : String) (t : Result (Option QuotedRow)) (o : Outbox)
      → During false o
      → After (after_target env c host fl r chat store_jid t o)
  after_target-During chat store_jid (err e) o d = (false, During-attempt false _ o d)
  after_target-During chat store_jid (ok none) o d = (false, During-fail false _ _ o d)
  after_target-During chat store_jid (ok (some row)) o d =
      if-cases After (not (quotable row)) (false, During-fail false _ _ o d)
        (if-cases After (c.is_empty_jid (participant_for c row chat))
          (false, During-fail false _ _ o d)
          (after_reaction-During chat store_jid _ _ (During-hand _ o d)))

  send_to_chat-During :
      (chat : Jid) (store_jid : String) (o : Outbox)
      → During false o
      → After (send_to_chat env c host fl r chat store_jid o)
  unfolding send_to_chat send_reaction_row send_message_row
  send_to_chat-During chat store_jid o d =
      if-cases After (r.kind == "reaction")
        (if-cases After (quoted_id r == "") (false, During-fail false _ _ o d)
          (after_target-During chat store_jid _ _
            (During-store false _ o (find_message_row-Rows _ env r store_jid) d)))
        (if-cases After (quoted_id r == "") (build_and_send-During chat store_jid none o d) (
          after_quote-During chat store_jid _ _
            (During-store false _ o (lookup_quote-Rows _ env c host fl r chat store_jid) d)))

  send_outbound_row-During :
      (o : Outbox) → During false o → After (send_outbound_row env c host fl r o)
  unfolding send_outbound_row
  send_outbound_row-During o d = go (c.parse_jid r.chat_jid)
    where
      go :
          (p : ParsedJid)
          → After (elim p as (λ _. Outbox) [
            | bad_jid e ↦
                mark_outbound_permanently_failed env r.id "INVALID_JID"
                  (utf8 "invalid chat_jid: " ++ e)
                  o
            | jid chat ↦
                send_to_chat env c host fl r chat (canonical_chat_jid c.whatsapp chat).text o
          ])
      go (bad_jid e) = (false, During-fail false _ _ o d)
      go (jid chat) = send_to_chat-During chat _ o d

-- sendOutboundRow of a row that is pending in the table with the attempts that were read, whatever
-- the server, WhatsApp and the file host answer: it hands over nothing or one payload for the row,
-- leaves every other row as it is, and moves the row by at most one step; a row is marked sent
-- only if it was handed over.
pub send_outbound_row-Served :
    (env : Env) (c : Client) (host : Host) (fl : Floats) (r : OutboundWork) (o : Outbox)
    → ((q : OutboundRow)
        → Mem q o.bridge.world.db.outbound
        → q.id ≡ r.id
        → stage q ≡ waiting r.attempts)
    → (b : Bool) × Handing r.id b o.handed (send_outbound_row env c host fl r o).handed
      × Each
          (Served r.id b)
          o.bridge.world.db.outbound
          (send_outbound_row env c host fl r o).bridge.world.db.outbound
send_outbound_row-Served env c host fl r o waits =
    let rows = o.bridge.world.db.outbound in
    let (b, d) =
      send_outbound_row-During env c host fl r rows o.handed o
        (record { moved = Moved-start r.id r.attempts rows waits; handing = refl }) in
    (b, d.handing, Each-map _ _ (Moved-Served r.id r.attempts b) rows _ d.moved)
