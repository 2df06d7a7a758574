-- ===== src/Bridge/Outbound/Lost.antt =====
-- What sendOutboundRow of internal/wabridge/wabridge.go loses on the way: the caption of a document,
-- and the stored row of a message whose chat is not in wa_chats yet.
use enviadores_wabridge.Prelude.{
  ℕ, inl, inr, Bool-cases, if-cases, arith, ◌≡◌, refl, false, Option, List, String,
}
use enviadores_wabridge.Text.Utf8.{Bytes}
use enviadores_wabridge.Store.Tables.{Message, MessageRow, Db}
use enviadores_wabridge.Store.Exec.{Env}
use enviadores_wabridge.Store.Fallback.Keeps.{Keeps, Keeps-exec}
use enviadores_wabridge.Store.Messages.{
  has_chat, insert_ignore, is_empty, with_columns, insert_message,
}
use enviadores_wabridge.Store.Messages.Insert.{Keeps-insert_message}
use enviadores_wabridge.Store.Chats.{Chat, upsert_table, upsert_chat}
use enviadores_wabridge.Store.Outbound.{update_outbound}
use enviadores_wabridge.Bridge.Whatsapp.{SendResponse}
use enviadores_wabridge.Bridge.Content.{Upload, media_document, Place}
use enviadores_wabridge.Bridge.Client.{Answer, given, failure, Client, Host}
use enviadores_wabridge.Bridge.NewChat.{text_of}
use enviadores_wabridge.Bridge.Location.{Floats}
use enviadores_wabridge.Bridge.Outbound.{OutboundWork, Outbox}
use enviadores_wabridge.Bridge.Outbound.Record.{OutboundQuote, stamp, sent_message, record_sent}
use enviadores_wabridge.Bridge.Outbound.Build.{
  after_upload, after_read, build_media, media_message, media_type_for_kind, build_outbound_message,
}

module _ (env : Env) (host : Host) (r : OutboundWork) (s t : Bytes) (k : is_empty s ≡ false)
    (l : is_empty t ≡ false) where
  abbrev with_s : OutboundWork
  with_s = record r { body = s }

  abbrev with_t : OutboundWork
  with_t = record r { body = t }

  media_message-no_caption :
      (n : ℕ) (file : Bytes) (up : Upload)
      → media_message env host n with_s file up media_document
        ≡ media_message env host n with_t file up media_document
  unfolding media_message
  media_message-no_caption n file up = rw (k, l) refl

  after_upload-no_caption :
      (n : ℕ) (file : Bytes) (a : Answer Upload)
      → after_upload env host n with_s file media_document a
        ≡ after_upload env host n with_t file media_document a
  after_upload-no_caption n file (failure e) = refl
  after_upload-no_caption n file (given up) = media_message-no_caption n file up

  after_read-no_caption :
      (n : ℕ) (a : Answer Bytes)
      → after_read env host n with_s media_document a
        ≡ after_read env host n with_t media_document a
  after_read-no_caption n (failure e) = refl
  after_read-no_caption n (given file) = after_upload-no_caption n file _

  build_media-no_caption :
      (o : Outbox)
      → (build_media env host with_s media_document o).0
        ≡ (build_media env host with_t media_document o).0
  unfolding build_media
  build_media-no_caption o = elim (Bool-cases (is_empty (text_of r.media_url))) [
    | inl e ↦ rw e refl
    | inr e ↦ elim (Bool-cases (is_empty (host.basename (text_of r.media_url)))) [
      | inl d ↦ rw (e, d) refl
      | inr d ↦ rw (e, d) (after_read-no_caption o.bridge.calls _)
    ]
  ]

-- The caption of a document is lost: a document row with one body and with any other, both not
-- empty, builds the same message.
pub build_outbound_message-no_caption :
    (env : Env) (host : Host) (r : OutboundWork) (o : Outbox) (s t : Bytes)
    → r.kind ≡ "document"
    → is_empty s ≡ false
    → is_empty t ≡ false
    → (build_outbound_message env host (record r { body = s }) o).0
      ≡ (build_outbound_message env host (record r { body = t }) o).0
unfolding build_outbound_message media_type_for_kind
build_outbound_message-no_caption env host r o s t h k l =
    simp h (build_media-no_caption env host (record r { kind = "document" }) s t k l o)

stamp-same :
    {ms : List MessageRow} (jid : String) (env : Env) (id : ℕ) (wa_id : String)
    → Keeps (λ db. (db.messages ≡ ms) × (has_chat jid db.chats ≡ false)) (stamp env id wa_id)
unfolding stamp update_outbound
stamp-same jid env id wa_id = Keeps-exec env _ λ now db h. h

upsert_chat-same :
    {ms : List MessageRow} (env : Env) (c : Chat)
    → Keeps (λ db. db.messages ≡ ms) (upsert_chat env c)
unfolding upsert_chat upsert_table
upsert_chat-same {ms} env c =
    Keeps-exec env _ λ now db h. if-cases (λ (d : Db). d.messages ≡ ms) _ h h

insert-dropped :
    {ms : List MessageRow} (jid : String) (env : Env) (m : Message)
    → m.chat_jid ≡ jid
    → Keeps (λ db. (db.messages ≡ ms) × (has_chat jid db.chats ≡ false)) (insert_message env m)
unfolding insert_ignore with_columns
insert-dropped jid env m e = Keeps-insert_message env m (λ q l db h. ground (arith, h.0, h.1, e))

-- Whatever the server answers, a message that was sent to a chat with no row in wa_chats adds
-- nothing to wa_messages.
pub record_sent-no_chat :
    (env : Env) (c : Client) (fl : Floats) (r : OutboundWork) (store_jid : String)
    (quote : Option OutboundQuote) (kind : String) (thumb : Option Bytes) (place : Option Place)
    (resp : SendResponse) (o : Outbox)
    → has_chat store_jid o.bridge.world.db.chats ≡ false
    → (record_sent env c fl r store_jid quote kind thumb place resp o).bridge.world.db.messages
      ≡ o.bridge.world.db.messages
unfolding record_sent sent_message
record_sent-no_chat env c fl r store_jid quote kind thumb place resp o h =
    (upsert_chat-same env _).at _
      ((insert-dropped store_jid env (sent_message c fl r store_jid quote kind thumb place resp)
          refl).at
        _ ((stamp-same store_jid env r.id resp.id).at o.bridge.world (refl, h))).0
