-- ===== src/Bridge/NewChat/Once.antt =====
-- A first message has one WhatsApp id for good: whatever fails and whenever the bridge restarts,
-- each send of a row carries the id of the row's earlier sends, which is how WhatsApp tells a
-- resend from a second message.
use enviadores_wabridge.Prelude.{
  ℕ, suc, ◌≡◌, ◌≢◌, refl, ◌∙◌, sym, ap, String, Bool, not, ◌||◌, Option, none, some, List, [], ◌∷◌,
  arith, inl, inr, Bool-cases, Option-cases, if-cases, Mem, ◌==◌,
}
use enviadores_wabridge.Text.Utf8.{Bytes}
use enviadores_wabridge.Text.Trim.{trim_space}
use enviadores_wabridge.Store.Failure.{Result, ok, err}
use enviadores_wabridge.Store.Tables.{OutboundRow, Db}
use enviadores_wabridge.Store.Exec.{Env, World, M, query, feature_off}
use enviadores_wabridge.Store.Fallback.{fallback, legacy}
use enviadores_wabridge.Store.Fallback.Keeps.{Keeps, Keeps-fallback, Keeps-query, Keeps-pure}
use enviadores_wabridge.Store.Messages.{is_empty}
use enviadores_wabridge.Store.Outbound.Ids.{IsUnique, Advances}
use enviadores_wabridge.Bridge.Whatsapp.{Whatsapp}
use enviadores_wabridge.Bridge.NewChat.{
  feature_new_chat, NewChatWrites, Send, Bridge, NewChatRow, is_mx_phone, text_of, lowest,
  resolvable, read_resolve, query_resolve_outbound, unstamped_of, fail_new_chat,
}
use enviadores_wabridge.Bridge.NewChat.Tick.{
  kind_text, send_fresh, send_new_chat_row, too_soon, with_row, process_new_chats,
}
use enviadores_wabridge.Bridge.NewChat.Sound.{
  IsSound, IsSound-world, fail_new_chat-IsSound, unstamped_of-Mem, finish_new_chat-IsSound,
}
use enviadores_wabridge.Bridge.NewChat.Sends.{KeepsIds, IsRead, after_lookup-IsSound}

lowest-Mem :
    (p : OutboundRow → Bool) (rows : List OutboundRow) (q : OutboundRow)
    → lowest p rows ≡ some q
    → Mem q rows
unfolding lowest
lowest-Mem p [] q h = absurd (ground arith)
lowest-Mem p (r ∷ rows) q h = ground (arith, lowest-Mem p rows q)

-- What the query reads: the answer is a row of the table.
read_resolve-Mem :
    (now : ℕ) (db : Db) (r : NewChatRow)
    → read_resolve now db ≡ some r
    → (q : OutboundRow) × Mem q db.outbound
      × (q.id ≡ r.id)
      × (q.whatsapp_message_id ≡ r.wa_message_id)
read_resolve-Mem now db r h = elim (Option-cases (lowest (resolvable now) db.outbound)) [
  | inl e ↦ absurd (ground arith)
  | inr (q, e) ↦ (q, lowest-Mem (resolvable now) db.outbound q e, ground arith, ground arith)
]

resolve_action : Env → M (Option NewChatRow)
resolve_action env = fallback feature_new_chat (query_resolve_outbound env) none none

resolve-Mem :
    (env : Env) (w : World) (r : NewChatRow)
    → (fallback feature_new_chat (query_resolve_outbound env) none none w).0 ≡ ok (some r)
    → (q : OutboundRow) × Mem q w.db.outbound
      × (q.id ≡ r.id)
      × (q.whatsapp_message_id ≡ r.wa_message_id)
unfolding fallback legacy query_resolve_outbound query
resolve-Mem env w r h = read_resolve-Mem (env.clock w.statements) w.db r (ground arith)

resolve_action-Keeps : {P : Db → Type 0} (env : Env) → Keeps P (resolve_action env)
unfolding resolve_action query_resolve_outbound legacy
resolve_action-Keeps env =
    Keeps-fallback feature_new_chat _ none none (Keeps-query env read_resolve) (Keeps-pure none)

module _ (env : Env) (wa : Whatsapp) (keeps : KeepsIds wa) where
  send_fresh-IsSound :
      (r : NewChatRow) (b : Bridge) → IsRead b r → IsSound b → IsSound (send_fresh env wa r b)
  unfolding send_fresh
  send_fresh-IsSound r b rd h = if-cases IsSound r.expired (failed _ _) (
      if-cases IsSound (not (kind_text r.kind == "text") || is_empty (trim_space (text_of r.body)))
        (failed _ _)
        (if-cases IsSound (not (is_mx_phone (text_of r.to_phone))) (failed _ _) (
          after_lookup-IsSound env wa keeps r (wa.lookup b.calls (text_of r.to_phone))
            (record b { last_lookup = some (wa.now b.calls); calls = suc b.calls }) rd
            (record {
              unique = h.unique;
              assigned = h.assigned;
              agree = h.agree;
              pending = h.pending;
            }))))
    where
      failed : (code : String) (detail : Bytes) → IsSound (fail_new_chat env r.id code detail b)
      failed code detail = fail_new_chat-IsSound env r.id code detail b h

  send_new_chat_row-IsSound :
      (r : NewChatRow) (b : Bridge)
      → IsRead b r
      → IsSound b
      → IsSound (send_new_chat_row env wa r b)
  unfolding send_new_chat_row
  send_new_chat_row-IsSound r b rd h = elim (Option-cases (unstamped_of r.id b.unstamped)) [
    | inl e ↦ rw (e, send_new_chat_row) (send_fresh-IsSound r b rd h)
    | inr (w, e) ↦
        rw (e, send_new_chat_row)
          (finish_new_chat-IsSound env r.id w b
            (h.pending r.id w (unstamped_of-Mem r.id b.unstamped w e)) h)
  ]

  with_row-IsSound :
      (res : Result (Option NewChatRow)) (b : Bridge)
      → ((r : NewChatRow) → res ≡ ok (some r) → IsRead b r)
      → IsSound b
      → IsSound (with_row env wa res b)
  with_row-IsSound (err e) b rd h = h
  with_row-IsSound (ok none) b rd h = h
  with_row-IsSound (ok (some r)) b rd h = send_new_chat_row-IsSound r b (rd r refl) h

  pub process_new_chats-IsSound : (b : Bridge) → IsSound b → IsSound (process_new_chats env wa b)
  unfolding process_new_chats resolve_action
  process_new_chats-IsSound b h = elim (Bool-cases (feature_off b.world feature_new_chat)) [
    | inl e ↦ rw e h
    | inr e ↦ elim (Bool-cases (too_soon b.last_lookup (wa.now b.calls))) [
      | inl k ↦
          rw (e, k)
            (record {
              unique = h.unique;
              assigned = h.assigned;
              agree = h.agree;
              pending = h.pending;
            })
      | inr k ↦
          rw (e, k)
            (with_row-IsSound (resolve_action env b.world).0
              (record b { world = (resolve_action env b.world).1; calls = suc b.calls })
              (λ r m.
                let (q, n, at, same) = resolve-Mem env b.world r m in (q, rw same_db n, at, same))
              (record {
                unique = rw same_db h.unique;
                assigned = rw same_db h.assigned;
                agree = h.agree;
                pending = rw same_db h.pending;
              }))
    ]
  ]
    where
      same_db : (resolve_action env b.world).1.db ≡ b.world.db
      same_db = (resolve_action-Keeps {P = λ db. db ≡ b.world.db} env).at b.world refl

-- A restart: the process forgets what it sent and what it switched off.
abbrev pub restarted : Bridge → Bridge
restarted b = record b {
  world = record b.world { off = []; logged = [] };
  last_lookup = none;
  unstamped = [];
}

abbrev pub with_outbound : Bridge → List OutboundRow → Bridge
with_outbound b rows = record b {
  world = record b.world { db = record b.world.db { outbound = rows } };
}

-- A row number that nothing has used, as AUTO_INCREMENT gives out.
pub record IsUnused (b : Bridge) (id : ℕ) : Type 0 where
  pub row : (q : OutboundRow) → Mem q b.world.db.outbound → q.id ≢ id
  pub send : (s : Send) → Mem s b.sends → s.row ≢ id
  pub pending : (k : ℕ) (w : NewChatWrites) → Mem (k, w) b.unstamped → k ≢ id

-- What can happen to the queue: a tick of the bridge, whatever the server and WhatsApp answer; a
-- restart; a change of the table by others that takes no row's message id away; a new row.
pub data Step : Bridge → Bridge → Type 0 where
  tick :
      {b : Bridge} (env : Env) (wa : Whatsapp) → KeepsIds wa → Step b (process_new_chats env wa b)
  restart : {b : Bridge} → Step b (restarted b)
  outside :
      {b : Bridge} (rows : List OutboundRow)
      → Advances b.world.db.outbound rows
      → Step b (with_outbound b rows)
  queued :
      {b : Bridge} (row : OutboundRow)
      → IsUnused b row.id
      → Step b (with_outbound b (row ∷ b.world.db.outbound))

pub data Steps : Bridge → Bridge → Type 0 where
  stay : {b : Bridge} → Steps b b
  step : {a b c : Bridge} → Steps a b → Step b c → Steps a c

queued-IsSound :
    (b : Bridge) (row : OutboundRow)
    → IsUnused b row.id
    → IsSound b
    → IsSound (with_outbound b (row ∷ b.world.db.outbound))
queued-IsSound b row u h = record {
  unique = unique;
  assigned = λ s m r n e. assigned s m r n e;
  agree = h.agree;
  pending = λ k w m r n e. pending k w m r n e;
}
  where
    unique : IsUnique (row ∷ b.world.db.outbound)
    unique r q (inl e) (inl k) p = e ∙ sym k
    unique r q (inl e) (inr n) p = absurd (u.row q n (sym p ∙ ap (λ r. r.id) e))
    unique r q (inr m) (inl k) p = absurd (u.row r m (p ∙ ap (λ r. r.id) k))
    unique r q (inr m) (inr n) p = h.unique r q m n p

    assigned :
        (s : Send)
        → Mem s b.sends
        → (r : OutboundRow) → Mem r (row ∷ b.world.db.outbound)
        → r.id ≡ s.row
        → r.whatsapp_message_id ≡ some s.wa_id
    assigned s m r (inl e) k = absurd (u.send s m (sym k ∙ ap (λ r. r.id) e))
    assigned s m r (inr n) k = h.assigned s m r n k

    pending :
        (k : ℕ) (w : NewChatWrites)
        → Mem (k, w) b.unstamped
        → (r : OutboundRow) → Mem r (row ∷ b.world.db.outbound)
        → r.id ≡ k
        → r.whatsapp_message_id ≡ some w.wa_id
    pending k w m r (inl e) at = absurd (u.pending k w m (sym at ∙ ap (λ r. r.id) e))
    pending k w m r (inr n) at = h.pending k w m r n at

Step-IsSound : {b c : Bridge} → Step b c → IsSound b → IsSound c
Step-IsSound (tick {b = b} env wa keeps) h = process_new_chats-IsSound env wa keeps b h
Step-IsSound restart h = record {
  unique = h.unique;
  assigned = h.assigned;
  agree = h.agree;
  pending = λ k w m. absurd m;
}
Step-IsSound (outside {b = b} rows a) h =
    IsSound-world b (record b.world { db = record b.world.db { outbound = rows } }) a h
Step-IsSound (queued {b = b} row u) h = queued-IsSound b row u h

Steps-IsSound : {a b : Bridge} → Steps a b → IsSound a → IsSound b
Steps-IsSound stay h = h
Steps-IsSound (step ss s) h = Step-IsSound s (Steps-IsSound ss h)

-- A process that has sent nothing yet, over a table whose ids are unique.
abbrev pub fresh_bridge : World → Bridge
fresh_bridge w = record { world = w; last_lookup = none; unstamped = []; sends = []; calls = 0 }

-- From a fresh process over a wa_outbound whose ids are unique, whatever ticks with whatever
-- answers of the server and of WhatsApp, restarts, new rows and changes by others follow (none of
-- these takes a message id off a row, and WhatsApp keeps the id a message is sent under): any two
-- sends of one row carry the same message id.
pub process_new_chats-one_id :
    (w : World) (b : Bridge)
    → IsUnique w.db.outbound
    → Steps (fresh_bridge w) b
    → (s t : Send) → Mem s b.sends
    → Mem t b.sends
    → s.row ≡ t.row
    → s.wa_id ≡ t.wa_id
process_new_chats-one_id w b u ss =
    (Steps-IsSound ss (record {
      unique = u;
      assigned = λ s m. absurd m;
      agree = λ s t m. absurd m;
      pending = λ k v m. absurd m;
    })).agree
