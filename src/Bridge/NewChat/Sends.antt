-- ===== src/Bridge/NewChat/Sends.antt =====
-- One row of the queue of first messages, from the lookup to the stamp, keeps what is known about
-- its sends.
use enviadores_wabridge.Prelude.{
  ℕ, suc, ◌≡◌, refl, ◌∙◌, sym, ap, subst, String, Bool, true, false, not, ◌&&◌, ◌||◌, Option, none,
  some, List, [], ◌∷◌, if◌then◌else◌, inl, inr, Bool-cases, Mem, ◌==◌,
}
use enviadores_wabridge.Text.Utf8.{Bytes}
use enviadores_wabridge.Store.Failure.{Result, ok, err}
use enviadores_wabridge.Store.Tables.{OutboundRow}
use enviadores_wabridge.Store.Exec.{Env}
use enviadores_wabridge.Store.Messages.{is_empty}
use enviadores_wabridge.Store.Outbound.{claim_new_chat_message_id, mark_attempt}
use enviadores_wabridge.Store.Outbound.Ids.{IsAssigned, Advances-refl, mark_attempt-After}
use enviadores_wabridge.Store.Outbound.Claim.{claim-After, claim_yes}
use enviadores_wabridge.Bridge.Whatsapp.{
  Jid, OnWhatsapp, SendResponse, SendResult, sent, send_failed, Whatsapp, default_user_server,
  hidden_user_server,
}
use enviadores_wabridge.Bridge.NewChat.{
  NewChatWrites, Send, Bridge, NewChatRow, text_of, quietly, forget, canonical_chat_jid,
}
use enviadores_wabridge.Bridge.NewChat.Tick.{
  new_chat_writes, after_send, send_as, after_claim, claim_and_send, with_message_id, send_to_hit,
  after_lookup,
}
use enviadores_wabridge.Bridge.NewChat.Sound.{
  IsSound, IsSound-world, quietly-IsSound, fail_new_chat-IsSound, Mem-forget,
  finish_new_chat-IsSound,
}

-- What the send API documents: a message sent under a given id (SendRequestExtra.ID) has that id.
abbrev pub KeepsIds : Whatsapp → Type 0
KeepsIds wa =
    (n : ℕ) (to : Jid) (body : Bytes) (wa_id : String) (resp : SendResponse)
    → wa.send n to body wa_id ≡ sent resp
    → resp.id ≡ wa_id

-- The row that was read stands in the table, with this message id.
abbrev pub IsRead : Bridge → NewChatRow → Type 0
IsRead b r =
    (q : OutboundRow) × Mem q b.world.db.outbound
    × (q.id ≡ r.id)
    × (q.whatsapp_message_id ≡ r.wa_message_id)

module _ (env : Env) (wa : Whatsapp) (keeps : KeepsIds wa) where
  mark-IsSound :
      (id attempts : ℕ) (code : String) (msg : Bytes) (b : Bridge)
      → IsSound b
      → IsSound (quietly (mark_attempt env id attempts code msg) b)
  mark-IsSound id attempts code msg b h =
      quietly-IsSound _ b (mark_attempt-After _ id env attempts code msg) h

  -- A send under the id of its row, which all earlier sends of the row had.
  hand_over-IsSound :
      (id : ℕ) (wa_id : String) (b : Bridge)
      → IsAssigned id wa_id b.world.db.outbound
      → ((s : Send) → Mem s b.sends → s.row ≡ id → s.wa_id ≡ wa_id)
      → IsSound b
      → IsSound
          (record b { sends = record { row = id; wa_id = wa_id } ∷ b.sends; calls = suc b.calls })
  hand_over-IsSound id wa_id b a same h = record {
    unique = h.unique;
    assigned = assigned;
    agree = agree;
    pending = h.pending;
  }
    where
      new : Send
      new = record { row = id; wa_id = wa_id }

      assigned : (s : Send) → Mem s (new ∷ b.sends) → IsAssigned s.row s.wa_id b.world.db.outbound
      assigned s (inl e) = subst (λ s. IsAssigned s.row s.wa_id b.world.db.outbound) (sym e) a
      assigned s (inr m) = h.assigned s m

      agree :
          (s t : Send)
          → Mem s (new ∷ b.sends)
          → Mem t (new ∷ b.sends)
          → s.row ≡ t.row
          → s.wa_id ≡ t.wa_id
      agree s t (inl e) (inl k) p = ap (λ s. s.wa_id) e ∙ sym (ap (λ s. s.wa_id) k)
      agree s t (inl e) (inr n) p = ap (λ s. s.wa_id) e ∙ sym (same t n (sym p ∙ ap (λ s. s.row) e))
      agree s t (inr m) (inl k) p = same s m (p ∙ ap (λ s. s.row) k) ∙ sym (ap (λ s. s.wa_id) k)
      agree s t (inr m) (inr n) p = h.agree s t m n p

  remember-IsSound :
      (id : ℕ) (w : NewChatWrites) (b : Bridge)
      → IsAssigned id w.wa_id b.world.db.outbound
      → IsSound b
      → IsSound (record b { unstamped = (id, w) ∷ forget id b.unstamped })
  remember-IsSound id w b a h = record {
    unique = h.unique;
    assigned = h.assigned;
    agree = h.agree;
    pending = pending;
  }
    where
      pending :
          (k : ℕ) (v : NewChatWrites)
          → Mem (k, v) ((id, w) ∷ forget id b.unstamped)
          → IsAssigned k v.wa_id b.world.db.outbound
      pending k v (inl x) =
          subst (λ (x : ℕ × NewChatWrites). IsAssigned x.0 x.1.wa_id b.world.db.outbound) (sym x) a
      pending k v (inr m) = h.pending k v (Mem-forget id b.unstamped (k, v) m)

  send_as-IsSound :
      (r : NewChatRow) (hit : OnWhatsapp) (to : Jid) (wa_id : String) (b : Bridge)
      → IsAssigned r.id wa_id b.world.db.outbound
      → ((s : Send) → Mem s b.sends → s.row ≡ r.id → s.wa_id ≡ wa_id)
      → IsSound b
      → IsSound (send_as env wa r hit to wa_id b)
  unfolding send_as new_chat_writes
  send_as-IsSound r hit to wa_id b a same h =
      go (wa.send b.calls to (text_of r.body) wa_id) (keeps b.calls to (text_of r.body) wa_id)
    where
      sending : Bridge
      sending = record b {
        sends = record { row = r.id; wa_id = wa_id } ∷ b.sends;
        calls = suc b.calls;
      }

      go :
          (res : SendResult)
          → ((resp : SendResponse) → res ≡ sent resp → resp.id ≡ wa_id)
          → IsSound (after_send env wa r hit to res sending)
      go (send_failed msg) k =
          mark-IsSound r.id r.attempts "SEND_FAILED" msg sending
            (hand_over-IsSound r.id wa_id b a same h)
      go (sent resp) k =
          let w = new_chat_writes env wa r hit to resp in
          let a' = subst (λ i. IsAssigned r.id i b.world.db.outbound) (sym (k resp refl)) a in
          finish_new_chat-IsSound env r.id w _ a'
            (remember-IsSound r.id w sending a' (hand_over-IsSound r.id wa_id b a same h))

  -- A fresh id is for a row that no send has had.
  claim_and_send-IsSound :
      (r : NewChatRow) (hit : OnWhatsapp) (to : Jid) (b : Bridge)
      → IsSound b
      → IsSound (claim_and_send env wa r hit to b)
  unfolding claim_and_send
  claim_and_send-IsSound r hit to b h =
      go (claim_new_chat_message_id env r.id (wa.new_id b.calls) b.world).0
        (claim_yes env r.id (wa.new_id b.calls) b.world h.unique)
    where
      claimed : Bridge
      claimed = record b {
        world = (claim_new_chat_message_id env r.id (wa.new_id b.calls) b.world).1;
        calls = suc b.calls;
      }

      claimed-IsSound : IsSound claimed
      claimed-IsSound =
          let k =
            IsSound-world b claimed.world
              ((claim-After _ env r.id (wa.new_id b.calls)).at b.world (Advances-refl _)) h in
          record { unique = k.unique; assigned = k.assigned; agree = k.agree; pending = k.pending }

      go :
          (res : Result Bool)
          → (res ≡ ok true
              → IsAssigned r.id (wa.new_id b.calls) claimed.world.db.outbound
                × ((q : OutboundRow) × Mem q b.world.db.outbound
                    × (q.id ≡ r.id)
                    × (q.whatsapp_message_id ≡ none)))
          → IsSound (after_claim env wa r hit to (wa.new_id b.calls) res claimed)
      go (err e) given = claimed-IsSound
      go (ok false) given = claimed-IsSound
      go (ok true) given =
          let (a, (q, m, at, no_id)) = given refl in
          send_as-IsSound r hit to (wa.new_id b.calls) claimed a
            (λ s n e. let k = h.assigned s n q m (at ∙ sym e) in absurd cc) claimed-IsSound

  with_message_id-IsSound :
      (r : NewChatRow) (hit : OnWhatsapp) (to : Jid) (b : Bridge)
      → IsRead b r
      → IsSound b
      → IsSound (with_message_id env wa r hit to r.wa_message_id b)
  with_message_id-IsSound r hit to b (q, m, at, same) h = go r.wa_message_id same
    where
      go :
          (wa_id : Option String)
          → q.whatsapp_message_id ≡ wa_id
          → IsSound (with_message_id env wa r hit to wa_id b)
      go none k = claim_and_send-IsSound r hit to b h
      go (some wa_id) k = elim (Bool-cases (wa_id == "")) [
        | inl e ↦ rw e (claim_and_send-IsSound r hit to b h)
        | inr e ↦ rw e (
            send_as-IsSound r hit to wa_id b
              (λ p n x.
                subst (λ p. p.whatsapp_message_id ≡ some wa_id) (h.unique q p m n (at ∙ sym x)) k)
              (λ s n x. let y = h.assigned s n q m (at ∙ sym x) in cc) h)
      ]

  pub send_to_hit-IsSound :
      (r : NewChatRow) (hit : OnWhatsapp) (b : Bridge)
      → IsRead b r
      → IsSound b
      → IsSound (send_to_hit env wa r hit b)
  unfolding send_to_hit
  send_to_hit-IsSound r hit b rd h = elim (Bool-cases (not hit.is_in)) [
    | inl e ↦ rw e (fail_new_chat-IsSound env r.id _ _ b h)
    | inr e ↦
        elim (Bool-cases (
          is_empty hit.jid.user
          || not (hit.jid.server == default_user_server)
            && not (hit.jid.server == hidden_user_server))) [
              | inl k ↦ rw (e, k) (fail_new_chat-IsSound env r.id _ _ b h)
              | inr k ↦
                  rw (e, k)
                    (with_message_id-IsSound r hit
                      (if hit.jid.server == default_user_server
                        then canonical_chat_jid wa hit.jid
                        else hit.jid)
                      b rd h)
            ]
  ]

  pub after_lookup-IsSound :
      (r : NewChatRow) (found : List OnWhatsapp × Option Bytes) (b : Bridge)
      → IsRead b r
      → IsSound b
      → IsSound (after_lookup env wa r found b)
  after_lookup-IsSound r ([], some e) b rd h = mark-IsSound r.id r.attempts _ _ b h
  after_lookup-IsSound r ([], none) b rd h = fail_new_chat-IsSound env r.id _ _ b h
  after_lookup-IsSound r (hit ∷ hits, e) b rd h = send_to_hit-IsSound r hit b rd h
