-- ===== src/Bridge/NewChat/Sound.antt =====
-- What the queue of first messages knows about its sends, and the steps that keep it.
use enviadores_wabridge.Prelude.{
  ℕ, ◌≡◌, String, ◌||◌, some, List, [], ◌∷◌, eqb, if◌then◌else◌, arith, inl, inr, Bool-cases, Mem,
}
use enviadores_wabridge.Text.Utf8.{Bytes}
use enviadores_wabridge.Store.Failure.{Error, Result, ok, err}
use enviadores_wabridge.Store.Tables.{Db}
use enviadores_wabridge.Store.Exec.{Env, World, Action}
use enviadores_wabridge.Store.Fallback.Keeps.{Keeps}
use enviadores_wabridge.Store.Messages.{insert_message, is_empty}
use enviadores_wabridge.Store.Chats.{upsert_chat}
use enviadores_wabridge.Store.Outbound.{
  outbound_max_attempts, mark_new_chat_sent, set_outbound_chat,
}
use enviadores_wabridge.Store.Outbound.Ids.{
  IsUnique, IsAssigned, Advances, Advances-refl, Advances-IsAssigned, After, fail_outbound-After,
  set_outbound_chat-After,
}
use enviadores_wabridge.Store.Outbound.Claim.{
  upsert_chat-After, insert_message-After, mark_new_chat_sent-After,
}
use enviadores_wabridge.Bridge.NewChat.{
  NewChatWrites, Send, Bridge, is_answer, store_retry, retry_delays, retried, quietly,
  fail_new_chat, unstamped_of, forget, store_chat, finish_new_chat,
}

-- Every send went out under the message id that its row has, and so did the sends that are still to be stamped.
pub record IsSound (b : Bridge) : Type 0 where
  pub unique : IsUnique b.world.db.outbound
  pub assigned : (s : Send) → Mem s b.sends → IsAssigned s.row s.wa_id b.world.db.outbound
  pub agree : (s t : Send) → Mem s b.sends → Mem t b.sends → s.row ≡ t.row → s.wa_id ≡ t.wa_id
  pub pending :
      (k : ℕ) (w : NewChatWrites)
      → Mem (k, w) b.unstamped
      → IsAssigned k w.wa_id b.world.db.outbound

-- The store does not change under a sound bridge except as `Advances` says.
pub IsSound-world :
    (b : Bridge) (w : World)
    → Advances b.world.db.outbound w.db.outbound
    → IsSound b
    → IsSound (record b { world = w })
IsSound-world b w a h = record {
  unique = a.unique h.unique;
  assigned = λ s m. Advances-IsAssigned s.row s.wa_id a (h.assigned s m);
  agree = h.agree;
  pending = λ k v m. Advances-IsAssigned k v.wa_id a (h.pending k v m);
}

pub quietly-IsSound :
    (m : Action) (b : Bridge)
    → Keeps (After b.world.db.outbound) m
    → IsSound b
    → IsSound (quietly m b)
quietly-IsSound m b k h = IsSound-world b (m b.world).1 (k.at b.world (Advances-refl _)) h

-- A retried call keeps what the call keeps.
Keeps-store_retry :
    {P : Db → Type 0} (ds : List ℕ) (m : Action) → Keeps P m → Keeps P (store_retry ds m)
unfolding store_retry
Keeps-store_retry [] m k = record { at = λ w p. p }
Keeps-store_retry {P = P} (d ∷ ds) m k = record {
  at = λ w p. go (Keeps-store_retry ds m k) (m w).0 (m w).1 (k.at w p);
}
  where
    stop :
        (e : Error) (w : World) (again : Result (Unit {0}) × World)
        → P w.db
        → P again.1.db
        → P (if is_answer e || is_empty ds then (err e, w) else again).1.db
    stop e w again p q = elim (Bool-cases (is_answer e || is_empty ds)) [
      | inl y ↦ rw y p
      | inr n ↦ rw n q
    ]

    go :
        Keeps P (store_retry ds m)
        → (r : Result (Unit {0})) (w : World) → P w.db
        → P
            (elim r as (λ _. Result (Unit {0}) × World) [
              | ok _ ↦ (ok tt, w)
              | err e ↦
                  let again = store_retry ds m w in
                  if is_answer e || is_empty ds then (err e, w) else again
            ]).1.db
    go l (ok _) w p = p
    go l (err e) w p = stop e w (store_retry ds m w) p (l.at w p)

pub Keeps-retried : {P : Db → Type 0} (m : Action) → Keeps P m → Keeps P (retried m)
unfolding retried
Keeps-retried m k = Keeps-store_retry retry_delays m k

pub fail_new_chat-IsSound :
    (env : Env) (id : ℕ) (code : String) (detail : Bytes) (b : Bridge)
    → IsSound b
    → IsSound (fail_new_chat env id code detail b)
unfolding fail_new_chat
fail_new_chat-IsSound env id code detail b h =
    quietly-IsSound _ b (fail_outbound-After _ id env outbound_max_attempts code detail) h

pub unstamped_of-Mem :
    (id : ℕ) (ws : List (ℕ × NewChatWrites)) (w : NewChatWrites)
    → unstamped_of id ws ≡ some w
    → Mem (id, w) ws
unfolding unstamped_of
unstamped_of-Mem id [] w h = absurd (ground arith)
unstamped_of-Mem id ((k, v) ∷ ws) w h = elim (Bool-cases (eqb k id)) [
  | inl e ↦ inl (ground arith)
  | inr e ↦ inr (unstamped_of-Mem id ws w (rw e at h))
]

pub Mem-forget :
    (id : ℕ) (ws : List (ℕ × NewChatWrites)) (x : ℕ × NewChatWrites)
    → Mem x (forget id ws)
    → Mem x ws
unfolding forget
Mem-forget id [] x m = m
Mem-forget id ((k, v) ∷ ws) x m = elim (Bool-cases (eqb k id)) [
  | inl e ↦ inr (Mem-forget id ws x (rw e at m))
  | inr e ↦ keep (Mem-forget id ws x) (rw e at m)
]
  where
    keep : (Mem x (forget id ws) → Mem x ws) → Mem x ((k, v) ∷ forget id ws) → Mem x ((k, v) ∷ ws)
    keep f (inl e) = inl e
    keep f (inr n) = inr (f n)

module _ (env : Env) (id : ℕ) (w : NewChatWrites) where
  store_chat-IsSound : (b : Bridge) → IsSound b → IsSound (store_chat env id w b)
  store_chat-IsSound b h = go (retried (upsert_chat env w.chat) b.world).0
    where
      chat : Bridge
      chat = quietly (retried (upsert_chat env w.chat)) b

      chat-IsSound : IsSound chat
      chat-IsSound = quietly-IsSound _ b (Keeps-retried _ (upsert_chat-After _ env w.chat)) h

      message-IsSound : IsSound (quietly (retried (insert_message env w.message)) chat)
      message-IsSound =
          quietly-IsSound _ chat (Keeps-retried _ (insert_message-After _ env w.message))
            chat-IsSound

      go :
          (r : Result (Unit {0}))
          → IsSound (elim r as (λ _. Bridge) [
            | err _ ↦ quietly (retried (upsert_chat env w.chat)) b
            | ok _ ↦ quietly (retried (set_outbound_chat env id w.chat.jid)) (
                quietly
                  (retried (insert_message env w.message))
                  (quietly (retried (upsert_chat env w.chat)) b))
          ])
      go (err _) = chat-IsSound
      go (ok _) =
          quietly-IsSound _ _ (Keeps-retried _ (set_outbound_chat-After _ id env w.chat.jid))
            message-IsSound

  -- Stamping and storing a send whose row has its message id.
  pub finish_new_chat-IsSound :
      (b : Bridge)
      → IsAssigned id w.wa_id b.world.db.outbound
      → IsSound b
      → IsSound (finish_new_chat env id w b)
  unfolding finish_new_chat
  finish_new_chat-IsSound b a h = go (retried (mark_new_chat_sent env id w.wa_id) b.world).0
    where
      stamped : Bridge
      stamped = quietly (retried (mark_new_chat_sent env id w.wa_id)) b

      stamped-IsSound : IsSound stamped
      stamped-IsSound =
          quietly-IsSound _ b (Keeps-retried _ (mark_new_chat_sent-After _ env id w.wa_id a)) h

      forgotten-IsSound : IsSound (record stamped { unstamped = forget id stamped.unstamped })
      forgotten-IsSound = record {
        unique = stamped-IsSound.unique;
        assigned = stamped-IsSound.assigned;
        agree = stamped-IsSound.agree;
        pending = λ k v m. stamped-IsSound.pending k v (Mem-forget id b.unstamped (k, v) m);
      }

      go :
          (r : Result (Unit {0}))
          → IsSound (elim r as (λ _. Bridge) [
            | err _ ↦ stamped
            | ok _ ↦
                store_chat env id w (record stamped { unstamped = forget id stamped.unstamped })
          ])
      go (err _) = stamped-IsSound
      go (ok _) = store_chat-IsSound _ forgotten-IsSound
