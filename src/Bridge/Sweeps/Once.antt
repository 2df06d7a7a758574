-- ===== src/Bridge/Sweeps/Once.antt =====
-- A typing request is passed on once: two flushes of flushTypingOutbound.
use enviadores_wabridge.Prelude.{
  ◌≡◌, refl, String, Bool, true, false, ◌||◌, Option, none, some, List, [], ◌∷◌, ◌++◌, ◌==◌, any,
  All, arith,
}
use enviadores_wabridge.Store.Failure.{Result, ok, err}
use enviadores_wabridge.Store.Exec.{Env, World}
use enviadores_wabridge.Store.Typing.{TypingRequest, in_batch, drain_typing_outbound}
use enviadores_wabridge.Store.Typing.Once.{drain_typing_outbound-Fresh}
use enviadores_wabridge.Bridge.Client.{Client, ParsedJid, jid, bad_jid}
use enviadores_wabridge.Bridge.Sweeps.{
  Presence, ChatPresence, presence, presence_of, presences, after_drain, typing_batch,
  flush_typing_outbound,
}

-- A chat that a presence was sent to.
abbrev pub is_reached : List Presence → String → Bool
is_reached ps chat = any (λ (p : Presence). p.chat == chat) ps

reached_one :
    (r : TypingRequest) (p : ParsedJid) (s : Option ChatPresence) (ps : List Presence)
    (chat : String)
    → (r.chat_jid == chat) ≡ false
    → is_reached ps chat ≡ false
    → is_reached (presence r p s ++ ps) chat ≡ false
reached_one r (bad_jid e) s ps chat h k = k
reached_one r (jid t) none ps chat h k = k
reached_one r (jid t) (some s) ps chat h k = ground (arith, h, k)

||-split : (x y : Bool) → (x || y) ≡ false → (x ≡ false) × (y ≡ false)
||-split true y h = cc
||-split false y h = (refl, h)

unreached :
    (c : Client) (batch : List TypingRequest) (chat : String)
    → in_batch batch chat ≡ false
    → is_reached (presences c batch) chat ≡ false
unfolding presences
unreached c [] chat h = refl
unreached c (r ∷ rs) chat h =
    let (own, others) = ||-split (r.chat_jid == chat) (in_batch rs chat) h in
    reached_one r (c.parse_jid r.chat_jid) (presence_of r.state) (presences c rs) chat own
      (unreached c rs chat others)

-- No presence goes to a chat of the first calls.
abbrev pub Apart : List Presence → List Presence → Type 0
Apart first ps = All (λ (p : Presence). is_reached first p.chat ≡ false) ps

presence-Apart :
    (first : List Presence) (r : TypingRequest) (p : ParsedJid) (s : Option ChatPresence)
    (ps : List Presence)
    → is_reached first r.chat_jid ≡ false
    → Apart first ps
    → Apart first (presence r p s ++ ps)
presence-Apart first r (bad_jid e) s ps h k = k
presence-Apart first r (jid t) none ps h k = k
presence-Apart first r (jid t) (some s) ps h k = (h, k)

presences-Apart :
    (c c' : Client) (batch batch' : List TypingRequest)
    → All (λ (t : TypingRequest). in_batch batch t.chat_jid ≡ false) batch'
    → Apart (presences c batch) (presences c' batch')
unfolding presences
presences-Apart c c' batch [] h = tt
presences-Apart c c' batch (r ∷ rs) (h, k) =
    presence-Apart (presences c batch) r (c'.parse_jid r.chat_jid) (presence_of r.state)
      (presences c' rs) (unreached c batch r.chat_jid h) (presences-Apart c c' batch rs k)

none_first : (ps : List Presence) → Apart [] ps
none_first [] = tt
none_first (p ∷ ps) = (refl, none_first ps)

-- A typing request is passed on once: whatever the server does with its statements, of two flushes
-- with no new request in between, the second sends no presence for a chat that the first sent one
-- for.
pub flush_typing_outbound-Apart :
    (env env' : Env) (c c' : Client) (w : World)
    → Apart
        (flush_typing_outbound env c w).0
        (flush_typing_outbound env' c' (flush_typing_outbound env c w).1).0
unfolding flush_typing_outbound
flush_typing_outbound-Apart env env' c c' w =
    go (drain_typing_outbound env typing_batch w)
      (drain_typing_outbound-Fresh env env' typing_batch typing_batch w)
  where
    second :
        (batch : List TypingRequest) (v : World)
        → ((batch' : List TypingRequest)
            → (drain_typing_outbound env' typing_batch v).0 ≡ ok batch'
            → All (λ (t : TypingRequest). in_batch batch t.chat_jid ≡ false) batch')
        → (r : Result (List TypingRequest) × World)
        → (drain_typing_outbound env' typing_batch v).0 ≡ r.0
        → Apart (presences c batch) (after_drain c' r).0
    second batch v h (err e, v') k = tt
    second batch v h (ok batch', v') k = presences-Apart c c' batch batch' (h batch' k)

    go :
        (r : Result (List TypingRequest) × World)
        → ((batch batch' : List TypingRequest)
            → r.0 ≡ ok batch
            → (drain_typing_outbound env' typing_batch r.1).0 ≡ ok batch'
            → All (λ (t : TypingRequest). in_batch batch t.chat_jid ≡ false) batch')
        → Apart
            (after_drain c r).0
            (after_drain c' (drain_typing_outbound env' typing_batch (after_drain c r).1)).0
    go (err e, v) h = none_first _
    go (ok batch, v) h =
        second batch v (λ batch' k. h batch batch' refl k)
          (drain_typing_outbound env' typing_batch v) refl
