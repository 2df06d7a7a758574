-- ===== src/Bridge/Inbound/Live/Kept.antt =====
-- What handleMessage keeps true of the tables, whatever the server answers.
use enviadores_wabridge.Prelude.{
  ℕ, ◌≡◌, refl, String, ◌||◌, Option, none, some, List, [], ◌∷◌, ◌==◌, if◌then◌else◌, if-cases,
  arith,
}
use enviadores_wabridge.Text.Utf8.{Bytes}
use enviadores_wabridge.Store.Failure.{Error, Result, ok, err}
use enviadores_wabridge.Store.Tables.{Message, Db}
use enviadores_wabridge.Store.Exec.{Env, World}
use enviadores_wabridge.Store.Fallback.Keeps.{Keeps, Keeps-query_row}
use enviadores_wabridge.Store.Messages.{Located, is_empty, locate_message}
use enviadores_wabridge.Store.Chats.{Chat, upsert_chat}
use enviadores_wabridge.Store.Edits.{apply_edit, revoke_message}
use enviadores_wabridge.Store.Writes.{
  Bears, BearsTail, Keeps-retail, Keeps-insert, apply_edit_keeps, revoke_message_keeps, Keeps-react,
}
use enviadores_wabridge.Bridge.Whatsapp.{Jid}
use enviadores_wabridge.Bridge.Client.{Client}
use enviadores_wabridge.Bridge.Location.{Floats}
use enviadores_wabridge.Bridge.Preview.{tail_preview}
use enviadores_wabridge.Bridge.NewChat.{is_answer, retry_delays, canonical_chat_jid}
use enviadores_wabridge.Bridge.NewChat.Sound.{Keeps-retried}
use enviadores_wabridge.Bridge.Proto.Classify.{Classified, classify_message}
use enviadores_wabridge.Bridge.Proto.Action.{
  ReactionFound, no_reaction, reacted, unreadable, reaction_of, resolve_action,
}
use enviadores_wabridge.Bridge.Inbound.{MessageInfo, is_skipped_chat, chat_aliases, sender_aliases}
use enviadores_wabridge.Bridge.Inbound.Actions.{
  ProtoAction, ordinary, edit, revoke, dropped, retry_located, retried_located, recompute_tail,
  edit_message, after_edit_row, store_edit_as_row, after_apply_edit, after_apply_revoke,
  apply_protocol_action, reaction_record, reaction_chat, store_reaction,
}
use enviadores_wabridge.Bridge.Inbound.Media.{Incoming, Outside}
use enviadores_wabridge.Bridge.Inbound.Live.{
  action_of, message_chat, message_row, after_upsert, store_message, store_content, store_incoming,
  handle_message,
}

retry_located_keeps :
    (P : Db → Type 0) (ds : List ℕ) (m : World → Located × World)
    → ((w : World) → P w.db → P (m w).1.db)
    → (w : World) → P w.db
    → P (retry_located ds m w).1.db
unfolding retry_located
retry_located_keeps P [] m k w h = h
retry_located_keeps P (d ∷ ds) m k w h =
    step (m w).0.error (retry_located_keeps P ds m k (m w).1 (k w h))
  where
    step :
        (o : Option Error)
        → P (retry_located ds m (m w).1).1.db
        → P
            (elim o as (λ _. Located × World) [
              | none ↦ m w
              | some e ↦ if is_answer e || is_empty ds then m w else retry_located ds m (m w).1
            ]).1.db
    step none a = k w h
    step (some e) a =
        if-cases (λ (x : Located × World). P x.1.db) (is_answer e || is_empty ds) (k w h) a

module _ {P : Db → Type 0} (env : Env) (i : MessageInfo) (b : Bears P i.id) (t : BearsTail P) where
  recompute_tail_keeps : (jid : String) (w : World) → P w.db → P (recompute_tail env jid w).db
  unfolding recompute_tail
  recompute_tail_keeps jid = (Keeps-retried _ (Keeps-retail env t jid tail_preview)).at

  edit_row_keeps :
      (jid : String) (body : Option Bytes) (w : World)
      → P w.db
      → P (store_edit_as_row env i jid body w).db
  unfolding store_edit_as_row
  edit_row_keeps jid body w h =
      let call = Keeps-retried _ (Keeps-insert env b (edit_message i jid body) refl) in
      go _ _ (call.at w h)
    where
      go : (r : Result (Unit {0})) (v : World) → P v.db → P (after_edit_row env jid (r, v)).db
      go (err e) v k = k
      go (ok _) v k = recompute_tail_keeps jid v k

  after_edit_keeps :
      (body : Option Bytes) (l : Located) (w : World)
      → P w.db
      → P (after_apply_edit env i body l w).db
  after_edit_keeps body l w h =
      ground
        (arith, h, recompute_tail_keeps l.ref.chat_jid w h, edit_row_keeps l.ref.chat_jid body w h)

  after_revoke_keeps : (l : Located) (w : World) → P w.db → P (after_apply_revoke env l w).1.db
  after_revoke_keeps l w h = ground (arith, h, recompute_tail_keeps l.ref.chat_jid w h)

  pub apply_protocol_action_keeps :
      (chats : List String) (act : ProtoAction) (w : World)
      → P w.db
      → P (apply_protocol_action env i chats act w).1.db
  unfolding apply_protocol_action retried_located
  apply_protocol_action_keeps chats ordinary w h = h
  apply_protocol_action_keeps chats (dropped reason) w h = h
  apply_protocol_action_keeps chats (edit target body) w h =
      let call = apply_edit env chats target i.is_from_me body in
      let m = retried_located call w in
      after_edit_keeps body m.0 m.1 (
        retry_located_keeps P retry_delays call
          (apply_edit_keeps env b chats target i.is_from_me body) w h)
  apply_protocol_action_keeps chats (revoke target) w h =
      let call = revoke_message env chats target i.is_from_me i.is_group in
      let m = retried_located call w in
      after_revoke_keeps m.0 m.1 (
        retry_located_keeps P retry_delays call
          (revoke_message_keeps env b chats target i.is_from_me i.is_group) w h)

locate_keeps :
    (P : Db → Type 0) (env : Env) (id : String) (chats : List String) (w : World)
    → P w.db
    → P (locate_message env id chats w).1.db
unfolding locate_message
locate_keeps P env id chats w h =
    if-cases (λ (x : Located × World). P x.1.db) (id == "" || is_empty chats) h
      ((Keeps-query_row {P = P} env _).at w h)

pub store_reaction_keeps :
    {P : Db → Type 0} (env : Env) (i : MessageInfo)
    → Bears P i.id
    → (c : Client) (chats : List String) (target : String) (emoji : Bytes) (w : World) → P w.db
    → P (store_reaction env c i chats target emoji w).db
unfolding store_reaction reaction_record
store_reaction_keeps {P} env i b c chats target emoji w h =
    let at = reaction_chat env target chats w in
    let r = reaction_record env c i at.0 target emoji (sender_aliases c i.sender) in
    if-cases (λ (x : World). P x.db) (target == "") h
      ((Keeps-react env b r refl).at at.1 (chat chats))
  where
    chat : (cs : List String) → P (reaction_chat env target cs w).1.db
    chat [] = h
    chat (j ∷ []) = h
    chat (j ∷ k ∷ js) = locate_keeps P env target (j ∷ k ∷ js) w h

module _ {P : Db → Type 0} (env : Env) (c : Client) (fl : Floats) (out : Outside) (e : Incoming)
    (b : Bears P e.info.id) (t : BearsTail P)
    (u : (chat : Chat) → Keeps P (upsert_chat env chat)) where
  store_message_keeps :
      (chat : Jid) (k : Classified) (w : World)
      → P w.db
      → P (store_message env c fl out e chat k w).db
  unfolding store_message message_row
  store_message_keeps chat k w h = go _ refl _ _ ((u (message_chat c out e chat k)).at w h)
    where
      go :
          (m : Message)
          → m.id ≡ e.info.id
          → (r : Result (Unit {0})) (v : World) → P v.db
          → P (after_upsert env c fl out m (r, v)).db
      go m same (err x) v p = p
      go m same (ok _) v p = (Keeps-insert env b m same).at v p

  store_incoming_keeps :
      (chat : Jid) (chats : List String) (w : World)
      → P w.db
      → P (store_incoming env c fl out e chat chats w).db
  unfolding store_incoming
  store_incoming_keeps chat chats w h = go (reaction_of e.message out.secret_reaction)
    where
      go :
          (r : ReactionFound)
          → P
              (elim r as (λ _. World) [
                | unreadable ↦ w
                | reacted target emoji ↦ store_reaction env c e.info chats target emoji w
                | no_reaction ↦ store_content env c fl out e chat w
              ]).db
      go unreadable = h
      go (reacted target emoji) = store_reaction_keeps {P = P} env e.info b c chats target emoji w h
      go no_reaction =
          let k = classify_message fl e.message in
          if-cases (λ (x : World). P x.db) (k.message_type == "system") h
            (store_message_keeps chat k w h)

  -- An event keeps what its updates, its insertions, a new tail and the upsert of a chat keep.
  pub handle_message_keeps : (w : World) → P w.db → P (handle_message env c fl out e w).db
  unfolding handle_message
  handle_message_keeps w h =
      let chat = canonical_chat_jid c.whatsapp e.info.chat in
      let chats = chat_aliases c e.info.chat chat in
      let act = action_of fl (resolve_action e.message out.secret) in
      let handled = apply_protocol_action env e.info chats act w in
      let k = apply_protocol_action_keeps env e.info b t chats act w h in
      if-cases (λ (x : World). P x.db) (is_skipped_chat e.info.chat) h
        (if-cases (λ (x : World). P x.db) handled.0 k (store_incoming_keeps chat chats handled.1 k))
