-- ===== src/Bridge/Sweeps/Pictures.antt =====
-- What a sweep of the profile pictures changes: refreshStaleProfilePics.
use enviadores_wabridge.Prelude.{
  ℕ, suc, ◌≡◌, refl, sym, ap, take, ◌∙◌, String, Bool, true, false, ◌||◌, none, some, List, [], ◌∷◌,
  ◌==◌, ◌⊎◌, if◌then◌else◌, any, Each, Each-refl, Each-trans, inl, inr, Bool-cases, if-cases,
}
use enviadores_wabridge.Text.Utf8.{Bytes}
use enviadores_wabridge.Store.Failure.{Result, ok, err}
use enviadores_wabridge.Store.Tables.{ChatRow, Db, update_where}
use enviadores_wabridge.Store.Exec.{Env, World, exec}
use enviadores_wabridge.Store.Fallback.Keeps.{Keeps, Keeps-exec_with, Keeps-query}
use enviadores_wabridge.Store.Messages.{is_empty}
use enviadores_wabridge.Store.Typing.{chat_jids, stale_chats, find_stale_profile_pics}
use enviadores_wabridge.Store.Typing.Once.{query_ok}
use enviadores_wabridge.Store.Chats.{update_profile_pic}
use enviadores_wabridge.Bridge.Client.{Client, ParsedJid, jid, bad_jid}
use enviadores_wabridge.Bridge.Sweeps.{
  Sweep, or_empty, after_update, refresh_parsed, refresh_pic, refresh_pics, after_stale,
  refresh_stale_profile_pics,
}

abbrev pub without_picture : ChatRow → ChatRow
without_picture r = record r { profile_pic_url = none; profile_pic_updated_at = none }

abbrev pub is_listed : List String → String → Bool
is_listed jids chat = any (λ j. chat == j) jids

-- A chat as a sweep of some chats may leave it.
pub record Repictured (jids : List String) (r r' : ChatRow) : Type 0 where
  pub other : (is_listed jids r.jid ≡ true) ⊎ (r' ≡ r)
  pub picture_only : without_picture r' ≡ without_picture r

-- The tables as a sweep may leave them.
pub record PicturesOnly (jids : List String) (db db' : Db) : Type 0 where
  pub chats : Each (Repictured jids) db.chats db'.chats
  pub rest : record db' { chats = [] } ≡ record db { chats = [] }

Repictured-refl : (jids : List String) (r : ChatRow) → Repictured jids r r
Repictured-refl jids r = record { other = inr refl; picture_only = refl }

same_chat : (r s : ChatRow) → without_picture s ≡ without_picture r → s.jid ≡ r.jid
same_chat r s h = ap (λ (x : ChatRow). x.jid) h

Repictured-trans :
    (jids : List String) (r s t : ChatRow)
    → Repictured jids r s
    → Repictured jids s t
    → Repictured jids r t
Repictured-trans jids r s t h k = record {
  other = go h.other k.other;
  picture_only = k.picture_only ∙ h.picture_only;
}
  where
    go :
        (is_listed jids r.jid ≡ true) ⊎ (s ≡ r)
        → (is_listed jids s.jid ≡ true) ⊎ (t ≡ s)
        → (is_listed jids r.jid ≡ true) ⊎ (t ≡ r)
    go (inl listed) b = inl listed
    go (inr same) (inl listed) =
        inl (ap (is_listed jids) (sym (same_chat r s h.picture_only)) ∙ listed)
    go (inr same) (inr still) = inr (still ∙ same)

pub PicturesOnly-refl : (jids : List String) (db : Db) → PicturesOnly jids db db
PicturesOnly-refl jids db = record {
  chats = Each-refl (Repictured jids) (Repictured-refl jids) db.chats;
  rest = refl;
}

PicturesOnly-trans :
    (jids : List String) (a b c : Db)
    → PicturesOnly jids a b
    → PicturesOnly jids b c
    → PicturesOnly jids a c
PicturesOnly-trans jids a b c h k = record {
  chats =
      Each-trans (Repictured jids) (Repictured jids) (Repictured jids) (Repictured-trans jids)
        a.chats b.chats c.chats h.chats k.chats;
  rest = k.rest ∙ h.rest;
}

abbrev pictured : Bytes → ℕ → ChatRow → ChatRow
pictured url now r = record r {
  profile_pic_url = if is_empty url then none else some url;
  profile_pic_updated_at = some now;
}

rows-Repictured :
    (jids : List String) (j : String) (url : Bytes) (now : ℕ) (rs : List ChatRow)
    → ((chat : String) → (chat == j) ≡ true → is_listed jids chat ≡ true)
    → Each (Repictured jids) rs (update_where (λ r. r.jid == j) (pictured url now) rs)
unfolding update_where
rows-Repictured jids j url now [] within = tt
rows-Repictured jids j url now (r ∷ rs) within = (first, rows-Repictured jids j url now rs within)
  where
    first : Repictured jids r (if r.jid == j then pictured url now r else r)
    first = elim (Bool-cases (r.jid == j)) [
      | inl e ↦ rw e (record { other = inl (within r.jid e); picture_only = refl })
      | inr e ↦ rw e (Repictured-refl jids r)
    ]

update-PicturesOnly :
    (jids : List String) (start : Db) (env : Env) (j : String) (url : Bytes)
    → ((chat : String) → (chat == j) ≡ true → is_listed jids chat ≡ true)
    → Keeps (PicturesOnly jids start) (update_profile_pic env j url)
unfolding update_profile_pic exec
update-PicturesOnly jids start env j url within = Keeps-exec_with env _ (λ now db p.
    PicturesOnly-trans jids start db _ p
      (record { chats = rows-Repictured jids j url now db.chats within; rest = refl }))

module _ (env : Env) (c : Client) (s : Sweep) (jids : List String) (start : Db) where
  abbrev Kept : World → Type 0
  Kept w = PicturesOnly jids start w.db

  updated : (n : ℕ) (r : Result (Unit {0}) × World) → Kept r.1 → Kept (after_update s n r).1
  updated n (err e, w) h = h
  updated n (ok _, w) h = h

  parsed :
      (n : ℕ) (j : String) (p : ParsedJid) (w : World)
      → ((chat : String) → (chat == j) ≡ true → is_listed jids chat ≡ true)
      → Kept w
      → Kept (refresh_parsed env s n j p w).1
  parsed n j (bad_jid e) w within h = h
  parsed n j (jid t) w within h =
      updated n (update_profile_pic env j (or_empty (s.picture n t)) w)
        ((update-PicturesOnly jids start env j (or_empty (s.picture n t)) within).at w h)

  refreshed :
      (n : ℕ) (js : List String) (w : World)
      → ((chat : String) → is_listed js chat ≡ true → is_listed jids chat ≡ true)
      → Kept w
      → Kept (refresh_pics env c s n js w)
  unfolding refresh_pics
  refreshed n [] w within h = h
  refreshed n (j ∷ js) w within h =
      let one =
        if-cases (λ (r : Bool × World). Kept r.1) (s.ended_before n) {x = (true, w)} h
          (parsed n j (c.parse_jid j) w (λ chat e. within chat (rw e refl)) h) in
      if-cases Kept (refresh_pic env c s n j w).0 one (
        refreshed (suc n) js (refresh_pic env c s n j w).1
          (λ chat e. within chat (later (chat == j) (is_listed js chat) e)) one)
    where
      later : (x y : Bool) → y ≡ true → (x || y) ≡ true
      later true y e = refl
      later false y e = e

-- The chats that the query finds.
abbrev pub swept_jids : Env → ℕ → ℕ → World → List String
swept_jids env older limit w =
    chat_jids (take limit (stale_chats older (env.clock w.statements) w.db.chats))

-- Whatever the server and WhatsApp answer and wherever the context ends, one sweep changes nothing
-- of the tables but the URL and the time of the profile picture of chats whose JIDs the query for
-- stale pictures gives at its start.
pub refresh_stale_profile_pics-PicturesOnly :
    (env : Env) (c : Client) (s : Sweep) (older limit : ℕ) (w : World)
    → PicturesOnly
        (swept_jids env older limit w)
        w.db
        (refresh_stale_profile_pics env c s older limit w).db
unfolding refresh_stale_profile_pics find_stale_profile_pics
refresh_stale_profile_pics-PicturesOnly env c s older limit w =
    go (find_stale_profile_pics env older limit w) (λ js h. query_ok env _ w js h)
      ((Keeps-query {P = λ db. db ≡ w.db} env _).at w refl)
  where
    jids : List String
    jids = swept_jids env older limit w

    go :
        (r : Result (List String) × World)
        → ((js : List String) → r.0 ≡ ok js → js ≡ jids)
        → r.1.db ≡ w.db
        → PicturesOnly jids w.db (after_stale env c s r).db
    go (err e, v) same still = rw still (PicturesOnly-refl jids w.db)
    go (ok js, v) same still =
        refreshed env c s jids w.db 0 js v (λ chat e. rw (sym (same js refl)) e)
          (rw still (PicturesOnly-refl jids w.db))
