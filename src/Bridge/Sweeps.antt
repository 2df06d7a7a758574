-- ===== src/Bridge/Sweeps.antt =====
-- The sweeps of internal/wabridge/wabridge.go: WatchTypingOutbound and WatchProfilePics. A ticker is a
-- list of its ticks, each with what others have done to the tables since the last.
pub mod Once
pub mod Pictures
use enviadores_wabridge.Prelude.{
  ℕ, suc, String, Bool, true, false, Option, none, some, List, [], ◌∷◌, ◌++◌, ◌==◌, if◌then◌else◌,
}
use enviadores_wabridge.Text.Utf8.{Bytes}
use enviadores_wabridge.Store.Failure.{Result, ok, err}
use enviadores_wabridge.Store.Tables.{Db}
use enviadores_wabridge.Store.Exec.{Env, World}
use enviadores_wabridge.Store.Chats.{update_profile_pic}
use enviadores_wabridge.Store.Typing.{TypingRequest, drain_typing_outbound, find_stale_profile_pics}
use enviadores_wabridge.Bridge.Whatsapp.{Jid}
use enviadores_wabridge.Bridge.Client.{Client, ParsedJid, jid, bad_jid}

pub data ChatPresence : Type 0 where
  composing paused : ChatPresence

-- A call of SendChatPresence, for the request of a chat. Its error is only logged.
pub record Presence : Type 0 where
  pub chat : String
  pub to : Jid
  pub state : ChatPresence

abbrev pub presence_of : String → Option ChatPresence
presence_of s =
    if s == "composing" then some composing else if s == "paused" then some paused else none

abbrev pub presence : TypingRequest → ParsedJid → Option ChatPresence → List Presence
presence r (bad_jid e) s = []
presence r (jid t) none = []
presence r (jid t) (some s) = record { chat = r.chat_jid; to = t; state = s } ∷ []

unfoldable pub presences : Client → List TypingRequest → List Presence
presences c [] = []
presences c (r ∷ rs) = presence r (c.parse_jid r.chat_jid) (presence_of r.state) ++ presences c rs

abbrev pub after_drain : Client → Result (List TypingRequest) × World → List Presence × World
after_drain c (err e, w) = ([], w)
after_drain c (ok batch, w) = (presences c batch, w)

abbrev pub typing_batch : ℕ
typing_batch = 25

-- flushTypingOutbound: the calls that it makes
unfoldable pub flush_typing_outbound : Env → Client → World → List Presence × World
flush_typing_outbound env c w = after_drain c (drain_typing_outbound env typing_batch w)

-- client.IsConnected at a tick, and the tables as others have left them
pub record Tick : Type 0 where
  pub connected : Bool
  pub by_others : Db → Db

abbrev pub as_left : Tick → World → World
as_left t w = record w { db = t.by_others w.db }

-- WatchTypingOutbound
unfoldable pub watch_typing_outbound : Env → Client → List Tick → World → List Presence × World
watch_typing_outbound env c [] w = ([], w)
watch_typing_outbound env c (t ∷ ts) w =
    let flushed = flush_typing_outbound env c (as_left t w) in
    let now : List Presence × World = if t.connected then flushed else ([], as_left t w) in
    let later = watch_typing_outbound env c ts now.1 in (now.0 ++ later.0, later.1)

-- What the client and the context answer in one sweep, by the number of the chat: the URL of
-- GetProfilePictureInfo, none for an error or no picture, and whether the context has ended before
-- the chat and in the pause after it.
pub record Sweep : Type 0 where
  pub picture : ℕ → Jid → Option Bytes
  pub ended_before : ℕ → Bool
  pub ended_after : ℕ → Bool

abbrev pub or_empty : Option Bytes → Bytes
or_empty none = []
or_empty (some s) = s

-- After UpdateProfilePic: whether to stop. An error goes on without the pause.
abbrev pub after_update : Sweep → ℕ → Result (Unit {0}) × World → Bool × World
after_update s n (err e, w) = (false, w)
after_update s n (ok _, w) = (s.ended_after n, w)

abbrev pub refresh_parsed : Env → Sweep → ℕ → String → ParsedJid → World → Bool × World
refresh_parsed env s n j (bad_jid e) w = (false, w)
refresh_parsed env s n j (jid t) w =
    after_update s n (update_profile_pic env j (or_empty (s.picture n t)) w)

abbrev pub refresh_pic : Env → Client → Sweep → ℕ → String → World → Bool × World
refresh_pic env c s n j w =
    if s.ended_before n then (true, w) else refresh_parsed env s n j (c.parse_jid j) w

unfoldable pub refresh_pics : Env → Client → Sweep → ℕ → List String → World → World
refresh_pics env c s n [] w = w
refresh_pics env c s n (j ∷ js) w =
    let (stop, w') = refresh_pic env c s n j w in
    let rest = refresh_pics env c s (suc n) js w' in if stop then w' else rest

abbrev pub after_stale : Env → Client → Sweep → Result (List String) × World → World
after_stale env c s (err e, w) = w
after_stale env c s (ok js, w) = refresh_pics env c s 0 js w

-- refreshStaleProfilePics
unfoldable pub refresh_stale_profile_pics : Env → Client → Sweep → ℕ → ℕ → World → World
refresh_stale_profile_pics env c s stale_after limit w =
    after_stale env c s (find_stale_profile_pics env stale_after limit w)

abbrev pub stale_after : ℕ
stale_after = 64800

abbrev pub batch_limit : ℕ
batch_limit = 30

-- WatchProfilePics
unfoldable pub watch_profile_pics : Env → Client → List (Tick × Sweep) → World → World
watch_profile_pics env c [] w = w
watch_profile_pics env c ((t, s) ∷ ts) w =
    let swept = refresh_stale_profile_pics env c s stale_after batch_limit (as_left t w) in
    watch_profile_pics env c ts (if t.connected then swept else as_left t w)
