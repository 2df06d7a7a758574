-- ===== src/Bridge/Connection.antt =====
-- WatchConnection of internal/wabridge/wabridge.go: a connection that stays down is given up, so
-- that the command builds everything again. Times are numbers of seconds of the bridge's clock.
use enviadores_wabridge.Prelude.{
  ℕ, ◌+◌, ◌-◌, ◌≡◌, ◌≤◌, refl, inl, inr, Bool, false, Option, none, some, List, [], ◌∷◌, leb,
  if◌then◌else◌, arith, All, Mem, Bool-cases,
}
use enviadores_wabridge.Store.Exec.{Env, World}
use enviadores_wabridge.Pairing.{heartbeat}

abbrev pub disconnect_threshold : ℕ
disconnect_threshold = 300

-- What one check sees: IsConnected and the clock.
pub record Check : Type 0 where
  pub connected : Bool
  pub now : ℕ

-- disconnectedSince, none for the zero time, and the database that the heartbeat writes to.
pub record Watch : Type 0 where
  pub since : Option ℕ
  pub world : World

-- The loop goes on, or it returns its error.
pub data Verdict : Type 0 where
  going : Watch → Verdict
  given_up : World → Verdict

abbrev pub check_down : ℕ → Option ℕ → World → Verdict
check_down now none w = going (record { since = some now; world = w })
check_down now (some s) w =
    if leb disconnect_threshold (now - s)
    then given_up w
    else going (record { since = some s; world = w })

-- One round of the loop.
unfoldable pub check : Env → Check → Watch → Verdict
check env c b =
    if c.connected
    then going (record { since = none; world = (heartbeat env b.world).1 })
    else check_down c.now b.since b.world

-- WatchConnection over the checks of its ticker.
abbrev pub then_watch : (Watch → Verdict) → Verdict → Verdict
then_watch rest (given_up w) = given_up w
then_watch rest (going b) = rest b

unfoldable pub watch_connection : Env → List Check → Watch → Verdict
watch_connection env [] b = going b
watch_connection env (c ∷ cs) b = then_watch (watch_connection env cs) (check env c b)

abbrev pub IsDown : Check → Type 0
IsDown c = c.connected ≡ false

-- `d` is five minutes or more after `at`.
abbrev Late : ℕ → Check → Type 0
Late at d = at + 300 ≤ d.now

pub GivesUp : Verdict → Type 0
GivesUp v = (w : World) × (v ≡ given_up w)

still_down :
    (env : Env) (cs : List Check) (d : Check) (s : ℕ) (w : World)
    → All IsDown cs
    → Mem d cs
    → Late s d
    → GivesUp (watch_connection env cs (record { since = some s; world = w }))
unfolding watch_connection check GivesUp
still_down env [] d s w down m l = absurd m
still_down env (c ∷ cs) d s w down m l = elim (Bool-cases (leb disconnect_threshold (c.now - s))) [
  | inl y ↦ rw (down.0, y) (w, refl)
  | inr y ↦ elim m [
    | inl e ↦ absurd (ground arith)
    | inr n ↦ rw (down.0, y) (still_down env cs d s w down.1 n l)
  ]
]

-- The disconnection that the loop has noted is not later than a check.
abbrev pub IsNoted : Option ℕ → ℕ → Type 0
IsNoted none now = Unit
IsNoted (some s) now = s ≤ now

-- WatchConnection returns its error when every check from some check on finds the connection down
-- and a later one comes five minutes or more after it, from any state in which no disconnection
-- later than that check is noted.
pub watch_connection-GivesUp :
    (env : Env) (c d : Check) (cs : List Check) (since : Option ℕ) (w : World)
    → All IsDown (c ∷ cs)
    → Mem d cs
    → c.now + 300 ≤ d.now
    → IsNoted since c.now
    → GivesUp (watch_connection env (c ∷ cs) (record { since = since; world = w }))
unfolding watch_connection check GivesUp
watch_connection-GivesUp env c d cs none w down m l n =
    rw down.0 (still_down env cs d c.now w down.1 m l)
watch_connection-GivesUp env c d cs (some s) w down m l n =
    elim (Bool-cases (leb disconnect_threshold (c.now - s))) [
      | inl y ↦ rw (down.0, y) (w, refl)
      | inr y ↦ rw (down.0, y) (still_down env cs d s w down.1 m (omega arith))
    ]
