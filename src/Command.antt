-- ===== src/Command.antt =====
-- supervise of cmd/wabridge/main.go: how long the program waits between two attempts. Times are
-- numbers of nanoseconds, as time.Duration counts them.
use enviadores_wabridge.Prelude.{
  ℕ, suc, ◌*◌, ◌^◌, ◌≡◌, refl, List, [], ◌∷◌, ltb, if◌then◌else◌, arith, Bool-cases, inl, inr,
}

abbrev pub second : ℕ
second = 1000000000

abbrev pub first_backoff : ℕ
first_backoff = 2 * second

abbrev pub max_backoff : ℕ
max_backoff = 60 * second

-- An attempt that ran longer was healthy.
abbrev pub healthy_after : ℕ
healthy_after = 120 * second

abbrev pub reset_backoff : ℕ → ℕ → ℕ
reset_backoff backoff ran = if ltb healthy_after ran then first_backoff else backoff

abbrev pub next_backoff : ℕ → ℕ
next_backoff backoff = if ltb max_backoff (backoff * 2) then max_backoff else backoff * 2

-- The waits of the loop, by how long each attempt ran.
unfoldable pub waits : ℕ → List ℕ → List ℕ
waits backoff [] = []
waits backoff (ran ∷ rest) = let b = reset_backoff backoff ran in b ∷ waits (next_backoff b) rest

unfoldable pub supervise : List ℕ → List ℕ
unfolding waits
supervise attempts = waits first_backoff attempts

-- How many attempts have ended since the first one or since the last healthy one, attempt by attempt.
unfoldable pub ages : ℕ → List ℕ → List ℕ
ages k [] = []
ages k (ran ∷ rest) = let a = if ltb healthy_after ran then 0 else k in a ∷ ages (suc a) rest

-- Two seconds doubled as often, and one minute at most.
unfoldable pub wait_at : ℕ → ℕ
wait_at k = if ltb max_backoff (first_backoff * 2 ^ k) then max_backoff else first_backoff * 2 ^ k

unfoldable pub waits_at : List ℕ → List ℕ
waits_at [] = []
waits_at (k ∷ ks) = wait_at k ∷ waits_at ks

next_wait : (k : ℕ) → next_backoff (wait_at k) ≡ wait_at (suc k)
unfolding wait_at
next_wait k = ground arith

waits-ages : (k : ℕ) (attempts : List ℕ) → waits (wait_at k) attempts ≡ waits_at (ages k attempts)
unfolding waits waits_at ages wait_at
waits-ages k [] = refl
waits-ages k (ran ∷ rest) = elim (Bool-cases (ltb healthy_after ran)) [
  | inl e ↦ rw (e, waits-ages 1 rest) refl
  | inr e ↦ rw (e, next_wait k, waits-ages (suc k) rest) refl
]

-- The waits of supervise, by how long its attempts ran: each is two seconds doubled as often as
-- attempts have ended since the first one or since the last that ran over two minutes, and one
-- minute at most.
pub supervise-ages : (attempts : List ℕ) → supervise attempts ≡ waits_at (ages 0 attempts)
unfolding supervise wait_at
supervise-ages attempts = waits-ages 0 attempts
