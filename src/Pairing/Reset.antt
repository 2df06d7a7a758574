-- ===== src/Pairing/Reset.antt =====
-- Reset requests: ConsumeResetRequest of internal/pairing/pairing.go, asked again and again.
use enviadores_wabridge.Prelude.{
  ℕ, ◌+◌, ◌≤◌, ◌≡◌, refl, Bool, true, false, Option, none, some, List, [], ◌∷◌, arith, inl, inr,
  ◌⊎◌,
}
use enviadores_wabridge.Store.Failure.{Result, ok, err}
use enviadores_wabridge.Store.Tables.{Db}
use enviadores_wabridge.Store.Exec.{Env, done, World, query, exec_with}
use enviadores_wabridge.Store.Fallback.Keeps.{Keeps, Keeps-query, Keeps-exec_with, Keeps-bind}
use enviadores_wabridge.Pairing.{after_select, consume_reset_request}

-- Whether the caller is told to reset.
abbrev pub is_reset : Result Bool → ℕ
is_reset (ok true) = 1
is_reset (ok false) = 0
is_reset (err e) = 0

-- How often it is told so, over any number of calls.
unfoldable pub resets : List Env → World → ℕ
resets [] w = 0
resets (env ∷ envs) w =
    is_reset (consume_reset_request env w).0 + resets envs (consume_reset_request env w).1

abbrev IsClear : Db → Type 0
IsClear db = db.pairing.reset_requested_at ≡ none

consume-IsClear : (env : Env) → Keeps IsClear (consume_reset_request env)
unfolding consume_reset_request
consume-IsClear env =
    Keeps-bind _ _ (Keeps-query env _) λ _. Keeps-bind _ _ (Keeps-query env _) selected
  where
    selected : (ts : Option ℕ) → Keeps IsClear (after_select env ts)
    selected none = Keeps-query env _
    selected (some at) =
        Keeps-bind _ _ (Keeps-query env _) λ _. Keeps-exec_with env _ λ now db h. refl

-- A request that is not there is not consumed.
consume-none : (env : Env) (w : World) → IsClear w.db → is_reset (consume_reset_request env w).0 ≡ 0
unfolding consume_reset_request query
consume-none env w h = ground (arith, h)

consume-once :
    (env : Env) (w : World)
    → (is_reset (consume_reset_request env w).0 ≡ 0)
      ⊎ ((is_reset (consume_reset_request env w).0 ≡ 1)
          × IsClear (consume_reset_request env w).1.db)
unfolding consume_reset_request query exec_with
consume-once env w = ground arith

resets-IsClear : (envs : List Env) (w : World) → IsClear w.db → resets envs w ≡ 0
unfolding resets
resets-IsClear [] w h = refl
resets-IsClear (env ∷ envs) w h = omega (
  arith,
  consume-none env w h,
  resets-IsClear envs (consume_reset_request env w).1 ((consume-IsClear env).at w h),
)

-- With a server that does every statement, a request that is there is told.
consume-told :
    (env : Env) (w : World) (at : ℕ)
    → ((n : ℕ) → env.outcome n ≡ done)
    → w.db.pairing.reset_requested_at ≡ some at
    → (is_reset (consume_reset_request env w).0 ≡ 1) × IsClear (consume_reset_request env w).1.db
unfolding consume_reset_request query exec_with
consume-told env w at calm h = simp (calm, h) (refl, refl)

-- With a request in the table and a server that does every statement of the first call,
-- ConsumeResetRequest called once or more, with no new request in between, answers true exactly
-- once.
pub resets_once :
    (env : Env) (envs : List Env) (w : World) (at : ℕ)
    → ((n : ℕ) → env.outcome n ≡ done)
    → w.db.pairing.reset_requested_at ≡ some at
    → resets (env ∷ envs) w ≡ 1
unfolding resets
resets_once env envs w at calm h =
    let (e, c) = consume-told env w at calm h in
    omega (arith, e, resets-IsClear envs (consume_reset_request env w).1 c)

-- Whatever the server answers, any number of calls of ConsumeResetRequest with no new request in
-- between answer true at most once.
pub resets_bounds : (envs : List Env) (w : World) → resets envs w ≤ 1
unfolding resets
resets_bounds [] w = omega arith
resets_bounds (env ∷ envs) w = elim (consume-once env w) [
  | inl e ↦ omega (arith, e, resets_bounds envs (consume_reset_request env w).1)
  | inr (e, c) ↦ omega (arith, e, resets-IsClear envs (consume_reset_request env w).1 c)
]
