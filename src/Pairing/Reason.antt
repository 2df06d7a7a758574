-- ===== src/Pairing/Reason.antt =====
-- Why the session was lost, in last_event of wa_pairing: what SetSessionLost of
-- internal/pairing/pairing.go writes, and the writes that must leave it.
use enviadores_wabridge.Prelude.{ℕ, ◌≡◌, refl, String, true, some, List, [], ◌∷◌, arith}
use enviadores_wabridge.Text.Utf8.{Bytes}
use enviadores_wabridge.Store.Failure.{ok, feature_heartbeat, feature_bridge_features}
use enviadores_wabridge.Store.Tables.{PairingRow, Db}
use enviadores_wabridge.Store.Exec.{Env, World, Action, exec, exec_with}
use enviadores_wabridge.Store.Fallback.{legacy}
use enviadores_wabridge.Store.Fallback.Keeps.{Keeps, Keeps-exec, Keeps-pure, Keeps-fallback}
use enviadores_wabridge.Text.Search.{starts_with-append}
use enviadores_wabridge.Pairing.{
  session_lost_prefix, is_session_lost, keep_session_lost, set_qr_code, set_event,
  session_lost_message, set_session_lost, heartbeat,
}

-- The calls of the pairing loop that follows a lost session.
pub data LoopCall : Type 0 where
  qr : Bytes → ℕ → ℕ → LoopCall
  event : String → Bytes → LoopCall
  beat : LoopCall

unfoldable pub run_loop_call : Env → LoopCall → Action
run_loop_call env (qr code now valid_for) = set_qr_code env code now valid_for
run_loop_call env (event status msg) = set_event env status msg
run_loop_call env beat = heartbeat env

unfoldable pub run_loop : Env → List LoopCall → World → World
run_loop env [] w = w
run_loop env (c ∷ cs) w = run_loop env cs (run_loop_call env c w).1

message-lost : (reason at : Bytes) → is_session_lost (some (session_lost_message reason at)) ≡ true
unfolding is_session_lost session_lost_message
message-lost reason at = starts_with-append session_lost_prefix _

-- The reason stands in the row.
abbrev IsReason : Bytes → Db → Type 0
IsReason s db = db.pairing.last_event ≡ some s

keep_session_lost-same :
    (s new : Bytes) (r : PairingRow)
    → is_session_lost (some s) ≡ true
    → r.last_event ≡ some s
    → keep_session_lost new r ≡ some s
unfolding keep_session_lost
keep_session_lost-same s new r h e = rw (e, h) refl

module _ (env : Env) (s : Bytes) (h : is_session_lost (some s) ≡ true) where
  run_loop_call-Keeps : (c : LoopCall) → Keeps (IsReason s) (run_loop_call env c)
  unfolding run_loop_call set_qr_code set_event heartbeat legacy
  run_loop_call-Keeps (qr code now valid_for) =
      Keeps-exec env _ λ now db e. keep_session_lost-same s _ db.pairing h e
  run_loop_call-Keeps (event status msg) =
      Keeps-exec env _ λ now db e. keep_session_lost-same s msg db.pairing h e
  run_loop_call-Keeps beat =
      Keeps-fallback feature_bridge_features _ _ tt (Keeps-exec env _ λ now db e. e)
        (Keeps-fallback feature_heartbeat _ _ tt (Keeps-exec env _ λ now db e. e) (Keeps-pure tt))

  run_loop-IsReason :
      (cs : List LoopCall) (w : World) → IsReason s w.db → IsReason s (run_loop env cs w).db
  unfolding run_loop
  run_loop-IsReason [] w e = e
  run_loop-IsReason (c ∷ cs) w e =
      run_loop-IsReason cs (run_loop_call env c w).1 ((run_loop_call-Keeps c).at w e)

written :
    (env : Env) (reason at : Bytes) (w : World)
    → (set_session_lost env reason at w).0 ≡ ok tt
    → IsReason (session_lost_message reason at) (set_session_lost env reason at w).1.db
unfolding set_session_lost exec exec_with
written env reason at w h = ground arith

-- After a SetSessionLost that returns without an error, any QR codes, events and heartbeats,
-- whatever the server answers to them, leave its text in last_event.
pub set_session_lost-stays :
    (env env' : Env) (reason at : Bytes) (cs : List LoopCall) (w : World)
    → (set_session_lost env reason at w).0 ≡ ok tt
    → (run_loop env' cs (set_session_lost env reason at w).1).db.pairing.last_event
      ≡ some (session_lost_message reason at)
set_session_lost-stays env env' reason at cs w h =
    run_loop-IsReason env' _ (message-lost reason at) cs _ (written env reason at w h)
