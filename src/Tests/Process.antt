-- ===== src/Tests/Process.antt =====
-- Concrete runs of the pairing row, of the supervisor and of the watch over the connection.
use enviadores_wabridge.Prelude.{
  String, ℕ, ◌≡◌, refl, inl, inr, false, true, ◌++◌, none, some, [], ◌∷◌, arith,
}
use enviadores_wabridge.Store.Tables.{TypingRow}
use enviadores_wabridge.Store.Exec.{World, exec, exec_with}
use enviadores_wabridge.Bridge.Connection.{
  Check, watch_connection, GivesUp, watch_connection-GivesUp,
}
use enviadores_wabridge.Pairing.{set_session_lost, session_lost_message}
use enviadores_wabridge.Pairing.Reason.{qr, event, beat, run_loop, set_session_lost-stays}
use enviadores_wabridge.Pairing.Reset.{resets, resets_once}
use enviadores_wabridge.Command.{supervise, waits_at, ages, supervise-ages}
use enviadores_wabridge.Logfile.{RotatingFile, Disk, write}
use enviadores_wabridge.Logfile.Stamps.{unstamp, skip_at, write-unstamp}
use enviadores_wabridge.Text.Utf8.{Bytes}
use enviadores_wabridge.Tests.{start, small_db, calm}

set_session_lost-stays_example :
    (run_loop calm
      (qr [] 1 20 ∷ event "error" [] ∷ beat ∷ [])
      (set_session_lost calm (b'x' ∷ []) [] start).1).db.pairing.last_event
    ≡ some (session_lost_message (b'x' ∷ []) [])
unfolding set_session_lost exec exec_with
set_session_lost-stays_example =
    set_session_lost-stays calm calm (b'x' ∷ []) [] (qr [] 1 20 ∷ event "error" [] ∷ beat ∷ [])
      start refl

-- The web app asks for a reset.
abbrev asked : World
asked = record start {
  db = record small_db { pairing = record small_db.pairing { reset_requested_at = some 3 } };
}

resets_once_example : resets (calm ∷ calm ∷ []) asked ≡ 1
resets_once_example = resets_once calm (calm ∷ []) asked 3 (λ n. refl) refl

supervise-ages_example :
    supervise (1 ∷ 500000000000 ∷ 1 ∷ []) ≡ waits_at (ages 0 (1 ∷ 500000000000 ∷ 1 ∷ []))
supervise-ages_example = supervise-ages (1 ∷ 500000000000 ∷ 1 ∷ [])

abbrev down_at : ℕ → Check
down_at n = record { connected = false; now = n }

watch_connection-GivesUp_example : GivesUp (
    watch_connection calm
      (down_at 30 ∷ down_at 60 ∷ down_at 330 ∷ [])
      (record { since = none; world = start }))
watch_connection-GivesUp_example =
    watch_connection-GivesUp calm (down_at 30) (down_at 330) (down_at 60 ∷ down_at 330 ∷ []) none
      start (refl, (refl, (refl, tt))) (inr (inl refl)) (omega arith) tt

abbrev typing_row : String → ℕ → TypingRow
typing_row jid n = record {
  chat_jid = jid;
  state = "composing";
  requested_at = n;
  processed_at = none;
}

abbrev pub typing_world : World
typing_world = record start {
  db = record small_db { typing = typing_row "c2" 2 ∷ typing_row "c1" 1 ∷ [] };
}

abbrev disk : Disk
disk = record { takes = λ n. none; removes = λ n. false; renames = λ n. false; opens = λ n. true }

abbrev log : RotatingFile
log = record {
  contents = b'>' ∷ b'a' ∷ [];
  moved = none;
  discarding = false;
  size = 2;
  at_line_start = false;
  calls = 3;
}

-- The end of a line, then a line of one byte.
abbrev logged : Bytes
logged = b'b' ∷ 10 ∷ b'c' ∷ []

write-unstamp_example :
    (t : Bytes) × ((write disk (b'>' ∷ []) logged log).1.contents ≡ log.contents ++ t)
    × (unstamp 1 (skip_at 1 false) t ≡ logged)
    × ((write disk (b'>' ∷ []) logged log).0 ≡ (3, true))
write-unstamp_example = write-unstamp disk (b'>' ∷ []) logged log (λ n. refl) refl refl

-- 52 (55)-12 34
abbrev pub typed : Bytes
typed =
    b'5' ∷ b'2' ∷ b' ' ∷ b'(' ∷ b'5' ∷ b'5' ∷ b')' ∷ b'-' ∷ b'1' ∷ b'2' ∷ b' ' ∷ b'3' ∷ b'4' ∷ []

abbrev pub looked_up : Bytes
looked_up = b'+' ∷ b'5' ∷ b'2' ∷ b'5' ∷ b'5' ∷ b'1' ∷ b'2' ∷ b'3' ∷ b'4' ∷ []
