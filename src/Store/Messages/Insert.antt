-- ===== src/Store/Messages/Insert.antt =====
-- What InsertMessage does to the table: a re-delivered message changes nothing, and a schema
-- without the newer columns costs only those columns.
use enviadores_wabridge.Prelude.{
  suc, ◌≡◌, refl, ◌∙◌, Bool, true, false, ◌&&◌, ◌||◌, not, some, ◌∷◌, arith, Bool-cases, inl, inr,
}
use enviadores_wabridge.Store.Failure.{
  Error, ok, is_unknown_column, column_owner, feature_quotes, feature_location,
}
use enviadores_wabridge.Store.Tables.{Message, Db}
use enviadores_wabridge.Store.Exec.{Env, World, exec, exec_with, feature_off, done, refused}
use enviadores_wabridge.Store.Fallback.{fallback, legacy, switch_off}
use enviadores_wabridge.Store.Fallback.Keeps.{Keeps, Keeps-exec, Keeps-fallback}
use enviadores_wabridge.Store.Messages.{
  has_message, insert_ignore, with_columns, insert_message_with, insert_message, is_some,
}

module _ {P : Db → Type 0} (env : Env) (m : Message)
    (h : (q l : Bool) (db : Db) → P db → P (insert_ignore (with_columns q l m) db)) where
  Keeps-insert_message_with : (location : Bool) → Keeps P (insert_message_with env m location)
  unfolding insert_message_with legacy
  Keeps-insert_message_with location =
      Keeps-fallback feature_quotes _ _ tt (Keeps-exec env _ (λ now. h true location))
        (Keeps-exec env _ (λ now. h false location))

  -- Whatever the insertion of one row keeps true, with any of the column lists, InsertMessage keeps.
  pub Keeps-insert_message : Keeps P (insert_message env m)
  unfolding insert_message legacy
  Keeps-insert_message =
      elim (Bool-cases (not (is_some m.location_name) && not (is_some m.location_address))) [
        | inl plain ↦ rw plain (Keeps-insert_message_with false)
        | inr place ↦ rw place (
            Keeps-fallback feature_location _ _ tt (Keeps-insert_message_with true)
              (Keeps-insert_message_with false))
      ]

pub insert_again :
    (m : Message) (db : Db) → has_message m.id db.messages ≡ true → insert_ignore m db ≡ db
unfolding insert_ignore
insert_again m db h = rw h

-- Re-delivery: a message whose id is stored already changes no table, whatever the message says
-- and whatever the server answers.
pub insert_message-stored :
    (env : Env) (m : Message) (w : World)
    → has_message m.id w.db.messages ≡ true
    → (insert_message env m w).1.db ≡ w.db
unfolding with_columns
insert_message-stored env m w h =
    (Keeps-insert_message {P = λ db. db ≡ w.db} env m
        (λ q l db e. insert_again (with_columns q l m) db (rw e h) ∙ e)).at
      w refl

-- A schema without the location columns (the first statement is refused for such a column, the
-- second is done, no feature is off yet): the message is stored without them and with its quote,
-- and only the location feature is switched off and logged.
pub insert_message-no_location :
    (env : Env) (m : Message) (w : World) (e : Error)
    → (is_some m.location_name || is_some m.location_address) ≡ true
    → feature_off w feature_location ≡ false
    → feature_off w feature_quotes ≡ false
    → env.outcome w.statements ≡ refused e
    → is_unknown_column e ≡ true
    → column_owner e ≡ some feature_location
    → env.outcome (suc w.statements) ≡ done
    → insert_message env m w ≡ (
      ok tt,
      record w {
        db = insert_ignore (with_columns true false m) w.db;
        off = feature_location ∷ w.off;
        logged = feature_location ∷ w.logged;
        statements = suc (suc w.statements);
      },
    )
unfolding insert_message insert_message_with fallback legacy switch_off exec exec_with
insert_message-no_location env m w e place loc quo first unknown owner second = ground arith
