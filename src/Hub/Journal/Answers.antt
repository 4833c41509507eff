-- ===== src/Hub/Journal/Answers.antt =====
-- What a handler of hub.rs answers whose own work fails, after its checks and the look-up of a stored
-- response.
use neuman.Prelude.{Option, some, none, Result, ok, err, ◌≡◌, refl, ◌>>=◌, ◌>>◌}
use neuman.Hub.{HubError}
use neuman.Hub.Database.{Db}
use neuman.Hub.Journal.{or_replay}

-- The answer where the work fails with `error`: the error of the checks; else that of the look-up; else
-- the stored response, with the database as it was; and else `error`.
pub data Answer {X A : Type 0} (db : Db) (checks : Result HubError X)
    (stored : Result HubError (Option A)) (error : HubError)
    : Result HubError (Db × A) → Type 0 where
  turned_away : (e : HubError) → checks ≡ err e → Answer db checks stored error (err e)
  in_conflict :
      (x : X) (e : HubError)
      → checks ≡ ok x
      → stored ≡ err e
      → Answer db checks stored error (err e)
  replayed :
      (x : X) (a : A)
      → checks ≡ ok x
      → stored ≡ ok (some a)
      → Answer db checks stored error (ok (db, a))
  failed : (x : X) → checks ≡ ok x → stored ≡ ok none → Answer db checks stored error (err error)

module _ {X A : Type 0} (db : Db) (error : HubError) where
  -- The same check twice, outside the transaction and in it
  pub after_check :
      (check : Result HubError X) (stored : Result HubError (Option A))
      → Answer db check stored error
          (do check; check; replay ← stored; or_replay db replay (err error))
  unfolding or_replay
  after_check (err e) stored = turned_away e refl
  after_check (ok x) (err e) = in_conflict x e refl refl
  after_check (ok x) (ok none) = failed x refl refl
  after_check (ok x) (ok (some a)) = replayed x a refl refl

  -- With a check of the request between the two
  pub after_checks :
      (check : Result HubError X) (request : Result HubError (Unit {0}))
      (stored : Result HubError (Option A))
      → Answer db
          (check >> request)
          stored
          error
          (do check; request; check; replay ← stored; or_replay db replay (err error))
  unfolding or_replay
  after_checks (err e) request stored = turned_away e refl
  after_checks (ok x) (err e) stored = turned_away e refl
  after_checks (ok x) (ok t) (err e) = in_conflict t e refl refl
  after_checks (ok x) (ok t) (ok none) = failed t refl refl
  after_checks (ok x) (ok t) (ok (some a)) = replayed t a refl refl
