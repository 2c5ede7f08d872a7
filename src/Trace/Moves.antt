-- ===== src/Trace/Moves.antt =====
-- Actions that take the refresh tokens through steps, whatever their result, with a rule for each way
-- in which an action is built.
use identity_hub.Base.{
  Bool, List, Option, false, if◌then◌else◌, none, refl, some, subst, suc, sym, true, ℕ, ◌≡◌,
}
use identity_hub.World.{
  Action, Error, Event, Query, RefreshRow, Result, Tables, World, after_query, begin, close,
  continue, done, err, fail, map_error, new_uuid, next, now, ok, publish, pure, read_random,
  statement, statement_with_id, storage, transaction, with_error, ◌>>=◌,
}
use identity_hub.World.Keeps.{
  Keeps, fail-Keeps, new_uuid-Keeps, now-Keeps, publish-Keeps, pure-Keeps, read_random-Keeps,
  statement-Keeps,
}
use identity_hub.Sql.Audit.{AuditEvent, insert_audit_event}
use identity_hub.Sql.Users.{list_roles_for_user}
use identity_hub.Trace.Steps.{Steps, Steps-trans, stay}

abbrev pub refresh_rows : Tables → List RefreshRow
refresh_rows t = t.refresh_tokens

pub record Moves {A : Type 0} (m : Action A) : Type 0 where
  pub at : (w : World) → Steps (refresh_rows w.tables) (refresh_rows (m w).1.tables)

module _ {A B : Type 0} where
  continued :
      (rows : List RefreshRow) (r : Result A × World) (f : A → Action B)
      → Steps rows (refresh_rows r.1.tables)
      → ((a : A) → Moves (f a))
      → Steps rows (refresh_rows (continue r f).1.tables)
  continued rows (ok a, w) f s k = Steps-trans s ((k a).at w)
  continued rows (err e, w) f s k = s

  pub bind-Moves :
      {m : Action A} {f : A → Action B} → Moves m → ((a : A) → Moves (f a)) → Moves (m >>= f)
  unfolding ◌>>=◌
  bind-Moves {m} {f} k l = record { at = λ w. continued (refresh_rows w.tables) (m w) f (k.at w) l }

module _ {A : Type 0} where
  pub Keeps-Moves : {m : Action A} → Keeps refresh_rows m → Moves m
  Keeps-Moves k = record { at = λ w. subst (Steps (refresh_rows w.tables)) (sym (k.at w)) stay }

  pub map_error-Moves : (f : Error → Error) {m : Action A} → Moves m → Moves (map_error f m)
  unfolding ◌>>=◌
  map_error-Moves f {m} k = record { at = λ w. relabelled (refresh_rows w.tables) (m w) (k.at w) }
    where
      relabelled :
          (rows : List RefreshRow) (r : Result A × World)
          → Steps rows (refresh_rows r.1.tables)
          → Steps rows (refresh_rows (with_error f r).1.tables)
      relabelled rows (ok a, w) s = s
      relabelled rows (err e, w) s = s

  statement-at :
      (b : Bool) (r : Result A × Tables) (w : World)
      → Steps (refresh_rows w.tables) (refresh_rows r.1)
      → Steps
          (refresh_rows w.tables)
          (refresh_rows (if b then (err storage, next w) else after_query w r).1.tables)
  statement-at true r w s = stay
  statement-at false (x, t) w s = s

  pub statement-Moves :
      (q : Query A)
      → ((at : ℕ) (t : Tables) → Steps (refresh_rows t) (refresh_rows (q at t).1))
      → Moves (statement q)
  unfolding ◌>>=◌
  statement-Moves q h = record {
    at = λ w. statement-at (w.env.fails w.tick) (q w.tx_now w.tables) w (h w.tx_now w.tables);
  }

  pub with_id-Moves :
      (q : ℕ → Query A)
      → ((id at : ℕ) (t : Tables) → Steps (refresh_rows t) (refresh_rows (q id at t).1))
      → Moves (statement_with_id q)
  unfolding ◌>>=◌
  with_id-Moves q h = record {
    at = λ w.
        statement-at (w.env.fails w.tick) (q (w.env.db_uuid w.tick) w.tx_now w.tables) w
          (h (w.env.db_uuid w.tick) w.tx_now w.tables);
  }

  -- The end of a transaction whose body succeeded, by whether the commit fails.
  abbrev commit : Bool → Tables → A → World → Result A × World
  commit b before a w =
      if b then (err storage, record w { tick = suc w.tick; tables = before }) else (ok a, next w)

  committed :
      (b : Bool) (before : Tables) (a : A) (w : World)
      → Steps (refresh_rows before) (refresh_rows w.tables)
      → Steps (refresh_rows before) (refresh_rows (commit b before a w).1.tables)
  committed true before a w s = stay
  committed false before a w s = s

  closed :
      (before : Tables) (r : Result A × World)
      → Steps (refresh_rows before) (refresh_rows r.1.tables)
      → Steps (refresh_rows before) (refresh_rows (close before r).1.tables)
  closed before (ok a, w) s = committed (w.env.fails w.tick) before a w s
  closed before (err e, w) s = stay

  opened :
      (b : Bool) (w : World) (r : Result A × World)
      → Steps (refresh_rows w.tables) (refresh_rows r.1.tables)
      → Steps
          (refresh_rows w.tables)
          (refresh_rows (if b then (err storage, next w) else close w.tables r).1.tables)
  opened true w r s = stay
  opened false w r s = closed w.tables r s

  -- A rollback takes no step.
  pub transaction-Moves : {m : Action A} → Moves m → Moves (transaction m)
  unfolding transaction
  transaction-Moves {m} k = record {
    at = λ w. opened (w.env.fails w.tick) w (m (begin w)) (k.at (begin w));
  }

  pub if-Moves : (b : Bool) {m n : Action A} → Moves m → Moves n → Moves (if b then m else n)
  if-Moves true k l = k
  if-Moves false k l = l

module _ {A : Type 0} where
  pub pure-Moves : (a : A) → Moves (pure a)
  pure-Moves a = Keeps-Moves (pure-Keeps a)

  pub fail-Moves : (e : Error) → Moves (fail {A = A} e)
  fail-Moves e = Keeps-Moves (fail-Keeps e)

  -- A statement that leaves the refresh_rows alone.
  pub quiet-Moves :
      (q : Query A)
      → ((at : ℕ) (t : Tables) → refresh_rows (q at t).1 ≡ refresh_rows t)
      → Moves (statement q)
  quiet-Moves q h = Keeps-Moves (statement-Keeps q h)

  pub option-Moves :
      {B : Type 0} (o : Option B) {m : Action A} {f : B → Action A}
      → Moves m
      → ((b : B) → Moves (f b))
      → Moves (elim o [ none ↦ m | some b ↦ f b ])
  option-Moves none k l = k
  option-Moves (some b) k l = l b

module _ {A B : Type 0} where
  pub result-Moves :
      (r : Result B) {m : Error → Action A} {f : B → Action A}
      → ((e : Error) → Moves (m e))
      → ((b : B) → Moves (f b))
      → Moves (elim r [ err e ↦ m e | ok b ↦ f b ])
  result-Moves (err e) k l = k e
  result-Moves (ok b) k l = l b

pub done-Moves : Moves done
unfolding ◌>>=◌
done-Moves = pure-Moves tt

pub publish-Moves : (e : Event) → Moves (publish e)
publish-Moves e = Keeps-Moves (publish-Keeps e)

pub read_random-Moves : Moves read_random
read_random-Moves = Keeps-Moves read_random-Keeps

pub now-Moves : Moves now
now-Moves = Keeps-Moves now-Keeps

pub new_uuid-Moves : Moves new_uuid
new_uuid-Moves = Keeps-Moves new_uuid-Keeps

pub audit-Moves : (e : AuditEvent) → Moves (statement (insert_audit_event e))
unfolding insert_audit_event
audit-Moves e = quiet-Moves (insert_audit_event e) (λ at t. refl)

pub list_roles-Moves : (user_id : ℕ) → Moves (statement (list_roles_for_user user_id))
unfolding list_roles_for_user
list_roles-Moves user_id = quiet-Moves (list_roles_for_user user_id) (λ at t. refl)
