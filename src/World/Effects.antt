-- ===== src/World/Effects.antt =====
-- Actions of the services. A call of the database, the broker or the random source may fail, by a
-- schedule that the environment chooses; every such call takes one tick of it.
use identity_hub.Base.{Bool, Bytes, List, false, if◌then◌else◌, suc, ℕ, ◌∷◌}
use identity_hub.World.Failure.{Error, Result, delivery, err, ok, randomness, storage}
use identity_hub.World.Rows.{Tables}
use identity_hub.World.Broker.{Event}

-- At each tick: whether the call fails, the service's clock, the database's clock, the bytes that a
-- read of the random source yields, and the identifiers that uuid.New and gen_random_uuid return.
pub record Env : Type 0 where
  pub fails : ℕ → Bool
  pub clock : ℕ → ℕ
  pub db_clock : ℕ → ℕ
  pub random : ℕ → Bytes
  pub uuid : ℕ → ℕ
  pub db_uuid : ℕ → ℕ

-- `tx_now` is SQL's now(): the start of the open transaction.
pub record World : Type 0 where
  pub env : Env
  pub tables : Tables
  pub published : List Event
  pub tick : ℕ
  pub tx_now : ℕ

abbrev pub Action : Type 0 → Type 0
Action A = World → Result A × World

abbrev pub next : World → World
next w = record w { tick = suc w.tick }

abbrev pub continue : {A B : Type 0} → Result A × World → (A → Action B) → Result B × World
continue (ok a, w) f = f a w
continue (err e, w) f = (err e, w)

module _ {A : Type 0} where
  unfoldable pub pure : A → Action A
  pure a w = (ok a, w)

  unfoldable pub fail : Error → Action A
  fail e w = (err e, w)

  -- Replace the error of a failed action.
  abbrev pub with_error : (Error → Error) → Result A × World → Result A × World
  with_error f (ok a, w) = (ok a, w)
  with_error f (err e, w) = (err (f e), w)

  unfoldable pub map_error : (Error → Error) → Action A → Action A
  map_error f m w = with_error f (m w)

unfoldable pub done : Action (Unit {0})
done w = (ok tt, w)

-- time.Now of the service
unfoldable pub now : Action ℕ
now w = (ok (w.env.clock w.tick), next w)

unfoldable pub new_uuid : Action ℕ
new_uuid w = (ok (w.env.uuid w.tick), next w)

unfoldable pub read_random : Action Bytes
read_random w =
    if w.env.fails w.tick then (err randomness, next w) else (ok (w.env.random w.tick), next w)

unfoldable pub publish : Event → Action (Unit {0})
publish e w =
    if w.env.fails w.tick
    then (err delivery, next w)
    else (ok tt, record w { tick = suc w.tick; published = e ∷ w.published })

-- One SQL statement: from now() and the tables to its result and the new tables. `no_rows` and a
-- violated constraint are its own errors.
abbrev pub Query : Type 0 → Type 0
Query A = ℕ → Tables → Result A × Tables

abbrev pub begin : World → World
begin w = record w { tick = suc w.tick; tx_now = w.env.db_clock w.tick }

module _ {A : Type 0} where
  abbrev pub after_query : World → Result A × Tables → Result A × World
  after_query w (r, t) = (r, record w { tick = suc w.tick; tables = t })

  unfoldable pub statement : Query A → Action A
  statement q w =
      if w.env.fails w.tick then (err storage, next w) else after_query w (q w.tx_now w.tables)

  -- An INSERT whose id is gen_random_uuid().
  unfoldable pub statement_with_id : (ℕ → Query A) → Action A
  statement_with_id q w = statement (q (w.env.db_uuid w.tick)) w

  -- A statement outside every transaction.
  unfoldable pub autocommit : Query A → Action A
  autocommit q w = statement q (record w { tx_now = w.env.db_clock w.tick })

  -- The `Within…Transaction` functions of internal/store: begin, the callback, and a rollback of
  -- the tables when the callback or the commit fails.
  abbrev pub close : Tables → Result A × World → Result A × World
  close before (ok a, w) =
      if w.env.fails w.tick
      then (err storage, record w { tick = suc w.tick; tables = before })
      else (ok a, next w)
  close before (err e, w) = (err e, record w { tables = before })

  unfoldable pub transaction : Action A → Action A
  transaction body w =
      if w.env.fails w.tick then (err storage, next w) else close w.tables (body (begin w))

-- Unfolding `>>=` unfolds the actions above.
infixl 5 ◌>>=◌ ◌>>◌
unfoldable pub ◌>>=◌ : {A B : Type 0} → Action A → (A → Action B) → Action B
unfolding pure fail map_error done now new_uuid read_random publish statement statement_with_id
    autocommit
◌>>=◌ m f w = continue (m w) f

abbrev pub ◌>>◌ : {A B : Type 0} → Action A → Action B → Action B
m >> k = m >>= λ _. k

-- The world in which no call fails; its clocks, random bytes and identifiers are any.
abbrev pub calm : Env → World → World
calm e w = record w { env = record e { fails = λ _. false } }
