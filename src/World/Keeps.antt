-- ===== src/World/Keeps.antt =====
-- Actions that leave a part of the tables alone, whatever their result, with a rule for each way in
-- which an action is built.
use identity_hub.Base.{Bool, ap, arith, false, if◌then◌else◌, refl, sym, true, ℕ, ◌∙◌, ◌≡◌}
use identity_hub.World.Failure.{Error, Result, err, ok, storage}
use identity_hub.World.Rows.{Tables}
use identity_hub.World.Broker.{Event}
use identity_hub.World.Effects.{
  Action, Query, World, after_query, begin, close, continue, fail, map_error, new_uuid, next, now,
  publish, pure, read_random, statement, statement_with_id, transaction, with_error, ◌>>=◌,
}

pub record Keeps {A B : Type 0} (f : Tables → B) (m : Action A) : Type 0 where
  pub at : (w : World) → f (m w).1.tables ≡ f w.tables

module _ {A B : Type 0} {f : Tables → B} where
  pub Keeps-same :
      {m : Action A}
      → Keeps f m
      → (w w' : World) (r : Result A) → m w ≡ (r, w')
      → f w'.tables ≡ f w.tables
  Keeps-same k w w' r h = sym (ap {B = B} (λ (z : Result A × World). f z.1.tables) h) ∙ k.at w

module _ {A B C : Type 0} {f : Tables → B} where
  continue_frame :
      (r : Result A × World) (g : A → Action C) (w : World)
      → f r.1.tables ≡ f w.tables
      → ((a : A) → Keeps f (g a))
      → f (continue r g).1.tables ≡ f w.tables
  continue_frame (ok a, w') g w e k = (k a).at w' ∙ e
  continue_frame (err x, w') g w e k = e

  pub bind-Keeps :
      {m : Action A} {g : A → Action C} → Keeps f m → ((a : A) → Keeps f (g a)) → Keeps f (m >>= g)
  unfolding ◌>>=◌
  bind-Keeps {m} {g} k l = record { at = λ w. continue_frame (m w) g w (k.at w) l }

with_error-world :
    {A : Type 0} (g : Error → Error) (r : Result A × World) → (with_error g r).1 ≡ r.1
with_error-world g (ok a, w) = refl
with_error-world g (err e, w) = refl

module _ {A B : Type 0} {f : Tables → B} where
  pub map_error-Keeps : {m : Action A} (g : Error → Error) → Keeps f m → Keeps f (map_error g m)
  unfolding ◌>>=◌
  map_error-Keeps {m} g k = record {
    at = λ w. ap {B = B} (λ z. f z.tables) (with_error-world g (m w)) ∙ k.at w;
  }

statement-at :
    {A B : Type 0} (f : Tables → B) (b : Bool) (r : Result A × Tables) (w : World)
    → f r.1 ≡ f w.tables
    → f (if b then (err storage, next w) else after_query w r).1.tables ≡ f w.tables
statement-at f true r w e = refl
statement-at f false (x, t) w e = e

module _ {A B : Type 0} {f : Tables → B} where
  pub statement-Keeps :
      (q : Query A) → ((at : ℕ) (t : Tables) → f (q at t).1 ≡ f t) → Keeps f (statement q)
  unfolding ◌>>=◌
  statement-Keeps q h = record {
    at = λ w. statement-at f (w.env.fails w.tick) (q w.tx_now w.tables) w (h w.tx_now w.tables);
  }

  pub with_id-Keeps :
      (q : ℕ → Query A)
      → ((id at : ℕ) (t : Tables) → f (q id at t).1 ≡ f t)
      → Keeps f (statement_with_id q)
  unfolding ◌>>=◌
  with_id-Keeps q h = record {
    at = λ w.
        statement-at f (w.env.fails w.tick) (q (w.env.db_uuid w.tick) w.tx_now w.tables) w
          (h (w.env.db_uuid w.tick) w.tx_now w.tables);
  }

  pub pure-Keeps : (a : A) → Keeps f (pure a)
  unfolding ◌>>=◌
  pure-Keeps a = record { at = λ w. refl }

  pub fail-Keeps : (e : Error) → Keeps f (fail {A = A} e)
  unfolding ◌>>=◌
  fail-Keeps e = record { at = λ w. refl }

  pub if-Keeps : (b : Bool) {m n : Action A} → Keeps f m → Keeps f n → Keeps f (if b then m else n)
  if-Keeps true k l = k
  if-Keeps false k l = l

module _ {B : Type 0} {f : Tables → B} where
  pub now-Keeps : Keeps f now
  unfolding ◌>>=◌
  now-Keeps = record { at = λ w. refl }

  pub new_uuid-Keeps : Keeps f new_uuid
  unfolding ◌>>=◌
  new_uuid-Keeps = record { at = λ w. refl }

  pub read_random-Keeps : Keeps f read_random
  unfolding ◌>>=◌
  read_random-Keeps = record { at = λ w. ground arith }

  pub publish-Keeps : (e : Event) → Keeps f (publish e)
  unfolding ◌>>=◌
  publish-Keeps e = record { at = λ w. ground arith }

module _ {A B C : Type 0} {f : Tables → B} where
  continue-ok :
      (r : Result A × World) (g : A → Action C) (w' : World) (c : C)
      → continue r g ≡ (ok c, w')
      → ((a : A) → Keeps f (g a))
      → (a : A) × (r.0 ≡ ok a) × (f w'.tables ≡ f r.1.tables)
  continue-ok (ok a, w) g w' c h k =
      (a, refl, ap {B = B} (λ (z : Result C × World). f z.1.tables) (sym h) ∙ (k a).at w)
  continue-ok (err e, w) g w' c h k = cc

  -- When only the first of several steps writes a part of the tables.
  pub first_step :
      (m : Action A) (g : A → Action C) (w w' : World) (c : C)
      → (m >>= g) w ≡ (ok c, w')
      → ((a : A) → Keeps f (g a))
      → (a : A) × ((m w).0 ≡ ok a) × (f w'.tables ≡ f (m w).1.tables)
  unfolding ◌>>=◌
  first_step m g w w' c h k = continue-ok (m w) g w' c h k

module _ {A B : Type 0} {f : Tables → B} where
  -- A transaction rolls back or keeps what its body kept.
  pub transaction-Keeps : (m : Action A) → Keeps f m → Keeps f (transaction m)
  unfolding transaction
  transaction-Keeps m k = record { at = λ w. closed w (m (begin w)) (k.at (begin w)) }
    where
      closed :
          (w : World) (r : Result A × World)
          → f r.1.tables ≡ f w.tables
          → f (if w.env.fails w.tick then (err storage, next w) else close w.tables r).1.tables
            ≡ f w.tables
      closed w (ok a, w₁) e = ground (arith, e)
      closed w (err x, w₁) e = ground arith
