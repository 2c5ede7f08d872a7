-- ===== src/World/Laws.antt =====
-- Inversion of actions that succeed, and failed transactions.
use identity_hub.Base.{Bool-cases, arith, inl, inr, refl, ◌≡◌}
use identity_hub.World.Failure.{Error, Result, Result-cases, err, ok}
use identity_hub.World.Effects.{
  Action, Query, World, begin, continue, next, pure, statement, transaction, ◌>>=◌,
}

module _ {A : Type 0} where
  -- A transaction that succeeds has run its body to the end, and keeps what the body did.
  pub transaction-ok :
      (body : Action A) (w w' : World) (a : A)
      → transaction body w ≡ (ok a, w')
      → (w₁ : World) × (body (begin w) ≡ (ok a, w₁)) × (w' ≡ next w₁)
  unfolding transaction
  transaction-ok body w w' a h = elim (Result-cases (body (begin w)).0) [
    | inl (b, e) ↦ ((body (begin w)).1, ground arith, ground arith)
    | inr (e, f) ↦ ground arith
  ]

  -- A transaction that fails, in its body or at the commit, leaves the tables alone.
  pub transaction-err :
      (body : Action A) (w : World) (e : Error)
      → (transaction body w).0 ≡ err e
      → (transaction body w).1.tables ≡ w.tables
  unfolding transaction
  transaction-err body w e h = ground arith

  -- A statement that succeeds ran on the tables as they were.
  pub statement-ok :
      (q : Query A) (w w' : World) (a : A)
      → statement q w ≡ (ok a, w')
      → (q w.tx_now w.tables ≡ (ok a, w'.tables)) × (w'.tx_now ≡ w.tx_now)
  unfolding statement
  statement-ok q w w' a h = elim (Bool-cases (w.env.fails w.tick)) [
    | inl e ↦ ground arith
    | inr e ↦ (ground arith, ground arith)
  ]

continue-ok :
    {A B : Type 0} (r : Result A × World) (f : A → Action B) (w' : World) (b : B)
    → continue r f ≡ (ok b, w')
    → (a : A) × (w₁ : World) × (r ≡ (ok a, w₁)) × (f a w₁ ≡ (ok b, w'))
continue-ok (ok a, w) f w' b h = (a, w, refl, h)
continue-ok (err e, w) f w' b h = cc

-- An action in two steps that succeeds: both did.
pub bind-ok :
    {A B : Type 0} (m : Action A) (f : A → Action B) (w w' : World) (b : B)
    → (m >>= f) w ≡ (ok b, w')
    → (a : A) × (w₁ : World) × (m w ≡ (ok a, w₁)) × (f a w₁ ≡ (ok b, w'))
unfolding ◌>>=◌
bind-ok m f w w' b h = continue-ok (m w) f w' b h

pub pure-ok :
    {A : Type 0} (a : A) (w w' : World) (b : A)
    → pure a w ≡ (ok b, w')
    → (a ≡ b) × (w'.tables ≡ w.tables)
unfolding pure
pure-ok a w w' b h = (ground arith, ground arith)
