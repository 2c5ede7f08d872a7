-- ===== src/Invitation/Accepted.antt =====
-- invitation.go: Invite and Accept, and the tables that a failure leaves.
use identity_hub.Base.{Bytes, Option-cases, arith, inl, inr, ◌≡◌}
use identity_hub.World.{Error, Result-cases, World, err, transaction-err, ◌>>=◌}
use identity_hub.Sql.Reset.{invitation_token_is_usable}
use identity_hub.Invitation.{
  Input, Service, accept, accept_usable, consume_and_publish, usable_token_hash, validate_input,
}

-- A transaction that failed leaves every table as it was.
pub accept_usable_rolls_back :
    (s : Service) (input : Input) (token_hash : Bytes) (w : World) (e : Error)
    → (accept_usable s input token_hash w).0 ≡ err e
    → (accept_usable s input token_hash w).1.tables ≡ w.tables
unfolding accept_usable ◌>>=◌
accept_usable_rolls_back s input token_hash w e h =
    elim (Option-cases (s.ext.hash input.password)) [
      | inl f ↦ ground arith
      | inr (hash, f) ↦
          ground (arith, transaction-err (consume_and_publish input token_hash hash) w e)
    ]

usable-tables :
    (s : Service) (token : Bytes) (w : World) → (usable_token_hash s token w).1.tables ≡ w.tables
unfolding usable_token_hash ◌>>=◌ invitation_token_is_usable
usable-tables s token w = elim (Option-cases (s.ext.decode token)) [
  | inl f ↦ ground arith
  | inr (raw, f) ↦ ground arith
]

-- When accepting an invitation fails, whatever the reason, a failed publication among them, every
-- table is as it was.
pub accept_rolls_back :
    (s : Service) (input : Input) (w : World) (e : Error)
    → (accept s input w).0 ≡ err e
    → (accept s input w).1.tables ≡ w.tables
unfolding accept ◌>>=◌
accept_rolls_back s input w e h = elim (Result-cases (validate_input s input)) [
  | inr (x, f) ↦ ground arith
  | inl (u, f) ↦ elim (Result-cases (usable_token_hash s input.token w).0) [
    | inr (x, g) ↦ ground (arith, usable-tables s input.token w)
    | inl (token_hash, g) ↦ ground (
      arith,
      usable-tables s input.token w,
      accept_usable_rolls_back s input token_hash (usable_token_hash s input.token w).1 e,
    )
  ]
]
