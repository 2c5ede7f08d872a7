-- ===== src/Mfa/Resend/Restore.antt =====
-- mfa.go, Resend: restoring the former code.
use identity_hub.Base.{
  All, Bool-cases, Bytes, List, [], ap, arith, bytes_eq_refl, false, if◌then◌else◌, inl, inr, refl,
  true, update_where, ℕ, ◌∙◌, ◌∷◌, ◌≡◌,
}
use identity_hub.World.{ChallengeRow, Tables}
use identity_hub.Sql.Mfa.{
  is_open_id, is_resent, recode, resend_mfa_challenge, restore_mfa_challenge,
}

abbrev pub IsSent : ℕ → Bytes → ℕ → ChallengeRow → Type 0
IsSent id code_hash sent_at c =
    is_open_id id c ≡ true → (c.code_hash ≡ code_hash) × (c.last_sent_at ≡ sent_at)

recode_back :
    (new previous : Bytes) (sent_at previous_sent_at : ℕ) (c : ChallengeRow)
    → c.code_hash ≡ previous
    → c.last_sent_at ≡ previous_sent_at
    → recode previous previous_sent_at (recode new sent_at c) ≡ c
recode_back new previous sent_at previous_sent_at c h k = ground arith

restore_row :
    (id : ℕ) (new previous : Bytes) (sent_at previous_sent_at : ℕ) (c d : ChallengeRow)
    → IsSent id previous previous_sent_at c
    → is_resent id new sent_at c ≡ false
    → d ≡ (if is_open_id id c then recode new sent_at c else c)
    → (if is_resent id new sent_at d then recode previous previous_sent_at d else d) ≡ c
restore_row id new previous sent_at previous_sent_at c d h k e =
    elim (Bool-cases (is_open_id id c)) [
      | inr f ↦ ground arith
      | inl f ↦ ground (
        arith,
        bytes_eq_refl new,
        recode_back new previous sent_at previous_sent_at c (h f).0 (h f).1,
      )
    ]

restore_rows :
    (id : ℕ) (new previous : Bytes) (sent_at previous_sent_at : ℕ) (rows : List ChallengeRow)
    → All (IsSent id previous previous_sent_at) rows
    → All (λ c. is_resent id new sent_at c ≡ false) rows
    → update_where
        (is_resent id new sent_at)
        (recode previous previous_sent_at)
        (update_where (is_open_id id) (recode new sent_at) rows)
      ≡ rows
restore_rows id new previous sent_at previous_sent_at [] h k = refl
restore_rows id new previous sent_at previous_sent_at (c ∷ cs) h k =
    ap {B = List ChallengeRow}
      (λ (d : ChallengeRow).
        d
        ∷ update_where (is_resent id new sent_at) (recode previous previous_sent_at)
            (update_where (is_open_id id) (recode new sent_at) cs))
      (restore_row id new previous sent_at previous_sent_at c _ h.0 k.0 refl)
    ∙ ap {B = List ChallengeRow} (λ (ds : List ChallengeRow). c ∷ ds)
        (restore_rows id new previous sent_at previous_sent_at cs h.1 k.1)

-- Restoring an undelivered resend undoes it: when every open challenge with the id has the previous
-- code's hash and sending time, and no challenge was marked as resent before, the challenges are again
-- those that the resend found, whatever the times of the two statements.
pub restore-resend :
    (id : ℕ) (new previous : Bytes) (sent_at previous_sent_at at later : ℕ) (t : Tables)
    → All (IsSent id previous previous_sent_at) t.mfa_challenges
    → All (λ c. is_resent id new sent_at c ≡ false) t.mfa_challenges
    → (restore_mfa_challenge id new previous sent_at previous_sent_at later
        (resend_mfa_challenge id new sent_at at t).1).1.mfa_challenges
      ≡ t.mfa_challenges
unfolding restore_mfa_challenge resend_mfa_challenge
restore-resend id new previous sent_at previous_sent_at at later t h k =
    restore_rows id new previous sent_at previous_sent_at t.mfa_challenges h k
