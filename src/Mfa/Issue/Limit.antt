-- ===== src/Mfa/Issue/Limit.antt =====
-- mfa.go, Issue: the challenges of an account before and after.
use identity_hub.Base.{
  List, [], arith, count_where, find, leb, refl, some, true, update_where, ℕ, ◌&&◌, ◌-◌, ◌<◌, ◌==◌,
  ◌∷◌, ◌≡◌,
}
use identity_hub.World.{ChallengeRow, World, ok, ◌>>=◌}
use identity_hub.Sql.Audit.{insert_audit_event}
use identity_hub.Sql.Mfa.{
  count_mfa_challenges_since, create_mfa_challenge, is_open, is_open_of,
  lock_mfa_challenge_issuance, supersede_open_mfa_challenges, use_at,
}
use identity_hub.Mfa.{issuance_window, max_issuances_per_window}
use identity_hub.Mfa.Issue.{store_challenge}

superseded_none :
    (user_id at : ℕ) (rows : List ChallengeRow)
    → count_where (is_open_of user_id) (update_where (is_open_of user_id) (use_at at) rows) ≡ 0
superseded_none user_id at [] = refl
superseded_none user_id at (c ∷ cs) = ground (arith, superseded_none user_id at cs)

-- When storeChallenge succeeds for a row of the account that is open, the account had fewer challenges
-- than the limit in the window, and afterwards it has exactly one open challenge, the new one.
pub store_challenge_lem :
    (user_id at : ℕ) (row : ChallengeRow) (w w' : World) (u : Unit {0})
    → row.user_id ≡ user_id
    → is_open row ≡ true
    → store_challenge user_id row at w ≡ (ok u, w')
    → (count_where
          (λ c. c.user_id == user_id && leb (at - issuance_window) c.created_at)
          w.tables.mfa_challenges
        < max_issuances_per_window)
      × (count_where (is_open_of user_id) w'.tables.mfa_challenges ≡ 1)
      × (find (is_open_of user_id) w'.tables.mfa_challenges ≡ some row)
unfolding store_challenge ◌>>=◌ lock_mfa_challenge_issuance count_mfa_challenges_since
    supersede_open_mfa_challenges create_mfa_challenge insert_audit_event
store_challenge_lem user_id at row w w' u mine open_ h =
    let none_open = superseded_none user_id at w.tables.mfa_challenges in
    (ground arith, ground arith, ground arith)
