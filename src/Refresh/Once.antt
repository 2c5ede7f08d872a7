-- ===== src/Refresh/Once.antt =====
-- refresh.go: a rotation and its token.
use identity_hub.Base.{
  Bool, Bytes, List, Option-cases, [], arith, bytes_eq, count_where, exists_where, false, find,
  find-exists_where, find-update_where, find_sound, inl, inr, ltb, refl, some, true, update_where,
  ℕ, ◌&&◌, ◌==◌, ◌∷◌, ◌≡◌, ◌≢◌, ◌≤◌,
}
use identity_hub.World.{RefreshRow, Tables, User, World, ok}
use identity_hub.Sql.Sessions.{
  NewToken, Rotated, is_candidate, is_fresh, mark_rotated, rotate_refresh_token, successor,
}
use identity_hub.Refresh.{Input, Service, Session, refresh}
use identity_hub.Refresh.Reuse.{refresh-attempt, successor_differs}
use identity_hub.Trace.Steps.{Spent, WellFormed}

pub rotated-fresh :
    (hash : Bytes) (new : NewToken) (id at : ℕ) (t t' : Tables) (row : Rotated)
    → rotate_refresh_token hash new id at t ≡ (ok row, t')
    → row.rotated_now ≡ true
    → (c : RefreshRow) × (find (is_candidate hash t.users) t.refresh_tokens ≡ some c)
      × ((is_fresh c.status && ltb at c.expires_at) ≡ true)
unfolding rotate_refresh_token
rotated-fresh hash new id at t t' row h turned =
    elim (Option-cases (find (is_candidate hash t.users) t.refresh_tokens)) [
      | inl e ↦ ground arith
      | inr (c, e) ↦ (c, e, ground arith)
    ]

abbrev has_hash : Bytes → RefreshRow → Bool
has_hash hash r = bytes_eq r.token_hash hash

abbrev fresh_hash : Bytes → RefreshRow → Bool
fresh_hash hash r = bytes_eq r.token_hash hash && is_fresh r.status

-- A spent token is refused, whatever fails.
pub Spent-refresh :
    (s : Service) (input : Input) (raw : Bytes) (v v' : World) (session : Session)
    → s.ext.decode input.refresh_token ≡ some raw
    → Spent (s.ext.sha256 raw) v.tables.refresh_tokens
    → refresh s input v ≢ (ok session, v')
Spent-refresh s input raw v v' session d spent h =
    let (row, made, turned) = refresh-attempt s input raw v v' session d h in
    let (c, found, usable) = rotated-fresh _ _ _ _ v.tables v'.tables row made turned in
    let hash =
      find_sound (is_candidate (s.ext.sha256 raw) v.tables.users) v.tables.refresh_tokens c found in
    ground (
      arith,
      spent.stale,
      hash,
      usable,
      find-exists_where (is_candidate (s.ext.sha256 raw) v.tables.users)
          (fresh_hash (s.ext.sha256 raw)) v.tables.refresh_tokens c found,
    )

absent-stale :
    (hash : Bytes) (p : RefreshRow → Bool) (at : ℕ) (rows : List RefreshRow)
    → count_where (has_hash hash) rows ≡ 0
    → exists_where (fresh_hash hash) (update_where p (mark_rotated at) rows) ≡ false
absent-stale hash p at [] h = refl
absent-stale hash p at (q ∷ rows) h = ground (arith, absent-stale hash p at rows)

found-count :
    (hash : Bytes) (us : List User) (rows : List RefreshRow) (c : RefreshRow)
    → find (is_candidate hash us) rows ≡ some c
    → 1 ≤ count_where (has_hash hash) rows
found-count hash us [] c f = ground arith
found-count hash us (q ∷ rows) c f = ground (arith, found-count hash us rows c)

marked-stale :
    (hash : Bytes) (us : List User) (at : ℕ) (rows : List RefreshRow) (c : RefreshRow)
    → find (is_candidate hash us) rows ≡ some c
    → count_where (has_hash hash) rows ≤ 1
    → exists_where (fresh_hash hash) (update_where (λ r. r.id == c.id) (mark_rotated at) rows)
      ≡ false
marked-stale hash us at [] c f one = refl
marked-stale hash us at (q ∷ rows) c f one = ground (
  arith,
  marked-stale hash us at rows c,
  found-count hash us rows c,
  absent-stale hash (λ (r : RefreshRow). r.id == c.id) at rows,
)

-- The token that a rotation took.
rotated-Spent :
    (hash : Bytes) (new : NewToken) (id at : ℕ) (t t' : Tables) (row : Rotated)
    → rotate_refresh_token hash new id at t ≡ (ok row, t')
    → row.rotated_now ≡ true
    → WellFormed t.refresh_tokens
    → Spent hash t'.refresh_tokens
unfolding rotate_refresh_token
rotated-Spent hash new id at t t' row h turned fine =
    elim (Option-cases (find (is_candidate hash t.users) t.refresh_tokens)) [
      | inl e ↦ ground arith
      | inr (c, e) ↦
          let rows =
            update_where (λ (r : RefreshRow). r.id == c.id) (mark_rotated at) t.refresh_tokens in
          let made : t'.refresh_tokens ≡ successor id c new at ∷ rows = ground arith in
          let there =
            find-exists_where (is_candidate hash t.users) (has_hash hash) rows
              (mark_rotated at c) in
          let moved =
            find-update_where (is_candidate hash t.users) (λ (r : RefreshRow). r.id == c.id)
              (mark_rotated at) t.refresh_tokens c (λ r. refl) e in
          let hit = find_sound (is_candidate hash t.users) t.refresh_tokens c e in
          record {
            stored = ground (arith, made, there, moved, hit);
            stale = ground (
              arith,
              made,
              fine.one_hash hash,
              marked-stale hash t.users at t.refresh_tokens c e,
              successor_differs c hash new id at t.users t.refresh_tokens e,
            );
          }
    ]

pub refresh-Spent :
    (s : Service) (input : Input) (raw : Bytes) (w w' : World) (session : Session)
    → s.ext.decode input.refresh_token ≡ some raw
    → WellFormed w.tables.refresh_tokens
    → refresh s input w ≡ (ok session, w')
    → Spent (s.ext.sha256 raw) w'.tables.refresh_tokens
refresh-Spent s input raw w w' session d fine h =
    let (row, made, turned) = refresh-attempt s input raw w w' session d h in
    rotated-Spent _ _ _ _ w.tables w'.tables row made turned fine
