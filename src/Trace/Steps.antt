-- ===== src/Trace/Steps.antt =====
-- The table refresh_tokens as a machine: the steps that its statements take.
use identity_hub.Base.{
  Bool, Bytes, List, bytes_eq, count_where, exists_where, false, true, update_where, ℕ, ◌&&◌, ◌==◌,
  ◌∷◌, ◌≡◌, ◌≤◌,
}
use identity_hub.World.{RefreshRow}
use identity_hub.Sql.Sessions.{is_fresh, violates}

abbrev pub in_family_fresh : ℕ → RefreshRow → Bool
in_family_fresh family r = r.family_id == family && is_fresh r.status

-- An update that revokes rows, and may write other columns of theirs than these three.
pub record Revokes (f : RefreshRow → RefreshRow) : Type 0 where
  pub keeps_hash : (r : RefreshRow) → (f r).token_hash ≡ r.token_hash
  pub keeps_family : (r : RefreshRow) → (f r).family_id ≡ r.family_id
  pub ends : (r : RefreshRow) → is_fresh (f r).status ≡ false

-- A new token, in a table without its hash and without a fresh token of its family; or rows that
-- end.
pub data Step (rows : List RefreshRow) : List RefreshRow → Type 0 where
  insert : (new : RefreshRow) → violates new rows ≡ false → Step rows (new ∷ rows)
  end :
      (p : RefreshRow → Bool) (f : RefreshRow → RefreshRow)
      → Revokes f
      → Step rows (update_where p f rows)

pub data Steps (rows : List RefreshRow) : List RefreshRow → Type 0 where
  stay : Steps rows rows
  next_step : {mid last : List RefreshRow} → Steps rows mid → Step mid last → Steps rows last

pub Steps-trans :
    {rows mid last : List RefreshRow} → Steps rows mid → Steps mid last → Steps rows last
Steps-trans a stay = a
Steps-trans a (next_step b s) = next_step (Steps-trans a b) s

-- A token with this hash is stored, and none with it is fresh.
pub record Spent (hash : Bytes) (rows : List RefreshRow) : Type 0 where
  pub stored : exists_where (λ (r : RefreshRow). bytes_eq r.token_hash hash) rows ≡ true
  pub stale :
      exists_where (λ (r : RefreshRow). bytes_eq r.token_hash hash && is_fresh r.status) rows
      ≡ false

-- No hash stands twice, and no family has two fresh tokens.
pub record WellFormed (rows : List RefreshRow) : Type 0 where
  pub one_hash :
      (hash : Bytes) → count_where (λ (r : RefreshRow). bytes_eq r.token_hash hash) rows ≤ 1
  pub one_fresh : (family : ℕ) → count_where (in_family_fresh family) rows ≤ 1
