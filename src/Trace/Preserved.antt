-- ===== src/Trace/Preserved.antt =====
-- Refresh tokens: invariants along the steps of their table.
use identity_hub.Base.{
  Bool, Bytes, List, [], ap, arith, bytes_eq, bytes_eq_sound, count_where, exists_where, false,
  refl, sym, true, update_where, ℕ, ◌&&◌, ◌∙◌, ◌∷◌, ◌≡◌, ◌≤◌,
}
use identity_hub.World.{RefreshRow}
use identity_hub.Sql.Sessions.{is_fresh, violates}
use identity_hub.Trace.Steps.{
  Revokes, Spent, Step, Steps, WellFormed, end, in_family_fresh, insert, next_step, stay,
}

abbrev has_hash : Bytes → RefreshRow → Bool
has_hash hash r = bytes_eq r.token_hash hash

abbrev fresh_hash : Bytes → RefreshRow → Bool
fresh_hash hash r = bytes_eq r.token_hash hash && is_fresh r.status

module _ (p : RefreshRow → Bool) (f : RefreshRow → RefreshRow) (r : Revokes f) where
  stored-end :
      (hash : Bytes) (rows : List RefreshRow)
      → exists_where (has_hash hash) (update_where p f rows) ≡ exists_where (has_hash hash) rows
  stored-end hash [] = refl
  stored-end hash (q ∷ rows) = ground (arith, stored-end hash rows, r.keeps_hash q)

  stale-end :
      (hash : Bytes) (rows : List RefreshRow)
      → exists_where (fresh_hash hash) rows ≡ false
      → exists_where (fresh_hash hash) (update_where p f rows) ≡ false
  stale-end hash [] h = refl
  stale-end hash (q ∷ rows) h = ground (arith, stale-end hash rows, r.keeps_hash q, r.ends q)

  count_hash-end :
      (hash : Bytes) (rows : List RefreshRow)
      → count_where (has_hash hash) (update_where p f rows) ≡ count_where (has_hash hash) rows
  count_hash-end hash [] = refl
  count_hash-end hash (q ∷ rows) = ground (arith, count_hash-end hash rows, r.keeps_hash q)

  count_fresh-end :
      (family : ℕ) (rows : List RefreshRow)
      → count_where (in_family_fresh family) (update_where p f rows)
        ≤ count_where (in_family_fresh family) rows
  count_fresh-end family [] = omega arith
  count_fresh-end family (q ∷ rows) = ground (arith, count_fresh-end family rows, r.ends q)

none-count :
    (p : RefreshRow → Bool) (rows : List RefreshRow)
    → exists_where p rows ≡ false
    → count_where p rows ≡ 0
none-count p [] h = refl
none-count p (q ∷ rows) h = ground (arith, none-count p rows)

-- What an insertion that fits has excluded.
no_such_hash :
    (new : RefreshRow) (hash : Bytes) (rows : List RefreshRow)
    → violates new rows ≡ false
    → bytes_eq new.token_hash hash ≡ true
    → exists_where (has_hash hash) rows ≡ false
no_such_hash new hash rows fits e =
    ap (λ (h : Bytes). exists_where (has_hash h) rows) (sym (bytes_eq_sound new.token_hash hash e))
    ∙ ground (arith, fits)

no_fresh_of :
    (new : RefreshRow) (family : ℕ) (rows : List RefreshRow)
    → violates new rows ≡ false
    → new.family_id ≡ family
    → exists_where (in_family_fresh family) rows ≡ false
no_fresh_of new family rows fits e =
    ap (λ (f : ℕ). exists_where (in_family_fresh f) rows) (sym e) ∙ ground (arith, fits)

Step-Spent :
    (hash : Bytes) {rows rows' : List RefreshRow}
    → Step rows rows'
    → Spent hash rows
    → Spent hash rows'
Step-Spent hash {rows} (insert new fits) s = record {
  stored = ground (arith, s.stored);
  stale = ground (arith, s.stale, s.stored, no_such_hash new hash rows fits);
}
Step-Spent hash {rows} (end p f r) s = record {
  stored = stored-end p f r hash rows ∙ s.stored;
  stale = stale-end p f r hash rows s.stale;
}

Step-WellFormed :
    {rows rows' : List RefreshRow} → Step rows rows' → WellFormed rows → WellFormed rows'
Step-WellFormed {rows} (insert new fits) s = record {
  one_hash = λ hash.
      ground
        (arith, s.one_hash hash, no_such_hash new hash rows fits, none-count (has_hash hash) rows);
  one_fresh = λ family. ground (
    arith,
    s.one_fresh family,
    no_fresh_of new family rows fits,
    none-count (in_family_fresh family) rows,
  );
}
Step-WellFormed {rows} (end p f r) s = record {
  one_hash = λ hash. ground (arith, count_hash-end p f r hash rows, s.one_hash hash);
  one_fresh = λ family. ground (arith, count_fresh-end p f r family rows, s.one_fresh family);
}

-- A spent token stays spent through all steps.
pub Steps-Spent :
    (hash : Bytes) {rows rows' : List RefreshRow}
    → Steps rows rows'
    → Spent hash rows
    → Spent hash rows'
Steps-Spent hash stay h = h
Steps-Spent hash (next_step a s) h = Step-Spent hash s (Steps-Spent hash a h)

pub Steps-WellFormed :
    {rows rows' : List RefreshRow} → Steps rows rows' → WellFormed rows → WellFormed rows'
Steps-WellFormed stay h = h
Steps-WellFormed (next_step a s) h = Step-WellFormed s (Steps-WellFormed a h)
