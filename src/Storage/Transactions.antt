-- ===== src/Storage/Transactions.antt =====
-- pgx.BeginFunc as the methods of Store use it: its ends, and what an error leaves open.
use empower_technical_interv.Prelude.{◌≡◌, refl, ◌⊎◌, inl, inr, Option-cases}
use empower_technical_interv.Errors.{Error, Result, ok, err}
use empower_technical_interv.Storage.Tables.{
  Db, Network, Commit, Tx, committed, refused, in_doubt, settle, begin_func,
}

-- How a transaction with the result `r` ended: nothing was written and the caller has an error, or
-- the body's writes are there, and the caller has its value or the error of a commit in doubt.
abbrev pub Ended : {P A : Type 0} → Network → Db P → Result (A × Db P) → Result A × Db P → Type 0
Ended {P} {A} n db body (r, after) =
    ((after ≡ db) × ((e : Error) × (r ≡ err e)))
    ⊎ ((a : A) × (body ≡ ok (a, after))
        × ((r ≡ ok a) ⊎ ((e : Error) × (n.commit ≡ in_doubt e) × (r ≡ err e))))

pub settle-Ended :
    {P A : Type 0} (n : Network) (db : Db P) (body : Result (A × Db P))
    → Ended n db body (settle n.commit db body)
settle-Ended n db (err e) = inl (refl, (e, refl))
settle-Ended n db (ok (a, after)) = at_commit n.commit refl
  where
    at_commit :
        (c : Commit)
        → n.commit ≡ c
        → Ended n db (ok (a, after)) (settle n.commit db (ok (a, after)))
    at_commit committed e = rw e (inr (a, refl, inl refl))
    at_commit (refused f) e = rw e (inl (refl, (f, refl)))
    at_commit (in_doubt f) e = rw e (inr (a, refl, inr (f, refl, refl)))

pub begin_func-Ended :
    {P A : Type 0} (n : Network) (body : Tx P A) (db : Db P)
    → Ended n db (body db) (begin_func n body db)
unfolding begin_func
begin_func-Ended n body db = elim (Option-cases n.begin) [
  | inr (e, failed) ↦ rw (failed, begin_func) (inl (refl, (e, refl)))
  | inl fine ↦ rw (fine, begin_func) (settle-Ended n db (body db))
]
