-- ===== src/Auth/Sessions/Ended.antt =====
-- app/auth/sessions.py: what `revoke_all` leaves in the table.
use practice_match.Prelude.{
  ℕ, String, ◌≡◌, refl, true, false, not, ◌&&◌, ◌||◌, Option, none, some, List, [], ◌∷◌, keep,
  is_some, str_eq, All, Bool-cases, Option-cases, inl, inr, arith, ap, sym,
}
use practice_match.Sql.{fetch_one, updated}
use practice_match.Sql.Unique.{fetch_one-All}
use practice_match.Auth.Permissions.{Principal}
use practice_match.Auth.Sessions.{
  SessionRow, Db, load, joined, loaded, account_of, revoke_all, is_live, has_hash, is_open, ended,
}

module _ (account : String) where
  abbrev Closed : SessionRow → Type 0
  Closed row = (not (str_eq row.account_id account) || is_some row.revoked_at) ≡ true

  updated-Closed :
      (at : ℕ) (rows : List SessionRow) → All Closed (updated (is_open account) (ended at) rows)
  updated-Closed at [] = tt
  updated-Closed at (row ∷ rows) = elim (Bool-cases (is_open account row)) [
    | inl e ↦ rw e (ground arith, updated-Closed at rows)
    | inr e ↦ rw e (ground arith, updated-Closed at rows)
  ]

  found-other :
      (now : ℕ) (h : String) (rows : List SessionRow)
      → All Closed rows
      → (row : SessionRow)
      → fetch_one (keep (λ row. has_hash h row && is_live now row) rows) ≡ some row
      → str_eq row.account_id account ≡ false
  found-other now h rows c row e =
      let (off, on) =
        fetch_one-All Closed (λ row. has_hash h row && is_live now row) rows row c e in
      ground arith

  joined-account :
      (h : String) (db : Db) (row : Option SessionRow) (p : Principal)
      → joined h db row ≡ some p
      → (r : SessionRow) × (row ≡ some r) × (p.account_id ≡ r.account_id)
  joined-account h db none p e = absurd (cc e)
  joined-account h db (some row) p e = elim (Option-cases (account_of row.account_id db)) [
    | inl missing ↦ absurd (cc (rw (missing, joined) at e))
    | inr (account, found) ↦
        let same : some (loaded h row account) ≡ some p = rw (found, joined) at e in
        (row, refl, sym (ap (λ o. elim o [ none ↦ row.account_id | some q ↦ q.account_id ]) same))
  ]

-- "Sign out everywhere", as the database sees it: once `revoke_all` has run for an account, a session
-- that still loads, whichever it is and whenever it is read, is another account's.
pub revoke_all-load :
    (at now : ℕ) (h account : String) (db : Db) (p : Principal)
    → load now h ((revoke_all at account db).0) ≡ some p
    → str_eq p.account_id account ≡ false
unfolding load revoke_all
revoke_all-load at now h account db p e =
    let rows = updated (is_open account) (ended at) db.sessions in
    let (row, found, same) = joined-account account h (record db { sessions = rows }) _ p e in
    rw same (found-other account now h rows (updated-Closed account at db.sessions) row found)
