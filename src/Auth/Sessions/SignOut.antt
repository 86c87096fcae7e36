-- ===== src/Auth/Sessions/SignOut.antt =====
-- app/auth/sessions.py: the two halves of "sign out everywhere" together.
use practice_match.Prelude.{
  ℕ, String, ◌≡◌, true, false, Option, none, some, List, All, str_eq, ap, sym, ◌∙◌,
}
use practice_match.Auth.Permissions.{Principal}
use practice_match.Auth.Sessions.{
  Db, load, contains, doomed, revoke_all, revoke_all_cache, resolve, resolve_cached, resolve_missed,
  resolve_loaded,
}
use practice_match.Auth.Sessions.Store.{Redis}
use practice_match.Auth.Sessions.Laws.{arrive, Arrival, is_late, revoke_all_cache-stays_out}
use practice_match.Auth.Sessions.Ended.{revoke_all-load}

module _ (redis : Redis) (clock now loaded_at : ℕ) (h : String) (db : Db) (s : redis.Store) where
  -- A session that is not in the cache is answered as the database has it.
  resolve-missed :
      (p : Principal)
      → resolve_cached redis clock h s ≡ none
      → (resolve redis clock now loaded_at h db s).1 ≡ some p
      → load now h db ≡ some p
  unfolding resolve
  resolve-missed p missed e =
      let missed' = ap (λ o. (resolve_missed redis clock o now loaded_at h db s).1) missed in
      loaded (load now h db) (sym missed' ∙ e)
    where
      loaded :
          (found : Option Principal)
          → (resolve_loaded redis clock found loaded_at h db s).1 ≡ some p
          → found ≡ some p
      loaded none e = absurd (cc e)
      loaded (some q) e = e

-- "Sign out everywhere": after `revoke_all` in the database and then `revoke_all_cache` in Redis, for
-- an account and with the hashes that `revoke_all` named, a session that this clears (one in the
-- account's index or named, and not kept) is resolved, at any time, to nobody of that account, whatever
-- `_cache_set` calls run in between in the 60 seconds in which the account's tombstone lives, as long
-- as each one of that session has a principal that was read, of that account, no later than the
-- tombstone. (A call that had looked for the tombstone before it was there is not among them.)
pub sign_out_everywhere :
    (redis : Redis) (h account : String) (stamp since at clock now loaded_at : ℕ) (db : Db)
    (kept : List String) (s : redis.Store) (ps : List (Arrival redis h account stamp since))
    (p : Principal)
    → contains h (doomed redis since (redis.members account s) (revoke_all at account db).1 kept)
      ≡ true
    → All (λ q. is_late redis h account stamp since q ≡ true) ps
    → (resolve redis clock now loaded_at h (revoke_all at account db).0 (
        arrive redis h account stamp since ps
          (revoke_all_cache redis since account (revoke_all at account db).1 kept stamp s))).1
      ≡ some p
    → str_eq p.account_id account ≡ false
sign_out_everywhere redis h account stamp since at clock now loaded_at db kept s ps p cleared late
      e =
    let out =
      revoke_all_cache-stays_out redis h account stamp since (revoke_all at account db).1 kept s ps
        clock cleared late in
    revoke_all-load at now h account db p (resolve-missed redis clock now loaded_at h _ _ p out e)
