-- ===== src/Auth/Sessions.antt =====
-- app/auth/sessions.py: the sessions of the table `session`, with the principals that Redis caches
-- for a minute. Times of the database and of Redis are in microseconds, each of its own clock.
-- A call's own commands run at one instant of Redis's clock, `clock`: `_cache_set` looks and writes at
-- once. The source says of a `_cache_set` that has looked before a sign-out and writes after it that
-- the race is inherent and accepted.
mod Table
pub mod Store
pub mod Laws
pub mod Ended
pub mod SignOut
unfoldable pub use Table.*
use practice_match.Prelude.{
  ℕ, ◌+◌, String, Bool, true, false, not, ◌&&◌, ◌||◌, Option, none, some, List, [], ◌∷◌, ◌++◌, any,
  keep, map, is_some, str_eq, ltb, leb, if◌then◌else◌,
}
use practice_match.Sql.{fetch_one, updated, moved}
use practice_match.Auth.Permissions.{Role, Kind, session, Principal}
use practice_match.Auth.Sessions.Store.{
  Cached, Tombstone, of_account, of_session, Command, set_principal, del_principal, set_stamp, sadd,
  srem, expire_index, del_index, Redis, cache_ttl,
}

module _ (redis : Redis) (clock : ℕ) where
  -- A batch of commands, sent in one MULTI.
  abbrev pub execute : List Command → redis.Store → redis.Store
  execute [] store = store
  execute (c ∷ cs) store = execute cs (redis.exec clock c store)

  unfoldable pub tombstoned_since : String → String → ℕ → redis.Store → Bool
  tombstoned_since account h loaded_at store =
      at_least loaded_at (redis.stamp (of_account account) clock store)
      || at_least loaded_at (redis.stamp (of_session h) clock store)

  unfoldable pub cache_set : Principal → ℕ → redis.Store → redis.Store
  unfolding tombstoned_since
  cache_set p loaded_at store =
      if tombstoned_since p.account_id (hash_of p) loaded_at store
      then store
      else execute
          (sadd p.account_id (hash_of p)
            ∷ expire_index p.account_id
            ∷ set_principal (hash_of p) (encoded p) cache_ttl
            ∷ [])
          store

  unfoldable pub resolve_cached : String → redis.Store → Option Principal
  resolve_cached h store = cached_principal h (redis.principal h store)

  unfoldable pub prune_index : String → Db → redis.Store → redis.Store
  prune_index h db store = elim (fetch_one (keep (has_hash h) db.sessions)) [
    | none ↦ store
    | some row ↦ redis.exec clock (srem row.account_id h) store
  ]

  abbrev pub resolve_loaded :
      Option Principal → ℕ → String → Db → redis.Store → redis.Store × Option Principal
  resolve_loaded (some p) loaded_at h db store = (cache_set p loaded_at store, some p)
  resolve_loaded none loaded_at h db store = (prune_index h db store, none)

  abbrev pub resolve_missed :
      Option Principal → ℕ → ℕ → String → Db → redis.Store → redis.Store × Option Principal
  resolve_missed (some p) now loaded_at h db store = (store, some p)
  resolve_missed none now loaded_at h db store = resolve_loaded (load now h db) loaded_at h db store

  -- `loaded_at` is the clock of Redis before the read of the database.
  unfoldable pub resolve : ℕ → ℕ → String → Db → redis.Store → redis.Store × Option Principal
  unfolding resolve_cached load cache_set prune_index
  resolve now loaded_at h db store =
      resolve_missed (resolve_cached h store) now loaded_at h db store

  unfoldable pub set_reauth : ℕ → Principal → Db → redis.Store → Db × redis.Store
  set_reauth now p db store = (
    in_sessions (updated (has_hash (hash_of p)) (λ row. record row { reauth_at = some now })) db,
    redis.exec clock (del_principal (hash_of p)) store,
  )

  abbrev unindex : Option String → String → List Command
  unindex none h = []
  unindex (some account) h = srem account h ∷ []

  unfoldable pub revoke_cache : String → Option String → ℕ → redis.Store → redis.Store
  revoke_cache h account stamp store =
      execute (del_principal h ∷ set_stamp (of_session h) stamp cache_ttl ∷ unindex account h) store

  unfoldable pub invalidate_account : String → ℕ → redis.Store → redis.Store
  invalidate_account account stamp store =
      execute
        (del_index account ∷ map del_principal (redis.members account store)
          ++ set_stamp (of_account account) stamp cache_ttl ∷ [])
        store

  abbrev pub doomed : List String → List String → List String → List String
  doomed indexed revoked kept = keep (λ h. not (contains h kept)) (indexed ++ revoked)

  unfoldable pub revoke_all_cache :
      String → List String → List String → ℕ → redis.Store → redis.Store
  revoke_all_cache account revoked kept stamp store =
      let hs = doomed (redis.members account store) revoked kept in
      execute
        (map del_principal hs
          ++ (map (srem account) hs
              ++ (map (λ h. set_stamp (of_session h) stamp cache_ttl) hs
                  ++ set_stamp (of_account account) stamp cache_ttl ∷ [])))
        store

  -- The hash of the new secret is the argument.
  unfoldable pub create :
      ℕ
      → ℕ
      → String
      → String
      → Option String
      → Option String
      → Account
      → Db
      → redis.Store
      → Db × redis.Store
  unfolding cache_set
  create now loaded_at h account_id ip user_agent account db store =
      let row : SessionRow = record {
        id_hash = h;
        account_id = account_id;
        last_seen_at = now;
        expires_at = now + absolute;
        revoked_at = none;
        reauth_at = none;
        ip = ip;
        user_agent = user_agent;
      } in
      (in_sessions (λ rows. row ∷ rows) db, cache_set (loaded h row account) loaded_at store)
