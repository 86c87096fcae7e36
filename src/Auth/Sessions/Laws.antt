-- ===== src/Auth/Sessions/Laws.antt =====
-- app/auth/sessions.py: a session that has been ended is not answered from the cache again.
use practice_match.Prelude.{
  ℕ, String, ◌≡◌, refl, Bool, true, false, not, ◌&&◌, ◌||◌, none, some, List, [], ◌∷◌, ◌++◌, map,
  str_eq, leb, All, Bool-cases, inl, inr, arith, eq_iff, ◌∙◌, sym,
}
use practice_match.Auth.Permissions.{Principal}
use practice_match.Auth.Sessions.{
  execute, tombstoned_since, cache_set, resolve_cached, revoke_all_cache, hash_of, contains, doomed,
  encoded,
}
use practice_match.Auth.Sessions.Store.{
  of_account, of_session, Command, set_principal, del_principal, set_stamp, sadd, srem, Redis,
  lives, cache_ttl, writes_principal, writes_stamp, expire_index, del_index,
}

-- `stamp` is what the tombstone says, `since` the instant at which it is written.
module _ (redis : Redis) (h account : String) (stamp since : ℕ) where
  -- The session is out of the cache, and the account's tombstone, while it lives, says since when.
  abbrev pub IsOut : redis.Store → Type 0
  IsOut s =
      (redis.principal h s ≡ none)
      × ((at : ℕ)
          → lives since cache_ttl at ≡ true
          → redis.stamp (of_account account) at s ≡ some stamp)

  -- A principal on its way to the cache, read when Redis's clock was `loaded_at`: of another
  -- session, or of this account and read no later than the tombstone's stamp.
  abbrev pub overtaken : Principal → ℕ → Bool
  overtaken p loaded_at =
      not (str_eq (hash_of p) h) || str_eq p.account_id account && leb loaded_at stamp

  -- A principal, when it was read, and when it arrives.
  abbrev pub Arrival : Type 0
  Arrival = Principal × ℕ × ℕ

  -- It arrives while the tombstone lives, and `overtaken`.
  abbrev pub is_late : Arrival → Bool
  is_late (p, loaded_at, at) = overtaken p loaded_at && lives since cache_ttl at

  -- The principals that arrive afterwards, in their order.
  unfoldable pub arrive : List Arrival → redis.Store → redis.Store
  arrive [] s = s
  arrive ((p, loaded_at, at) ∷ rest) s = arrive rest (cache_set redis at p loaded_at s)

  abbrev keeps_out : Command → Bool
  keeps_out c = not (writes_principal h c) && not (writes_stamp (of_account account) c)

  exec-IsOut :
      (now : ℕ) (c : Command) (s : redis.Store)
      → keeps_out c ≡ true
      → IsOut s
      → IsOut (redis.exec now c s)
  exec-IsOut now c s e (out, stamped) = (
    redis.principal-other h c now s (ground arith) ∙ out,
    λ at l. redis.stamp-other (of_account account) c now at s (ground arith) ∙ stamped at l,
  )

  account-tombstoned :
      (p : Principal) (loaded_at at : ℕ) (s : redis.Store)
      → p.account_id ≡ account
      → leb loaded_at stamp ≡ true
      → lives since cache_ttl at ≡ true
      → IsOut s
      → tombstoned_since redis at p.account_id (hash_of p) loaded_at s ≡ true
  unfolding tombstoned_since
  account-tombstoned p loaded_at at s same late l out = rw (same, out.1 at l, late) refl

  cache_set-same :
      (p : Principal) (loaded_at at : ℕ) (s : redis.Store)
      → tombstoned_since redis at p.account_id (hash_of p) loaded_at s ≡ true
      → cache_set redis at p loaded_at s ≡ s
  unfolding cache_set
  cache_set-same p loaded_at at s e = rw e refl

  -- `hash_of p` is another session's.
  cache_set-other :
      (p : Principal) (loaded_at at : ℕ) (s : redis.Store)
      → str_eq (hash_of p) h ≡ false
      → IsOut s
      → IsOut (cache_set redis at p loaded_at s)
  unfolding cache_set
  cache_set-other p loaded_at at s other out =
      elim (Bool-cases (tombstoned_since redis at p.account_id (hash_of p) loaded_at s)) [
        | inl e ↦ rw e out
        | inr e ↦ rw e (
            exec-IsOut at (set_principal (hash_of p) (encoded p) cache_ttl) _ (rw other refl) (
              exec-IsOut at (expire_index p.account_id) _ refl
                (exec-IsOut at (sadd p.account_id (hash_of p)) s refl out)))
      ]

  cache_set-IsOut :
      (p : Principal) (loaded_at at : ℕ) (s : redis.Store)
      → is_late (p, loaded_at, at) ≡ true
      → IsOut s
      → IsOut (cache_set redis at p loaded_at s)
  cache_set-IsOut p loaded_at at s e out = elim (Bool-cases (str_eq (hash_of p) h)) [
    | inr other ↦ cache_set-other p loaded_at at s other out
    | inl same ↦
        let here : str_eq p.account_id account ≡ true = ground arith in
        let late : leb loaded_at stamp ≡ true = ground arith in
        let e' = cache_set-same p loaded_at at s (
          account-tombstoned p loaded_at at s ((eq_iff p.account_id account).0 here) late
            (ground arith) out) in
        rw e' out
  ]

  arrive-IsOut :
      (ps : List Arrival) (s : redis.Store)
      → All (λ p. is_late p ≡ true) ps
      → IsOut s
      → IsOut (arrive ps s)
  unfolding arrive
  arrive-IsOut [] s h out = out
  arrive-IsOut ((p, loaded_at, at) ∷ rest) s (e, es) out =
      arrive-IsOut rest _ es (cache_set-IsOut p loaded_at at s e out)

  abbrev forgets : Command → Bool
  forgets (set_principal k c ex) = not (str_eq k h)
  forgets _ = true

  exec-none :
      (c : Command) (s : redis.Store)
      → forgets c ≡ true
      → redis.principal h s ≡ none
      → redis.principal h (redis.exec since c s) ≡ none
  exec-none c s e none_before = elim (Bool-cases (writes_principal h c)) [
    | inr other ↦ redis.principal-other h c since s other ∙ none_before
    | inl own ↦ own-none c s e own
  ]
    where
      own-none :
          (c : Command) (s : redis.Store)
          → forgets c ≡ true
          → writes_principal h c ≡ true
          → redis.principal h (redis.exec since c s) ≡ none
      own-none (set_principal k c ex) s e own = ground arith
      own-none (del_principal k) s e own = rw ((eq_iff k h).0 own) (redis.principal-del h since s)
      own-none (set_stamp t n ex) s e own = ground arith
      own-none (sadd a k) s e own = ground arith
      own-none (srem a k) s e own = ground arith
      own-none (expire_index a) s e own = ground arith
      own-none (del_index a) s e own = ground arith

  execute-none :
      (cs : List Command) (s : redis.Store)
      → All (λ c. forgets c ≡ true) cs
      → redis.principal h s ≡ none
      → redis.principal h (execute redis since cs s) ≡ none
  execute-none [] s es out = out
  execute-none (c ∷ cs) s (e, es) out = execute-none cs _ es (exec-none c s e out)

  forgets-map :
      (f : String → Command)
      → ((k : String) → forgets (f k) ≡ true)
      → (hs : List String) (cs : List Command) → All (λ c. forgets c ≡ true) cs
      → All (λ c. forgets c ≡ true) (map f hs ++ cs)
  forgets-map f e [] cs es = es
  forgets-map f e (k ∷ hs) cs es = (e k, forgets-map f e hs cs es)

  deleted-none :
      (hs : List String) (cs : List Command) (s : redis.Store)
      → contains h hs ≡ true
      → All (λ c. forgets c ≡ true) cs
      → redis.principal h (execute redis since (map del_principal hs ++ cs) s) ≡ none
  deleted-none [] cs s e es = ground arith
  deleted-none (k ∷ hs) cs s e es = elim (Bool-cases (str_eq h k)) [
    | inl same ↦
        execute-none (map del_principal hs ++ cs) _ (forgets-map del_principal (λ k. refl) hs cs es)
          (rw (sym ((eq_iff h k).0 same)) (redis.principal-del h since s))
    | inr other ↦
        let found : contains h hs ≡ true = ground arith in
        deleted-none hs cs (redis.exec since (del_principal k) s) found es
  ]

  abbrev EndsStamped : List Command → Type 0
  EndsStamped cs =
      (s : redis.Store) (at : ℕ)
      → lives since cache_ttl at ≡ true
      → redis.stamp (of_account account) at (execute redis since cs s) ≡ some stamp

  append-EndsStamped : (cs ds : List Command) → EndsStamped ds → EndsStamped (cs ++ ds)
  append-EndsStamped [] ds h s = h s
  append-EndsStamped (c ∷ cs) ds h s = append-EndsStamped cs ds h (redis.exec since c s)

  revoke_all_cache-IsOut :
      (revoked kept : List String) (s : redis.Store)
      → contains h (doomed redis since (redis.members account s) revoked kept) ≡ true
      → IsOut (revoke_all_cache redis since account revoked kept stamp s)
  unfolding revoke_all_cache
  revoke_all_cache-IsOut revoked kept s e =
      let hs = doomed redis since (redis.members account s) revoked kept in
      let stop = set_stamp (of_account account) stamp cache_ttl ∷ [] in
      (
        deleted-none hs _ s e (
            forgets-map (srem account) (λ k. refl) hs _
              (forgets-map (λ k. set_stamp (of_session k) stamp cache_ttl) (λ k. refl) hs stop
                (refl, tt))),
        append-EndsStamped (map del_principal hs) _
            (append-EndsStamped (map (srem account) hs) _ (
              append-EndsStamped (map (λ k. set_stamp (of_session k) stamp cache_ttl) hs) stop
                (λ s at l. redis.stamp-set (of_account account) stamp cache_ttl since at s l)))
            s,
      )

  -- "Sign out everywhere", as Redis sees it: once `revoke_all_cache` has run for an account with the
  -- hashes that `revoke_all` named, no session it clears (one in the account's index or named, and
  -- not kept) is answered from the cache, whatever `_cache_set` calls run in the 60 seconds in which the
  -- account's tombstone lives, as long as each one of that session has a principal that was read, of
  -- that account, no later than the tombstone. (A call that had looked for the tombstone before it
  -- was there is not among them.)
  pub revoke_all_cache-stays_out :
      (revoked kept : List String) (s : redis.Store) (ps : List Arrival) (now : ℕ)
      → contains h (doomed redis since (redis.members account s) revoked kept) ≡ true
      → All (λ p. is_late p ≡ true) ps
      → resolve_cached redis now h
          (arrive ps (revoke_all_cache redis since account revoked kept stamp s))
        ≡ none
  unfolding resolve_cached
  revoke_all_cache-stays_out revoked kept s ps now e late =
      rw ((arrive-IsOut ps _ late (revoke_all_cache-IsOut revoked kept s e)).0) refl
