-- ===== src/Auth/Caller.antt =====
-- app/auth/deps.py: who is calling, from the session cookie, an api token or the operator's secret,
-- in that order.
use practice_match.Prelude.{
  ℕ, ◌+◌, String, ◌||◌, Option, none, some, List, [], ◌∷◌, str_eq, ◌==◌, is_some, if◌then◌else◌,
}
use practice_match.Auth.Permissions.{admin, token, legacy, Principal}
use practice_match.Auth.Guard.{matches}
use practice_match.Auth.Sessions.{Db, resolve, resolve_cached, touch}
use practice_match.Auth.Sessions.Store.{Redis}
use practice_match.Auth.Tokens.{ApiToken, ApiPrincipal, parse, verify_api_token}
use Prim.Native.Char.{code}

abbrev legacy_admin : String
legacy_admin = "00000000-0000-0000-0000-000000000001"

-- The text after a first letter in either case: `k` is the small letter's code.
abbrev after_letter : ℕ → String → Option String
after_letter k String.[] = none
after_letter k (String.◌∷◌ c s) = if code c == k || code c + 32 == k then some s else none

abbrev after_space : String → Option String
after_space String.[] = none
after_space (String.◌∷◌ c s) = if code c == b' ' then some s else none

abbrev and_then : Option String → (String → Option String) → Option String
and_then none f = none
and_then (some s) f = f s

-- auth[7:], when auth[:7].lower() is "bearer ".
unfoldable pub bearer : String → Option String
bearer auth =
    and_then
      (and_then
        (and_then
          (and_then
            (and_then (and_then (after_letter b'b' auth) (after_letter b'e')) (after_letter b'a'))
            (after_letter b'r'))
          (after_letter b'e'))
        (after_letter b'r'))
      after_space

abbrev pub principal_of_token : ApiPrincipal → Principal
principal_of_token ap = record {
  account_id = ap.created_by;
  state = "active";
  roles = ap.role ∷ [];
  reauth_at = none;
  kind = token;
  session_hash = none;
}

abbrev pub operator : ℕ → Principal
operator now = record {
  account_id = legacy_admin;
  state = "active";
  roles = admin ∷ [];
  reauth_at = some now;
  kind = legacy;
  session_hash = none;
}

module _ (redis : Redis) (uuid : String → Option String) (hash : String → String)
    (secret : Option String) (now clock loaded_at : ℕ) where
  pub record State : Type 0 where
    pub db : Db
    pub api_tokens : List ApiToken
    pub store : redis.Store

  abbrev touched_when : Option Principal → Db → Db
  touched_when none db = db
  touched_when (some p) db = touch now p db

  abbrev resolved : State → redis.Store × Option Principal → State × Option Principal
  resolved s (store, found) = (record s { db = touched_when found s.db; store = store }, found)

  -- `_session_principal`: the cache first, the database on a miss only.
  unfoldable pub session_principal : String → State → State × Option Principal
  unfolding resolve touch
  session_principal raw s = elim (resolve_cached redis clock (hash raw) s.store) [
    | some p ↦ (s, some p)
    | none ↦ resolved s (resolve redis clock now loaded_at (hash raw) s.db s.store)
  ]

  abbrev legacy_principal : String → Option Principal
  legacy_principal raw = if matches (some raw) secret then some (operator now) else none

  abbrev token_answer : String → Option ApiPrincipal → Option Principal
  token_answer raw none = legacy_principal raw
  token_answer raw (some ap) = some (principal_of_token ap)

  abbrev token_principal : String → State → State × Option Principal
  token_principal raw s =
      let verified = verify_api_token uuid hash now raw s.db.accounts s.api_tokens in
      (record s { api_tokens = verified.0 }, token_answer raw verified.1)

  abbrev bearer_principal : Option String → State → State × Option Principal
  bearer_principal none s = (s, none)
  bearer_principal (some raw) s =
      if is_some (parse uuid raw) then token_principal raw s else (s, legacy_principal raw)

  abbrev or_bearer : Option String → State × Option Principal → State × Option Principal
  or_bearer raw (s, some p) = (s, some p)
  or_bearer raw (s, none) = bearer_principal raw s

  -- The cookie `pm_session` and the header `authorization`, which is empty when it is missing.
  unfoldable pub current_principal : Option String → String → State → State × Option Principal
  unfolding session_principal bearer
  current_principal none auth s = bearer_principal (bearer auth) s
  current_principal (some raw) auth s =
      if str_eq raw ""
      then bearer_principal (bearer auth) s
      else or_bearer (bearer auth) (session_principal raw s)
