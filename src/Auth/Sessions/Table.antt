-- ===== src/Auth/Sessions/Table.antt =====
-- app/auth/sessions.py: the rows of the table `session`, the statements on them, and a principal as
-- the cache keeps it.
use practice_match.Prelude.{
  ℕ, ◌+◌, String, Bool, false, not, ◌&&◌, Option, none, some, List, any, keep, map, is_some, str_eq,
  ltb, leb,
}
use practice_match.Sql.{fetch_one, updated, moved}
use practice_match.Auth.Permissions.{Role, session, Principal}
use practice_match.Auth.Sessions.Store.{Cached}

-- Fourteen days, thirty days, five minutes.
abbrev pub idle : ℕ
idle = 1_209_600_000_000

abbrev pub absolute : ℕ
absolute = 2_592_000_000_000

abbrev pub touch_every : ℕ
touch_every = 300_000_000

pub record SessionRow : Type 0 where
  pub id_hash : String
  pub account_id : String
  pub last_seen_at : ℕ
  pub expires_at : ℕ
  pub revoked_at : Option ℕ
  pub reauth_at : Option ℕ
  pub ip : Option String
  pub user_agent : Option String

-- An account, with the roles that are granted and not revoked.
pub record Account : Type 0 where
  pub id : String
  pub state : String
  pub roles : List Role

pub record Db : Type 0 where
  pub sessions : List SessionRow
  pub accounts : List Account

abbrev pub loaded : String → SessionRow → Account → Principal
loaded h row account = record {
  account_id = row.account_id;
  state = account.state;
  roles = account.roles;
  reauth_at = row.reauth_at;
  kind = session;
  session_hash = some h;
}

abbrev pub is_live : ℕ → SessionRow → Bool
is_live now row =
    not (is_some row.revoked_at) && ltb now row.expires_at && ltb now (row.last_seen_at + idle)

abbrev pub has_hash : String → SessionRow → Bool
has_hash h row = str_eq row.id_hash h

abbrev pub account_of : String → Db → Option Account
account_of id db = fetch_one (keep (λ a. str_eq a.id id) db.accounts)

abbrev pub joined : String → Db → Option SessionRow → Option Principal
joined h db none = none
joined h db (some row) = elim (account_of row.account_id db) [
  | none ↦ none
  | some account ↦ some (loaded h row account)
]

unfoldable pub load : ℕ → String → Db → Option Principal
load now h db =
    joined h db (fetch_one (keep (λ row. has_hash h row && is_live now row) db.sessions))

abbrev pub hash_of : Principal → String
hash_of p = elim p.session_hash [ none ↦ "None" | some h ↦ h ]

abbrev pub contains : String → List String → Bool
contains h hs = any (str_eq h) hs

abbrev pub at_least : ℕ → Option ℕ → Bool
at_least loaded_at none = false
at_least loaded_at (some stamp) = leb loaded_at stamp

-- The body that is stored for a principal, and the principal that is read back.
abbrev pub encoded : Principal → Cached
encoded p = record { a = p.account_id; s = p.state; r = p.roles; re = p.reauth_at }

abbrev pub decoded : String → Cached → Principal
decoded h c = record {
  account_id = c.a;
  state = c.s;
  roles = c.r;
  reauth_at = c.re;
  kind = session;
  session_hash = some h;
}

abbrev pub cached_principal : String → Option Cached → Option Principal
cached_principal h none = none
cached_principal h (some c) = some (decoded h c)

abbrev pub in_sessions : (List SessionRow → List SessionRow) → Db → Db
in_sessions f db = record db { sessions = f db.sessions }

unfoldable pub touch : ℕ → Principal → Db → Db
touch now p db =
    in_sessions
      (updated (λ row. has_hash (hash_of p) row && ltb (row.last_seen_at + touch_every) now)
        (λ row. record row { last_seen_at = now }))
      db

abbrev pub ended : ℕ → SessionRow → SessionRow
ended now row = record row { revoked_at = some now }

-- The Postgres half of a sign-out: the session's hash, and the account that owned it.
unfoldable pub revoke : ℕ → String → Db → Db × String × Option String
revoke now h db = (
  in_sessions (updated (has_hash h) (ended now)) db,
  h,
  fetch_one (map (λ row. row.account_id) (moved (has_hash h) (ended now) db.sessions)),
)

abbrev pub is_open : String → SessionRow → Bool
is_open account row = str_eq row.account_id account && not (is_some row.revoked_at)

unfoldable pub revoke_all : ℕ → String → Db → Db × List String
revoke_all now account db = (
  in_sessions (updated (is_open account) (ended now)) db,
  map (λ row. row.id_hash) (moved (is_open account) (ended now) db.sessions),
)
