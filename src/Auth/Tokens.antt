-- ===== src/Auth/Tokens.antt =====
-- app/auth/tokens.py: the single-use links of the table `email_token`, and the api tokens. A secret
-- comes as its hash; `uuid` is the standard library's reading of an id.
pub mod Laws
use practice_match.Prelude.{
  ℕ, ◌+◌, String, Bool, true, false, not, ◌&&◌, ◌||◌, Option, none, some, List, [], ◌∷◌, map, any,
  is_some, str_eq, ltb, ◌==◌, if◌then◌else◌,
}
use practice_match.Sql.{fetch_one, updated, moved}
use practice_match.Auth.Permissions.{Role}
use practice_match.Auth.Sessions.{Account}
use Prim.Native.Char.{code}
use Prim.Native.String

pub record EmailToken : Type 0 where
  pub account_id : String
  pub purpose : String
  pub token_hash : String
  pub expires_at : ℕ
  pub used_at : Option ℕ

unfoldable pub issue_email_token :
    ℕ → String → String → ℕ → String → List EmailToken → List EmailToken
issue_email_token now account_id purpose ttl h table =
    record {
      account_id = account_id;
      purpose = purpose;
      token_hash = h;
      expires_at = now + ttl;
      used_at = none;
    }
    ∷ table

abbrev pub consumable : ℕ → String → String → EmailToken → Bool
consumable now h purpose t =
    str_eq t.token_hash h
    && str_eq t.purpose purpose
    && not (is_some t.used_at)
    && ltb now t.expires_at

abbrev pub used : ℕ → EmailToken → EmailToken
used now t = record t { used_at = some now }

unfoldable pub consume_email_token :
    ℕ → String → String → List EmailToken → List EmailToken × Option String
consume_email_token now h purpose table = (
  updated (consumable now h purpose) (used now) table,
  fetch_one (map (λ t. t.account_id) (moved (consumable now h purpose) (used now) table)),
)

pub record ApiToken : Type 0 where
  pub id : String
  pub name : String
  pub role : Role
  pub token_hash : String
  pub created_by : String
  pub expires_at : ℕ
  pub revoked_at : Option ℕ
  pub last_used_at : Option ℕ

pub record ApiPrincipal : Type 0 where
  pub token_id : String
  pub name : String
  pub role : Role
  pub created_by : String

-- The id is the column's default.
unfoldable pub issue_api_token :
    ℕ → String → String → Role → String → ℕ → String → List ApiToken → List ApiToken
issue_api_token now id name role created_by ttl h table =
    record {
      id = id;
      name = name;
      role = role;
      token_hash = h;
      created_by = created_by;
      expires_at = now + ttl;
      revoked_at = none;
      last_used_at = none;
    }
    ∷ table

-- The text after one leading character.
abbrev after : ℕ → String → Option String
after k String.[] = none
after k (String.◌∷◌ c s) = if code c == k then some s else none

abbrev and_then : Option String → (String → Option String) → Option String
and_then none f = none
and_then (some s) f = f s

abbrev pub cons_first : String → Option (String × String) → Option (String × String)
cons_first c none = none
cons_first c (some p) = some (String.◌++◌ c p.0, p.1)

-- s.split(".", 1), when there is a dot.
unfoldable pub split_dot : String → Option (String × String)
split_dot String.[] = none
split_dot (String.◌∷◌ c s) =
    let rest = split_dot s in
    if code c == b'.' then some ("", s) else cons_first (String.◌∷◌ c "") rest

abbrev with_uuid : (String → Option String) → Option (String × String) → Option (String × String)
with_uuid uuid none = none
with_uuid uuid (some p) = elim (uuid p.0) [ none ↦ none | some id ↦ some (id, p.1) ]

abbrev split_opt : Option String → Option (String × String)
split_opt none = none
split_opt (some s) = split_dot s

unfoldable pub parse : (String → Option String) → String → Option (String × String)
unfolding split_dot
parse uuid raw =
    with_uuid uuid (split_opt (and_then (and_then (after b'p' raw) (after b'm')) (after b'_')))

abbrev pub is_ended : Account → Bool
is_ended a = str_eq a.state "suspended" || str_eq a.state "revoked"

-- The account that minted the token is there, and neither suspended nor revoked.
abbrev pub is_backed : List Account → ApiToken → Bool
is_backed accounts t = any (λ a. str_eq a.id t.created_by && not (is_ended a)) accounts

abbrev pub usable : ℕ → String → String → List Account → ApiToken → Bool
usable now id h accounts t =
    is_backed accounts t
    && str_eq t.id id
    && str_eq t.token_hash h
    && not (is_some t.revoked_at)
    && ltb now t.expires_at

abbrev pub principal_of : ApiToken → ApiPrincipal
principal_of t = record { token_id = t.id; name = t.name; role = t.role; created_by = t.created_by }

abbrev pub touched : ℕ → ApiToken → ApiToken
touched now t = record t { last_used_at = some now }

abbrev pub verify_parsed :
    Option (String × String)
    → (String → String)
    → ℕ
    → List Account
    → List ApiToken
    → List ApiToken × Option ApiPrincipal
verify_parsed none hash now accounts table = (table, none)
verify_parsed (some (id, secret)) hash now accounts table = (
  updated (usable now id (hash secret) accounts) (touched now) table,
  fetch_one (map principal_of (moved (usable now id (hash secret) accounts) (touched now) table)),
)

-- `hash` is the hash of a secret.
unfoldable pub verify_api_token :
    (String → Option String)
    → (String → String)
    → ℕ
    → String
    → List Account
    → List ApiToken
    → List ApiToken × Option ApiPrincipal
unfolding parse
verify_api_token uuid hash now raw accounts table =
    verify_parsed (parse uuid raw) hash now accounts table
