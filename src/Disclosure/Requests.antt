-- ===== src/Disclosure/Requests.antt =====
-- app/disclosure/requests.py: a request's life. `Refusal` is app/api/seller_listings.py's. No text that is
-- written holds a NUL, of which psycopg2 raises before the database sees it.
pub mod Keys
pub mod Laws
pub mod History
pub mod Invariant
pub mod Isolation
pub mod Lists
use practice_match.Prelude.{
  ℕ, String, Bool, true, false, not, ◌&&◌, Option, none, some, List, [], ◌∷◌, any, keep, str_eq,
  if◌then◌else◌,
}
use practice_match.Sql.{
  Violation, check_violation, unique_violation, foreign_key_violation, Outcome, ok, raised,
  fetch_one, update, insert,
}
use practice_match.Disclosure.Levels.{requestable}
use practice_match.Disclosure.Request.{
  Request, Status, pending, approved, denied, revoked, status_eq, checks, clashes,
}

pub data Refusal : Type 0 where
  bad_level not_found no_seller self_request already_requested bad_action : Refusal
  -- the status found and the status wanted
  wrong_state : Status → Status → Refusal

-- The refusal's HTTP status.
unfoldable pub http_status : Refusal → ℕ
http_status bad_level = 400
http_status not_found = 404
http_status no_seller = 422
http_status self_request = 422
http_status already_requested = 409
http_status bad_action = 400
http_status (wrong_state found wanted) = 409

pub data Reply {ℓ} (A : Type ℓ) : Type ℓ where
  done : A → Reply A
  refused : Refusal → Reply A
  -- an exception of the database that the function lets through
  failed : Violation → Reply A

infixl 5 ◌>>=◌
abbrev pub ◌>>=◌ {ℓ κ} : {A : Type ℓ} {B : Type κ} → Reply A → (A → Reply B) → Reply B
done a >>= f = f a
refused x >>= f = refused x
failed v >>= f = failed v

-- A row of `listing`, as far as `create` reads it.
pub record Listing : Type 0 where
  pub id : String
  pub seller_id : Option String
  pub published : Bool

abbrev pub Table : Type 0
Table = List Request

abbrev pub new_request : ℕ → String → String → String → String → Option String → String → Request
new_request now id listing buyer seller message level = record {
  id = id;
  listing_id = listing;
  buyer_user_id = buyer;
  seller_user_id = seller;
  message = message;
  status = pending;
  requested_disclosure_level = level;
  approved_disclosure_level = none;
  requested_at = now;
  reviewed_at = none;
  reviewed_by = none;
  denial_reason = none;
  expires_at = none;
  created_at = now;
  updated_at = now;
}

-- The foreign keys to `account` of the columns that an INSERT fills. The one to `listing` is of a row
-- that the same transaction reads; reviewed_by, which `decide` fills, is given the row's own
-- seller_user_id, an account by the key of that column.
abbrev pub references : List String → Request → Bool
references accounts r =
    any (str_eq r.buyer_user_id) accounts && any (str_eq r.seller_user_id) accounts

-- The keys are checked at the end of the statement.
abbrev pub referenced : List String → Request → Outcome Table → Outcome Table
referenced accounts row (ok table) =
    if references accounts row then ok table else raised foreign_key_violation
referenced accounts row (raised v) = raised v

-- `except Exception as exc`: a UniqueViolation is refused, any other is raised again.
abbrev pub inserted : Request → Outcome Table → Reply (Table × Request)
inserted row (ok table) = done (table, row)
inserted row (raised unique_violation) = refused already_requested
inserted row (raised v) = failed v

pub create_for :
    List String
    → ℕ
    → String
    → String
    → String
    → Option String
    → String
    → Option Listing
    → Table
    → Reply (Table × Request)
create_for accounts now id listing buyer message level none table = refused not_found
create_for accounts now id listing buyer message level (some l) table = elim l.seller_id [
  | none ↦ refused no_seller
  | some seller ↦
      if str_eq seller buyer
      then refused self_request
      else (let row = new_request now id listing buyer seller message level in
          inserted row (referenced accounts row (insert checks clashes row table)))
]

-- `id` is the uuid that the column's default makes, `accounts` the ids of the table account.
unfoldable pub create :
    List String
    → ℕ
    → String
    → String
    → String
    → Option String
    → String
    → List Listing
    → Table
    → Reply (Table × Request)
unfolding create_for
create accounts now id listing buyer message level listings table =
    if not (requestable level)
    then refused bad_level
    else create_for accounts now id listing buyer message level
        (fetch_one (keep (λ l. str_eq l.id listing && l.published) listings)) table

abbrev or_not_found : Option Request → Reply Request
or_not_found none = refused not_found
or_not_found (some r) = done r

unfoldable pub get_one : String → String → Table → Reply Request
get_one id buyer table =
    or_not_found (fetch_one (keep (λ r. str_eq r.id id && str_eq r.buyer_user_id buyer) table))

abbrev in_state : Status → Request → Reply Request
in_state wanted r =
    if status_eq r.status wanted then done r else refused (wrong_state r.status wanted)

unfoldable pub owned_pending_or_approved : String → String → Status → Table → Reply Request
owned_pending_or_approved id seller wanted table =
    or_not_found (fetch_one (keep (λ r. str_eq r.id id && str_eq r.seller_user_id seller) table))
    >>= in_state wanted

pub data Action : Type 0 where
  approve deny : Action
  other : String → Action

abbrev pub has_id : String → Request → Bool
has_id id r = str_eq r.id id

unfoldable pub approve_row : ℕ → String → String → Request → Request
approve_row now seller level r = record r {
  status = approved;
  approved_disclosure_level = some level;
  reviewed_at = some now;
  reviewed_by = some seller;
  updated_at = now;
}

unfoldable pub deny_row : ℕ → String → Option String → Request → Request
deny_row now seller reason r = record r {
  status = denied;
  denial_reason = reason;
  reviewed_at = some now;
  reviewed_by = some seller;
  updated_at = now;
}

unfoldable pub revoke_row : ℕ → Request → Request
revoke_row now r = record r { status = revoked; updated_at = now }

abbrev pub written : Outcome (Table × Table) → Reply Table
written (ok p) = done p.0
written (raised v) = failed v

-- UPDATE request SET … WHERE id = …
abbrev pub write : String → (Request → Request) → Table → Reply Table
write id set table = written (update checks (has_id id) set table)

-- disclosure_level or cur.fetchone()[0]
abbrev pub chosen_level : Option String → String → String
chosen_level none requested = requested
chosen_level (some level) requested = if str_eq level "" then requested else level

unfoldable pub decide :
    ℕ → String → String → Action → Option String → Option String → Table → Reply Table
unfolding owned_pending_or_approved
decide now id seller approve level reason table =
    owned_pending_or_approved id seller pending table >>= λ r.
    let given = chosen_level level r.requested_disclosure_level in
    if not (requestable given)
    then refused bad_level
    else write id (approve_row now seller given) table
decide now id seller deny level reason table =
    owned_pending_or_approved id seller pending table >>= λ r.
    write id (deny_row now seller reason) table
decide now id seller (other action) level reason table =
    owned_pending_or_approved id seller pending table >>= λ r. refused bad_action

unfoldable pub revoke : ℕ → String → String → Table → Reply Table
unfolding owned_pending_or_approved
revoke now id seller table =
    owned_pending_or_approved id seller approved table >>= λ r. write id (revoke_row now) table
