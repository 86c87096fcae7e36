-- ===== src/Auth/Permissions.antt =====
-- app/auth/permissions.py: the permission matrix. A permission is a constructor, so the KeyError of
-- an unknown name has no counterpart. `Principal` is app/auth/sessions.py's.
pub mod Minting
pub mod Holders
use practice_match.Prelude.{
  ℕ, String, Bool, true, false, not, ◌&&◌, ◌||◌, Option, none, some, List, [], ◌∷◌, ◌++◌, any, all,
  keep, ◌==◌, str_eq, if◌then◌else◌,
}

pub data Role : Type 0 where
  anonymous applicant buyer seller staff admin : Role

abbrev role_code : Role → ℕ
role_code anonymous = 0
role_code applicant = 1
role_code buyer = 2
role_code seller = 3
role_code staff = 4
role_code admin = 5

abbrev pub role_eq : Role → Role → Bool
role_eq a b = role_code a == role_code b

abbrev pub has_role : Role → List Role → Bool
has_role r roles = any (role_eq r) roles

-- bool(a & b), and a <= b
abbrev pub meets : List Role → List Role → Bool
meets a b = any (λ r. has_role r b) a

abbrev pub within : List Role → List Role → Bool
within a b = all (λ r. has_role r b) a

pub data Permission : Type 0 where
  page_gate account_self page_browse listing_read market_read layer_google_live layer_satellite :
      Permission
  request_create request_read_own seller_apply page_seller listing_manage_own request_answer_own :
      Permission
  page_admin users_review users_decide users_view_detail users_revoke : Permission
  listing_review listing_publish request_oversee abuse_investigate data_sources_read : Permission
  signups_read signups_export signups_notify licence_decide engine_activate roles_grant : Permission
  tokens_manage audit_read permissions_read : Permission

abbrev pub every_role : List Role
every_role = anonymous ∷ applicant ∷ buyer ∷ seller ∷ staff ∷ admin ∷ []

abbrev members : List Role
members = buyer ∷ seller ∷ staff ∷ admin ∷ []

abbrev pub staff_roles : List Role
staff_roles = staff ∷ admin ∷ []

abbrev pub admin_roles : List Role
admin_roles = admin ∷ []

-- The table as it is written.
unfoldable pub table : Permission → List Role
table page_gate = every_role
table account_self = applicant ∷ buyer ∷ seller ∷ staff ∷ admin ∷ []
table page_browse = members
table listing_read = members
table market_read = members
table layer_google_live = members
table layer_satellite = members
table request_create = buyer ∷ []
table request_read_own = buyer ∷ []
table seller_apply = []
table page_seller = seller ∷ []
table listing_manage_own = seller ∷ []
table request_answer_own = seller ∷ []
table abuse_investigate = admin_roles
table signups_notify = admin_roles
table licence_decide = admin_roles
table engine_activate = admin_roles
table roles_grant = admin_roles
table tokens_manage = admin_roles
table page_admin = staff_roles
table users_review = staff_roles
table users_decide = staff_roles
table users_view_detail = staff_roles
table users_revoke = staff_roles
table listing_review = staff_roles
table listing_publish = staff_roles
table request_oversee = staff_roles
table data_sources_read = staff_roles
table signups_read = staff_roles
table signups_export = staff_roles
table audit_read = staff_roles
table permissions_read = staff_roles

-- {perm: holders | _ADMIN for perm, holders in MATRIX.items()}
unfoldable pub matrix : Permission → List Role
unfolding table
matrix perm = table perm ++ admin_roles

abbrev pub every_permission : List Permission
every_permission =
    page_gate ∷ account_self ∷ page_browse ∷ listing_read ∷ market_read ∷ layer_google_live
    ∷ layer_satellite ∷ request_create ∷ request_read_own ∷ seller_apply ∷ page_seller
    ∷ listing_manage_own ∷ request_answer_own ∷ page_admin ∷ users_review ∷ users_decide
    ∷ users_view_detail ∷ users_revoke ∷ listing_review ∷ listing_publish ∷ request_oversee
    ∷ abuse_investigate ∷ data_sources_read ∷ signups_read ∷ signups_export ∷ signups_notify
    ∷ licence_decide ∷ engine_activate ∷ roles_grant ∷ tokens_manage ∷ audit_read ∷ permissions_read
    ∷ []

unfoldable pub reauth : Permission → Bool
reauth licence_decide = true
reauth engine_activate = true
reauth roles_grant = true
reauth tokens_manage = true
reauth users_revoke = true
reauth signups_notify = true
reauth _ = false

unfoldable pub token_denied : Permission → Bool
token_denied tokens_manage = true
token_denied _ = false

-- perm in ADMINISTRATIVE
unfoldable pub administrative : Permission → Bool
unfolding matrix
administrative perm = within (matrix perm) staff_roles

-- perm in permissions_of(roles)
unfoldable pub permissions_of : List Role → Permission → Bool
unfolding matrix
permissions_of roles perm = meets (matrix perm) roles

unfoldable pub may_mint : Role → List Role → Bool
unfolding administrative permissions_of
may_mint role minter_roles =
    all
      (λ perm.
        not (permissions_of (role ∷ []) perm && administrative perm)
        || permissions_of minter_roles perm)
      every_permission

pub data Kind : Type 0 where
  session token legacy : Kind

pub record Principal : Type 0 where
  pub account_id : String
  pub state : String
  pub roles : List Role
  pub reauth_at : Option ℕ
  pub kind : Kind
  pub session_hash : Option String

abbrev pub is_token : Kind → Bool
is_token token = true
is_token _ = false

-- `frozenset(principal.roles) | {"applicant"}`, or {"applicant"} when there are none.
unfoldable pub effective_roles : Option Principal → List Role
effective_roles none = anonymous ∷ []
effective_roles (some p) =
    if not (str_eq p.state "active") then applicant ∷ [] else p.roles ++ applicant ∷ []

abbrev pub token_refused : Permission → Option Principal → Bool
token_refused perm none = false
token_refused perm (some p) = is_token p.kind && token_denied perm

abbrev pub is_market_read : Permission → Bool
is_market_read market_read = true
is_market_read _ = false

-- `public` is settings.market_data_public.
unfoldable pub allowed : Bool → Permission → Option Principal → Bool
unfolding token_denied effective_roles matrix
allowed public perm principal =
    if token_refused perm principal
    then false
    else if is_market_read perm && public && has_role anonymous (effective_roles principal)
    then true
    else meets (effective_roles principal) (matrix perm)
