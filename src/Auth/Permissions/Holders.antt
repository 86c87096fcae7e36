-- ===== src/Auth/Permissions/Holders.antt =====
-- Who holds what by the matrix of app/auth/permissions.py.
use practice_match.Prelude.{
  ◌≡◌, refl, Bool, true, false, not, ◌&&◌, some, List, [], ◌∷◌, ◌++◌, arith, str_eq, Bool-cases,
  inl, inr, if◌then◌else◌,
}
use practice_match.Auth.Permissions.{
  Role, applicant, buyer, seller, admin, role_eq, has_role, meets, Permission, page_gate,
  account_self, request_create, request_read_own, page_seller, listing_manage_own,
  request_answer_own, matrix, table, is_market_read, allowed, Principal, is_token, token_denied,
  effective_roles,
}

pub role_eq→eq : (a b : Role) → role_eq a b ≡ true → a ≡ b
role_eq→eq a b e = ground arith

-- A role that both hold makes them meet.
pub meets_of_both :
    (r : Role) (a b : List Role) → has_role r a ≡ true → has_role r b ≡ true → meets a b ≡ true
meets_of_both r [] b h k = absurd (cc h)
meets_of_both r (x ∷ a) b h k = elim (Bool-cases (role_eq r x)) [
  | inl e ↦ rw (← role_eq→eq r x e, k) refl
  | inr e ↦ ground (arith, meets_of_both r a b)
]

pub has_role-append_right :
    (r : Role) (a b : List Role) → has_role r b ≡ true → has_role r (a ++ b) ≡ true
has_role-append_right r [] b h = h
has_role-append_right r (x ∷ a) b h = ground (arith, has_role-append_right r a b h)

pub has_role-append_left :
    (r : Role) (a b : List Role) → has_role r a ≡ true → has_role r (a ++ b) ≡ true
has_role-append_left r [] b h = absurd (cc h)
has_role-append_left r (x ∷ a) b h = ground (arith, has_role-append_left r a b)

role_eq_refl : (r : Role) → role_eq r r ≡ true
role_eq_refl applicant = refl
role_eq_refl _ = refl

meets_cons : (x : Role) (b a : List Role) → meets b a ≡ true → meets b (x ∷ a) ≡ true
meets_cons x [] a h = absurd (cc h)
meets_cons x (y ∷ b) a h = ground (arith, meets_cons x b a)

pub meets_comm : (a b : List Role) → meets a b ≡ true → meets b a ≡ true
meets_comm [] b h = absurd (cc h)
meets_comm (x ∷ a) b h = elim (Bool-cases (has_role x b)) [
  | inl e ↦ meets_of_both x b (x ∷ a) e (rw (role_eq_refl x) refl)
  | inr e ↦ meets_cons x b a (meets_comm a b (rw e at h))
]

pub meets-append_left : (a b c : List Role) → meets a c ≡ true → meets (a ++ b) c ≡ true
meets-append_left [] b c h = absurd (cc h)
meets-append_left (x ∷ a) b c h = ground (arith, meets-append_left a b c)

has_role-append_applicant :
    (r : Role) (a : List Role)
    → role_eq r applicant ≡ false
    → has_role r (a ++ applicant ∷ []) ≡ has_role r a
has_role-append_applicant r [] e = rw e refl
has_role-append_applicant r (x ∷ a) e = rw (has_role-append_applicant r a e) refl

-- The gate page and the caller's own account.
abbrev pub is_self_service : Permission → Bool
is_self_service page_gate = true
is_self_service account_self = true
is_self_service _ = false

inactive_roles :
    (p : Principal) → str_eq p.state "active" ≡ false → effective_roles (some p) ≡ applicant ∷ []
unfolding effective_roles
inactive_roles p e = rw e refl

applicant_holds :
    (public : Bool) (kind : Bool) (perm : Permission)
    → (if kind && token_denied perm
        then false
        else if is_market_read perm && public && false
        then true
        else meets (applicant ∷ []) (matrix perm))
      ≡ is_self_service perm
unfolding matrix token_denied
applicant_holds public kind page_gate = ground arith
applicant_holds public kind _ = ground arith

-- A suspended, revoked or undecided account may reach the gate page and its own account and
-- nothing else, whatever roles were granted to it, with a session or with an api token, and whether
-- or not market data is public.
pub inactive_confined :
    (public : Bool) (p : Principal) (perm : Permission)
    → str_eq p.state "active" ≡ false
    → allowed public perm (some p) ≡ is_self_service perm
unfolding allowed
inactive_confined public p perm e =
    rw (inactive_roles p e) (applicant_holds public (is_token p.kind) perm)

-- An active account with the role admin may do everything, but for what is denied to every api
-- token when it calls with one.
pub admin_superset :
    (public : Bool) (p : Principal) (perm : Permission)
    → str_eq p.state "active" ≡ true
    → has_role admin p.roles ≡ true
    → allowed public perm (some p) ≡ not (is_token p.kind && token_denied perm)
unfolding allowed effective_roles matrix
admin_superset public p perm e a =
    let held =
      meets_of_both admin (p.roles ++ applicant ∷ []) (matrix perm)
        (has_role-append_left admin p.roles (applicant ∷ []) a)
        (has_role-append_right admin (table perm) (admin ∷ []) refl) in
    rw e (ground (arith, held))

-- The acts of a buyer, and those of a seller.
abbrev pub is_buyer_act : Permission → Bool
is_buyer_act request_create = true
is_buyer_act request_read_own = true
is_buyer_act _ = false

abbrev pub is_seller_act : Permission → Bool
is_seller_act page_seller = true
is_seller_act listing_manage_own = true
is_seller_act request_answer_own = true
is_seller_act _ = false

-- An account without the role admin is allowed a buyer's act only with the role buyer, and a seller's
-- act only with the role seller, in whatever state it is and whether or not market data is public.
pub acts-want_role :
    (public : Bool) (p : Principal) (perm : Permission)
    → has_role admin p.roles ≡ false
    → ((is_buyer_act perm && not (has_role buyer p.roles) && allowed public perm (some p)) ≡ false)
      × ((is_seller_act perm && not (has_role seller p.roles) && allowed public perm (some p))
          ≡ false)
unfolding allowed effective_roles matrix token_denied
acts-want_role public p request_create a = ground (
  arith,
  meets_comm (p.roles ++ applicant ∷ []) (matrix request_create),
  has_role-append_applicant buyer p.roles refl,
  has_role-append_applicant admin p.roles refl,
)
acts-want_role public p perm a = ground (
  arith,
  meets_comm (p.roles ++ applicant ∷ []) (matrix perm),
  has_role-append_applicant buyer p.roles refl,
  has_role-append_applicant seller p.roles refl,
  has_role-append_applicant admin p.roles refl,
)
