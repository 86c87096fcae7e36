-- ===== src/Auth/Permissions/Minting.antt =====
-- app/auth/permissions.py: a minted api token never administers more than its minter.
use practice_match.Prelude.{
  String, ◌≡◌, Bool, true, false, not, ◌&&◌, ◌||◌, none, some, [], ◌∷◌, all, arith, str_eq,
}
use practice_match.Auth.Permissions.{
  Role, applicant, Permission, page_gate, matrix, administrative, permissions_of, may_mint, allowed,
  every_permission, Principal, token, is_token, effective_roles,
}
use practice_match.Auth.Permissions.Holders.{meets_comm, meets-append_left}

every_permission_complete :
    (p : Permission → Bool) (perm : Permission) → all p every_permission ≡ true → p perm ≡ true
every_permission_complete p page_gate h = ground arith
every_permission_complete p _ h = ground arith

-- The principal that `current_principal` makes of a verified api token.
abbrev pub token_principal : String → Role → Principal
token_principal creator role = record {
  account_id = creator;
  state = "active";
  roles = role ∷ [];
  reauth_at = none;
  kind = token;
  session_hash = none;
}

admin_of_token :
    (public : Bool) (creator : String) (role : Role) (perm : Permission)
    → administrative perm ≡ true
    → allowed public perm (some (token_principal creator role)) ≡ true
    → permissions_of (role ∷ []) perm ≡ true
unfolding administrative permissions_of allowed
admin_of_token public creator role page_gate a h = ground arith
admin_of_token public creator role _ a h = ground arith

minter_allowed :
    (public : Bool) (p : Principal) (perm : Permission)
    → str_eq p.state "active" ≡ true
    → is_token p.kind ≡ false
    → permissions_of p.roles perm ≡ true
    → allowed public perm (some p) ≡ true
unfolding permissions_of allowed effective_roles
minter_allowed public p perm active kind h =
    let held =
      meets-append_left p.roles (applicant ∷ []) (matrix perm)
        (meets_comm (matrix perm) p.roles h) in
    rw (active, kind) (ground (arith, held))

-- No escalation: an active account, signed in and not calling with a token itself, that may mint a
-- token of a role is itself allowed every administrative permission that the token is allowed.
pub may_mint-no_escalation :
    (public : Bool) (minter : Principal) (role : Role) (perm : Permission)
    → str_eq minter.state "active" ≡ true
    → is_token minter.kind ≡ false
    → may_mint role minter.roles ≡ true
    → administrative perm ≡ true
    → allowed public perm (some (token_principal minter.account_id role)) ≡ true
    → allowed public perm (some minter) ≡ true
unfolding may_mint
may_mint-no_escalation public minter role perm active kind minted admin_only tok =
    let carried = admin_of_token public minter.account_id role perm admin_only tok in
    let rule =
      every_permission_complete
        (λ q.
          not (permissions_of (role ∷ []) q && administrative q) || permissions_of minter.roles q)
        perm minted in
    minter_allowed public minter perm active kind (ground (arith, rule, carried))
