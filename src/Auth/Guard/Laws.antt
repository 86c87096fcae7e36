-- ===== src/Auth/Guard/Laws.antt =====
-- app/auth/deps.py: when `require(perm)` lets a caller through.
use practice_match.Prelude.{
  ℕ, ◌+◌, ◌⊎◌, String, ◌≡◌, ◌≢◌, ◌↔◌, refl, Bool, true, false, not, ◌&&◌, ◌||◌, Option, none, some,
  List, arith, ltb, Bool-cases, inl, inr, if◌then◌else◌,
}
use practice_match.Auth.Permissions.{
  Permission, Principal, Kind, token_denied, session, token, legacy, allowed, reauth,
}
use practice_match.Auth.Guard.{
  AuthError, token_cannot_reauth, csrf_failed, origin_refused, refused, passes, HttpRequest,
  ParsedUrl, matches, is_safe, is_session, is_allowed_origin, first_header, check_origin_and_csrf,
  dependency, reauth_window, denial, or_refused, reauth_check, reauth_error, is_stale,
  reauth_required,
}

-- The caller has confirmed its password in the last ten minutes, or need not.
abbrev confirmed_at : ℕ → Option ℕ → Bool
confirmed_at now none = false
confirmed_at now (some at) = not (ltb (at + reauth_window) now)

abbrev pub is_fresh : ℕ → Permission → Option Principal → Bool
is_fresh now perm none = true
is_fresh now perm (some p) =
    not (reauth perm)
    || elim p.kind [ legacy ↦ true | token ↦ false | session ↦ confirmed_at now p.reauth_at ]

-- Either nothing is refused and the test holds, or an error is and it does not.
abbrev Decides : Option AuthError → Bool → Type 0
Decides refusal test =
    (refusal ≡ none) × (test ≡ true) ⊎ (e : AuthError) × (refusal ≡ some e) × (test ≡ false)

site-Decides :
    (a m o : Bool)
    → Decides
        (if a
          then none
          else if not m
          then some csrf_failed
          else if not o
          then some origin_refused
          else none)
        (a || m && o)
site-Decides true m o = inl (refl, refl)
site-Decides false true true = inl (refl, refl)
site-Decides false true false = inr (origin_refused, refl, refl)
site-Decides false false o = inr (csrf_failed, refl, refl)

window-Decides :
    (urlparse : String → ParsedUrl) (decimal : ℕ → String) (now : ℕ) (at : Option ℕ)
    → Decides
        (if is_stale urlparse decimal now at then some reauth_required else none)
        (confirmed_at now at)
window-Decides urlparse decimal now none = inr (reauth_required, refl, refl)
window-Decides urlparse decimal now (some at) = elim (Bool-cases (ltb (at + reauth_window) now)) [
  | inl e ↦ rw e (inr (reauth_required, refl, refl))
  | inr e ↦ rw e (inl (refl, refl))
]

kind-Decides :
    (urlparse : String → ParsedUrl) (decimal : ℕ → String) (now : ℕ) (at : Option ℕ) (k : Kind)
    → Decides
        (elim k [
          | legacy ↦ none
          | token ↦ some token_cannot_reauth
          | session ↦ if is_stale urlparse decimal now at then some reauth_required else none
        ])
        (elim k [ legacy ↦ true | token ↦ false | session ↦ confirmed_at now at ])
kind-Decides urlparse decimal now at session = window-Decides urlparse decimal now at
kind-Decides urlparse decimal now at token = inr (token_cannot_reauth, refl, refl)
kind-Decides urlparse decimal now at legacy = inl (refl, refl)

reauth_error-Decides :
    (urlparse : String → ParsedUrl) (decimal : ℕ → String) (now : ℕ) (p : Principal)
    → Decides
        (reauth_error urlparse decimal now p)
        (elim p.kind [ legacy ↦ true | token ↦ false | session ↦ confirmed_at now p.reauth_at ])
reauth_error-Decides urlparse decimal now p = kind-Decides urlparse decimal now p.reauth_at p.kind

reauth_check-Decides :
    (urlparse : String → ParsedUrl) (decimal : ℕ → String) (now : ℕ) (perm : Permission)
    (principal : Option Principal)
    → Decides (reauth_check urlparse decimal now perm principal) (is_fresh now perm principal)
reauth_check-Decides urlparse decimal now perm none = inl (refl, refl)
reauth_check-Decides urlparse decimal now perm (some p) = elim (Bool-cases (reauth perm)) [
  | inl e ↦ rw e (reauth_error-Decides urlparse decimal now p)
  | inr e ↦ rw e (inl (refl, refl))
]

passes_iff :
    (urlparse : String → ParsedUrl) (decimal : ℕ → String) (site fresh : Option AuthError)
    (s a f : Bool) (denied : AuthError) (p : Option Principal)
    → Decides site s
    → Decides fresh f
    → (or_refused urlparse decimal site
          (if not a then refused denied else or_refused urlparse decimal fresh (passes p))
        ≡ passes p)
      ↔ ((s && a && f) ≡ true)
passes_iff urlparse decimal site fresh s a f denied p hs hf = (λ e. ground arith, λ e. ground arith)

module _ (urlparse : String → ParsedUrl) (decimal : ℕ → String) (public : Bool)
    (origins : List String) (now : ℕ) (perm : Permission) (r : HttpRequest)
    (principal : Option Principal) where
  -- The site check, stated on its own: a safe method, no cookie session, or a matching CSRF pair
  -- from an allowed origin.
  abbrev pub is_same_site : Bool
  is_same_site =
      (is_safe r.method || not (is_session principal))
      || matches r.csrf_header r.csrf_cookie
        && is_allowed_origin urlparse decimal origins r.url (first_header r.origin r.referer)

  check_origin_and_csrf-Decides :
      Decides (check_origin_and_csrf urlparse decimal origins r principal) is_same_site
  unfolding check_origin_and_csrf
  check_origin_and_csrf-Decides =
      site-Decides (is_safe r.method || not (is_session principal))
        (matches r.csrf_header r.csrf_cookie)
        (is_allowed_origin urlparse decimal origins r.url (first_header r.origin r.referer))

  -- A guarded route's handler runs exactly when the request passes the site check, the matrix
  -- allows the permission to the caller, and, for an action that wants re-authentication, a
  -- caller that is known is the operator or a session confirmed in the last ten minutes; it then receives the
  -- caller.
  pub dependency-passes_iff :
      (dependency urlparse decimal public origins now perm r principal ≡ passes principal)
      ↔ ((is_same_site && allowed public perm principal && is_fresh now perm principal) ≡ true)
  unfolding dependency
  dependency-passes_iff =
      passes_iff urlparse decimal _ _ is_same_site (allowed public perm principal)
        (is_fresh now perm principal) (denial urlparse decimal perm principal) principal
        check_origin_and_csrf-Decides (reauth_check-Decides urlparse decimal now perm principal)

token_blocked :
    (public : Bool) (now : ℕ) (perm : Permission) (p : Principal)
    → p.kind ≡ token
    → (reauth perm || token_denied perm) ≡ true
    → (allowed public perm (some p) && is_fresh now perm (some p)) ≡ false
unfolding allowed
token_blocked public now perm p kind e = rw kind (ground arith)

-- An api token, whatever role it carries and whatever the request, gets through to no action that
-- wants re-authentication and to none that is denied to tokens.
pub dependency-contains_token :
    (urlparse : String → ParsedUrl) (decimal : ℕ → String) (public : Bool) (origins : List String)
    (now : ℕ) (perm : Permission) (r : HttpRequest) (p : Principal)
    → p.kind ≡ token
    → (reauth perm || token_denied perm) ≡ true
    → dependency urlparse decimal public origins now perm r (some p) ≢ passes (some p)
dependency-contains_token urlparse decimal public origins now perm r p kind e through =
    let all =
      (dependency-passes_iff urlparse decimal public origins now perm r (some p)).0 through in
    let closed = token_blocked public now perm p kind e in ground arith
