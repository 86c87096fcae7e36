-- ===== src/Auth/Guard.antt =====
-- app/auth/deps.py: the Origin and CSRF check and the `require(perm)` dependency. The caller is the
-- principal that `current_principal` has resolved. `urlparse` is the standard library's, `decimal`
-- the text of an integer; time is in seconds.
pub mod Laws
use practice_match.Prelude.{
  ℕ, ◌+◌, String, Bool, true, false, not, ◌&&◌, ◌||◌, Option, none, some, List, [], ◌∷◌, any, ◌==◌,
  ltb, is_some, str_eq, if◌then◌else◌,
}
use practice_match.Auth.Permissions.{
  Permission, Principal, Kind, session, token, legacy, allowed, reauth, token_denied, is_token,
}
use Prim.Native.String

pub data AuthError : Type 0 where
  unauthenticated permission_denied csrf_failed origin_refused reauth_required : AuthError
  token_cannot_reauth token_cannot_manage_tokens : AuthError

-- What the guard answers: a refusal, or the principal that the handler receives.
pub data Outcome : Type 0 where
  refused : AuthError → Outcome
  passes : Option Principal → Outcome

unfoldable pub http_status : AuthError → ℕ
http_status unauthenticated = 401
http_status _ = 403

pub record HttpRequest : Type 0 where
  pub method : String
  pub url : String
  pub csrf_header : Option String
  pub csrf_cookie : Option String
  pub origin : Option String
  pub referer : Option String

-- The parts of a URL that the code reads; a port may be absent, a number, or unreadable.
pub data Port : Type 0 where
  no_port bad_port : Port
  number : ℕ → Port

pub record ParsedUrl : Type 0 where
  pub scheme : String
  pub hostname : Option String
  pub port : Port

-- Ten minutes.
abbrev pub reauth_window : ℕ
reauth_window = 600

-- `_matches`: neither side absent or empty, and both equal.
unfoldable pub matches : Option String → Option String → Bool
matches (some presented) (some secret) =
    not (str_eq presented "") && not (str_eq secret "") && str_eq presented secret
matches _ _ = false

-- _DEFAULT_PORTS.get(scheme) == port
abbrev is_default_port : String → ℕ → Bool
is_default_port scheme port =
    str_eq scheme "http" && port == 80 || str_eq scheme "https" && port == 443

-- `a or b` on two headers.
abbrev pub first_header : Option String → Option String → Option String
first_header none b = b
first_header (some a) b = if str_eq a "" then b else some a

abbrev pub is_safe : String → Bool
is_safe method = str_eq method "GET" || str_eq method "HEAD" || str_eq method "OPTIONS"

abbrev pub is_session : Option Principal → Bool
is_session none = false
is_session (some p) = elim p.kind [ session ↦ true | _ ↦ false ]

module _ (urlparse : String → ParsedUrl) (decimal : ℕ → String) where
  abbrev port_suffix : String → Port → String
  port_suffix scheme no_port = ""
  port_suffix scheme bad_port = ""
  port_suffix scheme (number n) =
      if is_default_port scheme n then "" else String.◌++◌ ":" (decimal n)

  abbrev key_text : String → String → Port → String
  key_text scheme host port =
      String.◌++◌ scheme (String.◌++◌ "://" (String.◌++◌ host (port_suffix scheme port)))

  abbrev key_of : String → Option String → Port → Option String
  key_of scheme host bad_port = none
  key_of scheme none port = none
  key_of scheme (some host) port =
      if str_eq scheme "" || str_eq host "" then none else some (key_text scheme host port)

  unfoldable pub origin_key : String → Option String
  origin_key url = let parsed = urlparse url in key_of parsed.scheme parsed.hostname parsed.port

  abbrev same_key : Option String → Option String → Bool
  same_key (some a) (some b) = str_eq a b
  same_key _ _ = false

  -- presented in {_origin_key(o) for o in (*origins, str(request.url))} - {None}
  unfoldable pub is_allowed_origin : List String → String → Option String → Bool
  unfolding origin_key
  is_allowed_origin origins url none = false
  is_allowed_origin origins url (some o) =
      any (λ a. same_key (origin_key o) (origin_key a)) origins
      || same_key (origin_key o) (origin_key url)

  -- `origins` is settings.origins.
  unfoldable pub check_origin_and_csrf :
      List String → HttpRequest → Option Principal → Option AuthError
  unfolding matches is_allowed_origin
  check_origin_and_csrf origins r principal =
      if is_safe r.method || not (is_session principal)
      then none
      else if not (matches r.csrf_header r.csrf_cookie)
      then some csrf_failed
      else if not (is_allowed_origin origins r.url (first_header r.origin r.referer))
      then some origin_refused
      else none

  -- not principal.reauth_at or now - principal.reauth_at > REAUTH_WINDOW
  abbrev is_stale : ℕ → Option ℕ → Bool
  is_stale now none = true
  is_stale now (some at) = ltb (at + reauth_window) now

  abbrev reauth_error : ℕ → Principal → Option AuthError
  reauth_error now p = elim p.kind [
    | legacy ↦ none
    | token ↦ some token_cannot_reauth
    | session ↦ if is_stale now p.reauth_at then some reauth_required else none
  ]

  abbrev reauth_check : ℕ → Permission → Option Principal → Option AuthError
  reauth_check now perm none = none
  reauth_check now perm (some p) = if reauth perm then reauth_error now p else none

  abbrev denial : Permission → Option Principal → AuthError
  denial perm none = unauthenticated
  denial perm (some p) =
      if is_token p.kind && token_denied perm then token_cannot_manage_tokens else permission_denied

  abbrev or_refused : Option AuthError → Outcome → Outcome
  or_refused (some e) next = refused e
  or_refused none next = next

  -- The closure that `require(perm)` returns.
  unfoldable pub dependency :
      Bool → List String → ℕ → Permission → HttpRequest → Option Principal → Outcome
  unfolding check_origin_and_csrf allowed reauth
  dependency public origins now perm r principal =
      or_refused (check_origin_and_csrf origins r principal) (
        if not (allowed public perm principal)
        then refused (denial perm principal)
        else or_refused (reauth_check now perm principal) (passes principal))
