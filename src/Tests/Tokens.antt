-- ===== src/Tests/Tokens.antt =====
-- app/auth/tokens.py and app/ratelimit.py on concrete links, tokens and attempts.
use practice_match.Prelude.{
  ℕ, ◌+◌, ◌≤◌, String, ◌≡◌, ◌≢◌, refl, false, Option, none, some, List, [], ◌∷◌, ◌++◌, keep, length,
  ltb, leb, str_eq, arith, if◌then◌else◌,
}
use practice_match.Auth.Permissions.{staff, admin, tokens_manage, reauth, token, Principal}
use practice_match.Auth.Guard.{HttpRequest, ParsedUrl, no_port, dependency, passes}
use practice_match.Auth.Guard.Laws.{dependency-contains_token}
use practice_match.Auth.Sessions.{Account}
use practice_match.Auth.Tokens.{
  EmailToken, ApiToken, ApiPrincipal, consume_email_token, verify_api_token, parse, split_dot,
}
use practice_match.Auth.Tokens.Laws.{consume-once, verify-ended}
use practice_match.Auth.Limits.{SortedSets}
use practice_match.Auth.Limits.Laws.{reserve-outcome, outcome, Meets}

abbrev links : List EmailToken
links =
    record {
      account_id = "acc";
      purpose = "verify";
      token_hash = "h";
      expires_at = 100;
      used_at = none;
    }
    ∷ []

consume-once_example :
    consume_email_token 9 "h" "verify" ((consume_email_token 5 "h" "verify" links).0)
    ≡ ((consume_email_token 5 "h" "verify" links).0, none)
consume-once_example = consume-once 5 9 "h" "verify" refl links

abbrev minted : List ApiToken
minted =
    record {
      id = "t1";
      name = "ci";
      role = staff;
      token_hash = "s1";
      created_by = "acc";
      expires_at = 100;
      revoked_at = none;
      last_used_at = none;
    }
    ∷ []

abbrev people : List Account
people =
    record { id = "acc"; state = "active"; roles = staff ∷ [] }
    ∷ record { id = "gone"; state = "suspended"; roles = staff ∷ [] }
    ∷ []

abbrev any_uuid : String → Option String
any_uuid s = some s

abbrev same_text : String → String
same_text s = s

abbrev ci : ApiPrincipal
ci = record { token_id = "t1"; name = "ci"; role = staff; created_by = "acc" }

presented : (verify_api_token any_uuid same_text 5 "pm_t1.s1" people minted).1 ≡ some ci
unfolding verify_api_token parse split_dot
presented = refl

verify-ended_example : str_eq "acc" "gone" ≡ false
verify-ended_example =
    verify-ended any_uuid same_text 5 "pm_t1.s1" "gone" people minted ci refl presented

abbrev urlparse : String → ParsedUrl
urlparse url = record { scheme = "https"; hostname = some url; port = no_port }

abbrev decimal : ℕ → String
decimal n = "0"

abbrev automation : Principal
automation = record {
  account_id = "acc";
  state = "active";
  roles = admin ∷ [];
  reauth_at = none;
  kind = token;
  session_hash = none;
}

abbrev got : HttpRequest
got = record {
  method = "GET";
  url = "site";
  csrf_header = none;
  csrf_cookie = none;
  origin = none;
  referer = none;
}

dependency-contains_token_example :
    dependency urlparse decimal false [] 5 tokens_manage got (some automation)
    ≢ passes (some automation)
unfolding reauth
dependency-contains_token_example =
    dependency-contains_token urlparse decimal false [] 5 tokens_manage got automation refl refl

-- A sorted set as the list of its entries.
abbrev drop_to : ℕ → List (ℕ × String) → List (ℕ × String)
drop_to limit [] = []
drop_to limit (e ∷ es) =
    let rest = drop_to limit es in if leb (length (e ∷ es)) limit then e ∷ es else rest

drop_to-short : (limit : ℕ) (es : List (ℕ × String)) → length es ≤ limit → drop_to limit es ≡ es
drop_to-short limit [] h = refl
drop_to-short limit (e ∷ es) h = ground arith

length-snoc : (es : List (ℕ × String)) (e : ℕ × String) → length (es ++ e ∷ []) ≡ length es + 1
length-snoc [] e = refl
length-snoc (x ∷ es) e = ground (arith, length-snoc es e)

abbrev lists : SortedSets
lists = record {
  Set = List (ℕ × String);
  entries = λ s. s;
  prune = λ now window s. keep (λ e. ltb now (e.0 + window)) s;
  zadd = λ t m s. s ++ (t, m) ∷ [];
  trim = drop_to;
  expire = λ window s. s;
  delete = λ s. [];
  entries-prune = λ now window s. refl;
  length-zadd = λ t m s h. length-snoc s (t, m);
  entries-trim = drop_to-short;
  entries-expire = λ window s. refl;
  entries-delete = λ s. refl;
}

abbrev attempts : List (ℕ × String)
attempts = (1_000_000, "a") ∷ (5_000_000, "b") ∷ []

reserve-outcome_example :
    Meets lists 6_000_000 2 60 "c" attempts (outcome lists 6_000_000 2 60 "c" attempts)
reserve-outcome_example = reserve-outcome lists 6_000_000 2 60 "c" attempts refl (ground arith)
