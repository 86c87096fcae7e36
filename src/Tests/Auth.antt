-- ===== src/Tests/Auth.antt =====
-- app/auth on concrete principals, requests and sessions.
use practice_match.Prelude.{
  ℕ, String, ◌≡◌, ◌↔◌, refl, true, false, not, ◌&&◌, Option, none, some, List, [], ◌∷◌, str_eq,
  eq_refl, if◌then◌else◌,
}
use practice_match.Auth.Permissions.{
  Role, buyer, seller, staff, admin, users_review, tokens_manage, request_create, Kind, session,
  token, Principal, allowed, may_mint, administrative, permissions_of, matrix, table,
  effective_roles, token_denied,
}
use practice_match.Auth.Permissions.Holders.{
  inactive_confined, admin_superset, acts-want_role, is_self_service, is_buyer_act, is_seller_act,
}
use practice_match.Auth.Permissions.Minting.{may_mint-no_escalation, token_principal}
use practice_match.Auth.Guard.{HttpRequest, ParsedUrl, no_port, passes, dependency}
use practice_match.Auth.Guard.Laws.{dependency-passes_iff, is_same_site, is_fresh}
use practice_match.Auth.Sessions.SignOut.{sign_out_everywhere}
use practice_match.Auth.Sessions.{
  contains, doomed, resolve, cache_set, tombstoned_since, SessionRow, Db, load, revoke_all,
  resolve_cached, revoke_all_cache, loaded,
}
use practice_match.Auth.Sessions.Store.{
  lives, Cached, Tombstone, of_account, of_session, Command, set_principal, del_principal,
  set_stamp, sadd, srem, expire_index, del_index, Redis, tombstone_eq, writes_principal,
  writes_stamp,
}
use practice_match.Auth.Sessions.Laws.{revoke_all_cache-stays_out, arrive}
use practice_match.Auth.Sessions.Ended.{revoke_all-load}

abbrev member : List Role → String → Kind → Principal
member roles state kind = record {
  account_id = "acc";
  state = state;
  roles = roles;
  reauth_at = some 100;
  kind = kind;
  session_hash = some "h1";
}

inactive_confined_example :
    allowed true users_review (some (member (admin ∷ []) "suspended" session))
    ≡ is_self_service users_review
inactive_confined_example =
    inactive_confined true (member (admin ∷ []) "suspended" session) users_review refl

admin_superset_example :
    allowed false tokens_manage (some (member (admin ∷ []) "active" token))
    ≡ not (true && token_denied tokens_manage)
admin_superset_example =
    admin_superset false (member (admin ∷ []) "active" token) tokens_manage refl refl

abbrev a_seller : Principal
a_seller = member (seller ∷ []) "active" session

acts-want_role_example :
    ((is_buyer_act request_create && true && allowed true request_create (some a_seller)) ≡ false)
    × ((is_seller_act request_create && false && allowed true request_create (some a_seller))
        ≡ false)
acts-want_role_example = acts-want_role true a_seller request_create refl

abbrev a_staff : Principal
a_staff = member (staff ∷ []) "active" session

staff_may_mint :
    (may_mint staff (staff ∷ []) ≡ true)
    × (administrative users_review ≡ true)
    × (allowed false users_review (some (token_principal "acc" staff)) ≡ true)
unfolding may_mint administrative permissions_of matrix table allowed effective_roles token_denied
staff_may_mint = (refl, refl, refl)

may_mint-no_escalation_example : allowed false users_review (some a_staff) ≡ true
may_mint-no_escalation_example =
    may_mint-no_escalation false a_staff staff users_review refl refl staff_may_mint.0
      staff_may_mint.1 staff_may_mint.2

-- A parser that knows one site, and unary digits.
abbrev urlparse : String → ParsedUrl
urlparse url = record { scheme = "https"; hostname = some url; port = no_port }

abbrev decimal : ℕ → String
decimal n = "0"

abbrev posted : HttpRequest
posted = record {
  method = "POST";
  url = "site";
  csrf_header = some "c";
  csrf_cookie = some "c";
  origin = some "site";
  referer = none;
}

dependency-passes_iff_example :
    (dependency urlparse decimal false [] 400 users_review posted (some a_staff)
      ≡ passes (some a_staff))
    ↔ ((is_same_site urlparse decimal false [] 400 users_review posted (some a_staff)
          && allowed false users_review (some a_staff)
          && is_fresh 400 users_review (some a_staff))
        ≡ true)
dependency-passes_iff_example =
    dependency-passes_iff urlparse decimal false [] 400 users_review posted (some a_staff)

-- A Redis that keeps its keys in functions.
record Keys : Type 0 where
  pub bodies : String → Option Cached
  -- the value, when it was written and the seconds it has
  pub stamps : Tombstone → Option (ℕ × ℕ × ℕ)
  pub indexes : String → List String

abbrev write : ℕ → Command → Keys → Keys
write now (set_principal h c ex) k = record k {
  bodies = λ j. if str_eq h j then some c else k.bodies j;
}
write now (del_principal h) k = record k { bodies = λ j. if str_eq h j then none else k.bodies j }
write now (set_stamp t n ex) k = record k {
  stamps = λ u. if tombstone_eq t u then some (n, now, ex) else k.stamps u;
}
write now (sadd a h) k = record k {
  indexes = λ j. if str_eq a j then h ∷ k.indexes j else k.indexes j;
}
write now (srem a h) k = k
write now (expire_index a) k = k
write now (del_index a) k = record k { indexes = λ j. if str_eq a j then [] else k.indexes j }

tombstone_eq_refl : (t : Tombstone) → tombstone_eq t t ≡ true
tombstone_eq_refl (of_account a) = eq_refl a
tombstone_eq_refl (of_session h) = eq_refl h

abbrev stamp_at : ℕ → Option (ℕ × ℕ × ℕ) → Option ℕ
stamp_at at none = none
stamp_at at (some (n, now, ex)) = if lives now ex at then some n else none

write-bodies :
    (h : String) (c : Command) (now : ℕ) (k : Keys)
    → writes_principal h c ≡ false
    → (write now c k).bodies h ≡ k.bodies h
write-bodies h (set_principal j c ex) now k e = rw e refl
write-bodies h (del_principal j) now k e = rw e refl
write-bodies h (set_stamp t n ex) now k e = refl
write-bodies h (sadd a j) now k e = refl
write-bodies h (srem a j) now k e = refl
write-bodies h (expire_index a) now k e = refl
write-bodies h (del_index a) now k e = refl

write-stamps :
    (t : Tombstone) (c : Command) (now at : ℕ) (k : Keys)
    → writes_stamp t c ≡ false
    → stamp_at at ((write now c k).stamps t) ≡ stamp_at at (k.stamps t)
write-stamps t (set_stamp u n ex) now at k e = rw e refl
write-stamps t (set_principal j c ex) now at k e = refl
write-stamps t (del_principal j) now at k e = refl
write-stamps t (sadd a j) now at k e = refl
write-stamps t (srem a j) now at k e = refl
write-stamps t (expire_index a) now at k e = refl
write-stamps t (del_index a) now at k e = refl

abbrev keys : Redis
keys = record {
  Store = Keys;
  principal = λ h k. k.bodies h;
  stamp = λ t at k. stamp_at at (k.stamps t);
  members = λ a k. k.indexes a;
  exec = write;
  principal-del = λ h now k. rw (eq_refl h) refl;
  principal-other = write-bodies;
  stamp-set = λ t n ex now at k l. rw (tombstone_eq_refl t, l) refl;
  stamp-other = write-stamps;
}

abbrev one_session : Keys
one_session = record {
  bodies = λ h. some (record { a = "acc"; s = "active"; r = staff ∷ []; re = none });
  stamps = λ t. none;
  indexes = λ a. "h1" ∷ [];
}

revoke_all_cache-stays_out_example :
    resolve_cached keys 11 "h1" (
      arrive keys "h1" "acc" 7 8
        ((a_staff, 6, 10) ∷ [])
        (revoke_all_cache keys 8 "acc" ("h2" ∷ []) [] 7 one_session))
    ≡ none
revoke_all_cache-stays_out_example =
    revoke_all_cache-stays_out keys "h1" "acc" 7 8 ("h2" ∷ []) [] one_session
      ((a_staff, 6, 10) ∷ []) 11 refl (refl, tt)

abbrev row : String → String → SessionRow
row h account = record {
  id_hash = h;
  account_id = account;
  last_seen_at = 10;
  expires_at = 1000;
  revoked_at = none;
  reauth_at = none;
  ip = none;
  user_agent = none;
}

abbrev db : Db
db = record {
  sessions = row "h1" "acc" ∷ row "h2" "other" ∷ [];
  accounts =
      record { id = "acc"; state = "active"; roles = staff ∷ [] }
      ∷ record { id = "other"; state = "active"; roles = buyer ∷ [] }
      ∷ [];
}

abbrev still_in : Principal
still_in =
    loaded "h2" (row "h2" "other") (record { id = "other"; state = "active"; roles = buyer ∷ [] })

other_loads : load 20 "h2" ((revoke_all 15 "acc" db).0) ≡ some still_in
unfolding load revoke_all
other_loads = refl

revoke_all-load_example : str_eq still_in.account_id "acc" ≡ false
revoke_all-load_example = revoke_all-load 15 20 "h2" "acc" db still_in other_loads

-- The account's index still names a session of another account.
abbrev stray_index : Keys
stray_index = record one_session { indexes = λ a. "h1" ∷ "h2" ∷ [] }

other_resolves :
    (resolve keys 30 20 8 "h2" (revoke_all 15 "acc" db).0 (
      arrive keys "h2" "acc" 7 8
        ((a_staff, 9, 10) ∷ [])
        (revoke_all_cache keys 8 "acc" (revoke_all 15 "acc" db).1 [] 7 stray_index))).1
    ≡ some still_in
unfolding resolve resolve_cached load revoke_all revoke_all_cache arrive cache_set tombstoned_since
other_resolves = refl

h2_cleared :
    contains "h2" (doomed keys 8 (keys.members "acc" stray_index) (revoke_all 15 "acc" db).1 [])
    ≡ true
unfolding revoke_all
h2_cleared = refl

sign_out_everywhere_example : str_eq still_in.account_id "acc" ≡ false
sign_out_everywhere_example =
    sign_out_everywhere keys "h2" "acc" 7 8 15 30 20 8 db [] stray_index ((a_staff, 9, 10) ∷ [])
      still_in h2_cleared (refl, tt) other_resolves
