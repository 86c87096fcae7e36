-- ===== src/Disclosure/Requests/History.antt =====
-- Every call of app/disclosure/requests.py, and histories of such calls from an empty table.
use practice_match.Prelude.{
  All, ℕ, String, ◌≡◌, refl, true, false, inl, inr, Option, none, some, List, [], ◌∷◌, any, keep,
  arith, str_eq, Bool-cases, Option-cases,
}
use practice_match.Sql.{fetch_one, insert}
use practice_match.Sql.Unique.{any-All, fetch_one-All}
use practice_match.Disclosure.Levels.{requestable}
use practice_match.Disclosure.Request.{Request, checks, clashes, pending, approved, status_eq}
use practice_match.Disclosure.Requests.{
  Table, Reply, done, refused, failed, ◌>>=◌, Listing, create, create_for, approve, deny, other,
  decide, revoke, approve_row, deny_row, revoke_row, chosen_level, new_request,
  owned_pending_or_approved, inserted, referenced,
}
use practice_match.Disclosure.Requests.Keys.{owned, str_eq_comm}
use practice_match.Disclosure.Requests.Isolation.{Decision, decides, revokes, perform}
use practice_match.Disclosure.Requests.Invariant.{
  IsConsistent, Ends, Tame-at, write-Ends, approve_row-checks, deny_row-checks, revoke_row-checks,
}

module _ (now : ℕ) (id seller : String) (t : Table) (c : IsConsistent t) where
  unowned-Ends :
      (d : Decision)
      → fetch_one (keep (owned id seller) t) ≡ none
      → Ends (perform now id seller d t)
  unfolding perform decide revoke owned_pending_or_approved
  unowned-Ends (decides approve level reason) e = rw e tt
  unowned-Ends (decides deny level reason) e = rw e tt
  unowned-Ends (decides (other action) level reason) e = rw e tt
  unowned-Ends revokes e = rw e tt

  module _ (r : Request) (found : fetch_one (keep (owned id seller) t) ≡ some r) where
    approve-Ends :
        (level reason : Option String) → Ends (decide now id seller approve level reason t)
    unfolding decide owned_pending_or_approved approve_row
    approve-Ends level reason = elim (Bool-cases (status_eq r.status pending)) [
      | inr b ↦ rw (found, b) tt
      | inl b ↦
          let given = chosen_level level r.requested_disclosure_level in
          elim (Bool-cases (requestable given)) [
            | inr b' ↦ rw (found, b, b') tt
            | inl b' ↦
                rw (found, b, b')
                  (write-Ends id (approve_row now seller given) t c
                    (λ s h. approve_row-checks now seller given s b' h)
                    (Tame-at now id seller t c r (approve_row now seller given) found (record {
                      same_id = refl;
                      same_listing = refl;
                      same_buyer = refl;
                      quiet = λ q. ground arith;
                    })))
          ]
    ]

    deny-Ends : (level reason : Option String) → Ends (decide now id seller deny level reason t)
    unfolding decide owned_pending_or_approved deny_row
    deny-Ends level reason = elim (Bool-cases (status_eq r.status pending)) [
      | inr b ↦ rw (found, b) tt
      | inl b ↦
          rw (found, b)
            (write-Ends id (deny_row now seller reason) t c (deny_row-checks now seller reason) (
              Tame-at now id seller t c r (deny_row now seller reason) found (record {
                same_id = refl;
                same_listing = refl;
                same_buyer = refl;
                quiet = λ q. ground arith;
              })))
    ]

    revoke-Ends : Ends (revoke now id seller t)
    unfolding revoke owned_pending_or_approved revoke_row
    revoke-Ends = elim (Bool-cases (status_eq r.status approved)) [
      | inr b ↦ rw (found, b) tt
      | inl b ↦
          rw (found, b)
            (write-Ends id (revoke_row now) t c (revoke_row-checks now) (
              Tame-at now id seller t c r (revoke_row now) found (record {
                same_id = refl;
                same_listing = refl;
                same_buyer = refl;
                quiet = λ q. ground arith;
              })))
    ]

    other-Ends :
        (action : String) (level reason : Option String)
        → Ends (decide now id seller (other action) level reason t)
    unfolding decide owned_pending_or_approved
    other-Ends action level reason = elim (Bool-cases (status_eq r.status pending)) [
      | inr b ↦ rw (found, b) tt
      | inl b ↦ rw (found, b) tt
    ]

    owned-Ends : (d : Decision) → Ends (perform now id seller d t)
    unfolding perform
    owned-Ends (decides approve level reason) = approve-Ends level reason
    owned-Ends (decides deny level reason) = deny-Ends level reason
    owned-Ends (decides (other action) level reason) = other-Ends action level reason
    owned-Ends revokes = revoke-Ends

  perform-Ends : (d : Decision) → Ends (perform now id seller d t)
  perform-Ends d = elim (Option-cases (fetch_one (keep (owned id seller) t))) [
    | inl missing ↦ unowned-Ends d missing
    | inr (r, found) ↦ owned-Ends r found d
  ]

-- The foreign key of listing.seller_id.
abbrev pub OnAccount : List String → Listing → Type 0
OnAccount accounts l =
    (seller : String) → l.seller_id ≡ some seller → any (str_eq seller) accounts ≡ true

abbrev pub table_of : Reply (Table × Request) → Reply Table
table_of reply = reply >>= λ p. done p.0

module _ (accounts : List String) (now : ℕ) (id listing buyer : String) (message : Option String)
    (level : String) (t : Table) (c : IsConsistent t) (asked : requestable level ≡ true)
    (known : any (str_eq buyer) accounts ≡ true) where
  new_request-checks :
      (seller : String)
      → str_eq seller buyer ≡ false
      → checks (new_request now id listing buyer seller message level) ≡ true
  unfolding checks
  new_request-checks seller e = rw (asked, str_eq_comm buyer seller, e) refl

  insert-Ends :
      (seller : String)
      → str_eq seller buyer ≡ false
      → any (str_eq seller) accounts ≡ true
      → Ends (
          table_of (
            inserted (new_request now id listing buyer seller message level) (
              referenced accounts
                (new_request now id listing buyer seller message level)
                (insert checks clashes (new_request now id listing buyer seller message level) t))))
  unfolding insert
  insert-Ends seller e owned_so =
      let row = new_request now id listing buyer seller message level in
      let sound = new_request-checks seller e in
      elim (Bool-cases (any (clashes row) t)) [
        | inl b ↦ rw (sound, b) tt
        | inr b ↦
            rw (sound, b, known, owned_so)
              (record {
                checked = (sound, c.checked);
                distinct = (any-All clashes row t b, c.distinct);
              })
      ]

  create_for-Ends :
      (found : Option Listing)
      → ((l : Listing) → found ≡ some l → OnAccount accounts l)
      → Ends (table_of (create_for accounts now id listing buyer message level found t))
  unfolding create_for
  create_for-Ends none owners = tt
  create_for-Ends (some l) owners = elim (Option-cases l.seller_id) [
    | inl e ↦ rw e tt
    | inr (seller, e) ↦ elim (Bool-cases (str_eq seller buyer)) [
      | inl b ↦ rw (e, b) tt
      | inr b ↦ rw (e, b) (insert-Ends seller b (owners l refl seller e))
    ]
  ]

pub data Call : Type 0 where
  -- id, listing, buyer, message, level
  creates : String → String → String → Option String → String → Call
  -- id, seller
  decided : String → String → Decision → Call

-- The buyer of a creation has an account.
abbrev pub HasAccount : List String → Call → Type 0
HasAccount accounts (creates id listing buyer message level) = any (str_eq buyer) accounts ≡ true
HasAccount accounts (decided id seller d) = Unit

module _ (accounts : List String) (listings : List Listing) where
  unfoldable pub apply : ℕ → Call → Table → Reply Table
  apply now (creates id listing buyer message level) t =
      table_of (create accounts now id listing buyer message level listings t)
  apply now (decided id seller d) t = perform now id seller d t

  apply-Ends :
      (now : ℕ) (c : Call) (t : Table)
      → All (OnAccount accounts) listings
      → HasAccount accounts c
      → IsConsistent t
      → Ends (apply now c t)
  unfolding apply create
  apply-Ends now (decided id seller d) t owners k h = perform-Ends now id seller t h d
  apply-Ends now (creates id listing buyer message level) t owners k h =
      elim (Bool-cases (requestable level)) [
        | inr b ↦ rw b tt
        | inl b ↦ rw b (
            create_for-Ends accounts now id listing buyer message level t h b k _
              (λ l e. (fetch_one-All (OnAccount accounts) _ listings l owners e).0))
      ]

  -- A call that is refused or that raises leaves the table as it was.
  abbrev or_unchanged : Table → Reply Table → Table
  or_unchanged t (done t') = t'
  or_unchanged t (refused x) = t
  or_unchanged t (failed v) = t

  unfoldable pub history : List (ℕ × Call) → Table → Table
  history [] t = t
  history ((now, c) ∷ rest) t = history rest (or_unchanged t (apply now c t))

  kept :
      (t : Table) (reply : Reply Table)
      → IsConsistent t
      → Ends reply
      → IsConsistent (or_unchanged t reply)
  kept t (done t') h e = e
  kept t (refused x) h e = h
  kept t (failed v) h e = h

  pub history-IsConsistent :
      (es : List (ℕ × Call)) (t : Table)
      → All (OnAccount accounts) listings
      → All (λ e. HasAccount accounts e.1) es
      → IsConsistent t
      → IsConsistent (history es t)
  unfolding history
  history-IsConsistent [] t owners ks h = h
  history-IsConsistent ((now, c) ∷ rest) t owners ks h =
      history-IsConsistent rest _ owners ks.1
        (kept t (apply now c t) h (apply-Ends now c t owners ks.0 h))
