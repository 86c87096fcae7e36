-- ===== src/Disclosure/Requests/Invariant.antt =====
-- The constraints of migrations/096_request.sql under every call of app/disclosure/requests.py.
use practice_match.Prelude.{
  ℕ, String, ◌≡◌, sym, ◌∙◌, true, false, inl, inr, Option, some, [], ◌∷◌, All, All-map, keep, arith,
  Bool-cases, subst,
}
use practice_match.Sql.{fetch_one, updated, update-keeps}
use practice_match.Sql.Unique.{Distinct, Keyed}
use practice_match.Disclosure.Levels.{requestable}
use practice_match.Disclosure.Request.{Request, checks, clashes, is_active}
use practice_match.Disclosure.Requests.{
  Table, Reply, done, refused, failed, approve_row, deny_row, revoke_row, has_id, write,
}
use practice_match.Disclosure.Requests.Keys.{owned, clashes_comm, found-Keyed}

pub record IsConsistent (t : Table) : Type 0 where
  pub checked : All (λ r. checks r ≡ true) t
  pub distinct : Distinct clashes t

-- What a call may end in: a table, or a refusal, but no exception of the database.
abbrev pub Ends : Reply Table → Type 0
Ends (done t) = IsConsistent t
Ends (refused x) = Unit
Ends (failed v) = ⊥

-- An assignment that moves no row to another pair, and makes no row active.
pub record IsTame (set : Request → Request) (r : Request) : Type 0 where
  pub same_id : (set r).id ≡ r.id
  pub same_listing : (set r).listing_id ≡ r.listing_id
  pub same_buyer : (set r).buyer_user_id ≡ r.buyer_user_id
  pub quiet : is_active (set r) ≡ true → is_active r ≡ true

clashes_tame :
    (set : Request → Request) (r s : Request)
    → IsTame set r
    → clashes r s ≡ false
    → clashes (set r) s ≡ false
unfolding clashes
clashes_tame set r s h c = elim (Bool-cases (is_active r)) [
  | inl a ↦ rw (h.same_id, h.same_listing, h.same_buyer) (ground arith)
  | inr a ↦ rw (h.same_id, h.same_listing, h.same_buyer) (ground arith)
]

module _ (id : String) (set : Request → Request) where
  -- Every row that the key selects is assigned tamely.
  abbrev pub Tame : Table → Type 0
  Tame t = All (λ s. has_id id s ≡ true → IsTame set s) t

  apart_from :
      (r : Request) (t : Table)
      → Tame t
      → All (λ s. clashes r s ≡ false) t
      → All (λ s. clashes r s ≡ false) (updated (has_id id) set t)
  apart_from r [] h c = tt
  apart_from r (s ∷ t) h c = elim (Bool-cases (has_id id s)) [
    | inl e ↦ rw e (
      clashes_comm r (set s) ∙ clashes_tame set s r (h.0 e) (clashes_comm s r ∙ c.0),
      apart_from r t h.1 c.1,
    )
    | inr e ↦ rw e (c.0, apart_from r t h.1 c.1)
  ]

  all_apart :
      (r : Request) (t : Table)
      → IsTame set r
      → All (λ s. clashes r s ≡ false) t
      → All (λ s. clashes (set r) s ≡ false) t
  all_apart r t h c = All-map _ _ t (λ s e. clashes_tame set r s h e) c

  updated-Distinct :
      (t : Table) → Tame t → Distinct clashes t → Distinct clashes (updated (has_id id) set t)
  updated-Distinct [] h d = tt
  updated-Distinct (r ∷ t) h d = elim (Bool-cases (has_id id r)) [
    | inl e ↦
        rw e (apart_from (set r) t h.1 (all_apart r t (h.0 e) d.0), updated-Distinct t h.1 d.1)
    | inr e ↦ rw e (apart_from r t h.1 d.0, updated-Distinct t h.1 d.1)
  ]

  -- An UPDATE of one row, that keeps its checks and is tame on it.
  pub write-Ends :
      (t : Table)
      → IsConsistent t
      → ((s : Request) → checks s ≡ true → checks (set s) ≡ true)
      → Tame t
      → Ends (write id set t)
  write-Ends t c keeps tame =
      let (wrote, checked) =
        update-keeps (λ s. checks s ≡ true) checks (has_id id) set (λ s e. e) (λ s e k. keeps s e) t
          c.checked in
      rw wrote (record { checked = checked; distinct = updated-Distinct t tame c.distinct })

pub approve_row-checks :
    (now : ℕ) (seller level : String) (r : Request)
    → requestable level ≡ true
    → checks r ≡ true
    → checks (approve_row now seller level r) ≡ true
unfolding checks approve_row
approve_row-checks now seller level r e h = ground arith

pub deny_row-checks :
    (now : ℕ) (seller : String) (reason : Option String) (r : Request)
    → checks r ≡ true
    → checks (deny_row now seller reason r) ≡ true
unfolding checks deny_row
deny_row-checks now seller reason r h = ground arith

pub revoke_row-checks : (now : ℕ) (r : Request) → checks r ≡ true → checks (revoke_row now r) ≡ true
unfolding checks revoke_row
revoke_row-checks now r h = ground arith

module _ (now : ℕ) (id seller : String) (t : Table) (c : IsConsistent t) where
  pub Tame-at :
      (r : Request) (set : Request → Request)
      → fetch_one (keep (owned id seller) t) ≡ some r
      → IsTame set r
      → Tame id set t
  Tame-at r set found h =
      All-map (Keyed clashes (has_id id) r) _ t
        (λ s k e. elim k [
          | inl (same, key) ↦ subst (IsTame set) (sym same) h
          | inr (key, apart) ↦ absurd (ground arith)
        ])
        (found-Keyed id seller r t c.distinct found)
