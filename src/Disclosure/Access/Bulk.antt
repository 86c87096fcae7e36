-- ===== src/Disclosure/Access/Bulk.antt =====
-- app/disclosure/access.py: the one query of `authorized_capabilities_bulk` answers what
-- `authorized_capabilities` answers for each listing.
use practice_match.Prelude.{
  ℕ, String, ◌≡◌, refl, ◌∙◌, Bool, true, false, not, ◌&&◌, inl, inr, Bool-cases, Option, none, some,
  List, [], ◌∷◌, All, All-map, All-zip, keep, arith, str_eq, eq_iff, eq_refl,
}
use practice_match.Sql.{fetch_one}
use practice_match.Sql.Unique.{Distinct}
use practice_match.Disclosure.Levels.{Capability, covers}
use practice_match.Disclosure.Request.{Request, clashes, is_active}
use practice_match.Disclosure.Access.{
  authorized_capabilities, authorized_capabilities_bulk, is_grant, is_own, covered, Result,
  no_grants, foreign_ids, fill, listed,
}
use practice_match.Disclosure.Requests.Laws.{sees, other_pair}
use practice_match.Disclosure.Requests.Keys.{str_eq_comm}

abbrev or_else : Option (List Capability) → Option Request → Option (List Capability)
or_else old none = old
or_else old (some r) = some (covers r.approved_disclosure_level)

module _ (now : ℕ) (buyer : String) (ids : List String) (l : String) where
  abbrev wanted : Request → Bool
  wanted r = listed ids r.listing_id && is_grant now buyer r

  listed_eq : (k : String) → str_eq k l ≡ true → listed ids k ≡ listed ids l
  listed_eq k e = rw ((eq_iff k l).0 e) refl

  -- Rows of other listings do not touch the entry of `l`.
  fill-other :
      (t : List Request) (result : Result)
      → All (λ r. (wanted r && str_eq r.listing_id l) ≡ false) t
      → fill (keep wanted t) result l ≡ result l
  unfolding fill
  fill-other [] result h = refl
  fill-other (x ∷ xs) result h = elim (Bool-cases (wanted x)) [
    | inl b ↦ rw b (fill-other xs _ h.1 ∙ ground (arith, h.0))
    | inr b ↦ rw b (fill-other xs result h.1)
  ]

  not_wanted :
      (t : List Request)
      → listed ids l ≡ false
      → All (λ r. (wanted r && str_eq r.listing_id l) ≡ false) t
  not_wanted [] e = tt
  not_wanted (r ∷ t) e = (ground (arith, listed_eq r.listing_id), not_wanted t e)

  -- Beside an active request of the pair no other row is a grant of it.
  not_seen :
      (x s : Request)
      → is_active x ≡ true
      → str_eq x.listing_id l ≡ true
      → str_eq x.buyer_user_id buyer ≡ true
      → clashes x s ≡ false
      → (wanted s && str_eq s.listing_id l) ≡ false
  not_seen x s a e e' c = ground (
    arith,
    other_pair now x s a c,
    eq_iff x.listing_id l,
    eq_iff x.buyer_user_id buyer,
    eq_iff s.listing_id x.listing_id,
    eq_iff s.listing_id l,
    eq_iff s.buyer_user_id x.buyer_user_id,
    eq_iff s.buyer_user_id buyer,
  )

  fill-same :
      (t : List Request) (result : Result)
      → listed ids l ≡ true
      → Distinct clashes t
      → fill (keep wanted t) result l ≡ or_else (result l) (fetch_one (keep (sees now l buyer) t))
  unfolding fill
  fill-same [] result e d = refl
  fill-same (x ∷ xs) result e d = elim (Bool-cases (str_eq x.listing_id l)) [
    | inl here ↦ elim (Bool-cases (is_grant now buyer x)) [
      | inl granted ↦
          rw (listed_eq x.listing_id here, e, here, granted)
            (fill-other xs _ (
                All-map (λ s. clashes x s ≡ false) _ xs
                  (λ s c. not_seen x s (ground arith) here (ground arith) c) d.0)
              ∙ rw here refl)
      | inr b ↦ rw (listed_eq x.listing_id here, e, here, b) (fill-same xs result e d.1)
    ]
    | inr away ↦ elim (Bool-cases (wanted x)) [
      | inl b ↦ rw (b, away) (fill-same xs _ e d.1 ∙ rw away refl)
      | inr b ↦ rw (b, away) (fill-same xs result e d.1)
    ]
  ]

-- Every listing is named once.
abbrev pub Once : List (String × Option String) → Type 0
Once [] = Unit
Once ((l, s) ∷ rest) = All (λ p. str_eq l p.0 ≡ false) rest × Once rest

no_grants-at :
    (listings : List (String × Option String))
    → All (λ p. no_grants listings p.0 ≡ some []) listings
unfolding no_grants
no_grants-at [] = tt
no_grants-at ((l, s) ∷ rest) =
    (rw (eq_refl l) refl, All-map _ _ rest (λ p e. ground (arith, e)) (no_grants-at rest))

or_else-covered : (o : Option Request) → or_else (some []) o ≡ some (covered o)
or_else-covered none = refl
or_else-covered (some r) = refl

-- One listing of the bulk answer.
single :
    (now : ℕ) (buyer : String) (listings : List (String × Option String)) (t : List Request)
    → Distinct clashes t
    → (l : String) (s : Option String) → no_grants listings l ≡ some []
    → listed (foreign_ids buyer listings) l ≡ not (is_own s buyer)
    → authorized_capabilities_bulk now (some buyer) listings t l
      ≡ some (authorized_capabilities now l s (some buyer) t)
unfolding authorized_capabilities authorized_capabilities_bulk
single now buyer listings t d l s empty mine = elim (Bool-cases (is_own s buyer)) [
  | inl own ↦ rw own (
      fill-other now buyer (foreign_ids buyer listings) l t (no_grants listings)
        (not_wanted now buyer (foreign_ids buyer listings) l t (rw own at mine))
      ∙ empty)
  | inr foreign ↦ rw foreign (
      fill-same now buyer (foreign_ids buyer listings) l t (no_grants listings) (rw foreign at mine)
        d
      ∙ rw empty (or_else-covered (fetch_one (keep (sees now l buyer) t))))
]

module _ (buyer : String) where
  foreign_ids-absent :
      (l : String) (rest : List (String × Option String))
      → All (λ p. str_eq l p.0 ≡ false) rest
      → listed (foreign_ids buyer rest) l ≡ false
  unfolding foreign_ids
  foreign_ids-absent l [] h = refl
  foreign_ids-absent l ((k, s) ∷ rest) h = ground (arith, h.0, foreign_ids-absent l rest h.1)

  foreign_ids-at :
      (listings : List (String × Option String))
      → Once listings
      → All (λ p. listed (foreign_ids buyer listings) p.0 ≡ not (is_own p.1 buyer)) listings
  unfolding foreign_ids
  foreign_ids-at [] h = tt
  foreign_ids-at ((l, s) ∷ rest) h = (
    ground (arith, foreign_ids-absent l rest h.0, eq_refl l),
    All-map _ _ rest (λ p e. ground (arith, e, str_eq_comm l p.0))
        (All-zip _ _ rest h.0 (foreign_ids-at rest h.1)),
  )

-- In a table in which no two requests clash, and for listings each named once, the one query of the
-- bulk form answers for every listing what the single form answers for it, whoever asks.
pub authorized_capabilities_bulk-eq :
    (now : ℕ) (buyer : Option String) (listings : List (String × Option String)) (t : List Request)
    → Distinct clashes t
    → Once listings
    → All
        (λ p.
          authorized_capabilities_bulk now buyer listings t p.0
          ≡ some (authorized_capabilities now p.0 p.1 buyer t))
        listings
unfolding authorized_capabilities authorized_capabilities_bulk
authorized_capabilities_bulk-eq now none listings t d h = no_grants-at listings
authorized_capabilities_bulk-eq now (some buyer) listings t d h =
    All-map _ _ listings (λ p (empty, mine). single now buyer listings t d p.0 p.1 empty mine)
      (All-zip _ _ listings (no_grants-at listings) (foreign_ids-at buyer listings h))
