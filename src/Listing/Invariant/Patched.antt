-- ===== src/Listing/Invariant/Patched.antt =====
-- app/api/seller_listings.py: the row that the UPDATE of `patch_step` leaves is sound again.
use practice_match.Prelude.{
  ℕ, String, ◌≡◌, refl, ap, true, false, not, ◌&&◌, ◌||◌, Option, none, some, List, [], ◌∷◌, ◌++◌,
  any, All, is_some, arith, Option-cases, ◌==◌, Bool-cases, inl, inr,
}
use practice_match.Listing.Row.{
  Listing, among, complete, listing_type_check, listing_bldg_check, column_types,
  listing_submittable_ck,
}
use practice_match.Listing.Fields.{Assign, sets_area, city_in}
use practice_match.Listing.Fields.Sound.{IsFine, FineColumns}
use practice_match.Listing.Patch.{assign, assign_all, clears, exempt, patched, touched}
use practice_match.Listing.Handler.{reenters_review, sent_back}
use practice_match.Listing.Invariant.{IsSound}
use practice_match.Listing.Invariant.Columns.{
  IsTyped, IsPlaced, fixed, city_in-none, assign_all-IsTyped, assign_all-fixed, assign_all-complete,
  assign_all-append, assign_all-city,
}

-- What the columns of a step leave of a row.
record IsSaved (r r' : Listing) : Type 0 where
  pub values : IsTyped r'
  pub status : r'.status ≡ r.status
  pub state : r'.state ≡ r.state
  pub market : r'.market ≡ r.market
  pub placed : IsPlaced r'

module _ (step : ℕ) (r : Listing) (h : IsSound r) (out : List Assign)
    (fine : All (IsFine step) out) where
  values_saved : IsTyped (assign_all out r)
  values_saved =
      assign_all-IsTyped step out r fine
        (record { typed = h.typed; housed = h.housed; fitting = h.fitting })

  kept : fixed (assign_all out r) ≡ fixed r
  kept = assign_all-fixed step out r fine

  without_city : city_in out ≡ none → IsSaved r (assign_all out r)
  without_city e = record {
    values = values_saved;
    status = ap (λ x. x.0) kept;
    state = ap (λ x. x.1.0) kept;
    market = ap (λ x. x.1.1.0) kept;
    placed =
        let area = ap (λ x. x.1.1.1) kept in
        let city = assign_all-city out r in rw (area, city, e) h.placed;
  }

  with_city :
      (v : Option String)
      → city_in out ≡ some v
      → IsSaved r (assign_all (out ++ sets_area v ∷ []) r)
  unfolding assign listing_type_check listing_bldg_check column_types
  with_city v e = record {
    values = rw (assign_all-append out v r) (record {
      typed = values_saved.typed;
      housed = values_saved.housed;
      fitting = values_saved.fitting;
    });
    status = rw (assign_all-append out v r) (ap (λ x. x.0) kept);
    state = rw (assign_all-append out v r) (ap (λ x. x.1.0) kept);
    market = rw (assign_all-append out v r) (ap (λ x. x.1.1.0) kept);
    placed = let city = assign_all-city out r in rw (assign_all-append out v r, city, e) (either v);
  }
    where
      either : (v : Option String) → (not (is_some v) || is_some v) ≡ true
      either none = refl
      either (some s) = refl

columns-IsSaved :
    (step : ℕ) (r : Listing) (out' : List Assign)
    → IsSound r
    → FineColumns step out'
    → IsSaved r (assign_all out' r)
columns-IsSaved step r out' h (out, fine, e) = elim (Bool-cases (step == 2)) [
  | inl two ↦ elim (Option-cases (city_in out)) [
    | inl none_set ↦ rw (e, two, none_set) (without_city step r h out fine none_set)
    | inr (v, set) ↦ rw (e, two, set) (with_city step r h out fine v set)
  ]
  | inr other ↦ rw (e, other) (without_city step r h out fine (city_in-none step out other fine))
]

complete_after :
    (r : Listing) (out : List Assign)
    → IsSound r
    → (any clears out && not (among exempt r.status)) ≡ false
    → among exempt r.status ≡ false
    → complete (assign_all out r) ≡ true
unfolding listing_submittable_ck
complete_after r out h e submitted =
    assign_all-complete out r (ground (arith, e, submitted))
      (ground (arith, h.submittable, submitted))

module _ (now step : ℕ) (r : Listing) (h : IsSound r) (out : List Assign)
    (fine : FineColumns step out)
    (e : (any clears out && not (among exempt r.status)) ≡ false) where
  saved : IsSaved r (assign_all out r)
  saved = columns-IsSaved step r out h fine

  sent_back_after : among exempt r.status ≡ false → IsSound (sent_back now (assign_all out r))
  unfolding listing_type_check listing_bldg_check column_types listing_submittable_ck
  sent_back_after submitted = record {
    typed = saved.values.typed;
    housed = saved.values.housed;
    fitting = saved.values.fitting;
    submittable = complete_after r out h e submitted;
    placed = saved.placed;
    paired = rw (saved.state, saved.market) h.paired;
    settled = refl;
  }

  touched_after : among reenters_review r.status ≡ false → IsSound (touched now (assign_all out r))
  unfolding listing_type_check listing_bldg_check column_types listing_submittable_ck
  touched_after off = record {
    typed = saved.values.typed;
    housed = saved.values.housed;
    fitting = saved.values.fitting;
    submittable = elim (Bool-cases (among exempt r.status)) [
      | inl x ↦ rw (saved.status) (ground (arith, x))
      | inr x ↦ let c = complete_after r out h e x in ground (arith, c)
    ];
    placed = saved.placed;
    paired = rw (saved.state, saved.market) h.paired;
    settled = rw (saved.status) (ground (arith, off));
  }

  pub patched-IsSound : IsSound (patched now out r)
  unfolding patched
  patched-IsSound = elim (Bool-cases (among reenters_review r.status)) [
    | inl x ↦ rw x (sent_back_after (ground (arith, x)))
    | inr x ↦ rw x (touched_after x)
  ]

  -- A save leaves the listing off the market.
  pub patched-status : among reenters_review (patched now out r).status ≡ false
  unfolding patched
  patched-status = elim (Bool-cases (among reenters_review r.status)) [
    | inl x ↦ rw x refl
    | inr x ↦ rw (x, saved.status) x
  ]
