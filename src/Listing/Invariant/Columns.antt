-- ===== src/Listing/Invariant/Columns.antt =====
-- app/api/seller_listings.py: what the assignments of one step make of a row, column by column.
use practice_match.Prelude.{
  ℕ, String, ◌≡◌, refl, ◌∙◌, true, false, not, ◌||◌, Option, none, some, List, [], ◌∷◌, ◌++◌, any,
  All, is_some, arith, ◌==◌,
}
use practice_match.Listing.Row.{
  Listing, Status, complete, listing_type_check, listing_bldg_check, column_types,
}
use practice_match.Listing.Fields.{
  Assign, sets_number, sets_text, sets_choice, sets_bldg, sets_name_disclosed,
  sets_location_disclosed, sets_rev_disclosed, sets_documents_disclosed, sets_visibility, sets_area,
  money, price, rev, count, est, docs, rooms, sqft, name, city, zip, hours, desc, facility, type,
  ownership, facility_type, city_in,
}
use practice_match.Listing.Fields.Sound.{IsFine}
use practice_match.Listing.Patch.{assign, assign_all, clears}

-- The checks of a row's values.
pub record IsTyped (r : Listing) : Type 0 where
  pub typed : listing_type_check r ≡ true
  pub housed : listing_bldg_check r ≡ true
  pub fitting : column_types r ≡ true

module _ (step : ℕ) where
  assign-IsTyped : (a : Assign) (r : Listing) → IsFine step a → IsTyped r → IsTyped (assign a r)
  unfolding assign listing_type_check listing_bldg_check column_types
  assign-IsTyped (sets_number (money price) v) r f h = record {
    typed = h.typed;
    housed = h.housed;
    fitting = ground (arith, f, h.fitting);
  }
  assign-IsTyped (sets_number (money rev) v) r f h = record {
    typed = h.typed;
    housed = h.housed;
    fitting = ground (arith, f, h.fitting);
  }
  assign-IsTyped (sets_number (count est) v) r f h = record {
    typed = h.typed;
    housed = h.housed;
    fitting = ground (arith, f, h.fitting);
  }
  assign-IsTyped (sets_number (count docs) v) r f h = record {
    typed = h.typed;
    housed = h.housed;
    fitting = ground (arith, f, h.fitting);
  }
  assign-IsTyped (sets_number (count rooms) v) r f h = record {
    typed = h.typed;
    housed = h.housed;
    fitting = ground (arith, f, h.fitting);
  }
  assign-IsTyped (sets_number (count sqft) v) r f h = record {
    typed = h.typed;
    housed = h.housed;
    fitting = ground (arith, f, h.fitting);
  }
  assign-IsTyped (sets_text name v) r f h = record {
    typed = h.typed;
    housed = h.housed;
    fitting = h.fitting;
  }
  assign-IsTyped (sets_text city v) r f h = record {
    typed = h.typed;
    housed = h.housed;
    fitting = h.fitting;
  }
  assign-IsTyped (sets_text zip v) r f h = record {
    typed = h.typed;
    housed = h.housed;
    fitting = h.fitting;
  }
  assign-IsTyped (sets_text hours v) r f h = record {
    typed = h.typed;
    housed = h.housed;
    fitting = h.fitting;
  }
  assign-IsTyped (sets_text desc v) r f h = record {
    typed = h.typed;
    housed = h.housed;
    fitting = h.fitting;
  }
  assign-IsTyped (sets_text facility v) r f h = record {
    typed = h.typed;
    housed = h.housed;
    fitting = h.fitting;
  }
  assign-IsTyped (sets_choice type v) r f h = record {
    typed = f;
    housed = h.housed;
    fitting = h.fitting;
  }
  assign-IsTyped (sets_choice ownership v) r f h = record {
    typed = h.typed;
    housed = h.housed;
    fitting = h.fitting;
  }
  assign-IsTyped (sets_choice facility_type v) r f h = record {
    typed = h.typed;
    housed = h.housed;
    fitting = h.fitting;
  }
  assign-IsTyped (sets_bldg v) r f h = record { typed = h.typed; housed = f; fitting = h.fitting }
  assign-IsTyped (sets_name_disclosed v) r f h = record {
    typed = h.typed;
    housed = h.housed;
    fitting = h.fitting;
  }
  assign-IsTyped (sets_location_disclosed v) r f h = record {
    typed = h.typed;
    housed = h.housed;
    fitting = h.fitting;
  }
  assign-IsTyped (sets_rev_disclosed v) r f h = record {
    typed = h.typed;
    housed = h.housed;
    fitting = h.fitting;
  }
  assign-IsTyped (sets_documents_disclosed v) r f h = record {
    typed = h.typed;
    housed = h.housed;
    fitting = h.fitting;
  }
  assign-IsTyped (sets_visibility v) r f h = record {
    typed = h.typed;
    housed = h.housed;
    fitting = h.fitting;
  }
  assign-IsTyped (sets_area v) r f h = absurd f

-- What the columns of a step leave alone.
abbrev pub Fixed : Type 0
Fixed = Status × (Option String × (Option String × Option String))

abbrev pub fixed : Listing → Fixed
fixed r = (r.status, (r.state, (r.market, r.area)))

module _ (step : ℕ) where
  assign-fixed : (a : Assign) (r : Listing) → IsFine step a → fixed (assign a r) ≡ fixed r
  unfolding assign
  assign-fixed (sets_number (money price) v) r f = refl
  assign-fixed (sets_number (money rev) v) r f = refl
  assign-fixed (sets_number (count est) v) r f = refl
  assign-fixed (sets_number (count docs) v) r f = refl
  assign-fixed (sets_number (count rooms) v) r f = refl
  assign-fixed (sets_number (count sqft) v) r f = refl
  assign-fixed (sets_text name v) r f = refl
  assign-fixed (sets_text city v) r f = refl
  assign-fixed (sets_text zip v) r f = refl
  assign-fixed (sets_text hours v) r f = refl
  assign-fixed (sets_text desc v) r f = refl
  assign-fixed (sets_text facility v) r f = refl
  assign-fixed (sets_choice type v) r f = refl
  assign-fixed (sets_choice ownership v) r f = refl
  assign-fixed (sets_choice facility_type v) r f = refl
  assign-fixed (sets_bldg v) r f = refl
  assign-fixed (sets_name_disclosed v) r f = refl
  assign-fixed (sets_location_disclosed v) r f = refl
  assign-fixed (sets_rev_disclosed v) r f = refl
  assign-fixed (sets_documents_disclosed v) r f = refl
  assign-fixed (sets_visibility v) r f = refl
  assign-fixed (sets_area v) r f = absurd f

assign-complete :
    (a : Assign) (r : Listing) → clears a ≡ false → complete r ≡ true → complete (assign a r) ≡ true
unfolding assign
assign-complete (sets_number (money price) none) r e h = absurd (cc e)
assign-complete (sets_number (money price) (some v)) r e h = ground arith
assign-complete (sets_number (money rev) v) r e h = h
assign-complete (sets_number (count est) none) r e h = absurd (cc e)
assign-complete (sets_number (count est) (some v)) r e h = ground arith
assign-complete (sets_number (count docs) v) r e h = h
assign-complete (sets_number (count rooms) v) r e h = h
assign-complete (sets_number (count sqft) v) r e h = h
assign-complete (sets_text name none) r e h = absurd (cc e)
assign-complete (sets_text name (some v)) r e h = ground arith
assign-complete (sets_text city none) r e h = absurd (cc e)
assign-complete (sets_text city (some v)) r e h = ground arith
assign-complete (sets_text zip none) r e h = absurd (cc e)
assign-complete (sets_text zip (some v)) r e h = ground arith
assign-complete (sets_text hours v) r e h = h
assign-complete (sets_text desc v) r e h = h
assign-complete (sets_text facility v) r e h = h
assign-complete (sets_choice type v) r e h = ground arith
assign-complete (sets_choice ownership v) r e h = h
assign-complete (sets_choice facility_type v) r e h = h
assign-complete (sets_bldg v) r e h = h
assign-complete (sets_name_disclosed v) r e h = h
assign-complete (sets_location_disclosed v) r e h = h
assign-complete (sets_rev_disclosed v) r e h = h
assign-complete (sets_documents_disclosed v) r e h = h
assign-complete (sets_visibility v) r e h = h
assign-complete (sets_area v) r e h = h

-- The city after the columns.
abbrev pub or_old : Option (Option String) → Option String → Option String
or_old none old = old
or_old (some v) old = v

later :
    (o : Option (Option String)) (v old : Option String)
    → or_old o v
      ≡ or_old (elim o as (λ x. Option (Option String)) [ none ↦ some v | some w ↦ some w ]) old
later none v old = refl
later (some w) v old = refl

pub assign_all-city :
    (out : List Assign) (r : Listing) → (assign_all out r).city ≡ or_old (city_in out) r.city
unfolding assign_all assign
assign_all-city [] r = refl
assign_all-city (sets_number (money price) v ∷ out) r =
    assign_all-city out (assign (sets_number (money price) v) r)
assign_all-city (sets_number (money rev) v ∷ out) r =
    assign_all-city out (assign (sets_number (money rev) v) r)
assign_all-city (sets_number (count est) v ∷ out) r =
    assign_all-city out (assign (sets_number (count est) v) r)
assign_all-city (sets_number (count docs) v ∷ out) r =
    assign_all-city out (assign (sets_number (count docs) v) r)
assign_all-city (sets_number (count rooms) v ∷ out) r =
    assign_all-city out (assign (sets_number (count rooms) v) r)
assign_all-city (sets_number (count sqft) v ∷ out) r =
    assign_all-city out (assign (sets_number (count sqft) v) r)
assign_all-city (sets_text name v ∷ out) r = assign_all-city out (assign (sets_text name v) r)
assign_all-city (sets_text city v ∷ out) r =
    assign_all-city out (assign (sets_text city v) r) ∙ later (city_in out) v r.city
assign_all-city (sets_text zip v ∷ out) r = assign_all-city out (assign (sets_text zip v) r)
assign_all-city (sets_text hours v ∷ out) r = assign_all-city out (assign (sets_text hours v) r)
assign_all-city (sets_text desc v ∷ out) r = assign_all-city out (assign (sets_text desc v) r)
assign_all-city (sets_text facility v ∷ out) r =
    assign_all-city out (assign (sets_text facility v) r)
assign_all-city (sets_choice type v ∷ out) r = assign_all-city out (assign (sets_choice type v) r)
assign_all-city (sets_choice ownership v ∷ out) r =
    assign_all-city out (assign (sets_choice ownership v) r)
assign_all-city (sets_choice facility_type v ∷ out) r =
    assign_all-city out (assign (sets_choice facility_type v) r)
assign_all-city (sets_bldg v ∷ out) r = assign_all-city out (assign (sets_bldg v) r)
assign_all-city (sets_name_disclosed v ∷ out) r =
    assign_all-city out (assign (sets_name_disclosed v) r)
assign_all-city (sets_location_disclosed v ∷ out) r =
    assign_all-city out (assign (sets_location_disclosed v) r)
assign_all-city (sets_rev_disclosed v ∷ out) r =
    assign_all-city out (assign (sets_rev_disclosed v) r)
assign_all-city (sets_documents_disclosed v ∷ out) r =
    assign_all-city out (assign (sets_documents_disclosed v) r)
assign_all-city (sets_visibility v ∷ out) r = assign_all-city out (assign (sets_visibility v) r)
assign_all-city (sets_area v ∷ out) r = assign_all-city out (assign (sets_area v) r)

abbrev pub IsPlaced : Listing → Type 0
IsPlaced r = (not (is_some r.city) || is_some r.area) ≡ true

module _ (step : ℕ) where
  pub city_in-none :
      (out : List Assign) → (step == 2) ≡ false → All (IsFine step) out → city_in out ≡ none
  city_in-none [] e h = refl
  city_in-none (sets_text city v ∷ out) e h = absurd (cc (e, h.0))
  city_in-none (sets_area v ∷ out) e h = absurd (h.0)
  city_in-none (sets_number f v ∷ out) e h = city_in-none out e h.1
  city_in-none (sets_text name v ∷ out) e h = city_in-none out e h.1
  city_in-none (sets_text zip v ∷ out) e h = city_in-none out e h.1
  city_in-none (sets_text hours v ∷ out) e h = city_in-none out e h.1
  city_in-none (sets_text desc v ∷ out) e h = city_in-none out e h.1
  city_in-none (sets_text facility v ∷ out) e h = city_in-none out e h.1
  city_in-none (sets_choice c v ∷ out) e h = city_in-none out e h.1
  city_in-none (sets_bldg v ∷ out) e h = city_in-none out e h.1
  city_in-none (sets_name_disclosed v ∷ out) e h = city_in-none out e h.1
  city_in-none (sets_location_disclosed v ∷ out) e h = city_in-none out e h.1
  city_in-none (sets_rev_disclosed v ∷ out) e h = city_in-none out e h.1
  city_in-none (sets_documents_disclosed v ∷ out) e h = city_in-none out e h.1
  city_in-none (sets_visibility v ∷ out) e h = city_in-none out e h.1

  pub assign_all-IsTyped :
      (out : List Assign) (r : Listing)
      → All (IsFine step) out
      → IsTyped r
      → IsTyped (assign_all out r)
  unfolding assign_all
  assign_all-IsTyped [] r f h = h
  assign_all-IsTyped (a ∷ out) r f h =
      assign_all-IsTyped out (assign a r) f.1 (assign-IsTyped step a r f.0 h)

  pub assign_all-fixed :
      (out : List Assign) (r : Listing) → All (IsFine step) out → fixed (assign_all out r) ≡ fixed r
  unfolding assign_all
  assign_all-fixed [] r f = refl
  assign_all-fixed (a ∷ out) r f = assign_all-fixed out (assign a r) f.1 ∙ assign-fixed step a r f.0

pub assign_all-complete :
    (out : List Assign) (r : Listing)
    → any clears out ≡ false
    → complete r ≡ true
    → complete (assign_all out r) ≡ true
unfolding assign_all
assign_all-complete [] r e h = h
assign_all-complete (a ∷ out) r e h =
    assign_all-complete out (assign a r) (ground arith) (assign-complete a r (ground arith) h)

pub assign_all-append :
    (out : List Assign) (v : Option String) (r : Listing)
    → assign_all (out ++ sets_area v ∷ []) r ≡ assign (sets_area v) (assign_all out r)
unfolding assign_all
assign_all-append [] v r = refl
assign_all-append (a ∷ out) v r = assign_all-append out v (assign a r)
