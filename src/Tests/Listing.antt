-- ===== src/Tests/Listing.antt =====
-- app/api/seller_listings.py and app/api/admin_listings.py on one practice: drafted, submitted,
-- published, edited and withdrawn.
use Prim.Native.Char.{code}
use practice_match.Prelude.{
  ℕ, String, ◌≡◌, refl, true, false, ◌&&◌, ◌⊎◌, inl, inr, Option, none, some, List, [], ◌∷◌, map,
  is_some, leb, ◌-◌, ◌==◌, if◌then◌else◌, str_eq, Bool-cases,
}
use practice_match.Privacy.State.{not_show}
use practice_match.Listing.Row.{
  Listing, published, withdrawn, paused, seller, status_eq, listing_type_check, listing_bldg_check,
  column_types, listing_submittable_ck, listing_publishable_ck, checks,
}
use practice_match.Listing.Refusal.{gives}
use practice_match.Listing.Text.{Unicode}
use practice_match.Listing.Fields.{
  number, text, numeric, textual, choice, money, price, count, est, sqft, name, city, zip, type,
}
use practice_match.Sql.{update}
use practice_match.Privacy.Record.{mark_published}
use practice_match.Privacy.Delivery.{photos_not_ready}
use practice_match.Listing.Store.{
  Db, not_ready, locked_row, update_listing, claim_from_seed, entries, blocked,
}
use practice_match.Listing.Visibility.{there}
use practice_match.Listing.Handler.{World, published_if, refuse_unready_photographs}
use practice_match.Listing.Transitions.{set_status, republish}
use practice_match.Listing.Decide.{unpublish, Decision, publish}
use practice_match.Listing.Invariant.{IsSoundDb}
use practice_match.Listing.Photos.{spliced}
use practice_match.Listing.Photos.Order.{occurrences, spliced-reorders}
use practice_match.Listing.Life.{
  Request, creates, patches, submits, sets_status, decides, serve, committed,
}
use practice_match.Listing.Life.Lawful.{content, is_reviewed, publishes}
use practice_match.Listing.Life.Laws.{
  empty, AllServable, published-only_ready, market-only_reviewed, withdrawn-stays,
  strangers-change_nothing,
}

abbrev digit_of : ℕ → Option ℕ
digit_of n = if leb 48 n && leb n 57 then some (n - 48) else none

abbrev ascii : Unicode
ascii = record { is_space = λ c. code c == 32; digit = λ c. digit_of (code c); lower = λ s. s }

abbrev office : World
office = record {
  unicode = ascii;
  bucket = record { configured = true; head = λ k. there };
  email = λ a. a;
}

abbrev approval : Decision
approval = record { action = some publish; reason = ""; state = "TX"; market = "Austin, TX" }

abbrev a_sale : List (ℕ × Request)
a_sale =
    (1, creates "l1" "s1")
    ∷ (
      2,
      patches "l1" "s1" 1 (
          (textual name, text "Abc Vets")
          ∷ (choice type, text "Mixed")
          ∷ (numeric (count est), number 1990)
          ∷ []),
    )
    ∷ (3, patches "l1" "s1" 2 ((textual city, text "Austin") ∷ (textual zip, text "78701") ∷ []))
    ∷ (4, patches "l1" "s1" 3 ((numeric (money price), number 900000) ∷ []))
    ∷ (5, patches "l1" "s1" 4 ((numeric (count sqft), number 2000) ∷ []))
    ∷ (6, submits "l1" "s1")
    ∷ (7, decides "l1" approval)
    ∷ []

abbrev clinic : Listing
clinic = record {
  id = "l1";
  slug = "abc-l1";
  source = seller;
  seller_id = some "s1";
  status = paused;
  name = some "Abc Vets";
  city = some "Austin";
  zip = some "78701";
  area = some "Austin";
  state = some "TX";
  market = some "Austin, TX";
  type = some "Mixed";
  ownership = none;
  facility_type = none;
  bldg = none;
  hours = none;
  services = none;
  facility = none;
  est = some 1990;
  price = some 900000;
  rev = none;
  docs = none;
  rooms = none;
  sqft = some 2000;
  name_disclosed = false;
  location_disclosed = false;
  rev_disclosed = false;
  documents_disclosed = false;
  visibility = not_show;
  photos = [];
  submitted_at = some 6;
  listed_at = 7;
  updated_at = 7;
}

abbrev closed : Listing
closed = record clinic { id = "l2"; status = withdrawn }

abbrev shop : Db
shop = record empty {
  listing = λ k. if str_eq k "l1" then some clinic else if str_eq k "l2" then some closed else none;
}

shop-IsSoundDb : IsSoundDb shop
unfolding listing_type_check listing_bldg_check column_types listing_submittable_ck
shop-IsSoundDb = record {
  rows = λ k. elim (Bool-cases (str_eq k "l1")) [
    | inl e ↦ rw e (record {
      typed = refl;
      housed = refl;
      fitting = refl;
      submittable = refl;
      placed = refl;
      paired = refl;
      settled = refl;
    })
    | inr e ↦ rw e (elim (Bool-cases (str_eq k "l2")) [
      | inl e ↦ rw e (record {
        typed = refl;
        housed = refl;
        fitting = refl;
        submittable = refl;
        placed = refl;
        paired = refl;
        settled = refl;
      })
      | inr e ↦ rw e tt
    ])
  ];
  photographs = tt;
}

abbrev back : Request
back = sets_status "l1" "s1" (some republish)

abbrev removal : Decision
removal = record approval { action = some unpublish; reason = "Sold" }

-- From empty tables a practice comes to the market.
on_sale : AllServable office a_sale empty
on_sale = (refl, ((tt, (tt, (tt, tt))), ((tt, (tt, tt)), ((tt, tt), ((tt, tt), (tt, (tt, tt)))))))

abbrev relisted : Listing
relisted = record clinic { status = published; updated_at = 9 }

abbrev after_relisting : Db
after_relisting = committed shop (serve office 9 back shop)

relisting : (committed shop (serve office 9 back shop)).listing "l1" ≡ some relisted
unfolding serve set_status locked_row update_listing claim_from_seed published_if mark_published
    refuse_unready_photographs not_ready photos_not_ready entries blocked checks listing_type_check
    listing_bldg_check column_types listing_submittable_ck listing_publishable_ck update
relisting = refl

published-only_ready_example :
    (status_eq clinic.status published ≡ true) ⊎ (not_ready [] clinic ≡ [])
published-only_ready_example =
    published-only_ready office 9 shop shop-IsSoundDb back tt "l1" clinic refl relisted relisting
      refl

market-only_reviewed_example :
    (content relisted ≡ content clinic) × ((is_reviewed clinic ≡ true) ⊎ (publishes back ≡ true))
market-only_reviewed_example =
    market-only_reviewed office 9 shop shop-IsSoundDb back tt "l1" clinic refl relisted relisting
      refl

withdrawn-stays_example :
    (committed shop (serve office 9 (submits "l2" "s1") shop)).listing "l2" ≡ some closed
withdrawn-stays_example =
    withdrawn-stays office 9 shop shop-IsSoundDb (submits "l2" "s1") tt "l2" closed refl refl

strangers-change_nothing_example :
    (committed shop (serve office 9 (submits "l1" "s2") shop)).listing "l1" ≡ some clinic
strangers-change_nothing_example =
    strangers-change_nothing office 9 shop shop-IsSoundDb (submits "l1" "s2") tt "l1" clinic refl
      refl

spliced-reorders_example :
    (slots' : List (Option String)) × (spliced (some "a" ∷ none ∷ some "b" ∷ []) ("b" ∷ "a" ∷ [])
      ≡ gives slots')
    × (entries slots' ≡ "b" ∷ "a" ∷ [])
    × (map is_some slots' ≡ true ∷ false ∷ true ∷ [])
    × ((e : String) → occurrences e (entries slots') ≡ occurrences e ("a" ∷ "b" ∷ []))
unfolding entries
spliced-reorders_example = spliced-reorders (some "a" ∷ none ∷ some "b" ∷ []) ("b" ∷ "a" ∷ []) refl
