-- ===== src/Listing/Row.antt =====
-- migrations/016_listing.sql, 030_listing_owner_and_status.sql and 034_listing_publishable_sqft.sql:
-- one row of the table listing, and its CHECK constraints.
use practice_match.Prelude.{
  ℕ, String, Bool, true, not, ◌&&◌, ◌||◌, Option, none, some, List, [], ◌∷◌, any, is_some, str_eq,
  leb, ◌==◌,
}
use practice_match.Privacy.State.{Visibility}

-- The six states of listing_status_check, in its order.
pub data Status : Type 0 where
  draft in_review published paused withdrawn declined : Status

abbrev pub status_code : Status → ℕ
status_code draft = 0
status_code in_review = 1
status_code published = 2
status_code paused = 3
status_code withdrawn = 4
status_code declined = 5

abbrev pub status_eq : Status → Status → Bool
status_eq s t = status_code s == status_code t

-- status in (…)
abbrev pub among : List Status → Status → Bool
among states s = any (status_eq s) states

pub data Source : Type 0 where
  seed seller : Source

-- The columns that the two APIs read or write; a timestamp is a number of microseconds. An empty
-- slot of `photos` is a null.
pub record Listing : Type 0 where
  pub id : String
  pub slug : String
  pub source : Source
  pub seller_id : Option String
  pub status : Status
  pub name : Option String
  pub city : Option String
  pub zip : Option String
  pub area : Option String
  pub state : Option String
  pub market : Option String
  pub type : Option String
  pub ownership : Option String
  pub facility_type : Option String
  pub bldg : Option String
  pub hours : Option String
  pub services : Option String
  pub facility : Option String
  pub est : Option ℕ
  pub price : Option ℕ
  pub rev : Option ℕ
  pub docs : Option ℕ
  pub rooms : Option ℕ
  pub sqft : Option ℕ
  pub name_disclosed : Bool
  pub location_disclosed : Bool
  pub rev_disclosed : Bool
  pub documents_disclosed : Bool
  pub visibility : Visibility
  pub photos : List (Option String)
  pub submitted_at : Option ℕ
  pub listed_at : ℕ
  pub updated_at : ℕ

-- The widths of integer and bigint.
abbrev pub int_max : ℕ
int_max = 2_147_483_647

abbrev pub bigint_max : ℕ
bigint_max = 9_223_372_036_854_775_807

abbrev pub fits : ℕ → Option ℕ → Bool
fits limit none = true
fits limit (some n) = leb n limit

abbrev pub types : List String
types = "Small animal" ∷ "Mixed" ∷ "Large animal" ∷ "Emergency" ∷ "Specialty" ∷ "Other" ∷ []

abbrev pub buildings : List String
buildings = "Included" ∷ "Leased" ∷ "Separate" ∷ []

-- A CHECK that a text is IN a list passes on NULL.
abbrev pub null_or_in : List String → Option String → Bool
null_or_in words none = true
null_or_in words (some w) = any (str_eq w) words

unfoldable pub listing_type_check : Listing → Bool
listing_type_check r = null_or_in types r.type

unfoldable pub listing_bldg_check : Listing → Bool
listing_bldg_check r = null_or_in buildings r.bldg

-- The numbers are within their columns' types, or the statement fails.
unfoldable pub column_types : Listing → Bool
column_types r =
    fits int_max r.est
    && fits bigint_max r.price
    && fits bigint_max r.rev
    && fits int_max r.docs
    && fits int_max r.rooms
    && fits int_max r.sqft

abbrev pub complete : Listing → Bool
complete r =
    is_some r.name
    && is_some r.city
    && is_some r.zip
    && is_some r.type
    && is_some r.est
    && is_some r.price

unfoldable pub listing_submittable_ck : Listing → Bool
listing_submittable_ck r = among (draft ∷ withdrawn ∷ []) r.status || complete r

unfoldable pub listing_publishable_ck : Listing → Bool
listing_publishable_ck r =
    not (status_eq r.status published)
    || is_some r.state && is_some r.market && is_some r.area && is_some r.sqft

unfoldable pub checks : Listing → Bool
checks r =
    listing_type_check r
    && listing_bldg_check r
    && column_types r
    && listing_submittable_ck r
    && listing_publishable_ck r
