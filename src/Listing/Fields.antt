-- ===== src/Listing/Fields.antt =====
-- app/api/seller_listings.py: the wizard's fields as database columns. A request's body is the
-- list of its fields with their JSON values; a Python dict has each field once.
pub mod Sound
use practice_match.Prelude.{
  ℕ, String, Bool, true, false, not, ◌&&◌, ◌||◌, Option, none, some, List, [], ◌∷◌, ◌++◌, any, ltb,
  ◌==◌, str_eq, if◌then◌else◌,
}
use practice_match.Privacy.State.{Visibility, show, not_show}
use practice_match.Listing.Row.{Listing, types, int_max, bigint_max}
use practice_match.Listing.Refusal.{
  Run, gives, refuses, escapes, ◌>>=◌, pure, bad_request, out_of_range, bad_text,
}
use practice_match.Listing.Text.{Unicode, len, is_blank, holds, without, strip, isdecimal, to_int}

-- A value that json.loads answers: a whole number that is not negative, or `other`: a negative
-- number, a fraction, an array or an object, which no field takes.
-- An integer of more than 4300 digits is refused by json.loads and does not come this far, so that
-- str() and int() of one answer it.
pub data Json : Type 0 where
  null other : Json
  flag : Bool → Json
  number : ℕ → Json
  text : String → Json

pub data Money : Type 0 where
  price rev : Money

pub data Count : Type 0 where
  est docs rooms sqft : Count

-- MONEY_FIELDS and INT_FIELDS.
pub data Numeric : Type 0 where
  money : Money → Numeric
  count : Count → Numeric

-- The fields that `_text` reads: `desc` is the column services.
pub data Textual : Type 0 where
  name city zip hours desc facility : Textual

pub data Choice : Type 0 where
  type ownership facility_type : Choice

pub data Field : Type 0 where
  numeric : Numeric → Field
  textual : Textual → Field
  choice : Choice → Field
  bldg anon rev_band docs_locked show_identifiable : Field
  -- a name that is no field of any step
  stray : Field

-- STEP_FIELDS, read from a field: the steps that accept it.
abbrev pub steps_of : Field → List ℕ
steps_of (textual name) = 1 ∷ []
steps_of (choice type) = 1 ∷ []
steps_of (numeric (count est)) = 1 ∷ []
steps_of (choice ownership) = 1 ∷ []
steps_of (textual city) = 2 ∷ []
steps_of (textual zip) = 2 ∷ []
steps_of anon = 2 ∷ 7 ∷ []
steps_of (numeric (money m)) = 3 ∷ []
steps_of rev_band = 3 ∷ 7 ∷ []
steps_of (numeric (count c)) = 4 ∷ []
steps_of (textual hours) = 4 ∷ []
steps_of (textual desc) = 4 ∷ []
steps_of bldg = 5 ∷ []
steps_of (choice facility_type) = 5 ∷ []
steps_of (textual facility) = 5 ∷ []
steps_of docs_locked = 7 ∷ []
steps_of show_identifiable = 7 ∷ []
steps_of stray = []

abbrev pub accepts : ℕ → Field → Bool
accepts step f = any (λ s. s == step) (steps_of f)

abbrev pub is_step : ℕ → Bool
is_step step = any (λ s. s == step) (1 ∷ 2 ∷ 3 ∷ 4 ∷ 5 ∷ 7 ∷ [])

-- One column of the dictionary that `columns_for` builds.
pub data Assign : Type 0 where
  sets_number : Numeric → Option ℕ → Assign
  sets_text : Textual → Option String → Assign
  sets_choice : Choice → String → Assign
  sets_bldg : String → Assign
  sets_name_disclosed sets_location_disclosed sets_rev_disclosed sets_documents_disclosed :
      Bool → Assign
  sets_visibility : Visibility → Assign
  sets_area : Option String → Assign

-- OPTIONAL_NUMERIC
abbrev pub optional : Numeric → Bool
optional (money price) = false
optional (money rev) = true
optional (count est) = false
optional (count c) = true

abbrev pub limit : Numeric → ℕ
limit (money m) = bigint_max
limit (count c) = int_max

-- int() refuses a text of more digits than sys.get_int_max_str_digits().
abbrev pub max_str_digits : ℕ
max_str_digits = 4300

abbrev pub max_text : ℕ
max_text = 4000

abbrev pub facility_types : List String
facility_types = "Standalone" ∷ "Strip or plaza" ∷ "Medical park" ∷ "Other" ∷ []

abbrev pub ownerships : List String
ownerships =
    "Sole proprietor" ∷ "Sole proprietor (LLC)" ∷ "Sole proprietor (S-corp)"
    ∷ "Two-doctor partnership" ∷ "Three-doctor LLC" ∷ "Four-doctor partnership" ∷ "Four-doctor LLC"
    ∷ "Five-doctor LLC" ∷ "Multi-doctor LLC" ∷ "Other" ∷ []

abbrev pub allowed : Choice → List String
allowed type = types
allowed ownership = ownerships
allowed facility_type = facility_types

abbrev stored : Choice → Listing → Option String
stored type r = r.type
stored ownership r = r.ownership
stored facility_type r = r.facility_type

-- BLDG_IN
abbrev pub bldg_in : String → Option String
bldg_in w =
    if str_eq w "Included"
    then some "Included"
    else if str_eq w "Available separately"
    then some "Separate"
    else if str_eq w "Leased"
    then some "Leased"
    else none

-- BLDG_OUT.get
abbrev pub bldg_out : String → Option String
bldg_out w =
    if str_eq w "Included"
    then some "Included"
    else if str_eq w "Separate"
    then some "Available separately"
    else if str_eq w "Leased"
    then some "Leased"
    else none

abbrev pub equals : Json → Option String → Bool
equals (text s) (some t) = str_eq s t
equals _ _ = false

abbrev or_none : String → Option String
or_none s = if is_blank s then none else some s

-- `_flag`
unfoldable pub flag_of : Json → Run Bool
flag_of (flag b) = gives b
flag_of _ = refuses bad_request

-- strip `,`, `$` and spaces
abbrev pub cleaned : String → String
cleaned raw = without 32 (without 36 (without 44 raw))

abbrev pub in_range : Numeric → ℕ → Run (Option ℕ)
in_range f value = if ltb (limit f) value then refuses out_of_range else gives (some value)

abbrev pub member_or_refused : List String → Option String → Run String
member_or_refused words none = refuses bad_request
member_or_refused words (some w) = if any (str_eq w) words then gives w else refuses bad_request

abbrev pub kept_or : Json → Option String → Run String → Run String
kept_or raw none checked = checked
kept_or raw (some s) checked = if equals raw (some s) then gives s else checked

abbrev pub translated : Option String → Run String
translated none = refuses bad_request
translated (some w) = gives w

module _ (unicode : Unicode) where
  -- `_number`
  unfoldable pub number_of : Numeric → Json → Run (Option ℕ)
  number_of f null = if optional f then gives none else refuses bad_request
  number_of f (number n) = in_range f n
  number_of f (text raw) =
      if is_blank (strip unicode raw) && optional f
      then gives none
      else if not (isdecimal unicode (cleaned raw))
      then refuses bad_request
      else if ltb max_str_digits (len (cleaned raw))
      then escapes
      else in_range f (to_int unicode (cleaned raw))
  number_of f _ = refuses bad_request

  -- `_text`
  unfoldable pub text_of : Json → Run (Option String)
  text_of null = gives none
  text_of (text raw) =
      if ltb max_text (len raw)
      then refuses bad_request
      else if holds 0 raw
      then refuses bad_text
      else gives (or_none (strip unicode raw))
  text_of _ = refuses bad_request

  -- `_one_of`
  unfoldable pub one_of : List String → Json → Run String
  unfolding text_of
  one_of words raw = do value ← text_of raw; member_or_refused words value

  -- `_one_of_or_unchanged`
  unfoldable pub one_of_or_unchanged : List String → Json → Option String → Run String
  unfolding one_of
  one_of_or_unchanged words raw old = kept_or raw old (one_of words raw)

  abbrev pub changed_bldg : Json → Run String
  changed_bldg raw = do
    w ← one_of ("Included" ∷ "Available separately" ∷ "Leased" ∷ []) raw
    translated (bldg_in w)

  -- `_bldg_or_unchanged`
  unfoldable pub bldg_or_unchanged : Json → Option String → Run String
  unfolding one_of
  bldg_or_unchanged raw none = changed_bldg raw
  bldg_or_unchanged raw (some w) = if equals raw (bldg_out w) then gives w else changed_bldg raw

  -- One turn of the loop of `columns_for`.
  unfoldable pub column_for : Listing → Field → Json → Run (List Assign)
  unfolding number_of text_of one_of_or_unchanged bldg_or_unchanged flag_of
  column_for row (numeric f) raw = do value ← number_of f raw; pure (sets_number f value ∷ [])
  column_for row (textual f) raw = do value ← text_of raw; pure (sets_text f value ∷ [])
  column_for row (choice f) raw = do
    w ← one_of_or_unchanged (allowed f) raw (stored f row)
    pure (sets_choice f w ∷ [])
  column_for row bldg raw = do w ← bldg_or_unchanged raw row.bldg; pure (sets_bldg w ∷ [])
  column_for row anon raw = do
    b ← flag_of raw
    pure (sets_name_disclosed (not b) ∷ sets_location_disclosed (not b) ∷ [])
  column_for row rev_band raw = do b ← flag_of raw; pure (sets_rev_disclosed (not b) ∷ [])
  column_for row docs_locked raw = do b ← flag_of raw; pure (sets_documents_disclosed (not b) ∷ [])
  column_for row show_identifiable raw = do
    b ← flag_of raw
    pure (sets_visibility (if b then show else not_show) ∷ [])
  column_for row stray raw = refuses bad_request

  unfoldable pub columns_in : Listing → List (Field × Json) → Run (List Assign)
  unfolding column_for
  columns_in row [] = gives []
  columns_in row ((f, raw) ∷ body) = do
    here ← column_for row f raw
    rest ← columns_in row body
    pure (here ++ rest)

-- out["city"], where the step set it.
abbrev pub city_in : List Assign → Option (Option String)
city_in [] = none
city_in (sets_text city v ∷ out) =
    let rest = city_in out in elim rest [ none ↦ some v | some w ↦ some w ]
city_in (a ∷ out) = city_in out

abbrev pub with_area : Option (Option String) → List Assign → List Assign
with_area none out = out
with_area (some v) out = out ++ sets_area v ∷ []

abbrev outside : ℕ → List (Field × Json) → Bool
outside step body = any (λ p. not (accepts step p.0)) body

-- `columns_for`; a step that is not a number is -1, which is no step, like 0 here.
unfoldable pub columns_for : Unicode → ℕ → List (Field × Json) → Listing → Run (List Assign)
unfolding columns_in
columns_for unicode step body row =
    if not (is_step step) || outside step body
    then refuses bad_request
    else columns_in unicode row body >>= λ out.
        gives (with_area (if step == 2 then city_in out else none) out)
