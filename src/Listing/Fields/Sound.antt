-- ===== src/Listing/Fields/Sound.antt =====
-- app/api/seller_listings.py: what `columns_for` writes fits the columns of the table listing.
use practice_match.Prelude.{
  ℕ, String, ◌≡◌, refl, true, false, not, ◌&&◌, ◌||◌, Option, none, some, List, [], ◌∷◌, any, All,
  All-append, arith, ltb, leb, ◌==◌, str_eq, if◌then◌else◌, Bool-cases, inl, inr,
}
use practice_match.Listing.Row.{Listing, types, buildings, null_or_in, fits}
use practice_match.Listing.Refusal.{gives, Holds, chained-Holds, if-Holds, weaker-Holds}
use practice_match.Listing.Text.{Unicode, len, is_blank, strip, isdecimal, to_int, holds}
use practice_match.Listing.Fields.{
  Json, null, other, flag, number, text, Field, numeric, textual, choice, bldg, anon, rev_band,
  docs_locked, show_identifiable, stray, Numeric, type, ownership, facility_type, Assign,
  sets_number, sets_text, sets_choice, sets_bldg, sets_area, limit, optional, max_str_digits,
  number_of, text_of, one_of, one_of_or_unchanged, bldg_or_unchanged, flag_of, column_for,
  columns_in, cleaned, ownerships, facility_types, accepts, Textual, name, city, zip, hours, desc,
  facility, outside, columns_for, city_in, with_area, is_step, in_range, member_or_refused, equals,
  bldg_out, bldg_in, translated, changed_bldg,
}

-- int() reads the field's text.
abbrev pub IsReadable : Field × Json → Type 0
IsReadable (numeric f, text raw) = ltb max_str_digits (len (cleaned raw)) ≡ false
IsReadable _ = Unit

-- What the columns' types and CHECKs want of one assignment of a step; the city is step 2's, and
-- `columns_for` sets the area last.
abbrev pub IsFine : ℕ → Assign → Type 0
IsFine step (sets_number f v) = fits (limit f) v ≡ true
IsFine step (sets_choice type w) = any (str_eq w) types ≡ true
IsFine step (sets_bldg w) = any (str_eq w) buildings ≡ true
IsFine step (sets_area v) = ⊥
IsFine step (sets_text city v) = (step == 2) ≡ true
IsFine step _ = Unit

within : (a b : ℕ) → ltb a b ≡ false → leb b a ≡ true
within a b e = ground arith

in_range-Holds : (f : Numeric) (n : ℕ) → Holds (λ v. fits (limit f) v ≡ true) (in_range f n)
in_range-Holds f n = if-Holds _ (ltb (limit f) n) _ _ (λ e. tt) (λ e. within (limit f) n e)

-- A row whose stored choices pass their CHECKs.
abbrev pub IsTyped : Listing → Type 0
IsTyped r = (null_or_in types r.type ≡ true) × (null_or_in buildings r.bldg ≡ true)

translated-Holds :
    (w : String) → Holds (λ w. any (str_eq w) buildings ≡ true) (translated (bldg_in w))
translated-Holds w = elim (Bool-cases (str_eq w "Included")) [
  | inl e ↦ rw e refl
  | inr e ↦ rw e (elim (Bool-cases (str_eq w "Available separately")) [
    | inl e ↦ rw e refl
    | inr e ↦ rw e (elim (Bool-cases (str_eq w "Leased")) [ inl e ↦ rw e refl | inr e ↦ rw e tt ])
  ])
]

-- The columns of a step, with the area that follows the city.
abbrev pub FineColumns : ℕ → List Assign → Type 0
FineColumns step out' =
    (out : List Assign) × All (IsFine step) out
    × (out' ≡ with_area (if step == 2 then city_in out else none) out)

module _ (unicode : Unicode) where
  number_of-Holds :
      (f : Numeric) (raw : Json)
      → IsReadable (numeric f, raw)
      → Holds (λ v. fits (limit f) v ≡ true) (number_of unicode f raw)
  unfolding number_of
  number_of-Holds f null h = if-Holds _ (optional f) _ _ (λ e. refl) (λ e. tt)
  number_of-Holds f other h = tt
  number_of-Holds f (flag b) h = tt
  number_of-Holds f (number n) h = in_range-Holds f n
  number_of-Holds f (text raw) h =
      if-Holds _ (is_blank (strip unicode raw) && optional f) _ _ (λ e. refl)
        (λ e.
          if-Holds _ (not (isdecimal unicode (cleaned raw))) _ _ (λ e. tt)
            (λ e. rw h (in_range-Holds f (to_int unicode (cleaned raw)))))

  text_of-Holds : (raw : Json) → Holds (λ v. Unit {0}) (text_of unicode raw)
  unfolding text_of
  text_of-Holds null = tt
  text_of-Holds other = tt
  text_of-Holds (flag b) = tt
  text_of-Holds (number n) = tt
  text_of-Holds (text raw) =
      if-Holds _ (ltb 4000 (len raw)) _ _ (λ e. tt)
        (λ e. if-Holds _ (holds 0 raw) _ _ (λ e. tt) (λ e. tt))

  one_of-Holds :
      (words : List String) (raw : Json)
      → Holds (λ w. any (str_eq w) words ≡ true) (one_of unicode words raw)
  unfolding one_of
  one_of-Holds words raw =
      chained-Holds (λ v. Unit {0}) _ (text_of unicode raw) _ (text_of-Holds raw)
        (λ v h. member words v)
    where
      member :
          (words : List String) (v : Option String)
          → Holds (λ w. any (str_eq w) words ≡ true) (member_or_refused words v)
      member words none = tt
      member words (some w) = if-Holds _ (any (str_eq w) words) _ _ (λ e. e) (λ e. tt)

  choice-Holds :
      (words : List String) (raw : Json) (old : Option String)
      → null_or_in words old ≡ true
      → Holds (λ w. any (str_eq w) words ≡ true) (one_of_or_unchanged unicode words raw old)
  unfolding one_of_or_unchanged
  choice-Holds words raw none h = one_of-Holds words raw
  choice-Holds words raw (some s) h =
      if-Holds _ (equals raw (some s)) _ _ (λ e. h) (λ e. one_of-Holds words raw)

  free_choice-Holds :
      (words : List String) (raw : Json) (old : Option String)
      → Holds (λ w. Unit {0}) (one_of_or_unchanged unicode words raw old)
  unfolding one_of_or_unchanged
  free_choice-Holds words raw none =
      weaker-Holds _ _ (one_of unicode words raw) (λ w h. tt) (one_of-Holds words raw)
  free_choice-Holds words raw (some s) =
      if-Holds _ (equals raw (some s)) _ _ (λ e. tt)
        (λ e. weaker-Holds _ _ (one_of unicode words raw) (λ w h. tt) (one_of-Holds words raw))

  changed_bldg-Holds :
      (raw : Json) → Holds (λ w. any (str_eq w) buildings ≡ true) (changed_bldg unicode raw)
  changed_bldg-Holds raw =
      chained-Holds _ _ (one_of unicode _ raw) _ (one_of-Holds _ raw) (λ w h. translated-Holds w)

  bldg-Holds :
      (raw : Json) (old : Option String)
      → null_or_in buildings old ≡ true
      → Holds (λ w. any (str_eq w) buildings ≡ true) (bldg_or_unchanged unicode raw old)
  unfolding bldg_or_unchanged
  bldg-Holds raw none h = changed_bldg-Holds raw
  bldg-Holds raw (some s) h =
      if-Holds _ (equals raw (bldg_out s)) _ _ (λ e. h) (λ e. changed_bldg-Holds raw)

  flag_of-Holds : (raw : Json) → Holds (λ b. Unit {0}) (flag_of raw)
  unfolding flag_of
  flag_of-Holds (flag b) = tt
  flag_of-Holds null = tt
  flag_of-Holds other = tt
  flag_of-Holds (number n) = tt
  flag_of-Holds (text raw) = tt

  text-IsFine :
      (step : ℕ) (f : Textual) (v : Option String)
      → accepts step (textual f) ≡ true
      → IsFine step (sets_text f v)
  text-IsFine step city v e = ground arith
  text-IsFine step name v e = tt
  text-IsFine step zip v e = tt
  text-IsFine step hours v e = tt
  text-IsFine step desc v e = tt
  text-IsFine step facility v e = tt

  module _ (step : ℕ) where
    column_for-Holds :
        (row : Listing) (f : Field) (raw : Json)
        → accepts step f ≡ true
        → IsTyped row
        → IsReadable (f, raw)
        → Holds (All (IsFine step)) (column_for unicode row f raw)
    unfolding column_for
    column_for-Holds row (numeric f) raw a h r =
        chained-Holds _ (All (IsFine step)) (number_of unicode f raw) _ (number_of-Holds f raw r)
          (λ v fine. (fine, tt))
    column_for-Holds row (textual f) raw a h r =
        chained-Holds _ (All (IsFine step)) (text_of unicode raw) _ (text_of-Holds raw)
          (λ v fine. (text-IsFine step f v a, tt))
    column_for-Holds row (choice type) raw a h r =
        chained-Holds _ (All (IsFine step)) (one_of_or_unchanged unicode types raw row.type)
          (λ w. gives (sets_choice type w ∷ [])) (choice-Holds types raw row.type h.0)
          (λ w fine. (fine, tt))
    column_for-Holds row (choice ownership) raw a h r =
        chained-Holds (λ w. Unit {0}) (All (IsFine step))
          (one_of_or_unchanged unicode ownerships raw row.ownership)
          (λ w. gives (sets_choice ownership w ∷ []))
          (free_choice-Holds ownerships raw row.ownership) (λ w fine. (tt, tt))
    column_for-Holds row (choice facility_type) raw a h r =
        chained-Holds (λ w. Unit {0}) (All (IsFine step))
          (one_of_or_unchanged unicode facility_types raw row.facility_type)
          (λ w. gives (sets_choice facility_type w ∷ []))
          (free_choice-Holds facility_types raw row.facility_type) (λ w fine. (tt, tt))
    column_for-Holds row bldg raw a h r =
        chained-Holds _ (All (IsFine step)) (bldg_or_unchanged unicode raw row.bldg) _
          (bldg-Holds raw row.bldg h.1) (λ w fine. (fine, tt))
    column_for-Holds row anon raw a h r =
        chained-Holds _ (All (IsFine step)) (flag_of raw) _ (flag_of-Holds raw)
          (λ b fine. (tt, (tt, tt)))
    column_for-Holds row rev_band raw a h r =
        chained-Holds _ (All (IsFine step)) (flag_of raw) _ (flag_of-Holds raw) (λ b fine. (tt, tt))
    column_for-Holds row docs_locked raw a h r =
        chained-Holds _ (All (IsFine step)) (flag_of raw) _ (flag_of-Holds raw) (λ b fine. (tt, tt))
    column_for-Holds row show_identifiable raw a h r =
        chained-Holds _ (All (IsFine step)) (flag_of raw) _ (flag_of-Holds raw) (λ b fine. (tt, tt))
    column_for-Holds row stray raw a h r = tt

    pub columns_in-Holds :
        (row : Listing) (body : List (Field × Json))
        → outside step body ≡ false
        → IsTyped row
        → All IsReadable body
        → Holds (All (IsFine step)) (columns_in unicode row body)
    unfolding columns_in
    columns_in-Holds row [] a h r = tt
    columns_in-Holds row ((f, raw) ∷ body) a h r =
        chained-Holds _ (All (IsFine step)) (column_for unicode row f raw) _
          (column_for-Holds row f raw (ground arith) h r.0)
          (λ here fine.
            chained-Holds _ (All (IsFine step)) (columns_in unicode row body) _
              (columns_in-Holds row body (ground arith) h r.1)
              (λ rest more. All-append (IsFine step) here rest fine more))

    pub columns_for-Holds :
        (row : Listing) (body : List (Field × Json))
        → IsTyped row
        → All IsReadable body
        → Holds (FineColumns step) (columns_for unicode step body row)
    unfolding columns_for
    columns_for-Holds row body h r =
        if-Holds _ (not (is_step step) || outside step body) _ _ (λ e. tt)
          (λ e.
            chained-Holds _ _ (columns_in unicode row body) _
              (columns_in-Holds row body (ground arith) h r) (λ out fine. (out, fine, refl)))
