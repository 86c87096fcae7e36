-- ===== src/Sql.antt =====
-- The SQL statements of the backend, as functions on a table: a table is the list of its rows.
-- `UPDATE t SET … WHERE … RETURNING …` rewrites every row that its predicate selects and answers
-- those rows; when one rewritten row fails the table's CHECK constraints the statement raises
-- and writes nothing. An INSERT that fails a CHECK or a unique index raises in the same way.
pub mod Unique
use practice_match.Prelude.{
  ◌≡◌, refl, Bool, true, inl, inr, List, [], ◌∷◌, map, all, any, keep, All, Bool-cases,
  if◌then◌else◌, not, Option, none, some,
}

pub data Violation : Type 0 where
  check_violation unique_violation foreign_key_violation : Violation
  -- not the database's, but an exception of Python between two statements
  value_error : Violation

pub data Outcome {ℓ} (A : Type ℓ) : Type ℓ where
  ok : A → Outcome A
  raised : Violation → Outcome A

infixl 5 ◌>>=◌
abbrev pub ◌>>=◌ {ℓ κ} : {A : Type ℓ} {B : Type κ} → Outcome A → (A → Outcome B) → Outcome B
ok a >>= f = f a
raised v >>= f = raised v

module _ {ℓ} {Row : Type ℓ} where
  -- cur.fetchone()
  abbrev pub fetch_one : List Row → Option Row
  fetch_one [] = none
  fetch_one (r ∷ rs) = some r

  -- The rows after an UPDATE.
  abbrev pub updated : (Row → Bool) → (Row → Row) → List Row → List Row
  updated selects set [] = []
  updated selects set (r ∷ rs) = (if selects r then set r else r) ∷ updated selects set rs

  -- The rewritten rows, which RETURNING and `cur.rowcount` read.
  abbrev pub moved : (Row → Bool) → (Row → Row) → List Row → List Row
  moved selects set rs = map set (keep selects rs)

  module _ (checks : Row → Bool) where
    unfoldable pub update : (Row → Bool) → (Row → Row) → List Row → Outcome (List Row × List Row)
    update selects set rs =
        if all checks (moved selects set rs)
        then ok (updated selects set rs, moved selects set rs)
        else raised check_violation

    -- `clashes` is the table's unique index: whether two rows may not both be there.
    unfoldable pub insert : (Row → Row → Bool) → Row → List Row → Outcome (List Row)
    insert clashes row rs =
        if not (checks row)
        then raised check_violation
        else if any (clashes row) rs
        then raised unique_violation
        else ok (row ∷ rs)

  module _ {κ} (P : Row → Type κ) (checks selects : Row → Bool) (set : Row → Row)
      (checked : (r : Row) → P r → checks r ≡ true)
      (keeps : (r : Row) → P r → selects r ≡ true → P (set r)) where
    pub updated-All : (rs : List Row) → All P rs → All P (updated selects set rs)
    updated-All [] h = tt
    updated-All (r ∷ rs) h = elim (Bool-cases (selects r)) [
      | inl e ↦ rw e (keeps r h.0 e, updated-All rs h.1)
      | inr e ↦ rw e (h.0, updated-All rs h.1)
    ]

    moved-All : (rs : List Row) → All P rs → All P (moved selects set rs)
    moved-All [] h = tt
    moved-All (r ∷ rs) h = elim (Bool-cases (selects r)) [
      | inl e ↦ rw e (keeps r h.0 e, moved-All rs h.1)
      | inr e ↦ rw e (moved-All rs h.1)
    ]

    checked-All : (rs : List Row) → All P rs → all checks rs ≡ true
    checked-All [] h = refl
    checked-All (r ∷ rs) h = rw (checked r h.0, checked-All rs h.1) refl

    -- A statement whose assignment keeps an invariant that implies the CHECKs does not raise,
    -- and keeps the invariant of the whole table.
    pub update-keeps :
        (rs : List Row)
        → All P rs
        → (update checks selects set rs ≡ ok (updated selects set rs, moved selects set rs))
          × All P (updated selects set rs)
    unfolding update
    update-keeps rs h =
        (rw (checked-All (moved selects set rs) (moved-All rs h)) refl, updated-All rs h)
