-- ===== src/Media/Union.antt =====
-- app/privacy/aggregate.py: union_auto, the rule of an in-place re-run, and fillable. `min` of no
-- ordinates raises, which is `none` here.
pub mod Hits
pub mod Laws
use Prim.Native.String.{compare}
use text.Mathlib.Text.{is_lt}
use practice_match.Prelude.{
  ℕ, String, ◌≡◌, refl, sym, ◌∙◌, ap, Bool, true, false, not, ◌&&◌, ◌||◌, Option, none, some, List,
  [], ◌∷◌, ◌++◌, map, any, keep, ltb, ◌==◌, arith, Bool-cases, inl, inr, if◌then◌else◌,
}
use practice_match.Privacy.Row.{Region, Source, auto, manual, removed_by_seller}
use practice_match.Media.Regions.{Box, min, max}
use practice_match.Media.Regions.Laws.{inside}

abbrev pub is_auto : Region → Bool
is_auto r = elim r.source [ auto ↦ true | manual ↦ false | removed_by_seller ↦ false ]

abbrev pub is_removed : Region → Bool
is_removed r = elim r.source [ auto ↦ false | manual ↦ false | removed_by_seller ↦ true ]

-- `fillable`
abbrev pub fillable : List Region → List (List (ℕ × ℕ))
fillable rs = map (λ r. r.polygon) (keep (λ r. not (is_removed r)) rs)

abbrev pub stretched : ℕ × ℕ → Option Box → Option Box
stretched (x, y) none = some (record { left = x; top = y; right = x; bottom = y })
stretched (x, y) (some b) = some (record {
  left = min x b.left;
  top = min y b.top;
  right = max x b.right;
  bottom = max y b.bottom;
})

-- `_bounds`
unfoldable pub bounds : List (ℕ × ℕ) → Option Box
bounds [] = none
bounds (p ∷ ps) = stretched p (bounds ps)

abbrev pub Measured : Type 0
Measured = Box × Region

abbrev pub cons_measured : Region → Option Box → Option (List Measured) → Option (List Measured)
cons_measured r (some b) (some ms) = some ((b, r) ∷ ms)
cons_measured r _ _ = none

-- The regions with their bounds.
unfoldable pub measured : List Region → Option (List Measured)
unfolding bounds
measured [] = some []
measured (r ∷ rs) = cons_measured r (bounds r.polygon) (measured rs)

-- The key of `sorted`: the top, the left, the id.
abbrev pub comes_before : Measured → Measured → Bool
comes_before (b, r) (c, s) =
    ltb b.top c.top
    || b.top == c.top && (ltb b.left c.left || b.left == c.left && not (is_lt (compare s.id r.id)))

unfoldable pub put_in : Measured → List Measured → List Measured
put_in m [] = m ∷ []
put_in m (n ∷ ns) = let rest = put_in m ns in if comes_before m n then m ∷ n ∷ ns else n ∷ rest

unfoldable pub in_order : List Measured → List Measured
unfolding put_in
in_order [] = []
in_order (m ∷ ms) = put_in m (in_order ms)

abbrev pub in_removed : List Measured → Measured → Bool
in_removed kept m = any (λ k. is_removed k.1 && inside m.0 k.0) kept

abbrev pub joined :
    Option (List Measured) → Option (List Measured) → Option (List Measured) → Option (List Region)
joined (some kept) (some autos) (some new) =
    some (map (λ m. m.1) (in_order (kept ++ autos ++ keep (λ m. not (in_removed kept m)) new)))
joined _ _ _ = none

-- `union_auto`
unfoldable pub union_auto : List Region → List Region → Bool → Option (List Region)
unfolding measured in_order
union_auto old new confirmed =
    joined (measured (keep (λ r. not (is_auto r)) old))
      (if confirmed then measured (keep is_auto old) else some []) (measured (keep is_auto new))
