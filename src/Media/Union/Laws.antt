-- ===== src/Media/Union/Laws.antt =====
-- What union_auto of app/privacy/aggregate.py leaves filled.
use practice_match.Prelude.{
  ℕ, ◌≡◌, refl, ap, Bool, true, false, not, ◌&&◌, ◌||◌, Option, none, some, List, [], ◌∷◌, map, any,
  keep, All, if◌then◌else◌,
}
use practice_match.Privacy.Row.{Region}
use practice_match.Media.Union.Hits.{Between, measured-hit, joined-Between, parts-hit}
use practice_match.Media.Regions.{Box}
use practice_match.Media.Union.{
  is_auto, is_removed, fillable, bounds, stretched, Measured, measured, joined, union_auto,
}

-- A region whose polygon is filled, and for which p holds.
abbrev filled : (List (ℕ × ℕ) → Bool) → Region → Bool
filled p r = not (is_removed r) && p r.polygon

fillable-filled :
    (p : List (ℕ × ℕ) → Bool) (rs : List Region) → any p (fillable rs) ≡ any (filled p) rs
fillable-filled p [] = refl
fillable-filled p (r ∷ rs) = pick (not (is_removed r)) (fillable-filled p rs)
  where
    others : List Region
    others = keep (λ s. not (is_removed s)) rs

    pick :
        (b : Bool)
        → any p (map (λ s. s.polygon) others) ≡ any (filled p) rs
        → any p (map (λ s. s.polygon) (if b then r ∷ others else others))
          ≡ ((b && p r.polygon) || any (filled p) rs)
    pick true f = ap (λ x. p r.polygon || x) f
    pick false f = f

or_false : (a : Bool) → a ≡ true → (a || false) ≡ true
or_false true h = h
or_false false h = h

or_spread : (a b c d : Bool) → (a || (b || c)) ≡ true → (a || b || (d || c)) ≡ true
or_spread true b c d h = refl
or_spread false true c d h = refl
or_spread false false c true h = refl
or_spread false false c false h = h

or_false_spread : (a b c d : Bool) → (a || (false || c)) ≡ true → (a || b || (d || c)) ≡ true
or_false_spread true b c d h = refl
or_false_spread false true c d h = refl
or_false_spread false false c true h = refl
or_false_spread false false c false h = h

-- The seller's own regions.
abbrev pub kept_of : List Region → List Region
kept_of rs = keep (λ r. not (is_auto r)) rs

abbrev autos_of : List Region → List Region
autos_of rs = keep is_auto rs

module _ (q : Region → Bool) (old new out : List Region) where
  confirmed-Between :
      union_auto old new true ≡ some out
      → Between q (any q (kept_of old)) (any q (autos_of old)) (any q (autos_of new)) (any q out)
  unfolding union_auto
  confirmed-Between e =
      joined-Between q (measured (kept_of old)) (measured (autos_of old)) (measured (autos_of new))
        (any q (kept_of old)) (any q (autos_of old)) (any q (autos_of new)) out
        (measured-hit q (kept_of old)) (measured-hit q (autos_of old))
        (measured-hit q (autos_of new)) e

  unconfirmed-Between :
      union_auto old new false ≡ some out
      → Between q (any q (kept_of old)) false (any q (autos_of new)) (any q out)
  unfolding union_auto
  unconfirmed-Between e =
      joined-Between q (measured (kept_of old)) (some []) (measured (autos_of new))
        (any q (kept_of old)) false (any q (autos_of new)) out (measured-hit q (kept_of old))
        (λ l f. let nil : [] ≡ l = cc f in rw (← nil) refl) (measured-hit q (autos_of new)) e

union_auto-covers :
    (p : List (ℕ × ℕ) → Bool) (old new : List Region) (confirmed : Bool) (out : List Region)
    → union_auto old new confirmed ≡ some out
    → (any p (fillable (if confirmed then old else kept_of old)) ≡ true
        → any p (fillable out) ≡ true)
      × (any p (fillable out) ≡ true → (any p (fillable old) || any p (fillable new)) ≡ true)
union_auto-covers p old new true out e =
    let both = confirmed-Between (filled p) old new out e in
    rw
      (
        fillable-filled p old,
        fillable-filled p new,
        fillable-filled p out,
        ← parts-hit (filled p) old,
        ← parts-hit (filled p) new,
      )
      (
        both.0,
        λ h.
            or_spread (any (filled p) (kept_of old)) (any (filled p) (autos_of old))
              (any (filled p) (autos_of new)) (any (filled p) (kept_of new)) (both.1 h),
      )
union_auto-covers p old new false out e =
    let both = unconfirmed-Between (filled p) old new out e in
    rw
      (
        fillable-filled p old,
        fillable-filled p new,
        fillable-filled p out,
        fillable-filled p (kept_of old),
        ← parts-hit (filled p) old,
        ← parts-hit (filled p) new,
      )
      (
        λ h. both.0 (or_false (any (filled p) (kept_of old)) h),
        λ h.
            or_false_spread (any (filled p) (kept_of old)) (any (filled p) (autos_of old))
              (any (filled p) (autos_of new)) (any (filled p) (kept_of new)) (both.1 h),
      )

-- A region with a point.
abbrev pub Drawn : Region → Type 0
Drawn r = (x : ℕ × ℕ) × (xs : List (ℕ × ℕ)) × (r.polygon ≡ x ∷ xs)

bounds-answers : (x : ℕ × ℕ) (xs : List (ℕ × ℕ)) → (b : Box) × (bounds (x ∷ xs) ≡ some b)
unfolding bounds
bounds-answers x xs = stretch (bounds xs)
  where
    stretch : (o : Option Box) → (b : Box) × (stretched x o ≡ some b)
    stretch none = (_, refl)
    stretch (some b) = (_, refl)

measured-answers :
    (rs : List Region) → All Drawn rs → (ms : List Measured) × (measured rs ≡ some ms)
unfolding measured
measured-answers [] ds = ([], refl)
measured-answers (r ∷ rs) ((x, xs, e), ds) =
    let (b, f) = bounds-answers x xs in
    let (ms, g) = measured-answers rs ds in ((b, r) ∷ ms, rw (e, f, g) refl)

keep-Drawn : (f : Region → Bool) (rs : List Region) → All Drawn rs → All Drawn (keep f rs)
keep-Drawn f [] ds = tt
keep-Drawn f (r ∷ rs) (d, ds) = pick (f r) (keep-Drawn f rs ds)
  where
    pick : (b : Bool) → All Drawn (keep f rs) → All Drawn (if b then r ∷ keep f rs else keep f rs)
    pick true es = (d, es)
    pick false es = es

union_auto-answers :
    (old new : List Region) (confirmed : Bool)
    → All Drawn old
    → All Drawn new
    → (out : List Region) × (union_auto old new confirmed ≡ some out)
unfolding union_auto
union_auto-answers old new confirmed ds es =
    let (ks, k) = measured-answers (kept_of old) (keep-Drawn (λ r. not (is_auto r)) old ds) in
    let (ms, m) = measured-answers (autos_of old) (keep-Drawn is_auto old ds) in
    let (ns, n) = measured-answers (autos_of new) (keep-Drawn is_auto new es) in
    rw (k, m, n) (pick confirmed ks ms ns)
  where
    pick :
        (b : Bool) (ks ms ns : List Measured)
        → (out : List Region) × (joined (some ks) (if b then some ms else some []) (some ns)
            ≡ some out)
    pick true ks ms ns = (_, refl)
    pick false ks ms ns = (_, refl)

-- Take regions that have points each. Then union_auto answers. On a confirmed row what it leaves to
-- be filled covers all that was filled, and on another all that was filled of the regions that are
-- not automatic; and it covers nothing beyond what was filled and what the new regions fill. (p is
-- any property of a polygon.)
pub union_auto-hides_more :
    (p : List (ℕ × ℕ) → Bool) (old new : List Region) (confirmed : Bool)
    → All Drawn old
    → All Drawn new
    → (out : List Region) × (union_auto old new confirmed ≡ some out)
      × (any p (fillable (if confirmed then old else kept_of old)) ≡ true
          → any p (fillable out) ≡ true)
      × (any p (fillable out) ≡ true → (any p (fillable old) || any p (fillable new)) ≡ true)
union_auto-hides_more p old new confirmed ds es =
    let (out, e) = union_auto-answers old new confirmed ds es in
    let both = union_auto-covers p old new confirmed out e in (out, e, both.0, both.1)
