-- ===== src/Media/Regions.antt =====
-- app/privacy/aggregate.py: the merging of the boxes that a derivative fills. Coordinates are in a
-- fixed fraction of a pixel and `gap` is MERGE_GAP_PX in it; the source computes with floats.
pub mod Laws
use practice_match.Prelude.{
  ℕ, zero, suc, ◌+◌, ◌-◌, ◌*◌, Bool, true, false, not, ◌&&◌, ◌||◌, Option, none, some, List, [],
  ◌∷◌, map, length, leb, ltb, is_some, if◌then◌else◌, ◌==◌,
}

pub record Box : Type 0 where
  pub left : ℕ
  pub top : ℕ
  pub right : ℕ
  pub bottom : ℕ

-- An entry of the working list: the box, its pad, the line it came from, and the true area of the
-- findings in it.
pub record Entry : Type 0 where
  pub box : Box
  pub pad : ℕ
  pub origin : Option ℕ
  pub true_area : ℕ

abbrev pub min : ℕ → ℕ → ℕ
min a b = if ltb b a then b else a

abbrev pub max : ℕ → ℕ → ℕ
max a b = if ltb a b then b else a

-- `_area`
unfoldable pub area : Box → ℕ
area b = (b.right - b.left) * (b.bottom - b.top)

-- `_bounding`
unfoldable pub bounding : Box → Box → Box
bounding a b = record {
  left = min a.left b.left;
  top = min a.top b.top;
  right = max a.right b.right;
  bottom = max a.bottom b.bottom;
}

-- MERGE_AREA_FACTOR
abbrev pub area_factor : ℕ
area_factor = 2

-- The order of `sorted`: by the top, then by the left.
abbrev pub before : Entry → Entry → Bool
before a b = ltb a.box.top b.box.top || a.box.top == b.box.top && leb a.box.left b.box.left

unfoldable pub insert_entry : Entry → List Entry → List Entry
insert_entry a [] = a ∷ []
insert_entry a (b ∷ bs) =
    let rest = insert_entry a bs in if before a b then a ∷ b ∷ bs else b ∷ rest

unfoldable pub sorted : List Entry → List Entry
unfolding insert_entry
sorted [] = []
sorted (a ∷ es) = insert_entry a (sorted es)

abbrev pub with_area : Box × (ℕ × Option ℕ) → Entry
with_area (box, (pad, origin)) = record {
  box = box;
  pad = pad;
  origin = origin;
  true_area = area box;
}

module _ (gap : ℕ) where
  -- `_near`
  unfoldable pub near : Box → Box → Bool
  near a b = not (
      ltb (a.right + gap) b.left
      || ltb (b.right + gap) a.left
      || ltb (a.bottom + gap) b.top
      || ltb (b.bottom + gap) a.top)

  -- `_absorbs`
  unfoldable pub absorbs : Entry → Entry → Bool
  unfolding near area bounding
  absorbs a b =
      near a.box b.box
      && leb (area (bounding a.box b.box)) (area_factor * (a.true_area + b.true_area))

  -- out[i], with out[j] absorbed.
  unfoldable pub fused : Entry → Entry → Entry
  unfolding bounding
  fused a b = record {
    box = bounding a.box b.box;
    pad = max a.pad b.pad;
    origin = if is_some a.origin then a.origin else b.origin;
    true_area = a.true_area + b.true_area;
  }

  -- The inner loop: the first entry that `a` absorbs is taken out.
  unfoldable pub absorb_first : Entry → List Entry → Option (Entry × List Entry)
  unfolding absorbs fused
  absorb_first a [] = none
  absorb_first a (b ∷ bs) =
      let rest = absorb_first a bs in
      if absorbs a b
      then some (fused a b, bs)
      else elim rest [ none ↦ none | some (e, left) ↦ some (e, b ∷ left) ]

  -- One turn of the `while`: the first pair that merges, if there is one.
  unfoldable pub merge_once : List Entry → Option (List Entry)
  unfolding absorb_first
  merge_once [] = none
  merge_once (a ∷ es) =
      let later = merge_once es in
      elim (absorb_first a es) [
        | some (e, left) ↦ some (e ∷ left)
        | none ↦ elim later [ none ↦ none | some left ↦ some (a ∷ left) ]
      ]

  -- `while changed`, on fuel.
  unfoldable pub merge_all : ℕ → List Entry → List Entry
  unfolding merge_once
  merge_all zero out = out
  merge_all (suc n) out = elim (merge_once out) [ none ↦ out | some left ↦ merge_all n left ]

  -- `_merged`
  unfoldable pub merged : List (Box × (ℕ × Option ℕ)) → List Entry
  unfolding merge_all sorted
  merged boxes = let out = map with_area boxes in sorted (merge_all (length out) out)
