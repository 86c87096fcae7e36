-- ===== src/Media/Regions/Laws.antt =====
-- What the merging of app/privacy/aggregate.py keeps covered, and that it ends.
use practice_match.Prelude.{
  ℕ, zero, suc, ◌≤◌, ◌≡◌, refl, ap, subst, Bool, true, false, ◌&&◌, ◌||◌, Option, none, some, List,
  [], ◌∷◌, map, length, any, arith, leb, Bool-cases, inl, inr, if◌then◌else◌,
}
use practice_match.Media.Regions.{
  Box, Entry, bounding, absorbs, fused, absorb_first, merge_once, merge_all, insert_entry, before,
  sorted, merged, with_area,
}

-- `_inside`
unfoldable pub inside : Box → Box → Bool
inside inner outer =
    leb outer.left inner.left
    && leb outer.top inner.top
    && leb inner.right outer.right
    && leb inner.bottom outer.bottom

-- The box lies inside one of the entries.
abbrev pub covered : List Entry → Box → Bool
covered out b = any (λ e. inside b e.box) out

inside-bounding : (b c d : Box) → (inside b c || inside b d) ≡ true → inside b (bounding c d) ≡ true
unfolding inside bounding
inside-bounding b c d h = ground (arith, h)

injected : {A : Type 0} {x y : A} → some x ≡ some y → x ≡ y
injected e = cc e

module _ (gap : ℕ) (b : Box) where
  inside-fused :
      (a c : Entry)
      → (inside b a.box || inside b c.box) ≡ true
      → inside b (fused gap a c).box ≡ true
  unfolding fused
  inside-fused a c h = inside-bounding b a.box c.box h

  -- What the inner loop leaves covers what was covered, with one entry less.
  abbrev Absorbed : Entry → List Entry → Entry × List Entry → Type 0
  Absorbed a es p =
      (covered (a ∷ es) b ≡ true → covered (p.0 ∷ p.1) b ≡ true) × (suc (length p.1) ≡ length es)

  Absorbed-here : (a c : Entry) (es : List Entry) → Absorbed a (c ∷ es) (fused gap a c, es)
  Absorbed-here a c es = (
    λ h. elim (Bool-cases (inside b a.box || inside b c.box)) [
      | inl e ↦ let i = inside-fused a c e in ground (arith, i)
      | inr e ↦ ground (arith, h, e)
    ],
    refl,
  )

  Absorbed-later :
      (a c e : Entry) (es left : List Entry)
      → Absorbed a es (e, left)
      → Absorbed a (c ∷ es) (e, c ∷ left)
  Absorbed-later a c e es left (covers, size) = (
    λ h. elim (Bool-cases (inside b c.box)) [
      | inl i ↦ rw i (or_true (inside b e.box))
      | inr i ↦
          let rest : covered (a ∷ es) b ≡ true = ground (arith, h, i) in
          let there = covers rest in ground (arith, there, i)
    ],
    ap suc size,
  )
    where
      or_true : (x : Bool) → (x || true) ≡ true
      or_true true = refl
      or_true false = refl

  absorb_first-Absorbed :
      (a : Entry) (es : List Entry) (p : Entry × List Entry)
      → absorb_first gap a es ≡ some p
      → Absorbed a es p
  unfolding absorb_first
  absorb_first-Absorbed a [] p e = absurd (cc e)
  absorb_first-Absorbed a (c ∷ es) p e =
      split (absorbs gap a c) (absorb_first gap a es) (λ q f. absorb_first-Absorbed a es q f) e
    where
      split :
          (t : Bool) (o : Option (Entry × List Entry))
          → ((q : Entry × List Entry) → o ≡ some q → Absorbed a es q)
          → (if t then some (fused gap a c, es) else elim o as (λ x. Option (Entry × List Entry)) [
            | none ↦ none
            | some (e, left) ↦ some (e, c ∷ left)
          ])
            ≡ some p
          → Absorbed a (c ∷ es) p
      split true o found s = subst (Absorbed a (c ∷ es)) (injected s) (Absorbed-here a c es)
      split false none found s = absurd (cc s)
      split false (some (x, left)) found s =
          subst (Absorbed a (c ∷ es)) (injected s)
            (Absorbed-later a c x es left (found (x, left) refl))

  -- One turn of the `while` covers what was covered, with one entry less.
  abbrev Kept : List Entry → List Entry → Type 0
  Kept out left = (covered out b ≡ true → covered left b ≡ true) × (suc (length left) ≡ length out)

  merge_once-Kept : (out left : List Entry) → merge_once gap out ≡ some left → Kept out left
  unfolding merge_once
  merge_once-Kept [] left e = absurd (cc e)
  merge_once-Kept (a ∷ es) left e =
      split (absorb_first gap a es) (merge_once gap es) (λ q f. absorb_first-Absorbed a es q f)
        (λ l f. merge_once-Kept es l f) e
    where
      split :
          (o : Option (Entry × List Entry)) (m : Option (List Entry))
          → ((q : Entry × List Entry) → o ≡ some q → Absorbed a es q)
          → ((l : List Entry) → m ≡ some l → Kept es l)
          → (elim o as (λ x. Option (List Entry)) [
            | some (x, l) ↦ some (x ∷ l)
            | none ↦ elim m as (λ x. Option (List Entry)) [ none ↦ none | some l ↦ some (a ∷ l) ]
          ])
            ≡ some left
          → Kept (a ∷ es) left
      split (some (x, l)) m first later s =
          let (covers, size) = first (x, l) refl in
          subst (Kept (a ∷ es)) (injected s) (covers, ap suc size)
      split none none first later s = absurd (cc s)
      split none (some l) first later s =
          let (covers, size) = later l refl in
          subst (Kept (a ∷ es)) (injected s) (
            λ h. elim (Bool-cases (inside b a.box)) [
              | inl i ↦ rw i refl
              | inr i ↦ let rest = covers (rw i at h) in rw i rest
            ],
            ap suc size,
          )

  merge_all-covers :
      (n : ℕ) (out : List Entry) → covered out b ≡ true → covered (merge_all gap n out) b ≡ true
  unfolding merge_all
  merge_all-covers zero out h = h
  merge_all-covers (suc n) out h =
      split (merge_once gap out) (λ l f. merge_once-Kept out l f) (λ l g. merge_all-covers n l g)
    where
      split :
          (m : Option (List Entry))
          → ((l : List Entry) → m ≡ some l → Kept out l)
          → ((l : List Entry) → covered l b ≡ true → covered (merge_all gap n l) b ≡ true)
          → covered (elim m as (λ x. List Entry) [ none ↦ out | some l ↦ merge_all gap n l ]) b
            ≡ true
      split none kept on = h
      split (some l) kept on = on l ((kept l refl).0 h)

  -- As much fuel as there are entries is enough: nothing is left to merge.
  merge_all-ends :
      (n : ℕ) (out : List Entry) → length out ≤ n → merge_once gap (merge_all gap n out) ≡ none
  unfolding merge_all merge_once
  merge_all-ends zero [] h = refl
  merge_all-ends zero (a ∷ es) h = absurd (omega (arith, h))
  merge_all-ends (suc n) out h =
      split (merge_once gap out) refl (λ l f. merge_once-Kept out l f) (λ l g. merge_all-ends n l g)
    where
      split :
          (m : Option (List Entry))
          → merge_once gap out ≡ m
          → ((l : List Entry) → m ≡ some l → Kept out l)
          → ((l : List Entry) → length l ≤ n → merge_once gap (merge_all gap n l) ≡ none)
          → merge_once gap (elim m as (λ x. List Entry) [ none ↦ out | some l ↦ merge_all gap n l ])
            ≡ none
      split none e kept on = e
      split (some l) e kept on = on l (let size = (kept l refl).1 in omega (arith, size, h))

  insert_entry-covered :
      (a : Entry) (out : List Entry)
      → covered (a ∷ out) b ≡ true
      → covered (insert_entry a out) b ≡ true
  unfolding insert_entry
  insert_entry-covered a [] h = h
  insert_entry-covered a (c ∷ out) h = elim (Bool-cases (before a c)) [
    | inl e ↦ rw e h
    | inr e ↦ rw e (elim (Bool-cases (inside b c.box)) [
      | inl i ↦ rw i refl
      | inr i ↦ let rest = insert_entry-covered a out (ground (arith, h, i)) in rw i rest
    ])
  ]

  sorted-covered : (out : List Entry) → covered out b ≡ true → covered (sorted out) b ≡ true
  unfolding sorted
  sorted-covered [] h = h
  sorted-covered (a ∷ out) h =
      insert_entry-covered a (sorted out) (elim (Bool-cases (inside b a.box)) [
        | inl i ↦ rw i refl
        | inr i ↦ let rest = sorted-covered out (rw i at h) in rw i rest
      ])

  map-covered :
      (boxes : List (Box × (ℕ × Option ℕ)))
      → any (λ p. inside b p.0) boxes ≡ true
      → covered (map with_area boxes) b ≡ true
  map-covered [] h = h
  map-covered (p ∷ boxes) h = elim (Bool-cases (inside b p.0)) [
    | inl i ↦ rw i refl
    | inr i ↦ let rest = map-covered boxes (rw i at h) in rw i rest
  ]

  -- Whatever the gap, a box (a pixel, say) that lies inside one of the boxes to merge lies inside one
  -- of the boxes that are left: merging uncovers nothing.
  pub merged-covers :
      (boxes : List (Box × (ℕ × Option ℕ)))
      → any (λ p. inside b p.0) boxes ≡ true
      → covered (merged gap boxes) b ≡ true
  unfolding merged
  merged-covers boxes h =
      let out = map with_area boxes in
      sorted-covered (merge_all gap (length out) out)
        (merge_all-covers (length out) out (map-covered boxes h))

-- Whatever the gap and the boxes, the `while` has ended after at most as many turns as there are
-- boxes: no two of the boxes that are left merge.
pub merged-ends :
    (gap : ℕ) (boxes : List (Box × (ℕ × Option ℕ)))
    → merge_once gap (merge_all gap (length boxes) (map with_area boxes)) ≡ none
merged-ends gap boxes =
    merge_all-ends gap (record { left = 0; top = 0; right = 0; bottom = 0 }) (length boxes)
      (map with_area boxes) (as_long boxes)
  where
    as_long : (boxes : List (Box × (ℕ × Option ℕ))) → length (map with_area boxes) ≤ length boxes
    as_long [] = omega arith
    as_long (p ∷ boxes) = omega (arith, as_long boxes)
