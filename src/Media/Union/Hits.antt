-- ===== src/Media/Union/Hits.antt =====
-- Which regions the steps of union_auto of app/privacy/aggregate.py keep.
use practice_match.Prelude.{
  ◌≡◌, refl, sym, ◌∙◌, ap, Bool, true, false, not, ◌||◌, Option, none, some, List, [], ◌∷◌, ◌++◌,
  map, any, keep, arith, Bool-cases, inl, inr, if◌then◌else◌,
}
use practice_match.Privacy.Row.{Region}
use practice_match.Media.Regions.{Box}
use practice_match.Media.Union.{
  is_auto, bounds, Measured, cons_measured, measured, comes_before, put_in, in_order, in_removed,
  joined,
}

or_swap : (a b c : Bool) → (a || (b || c)) ≡ (b || (a || c))
or_swap a b c = ground arith

or_assoc : (a b c : Bool) → (a || b || c) ≡ (a || (b || c))
or_assoc a b c = ground arith

or_true : (a : Bool) → (a || true) ≡ true
or_true true = refl
or_true false = refl

widen : (a b c : Bool) → (b ≡ true → c ≡ true) → (a || b) ≡ true → (a || c) ≡ true
widen true b c f h = refl
widen false b c f h = f h

module _ (p : Region → Bool) where
  abbrev pub hit : List Measured → Bool
  hit ms = any (λ m. p m.1) ms

  pub measured-hit :
      (rs : List Region) (ms : List Measured) → measured rs ≡ some ms → hit ms ≡ any p rs
  unfolding measured
  measured-hit [] ms e = let nil : [] ≡ ms = cc e in rw (← nil) refl
  measured-hit (r ∷ rs) ms e = split (bounds r.polygon) (measured rs) (λ l f. measured-hit rs l f) e
    where
      split :
          (b : Option Box) (o : Option (List Measured))
          → ((l : List Measured) → o ≡ some l → hit l ≡ any p rs)
          → cons_measured r b o ≡ some ms
          → hit ms ≡ any p (r ∷ rs)
      split none o ih e = absurd (cc e)
      split (some b) none ih e = absurd (cc e)
      split (some b) (some l) ih e =
          let same : (b, r) ∷ l ≡ ms = cc e in rw (← same) (ap (λ x. p r || x) (ih l refl))

  put_in-hit : (m : Measured) (ms : List Measured) → hit (put_in m ms) ≡ (p m.1 || hit ms)
  unfolding put_in
  put_in-hit m [] = refl
  put_in-hit m (n ∷ ns) = elim (Bool-cases (comes_before m n)) [
    | inl e ↦ rw e refl
    | inr e ↦ rw (e, put_in-hit m ns) (or_swap (p n.1) (p m.1) (hit ns))
  ]

  in_order-hit : (ms : List Measured) → hit (in_order ms) ≡ hit ms
  unfolding in_order
  in_order-hit [] = refl
  in_order-hit (m ∷ ms) = put_in-hit m (in_order ms) ∙ ap (λ x. p m.1 || x) (in_order-hit ms)

  append-hit : (ms ns : List Measured) → hit (ms ++ ns) ≡ (hit ms || hit ns)
  append-hit [] ns = refl
  append-hit (m ∷ ms) ns = rw (append-hit ms ns) (sym (or_assoc (p m.1) (hit ms) (hit ns)))

  map-hit : (ms : List Measured) → any p (map (λ m. m.1) ms) ≡ hit ms
  map-hit [] = refl
  map-hit (m ∷ ms) = ap (λ x. p m.1 || x) (map-hit ms)

  -- What is hit lies between the kept and all.
  abbrev pub Between : Bool → Bool → Bool → Bool → Type 0
  Between a b c x = ((a || b) ≡ true → x ≡ true) × (x ≡ true → (a || (b || c)) ≡ true)

  keep-hit : (f : Measured → Bool) (ms : List Measured) → hit (keep f ms) ≡ true → hit ms ≡ true
  keep-hit f [] h = h
  keep-hit f (m ∷ ms) h = pick (f m) (keep-hit f ms) h
    where
      pick :
          (b : Bool)
          → (hit (keep f ms) ≡ true → hit ms ≡ true)
          → hit (if b then m ∷ keep f ms else keep f ms) ≡ true
          → hit (m ∷ ms) ≡ true
      pick true i g = widen (p m.1) (hit (keep f ms)) (hit ms) i g
      pick false i g = rw (i g) (or_true (p m.1))

  -- The hits of the three lists, and of what is left of the last.
  between : (a b c d : Bool) → (d ≡ true → c ≡ true) → Between a b c (a || (b || d))
  between true b c d f = (λ h. refl, λ h. refl)
  between false true c d f = (λ h. refl, λ h. refl)
  between false false c d f = (λ h. absurd (cc h), f)

  pub joined-Between :
      (ko ao fo : Option (List Measured)) (a b c : Bool) (out : List Region)
      → ((l : List Measured) → ko ≡ some l → hit l ≡ a)
      → ((l : List Measured) → ao ≡ some l → hit l ≡ b)
      → ((l : List Measured) → fo ≡ some l → hit l ≡ c)
      → joined ko ao fo ≡ some out
      → Between a b c (any p out)
  joined-Between none ao fo a b c out k m n e = absurd (cc e)
  joined-Between (some ks) none fo a b c out k m n e = absurd (cc e)
  joined-Between (some ks) (some ms) none a b c out k m n e = absurd (cc e)
  joined-Between (some ks) (some ms) (some ns) a b c out k m n e =
      let same : map (λ x. x.1) (in_order (ks ++ ms ++ fresh)) ≡ out = cc e in
      rw (← same, ← k ks refl, ← m ms refl, ← n ns refl, all_hit)
        (between (hit ks) (hit ms) (hit ns) (hit fresh) (keep-hit (λ x. not (in_removed ks x)) ns))
    where
      fresh : List Measured
      fresh = keep (λ x. not (in_removed ks x)) ns

      all_hit :
          any p (map (λ x. x.1) (in_order (ks ++ ms ++ fresh))) ≡ (hit ks || (hit ms || hit fresh))
      all_hit =
          map-hit (in_order (ks ++ ms ++ fresh))
          ∙ in_order-hit (ks ++ ms ++ fresh)
          ∙ append-hit (ks ++ ms) fresh
          ∙ ap (λ x. x || hit fresh) (append-hit ks ms)
          ∙ or_assoc (hit ks) (hit ms) (hit fresh)

module _ (q : Region → Bool) where
  -- Every region is automatic or kept.
  pub parts-hit :
      (rs : List Region)
      → (any q (keep (λ r. not (is_auto r)) rs) || any q (keep is_auto rs)) ≡ any q rs
  parts-hit [] = refl
  parts-hit (r ∷ rs) = pick (is_auto r) ∙ ap (λ x. q r || x) (parts-hit rs)
    where
      others : List Region
      others = keep (λ r. not (is_auto r)) rs

      autos : List Region
      autos = keep is_auto rs

      pick :
          (b : Bool)
          → (any q (if not b then r ∷ others else others) || any q (if b then r ∷ autos else autos))
            ≡ (q r || (any q others || any q autos))
      pick true = or_swap (any q others) (q r) (any q autos)
      pick false = or_assoc (q r) (any q others) (any q autos)
