-- ===== src/Listing/Photos/Order.antt =====
-- A reorder that is accepted fills the same slots with the same photographs.
use practice_match.Prelude.{
  ℕ, suc, String, ◌≡◌, ◌≢◌, refl, ap, ◌∙◌, Bool, true, false, Option, none, some, List, [], ◌∷◌,
  map, is_some, length, str_eq, eq_iff, arith, Bool-cases, Option-cases, inl, inr, if◌then◌else◌,
}
use practice_match.Listing.Refusal.{
  Run, gives, refuses, escapes, Refusal, ◌>>=◌, Holds, chained-Holds,
}
use practice_match.Listing.Store.{entries}
use practice_match.Listing.Photos.{take_out, same_entries, spliced}

-- How often a photograph is in the list.
abbrev pub occurrences : String → List String → ℕ
occurrences e [] = 0
occurrences e (x ∷ xs) = let rest = occurrences e xs in if str_eq e x then suc rest else rest

module _ (x : String) where
  -- The rest with `x` in front is the list again, up to order.
  abbrev Rearranged : List String → List String → Type 0
  Rearranged rest ys =
      ((e : String) → occurrences e (x ∷ rest) ≡ occurrences e ys) × (suc (length rest) ≡ length ys)

  swap :
      (e y : String) (n : ℕ)
      → (if str_eq e x
          then suc (if str_eq e y then suc n else n)
          else (if str_eq e y then suc n else n))
        ≡ (if str_eq e y
            then suc (if str_eq e x then suc n else n)
            else (if str_eq e x then suc n else n))
  swap e y n = ground arith

  take_out-Rearranged : (ys rest : List String) → take_out x ys ≡ some rest → Rearranged rest ys
  take_out-Rearranged [] rest e = absurd (cc e)
  take_out-Rearranged (y ∷ ys) rest e = elim (Bool-cases (str_eq x y)) [
    | inl same ↦
        let here : ys ≡ rest = cc (rw same at e) in
        let named : x ≡ y = (eq_iff x y).0 same in rw (← here, ← named) ((λ z. refl), refl)
    | inr other ↦ elim (Option-cases (take_out x ys)) [
      | inl gone ↦ absurd (cc (rw (other, gone) at e))
      | inr (zs, left) ↦
          let there : y ∷ zs ≡ rest = cc (rw (other, left) at e) in
          let (counts, size) = take_out-Rearranged ys zs left in
          rw (← there) (
            (λ z.
                swap z y (occurrences z zs) ∙ ap (λ n. if str_eq z y then suc n else n) (counts z)),
            ap suc size,
          )
    ]
  ]

pub same_entries-occurrences :
    (ids filled : List String)
    → same_entries ids filled ≡ true
    → ((e : String) → occurrences e ids ≡ occurrences e filled) × (length ids ≡ length filled)
same_entries-occurrences [] [] h = ((λ e. refl), refl)
same_entries-occurrences [] (y ∷ ys) h = absurd (cc h)
same_entries-occurrences (x ∷ xs) ys h =
    let (rest, left, more) = found (take_out x ys) h in
    let (counts, size) = same_entries-occurrences xs rest more in
    let (counts', size') = take_out-Rearranged x ys rest left in
    ((λ e. ap (λ n. if str_eq e x then suc n else n) (counts e) ∙ counts' e), ap suc size ∙ size')
  where
    found :
        (o : Option (List String))
        → (elim o as (λ z. Bool) [ none ↦ false | some rest ↦ same_entries xs rest ]) ≡ true
        → (rest : List String) × (o ≡ some rest) × (same_entries xs rest ≡ true)
    found none e = absurd (cc e)
    found (some rest) e = (rest, refl, e)

-- The photographs in the order of the ids, and the empty slots where they were.
abbrev pub Ordered : List (Option String) → List String → List (Option String) → Type 0
Ordered slots ids slots' = (entries slots' ≡ ids) × (map is_some slots' ≡ map is_some slots)

pub spliced-Holds :
    (slots : List (Option String)) (ids : List String)
    → length ids ≡ length (entries slots)
    → Holds (Ordered slots ids) (spliced slots ids)
unfolding spliced entries
spliced-Holds [] [] e = (refl, refl)
spliced-Holds [] (i ∷ ids) e = absurd (omega (arith, e))
spliced-Holds (none ∷ slots) ids e =
    chained-Holds _ (Ordered (none ∷ slots) ids) (spliced slots ids) _ (spliced-Holds slots ids e)
      (λ rest h. (h.0, ap (λ m. false ∷ m) h.1))
spliced-Holds (some x ∷ slots) [] e = absurd (omega (arith, e))
spliced-Holds (some x ∷ slots) (i ∷ ids) e =
    chained-Holds _ (Ordered (some x ∷ slots) (i ∷ ids)) (spliced slots ids) _
      (spliced-Holds slots ids (omega (arith, e)))
      (λ rest h. (ap (λ m. i ∷ m) h.0, ap (λ m. true ∷ m) h.1))

passed_on :
    {A B : Type 0} {r : Refusal} (m : Run A) (f : A → B)
    → m ≢ refuses r
    → (m >>= λ a. gives (f a)) ≡ refuses r
    → ⊥
passed_on (gives a) f h e = cc e
passed_on (refuses x) f h e = h (cc e)
passed_on escapes f h e = cc e

spliced-ne_refuses :
    (slots : List (Option String)) (ids : List String) (r : Refusal) → spliced slots ids ≢ refuses r
unfolding spliced
spliced-ne_refuses [] ids r e = cc e
spliced-ne_refuses (none ∷ slots) ids r e =
    passed_on (spliced slots ids) (λ rest. none ∷ rest) (spliced-ne_refuses slots ids r) e
spliced-ne_refuses (some x ∷ slots) [] r e = cc e
spliced-ne_refuses (some x ∷ slots) (i ∷ ids) r e =
    passed_on (spliced slots ids) (λ rest. some i ∷ rest) (spliced-ne_refuses slots ids r) e

-- When the ids pass the check of `reorder_photos`, the splice does not run out of ids: it answers the
-- slots with the ids in their order, an empty slot wherever one was, and every photograph as often
-- as before.
pub spliced-reorders :
    (slots : List (Option String)) (ids : List String)
    → same_entries ids (entries slots) ≡ true
    → (slots' : List (Option String)) × (spliced slots ids ≡ gives slots')
      × (entries slots' ≡ ids)
      × (map is_some slots' ≡ map is_some slots)
      × ((e : String) → occurrences e (entries slots') ≡ occurrences e (entries slots))
spliced-reorders slots ids h =
    let (counts, size) = same_entries-occurrences ids (entries slots) h in
    answered (spliced slots ids) (λ r e. spliced-ne_refuses slots ids r e) counts
      (spliced-Holds slots ids size)
  where
    answered :
        (m : Run (List (Option String)))
        → ((r : Refusal) → m ≢ refuses r)
        → ((e : String) → occurrences e ids ≡ occurrences e (entries slots))
        → Holds (Ordered slots ids) m
        → (slots' : List (Option String)) × (m ≡ gives slots')
          × (entries slots' ≡ ids)
          × (map is_some slots' ≡ map is_some slots)
          × ((e : String) → occurrences e (entries slots') ≡ occurrences e (entries slots))
    answered (gives slots') calm counts ordered =
        (slots', refl, ordered.0, ordered.1, λ e. ap (occurrences e) ordered.0 ∙ counts e)
    answered (refuses r) calm counts ordered = absurd (calm r refl)
    answered escapes calm counts ordered = absurd ordered
