-- ===== src/Sql/Unique.antt =====
-- Tables with a unique index: no two rows clash. What an UPDATE by a key does to one row of such
-- a table, and what a SELECT sees of it afterwards.
use practice_match.Prelude.{
  ◌≡◌, refl, Bool, true, false, ◌⊎◌, inl, inr, Bool-cases, some, List, [], ◌∷◌, All, keep, any,
  arith, subst,
}
use practice_match.Sql.{fetch_one, updated}

module _ {ℓ} {Row : Type ℓ} (clashes : Row → Row → Bool) where
  abbrev pub Distinct : List Row → Type ℓ
  Distinct [] = Unit
  Distinct (r ∷ rs) = All (λ s. clashes r s ≡ false) rs × Distinct rs

  pub any-All :
      (r : Row) (t : List Row) → any (clashes r) t ≡ false → All (λ s. clashes r s ≡ false) t
  any-All r [] e = tt
  any-All r (s ∷ t) e = (ground arith, any-All r t (ground arith))

module _ {ℓ} {Row : Type ℓ} where
  pub fetch_one-All {κ} :
      (P : Row → Type κ) (selects : Row → Bool) (t : List Row) (r : Row)
      → All P t
      → fetch_one (keep selects t) ≡ some r
      → P r × (selects r ≡ true)
  fetch_one-All P selects [] r h e = absurd (cc e)
  fetch_one-All P selects (x ∷ xs) r h e = elim (Bool-cases (selects x)) [
    | inl b ↦
        let same : x ≡ r = cc (rw b at e) in
        (subst P same h.0, subst (λ y. selects y ≡ true) same b)
    | inr b ↦ fetch_one-All P selects xs r h.1 (rw b at e)
  ]

  pub keep-nil :
      (selects : Row → Bool) (t : List Row) → All (λ s. selects s ≡ false) t → keep selects t ≡ []
  keep-nil selects [] h = refl
  keep-nil selects (x ∷ xs) h = rw (h.0, keep-nil selects xs h.1) refl

  -- The row `r` is the one with the key, and the others do not clash with it.
  abbrev pub Keyed : (Row → Row → Bool) → (Row → Bool) → Row → Row → Type ℓ
  Keyed clashes has_key r s =
      ((s ≡ r) × (has_key s ≡ true)) ⊎ ((has_key s ≡ false) × (clashes r s ≡ false))

  module _ (has_key selects : Row → Bool) (set : Row → Row) (r : Row) where
    -- A SELECT that does not see the rewritten row sees the table as it was, less that row.
    pub keep-updated_same :
        (t : List Row)
        → selects r ≡ false
        → selects (set r) ≡ false
        → All (λ s. ((s ≡ r) × (has_key s ≡ true)) ⊎ (has_key s ≡ false)) t
        → keep selects (updated has_key set t) ≡ keep selects t
    keep-updated_same [] old new h = refl
    keep-updated_same (x ∷ xs) old new (inl (same, key), h) =
        rw (key, same, old, new, keep-updated_same xs old new h) refl
    keep-updated_same (x ∷ xs) old new (inr key, h) = rw (key, keep-updated_same xs old new h) refl

    -- A SELECT that sees the rewritten row and no other one answers it.
    pub fetch_one-updated :
        (found : Row → Bool) (t : List Row)
        → ((s : Row) → has_key s ≡ false → found s ≡ false)
        → selects (set r) ≡ true
        → fetch_one (keep found t) ≡ some r
        → All (λ s. ((s ≡ r) × (has_key s ≡ true)) ⊎ ((has_key s ≡ false) × (selects s ≡ false))) t
        → fetch_one (keep selects (updated has_key set t)) ≡ some (set r)
    fetch_one-updated found [] keyed new e h = absurd (cc e)
    fetch_one-updated found (x ∷ xs) keyed new e (inl (same, key), h) = rw (key, same, new) refl
    fetch_one-updated found (x ∷ xs) keyed new e (inr (key, dark), h) =
        rw (key, dark) (fetch_one-updated found xs keyed new (rw (keyed x key) at e) h)

    -- A SELECT that sees neither the rewritten row nor another one answers nothing.
    pub keep-updated_nil :
        (t : List Row)
        → selects (set r) ≡ false
        → All (λ s. ((s ≡ r) × (has_key s ≡ true)) ⊎ ((has_key s ≡ false) × (selects s ≡ false))) t
        → keep selects (updated has_key set t) ≡ []
    keep-updated_nil [] new h = refl
    keep-updated_nil (x ∷ xs) new (inl (same, key), h) =
        rw (key, same, new, keep-updated_nil xs new h) refl
    keep-updated_nil (x ∷ xs) new (inr (key, dark), h) =
        rw (key, dark, keep-updated_nil xs new h) refl
