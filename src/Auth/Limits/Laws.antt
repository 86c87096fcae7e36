-- ===== src/Auth/Limits/Laws.antt =====
-- app/ratelimit.py: when an attempt is admitted, and what it leaves.
use practice_match.Prelude.{
  ℕ, ◌+◌, ◌-◌, ◌≤◌, String, ◌≡◌, refl, Bool, true, false, not, List, [], ◌∷◌, keep, any, length,
  ltb, leb, str_eq, Bool-cases, inl, inr, arith, if◌then◌else◌, ◌∙◌, sym, ap, subst,
}
use practice_match.Auth.Limits.{
  SortedSets, Reservation, micros, reserve, admit, refuse, clamp, wait_of, ceil_seconds,
}

clamp-bounds :
    (window wait : ℕ) → 1 ≤ window → (1 ≤ clamp window wait) × (clamp window wait ≤ window)
clamp-bounds window wait h = (ground arith, ground arith)

wait_of-bounds :
    (now window : ℕ) (es : List (ℕ × String))
    → 1 ≤ window
    → (1 ≤ wait_of now window es) × (wait_of now window es ≤ window)
wait_of-bounds now window [] h = clamp-bounds window window h
wait_of-bounds now window (e ∷ es) h =
    clamp-bounds window (ceil_seconds (e.0 + micros window - now)) h

any-keep :
    (p q : ℕ × String → Bool) (es : List (ℕ × String))
    → any p es ≡ false
    → any p (keep q es) ≡ false
any-keep p q [] h = refl
any-keep p q (e ∷ es) h = elim (Bool-cases (q e)) [
  | inl b ↦ rw b (ground (arith, any-keep p q es))
  | inr b ↦ rw b (any-keep p q es (ground arith))
]

module _ (sets : SortedSets) (now limit window : ℕ) (member : String) (s : sets.Set) where
  -- The attempts that are inside the window now.
  abbrev pub recent : List (ℕ × String)
  recent = keep (λ e. ltb now (e.0 + micros window)) (sets.entries s)

  pruned-recent : sets.entries (sets.prune now (micros window) s) ≡ recent
  pruned-recent = sets.entries-prune now (micros window) s

  added :
      any (λ e. str_eq e.1 member) (sets.entries s) ≡ false
      → leb limit (length recent) ≡ false
      → length
          (sets.entries ((admit sets now limit window member (sets.prune now (micros window) s)).0))
        ≡ length recent + 1
  added fresh room =
      let pruned = sets.prune now (micros window) s in
      let fresh' : any (λ e. str_eq e.1 member) (sets.entries pruned) ≡ false =
        rw pruned-recent (any-keep (λ e. str_eq e.1 member) _ (sets.entries s) fresh) in
      let grown : length (sets.entries (sets.zadd now member pruned)) ≡ length recent + 1 =
        sets.length-zadd now member pruned fresh' ∙ ap (λ es. length es + 1) pruned-recent in
      let fits : length (sets.entries (sets.zadd now member pruned)) ≤ limit = ground arith in
      ap length (
        sets.entries-expire window (sets.trim limit (sets.zadd now member pruned))
        ∙ sets.entries-trim limit (sets.zadd now member pruned) fits)
      ∙ grown

  abbrev pub outcome : sets.Set × Reservation
  outcome = reserve sets now limit window member s

  abbrev pruned_set : sets.Set
  pruned_set = sets.prune now (micros window) s

  -- What the outcome is meant to be.
  abbrev pub Meets : sets.Set × Reservation → Type 0
  Meets o =
      ((o.1).admitted ≡ ltb (length recent) limit)
      × (length (sets.entries o.0)
          ≡ (if ltb (length recent) limit then length recent + 1 else length recent))
      × ((o.1).in_window ≡ length (sets.entries o.0))
      × (leb 1 (o.1).retry_after ≡ not (o.1).admitted)
      × ((o.1).retry_after ≤ window)

  refuse-Meets :
      leb limit (length recent) ≡ true → 1 ≤ window → Meets (refuse sets now window pruned_set)
  refuse-Meets full wide =
      let test : ltb (length recent) limit ≡ false = ground arith in
      let (low, high) = wait_of-bounds now window (sets.entries pruned_set) wide in
      rw test (refl, ap length pruned-recent, refl, ground (arith, low), high)

  admit-Meets :
      any (λ e. str_eq e.1 member) (sets.entries s) ≡ false
      → leb limit (length recent) ≡ false
      → Meets (admit sets now limit window member pruned_set)
  admit-Meets fresh room =
      let test : ltb (length recent) limit ≡ true = ground arith in
      rw test (refl, added fresh room, refl, refl, ground arith)

  full_as_pruned : leb limit (length (sets.entries pruned_set)) ≡ leb limit (length recent)
  full_as_pruned = ap (λ es. leb limit (length es)) pruned-recent

  reserve-full : leb limit (length recent) ≡ true → outcome ≡ refuse sets now window pruned_set
  unfolding reserve
  reserve-full full = let e = full_as_pruned ∙ full in rw e refl

  reserve-room :
      leb limit (length recent) ≡ false → outcome ≡ admit sets now limit window member pruned_set
  unfolding reserve
  reserve-room room = let e = full_as_pruned ∙ room in rw e refl

  -- An attempt whose random token is new is admitted exactly when fewer than `limit` attempts are
  -- inside the window; the set then holds one more than that, and after a refusal as many as
  -- that, and how many it holds is answered. The window is at least a second: the wait is answered
  -- on a refusal, from one second to the window, and is zero on an admission.
  pub reserve-outcome :
      any (λ e. str_eq e.1 member) (sets.entries s) ≡ false → 1 ≤ window → Meets outcome
  reserve-outcome fresh wide = elim (Bool-cases (leb limit (length recent))) [
    | inl full ↦ subst Meets (sym (reserve-full full)) (refuse-Meets full wide)
    | inr room ↦ subst Meets (sym (reserve-room room)) (admit-Meets fresh room)
  ]
