-- ===== src/Census/Vintage/Live.antt =====
-- app/census/vintage.py: what an activation changes.
use practice_match.Prelude.{
  ℕ, String, ◌≡◌, refl, Bool, true, false, not, ◌&&◌, Option, none, some, List, [], ◌∷◌, keep,
  is_some, str_eq, Bool-cases, inl, inr, eq_refl, eq_iff, if◌then◌else◌,
}
use practice_match.Census.Runs.{DataTable, Active, Db}
use practice_match.Census.Vintage.{
  table_for, active, qa, Report, Activation, activated, not_succeeded, partial, out_of_range,
  is_succeeded, in_range, checked, set_active, activate, activate_in, is_dataset,
}

-- The database that an activation leaves, or the one before it.
abbrev pub database : Db → Activation → Db
database db (activated db' rep) = db'
database db _ = db

abbrev pub is_activated : Activation → Bool
is_activated (activated db rep) = true
is_activated _ = false

keep-keep :
    (other key : String) (rows : List Active)
    → str_eq key other ≡ false
    → keep (is_dataset other) (keep (λ b. not (is_dataset key b)) rows)
      ≡ keep (is_dataset other) rows
keep-keep other key [] e = refl
keep-keep other key (a ∷ rows) e = elim (Bool-cases (is_dataset key a)) [
  | inl own ↦
      let same : is_dataset other a ≡ false = rw ((eq_iff a.dataset_key key).0 own) e in
      rw (own, same, keep-keep other key rows e) refl
  | inr away ↦ rw (away, keep-keep other key rows e) refl
]

module _ (now : ℕ) (key vintage by : String) (force : Bool) (why : Option String) (db : Db) where
  -- What the activation does to the active vintages: of its own dataset, and of another.
  abbrev Effect : String → Activation → Type 0
  Effect other a =
      (active key (database db a) ≡ (if is_activated a then some vintage else active key db))
      × (active other (database db a) ≡ active other db)

  set_active-Effect :
      (other : String) (rep : Report)
      → str_eq key other ≡ false
      → Effect other (activated (set_active now key vintage by why db) rep)
  unfolding active
  set_active-Effect other rep e =
      (rw (eq_refl key) refl, rw (e, keep-keep other key db.active_vintage e) refl)

  checked-Effect :
      (other : String) (rep : Report)
      → str_eq key other ≡ false
      → Effect other (checked now key vintage by force why db rep)
  checked-Effect other rep e =
      cases (is_succeeded rep.last_run_status) (is_some rep.run_notes) (in_range rep) force _
        (set_active-Effect other (record rep { note = why }) e)
    where
      cases :
          (s n i f : Bool) (a : Activation)
          → Effect other a
          → Effect other (
              if not s
              then not_succeeded
              else if n
              then partial
              else if not i && not f
              then out_of_range
              else a)
      cases false n i f a h = (refl, refl)
      cases true true i f a h = (refl, refl)
      cases true false true f a h = h
      cases true false false true a h = h
      cases true false false false a h = (refl, refl)

  activate_in-Effect :
      (other : String)
      → str_eq key other ≡ false
      → (table : Option DataTable)
      → Effect other (activate_in table now key vintage by force why db)
  activate_in-Effect other e none = (refl, refl)
  activate_in-Effect other e (some table) = checked-Effect other (qa table key vintage db) e

  -- An activation, on each of its branches, sets the active vintage of its own dataset to the one
  -- asked for when it goes through and leaves it alone when it is refused, and never changes the
  -- active vintage of another dataset.
  pub activate-effect :
      (other : String)
      → str_eq key other ≡ false
      → (active key (database db (activate now key vintage by force why db)) ≡ (
          if is_activated (activate now key vintage by force why db)
          then some vintage
          else active key db))
        × (active other (database db (activate now key vintage by force why db)) ≡ active other db)
  unfolding activate
  activate-effect other e = activate_in-Effect other e (table_for key)
