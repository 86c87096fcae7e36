-- ===== src/Listing/Life/Found.antt =====
-- The statements of a listing handler, on the one row that its transaction has locked.
use practice_match.Prelude.{
  ℕ, String, ◌≡◌, refl, sym, ◌∙◌, ap, subst, Bool, true, false, not, ◌&&◌, Option, some, List, [],
  ◌∷◌, All, Bool-cases, Option-cases, inl, inr, str_eq, eq_refl, arith, if◌then◌else◌,
}
use practice_match.Sql.{Outcome, ok, raised}
use practice_match.Privacy.Record.{
  Table, set_visibility, reset_for_reprocess, reset_confirmation, mark_published,
}
use practice_match.Privacy.Row.{Region}
use practice_match.Privacy.Delivery.{Offence}
use practice_match.Privacy.Invariant.{IsSound as IsSound_row}
use practice_match.Privacy.History.{Call, apply, after}
use practice_match.Privacy.History.Safety.{Succeeds, apply-Succeeds}
use practice_match.Listing.Row.{Listing, published, status_eq, among, seller}
use practice_match.Listing.Refusal.{
  gives, refuses, execute, Holds, chained-Holds, if-Holds, Refusal, photos_not_ready,
}
use practice_match.Listing.Store.{
  Db, update_listing, blocked, locked_row, owned_by, claim_from_seed, not_ready, is_nil,
}
use practice_match.Listing.Handler.{
  reenters_review, refuse_if, refuse_unready_photographs, published_if,
}
use practice_match.Listing.Invariant.{IsSound, IsSoundDb, IsSound-checks}

-- A statement of the photographs' table that keeps its rows sound does not raise.
execute-Holds {ℓ} :
    {A : Type ℓ} (m : Outcome (Table × A))
    → Succeeds (after m)
    → Holds (λ p. All IsSound_row (p.0)) (execute m)
execute-Holds (ok p) (t, e, h) = subst (All IsSound_row) (sym (ok_injective e)) h
  where
    ok_injective : {x y : Table} → ok x ≡ ok y → x ≡ y
    ok_injective e = cc e
execute-Holds (raised v) (t, e, h) = absurd (cc e)

module _ (now : ℕ) (t : Table) (h : All IsSound_row t) where
  pub set_visibility-Holds :
      (a : String) (visible : Bool)
      → Holds (λ p. All IsSound_row (p.0)) (execute (set_visibility now a visible t))
  unfolding apply
  set_visibility-Holds a visible =
      execute-Holds (set_visibility now a visible t)
        (apply-Succeeds now t h (Call.sets_visibility a visible) tt)

  pub reset_for_reprocess-Holds :
      (a : String) → Holds (λ p. All IsSound_row (p.0)) (execute (reset_for_reprocess now a t))
  unfolding apply
  reset_for_reprocess-Holds a =
      execute-Holds (reset_for_reprocess now a t)
        (apply-Succeeds now t h (Call.resets_for_reprocess a) tt)

  pub reset_confirmation-Holds :
      (a : String) (regions : Option (List Region))
      → Holds (λ p. All IsSound_row (p.0)) (execute (reset_confirmation now a regions t))
  unfolding apply
  reset_confirmation-Holds a regions =
      execute-Holds (reset_confirmation now a regions t)
        (apply-Succeeds now t h (Call.resets_confirmation a regions) tt)

  pub mark_published-Holds :
      (l : String) → Holds (λ p. All IsSound_row (p.0)) (execute (mark_published now l t))
  unfolding apply
  mark_published-Holds l =
      execute-Holds (mark_published now l t) (apply-Succeeds now t h (Call.marks_published l) tt)

-- The row under `id` satisfies `P`, and the others are those of `before`.
pub record Found (id : String) (P : Listing → Type 0) (before now : String → Option Listing)
    : Type 0 where
  pub row : Listing
  pub there : now id ≡ some row
  pub others : (k : String) → str_eq k id ≡ false → now k ≡ before k
  pub holds : P row

-- The tables with the photographs' rows sound.
abbrev pub At : String → (Listing → Type 0) → Db → Db → Type 0
At id P before db = Found id P before.listing db.listing × All IsSound_row db.privacy

pub refuse_if-Holds : (b : Bool) (r : Refusal) → Holds (λ x. b ≡ false) (refuse_if b r)
refuse_if-Holds true r = tt
refuse_if-Holds false r = refl

pub locked_row-Holds :
    (id account : String) (db : Db)
    → Holds (λ r. (db.listing id ≡ some r) × (owned_by account r ≡ true)) (locked_row id account db)
unfolding locked_row
locked_row-Holds id account db = elim (Option-cases (db.listing id)) [
  | inl e ↦ rw e tt
  | inr (r, e) ↦ rw e (if-Holds _ (owned_by account r) _ _ (λ o. (refl, o)) (λ o. tt))
]

no_offenders-Holds :
    (os : List (String × Offence))
    → Holds (λ x. os ≡ []) (if is_nil os then gives (tt {0}) else refuses (photos_not_ready os))
no_offenders-Holds [] = refl
no_offenders-Holds (o ∷ os) = tt

pub refuse_unready_photographs-Holds :
    (r : Listing) (db : Db)
    → Holds (λ x. not_ready db.privacy r ≡ []) (refuse_unready_photographs r db)
unfolding refuse_unready_photographs
refuse_unready_photographs-Holds r db = no_offenders-Holds (not_ready db.privacy r)

-- An update that does not bring the row to the market is not blocked by the trigger.
pub blocked-same :
    (privacy : Table) (r r' : Listing) → r'.status ≡ r.status → blocked privacy r r' ≡ false
unfolding blocked
blocked-same privacy r r' e = rw e (neither (status_eq r.status published) _)
  where
    neither : (a b : Bool) → (not a && a && b) ≡ false
    neither true b = refl
    neither false b = refl

module _ (id : String) (before : Db) (P Q : Listing → Type 0) where
  pub update_listing-Holds :
      (selects : Listing → Bool) (set : Listing → Listing) (db : Db)
      → At id P before db
      → ((r : Listing)
          → P r
          → selects r ≡ true
          → (blocked db.privacy r (set r) ≡ false) × IsSound (set r) × Q (set r))
      → ((r : Listing) → P r → selects r ≡ false → Q r)
      → Holds (At id Q before) (update_listing id selects set db)
  unfolding update_listing
  update_listing-Holds selects set db (at, photographs) writes skips =
      let r = at.row in
      elim (Bool-cases (selects r)) [
        | inl s ↦
            let (free, sound, q) = writes r at.holds s in
            rw (at.there, s, free, IsSound-checks (set r) sound)
              (
                record {
                  row = set r;
                  there = rw (eq_refl id) refl;
                  others = λ k e. rw e (at.others k e);
                  holds = q;
                },
                photographs,
              )
        | inr s ↦
            rw (at.there, s)
              (
                record {
                  row = r;
                  there = at.there;
                  others = at.others;
                  holds = skips r at.holds s;
                },
                photographs,
              )
      ]

module _ (id : String) (before : Db) (P : Listing → Type 0) where
  pub claim_from_seed-Holds :
      (account : String) (db : Db)
      → At id P before db
      → ((r : Listing) → P r → IsSound (record r { source = seller }))
      → ((r : Listing) → P r → P (record r { source = seller }))
      → Holds (At id P before) (claim_from_seed id account db)
  unfolding claim_from_seed
  claim_from_seed-Holds account db at sound keeps =
      update_listing-Holds id before P P _ _ db at
        (λ r p s.
          (blocked-same db.privacy r (record r { source = seller }) refl, sound r p, keeps r p))
        (λ r p s. p)

  pub published_if-Holds :
      (b : Bool) (now : ℕ) (db : Db)
      → At id P before db
      → Holds (At id P before) (published_if b now id db)
  unfolding published_if
  published_if-Holds false now db at = at
  published_if-Holds true now db at =
      chained-Holds _ (At id P before) (execute (mark_published now id db.privacy)) _
        (mark_published-Holds now db.privacy at.1 id) (λ wrote sound. (at.0, sound))

pub blocked-off :
    (privacy : Table) (r r' : Listing)
    → among reenters_review r'.status ≡ false
    → blocked privacy r r' ≡ false
unfolding blocked
blocked-off privacy r r' e = ground (arith, e)

-- The row that `locked_row` found, as the start of the transaction.
pub locked-At :
    (id : String) (db : Db) (r : Listing)
    → IsSoundDb db
    → db.listing id ≡ some r
    → IsSound r × At id (λ x. x ≡ r) db db
locked-At id db r h e = (
  let sound = h.rows id in rw e at sound,
  (record { row = r; there = e; others = λ k x. refl; holds = refl }, h.photographs),
)

-- The UPDATE of the row that the transaction found.
pub found-Holds :
    (id : String) (before db : Db) (r : Listing) (Q : Listing → Type 0) (selects : Listing → Bool)
    (set : Listing → Listing)
    → At id (λ x. x ≡ r) before db
    → selects r ≡ true
    → blocked db.privacy r (set r) ≡ false
    → IsSound (set r)
    → Q (set r)
    → Holds (At id Q before) (update_listing id selects set db)
found-Holds id before db r Q selects set at s free sound q =
    update_listing-Holds id before (λ x. x ≡ r) Q selects set db at
      (λ x e y.
        subst (λ z. (blocked db.privacy z (set z) ≡ false) × IsSound (set z) × Q (set z)) (sym e)
          (free, sound, q))
      (λ x e y. absurd (true_not_false (sym s ∙ (ap selects (sym e) ∙ y))))
  where
    true_not_false : true ≡ false → ⊥
    true_not_false e = cc e

pub same_listings-At :
    (id : String) (P : Listing → Type 0) (before db db' : Db)
    → At id P before db
    → db'.listing ≡ db.listing
    → All IsSound_row db'.privacy
    → At id P before db'
same_listings-At id P before db db' at e h = (subst (Found id P before.listing) (sym e) at.0, h)
