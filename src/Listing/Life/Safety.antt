-- ===== src/Listing/Life/Safety.antt =====
-- Every request on every sound database: what it raises, and what it makes of each listing.
use practice_match.Prelude.{
  ℕ, String, ◌≡◌, refl, subst, true, ◌⊎◌, inl, inr, Option, none, some, All, Bool-cases, str_eq,
  eq_iff, false,
}
use practice_match.Privacy.Record.{Table}
use practice_match.Privacy.History.{step}
use practice_match.Privacy.History.Safety.{step-IsSound}
use practice_match.Listing.Row.{Listing}
use practice_match.Listing.Refusal.{Run, gives, refuses, escapes, Holds, weaker-Holds}
use practice_match.Listing.Fields.Sound.{IsReadable}
use practice_match.Listing.Store.{Db}
use practice_match.Listing.Handler.{World, Effects}
use practice_match.Listing.Transitions.{create}
use practice_match.Listing.Invariant.{IsSoundDb}
use practice_match.Listing.Invariant.Rows.{created-IsSound}
use practice_match.Listing.Life.{
  Request, creates, patches, submits, sets_status, reorders, decides, processes, serve, committed,
}
use practice_match.Listing.Life.Lawful.{Changes, Step, stays, opens, changes}
use practice_match.Listing.Life.Leaves.{Leaves}
use practice_match.Listing.Life.Saves.{patch_step-Holds, reorder_photos-Holds}
use practice_match.Listing.Life.Moves.{submit_listing-Holds, set_status-Holds}
use practice_match.Listing.Life.Decisions.{decide_checked-Holds}
use practice_match.Listing.Refusal.{chained-Holds}
use practice_match.Listing.Decide.{Decision, decide_listing, decide_checked, if_written, writes_nul}

-- What a request has to be: int() reads its numerals, and the id of a new listing is new.
abbrev pub IsServable : Request → Db → Type 0
IsServable (creates id account) db = db.listing id ≡ none
IsServable (patches id account step body) db = All IsReadable body
IsServable q db = Unit

-- A decision carries no text with a NUL where it is written.
abbrev pub IsStorable : World → Request → Db → Type 0
IsStorable world (decides id body) db = writes_nul world id body db ≡ false
IsStorable world q db = Unit

-- The database after the request is sound, and every listing has made a lawful step.
abbrev pub Lawful : Request → Db → Db → Type 0
Lawful q db db' = IsSoundDb db' × ((k : String) → Step q db.privacy (db.listing k) (db'.listing k))

same_key : (k id : String) → str_eq k id ≡ true → k ≡ id
same_key k id e = (eq_iff k id).0 e

module _ (world : World) (now : ℕ) (db : Db) (h : IsSoundDb db) where
  Leaves-Lawful :
      (id : String) (q : Request) (p : Db × Effects) → Leaves id db q p → Lawful q db p.0
  Leaves-Lawful id q p (r, e, (at, photographs)) = (
    record {
      rows = λ k. elim (Bool-cases (str_eq k id)) [
        | inl same ↦ rw (same_key k id same, at.there) at.holds.sound
        | inr other ↦ let sound = h.rows k in rw (at.others k other) sound
      ];
      photographs = photographs;
    },
    λ k. elim (Bool-cases (str_eq k id)) [
      | inl same ↦ rw (same_key k id same, e, at.there) (changes r at.row at.holds.changed)
      | inr other ↦ rw (at.others k other) (stays (db.listing k))
    ],
  )

  create-Lawful :
      (id account : String)
      → db.listing id ≡ none
      → Holds (λ p. Lawful (creates id account) db p.0) (create now id account db)
  unfolding create
  create-Lawful id account e = rw e (
    record {
      rows = λ k. elim (Bool-cases (str_eq k id)) [
        | inl same ↦ rw same (created-IsSound now id account)
        | inr other ↦ let sound = h.rows k in rw other sound
      ];
      photographs = h.photographs;
    },
    λ k. elim (Bool-cases (str_eq k id)) [
      | inl same ↦ rw (same, same_key k id same, e) (opens now id account)
      | inr other ↦ rw other (stays (db.listing k))
    ],
  )

  decide_listing-Holds :
      (id : String) (body : Decision)
      → writes_nul world id body db ≡ false
      → Holds (λ p. Lawful (decides id body) db p.0) (decide_listing world now id body db)
  unfolding decide_listing
  decide_listing-Holds id body w = rw w (
      chained-Holds _ (λ p. Lawful (decides id body) db p.0) (decide_checked world now id body db) _
        (weaker-Holds _ _ _ (Leaves-Lawful id (decides id body))
          (decide_checked-Holds world now id db h body))
        (λ p l. l))

  pub serve-Lawful :
      (q : Request)
      → IsServable q db
      → IsStorable world q db
      → Holds (λ p. Lawful q db p.0) (serve world now q db)
  unfolding serve
  serve-Lawful (creates id account) s w = create-Lawful id account s
  serve-Lawful (patches id account n body) s w =
      weaker-Holds _ _ _ (Leaves-Lawful id (patches id account n body))
        (patch_step-Holds world now id account db n body h s)
  serve-Lawful (submits id account) s w =
      weaker-Holds _ _ _ (Leaves-Lawful id (submits id account))
        (submit_listing-Holds world now id account db h)
  serve-Lawful (sets_status id account a) s w =
      weaker-Holds _ _ _ (Leaves-Lawful id (sets_status id account a))
        (set_status-Holds world now id account db h a)
  serve-Lawful (reorders id account ids) s w =
      weaker-Holds _ _ _ (Leaves-Lawful id (reorders id account ids))
        (reorder_photos-Holds world now id account db ids h)
  serve-Lawful (decides id body) s w = decide_listing-Holds id body w
  serve-Lawful (processes e) s w = (
    record { rows = h.rows; photographs = step-IsSound now db.privacy h.photographs e },
    λ k. stays (db.listing k),
  )

  module _ (q : Request) (s : IsServable q db) where
    -- The listing under `k` after the request.
    abbrev pub next : String → Option Listing
    next k = (committed db (serve world now q db)).listing k

    committed-Lawful :
        (m : Run (Db × Effects)) → Holds (λ p. Lawful q db p.0) m → Lawful q db (committed db m)
    committed-Lawful (gives p) l = l
    committed-Lawful (refuses r) l = (h, λ k. stays (db.listing k))
    committed-Lawful escapes l = absurd l

    -- What does not hold is that an unstorable text is written.
    decide_listing-written :
        (r : Request) → IsStorable world r db ⊎ (committed db (serve world now r db) ≡ db)
    unfolding serve decide_listing
    decide_listing-written (decides id body) = elim (Bool-cases (writes_nul world id body db)) [
      | inr e ↦ inl e
      | inl e ↦ inr (rw e (rolled_back (decide_checked world now id body db)))
    ]
      where
        rolled_back : (m : Run (Db × Effects)) → committed db (if_written true m) ≡ db
        rolled_back (gives p) = refl
        rolled_back (refuses r) = refl
        rolled_back escapes = refl
    decide_listing-written r = inl tt

    pub next-Lawful : Lawful q db (committed db (serve world now q db))
    next-Lawful = elim (decide_listing-written q) [
      | inl w ↦ committed-Lawful (serve world now q db) (serve-Lawful q s w)
      | inr e ↦ rw e (h, λ k. stays (db.listing k))
    ]

-- A step from a row that is there.
pub Step-cases :
    (q : Request) (privacy : Table) (o o' : Option Listing) (r : Listing)
    → Step q privacy o o'
    → o ≡ some r
    → (o' ≡ some r) ⊎ ((r' : Listing) × (o' ≡ some r') × Changes q privacy r r')
Step-cases q privacy o o' r (stays x) e = inl e
Step-cases q privacy o o' r (opens now id account) e = absurd (cc e)
Step-cases q privacy o o' r (changes x x' c) e =
    let same : x ≡ r = cc e in inr (x', refl, subst (λ y. Changes q privacy y x') same c)
