-- ===== src/Listing/Life/Lawful.antt =====
-- The step relation of a listing's life: what one request may make of a row.
use practice_match.Prelude.{ℕ, String, ◌≡◌, ◌⊎◌, Bool, true, false, Option, none, some, [], arith}
use practice_match.Privacy.Record.{Table}
use practice_match.Listing.Row.{Listing, draft, published, withdrawn, status_eq, among, seller}
use practice_match.Listing.Store.{not_ready, owned_by}
use practice_match.Listing.Handler.{reenters_review}
use practice_match.Listing.Transitions.{created}
use practice_match.Listing.Decide.{publish}
use practice_match.Listing.Invariant.{IsSound}
use practice_match.Listing.Invariant.Rows.{claimed-IsSound}
use practice_match.Listing.Life.{Request, patches, submits, sets_status, reorders, decides}

-- What the seller says of the practice: all but the row's place in the process and what the
-- reviewer's first publish writes.
abbrev pub content : Listing → Listing
content r = record r {
  status = draft;
  source = seller;
  submitted_at = none;
  listed_at = 0;
  updated_at = 0;
  state = none;
  market = none;
  slug = "";
}

-- On the market, or one click from it.
abbrev pub is_reviewed : Listing → Bool
is_reviewed r = among reenters_review r.status

abbrev pub publishes : Request → Bool
publishes (decides id body) = elim body.action [ some publish ↦ true | _ ↦ false ]
publishes q = false

-- The request is of the row's seller, or a reviewer's decision.
abbrev pub may_write : Request → Listing → Bool
may_write (patches id account step body) r = owned_by account r
may_write (submits id account) r = owned_by account r
may_write (sets_status id account action) r = owned_by account r
may_write (reorders id account ids) r = owned_by account r
may_write (decides id body) r = true
may_write _ r = false

pub record Changes (q : Request) (privacy : Table) (r r' : Listing) : Type 0 where
  -- the way to the market is through the gate on photographs
  pub gated :
      status_eq r'.status published ≡ true
      → (status_eq r.status published ≡ true) ⊎ (not_ready privacy r ≡ [])
  -- what is on the market is what was reviewed
  pub unaltered : is_reviewed r' ≡ true → content r' ≡ content r
  -- and only a reviewer puts it there
  pub reviewed : is_reviewed r' ≡ true → (is_reviewed r ≡ true) ⊎ (publishes q ≡ true)
  pub living : status_eq r.status withdrawn ≡ false
  pub allowed : may_write q r ≡ true

-- From the row under a key, if there is one, to the row under it.
pub data Step (q : Request) (privacy : Table) : Option Listing → Option Listing → Type 0 where
  stays : (o : Option Listing) → Step q privacy o o
  opens : (now : ℕ) (id account : String) → Step q privacy none (some (created now id account))
  changes : (r r' : Listing) → Changes q privacy r r' → Step q privacy (some r) (some r')

-- A change that leaves the listing off the market.
pub quiet-Changes :
    (q : Request) (privacy : Table) (r r' : Listing)
    → is_reviewed r' ≡ false
    → status_eq r.status withdrawn ≡ false
    → may_write q r ≡ true
    → Changes q privacy r r'
quiet-Changes q privacy r r' quiet living allowed = record {
  gated = λ e. absurd (ground (arith, e, quiet));
  unaltered = λ e. absurd (ground (arith, e, quiet));
  reviewed = λ e. absurd (ground (arith, e, quiet));
  living = living;
  allowed = allowed;
}

-- What a handler keeps of the row that it locked.
pub record Good (q : Request) (privacy : Table) (r r' : Listing) : Type 0 where
  pub sound : IsSound r'
  pub changed : Changes q privacy r r'

pub claimed-Good :
    (now : ℕ) (q : Request) (privacy : Table) (r r' : Listing)
    → Good q privacy r r'
    → Good q privacy r (record r' { source = seller })
claimed-Good now q privacy r r' g = record {
  sound = claimed-IsSound now r' g.sound;
  changed = record {
    gated = g.changed.gated;
    unaltered = g.changed.unaltered;
    reviewed = g.changed.reviewed;
    living = g.changed.living;
    allowed = g.changed.allowed;
  };
}
