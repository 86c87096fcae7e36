-- ===== src/Listing/Life/Leaves.antt =====
-- What each listing handler leaves behind, and the claim of a seeded row inside it.
use practice_match.Prelude.{ℕ, String, ◌≡◌, some}
use practice_match.Listing.Row.{Listing}
use practice_match.Listing.Refusal.{Holds}
use practice_match.Listing.Store.{Db, claim_from_seed}
use practice_match.Listing.Handler.{Effects}
use practice_match.Listing.Invariant.Rows.{claimed-IsSound}
use practice_match.Listing.Life.{Request}
use practice_match.Listing.Life.Lawful.{Good, claimed-Good}
use practice_match.Listing.Life.Found.{At, claim_from_seed-Holds}

module _ (now : ℕ) (id account : String) (db : Db) where
  pub claimed-Holds :
      (q : Request) (r : Listing) (db' : Db)
      → At id (Good q db.privacy r) db db'
      → Holds (At id (Good q db.privacy r) db) (claim_from_seed id account db')
  claimed-Holds q r db' at =
      claim_from_seed-Holds id db (Good q db.privacy r) account db' at
        (λ x g. claimed-IsSound now x g.sound) (λ x g. claimed-Good now q db.privacy r x g)

-- What a handler leaves: a lawful step of the row that it found.
abbrev pub Leaves : String → Db → Request → Db × Effects → Type 0
Leaves id db q p = (r : Listing) × (db.listing id ≡ some r) × At id (Good q db.privacy r) db p.0
