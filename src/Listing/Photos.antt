-- ===== src/Listing/Photos.antt =====
-- app/api/seller_listings.py: reorder_photos, in its one transaction.
pub mod Order
use Prim.Native.String
use practice_match.Prelude.{
  ℕ, String, Bool, false, not, Option, none, some, List, [], ◌∷◌, str_eq, if◌then◌else◌,
}
use practice_match.Listing.Row.{Listing, withdrawn, status_eq}
use practice_match.Listing.Refusal.{
  Run, gives, refuses, escapes, ◌>>=◌, pure, bad_request, wrong_state,
}
use practice_match.Listing.Store.{
  Db, is_nil, update_listing, locked_row, claim_from_seed, owned_by, entries,
}
use practice_match.Listing.Handler.{Effects, refuse_if, no_effects, take_off_market}

-- `sorted(ids) == sorted(filled)`: the same texts, each as often.
abbrev pub take_out : String → List String → Option (List String)
take_out e [] = none
take_out e (x ∷ xs) =
    let rest = take_out e xs in
    if str_eq e x then some xs else elim rest [ none ↦ none | some ys ↦ some (x ∷ ys) ]

abbrev pub same_entries : List String → List String → Bool
same_entries [] ys = is_nil ys
same_entries (x ∷ xs) ys = elim (take_out x ys) [ none ↦ false | some rest ↦ same_entries xs rest ]

-- The ids in the filled slots, in order; `next` of an exhausted iterator raises.
unfoldable pub spliced : List (Option String) → List String → Run (List (Option String))
spliced [] ids = gives []
spliced (none ∷ slots) ids = spliced slots ids >>= λ rest. gives (none ∷ rest)
spliced (some e ∷ slots) [] = escapes
spliced (some e ∷ slots) (i ∷ ids) = spliced slots ids >>= λ rest. gives (some i ∷ rest)

abbrev pub with_photos : ℕ → List (Option String) → Listing → Listing
with_photos now slots r = record r { photos = slots; updated_at = now }

unfoldable pub reorder_photos : ℕ → String → String → Option (List String) → Db → Run (Db × Effects)
unfolding spliced take_off_market entries
reorder_photos now id account none db = refuses bad_request
reorder_photos now id account (some ids) db = do
  row ← locked_row id account db
  refused ← refuse_if (status_eq row.status withdrawn) wrong_state
  refused ← refuse_if (not (same_entries ids (entries row.photos))) bad_request
  slots ← spliced row.photos ids
  wrote ← update_listing id (owned_by account) (with_photos now slots) db
  claimed ← claim_from_seed id account wrote
  off ← take_off_market now id account row claimed
  pure (off.0, record no_effects { drops_list_cache = off.1 })
