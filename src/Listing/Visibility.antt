-- ===== src/Listing/Visibility.antt =====
-- app/api/seller_listings.py: apply_visibility_change, what moving the listing's privacy switch
-- does to its photographs. The bucket is a parameter.
use practice_match.Prelude.{
  ℕ, String, Bool, true, false, ◌&&◌, Option, none, some, List, [], ◌∷◌, keep, str_eq,
  if◌then◌else◌,
}
use practice_match.Privacy.State.{Visibility, show, not_show, ready_states, one_of}
use practice_match.Privacy.Row.{PrivacyRow}
use practice_match.Privacy.Record.{Table, set_visibility, reset_for_reprocess, reset_confirmation}
use practice_match.Listing.Refusal.{Run, gives, refuses, ◌>>=◌, pure, execute, storage_unavailable}

-- `store.exists(key)`: the object is there, is not there, or the bucket does not answer.
pub data Head : Type 0 where
  there missing unavailable : Head

pub record Bucket : Type 0 where
  pub configured : Bool
  pub head : String → Head

abbrev pub in_listing : String → PrivacyRow → Bool
in_listing listing_id r = str_eq r.listing_id listing_id

-- `rows_for`; its order is the table's.
abbrev pub rows_for : String → Table → Table
rows_for listing_id table = keep (in_listing listing_id) table

-- `_exists`
unfoldable pub exists : Bucket → String → Run Bool
exists bucket key = elim (bucket.head key) [
  | there ↦ gives true
  | missing ↦ gives false
  | unavailable ↦ refuses storage_unavailable
]

abbrev pub has_object : Bucket → Option String → Run Bool
has_object bucket none = gives false
has_object bucket (some key) = exists bucket key

-- `seller_confirmed and final_privacy_state == "NOT_SHOW"`
abbrev pub confirmed_hidden : PrivacyRow → Bool
confirmed_hidden r =
    r.seller_confirmed && elim r.final_privacy_state [ some not_show ↦ true | _ ↦ false ]

module _ (now : ℕ) where
  -- The arm for SHOW, over the rows read before the first write.
  unfoldable pub show_rows : Table → Table → Run Table
  show_rows [] table = gives table
  show_rows (asset ∷ rest) table = do
    wrote ←
        execute
          (set_visibility now asset.asset_id (one_of ready_states asset.processing_status) table)
    show_rows rest (wrote.0)

  abbrev pub requeued : String → Table → Run (Table × Bool)
  requeued asset_id table = do
    wrote ← execute (reset_for_reprocess now asset_id table)
    pure (wrote.0, true)

  abbrev pub hide_present : PrivacyRow → Table → Bool → Run (Table × Bool)
  hide_present asset table false = requeued asset.asset_id table
  hide_present asset table true =
      if confirmed_hidden asset
      then execute (set_visibility now asset.asset_id true table)
        >>= (λ wrote. pure (wrote.0, false))
      else execute (reset_confirmation now asset.asset_id none table) >>= λ wrote.
          if wrote.1 then pure (wrote.0, false) else requeued asset.asset_id (wrote.0)

  -- One turn of the loop for NOT_SHOW: the table, and whether the row is processed again.
  unfoldable pub hide_row : Bucket → PrivacyRow → Table → Run (Table × Bool)
  unfolding exists
  hide_row bucket asset table =
      has_object bucket asset.redacted_storage_key >>= λ present. hide_present asset table present

  unfoldable pub hide_rows : Bucket → Table → Table → Run (Table × List String)
  unfolding hide_row
  hide_rows bucket [] table = gives (table, [])
  hide_rows bucket (asset ∷ rest) table = do
    wrote ← hide_row bucket asset table
    more ← hide_rows bucket rest (wrote.0)
    pure (more.0, if wrote.1 then asset.asset_id ∷ more.1 else more.1)

  abbrev pub hidden : Bucket → Table → Table → Run (Table × List String)
  hidden bucket [] table = gives (table, [])
  hidden bucket (asset ∷ rest) table =
      if bucket.configured
      then hide_rows bucket (asset ∷ rest) table
      else refuses storage_unavailable

  -- `apply_visibility_change`, less its audit row: the table and the photographs to process again.
  unfoldable pub apply_visibility_change :
      Bucket → String → Visibility → Table → Run (Table × List String)
  unfolding show_rows hide_rows
  apply_visibility_change bucket listing_id show table =
      show_rows (rows_for listing_id table) table >>= λ wrote. pure (wrote, [])
  apply_visibility_change bucket listing_id not_show table =
      hidden bucket (rows_for listing_id table) table
