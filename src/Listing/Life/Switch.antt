-- ===== src/Listing/Life/Switch.antt =====
-- apply_visibility_change raises nothing and keeps the photographs' rows sound.
use practice_match.Prelude.{ℕ, String, Bool, true, false, Option, none, some, [], ◌∷◌, All}
use practice_match.Privacy.State.{Visibility, show, not_show}
use practice_match.Privacy.Row.{PrivacyRow}
use practice_match.Privacy.Record.{Table, set_visibility, reset_for_reprocess, reset_confirmation}
use practice_match.Privacy.Invariant.{IsSound as IsSound_row}
use practice_match.Listing.Refusal.{
  Run, gives, refuses, execute, Holds, chained-Holds, if-Holds, storage_unavailable,
}
use practice_match.Listing.Visibility.{
  Bucket, Head, exists, hide_row, hide_rows, show_rows, apply_visibility_change, rows_for, there,
  missing, unavailable, confirmed_hidden, has_object, requeued, hide_present, hidden,
}
use practice_match.Listing.Life.Found.{
  set_visibility-Holds, reset_for_reprocess-Holds, reset_confirmation-Holds,
}

module _ (now : ℕ) where
  show_rows-Holds :
      (rows t : Table) → All IsSound_row t → Holds (All IsSound_row) (show_rows now rows t)
  unfolding show_rows
  show_rows-Holds [] t h = h
  show_rows-Holds (asset ∷ rest) t h =
      chained-Holds _ (All IsSound_row) (execute (set_visibility now asset.asset_id _ t)) _
        (set_visibility-Holds now t h asset.asset_id _)
        (λ wrote sound. show_rows-Holds rest (wrote.0) sound)

  module _ (asset : PrivacyRow) where
    requeued-Holds :
        (t : Table)
        → All IsSound_row t
        → Holds (λ p. All IsSound_row (p.0)) (requeued now asset.asset_id t)
    requeued-Holds t h =
        chained-Holds _ (λ p. All IsSound_row (p.0))
          (execute (reset_for_reprocess now asset.asset_id t)) _
          (reset_for_reprocess-Holds now t h asset.asset_id) (λ wrote sound. sound)

    hide_present-Holds :
        (present : Bool) (t : Table)
        → All IsSound_row t
        → Holds (λ p. All IsSound_row (p.0)) (hide_present now asset t present)
    hide_present-Holds false t h = requeued-Holds t h
    hide_present-Holds true t h =
        if-Holds _ (confirmed_hidden asset) _ _
          (λ e.
            chained-Holds _ (λ p. All IsSound_row (p.0))
              (execute (set_visibility now asset.asset_id true t)) _
              (set_visibility-Holds now t h asset.asset_id true) (λ wrote sound. sound))
          (λ e.
            chained-Holds _ (λ p. All IsSound_row (p.0))
              (execute (reset_confirmation now asset.asset_id none t)) _
              (reset_confirmation-Holds now t h asset.asset_id none)
              (λ wrote sound.
                if-Holds _ (wrote.1) _ _ (λ e. sound) (λ e. requeued-Holds (wrote.0) sound)))

  has_object-Holds :
      (bucket : Bucket) (key : Option String) → Holds (λ b. Unit {0}) (has_object bucket key)
  unfolding exists
  has_object-Holds bucket none = tt
  has_object-Holds bucket (some key) = answered (bucket.head key)
    where
      answered :
          (h : Head)
          → Holds
              (λ b. Unit {0})
              (elim h as (λ x. Run Bool) [
                | there ↦ gives true
                | missing ↦ gives false
                | unavailable ↦ refuses storage_unavailable
              ])
      answered there = tt
      answered missing = tt
      answered unavailable = tt

  hide_rows-Holds :
      (bucket : Bucket) (rows t : Table)
      → All IsSound_row t
      → Holds (λ p. All IsSound_row (p.0)) (hide_rows now bucket rows t)
  unfolding hide_rows hide_row
  hide_rows-Holds bucket [] t h = h
  hide_rows-Holds bucket (asset ∷ rest) t h =
      chained-Holds (λ p. All IsSound_row (p.0)) (λ p. All IsSound_row (p.0))
        (hide_row now bucket asset t) _
        (chained-Holds _ (λ p. All IsSound_row (p.0)) (has_object bucket asset.redacted_storage_key)
          _ (has_object-Holds bucket asset.redacted_storage_key)
          (λ present x. hide_present-Holds asset present t h))
        (λ wrote sound.
          chained-Holds _ (λ p. All IsSound_row (p.0)) (hide_rows now bucket rest (wrote.0)) _
            (hide_rows-Holds bucket rest (wrote.0) sound) (λ more sound. sound))

  pub apply_visibility_change-Holds :
      (bucket : Bucket) (id : String) (to : Visibility) (t : Table)
      → All IsSound_row t
      → Holds (λ p. All IsSound_row (p.0)) (apply_visibility_change now bucket id to t)
  unfolding apply_visibility_change
  apply_visibility_change-Holds bucket id show t h =
      chained-Holds _ (λ p. All IsSound_row (p.0)) (show_rows now (rows_for id t) t) _
        (show_rows-Holds (rows_for id t) t h) (λ wrote sound. sound)
  apply_visibility_change-Holds bucket id not_show t h = hide_all (rows_for id t)
    where
      hide_all : (rows : Table) → Holds (λ p. All IsSound_row (p.0)) (hidden now bucket rows t)
      hide_all [] = h
      hide_all (asset ∷ rest) =
          if-Holds _ bucket.configured _ _ (λ e. hide_rows-Holds bucket (asset ∷ rest) t h)
            (λ e. tt)
