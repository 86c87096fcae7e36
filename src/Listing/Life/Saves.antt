-- ===== src/Listing/Life/Saves.antt =====
-- patch_step and reorder_photos, the handlers that change what a listing says: they raise nothing,
-- and leave a lawful step behind.
use practice_match.Prelude.{
  ℕ, String, ◌≡◌, refl, sym, ◌∙◌, ap, Bool, true, false, not, ◌&&◌, Option, none, some, List, All,
  any, arith,
}
use practice_match.Privacy.State.{Visibility}
use practice_match.Privacy.Record.{Table}
use practice_match.Privacy.Invariant.{IsSound as IsSound_row}
use practice_match.Listing.Row.{
  Listing, withdrawn, status_eq, among, listing_type_check, listing_bldg_check,
}
use practice_match.Listing.Refusal.{
  Holds, chained-Holds, if-Holds, not_submittable, wrong_state, bad_request,
}
use practice_match.Listing.Fields.{Json, Field, columns_for, Assign}
use practice_match.Listing.Fields.Sound.{IsTyped, IsReadable, FineColumns, columns_for-Holds}
use practice_match.Listing.Store.{
  Db, Entry, is, update_listing, claim_from_seed, owned_by, locked_row, entries, blocked,
}
use practice_match.Listing.Visibility.{apply_visibility_change}
use practice_match.Listing.Handler.{World, refuse_if, reenters_review, sent_back, take_off_market}
use practice_match.Listing.Patch.{
  patch_step, patched, clears, exempt, logged_if, switched, new_visibility,
}
use practice_match.Listing.Photos.{reorder_photos, spliced, same_entries, with_photos}
use practice_match.Listing.Photos.Order.{same_entries-occurrences, spliced-Holds}
use practice_match.Listing.Invariant.{IsSound, IsSoundDb}
use practice_match.Listing.Invariant.Rows.{with_photos-IsSound, sent_back-IsSound, claimed-IsSound}
use practice_match.Listing.Invariant.Patched.{patched-IsSound, patched-status}
use practice_match.Listing.Life.{Request, patches, reorders}
use practice_match.Listing.Life.Switch.{apply_visibility_change-Holds}
use practice_match.Listing.Life.Lawful.{may_write, Good, quiet-Changes}
use practice_match.Listing.Life.Leaves.{Leaves, claimed-Holds}
use practice_match.Listing.Life.Found.{
  At, found-Holds, same_listings-At, blocked-off, blocked-same, locked-At, refuse_if-Holds,
  locked_row-Holds, update_listing-Holds, claim_from_seed-Holds,
}

IsSound-IsTyped : (r : Listing) → IsSound r → IsTyped r
unfolding listing_type_check listing_bldg_check
IsSound-IsTyped r h = (h.typed, h.housed)

-- The row after some statements of the transaction, before it is sent back to review.
abbrev Waiting : Listing → Listing → Type 0
Waiting r r' = IsSound r' × (r'.status ≡ r.status)

module _ (world : World) (now : ℕ) (id account : String) (db : Db) where
  patched-Good :
      (step : ℕ) (body : List (Field × Json)) (r : Listing) (out : List Assign)
      → IsSound r
      → owned_by account r ≡ true
      → status_eq r.status withdrawn ≡ false
      → FineColumns step out
      → (any clears out && not (among exempt r.status)) ≡ false
      → Good (patches id account step body) db.privacy r (patched now out r)
  patched-Good step body r out h mine living fine e = record {
    sound = patched-IsSound now step r h out fine e;
    changed = quiet-Changes _ _ r _ (patched-status now step r h out fine e) living mine;
  }

  switched-Holds :
      (r : Listing) (to : Option Visibility) (db' : Db)
      → All IsSound_row db'.privacy
      → Holds
          (λ p. (p.0.listing ≡ db'.listing) × All IsSound_row p.0.privacy)
          (switched world now r to db')
  switched-Holds r none db' h = (refl, h)
  switched-Holds r (some to) db' h =
      chained-Holds _ (λ p. (p.0.listing ≡ db'.listing) × All IsSound_row p.0.privacy)
        (apply_visibility_change now world.bucket r.id to db'.privacy) _
        (apply_visibility_change-Holds now world.bucket r.id to db'.privacy h)
        (λ wrote sound. (refl, sound))

  logged-At :
      (P : Listing → Type 0) (b : Bool) (e : Entry) (db' : Db)
      → At id P db db'
      → At id P db (logged_if b e db')
  logged-At P true e db' at = at
  logged-At P false e db' at = at

  pub patch_step-Holds :
      (step : ℕ) (body : List (Field × Json))
      → IsSoundDb db
      → All IsReadable body
      → Holds
          (Leaves id db (patches id account step body))
          (patch_step world now id account step body db)
  unfolding patch_step
  patch_step-Holds step body h readable =
      let q = patches id account step body in
      let P = Leaves id db q in
      chained-Holds _ P (locked_row id account db) _ (locked_row-Holds id account db) (λ r found.
        let (sound, at) = locked-At id db r h found.0 in
        chained-Holds _ P (refuse_if (status_eq r.status withdrawn) wrong_state) _
          (refuse_if-Holds (status_eq r.status withdrawn) wrong_state)
          (λ x living.
            chained-Holds _ P (columns_for world.unicode step body r) _
              (columns_for-Holds world.unicode step r body (IsSound-IsTyped r sound) readable)
              (λ out fine.
                chained-Holds _ P
                  (refuse_if (any clears out && not (among exempt r.status)) not_submittable) _
                  (refuse_if-Holds (any clears out && not (among exempt r.status)) not_submittable)
                  (λ x cleared.
                    let good = patched-Good step body r out sound found.1 living fine cleared in
                    chained-Holds _ P (update_listing id (owned_by account) (patched now out) db) _
                      (found-Holds id db db r (Good q db.privacy r) (owned_by account)
                        (patched now out) at found.1
                        (blocked-off db.privacy r _
                          (patched-status now step r sound out fine cleared))
                        good.sound good)
                      (λ wrote at'.
                        chained-Holds _ P (switched world now r (new_visibility r out) _) _
                          (switched-Holds r (new_visibility r out) _ at'.1)
                          (λ privacy kept.
                            chained-Holds _ P (claim_from_seed id account (privacy.0)) _
                              (claimed-Holds now id account db q r (privacy.0) (
                                same_listings-At id (Good q db.privacy r) db wrote (privacy.0) at'
                                  kept.0 kept.1))
                              (λ claimed at''. (
                                r,
                                found.0,
                                logged-At (Good q db.privacy r) _ _ claimed at'',
                              ))))))))

  with_photos-blocked :
      (privacy : Table) (r : Listing) (slots : List (Option String))
      → blocked privacy r (with_photos now slots r) ≡ false
  with_photos-blocked privacy r slots = blocked-same privacy r (with_photos now slots r) refl

  -- `take_off_market`, of the row as it was found.
  taken_off-Holds :
      (q : Request) (r : Listing) (db' : Db)
      → IsSound r
      → status_eq r.status withdrawn ≡ false
      → may_write q r ≡ true
      → owned_by account r ≡ true
      → At id (λ x. IsSound x × (x.status ≡ r.status) × (x.seller_id ≡ r.seller_id)) db db'
      → Holds (λ p. At id (Good q db.privacy r) db p.0) (take_off_market now id account r db')
  unfolding take_off_market
  taken_off-Holds q r db' h living allowed mine (at, photographs) =
      if-Holds _ (not (among reenters_review r.status)) _ _
        (λ e. (
          record {
            row = at.row;
            there = at.there;
            others = at.others;
            holds = record {
              sound = at.holds.0;
              changed =
                  quiet-Changes q db.privacy r at.row
                    (let s = at.holds.1 in rw s (ground (arith, e))) living allowed;
            };
          },
          photographs,
        ))
        (λ e.
          chained-Holds _ (λ p. At id (Good q db.privacy r) db p.0)
            (update_listing id (owned_by account) (sent_back now) db') _
            (update_listing-Holds id db _ (Good q db.privacy r) (owned_by account) (sent_back now)
              db' (at, photographs)
              (λ x p s. (
                blocked-off db'.privacy x (sent_back now x) refl,
                sent_back-IsSound now x p.0 (let s = p.1 in rw s (ground (arith, e))),
                record {
                  sound = sent_back-IsSound now x p.0 (let s = p.1 in rw s (ground (arith, e)));
                  changed = quiet-Changes q db.privacy r _ refl living allowed;
                },
              ))
              (λ x p s. absurd (clash (sym mine ∙ (ap (λ o. is o account) (sym p.2) ∙ s)))))
            (λ wrote at'. at'))
    where
      clash : true ≡ false → ⊥
      clash e = cc e

  pub reorder_photos-Holds :
      (ids : Option (List String))
      → IsSoundDb db
      → Holds (Leaves id db (reorders id account ids)) (reorder_photos now id account ids db)
  unfolding reorder_photos
  reorder_photos-Holds none h = tt
  reorder_photos-Holds (some ids) h =
      let q = reorders id account (some ids) in
      let P = Leaves id db q in
      chained-Holds _ P (locked_row id account db) _ (locked_row-Holds id account db) (λ r found.
        let (sound, at) = locked-At id db r h found.0 in
        let Mid : Listing → Type 0 =
          λ x. IsSound x × (x.status ≡ r.status) × (x.seller_id ≡ r.seller_id) in
        chained-Holds _ P (refuse_if (status_eq r.status withdrawn) wrong_state) _
          (refuse_if-Holds (status_eq r.status withdrawn) wrong_state)
          (λ x living.
            chained-Holds _ P (refuse_if (not (same_entries ids (entries r.photos))) bad_request) _
              (refuse_if-Holds (not (same_entries ids (entries r.photos))) bad_request)
              (λ x listed.
                chained-Holds _ P (spliced r.photos ids) _
                  (spliced-Holds r.photos ids
                    (same_entries-occurrences ids (entries r.photos) (ground (arith, listed))).1)
                  (λ slots ordered.
                    chained-Holds _ P
                      (update_listing id (owned_by account) (with_photos now slots) db) _
                      (found-Holds id db db r Mid (owned_by account) (with_photos now slots) at
                        found.1 (with_photos-blocked db.privacy r slots)
                        (with_photos-IsSound now r sound slots)
                        (with_photos-IsSound now r sound slots, refl, refl))
                      (λ wrote at'.
                        chained-Holds _ P (claim_from_seed id account wrote) _
                          (claim_from_seed-Holds id db Mid account wrote at'
                            (λ y m. claimed-IsSound now y m.0)
                            (λ y m. (claimed-IsSound now y m.0, m.1, m.2)))
                          (λ claimed at''.
                            chained-Holds _ P (take_off_market now id account r claimed) _
                              (taken_off-Holds q r claimed sound living found.1 found.1 at'')
                              (λ off at'''. (r, found.0, at'''))))))))
