-- ===== src/Disclosure/Requests/Laws.antt =====
-- What a decision and a revocation of app/disclosure/requests.py do to the capabilities that
-- app/disclosure/access.py answers.
use practice_match.Prelude.{
  ℕ, String, ◌≡◌, ◌≢◌, Bool, true, false, ◌&&◌, inl, inr, ◌⊎◌, Option, none, some, [], All, All-map,
  keep, arith, str_eq, eq_iff, eq_refl,
}
use practice_match.Sql.{fetch_one, update, updated}
use practice_match.Sql.Unique.{Distinct, Keyed, keep-updated_nil, fetch_one-updated}
use practice_match.Disclosure.Levels.{covers, requestable}
use practice_match.Disclosure.Request.{Request, pending, approved, status_eq, is_active, clashes}
use practice_match.Disclosure.Access.{authorized_capabilities, is_grant, is_own}
use practice_match.Disclosure.Requests.{
  Table, done, approve, deny, other, decide, revoke, approve_row, deny_row, revoke_row, write,
  has_id, chosen_level,
}
use practice_match.Disclosure.Requests.Keys.{owned, found-Keyed}

-- The rows that `authorized_capabilities` reads.
abbrev pub sees : ℕ → String → String → Request → Bool
sees now listing buyer r = str_eq r.listing_id listing && is_grant now buyer r

write-done :
    (id : String) (set : Request → Request) (t t' : Table)
    → write id set t ≡ done t'
    → t' ≡ updated (has_id id) set t
unfolding update
write-done id set t t' e = ground arith

module _ (now : ℕ) (id seller : String) (r : Request) (t t' : Table)
    (found : fetch_one (keep (owned id seller) t) ≡ some r) where
  pub revoke-done :
      revoke now id seller t ≡ done t'
      → (status_eq r.status approved ≡ true) × (t' ≡ updated (has_id id) (revoke_row now) t)
  unfolding revoke update
  revoke-done e = ground (arith, found)

  pub deny-done :
      (level reason : Option String)
      → decide now id seller deny level reason t ≡ done t'
      → (status_eq r.status pending ≡ true)
        × (t' ≡ updated (has_id id) (deny_row now seller reason) t)
  unfolding decide update
  deny-done level reason e = ground (arith, found)

  pub approve-done :
      (level reason : Option String)
      → decide now id seller approve level reason t ≡ done t'
      → (status_eq r.status pending ≡ true)
        × (requestable (chosen_level level r.requested_disclosure_level) ≡ true)
        × (t'
            ≡ updated
                (has_id id)
                (approve_row now seller (chosen_level level r.requested_disclosure_level))
                t)
  unfolding decide update
  approve-done level reason e = ground (arith, found)

  pub other_action-ne-done :
      (action : String) (level reason : Option String)
      → decide now id seller (other action) level reason t ≢ done t'
  unfolding decide
  other_action-ne-done action level reason e = ground (arith, found)

-- A row that clashes with no active row of a pair is no grant of that pair.
pub other_pair :
    (later : ℕ) (r s : Request)
    → is_active r ≡ true
    → clashes r s ≡ false
    → sees later r.listing_id r.buyer_user_id s ≡ false
unfolding clashes
other_pair later r s a c = ground (
  arith,
  eq_iff r.listing_id s.listing_id,
  eq_iff s.listing_id r.listing_id,
  eq_iff r.buyer_user_id s.buyer_user_id,
  eq_iff s.buyer_user_id r.buyer_user_id,
)

module _ (now later : ℕ) (id seller : String) (r : Request) (t t' : Table)
    (distinct : Distinct clashes t) (found : fetch_one (keep (owned id seller) t) ≡ some r) where
  dark :
      is_active r ≡ true
      → All
          (λ s.
            ((s ≡ r) × (has_id id s ≡ true))
            ⊎ ((has_id id s ≡ false) × (sees later r.listing_id r.buyer_user_id s ≡ false)))
          t
  dark a =
      All-map (Keyed clashes (has_id id) r) _ t
        (λ s k. elim k [
          | inl same ↦ inl same
          | inr (key, apart) ↦ inr (key, other_pair later r s a apart)
        ])
        (found-Keyed id seller r t distinct found)

  -- In a table in which no two requests clash, once the seller has revoked a request of theirs, its
  -- buyer is authorized to no capability of its listing, whenever that is asked.
  pub revoke-no_capabilities :
      (listing_seller : Option String)
      → revoke now id seller t ≡ done t'
      → authorized_capabilities later r.listing_id listing_seller (some r.buyer_user_id) t' ≡ []
  unfolding authorized_capabilities revoke_row
  revoke-no_capabilities listing_seller e =
      let (state, same) = revoke-done now id seller r t t' found e in
      let blind =
        keep-updated_nil (has_id id) (sees later r.listing_id r.buyer_user_id) (revoke_row now) r t
          (ground arith) (dark (ground arith)) in
      ground (arith, blind)

  -- In a table in which no two requests clash, once the seller has denied a request of theirs, its
  -- buyer is authorized to no capability of its listing, whenever that is asked.
  pub deny-no_capabilities :
      (level reason listing_seller : Option String)
      → decide now id seller deny level reason t ≡ done t'
      → authorized_capabilities later r.listing_id listing_seller (some r.buyer_user_id) t' ≡ []
  unfolding authorized_capabilities deny_row
  deny-no_capabilities level reason listing_seller e =
      let (state, same) = deny-done now id seller r t t' found level reason e in
      let blind =
        keep-updated_nil (has_id id) (sees later r.listing_id r.buyer_user_id)
          (deny_row now seller reason) r t (ground arith) (dark (ground arith)) in
      ground (arith, blind)

  -- In a table in which no two requests clash, once the seller has approved a request of theirs that
  -- does not expire, its buyer, who is not the listing's seller, holds exactly what the chosen level covers: the level given, or the level
  -- requested when none or the empty text is given.
  pub approve-capabilities :
      (level reason listing_seller : Option String)
      → decide now id seller approve level reason t ≡ done t'
      → r.expires_at ≡ none
      → is_own listing_seller r.buyer_user_id ≡ false
      → authorized_capabilities later r.listing_id listing_seller (some r.buyer_user_id) t'
        ≡ covers (some (chosen_level level r.requested_disclosure_level))
  unfolding authorized_capabilities approve_row
  approve-capabilities level reason listing_seller e forever foreign =
      let (state, allowed, same) = approve-done now id seller r t t' found level reason e in
      let set = approve_row now seller (chosen_level level r.requested_disclosure_level) in
      let seen =
        fetch_one-updated (has_id id) (sees later r.listing_id r.buyer_user_id) set r
          (owned id seller) t (λ s k. ground arith)
          (ground (arith, eq_refl r.listing_id, eq_refl r.buyer_user_id)) found
          (dark (ground arith)) in
      ground (arith, seen)
