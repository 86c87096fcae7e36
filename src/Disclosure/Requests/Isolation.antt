-- ===== src/Disclosure/Requests/Isolation.antt =====
-- A seller's decision on one request changes no other buyer's capabilities, and none of the same
-- buyer's for another listing.
use practice_match.Prelude.{
  ℕ, String, ◌≡◌, refl, false, ◌&&◌, inl, inr, Option, some, All-map, keep, arith, str_eq,
}
use practice_match.Sql.{fetch_one, updated}
use practice_match.Sql.Unique.{Distinct, Keyed, keep-updated_same}
use practice_match.Disclosure.Request.{Request, clashes}
use practice_match.Disclosure.Access.{authorized_capabilities}
use practice_match.Disclosure.Requests.{
  Table, Reply, done, Action, approve, deny, other, decide, revoke, approve_row, deny_row,
  revoke_row, has_id,
}
use practice_match.Disclosure.Requests.Keys.{owned, found-Keyed}
use practice_match.Disclosure.Requests.Laws.{
  revoke-done, deny-done, approve-done, other_action-ne-done, sees,
}

-- What a seller may ask of a request.
pub data Decision : Type 0 where
  decides : Action → Option String → Option String → Decision
  revokes : Decision

unfoldable pub perform : ℕ → String → String → Decision → Table → Reply Table
perform now id seller (decides action level reason) t = decide now id seller action level reason t
perform now id seller revokes t = revoke now id seller t

module _ (now later : ℕ) (id seller : String) (r : Request) (t t' : Table)
    (distinct : Distinct clashes t) (found : fetch_one (keep (owned id seller) t) ≡ some r)
    (listing buyer : String)
    (elsewhere : (str_eq r.listing_id listing && str_eq r.buyer_user_id buyer) ≡ false) where
  unseen :
      (set : Request → Request)
      → (set r).listing_id ≡ r.listing_id
      → (set r).buyer_user_id ≡ r.buyer_user_id
      → keep (sees later listing buyer) (updated (has_id id) set t)
        ≡ keep (sees later listing buyer) t
  unseen set same_listing same_buyer =
      keep-updated_same (has_id id) (sees later listing buyer) set r t (ground arith) (ground arith)
        (All-map (Keyed clashes (has_id id) r) _ t
          (λ s k. elim k [ inl same ↦ inl same | inr (key, apart) ↦ inr key ])
          (found-Keyed id seller r t distinct found))

  same_answer :
      (listing_seller : Option String)
      → keep (sees later listing buyer) t' ≡ keep (sees later listing buyer) t
      → authorized_capabilities later listing listing_seller (some buyer) t'
        ≡ authorized_capabilities later listing listing_seller (some buyer) t
  unfolding authorized_capabilities
  same_answer listing_seller e = rw e refl

  -- In a table in which no two requests clash, an approval, a denial or a revocation by the seller of
  -- a request of theirs leaves what every other pair of a listing and a buyer is authorized to as it
  -- was, whenever that is asked.
  pub perform-isolated :
      (d : Decision) (listing_seller : Option String)
      → perform now id seller d t ≡ done t'
      → authorized_capabilities later listing listing_seller (some buyer) t'
        ≡ authorized_capabilities later listing listing_seller (some buyer) t
  unfolding perform approve_row deny_row revoke_row
  perform-isolated (decides approve level reason) listing_seller e =
      let (state, allowed, same) = approve-done now id seller r t t' found level reason e in
      same_answer listing_seller (rw same (unseen _ refl refl))
  perform-isolated (decides deny level reason) listing_seller e =
      let (state, same) = deny-done now id seller r t t' found level reason e in
      same_answer listing_seller (rw same (unseen _ refl refl))
  perform-isolated (decides (other action) level reason) listing_seller e =
      absurd (other_action-ne-done now id seller r t t' found action level reason e)
  perform-isolated revokes listing_seller e =
      let (state, same) = revoke-done now id seller r t t' found e in
      same_answer listing_seller (rw same (unseen _ refl refl))
