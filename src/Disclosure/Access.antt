-- ===== src/Disclosure/Access.antt =====
-- app/disclosure/access.py: the capabilities that a buyer holds for a listing.
pub mod Bulk
use practice_match.Prelude.{
  ℕ, String, Bool, true, false, not, ◌&&◌, Option, none, some, List, [], ◌∷◌, keep, any, ltb,
  str_eq, if◌then◌else◌,
}
use practice_match.Sql.{fetch_one}
use practice_match.Disclosure.Levels.{Capability, has, covers}
use practice_match.Disclosure.Request.{Request, Status, status_eq}

-- expires_at IS NULL OR expires_at > now()
abbrev pub unexpired : ℕ → Option ℕ → Bool
unexpired now none = true
unexpired now (some at) = ltb now at

-- What both queries ask of a row beside its listing.
abbrev pub is_grant : ℕ → String → Request → Bool
is_grant now buyer r =
    str_eq r.buyer_user_id buyer && status_eq r.status Status.approved && unexpired now r.expires_at

abbrev pub is_own : Option String → String → Bool
is_own none buyer = false
is_own (some seller) buyer = str_eq buyer seller

abbrev pub covered : Option Request → List Capability
covered none = []
covered (some r) = covers r.approved_disclosure_level

unfoldable pub authorized_capabilities :
    ℕ → String → Option String → Option String → List Request → List Capability
authorized_capabilities now listing seller none table = []
authorized_capabilities now listing seller (some buyer) table =
    if is_own seller buyer
    then []
    else covered (fetch_one (keep (λ r. str_eq r.listing_id listing && is_grant now buyer r) table))

unfoldable pub has_capability :
    ℕ → String → Option String → Option String → Capability → List Request → Bool
unfolding authorized_capabilities
has_capability now listing seller buyer capability table =
    has capability (authorized_capabilities now listing seller buyer table)

-- A dict from listing ids to capabilities.
abbrev pub Result : Type 0
Result = String → Option (List Capability)

abbrev pub put : String → List Capability → Result → Result
put k caps d = λ j. if str_eq k j then some caps else d j

-- {listing_id: frozenset() for listing_id, _seller_id in listings}
unfoldable pub no_grants : List (String × Option String) → Result
no_grants [] = λ j. none
no_grants ((l, s) ∷ rest) = λ j. if str_eq l j then some [] else no_grants rest j

-- [listing_id for … if seller_id is None or str(seller_id) != str(buyer_account_id)]
unfoldable pub foreign_ids : String → List (String × Option String) → List String
foreign_ids buyer [] = []
foreign_ids buyer ((l, s) ∷ rest) =
    let more = foreign_ids buyer rest in if is_own s buyer then more else l ∷ more

-- `for listing_id, level in cur.fetchall()`
unfoldable pub fill : List Request → Result → Result
fill [] result = result
fill (r ∷ rs) result = fill rs (put r.listing_id (covers r.approved_disclosure_level) result)

abbrev pub listed : List String → String → Bool
listed ids l = any (λ i. str_eq l i) ids

unfoldable pub authorized_capabilities_bulk :
    ℕ → Option String → List (String × Option String) → List Request → Result
unfolding no_grants foreign_ids fill
authorized_capabilities_bulk now none listings table = no_grants listings
authorized_capabilities_bulk now (some buyer) listings table =
    fill
      (keep (λ r. listed (foreign_ids buyer listings) r.listing_id && is_grant now buyer r) table)
      (no_grants listings)
