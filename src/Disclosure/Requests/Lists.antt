-- ===== src/Disclosure/Requests/Lists.antt =====
-- app/disclosure/requests.py: what a buyer and a seller see of their requests.
use practice_match.Prelude.{
  String, Option, none, some, List, [], ◌∷◌, keep, str_eq, leb, if◌then◌else◌,
}
use practice_match.Sql.{fetch_one}
use practice_match.Disclosure.Request.{Request}
use practice_match.Disclosure.Requests.{Table}

-- ORDER BY requested_at DESC; rows of one instant keep the table's order.
abbrev newest_in : Request → Table → Table
newest_in r [] = r ∷ []
newest_in r (s ∷ rows) =
    let rest = newest_in r rows in
    if leb s.requested_at r.requested_at then r ∷ s ∷ rows else s ∷ rest

abbrev pub newest_first : Table → Table
newest_first [] = []
newest_first (r ∷ rows) = newest_in r (newest_first rows)

unfoldable pub list_mine : String → Table → Table
list_mine buyer table = newest_first (keep (λ r. str_eq r.buyer_user_id buyer) table)

-- An account, as far as the inbox reads it.
pub record Buyer : Type 0 where
  pub id : String
  pub display_name : Option String
  pub email : String

pub record InboxRow : Type 0 where
  pub request : Request
  pub buyer_name : String

module _ (strip : String → String) where
  abbrev or_empty : Option String → String
  or_empty none = ""
  or_empty (some name) = name

  abbrev pub shown_name : Buyer → String
  shown_name b =
      let name = strip (or_empty b.display_name) in if str_eq name "" then b.email else name

  abbrev with_name : Request → Option Buyer → List InboxRow → List InboxRow
  with_name r none rows = rows
  with_name r (some b) rows = record { request = r; buyer_name = shown_name b } ∷ rows

  abbrev joined : List Buyer → Table → List InboxRow
  joined buyers [] = []
  joined buyers (r ∷ rest) =
      with_name r (fetch_one (keep (λ b. str_eq b.id r.buyer_user_id) buyers)) (joined buyers rest)

  unfoldable pub list_inbox : String → List Buyer → Table → List InboxRow
  list_inbox seller buyers table =
      joined buyers (newest_first (keep (λ r. str_eq r.seller_user_id seller) table))
