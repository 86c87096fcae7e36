-- ===== src/Tests/Disclosure.antt =====
-- app/disclosure on two buyers' requests for one seller's listing.
use practice_match.Prelude.{ℕ, ◌≡◌, refl, true, false, not, none, some, List, [], ◌∷◌}
use practice_match.Sql.{update}
use practice_match.Disclosure.Levels.{covers, requestable, is_empty, covers-fails_closed}
use practice_match.Disclosure.Request.{Request, Status, approved, checks, clashes}
use practice_match.Disclosure.Access.{authorized_capabilities, authorized_capabilities_bulk}
use practice_match.Disclosure.Access.Bulk.{authorized_capabilities_bulk-eq}
use practice_match.Disclosure.Requests.{
  Table, Listing, done, approve, deny, decide, revoke, approve_row, deny_row, revoke_row,
  owned_pending_or_approved, new_request,
}
use practice_match.Disclosure.Requests.Laws.{
  revoke-no_capabilities, deny-no_capabilities, approve-capabilities,
}
use practice_match.Disclosure.Requests.Isolation.{decides, perform, perform-isolated}
use practice_match.Disclosure.Requests.History.{Call}

abbrev first : Request
first = new_request 1 "q1" "l1" "buyer" "seller" none "FINANCIALS"

abbrev second : Request
second = new_request 2 "q2" "l1" "other" "seller" none "IDENTITY"

abbrev asked : Table
asked = second ∷ first ∷ []

abbrev granted : Request
granted = record first {
  status = approved;
  approved_disclosure_level = some "FINANCIALS";
  reviewed_at = some 3;
  reviewed_by = some "seller";
  updated_at = 3;
}

abbrev answered : Table
answered = second ∷ granted ∷ []

abbrev withdrawn : Table
withdrawn = second ∷ record granted { status = Status.revoked; updated_at = 4 } ∷ []

abbrev rejected : Table
rejected =
    second
    ∷ record first {
      status = Status.denied;
      reviewed_at = some 3;
      reviewed_by = some "seller";
      updated_at = 3;
    }
    ∷ []

approving : decide 3 "q1" "seller" approve none none asked ≡ done answered
unfolding decide owned_pending_or_approved approve_row update checks requestable
approving = refl

denying : decide 3 "q1" "seller" deny none none asked ≡ done rejected
unfolding decide owned_pending_or_approved deny_row update checks requestable
denying = refl

revoking : revoke 4 "q1" "seller" answered ≡ done withdrawn
unfolding revoke owned_pending_or_approved revoke_row update checks requestable
revoking = refl

-- No two rows of either table clash.
apart : (clashes second first ≡ false) × (clashes second granted ≡ false)
unfolding clashes
apart = (refl, refl)

approve-capabilities_example :
    authorized_capabilities 5 "l1" (some "seller") (some "buyer") answered
    ≡ covers (some "FINANCIALS")
approve-capabilities_example =
    approve-capabilities 3 5 "q1" "seller" first asked answered ((apart.0, tt), (tt, tt)) refl none
      none (some "seller") approving refl refl

revoke-no_capabilities_example :
    authorized_capabilities 5 "l1" (some "seller") (some "buyer") withdrawn ≡ []
revoke-no_capabilities_example =
    revoke-no_capabilities 4 5 "q1" "seller" granted answered withdrawn ((apart.1, tt), (tt, tt))
      refl (some "seller") revoking

deny-no_capabilities_example :
    authorized_capabilities 5 "l1" (some "seller") (some "buyer") rejected ≡ []
deny-no_capabilities_example =
    deny-no_capabilities 3 5 "q1" "seller" first asked rejected ((apart.0, tt), (tt, tt)) refl none
      none (some "seller") denying

perform_approving : perform 3 "q1" "seller" (decides approve none none) asked ≡ done answered
unfolding perform
perform_approving = approving

perform-isolated_example :
    authorized_capabilities 5 "l1" (some "seller") (some "other") answered
    ≡ authorized_capabilities 5 "l1" (some "seller") (some "other") asked
perform-isolated_example =
    perform-isolated 3 5 "q1" "seller" first asked answered ((apart.0, tt), (tt, tt)) refl "l1"
      "other" refl (decides approve none none) (some "seller") perform_approving

authorized_capabilities_bulk-eq_example :
    (authorized_capabilities_bulk 5
        (some "buyer")
        (("l1", some "seller") ∷ ("l2", none) ∷ [])
        answered
        "l1"
      ≡ some (authorized_capabilities 5 "l1" (some "seller") (some "buyer") answered))
    × ((authorized_capabilities_bulk 5
            (some "buyer")
            (("l1", some "seller") ∷ ("l2", none) ∷ [])
            answered
            "l2"
          ≡ some (authorized_capabilities 5 "l2" none (some "buyer") answered))
        × Unit {0})
authorized_capabilities_bulk-eq_example =
    authorized_capabilities_bulk-eq 5 (some "buyer") (("l1", some "seller") ∷ ("l2", none) ∷ [])
      answered ((apart.1, tt), (tt, tt)) ((refl, tt), (tt, tt))

covers-fails_closed_example :
    (is_empty (covers (some "financials")) ≡ not (requestable "financials")) × (covers none ≡ [])
covers-fails_closed_example = covers-fails_closed "financials"

abbrev listings : List Listing
listings = record { id = "l1"; seller_id = some "seller"; published = true } ∷ []

abbrev a_request : List (ℕ × Call)
a_request = (1, Call.creates "q1" "l1" "buyer" none "FINANCIALS") ∷ []
