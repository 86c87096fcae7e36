-- ===== src/Disclosure/Levels.antt =====
-- app/disclosure/levels.py: the disclosure levels and the capabilities that each covers.
use practice_match.Prelude.{
  ℕ, String, ◌≡◌, refl, Bool, true, false, not, ◌||◌, Bool-cases, inl, inr, Option, none, some,
  List, [], ◌∷◌, any, ◌==◌, arith, str_eq, if◌then◌else◌,
}

pub data Capability : Type 0 where
  identity exact_location unredacted_images financials floor_plans : Capability

abbrev capability_code : Capability → ℕ
capability_code identity = 0
capability_code exact_location = 1
capability_code unredacted_images = 2
capability_code financials = 3
capability_code floor_plans = 4

abbrev pub capability_eq : Capability → Capability → Bool
capability_eq c d = capability_code c == capability_code d

-- `capability in capabilities`
abbrev pub has : Capability → List Capability → Bool
has c caps = any (capability_eq c) caps

abbrev pub capabilities : List Capability
capabilities = identity ∷ exact_location ∷ unredacted_images ∷ financials ∷ floor_plans ∷ []

-- _COVERAGE.get(level, frozenset())
unfoldable pub coverage : String → List Capability
coverage level =
    if str_eq level "FULL_CONFIDENTIAL"
    then capabilities
    else if str_eq level "IDENTITY"
    then identity ∷ []
    else if str_eq level "EXACT_LOCATION"
    then exact_location ∷ []
    else if str_eq level "UNREDACTED_IMAGES"
    then unredacted_images ∷ []
    else if str_eq level "FINANCIALS"
    then financials ∷ []
    else if str_eq level "FLOOR_PLANS"
    then floor_plans ∷ []
    else []

-- level in REQUESTABLE_LEVELS
unfoldable pub requestable : String → Bool
requestable level =
    str_eq level "FULL_CONFIDENTIAL"
    || str_eq level "IDENTITY"
    || str_eq level "EXACT_LOCATION"
    || str_eq level "UNREDACTED_IMAGES"
    || str_eq level "FINANCIALS"
    || str_eq level "FLOOR_PLANS"

-- `level or ""`
unfoldable pub covers : Option String → List Capability
unfolding coverage
covers none = coverage ""
covers (some level) = coverage level

unfoldable pub capability_for_document_kind : String → String
capability_for_document_kind kind =
    if str_eq kind "floor_plan"
    then "FLOOR_PLANS"
    else if str_eq kind "financials"
    then "FINANCIALS"
    else "FULL_CONFIDENTIAL"

abbrev pub is_empty : List Capability → Bool
is_empty [] = true
is_empty (c ∷ caps) = false

-- A level grants something exactly when it is one of the requestable levels: every other text, and
-- no level at all, grants nothing.
pub covers-fails_closed :
    (level : String)
    → (is_empty (covers (some level)) ≡ not (requestable level)) × (covers none ≡ [])
unfolding requestable covers
covers-fails_closed level = (ground arith, refl)

has-capabilities : (c : Capability) → has c capabilities ≡ true
has-capabilities identity = refl
has-capabilities _ = refl

-- The level that a document's kind asks for is requestable, and FULL_CONFIDENTIAL covers every
-- capability.
pub document_level_requestable :
    (kind : String) (c : Capability)
    → (requestable (capability_for_document_kind kind) ≡ true)
      × (has c (covers (some "FULL_CONFIDENTIAL")) ≡ true)
unfolding requestable covers capability_for_document_kind
document_level_requestable kind c = elim (Bool-cases (str_eq kind "floor_plan")) [
  | inl e ↦ rw e (refl, has-capabilities c)
  | inr e ↦ elim (Bool-cases (str_eq kind "financials")) [
    | inl e' ↦ rw (e, e') (refl, has-capabilities c)
    | inr e' ↦ rw (e, e') (refl, has-capabilities c)
  ]
]
