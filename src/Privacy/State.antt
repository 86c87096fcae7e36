-- ===== src/Privacy/State.antt =====
-- app/privacy/record.py: the states of a privacy row and the tables of its transitions.
use practice_match.Prelude.{ℕ, Bool, List, [], ◌∷◌, any, ◌==◌}

-- The eleven states of the column's CHECK, in its order.
pub data Status : Type 0 where
  uploaded processing scanned redaction_generated ready_for_review seller_confirmed published :
      Status
  processing_failed redaction_failed review_required reprocess_required : Status

abbrev pub status_code : Status → ℕ
status_code uploaded = 0
status_code processing = 1
status_code scanned = 2
status_code redaction_generated = 3
status_code ready_for_review = 4
status_code seller_confirmed = 5
status_code published = 6
status_code processing_failed = 7
status_code redaction_failed = 8
status_code review_required = 9
status_code reprocess_required = 10

abbrev pub status_eq : Status → Status → Bool
status_eq s t = status_code s == status_code t

-- `processing_status = ANY(…)`
abbrev pub one_of : List Status → Status → Bool
one_of states s = any (status_eq s) states

abbrev pub ready_states : List Status
ready_states = ready_for_review ∷ seller_confirmed ∷ published ∷ []

abbrev pub all_states : List Status
all_states =
    uploaded ∷ processing ∷ scanned ∷ redaction_generated ∷ ready_for_review ∷ seller_confirmed
    ∷ published ∷ processing_failed ∷ redaction_failed ∷ review_required ∷ reprocess_required ∷ []

abbrev pub error_states : List Status
error_states = processing_failed ∷ redaction_failed ∷ review_required ∷ reprocess_required ∷ []

abbrev pub claimable_states : List Status
claimable_states = uploaded ∷ processing_failed ∷ redaction_failed ∷ reprocess_required ∷ []

-- FAIL_SOURCES.get(state, ())
abbrev pub fail_sources : Status → List Status
fail_sources processing_failed = processing ∷ []
fail_sources redaction_failed = scanned ∷ []
fail_sources _ = []

abbrev pub exhaust_sources : List Status
exhaust_sources = processing ∷ scanned ∷ ready_for_review ∷ seller_confirmed ∷ published ∷ []

-- The states in which lap_ready_has_derivative_ck wants a derivative.
abbrev pub derivative_states : List Status
derivative_states = redaction_generated ∷ ready_for_review ∷ seller_confirmed ∷ published ∷ []

-- The states that delivery and migration 042 accept under NOT_SHOW.
abbrev pub confirmed_states : List Status
confirmed_states = seller_confirmed ∷ published ∷ []

-- Intervals and timestamps are in microseconds, as PostgreSQL keeps them.
abbrev pub lost_after : ℕ
lost_after = 360_000_000

abbrev pub unstarted_after : ℕ
unstarted_after = 120_000_000

abbrev pub retry_after : ℕ
retry_after = 720_000_000

abbrev pub max_attempts : ℕ
max_attempts = 3

-- Seconds.
abbrev pub backoff : List ℕ
backoff = 30 ∷ 120 ∷ 600 ∷ []

pub data Visibility : Type 0 where
  show not_show : Visibility

pub data Review : Type 0 where
  pending looks_good edited : Review

pub data Reason : Type 0 where
  version identity_changed operator : Reason
