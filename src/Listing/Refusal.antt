-- ===== src/Listing/Refusal.antt =====
-- app/api/seller_listings.py: the class Refusal, and a request handler as what it comes to.
use practice_match.Prelude.{◌≡◌, refl, String, Bool, true, false, List, if◌then◌else◌}
use practice_match.Sql.{Outcome, ok, raised}
use practice_match.Privacy.Delivery.{Offence}

-- The codes of the refusals that the handlers raise.
pub data Refusal : Type 0 where
  bad_request out_of_range bad_text not_found wrong_state incomplete not_submittable : Refusal
  storage_unavailable bad_action note_required fields_required bad_field : Refusal
  photos_not_ready : List (String × Offence) → Refusal

-- A handler gives its answer, refuses, or lets an exception escape, which is a 500.
pub data Run {ℓ} (A : Type ℓ) : Type ℓ where
  gives : A → Run A
  refuses : Refusal → Run A
  escapes : Run A

infixl 5 ◌>>=◌
abbrev pub ◌>>=◌ {ℓ κ} : {A : Type ℓ} {B : Type κ} → Run A → (A → Run B) → Run B
gives a >>= f = f a
refuses r >>= f = refuses r
escapes >>= f = escapes

abbrev pub pure {ℓ} : {A : Type ℓ} → A → Run A
pure a = gives a

-- A statement that the database refuses raises an exception that no handler catches.
abbrev pub execute {ℓ} : {A : Type ℓ} → Outcome A → Run A
execute (ok a) = gives a
execute (raised v) = escapes

-- The run does not let an exception escape, and what it gives satisfies `P`.
abbrev pub Holds {ℓ} : {A : Type ℓ} → (A → Type 0) → Run A → Type 0
Holds P (gives a) = P a
Holds P (refuses r) = Unit
Holds P escapes = ⊥

module _ {ℓ κ} {A : Type ℓ} {B : Type κ} (P : A → Type 0) (Q : B → Type 0) where
  pub chained-Holds :
      (m : Run A) (f : A → Run B) → Holds P m → ((a : A) → P a → Holds Q (f a)) → Holds Q (m >>= f)
  chained-Holds (gives a) f h k = k a h
  chained-Holds (refuses r) f h k = tt
  chained-Holds escapes f h k = h

-- The arms of a test.
pub if-Holds {ℓ} :
    {A : Type ℓ} (P : A → Type 0) (b : Bool) (m n : Run A)
    → (b ≡ true → Holds P m)
    → (b ≡ false → Holds P n)
    → Holds P (if b then m else n)
if-Holds P true m n t e = t refl
if-Holds P false m n t e = e refl

pub weaker-Holds {ℓ} :
    {A : Type ℓ} (P Q : A → Type 0) (m : Run A) → ((a : A) → P a → Q a) → Holds P m → Holds Q m
weaker-Holds P Q (gives a) f h = f a h
weaker-Holds P Q (refuses r) f h = tt
weaker-Holds P Q escapes f h = h
