-- ===== src/Auth/Limits.antt =====
-- app/ratelimit.py and app/auth/limits.py: one attempt against a sliding window. A subject's attempts
-- are one sorted set of Redis, under `subject_key`; scores are in microseconds of Redis's clock, the
-- window in seconds.
pub mod Laws
use practice_match.Prelude.{
  ℕ, ◌+◌, ◌-◌, ◌*◌, ◌/◌, ◌≤◌, String, ◌≡◌, Bool, true, false, Option, none, some, List, [], ◌∷◌,
  keep, any, length, ltb, leb, str_eq, if◌then◌else◌,
}
use Prim.Native.String

-- What the script relies on of a sorted set. `entries` are the members with their scores, lowest
-- score first; ZADD of a member that is not there adds one entry.
pub record SortedSets : Type 1 where
  pub Set : Type 0
  pub entries : Set → List (ℕ × String)
  -- ZREMRANGEBYSCORE key -inf (now - window)
  pub prune : ℕ → ℕ → Set → Set
  pub zadd : ℕ → String → Set → Set
  -- ZREMRANGEBYRANK key 0 -(limit + 1)
  pub trim : ℕ → Set → Set
  pub expire : ℕ → Set → Set
  pub delete : Set → Set
  pub entries-prune :
      (now window : ℕ) (s : Set)
      → entries (prune now window s) ≡ keep (λ e. ltb now (e.0 + window)) (entries s)
  pub length-zadd :
      (t : ℕ) (m : String) (s : Set)
      → any (λ e. str_eq e.1 m) (entries s) ≡ false
      → length (entries (zadd t m s)) ≡ length (entries s) + 1
  pub entries-trim :
      (limit : ℕ) (s : Set) → length (entries s) ≤ limit → entries (trim limit s) ≡ entries s
  pub entries-expire : (window : ℕ) (s : Set) → entries (expire window s) ≡ entries s
  pub entries-delete : (s : Set) → entries (delete s) ≡ []

-- `sha256` is the first sixteen hexadecimal digits of the subject's digest.
unfoldable pub subject_key : (String → String) → String → String → String
subject_key sha256 scope subject =
    String.◌++◌ "rl:" (String.◌++◌ scope (String.◌++◌ ":" (sha256 subject)))

pub record Reservation : Type 0 where
  pub admitted : Bool
  pub in_window : ℕ
  pub retry_after : ℕ

abbrev pub micros : ℕ → ℕ
micros seconds = seconds * 1_000_000

-- math.ceil of microseconds in seconds; a negative difference rounds to zero or below, and is
-- clamped to one either way.
abbrev pub ceil_seconds : ℕ → ℕ
ceil_seconds us = (us + 999_999) / 1_000_000

abbrev pub clamp : ℕ → ℕ → ℕ
clamp window wait =
    let low = if ltb wait 1 then 1 else wait in if ltb window low then window else low

abbrev pub wait_of : ℕ → ℕ → List (ℕ × String) → ℕ
wait_of now window [] = clamp window window
wait_of now window (e ∷ es) = clamp window (ceil_seconds (e.0 + micros window - now))

module _ (sets : SortedSets) where
  abbrev pub admit : ℕ → ℕ → ℕ → String → sets.Set → sets.Set × Reservation
  admit now limit window member s =
      let s' = sets.expire window (sets.trim limit (sets.zadd now member s)) in
      (s', record { admitted = true; in_window = length (sets.entries s'); retry_after = 0 })

  abbrev pub refuse : ℕ → ℕ → sets.Set → sets.Set × Reservation
  refuse now window s = (
    s,
    record {
      admitted = false;
      in_window = length (sets.entries s);
      retry_after = wait_of now window (sets.entries s);
    },
  )

  -- The script `_RESERVE`; `member` is the random token of the attempt.
  unfoldable pub reserve : ℕ → ℕ → ℕ → String → sets.Set → sets.Set × Reservation
  reserve now limit window member s =
      let pruned = sets.prune now (micros window) s in
      if leb limit (length (sets.entries pruned))
      then refuse now window pruned
      else admit now limit window member pruned

  unfoldable pub clear : sets.Set → sets.Set
  clear s = sets.delete s

-- What `hit` of app/auth/limits.py answers: the number inside the window, or RateLimited.
pub data Hit : Type 0 where
  counted : ℕ → Hit
  rate_limited : ℕ → Hit

unfoldable pub hit : Reservation → Hit
hit r = if r.admitted then counted r.in_window else rate_limited r.retry_after
