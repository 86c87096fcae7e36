-- ===== src/Listing/Text.antt =====
-- The str methods that app/api/seller_listings.py and app/api/admin_listings.py use: strip, replace by
-- nothing, isdecimal, int, lower. Unicode's tables of spaces, of decimal digits and of lower case
-- are the parameter.
use Prim.Native.Char.{Char, code}
use practice_match.Prelude.{
  ℕ, zero, suc, ◌+◌, ◌*◌, String, Bool, true, false, not, ◌&&◌, ◌||◌, Option, none, some, is_some,
  ◌==◌, if◌then◌else◌,
}

pub record Unicode : Type 0 where
  pub is_space : Char → Bool
  pub digit : Char → Option ℕ
  pub lower : String → String

-- len
unfoldable pub len : String → ℕ
len String.[] = 0
len (String.◌∷◌ c s) = suc (len s)

abbrev pub is_blank : String → Bool
is_blank String.[] = true
is_blank (String.◌∷◌ c s) = false

-- c in s
unfoldable pub holds : ℕ → String → Bool
holds n String.[] = false
holds n (String.◌∷◌ c s) = code c == n || holds n s

-- s.replace(c, "")
unfoldable pub without : ℕ → String → String
without n String.[] = String.[]
without n (String.◌∷◌ c s) =
    let rest = without n s in if code c == n then rest else String.◌∷◌ c rest

-- s[:n]
unfoldable pub first : ℕ → String → String
first n String.[] = String.[]
first zero (String.◌∷◌ c s) = String.[]
first (suc n) (String.◌∷◌ c s) = String.◌∷◌ c (first n s)

module _ (drops : Char → Bool) where
  lstrip : String → String
  lstrip String.[] = String.[]
  lstrip (String.◌∷◌ c s) = let rest = lstrip s in if drops c then rest else String.◌∷◌ c s

  rstrip : String → String
  rstrip String.[] = String.[]
  rstrip (String.◌∷◌ c s) =
      let rest = rstrip s in if is_blank rest && drops c then String.[] else String.◌∷◌ c rest

  -- s.strip() of the characters that are dropped
  unfoldable pub strip_of : String → String
  unfolding lstrip rstrip
  strip_of s = rstrip (lstrip s)

module _ (unicode : Unicode) where
  unfoldable pub strip : String → String
  unfolding strip_of
  strip s = strip_of unicode.is_space s

  digits_only : String → Bool
  digits_only String.[] = true
  digits_only (String.◌∷◌ c s) = is_some (unicode.digit c) && digits_only s

  unfoldable pub isdecimal : String → Bool
  unfolding digits_only
  isdecimal s = not (is_blank s) && digits_only s

  abbrev digit_or_zero : Option ℕ → ℕ
  digit_or_zero none = 0
  digit_or_zero (some d) = d

  read_on : ℕ → String → ℕ
  read_on n String.[] = n
  read_on n (String.◌∷◌ c s) = read_on (n * 10 + digit_or_zero (unicode.digit c)) s

  -- int(s) of decimal digits.
  unfoldable pub to_int : String → ℕ
  unfolding read_on
  to_int s = read_on 0 s
