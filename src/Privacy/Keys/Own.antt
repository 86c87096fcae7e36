-- ===== src/Privacy/Keys/Own.antt =====
-- app/privacy/__init__.py: the key of a derivative tells whose photograph it is of.
use Prim.Native.Char.{code}
use Prim.Native.String
use text.Mathlib.TextLemmas.{nil-append, cons-append, append_assoc, append-nil}
use practice_match.Prelude.{
  String, ◌≡◌, refl, ◌∙◌, ap, Bool, true, false, not, ◌&&◌, ◌==◌, arith, if◌then◌else◌,
}
use practice_match.Privacy.Keys.{redacted_key, photo_prefix}

-- As the text of an id is, which is hexadecimal digits and dashes.
unfoldable pub slash_free : String → Bool
slash_free String.[] = true
slash_free (String.◌∷◌ c s) = not (code c == 47) && slash_free s

-- What stands before the first slash, and after it.
unfoldable pub until_slash : String → String
until_slash String.[] = String.[]
until_slash (String.◌∷◌ c s) =
    let rest = until_slash s in if code c == 47 then String.[] else String.◌∷◌ c rest

unfoldable pub past_slash : String → String
past_slash String.[] = String.[]
past_slash (String.◌∷◌ c s) = let rest = past_slash s in if code c == 47 then s else rest

until_slash-append :
    (s t : String)
    → slash_free s ≡ true
    → until_slash (String.◌++◌ s t) ≡ String.◌++◌ s (until_slash t)
unfolding until_slash slash_free
until_slash-append String.[] t e = rw (nil-append, nil-append) refl
until_slash-append (String.◌∷◌ c s) t e =
    let free : slash_free s ≡ true = ground (arith, e) in
    let other : (code c == 47) ≡ false = ground (arith, e) in
    rw (cons-append, cons-append, other, until_slash-append s t free) refl

past_slash-append :
    (s t : String) → slash_free s ≡ true → past_slash (String.◌++◌ s t) ≡ past_slash t
unfolding past_slash slash_free
past_slash-append String.[] t e = rw nil-append refl
past_slash-append (String.◌∷◌ c s) t e =
    let free : slash_free s ≡ true = ground (arith, e) in
    let other : (code c == 47) ≡ false = ground (arith, e) in
    rw (cons-append, other) (past_slash-append s t free)

-- The third segment of a key.
abbrev pub asset_of : String → String
asset_of key = until_slash (past_slash (past_slash (past_slash key)))

past_slash-segment :
    (w t : String) → slash_free w ≡ true → past_slash (String.◌++◌ (String.◌++◌ w "/") t) ≡ t
unfolding past_slash
past_slash-segment w t e =
    ap past_slash (append_assoc w "/" t)
    ∙ past_slash-append w (String.◌++◌ "/" t) e
    ∙ (rw (cons-append, nil-append) refl)

-- What follows the listing's id.
abbrev after_listing : String → String
after_listing a = String.◌++◌ "/photos/" (String.◌++◌ a "/redacted.webp")

redacted_key-nested :
    (l a : String) → redacted_key l a ≡ String.◌++◌ "listings/" (String.◌++◌ l (after_listing a))
unfolding redacted_key photo_prefix
redacted_key-nested l a =
    append_assoc "listings/" (String.◌++◌ l (String.◌++◌ "/photos/" (String.◌++◌ a "/")))
      "redacted.webp"
    ∙ ap (String.◌++◌ "listings/") (
        append_assoc l (String.◌++◌ "/photos/" (String.◌++◌ a "/")) "redacted.webp"
        ∙ ap (String.◌++◌ l) (
            append_assoc "/photos/" (String.◌++◌ a "/") "redacted.webp"
            ∙ ap (String.◌++◌ "/photos/") (append_assoc a "/" "redacted.webp")))

pub asset_of-redacted_key :
    (l a : String) → slash_free l ≡ true → slash_free a ≡ true → asset_of (redacted_key l a) ≡ a
unfolding slash_free until_slash
asset_of-redacted_key l a e f =
    ap asset_of (redacted_key-nested l a)
    ∙ ap (λ s. until_slash (past_slash (past_slash s)))
        (past_slash-segment "listings" (String.◌++◌ l (after_listing a)) refl)
    ∙ ap (λ s. until_slash (past_slash s))
        (past_slash-append l (after_listing a) e
          ∙ ap past_slash (append_assoc "/" "photos/" (String.◌++◌ a "/redacted.webp"))
          ∙ past_slash-segment "" (String.◌++◌ "photos/" (String.◌++◌ a "/redacted.webp")) refl)
    ∙ ap until_slash (past_slash-segment "photos" (String.◌++◌ a "/redacted.webp") refl)
    ∙ until_slash-append a "/redacted.webp" f
    ∙ append-nil a
