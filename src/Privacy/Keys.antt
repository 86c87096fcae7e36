-- ===== src/Privacy/Keys.antt =====
-- app/privacy/__init__.py: the storage keys of a photograph's three objects.
pub mod Own
use Prim.Native.Char.{code}
use Prim.Native.String
use text.Mathlib.TextLemmas.{nil-append, cons-append}
use practice_match.Prelude.{ℕ, zero, suc, String, ◌≡◌, ◌≢◌, refl, ap, List, ◌∷◌, [], arith}

-- PHOTO_EXT's three extensions.
pub data Ext : Type 0 where
  jpg png webp : Ext

abbrev pub ext_text : Ext → String
ext_text jpg = ".jpg"
ext_text png = ".png"
ext_text webp = ".webp"

unfoldable pub photo_prefix : String → String → String
photo_prefix listing_id asset_id =
    String.◌++◌ "listings/"
      (String.◌++◌ listing_id (String.◌++◌ "/photos/" (String.◌++◌ asset_id "/")))

unfoldable pub original_key : String → String → Ext → String
original_key listing_id asset_id ext =
    String.◌++◌ (photo_prefix listing_id asset_id) (String.◌++◌ "original" (ext_text ext))

unfoldable pub display_key : String → String → String
display_key listing_id asset_id = String.◌++◌ (photo_prefix listing_id asset_id) "display.webp"

unfoldable pub redacted_key : String → String → String
redacted_key listing_id asset_id = String.◌++◌ (photo_prefix listing_id asset_id) "redacted.webp"

-- The code points of a text, last one first, before those of `acc`.
backwards : String → List ℕ → List ℕ
backwards String.[] acc = acc
backwards (String.◌∷◌ c s) acc = backwards s (code c ∷ acc)

backwards-append :
    (s t : String) (acc : List ℕ) → backwards (String.◌++◌ s t) acc ≡ backwards t (backwards s acc)
unfolding backwards
backwards-append String.[] t acc = rw nil-append refl
backwards-append (String.◌∷◌ c s) t acc = rw cons-append (backwards-append s t (code c ∷ acc))

-- The `i`-th of the codes.
abbrev nth : ℕ → List ℕ → ℕ
nth i [] = 0
nth zero (c ∷ cs) = c
nth (suc i) (c ∷ cs) = nth i cs

-- Texts with equal keys have equal code points at every place, counted from the end.
from_end :
    (i : ℕ) (p s q t : String)
    → String.◌++◌ p s ≡ String.◌++◌ q t
    → nth i (backwards s (backwards p [])) ≡ nth i (backwards t (backwards q []))
from_end i p s q t e =
    rw (← backwards-append p s [], ← backwards-append q t []) (ap (λ k. nth i (backwards k [])) e)

-- The keys of the three objects end differently, whatever the photographs are.
module _ (l a l' a' : String) where
  last_differs :
      (i : ℕ) (s t : String)
      → String.◌++◌ (photo_prefix l a) s ≡ String.◌++◌ (photo_prefix l' a') t
      → nth i (backwards s (backwards (photo_prefix l a) []))
        ≡ nth i (backwards t (backwards (photo_prefix l' a') []))
  last_differs i s t e = from_end i (photo_prefix l a) s (photo_prefix l' a') t e

  pub redacted_key-ne-original_key : (ext : Ext) → redacted_key l a ≢ original_key l' a' ext
  unfolding redacted_key original_key backwards
  redacted_key-ne-original_key jpg e =
      omega (arith, last_differs 0 "redacted.webp" "original.jpg" e)
  redacted_key-ne-original_key png e =
      omega (arith, last_differs 0 "redacted.webp" "original.png" e)
  redacted_key-ne-original_key webp e =
      omega (arith, last_differs 5 "redacted.webp" "original.webp" e)

  pub display_key-ne-original_key : (ext : Ext) → display_key l a ≢ original_key l' a' ext
  unfolding display_key original_key backwards
  display_key-ne-original_key jpg e = omega (arith, last_differs 0 "display.webp" "original.jpg" e)
  display_key-ne-original_key png e = omega (arith, last_differs 0 "display.webp" "original.png" e)
  display_key-ne-original_key webp e =
      omega (arith, last_differs 5 "display.webp" "original.webp" e)

  pub redacted_key-ne-display_key : redacted_key l a ≢ display_key l' a'
  unfolding redacted_key display_key backwards
  redacted_key-ne-display_key e = omega (arith, last_differs 5 "redacted.webp" "display.webp" e)
