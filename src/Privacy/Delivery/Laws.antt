-- ===== src/Privacy/Delivery/Laws.antt =====
-- What reaches a buyer: never an original, and under NOT_SHOW without a grant never the display
-- object.
use practice_match.Prelude.{
  subst, ℕ, String, ◌≡◌, sym, ◌∙◌, Bool, true, false, ◌⊎◌, inl, inr, Bool-cases, Option, none, some,
  List, [], ◌∷◌, All, keep, arith,
}
use practice_match.Sql.{fetch_one}
use practice_match.Privacy.State.{Visibility, not_show, confirmed_states, one_of}
use practice_match.Privacy.Keys.{
  redacted_key-ne-original_key, display_key-ne-original_key, redacted_key-ne-display_key,
}
use practice_match.Privacy.Row.{PrivacyRow}
use practice_match.Privacy.Record.{read}
use practice_match.Privacy.Invariant.{IsSound, IsOriginalKey, IsDisplayKey, IsRedactedKey, On}
use practice_match.Privacy.History.{Event, history}
use practice_match.Privacy.History.Safety.{history-IsSound}
use practice_match.Privacy.Delivery.{Variant, buyer_variant}

read-All {κ} :
    (P : PrivacyRow → Type κ) (selects : PrivacyRow → Bool) (t : List PrivacyRow) (r : PrivacyRow)
    → All P t
    → fetch_one (keep selects t) ≡ some r
    → P r
read-All P selects [] r h e = absurd (cc e)
read-All P selects (x ∷ xs) r h e = elim (Bool-cases (selects x)) [
  | inl b ↦ subst P (cc (rw b at e)) h.0
  | inr b ↦ read-All P selects xs r h.1 (rw b at e)
]

-- The row that a history left of a photograph.
read-IsSound :
    (es : List (ℕ × Event)) (a : String) (r : PrivacyRow)
    → read a (history es []) ≡ some r
    → IsSound r
unfolding read
read-IsSound es a r e = read-All IsSound _ (history es []) r (history-IsSound es [] tt) e

not_show_redacted :
    (asset : PrivacyRow) (entry : String) (seed : Option String) (v : Variant)
    → buyer_variant not_show (some asset) entry seed false ≡ some v
    → (asset.redacted_storage_key ≡ some v.key)
      × (asset.redacted_sha256 ≡ some v.sha256)
      × (one_of confirmed_states asset.processing_status ≡ true)
      × (asset.buyer_visible ≡ true)
unfolding buyer_variant
not_show_redacted asset entry seed v e = ground arith

variant_key :
    (visibility : Visibility) (asset : PrivacyRow) (entry : String) (seed : Option String)
    (authorized : Bool) (v : Variant)
    → buyer_variant visibility (some asset) entry seed authorized ≡ some v
    → (asset.redacted_storage_key ≡ some v.key) ⊎ (asset.display_storage_key ≡ some v.key)
unfolding buyer_variant
variant_key visibility asset entry seed authorized v e = ground arith

On-elim : (P : String → Type 0) (o : Option String) (k : String) → On P o → o ≡ some k → P k
On-elim P none k h e = absurd (cc e)
On-elim P (some j) k h e = subst P (cc e) h

not-original_of_redacted : (k : String) → IsRedactedKey k → ¬ IsOriginalKey k
not-original_of_redacted k (l, a, e) (l', a', ext, e') =
    redacted_key-ne-original_key l a l' a' ext (sym e ∙ e')

not-original_of_display : (k : String) → IsDisplayKey k → ¬ IsOriginalKey k
not-original_of_display k (l, a, e) (l', a', ext, e') =
    display_key-ne-original_key l a l' a' ext (sym e ∙ e')

-- Whatever the history of the table, the listing's visibility and the caller's grant, the object
-- that a buyer is served of an uploaded photograph is not the original of any photograph.
pub buyer_variant-never_original :
    (es : List (ℕ × Event)) (a : String) (asset : PrivacyRow) (visibility : Visibility)
    (entry : String) (seed : Option String) (authorized : Bool) (v : Variant)
    → read a (history es []) ≡ some asset
    → buyer_variant visibility (some asset) entry seed authorized ≡ some v
    → ¬ IsOriginalKey v.key
buyer_variant-never_original es a asset visibility entry seed authorized v found served =
    let sound = read-IsSound es a asset found in
    elim (variant_key visibility asset entry seed authorized v served) [
      | inl e ↦ not-original_of_redacted v.key (On-elim IsRedactedKey _ v.key sound.derivative e)
      | inr e ↦ not-original_of_display v.key (On-elim IsDisplayKey _ v.key sound.display e)
    ]

-- Under NOT_SHOW a buyer without the grant is served nothing but the photograph's current
-- derivative, of a visible row in a confirmed state, and that object is neither the display object
-- nor the original of any photograph.
pub not_show_withholds :
    (es : List (ℕ × Event)) (a : String) (asset : PrivacyRow) (entry : String)
    (seed : Option String) (v : Variant)
    → read a (history es []) ≡ some asset
    → buyer_variant not_show (some asset) entry seed false ≡ some v
    → (asset.redacted_storage_key ≡ some v.key)
      × (asset.redacted_sha256 ≡ some v.sha256)
      × (one_of confirmed_states asset.processing_status ≡ true)
      × (asset.buyer_visible ≡ true)
      × (¬ IsDisplayKey v.key)
      × (¬ IsOriginalKey v.key)
not_show_withholds es a asset entry seed v found served =
    let sound = read-IsSound es a asset found in
    let (key, sha, state, visible) = not_show_redacted asset entry seed v served in
    let (l, k, e) = On-elim IsRedactedKey _ v.key sound.derivative key in
    (
      key,
      sha,
      state,
      visible,
      λ (l', k', e'). redacted_key-ne-display_key l k l' k' (sym e ∙ e'),
      not-original_of_redacted v.key (l, k, e),
    )
