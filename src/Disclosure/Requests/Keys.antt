-- ===== src/Disclosure/Requests/Keys.antt =====
-- The one row that an UPDATE … WHERE id = … of app/disclosure/requests.py rewrites.
use practice_match.Prelude.{
  String, ◌≡◌, ◌∙◌, Bool, true, false, ◌&&◌, inl, inr, Bool-cases, some, [], ◌∷◌, subst, All, keep,
  arith, str_eq, eq_iff, and-left,
}
use practice_match.Sql.{fetch_one}
use practice_match.Sql.Unique.{Distinct, Keyed, fetch_one-All}
use practice_match.Disclosure.Request.{Request, Status, status_eq, clashes}
use practice_match.Disclosure.Requests.{Table, done, owned_pending_or_approved, has_id}

pub str_eq_comm : (s t : String) → str_eq s t ≡ str_eq t s
str_eq_comm s t = ground (arith, eq_iff s t, eq_iff t s)

pub clashes_comm : (r s : Request) → clashes r s ≡ clashes s r
unfolding clashes
clashes_comm r s = ground (
  arith,
  str_eq_comm r.id s.id,
  str_eq_comm r.listing_id s.listing_id,
  str_eq_comm r.buyer_user_id s.buyer_user_id,
)

id_differs :
    (id : String) (r s : Request)
    → str_eq r.id id ≡ true
    → clashes r s ≡ false
    → str_eq s.id id ≡ false
unfolding clashes
id_differs id r s e c = ground (arith, eq_iff r.id id, eq_iff s.id id, eq_iff r.id s.id)

module _ (id seller : String) where
  abbrev pub owned : Request → Bool
  owned r = str_eq r.id id && str_eq r.seller_user_id seller

  others-Keyed :
      (r : Request) (t : Table)
      → str_eq r.id id ≡ true
      → All (λ s. clashes r s ≡ false) t
      → All (Keyed clashes (has_id id) r) t
  others-Keyed r [] e h = tt
  others-Keyed r (x ∷ xs) e h = (inr (id_differs id r x e h.0, h.0), others-Keyed r xs e h.1)

  pub found-Keyed :
      (r : Request) (t : Table)
      → Distinct clashes t
      → fetch_one (keep owned t) ≡ some r
      → All (Keyed clashes (has_id id) r) t
  found-Keyed r [] d e = absurd (cc e)
  found-Keyed r (x ∷ xs) d e = elim (Bool-cases (owned x)) [
    | inl b ↦
        let same : x ≡ r = cc (rw b at e) in
        let key = and-left (str_eq x.id id) _ b in
        (
          inl (same, key),
          subst (λ y. All (Keyed clashes (has_id id) y) xs) same (others-Keyed x xs key d.0),
        )
    | inr b ↦
        let e' = rw b at e in
        let (apart, mine) = fetch_one-All (λ s. clashes x s ≡ false) owned xs r d.0 e' in
        let apart' = clashes_comm r x ∙ apart in
        (
          inr (id_differs id r x (and-left (str_eq r.id id) _ mine) apart', apart'),
          found-Keyed r xs d.1 e',
        )
  ]

  -- What the check at the head of `decide` and `revoke` has established when it lets a call pass.
  pub owned-done :
      (wanted : Status) (t : Table) (r : Request)
      → owned_pending_or_approved id seller wanted t ≡ done r
      → (fetch_one (keep owned t) ≡ some r) × (status_eq r.status wanted ≡ true)
  unfolding owned_pending_or_approved
  owned-done wanted t r e = ground arith
