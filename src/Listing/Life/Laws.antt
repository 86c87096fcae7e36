-- ===== src/Listing/Life/Laws.antt =====
-- The rules of a listing's life, over every request on every sound database.
use practice_match.Prelude.{
  ℕ, String, ◌≡◌, sym, ◌∙◌, ap, subst, true, false, ◌⊎◌, inl, inr, Option, none, some, List, [],
  ◌∷◌,
}
use practice_match.Listing.Row.{Listing, published, withdrawn, status_eq}
use practice_match.Listing.Store.{Db, not_ready}
use practice_match.Listing.Handler.{World}
use practice_match.Listing.Invariant.{IsSoundDb}
use practice_match.Listing.Life.{Request, serve, committed}
use practice_match.Listing.Life.Lawful.{Changes, content, is_reviewed, publishes, may_write}
use practice_match.Listing.Life.Safety.{IsServable, next, next-Lawful, Step-cases}

-- The tables before the first request.
abbrev pub empty : Db
empty = record {
  listing = λ k. none;
  privacy = [];
  located = λ k. false;
  outbox = [];
  audit_log = [];
}

-- Every request of the history is servable when it comes.
abbrev pub AllServable : World → List (ℕ × Request) → Db → Type 0
AllServable world [] db = Unit
AllServable world ((now, q) ∷ rest) db =
    IsServable q db × AllServable world rest (committed db (serve world now q db))

module _ (world : World) (now : ℕ) (db : Db) (h : IsSoundDb db) (q : Request) (s : IsServable q db)
    (k : String) (r : Listing) (e : db.listing k ≡ some r) where
  abbrev after : Option Listing
  after = next world now db h q s k

  cases : (after ≡ some r) ⊎ ((r' : Listing) × (after ≡ some r') × Changes q db.privacy r r')
  cases = Step-cases q db.privacy _ _ r ((next-Lawful world now db h q s).1 k) e

  -- The row after the request is the one before, or a lawful change of it.
  row_after :
      (r' : Listing)
      → (committed db (serve world now q db)).listing k ≡ some r'
      → (r' ≡ r) ⊎ Changes q db.privacy r r'
  row_after r' e' = elim cases [
    | inl same ↦ let eq : some r' ≡ some r = sym e' ∙ same in inl (cc eq)
    | inr (x, there, c) ↦
        let eq : some x ≡ some r' = sym there ∙ e' in
        inr (subst (λ y. Changes q db.privacy r y) (cc eq) c)
  ]

  -- On a sound database, a listing that is published after a servable request was published before
  -- it, or no photograph held it back when the request came: no request brings a listing to the market past
  -- the gate.
  pub published-only_ready :
      (r' : Listing)
      → (committed db (serve world now q db)).listing k ≡ some r'
      → status_eq r'.status published ≡ true
      → (status_eq r.status published ≡ true) ⊎ (not_ready db.privacy r ≡ [])
  published-only_ready r' e' p = elim (row_after r' e') [
    | inl same ↦ inl (subst (λ y. status_eq y.status published ≡ true) same p)
    | inr c ↦ c.gated p
  ]

  -- On a sound database, a listing that is published or paused after a servable request says of
  -- the practice exactly what it said before, and was published or paused before, unless the
  -- request is a reviewer's publish: what a seller changes leaves the market until it is reviewed.
  pub market-only_reviewed :
      (r' : Listing)
      → (committed db (serve world now q db)).listing k ≡ some r'
      → is_reviewed r' ≡ true
      → (content r' ≡ content r) × ((is_reviewed r ≡ true) ⊎ (publishes q ≡ true))
  market-only_reviewed r' e' p = elim (row_after r' e') [
    | inl same ↦ (ap content same, inl (subst (λ y. is_reviewed y ≡ true) same p))
    | inr c ↦ (c.unaltered p, c.reviewed p)
  ]

  -- On a sound database, no servable request changes a withdrawn listing.
  pub withdrawn-stays :
      status_eq r.status withdrawn ≡ true → (committed db (serve world now q db)).listing k ≡ some r
  withdrawn-stays w = elim cases [
    | inl same ↦ same
    | inr (x, there, c) ↦ absurd (clash (sym w ∙ c.living))
  ]
    where
      clash : true ≡ false → ⊥
      clash e = cc e

  -- On a sound database, no servable request changes a listing unless it is a reviewer's decision
  -- or it comes from the account that owns the listing.
  pub strangers-change_nothing :
      may_write q r ≡ false → (committed db (serve world now q db)).listing k ≡ some r
  strangers-change_nothing w = elim cases [
    | inl same ↦ same
    | inr (x, there, c) ↦ absurd (clash (sym c.allowed ∙ w))
  ]
    where
      clash : true ≡ false → ⊥
      clash e = cc e
