-- ===== src/Auth/Tokens/Laws.antt =====
-- app/auth/tokens.py: how often a link works, and whose api tokens are accepted.
use practice_match.Prelude.{
  ℕ, String, ◌≡◌, refl, true, false, not, ◌&&◌, Option, none, some, List, [], ◌∷◌, All, map, arith,
  Bool-cases, inl, inr, leb, any, str_eq, eq_iff, sym, ◌∙◌, subst, ap,
}
use practice_match.Sql.{fetch_one, updated, moved}
use practice_match.Sql.Unique.{keep-nil}
use practice_match.Auth.Tokens.{
  EmailToken, consumable, used, consume_email_token, ApiToken, ApiPrincipal, is_ended, is_backed,
  usable, principal_of, touched, verify_parsed, verify_api_token, parse,
}
use practice_match.Auth.Sessions.{Account}

module _ (now later : ℕ) (h purpose : String) (since : leb now later ≡ true) where
  spent :
      (table : List EmailToken)
      → All
          (λ t. consumable later h purpose t ≡ false)
          (updated (consumable now h purpose) (used now) table)
  spent [] = tt
  spent (t ∷ table) = elim (Bool-cases (consumable now h purpose t)) [
    | inl e ↦ rw e (ground arith, spent table)
    | inr e ↦ rw e (ground arith, spent table)
  ]

  updated-none :
      (table : List EmailToken)
      → All (λ t. consumable later h purpose t ≡ false) table
      → updated (consumable later h purpose) (used later) table ≡ table
  updated-none [] e = refl
  updated-none (t ∷ table) e = rw (e.0, updated-none table e.1) refl

  -- A link of an email works at most once: whatever the first use of a secret for a purpose
  -- answered, a use of it for that purpose at the same time or later answers no account and changes
  -- no row.
  pub consume-once :
      (table : List EmailToken)
      → consume_email_token later h purpose ((consume_email_token now h purpose table).0)
        ≡ ((consume_email_token now h purpose table).0, none)
  unfolding consume_email_token
  consume-once table =
      rw (keep-nil (consumable later h purpose) _ (spent table), updated-none _ (spent table)) refl

module _ (now : ℕ) (id h account : String) (accounts : List Account)
    (ended : any (λ a. str_eq a.id account && not (is_ended a)) accounts ≡ false) where
  unbacked :
      (t : ApiToken) → usable now id h accounts t ≡ true → str_eq t.created_by account ≡ false
  unbacked t e = elim (Bool-cases (str_eq t.created_by account)) [
    | inr other ↦ other
    | inl own ↦
        let backed : is_backed accounts t ≡ true = ground arith in
        let same = (eq_iff t.created_by account).0 own in
        let contrary : false ≡ true =
          sym ended
          ∙ subst (λ s. any (λ a. str_eq a.id s && not (is_ended a)) accounts ≡ true) same backed in
        absurd (cc contrary)
  ]

  found-other :
      (table : List ApiToken) (p : ApiPrincipal)
      → fetch_one (map principal_of (moved (usable now id h accounts) (touched now) table)) ≡ some p
      → str_eq p.created_by account ≡ false
  found-other [] p e = absurd (cc e)
  found-other (t ∷ table) p e = elim (Bool-cases (usable now id h accounts t)) [
    | inl b ↦
        let same : some (principal_of (touched now t)) ≡ some p = rw b at e in
        let creator = ap (λ o. elim o [ none ↦ t.created_by | some q ↦ q.created_by ]) same in
        subst (λ s. str_eq s account ≡ false) creator (unbacked t b)
    | inr b ↦ found-other table p (rw b at e)
  ]

-- Once an account is suspended or revoked (or is gone), no api token that it minted is accepted:
-- whatever is presented, the principal that is answered is another account's.
pub verify-ended :
    (uuid : String → Option String) (hash : String → String) (now : ℕ) (raw account : String)
    (accounts : List Account) (table : List ApiToken) (p : ApiPrincipal)
    → any (λ a. str_eq a.id account && not (is_ended a)) accounts ≡ false
    → (verify_api_token uuid hash now raw accounts table).1 ≡ some p
    → str_eq p.created_by account ≡ false
unfolding verify_api_token
verify-ended uuid hash now raw account accounts table p ended e = cases (parse uuid raw) e
  where
    cases :
        (parsed : Option (String × String))
        → (verify_parsed parsed hash now accounts table).1 ≡ some p
        → str_eq p.created_by account ≡ false
    cases none e = absurd (cc e)
    cases (some (id, secret)) e = found-other now id (hash secret) account accounts ended table p e
