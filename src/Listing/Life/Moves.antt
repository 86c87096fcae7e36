-- ===== src/Listing/Life/Moves.antt =====
-- submit_listing, set_status and decide_listing, the handlers that move a listing: they raise
-- nothing, and leave a lawful step behind.
use practice_match.Prelude.{
  ℕ, String, ◌≡◌, refl, sym, ◌∙◌, Bool, true, false, not, ◌&&◌, Option, none, some, [], Bool-cases,
  inl, inr, is_some, arith, if◌then◌else◌,
}
use practice_match.Listing.Row.{Listing, Status, in_review, published, withdrawn, status_eq, among}
use practice_match.Listing.Refusal.{gives, Holds, chained-Holds, if-Holds, wrong_state}
use practice_match.Listing.Store.{
  Db, update_listing, claim_from_seed, owned_by, locked_row, blocked,
}
use practice_match.Listing.Handler.{World, refuse_if, reenters_review}
use practice_match.Listing.Invariant.{IsSound, IsSoundDb}
use practice_match.Listing.Life.Lawful.{Good, quiet-Changes}
use practice_match.Listing.Life.Leaves.{Leaves, claimed-Holds}
use practice_match.Listing.Life.Found.{
  refuse_unready_photographs-Holds, published_if-Holds, At, found-Holds, blocked-off, locked-At,
  refuse_if-Holds, locked_row-Holds,
}
use practice_match.Listing.Refusal.{weaker-Holds}
use practice_match.Listing.Store.{submitted, not_ready, enqueue, log}
use practice_match.Listing.Handler.{refuse_unready_photographs, moved_to, published_if, no_effects}
use practice_match.Listing.Transitions.{
  submission, complete_enough, submittable_from, submit_listing, Action, pause, republish, withdraw,
  allowed_from, after, set_status, receipt, stamp, recorded, is_republish,
}
use practice_match.Listing.Invariant.Rows.{submission-IsSound, moved_to-IsSound}
use practice_match.Listing.Life.{submits, sets_status}

complete_enough-Holds :
    (r : Listing) → Holds (λ x. complete_enough r ≡ gives tt) (complete_enough r)
unfolding complete_enough
complete_enough-Holds r =
    elim (Bool-cases (
      not (
        is_some r.name
        && is_some r.est
        && is_some r.type
        && is_some r.city
        && is_some r.zip
        && is_some r.price))) [
          | inl e ↦ rw e tt
          | inr e ↦ rw e (elim (Bool-cases (not (is_some r.rev) && r.rev_disclosed)) [
            | inl e ↦ rw e tt
            | inr e ↦
                rw e
                  (elim (Bool-cases (not (is_some r.sqft))) [ inl e ↦ rw e tt | inr e ↦ rw e refl ])
          ])
        ]

pub gate-Holds :
    (db : Db) (b : Bool) (r : Listing)
    → Holds
        (λ x. b ≡ true → not_ready db.privacy r ≡ [])
        (if b then refuse_unready_photographs r db else gives tt)
gate-Holds db b r =
    if-Holds _ b _ _
      (λ e.
        weaker-Holds _ _ (refuse_unready_photographs r db) (λ x ready e'. ready)
          (refuse_unready_photographs-Holds r db))
      (λ e e'. absurd (clash (sym e' ∙ e)))
  where
    clash : true ≡ false → ⊥
    clash e = cc e

module _ (world : World) (now : ℕ) (id account : String) (db : Db) (h : IsSoundDb db) where
  pub submit_listing-Holds :
      Holds (Leaves id db (submits id account)) (submit_listing world now id account db)
  unfolding submit_listing enqueue
  submit_listing-Holds =
      let q = submits id account in
      let P = Leaves id db q in
      chained-Holds _ P (locked_row id account db) _ (locked_row-Holds id account db) (λ r found.
        let (sound, at) = locked-At id db r h found.0 in
        let keeps = status_eq r.status in_review in
        chained-Holds _ P (refuse_if (not (among submittable_from r.status)) wrong_state) _
          (refuse_if-Holds (not (among submittable_from r.status)) wrong_state)
          (λ x legal.
            chained-Holds _ P (complete_enough r) _ (complete_enough-Holds r) (λ x complete.
              chained-Holds _ P (refuse_unready_photographs r db) _
                (refuse_unready_photographs-Holds r db)
                (λ x ready.
                  let good : Good q db.privacy r (submission now keeps r) = record {
                    sound = submission-IsSound now r sound keeps complete;
                    changed = quiet-Changes q db.privacy r _ refl (ground (arith, legal)) found.1;
                  } in
                  chained-Holds _ P (update_listing id (owned_by account) (submission now keeps) db)
                    _
                    (found-Holds id db db r (Good q db.privacy r) (owned_by account)
                      (submission now keeps) at found.1 (blocked-off db.privacy r _ refl) good.sound
                      good)
                    (λ wrote at'.
                      let mail =
                        receipt id (world.email account) (stamp now keeps r.submitted_at) in
                      chained-Holds (At id (Good q db.privacy r) db) P
                        (claim_from_seed id account (enqueue mail wrote))
                        (λ claimed.
                          gives (log (submitted id r.status in_review) claimed, no_effects))
                        (claimed-Holds now id account db q r (enqueue mail wrote) at')
                        (λ claimed at''. (r, found.0, at'')))))))

  legal_living :
      (a : Action) (s : Status)
      → not (among (allowed_from a) s) ≡ false
      → status_eq s withdrawn ≡ false
  legal_living pause s e = ground (arith, e)
  legal_living republish s e = ground (arith, e)
  legal_living withdraw s e = ground (arith, e)

  legal_reviewed :
      (a : Action) (s : Status)
      → not (among (allowed_from a) s) ≡ false
      → among reenters_review (after a) ≡ true
      → among reenters_review s ≡ true
  legal_reviewed pause s e f = ground (arith, e)
  legal_reviewed republish s e f = ground (arith, e)
  legal_reviewed withdraw s e f = absurd (cc f)

  module _ (a : Action) (r : Listing) (sound : IsSound r) (mine : owned_by account r ≡ true)
      (legal : not (among (allowed_from a) r.status) ≡ false)
      (ready : status_eq (after a) published ≡ true → not_ready db.privacy r ≡ []) where
    moved-Good : Good (sets_status id account (some a)) db.privacy r (moved_to now (after a) r)
    moved-Good = record {
      sound = moved_to-IsSound now r sound a (ground (arith, legal));
      changed = record {
        gated = λ e. inr (ready e);
        unaltered = λ e. refl;
        reviewed = λ e. inl (legal_reviewed a r.status legal e);
        living = legal_living a r.status legal;
        allowed = mine;
      };
    }

  -- The trigger lets a ready listing through.
  ready_free :
      (s : Status) (r : Listing)
      → (status_eq s published ≡ true → not_ready db.privacy r ≡ [])
      → blocked db.privacy r (moved_to now s r) ≡ false
  unfolding blocked not_ready
  ready_free s r ready = elim (Bool-cases (status_eq s published)) [
    | inl e ↦ let none_left = ready e in rw (e, none_left) (ended (status_eq r.status published))
    | inr e ↦ rw e (ended' (status_eq r.status published) _)
  ]
    where
      ended : (a : Bool) → (not a && true && not true) ≡ false
      ended true = refl
      ended false = refl

      ended' : (a b : Bool) → (not a && false && b) ≡ false
      ended' true b = refl
      ended' false b = refl

  pub set_status-Holds :
      (action : Option Action)
      → Holds
          (Leaves id db (sets_status id account action))
          (set_status world now id account action db)
  unfolding set_status
  set_status-Holds none = tt
  set_status-Holds (some a) =
      let q = sets_status id account (some a) in
      let P = Leaves id db q in
      chained-Holds _ P (locked_row id account db) _ (locked_row-Holds id account db) (λ r found.
        let (sound, at) = locked-At id db r h found.0 in
        chained-Holds _ P (refuse_if (not (among (allowed_from a) r.status)) wrong_state) _
          (refuse_if-Holds (not (among (allowed_from a) r.status)) wrong_state)
          (λ x legal.
            chained-Holds _ P
              (if status_eq (after a) published then refuse_unready_photographs r db else gives tt)
              _ (gate-Holds db (status_eq (after a) published) r)
              (λ x ready.
                let good = moved-Good a r sound found.1 legal ready in
                chained-Holds _ P (update_listing id (owned_by account) (moved_to now (after a)) db)
                  _
                  (found-Holds id db db r (Good q db.privacy r) (owned_by account)
                    (moved_to now (after a)) at found.1 (ready_free (after a) r ready) good.sound
                    good)
                  (λ wrote at'.
                    chained-Holds _ P (published_if (status_eq (after a) published) now id wrote) _
                      (published_if-Holds id db (Good q db.privacy r)
                        (status_eq (after a) published) now wrote at')
                      (λ marked at''.
                        chained-Holds (At id (Good q db.privacy r) db) P
                          (claim_from_seed id account marked)
                          (λ claimed. gives (
                            log (recorded a id r.status (after a)) claimed,
                            record no_effects { geocodes = is_republish a && not (db.located id) },
                          ))
                          (claimed-Holds now id account db q r marked at'')
                          (λ claimed at3. (r, found.0, at3)))))))
