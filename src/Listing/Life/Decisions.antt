-- ===== src/Listing/Life/Decisions.antt =====
-- decide_listing raises nothing, and leaves a lawful step behind.
use practice_match.Prelude.{
  ℕ, String, ◌≡◌, refl, sym, Bool, true, false, not, ◌&&◌, ◌||◌, Option, none, some, [], Bool-cases,
  Option-cases, inl, inr, ◌⊎◌, is_some, arith, if◌then◌else◌,
}
use practice_match.Listing.Row.{Listing, Status, published, withdrawn, status_eq, among}
use practice_match.Listing.Refusal.{Run, gives, refuses, Holds, chained-Holds, wrong_state}
use practice_match.Listing.Store.{Db, update_listing, blocked}
use practice_match.Listing.Handler.{World, Effects, refuse_if, reenters_review}
use practice_match.Listing.Invariant.{IsSound, IsSoundDb}
use practice_match.Listing.Life.Lawful.{publishes, content, Changes, Good}
use practice_match.Listing.Life.Leaves.{Leaves}
use practice_match.Listing.Life.Found.{
  published_if-Holds, At, found-Holds, locked-At, refuse_if-Holds,
}
use practice_match.Listing.Row.{listing_submittable_ck}
use practice_match.Listing.Refusal.{
  bad_action, weaker-Holds, fields_required, bad_field as bad_field_refusal, note_required,
}
use practice_match.Listing.Text.{strip, is_blank}
use practice_match.Listing.Store.{not_ready, enqueue, log, Mail}
use practice_match.Listing.Handler.{refuse_unready_photographs, moved_to, published_if, no_effects}
use practice_match.Listing.Invariant.Rows.{reaches-IsSound, first_published-IsSound}
use practice_match.Listing.Life.{decides}
use practice_match.Listing.Store.{decided}
use practice_match.Listing.Life.Moves.{gate-Holds}
use practice_match.Listing.Decide.{
  Decision, Verdict, publish, decline, unpublish, decidable_from, reaches, first_published,
  bad_fields, slug_for, decide_row, decide_verdict, decide_checked, found as found_row, is_publish,
  is_decline, named, letter, mailed, template,
}

to_market : (v : Verdict) → status_eq (reaches v) published ≡ true → is_publish v ≡ true
to_market publish e = refl
to_market decline e = absurd (cc e)
to_market unpublish e = absurd (cc e)

legal_living :
    (v : Verdict) (s : Status)
    → not (among (decidable_from v) s) ≡ false
    → status_eq s withdrawn ≡ false
legal_living publish s e = ground (arith, e)
legal_living decline s e = ground (arith, e)
legal_living unpublish s e = ground (arith, e)

legal_reviewed :
    (v : Verdict) (s : Status)
    → not (among (decidable_from v) s) ≡ false
    → among reenters_review (reaches v) ≡ true
    → (among reenters_review s ≡ true) ⊎ (is_publish v ≡ true)
legal_reviewed publish s e f = inr refl
legal_reviewed decline s e f = absurd (cc f)
legal_reviewed unpublish s e f = inl (ground (arith, e))

is_publish-publishes :
    (id : String) (body : Decision) (v : Verdict)
    → body.action ≡ some v
    → is_publish v ≡ true
    → publishes (decides id body) ≡ true
is_publish-publishes id body publish e f = rw e refl
is_publish-publishes id body decline e f = absurd (cc f)
is_publish-publishes id body unpublish e f = absurd (cc f)

-- A row past the draft has a name.
name_of :
    (v : Verdict) (r : Listing)
    → IsSound r
    → not (among (decidable_from v) r.status) ≡ false
    → is_some r.name ≡ true
unfolding listing_submittable_ck
name_of publish r h e = ground (arith, e, h.submittable)
name_of decline r h e = ground (arith, e, h.submittable)
name_of unpublish r h e = ground (arith, e, h.submittable)

named-Holds : (o : Option String) → is_some o ≡ true → Holds (λ name. Unit {0}) (named o)
named-Holds none e = absurd (cc e)
named-Holds (some name) e = tt

module _ (world : World) (now : ℕ) (id : String) (db : Db) (h : IsSoundDb db) where
  found_row-Holds : Holds (λ r. db.listing id ≡ some r) (found_row (db.listing id))
  found_row-Holds = elim (Option-cases (db.listing id)) [ inl e ↦ rw e tt | inr (r, e) ↦ rw e refl ]

  module _ (v : Verdict) (body : Decision) (named_so : body.action ≡ some v) (r : Listing)
      (at : At id (λ x. x ≡ r) db db) (sound : IsSound r)
      (legal : not (among (decidable_from v) r.status) ≡ false)
      (sized : (is_publish v && not (is_some r.sqft)) ≡ false)
      (ready : is_publish v ≡ true → not_ready db.privacy r ≡ []) where
    decided_Changes :
        (r' : Listing)
        → r'.status ≡ reaches v
        → content r' ≡ content r
        → Changes (decides id body) db.privacy r r'
    decided_Changes r' s same = record {
      gated = λ e. inr (ready (to_market v (rw s at e)));
      unaltered = λ e. same;
      reviewed = λ e. elim (legal_reviewed v r.status legal (rw s at e)) [
        | inl f ↦ inl f
        | inr f ↦ inr (is_publish-publishes id body v named_so f)
      ];
      living = legal_living v r.status legal;
      allowed = refl;
    }

    free :
        (r' : Listing)
        → r'.status ≡ reaches v
        → not_ready db.privacy r' ≡ not_ready db.privacy r
        → blocked db.privacy r r' ≡ false
    unfolding blocked
    free r' s same = elim (Bool-cases (status_eq (reaches v) published)) [
      | inl e ↦ let none_left = ready (to_market v e) in rw (s, e, same, none_left) (ground arith)
      | inr e ↦ rw (s, e) (ground arith)
    ]

    decide_row-Holds :
        (opens : Bool) (state market : String)
        → opens ≡ (is_publish v && not (is_some r.state))
        → Holds
            (At id (Good (decides id body) db.privacy r) db)
            (decide_row world now id v opens r state market db)
    unfolding decide_row not_ready
    decide_row-Holds false state market e =
        let placed : status_eq (reaches v) published ≡ true
            → (is_some r.state && is_some r.sqft) ≡ true =
          λ m. let p = to_market v m in ground (arith, p, e, sized) in
        let good : Good (decides id body) db.privacy r (moved_to now (reaches v) r) = record {
          sound = reaches-IsSound now r sound v (ground (arith, legal)) placed;
          changed = decided_Changes _ refl refl;
        } in
        found-Holds id db db r _ (λ x. true) (moved_to now (reaches v)) at refl (free _ refl refl)
          good.sound good
    decide_row-Holds true state market e =
        chained-Holds _ (At id (Good (decides id body) db.privacy r) db) (named r.name) _
          (named-Holds r.name (name_of v r sound legal)) (λ name x. opening v refl name)
      where
        nameless : false ≡ true → ⊥
        nameless e = cc e

        opening :
            (w : Verdict)
            → v ≡ w
            → (name : String)
            → Holds (At id (Good (decides id body) db.privacy r) db) (
                update_listing id
                  (λ x. true)
                  (first_published now state market (slug_for world.unicode name id))
                  db)
        opening publish e' name =
            let sized' = rw e' at sized in
            let legal' = rw e' at legal in
            let good : Good (decides id body) db.privacy r
                (first_published now state market (slug_for world.unicode name id) r) =
              record {
                sound =
                    first_published-IsSound now r sound state market _ (ground (arith, legal'))
                      (ground (arith, sized'));
                changed = decided_Changes _ (rw e' refl) refl;
              } in
            found-Holds id db db r _ (λ x. true) _ at refl (free _ (rw e' refl) refl) good.sound
              good
        opening decline e' name = absurd (nameless (sym (rw e' at e)))
        opening unpublish e' name = absurd (nameless (sym (rw e' at e)))

  mailed-At :
      (P : Listing → Type 0) (m : Option Mail) (db' : Db)
      → At id P db db'
      → At id P db (mailed m db')
  unfolding enqueue
  mailed-At P none db' at = at
  mailed-At P (some m) db' at = at

  decide_verdict-Holds :
      (v : Verdict) (body : Decision)
      → body.action ≡ some v
      → Holds (Leaves id db (decides id body)) (decide_verdict world now id v body db)
  unfolding decide_verdict
  decide_verdict-Holds v body named_so =
      let q = decides id body in
      let P = Leaves id db q in
      let state = strip world.unicode body.state in
      let market = strip world.unicode body.market in
      chained-Holds (λ x. Unit {0}) P
        (refuse_if (is_decline v && is_blank (strip world.unicode body.reason)) note_required) _
        (weaker-Holds _ _
          (refuse_if (is_decline v && is_blank (strip world.unicode body.reason)) note_required)
          (λ x e. tt)
          (refuse_if-Holds (is_decline v && is_blank (strip world.unicode body.reason))
            note_required))
        (λ x y. chained-Holds _ P (found_row (db.listing id)) _ found_row-Holds (λ r e.
          let (sound, at) = locked-At id db r h e in
          let opens = is_publish v && not (is_some r.state) in
          chained-Holds _ P (refuse_if (not (among (decidable_from v) r.status)) wrong_state) _
            (refuse_if-Holds (not (among (decidable_from v) r.status)) wrong_state)
            (λ x legal.
              chained-Holds _ P (refuse_if (is_publish v && not (is_some r.sqft)) fields_required) _
                (refuse_if-Holds (is_publish v && not (is_some r.sqft)) fields_required)
                (λ x sized.
                  chained-Holds _ P
                    (refuse_if (opens && (is_blank state || is_blank market)) fields_required) _
                    (refuse_if-Holds (opens && (is_blank state || is_blank market)) fields_required)
                    (λ x filled.
                      chained-Holds _ P
                        (refuse_if (opens && bad_fields state market) bad_field_refusal) _
                        (refuse_if-Holds (opens && bad_fields state market) bad_field_refusal)
                        (λ x formed.
                          chained-Holds _ P
                            (if is_publish v then refuse_unready_photographs r db else gives tt) _
                            (gate-Holds db (is_publish v) r)
                            (λ x ready.
                              chained-Holds _ P (decide_row world now id v opens r state market db)
                                _
                                (decide_row-Holds v body named_so r at sound legal sized ready opens
                                  state market refl)
                                (λ wrote at'.
                                  chained-Holds (At id (Good q db.privacy r) db) P
                                    (published_if (is_publish v) now id wrote)
                                    (λ marked. gives (
                                      log (decided id r.status (reaches v) body.reason) (
                                          mailed
                                            (letter world id v body.reason r.seller_id
                                              (template v r.status))
                                            marked),
                                      record no_effects {
                                        geocodes = is_publish v && not (db.located id);
                                      },
                                    ))
                                    (published_if-Holds id db (Good q db.privacy r) (is_publish v)
                                      now wrote at')
                                    (λ marked at''.
                                      (r, e, mailed-At (Good q db.privacy r) _ marked at''))))))))))

  pub decide_checked-Holds :
      (body : Decision)
      → Holds (Leaves id db (decides id body)) (decide_checked world now id body db)
  decide_checked-Holds body = of_action body.action refl
    where
      of_action :
          (a : Option Verdict)
          → body.action ≡ a
          → Holds (Leaves id db (decides id body)) (elim a as (λ x. Run (Db × Effects)) [
            | none ↦ refuses bad_action
            | some v ↦ decide_verdict world now id v body db
          ])
      of_action none e = tt
      of_action (some v) e = decide_verdict-Holds v body e
