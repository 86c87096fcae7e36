-- ===== src/Media/Sweep.antt =====
-- app/tasks/media.py: sweep, which puts what the pipeline lost back on the queue.
use practice_match.Prelude.{
  arith, ℕ, suc, String, Bool, ◌≡◌, refl, sym, ◌∙◌, ap, true, false, ◌||◌, List, [], ◌∷◌, ◌++◌, map,
  any, All, length, str_eq, eq_iff, subst, Bool-cases, inl, inr, if◌then◌else◌,
}
use practice_match.Sql.{Outcome, ok, raised, ◌>>=◌}
use practice_match.Privacy.Invariant.{IsSound}
use practice_match.Privacy.Record.{Table, Candidates, sweep_candidates, processing_version}
use practice_match.Privacy.History.{Call, apply, after}
use practice_match.Privacy.History.Safety.{Succeeds, apply-Succeeds}
use practice_match.Media.{Message, Worked}

-- A set of the ids; the queue's order is not the model's.
unfoldable pub distinct : List String → List String
distinct [] = []
distinct (x ∷ xs) = let rest = distinct xs in if any (str_eq x) rest then rest else x ∷ rest

abbrev pub named : Candidates → List String
named c = c.unstarted ++ c.retry ++ c.reprocess ++ c.flagged ++ c.lost ++ c.version

abbrev pub swept : String → Message
swept asset_id = record { asset_id = asset_id; version = processing_version; countdown = 0 }

-- `sweep`, with a connection: the state and the number of the messages.
unfoldable pub sweep : {B : Type 0} → ℕ → Worked B → Outcome (Worked B × ℕ)
unfolding distinct
sweep now s = sweep_candidates now s.table >>= λ p.
    let subjects = distinct (named p.1) in
    ok (record s { table = p.0; queue = map swept subjects ++ s.queue }, length subjects)

-- How many messages are for the photograph.
abbrev pub messages_for : String → List Message → ℕ
messages_for e [] = 0
messages_for e (m ∷ ms) =
    let rest = messages_for e ms in if str_eq e m.asset_id then suc rest else rest

distinct-any : (e : String) (xs : List String) → any (str_eq e) (distinct xs) ≡ any (str_eq e) xs
unfolding distinct
distinct-any e [] = refl
distinct-any e (x ∷ xs) = elim (Bool-cases (any (str_eq x) (distinct xs))) [
  | inl there ↦ rw there (elim (Bool-cases (str_eq e x)) [
    | inl same ↦
        let named_so : e ≡ x = (eq_iff e x).0 same in
        rw same (subst (λ z. any (str_eq z) (distinct xs) ≡ true) (sym named_so) there)
    | inr other ↦ rw other (distinct-any e xs)
  ])
  | inr new ↦ rw new (ap (λ b. str_eq e x || b) (distinct-any e xs))
]

-- Each id of the list has one message.
distinct-messages_for :
    (e : String) (xs : List String)
    → messages_for e (map swept (distinct xs)) ≡ (if any (str_eq e) xs then 1 else 0)
unfolding distinct
distinct-messages_for e [] = refl
distinct-messages_for e (x ∷ xs) = elim (Bool-cases (any (str_eq x) (distinct xs))) [
  | inl there ↦ rw there (elim (Bool-cases (str_eq e x)) [
    | inl same ↦
        let named_so : e ≡ x = (eq_iff e x).0 same in
        let listed : any (str_eq e) xs ≡ true =
          sym (distinct-any e xs)
          ∙ subst (λ z. any (str_eq z) (distinct xs) ≡ true) (sym named_so) there in
        rw same (distinct-messages_for e xs ∙ rw listed refl)
    | inr other ↦ rw other (distinct-messages_for e xs)
  ])
  | inr new ↦ rw new (elim (Bool-cases (str_eq e x)) [
    | inl same ↦
        let named_so : e ≡ x = (eq_iff e x).0 same in
        let absent : any (str_eq e) xs ≡ false =
          sym (distinct-any e xs)
          ∙ subst (λ z. any (str_eq z) (distinct xs) ≡ false) (sym named_so) new in
        rw same (ap suc (distinct-messages_for e xs ∙ rw absent refl))
    | inr other ↦ rw other (distinct-messages_for e xs)
  ])
]

candidates_answer :
    (now : ℕ) (t : Table)
    → All IsSound t
    → (t' : Table) × (c : Candidates) × (sweep_candidates now t ≡ ok (t', c)) × All IsSound t'
unfolding apply
candidates_answer now t h =
    answered (sweep_candidates now t) (apply-Succeeds now t h Call.sweeps tt)
  where
    same : {x y : Table} → ok x ≡ ok y → x ≡ y
    same e = cc e

    answered :
        (m : Outcome (Table × Candidates))
        → Succeeds (after m)
        → (t' : Table) × (c : Candidates) × (m ≡ ok (t', c)) × All IsSound t'
    answered (ok (x, c)) (y, e, sound) = (x, c, refl, subst (All IsSound) (sym (same e)) sound)
    answered (raised v) (y, e, sound) = absurd (cc e)

any-append : (f : String → Bool) (xs ys : List String) → any f (xs ++ ys) ≡ (any f xs || any f ys)
any-append f [] ys = refl
any-append f (x ∷ xs) ys = rw (any-append f xs ys) (ground arith)

-- Whether one of the sweeper's six rules found the photograph.
abbrev pub is_found : String → Candidates → Bool
is_found e c =
    any (str_eq e) c.unstarted
    || any (str_eq e) c.retry
    || any (str_eq e) c.reprocess
    || any (str_eq e) c.flagged
    || any (str_eq e) c.lost
    || any (str_eq e) c.version

named-is_found : (e : String) (c : Candidates) → any (str_eq e) (named c) ≡ is_found e c
named-is_found e c =
    rw
      (
        any-append (str_eq e) (c.unstarted ++ c.retry ++ c.reprocess ++ c.flagged ++ c.lost)
            c.version,
        any-append (str_eq e) (c.unstarted ++ c.retry ++ c.reprocess ++ c.flagged) c.lost,
        any-append (str_eq e) (c.unstarted ++ c.retry ++ c.reprocess) c.flagged,
        any-append (str_eq e) (c.unstarted ++ c.retry) c.reprocess,
        any-append (str_eq e) c.unstarted c.retry,
      )
      refl

length-map : (xs : List String) → length (map swept xs) ≡ length xs
length-map [] = refl
length-map (x ∷ xs) = ap suc (length-map xs)

-- From every table whose rows are sound the sweeper answers, without raising, leaves every row
-- sound, puts one message for each photograph that one of its six rules finds (unstarted, to retry,
-- to reprocess, flagged, lost, of an old version) and none for another, and answers how many messages
-- it put.
pub sweep-once :
    {B : Type 0} (now : ℕ) (s : Worked B)
    → All IsSound s.table
    → (s' : Worked B) × (n : ℕ) × (c : Candidates) × (put : List Message) × (sweep now s
        ≡ ok (s', n))
      × (sweep_candidates now s.table ≡ ok (s'.table, c))
      × All IsSound s'.table
      × (s'.queue ≡ put ++ s.queue)
      × (n ≡ length put)
      × ((e : String) → messages_for e put ≡ (if is_found e c then 1 else 0))
unfolding sweep
sweep-once now s h =
    let (t, c, e, sound) = candidates_answer now s.table h in
    let subjects = distinct (named c) in
    (
      record s { table = t; queue = map swept subjects ++ s.queue },
      length subjects,
      c,
      map swept subjects,
      rw e refl,
      e,
      sound,
      refl,
      sym (length-map subjects),
      λ a. rw (← named-is_found a c) (distinct-messages_for a (named c)),
    )
