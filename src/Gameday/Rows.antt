-- ===== src/Gameday/Rows.antt =====
-- What the rows of an exercise are between two steps, and how a loop over them keeps it.
use probavi.Base.{
  ◌≡◌, ◌≢◌, refl, sym, ap, ◌∙◌, true, false, none, some, List, [], ◌∷◌, Mem, here, there, Distinct,
  All, Bytes,
}
use probavi.Config.Gameday.Cycle.{Member}
use probavi.Config.Gameday.Order.{names}
use probavi.Gameday.{
  Row, Outcomes, DrillSummary, sweep, outcome_skipped, outcome_pass, cancelled_reason,
  dependency_reason,
}

abbrev pub members_of : List Row → List Member
members_of [] = []
members_of (r ∷ rs) = r.member ∷ members_of rs

abbrev pub Passed : List Bytes → Outcomes → Type 0
Passed deps oc = (d : Bytes) → Mem d deps → oc d ≡ some outcome_pass

-- Why a member was skipped: a dependency that did not pass, or the end of the whole exercise.
pub data Excused (oc : Outcomes) (r : Row) : Type 0 where
  cancelled : r.result.skip_reason ≡ cancelled_reason → Excused oc r
  blocked :
      (d o : Bytes)
      → Mem d r.member.depends_on
      → oc d ≡ some o
      → o ≢ outcome_pass
      → r.result.skip_reason ≡ dependency_reason d o
      → Excused oc r

-- A row waits, is in flight, was run, or was skipped.
pub data RowOk (oc : Outcomes) (r : Row) : Type 0 where
  waiting :
      r.pending ≡ true
      → r.flying ≡ false
      → oc r.member.name ≡ none
      → r.result.drill ≡ none
      → RowOk oc r
  in_flight :
      r.pending ≡ false
      → r.flying ≡ true
      → oc r.member.name ≡ none
      → r.result.drill ≡ none
      → Passed r.member.depends_on oc
      → RowOk oc r
  ran :
      (d : DrillSummary)
      → r.pending ≡ false
      → r.flying ≡ false
      → oc r.member.name ≡ some d.outcome
      → r.result.drill ≡ some d
      → r.result.outcome ≡ d.outcome
      → Passed r.member.depends_on oc
      → RowOk oc r
  skipped :
      r.pending ≡ false
      → r.flying ≡ false
      → oc r.member.name ≡ some outcome_skipped
      → r.result.drill ≡ none
      → r.result.outcome ≡ outcome_skipped
      → Excused oc r
      → RowOk oc r

-- No outcome is taken back.
abbrev pub Later : Outcomes → Outcomes → Type 0
Later oc oc' = (x o : Bytes) → oc x ≡ some o → oc' x ≡ some o

Excused-Later : {oc oc' : Outcomes} (r : Row) → Later oc oc' → Excused oc r → Excused oc' r
Excused-Later r l (cancelled e) = cancelled e
Excused-Later r l (blocked d o m e n w) = blocked d o m (l d o e) n w

pub RowOk-Later :
    {oc oc' : Outcomes} (r : Row)
    → Later oc oc'
    → oc' r.member.name ≡ oc r.member.name
    → RowOk oc r
    → RowOk oc' r
RowOk-Later r l s (waiting p f e d) = waiting p f (s ∙ e) d
RowOk-Later r l s (in_flight p f e d k) = in_flight p f (s ∙ e) d (λ x m. l x outcome_pass (k x m))
RowOk-Later r l s (ran d p f e q w k) = ran d p f (s ∙ e) q w (λ x m. l x outcome_pass (k x m))
RowOk-Later r l s (skipped p f e d w k) = skipped p f (s ∙ e) d w (Excused-Later r l k)

-- What one turn of a loop does to its row and to the outcomes.
pub record Step (oc oc' : Outcomes) (r r' : Row) : Type 0 where
  pub same_member : r'.member ≡ r.member
  pub same_name : r'.result.name ≡ r.result.name
  pub later : Later oc oc'
  pub apart : (x : Bytes) → r.member.name ≢ x → oc' x ≡ oc x
  pub kept : RowOk oc' r'

pub stay : (oc : Outcomes) (r : Row) → RowOk oc r → Step oc oc r r
stay oc r k = record {
  same_member = refl;
  same_name = refl;
  later = λ x o e. e;
  apart = λ x n. refl;
  kept = k;
}

abbrev pub Named : Row → Type 0
Named r = r.result.name ≡ r.member.name

pub record Swept (oc oc' : Outcomes) (rs rs' : List Row) : Type 0 where
  pub same_members : members_of rs' ≡ members_of rs
  pub later : Later oc oc'
  pub apart : (x : Bytes) → ¬ Mem x (names (members_of rs)) → oc' x ≡ oc x
  pub kept : All (RowOk oc') rs'
  pub named : All Named rs'

pub rows-Later :
    {oc oc' : Outcomes} (rs : List Row)
    → Later oc oc'
    → ((x : Bytes) → Mem x (names (members_of rs)) → oc' x ≡ oc x)
    → All (RowOk oc) rs
    → All (RowOk oc') rs
rows-Later [] l s k = tt
rows-Later (r ∷ rs) l s k =
    (RowOk-Later r l (s r.member.name here) k.0, rows-Later rs l (λ x m. s x (there m)) k.1)

-- The head of a loop and its rest.
pub Swept-cons :
    (oc mid end : Outcomes) (r r' : Row) (rs rs' : List Row)
    → ¬ Mem r.member.name (names (members_of rs))
    → Named r
    → Step oc mid r r'
    → Swept mid end rs rs'
    → Swept oc end (r ∷ rs) (r' ∷ rs')
Swept-cons oc mid end r r' rs rs' fresh named s w = record {
  same_members = rw (s.same_member, w.same_members) refl;
  later = λ x o e. w.later x o (s.later x o e);
  apart = λ x n. w.apart x (λ m. n (there m)) ∙ s.apart x (λ e. n (rw (← e) here));
  kept = (RowOk-Later r' w.later (rw s.same_member (w.apart r.member.name fresh)) s.kept, w.kept);
  named = (s.same_name ∙ named ∙ sym (ap (λ m. m.name) s.same_member), w.named);
}

-- A loop whose body takes steps keeps the rows well.
pub sweep-Swept :
    {S : Type 0} (out : S → Outcomes) (body : S → Row → S × Row)
    → ((s : S) (r : Row) → RowOk (out s) r → Step (out s) (out (body s r).0) r (body s r).1)
    → (s : S) (rs : List Row) → Distinct (names (members_of rs))
    → All (RowOk (out s)) rs
    → All Named rs
    → Swept (out s) (out (sweep body s rs).0) rs (sweep body s rs).1
unfolding sweep
sweep-Swept out body h s [] d k n = record {
  same_members = refl;
  later = λ x o e. e;
  apart = λ x m. refl;
  kept = tt;
  named = tt;
}
sweep-Swept out body h s (r ∷ rs) d k n =
    let t = h s r k.0 in
    Swept-cons (out s) (out (body s r).0) _ r (body s r).1 rs _ d.0 n.0 t (
      sweep-Swept out body h (body s r).0 rs d.1
        (rows-Later rs t.later (λ x m. t.apart x (λ e. d.0 (rw e m))) k.1) n.1)

pub Swept-trans :
    (oc mid end : Outcomes) (rs us vs : List Row)
    → Swept oc mid rs us
    → Swept mid end us vs
    → Swept oc end rs vs
Swept-trans oc mid end rs us vs v w = record {
  same_members = w.same_members ∙ v.same_members;
  later = λ x o e. w.later x o (v.later x o e);
  apart = λ x n. w.apart x (rw v.same_members n) ∙ v.apart x n;
  kept = w.kept;
  named = w.named;
}

pub Swept-refl :
    (oc : Outcomes) (rs : List Row) → All (RowOk oc) rs → All Named rs → Swept oc oc rs rs
Swept-refl oc rs k n = record {
  same_members = refl;
  later = λ x o e. e;
  apart = λ x m. refl;
  kept = k;
  named = n;
}
