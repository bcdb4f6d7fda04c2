-- ===== src/Gameday/Summaries.antt =====
-- What the summary of an exercise says of each member, and that the rows of an exercise without a
-- drill in flight or a member pending say it.
use probavi.Base.{
  ◌≡◌, ◌≢◌, sym, ◌∙◌, false, true≢false, none, some, List, [], ◌∷◌, Mem, here, there, All, All-Mem,
  Bytes,
}
use probavi.Config.Gameday.Cycle.{Member}
use probavi.Config.Gameday.Order.{names, Known}
use probavi.Gameday.{
  Row, Outcomes, DrillSummary, MemberResult, results, outcome_skipped, outcome_pass,
  cancelled_reason, dependency_reason,
}
use probavi.Gameday.Rows.{
  RowOk, waiting, in_flight, ran, skipped, cancelled, blocked, members_of, Named,
}
use probavi.Gameday.Ends.{row_named}

-- The summary has the outcome o for the name d.
pub record Reported (all : List MemberResult) (d o : Bytes) : Type 0 where
  pub result : MemberResult
  pub listed : Mem result all
  pub of_name : result.name ≡ d
  pub of_outcome : result.outcome ≡ o

pub data Verdict (all : List MemberResult) (m : Member) (x : MemberResult) : Type 0 where
  drilled :
      (d : DrillSummary)
      → x.drill ≡ some d
      → x.outcome ≡ d.outcome
      → ((dep : Bytes) → Mem dep m.depends_on → Reported all dep outcome_pass)
      → Verdict all m x
  called_off :
      x.drill ≡ none
      → x.outcome ≡ outcome_skipped
      → x.skip_reason ≡ cancelled_reason
      → Verdict all m x
  held_back :
      (dep o : Bytes)
      → x.drill ≡ none
      → x.outcome ≡ outcome_skipped
      → x.skip_reason ≡ dependency_reason dep o
      → Mem dep m.depends_on
      → Reported all dep o
      → o ≢ outcome_pass
      → Verdict all m x

-- One result for each member, in the order of the file.
abbrev pub Accounts : List MemberResult → List Member → List MemberResult → Type 0
Accounts all [] [] = Unit
Accounts all (m ∷ ms) (x ∷ xs) = (x.name ≡ m.name) × Verdict all m x × Accounts all ms xs
Accounts all _ _ = ⊥

listed : (r : Row) (rs : List Row) → Mem r rs → Mem r.result (results rs)
listed r [] m = elim m [ ]
listed r (x ∷ rs) here = here
listed r (x ∷ rs) (there m) = there (listed r rs m)

outcome-of :
    (oc : Outcomes) (r : Row) (o : Bytes)
    → RowOk oc r
    → oc r.member.name ≡ some o
    → r.result.outcome ≡ o
outcome-of oc r o (waiting p f e d) h = let x = sym e ∙ h in cc
outcome-of oc r o (in_flight p f e d k) h = let x = sym e ∙ h in cc
outcome-of oc r o (ran d p f e q w k) h = let x = sym e ∙ h in cc
outcome-of oc r o (skipped p f e d w k) h = let x = sym e ∙ h in cc

module _ (oc : Outcomes) (rs : List Row) (k : All (RowOk oc) rs) (n : All Named rs)
    (known : Known (members_of rs)) where
  reported :
      (d o : Bytes) → Mem d (names (members_of rs)) → oc d ≡ some o → Reported (results rs) d o
  reported d o m e =
      let (x, j, same) = row_named d rs m in
      record {
        result = x.result;
        listed = listed x rs j;
        of_name = All-Mem Named rs n j ∙ same;
        of_outcome = outcome-of oc x o (All-Mem (RowOk oc) rs k j) (rw same e);
      }

  verdict :
      (r : Row)
      → ((d : Bytes) → Mem d r.member.depends_on → Mem d (names (members_of rs)))
      → r.pending ≡ false
      → r.flying ≡ false
      → RowOk oc r
      → Verdict (results rs) r.member r.result
  verdict r own g h (waiting p f e d) = absurd (true≢false (sym p ∙ g))
  verdict r own g h (in_flight p f e d i) = absurd (true≢false (sym f ∙ h))
  verdict r own g h (ran d p f e q w i) =
      drilled d q w (λ dep m. reported dep outcome_pass (own dep m) (i dep m))
  verdict r own g h (skipped p f e d w (cancelled q)) = called_off d w q
  verdict r own g h (skipped p f e d w (blocked x o m i ne q)) =
      held_back x o d w q m (reported x o (own x m) i) ne

  accounts :
      (us : List Row)
      → All (RowOk oc) us
      → All Named us
      → ((m : Member)
          → Mem m (members_of us)
          → (d : Bytes) → Mem d m.depends_on
          → Mem d (names (members_of rs)))
      → ((r : Row) → Mem r us → (r.pending ≡ false) × (r.flying ≡ false))
      → Accounts (results rs) (members_of us) (results us)
  accounts [] a b own idle = tt
  accounts (u ∷ us) a b own idle = (
    b.0,
    verdict u (own u.member here) (idle u here).0 (idle u here).1 a.0,
    accounts us a.1 b.1 (λ m j. own m (there j)) (λ r j. idle r (there j)),
  )

  pub rows-Accounts :
      ((r : Row) → Mem r rs → (r.pending ≡ false) × (r.flying ≡ false))
      → Accounts (results rs) (members_of rs) (results rs)
  rows-Accounts idle = accounts rs k n known idle
