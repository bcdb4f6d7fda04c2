-- ===== src/Config/Gameday/Cycle/Verdict.antt =====
-- `cycleMembers` answers with no name exactly if there is an order of the members.
use probavi.Base.{
  ℕ, ◌+◌, ◌≡◌, refl, subst, ◌∙◌, inl, inr, Bool, true, false, List, [], ◌∷◌, append-nil,
  if◌then◌else◌, ◌==◌, ==_iff, length, Bool-cases, Mem, here, there, Mem-left, Mem-cons, Distinct,
  Within, Distinct-left, Within-fills, Mem-contains, Bytes, arith,
}
use probavi.Base.Int.{ℤ, pos}
use probavi.Config.Gameday.Order.{names, IsOrder, Known, Schedule}
use probavi.Config.Gameday.Cycle.Edges.{edges, waiting, count, waiting_none, edges-cases}
use probavi.Config.Gameday.Cycle.{Member, stuck, search, cycle_members, is_above_zero}
use probavi.Config.Gameday.Cycle.Pop.{count_nil}
use probavi.Config.Gameday.Cycle.Answer.{Found, search-Found, length-names}

above : (n : ℕ) → is_above_zero (pos n) ≡ false → n ≡ 0
above n h = ground arith

not_above : (n : ℕ) → n ≡ 0 → is_above_zero (pos n) ≡ false
not_above n h = ground arith

not_kept :
    (b : Bool) (y : Bytes) (l : List Bytes) → (if b then y ∷ l else l) ≡ [] → (b ≡ false) × (l ≡ [])
not_kept true y l h = cc
not_kept false y l h = (refl, h)

stuck-none :
    (f : Bytes → ℤ) (ms : List Member) (x : Bytes)
    → stuck f ms ≡ []
    → Mem x (names ms)
    → is_above_zero (f x) ≡ false
unfolding stuck
stuck-none f [] x h m = elim m [ ]
stuck-none f (n ∷ ms) x h m =
    let (g, t) = not_kept (is_above_zero (f n.name)) n.name (stuck f ms) h in
    elim (Mem-cons m) [ inl e ↦ rw e g | inr k ↦ stuck-none f ms x t k ]

none-stuck :
    (f : Bytes → ℤ) (ms : List Member)
    → ((x : Bytes) → Mem x (names ms) → is_above_zero (f x) ≡ false)
    → stuck f ms ≡ []
unfolding stuck
none-stuck f [] h = refl
none-stuck f (n ∷ ms) h = rw (h n.name here) (none-stuck f ms (λ x m. h x (there m)))

module _ (ms : List Member) (r : List Bytes) (f : Found ms r (search ms))
    (done : (search ms).queue ≡ []) where
  removed_of : (x : Bytes) → Mem x (names ms) → waiting r (edges ms) x ≡ 0 → Mem x r
  removed_of x m z = rw (← append-nil r, ← done) (f.inv.zero_in x m (omega (arith, z, count_nil x)))

  -- A name with its dependencies in an order is removed.
  order-Within :
      (ns : List Bytes)
      → Known ms
      → IsOrder ms ns
      → (x : Bytes) → Mem x ns
      → Mem x (names ms)
      → Mem x r
  order-Within [] k o x m i = elim m [ ]
  order-Within (n ∷ ns) k o x m i = elim (Mem-cons m) [
    | inr l ↦ order-Within ns k o.1 x l i
    | inl e ↦ removed_of x i (
        waiting_none r (edges ms) x λ d l.
          let (member, j, same, dep) = edges-cases ms x d l in
          Mem-contains r d
            (order-Within ns k o.1 d (o.0 member j (same ∙ e) d dep) (k member j d dep)))
  ]

  complete-stuck : Within (names ms) r → stuck (search ms).indegree ms ≡ []
  complete-stuck w = none-stuck (search ms).indegree ms λ x m. rw (f.inv.degrees x) (
      not_above (waiting r (edges ms) x + count x [])
        (f.inv.ready x (Mem-left (search ms).queue (w x m))))

  stuck_complete : stuck (search ms).indegree ms ≡ [] → Within (names ms) r
  stuck_complete e x m = removed_of x m (
      omega (
        arith,
        count_nil x,
        above (waiting r (edges ms) x + count x []) (
            subst (λ i. is_above_zero i ≡ false) (f.inv.degrees x)
              (stuck-none (search ms).indegree ms x e m)),
      ))

second : {b : Bool} {l : List Bytes} → b ≡ false → (if b then [] else l) ≡ [] → l ≡ []
second {b = true} g e = cc
second {b = false} g e = e

-- Without a stuck member every name was removed.
pub cycle_members-Schedule :
    (ms : List Member) → Distinct (names ms) → cycle_members ms ≡ [] → Schedule ms
unfolding cycle_members
cycle_members-Schedule ms d e =
    let (r, f, done) = search-Found ms d in
    record {
      order = r;
      ordered = f.ordered;
      complete = elim (Bool-cases ((search ms).removed == length ms)) [
        | inl t ↦
            Within-fills r (names ms) (Distinct-left r (search ms).queue f.inv.distinct)
              (λ x m. f.inv.inside x (Mem-left (search ms).queue m))
              (omega (
                arith,
                length-names ms,
                f.inv.counted,
                (==_iff (search ms).removed (length ms)).0 t,
              ))
        | inr g ↦ stuck_complete ms r f done (second g e)
      ];
    }

pub Schedule-cycle_members :
    (ms : List Member) → Distinct (names ms) → Known ms → Schedule ms → cycle_members ms ≡ []
unfolding cycle_members
Schedule-cycle_members ms d k s =
    let (r, f, done) = search-Found ms d in
    rw
      (complete-stuck ms r f done
        (λ x m. order-Within ms r f done s.order k s.ordered x (s.complete x m) m))
      (ground arith)
