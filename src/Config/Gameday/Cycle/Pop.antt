-- ===== src/Config/Gameday/Cycle/Pop.antt =====
-- A turn of the search of `cycleMembers` takes the head of its queue and releases its dependents.
use probavi.Base.{
  suc, ◌+◌, ◌≡◌, refl, ap, ◌∙◌, ◌⊎◌, inl, inr, Bool, true, false, List, [], ◌∷◌, ◌++◌,
  if◌then◌else◌, beq, beq_iff, Mem, here, there, Mem-left, Mem-cons, Mem-move, Mem-put, Within,
  Distinct-move, contains-false_iff, Bytes, arith,
}
use probavi.Base.Int.{pos}
use probavi.Config.Gameday.Order.{names}
use probavi.Config.Gameday.Cycle.Edges.{
  edges, Edge, waiting, names_on, count, waiting-cons, edges-cases,
}
use probavi.Config.Gameday.Cycle.{Member, Search, release, release_all}
use probavi.Config.Gameday.Cycle.Kahn.{Inv, release-Inv}

pub count_nil : (x : Bytes) → count x [] ≡ 0
unfolding count
count_nil x = refl

pub release_all-Inv :
    (ms : List Member) (r l : List Bytes) (s : Search)
    → Inv ms r l s
    → Within l (names ms)
    → Inv ms r [] (release_all s l)
unfolding release_all
release_all-Inv ms r [] s v w = v
release_all-Inv ms r (d ∷ l) s v w =
    release_all-Inv ms r l (release s d) (release-Inv ms r l d s v (w d here)) λ x m. w x (there m)

pub names-intro : (ms : List Member) (m : Member) → Mem m ms → Mem m.name (names ms)
names-intro [] m k = elim k [ ]
names-intro (x ∷ ms) m here = here
names-intro (x ∷ ms) m (there k) = there (names-intro ms m k)

pub kept :
    (x y : Bytes) (b : Bool) (l : List Bytes)
    → Mem x (if b then y ∷ l else l)
    → ((x ≡ y) × (b ≡ true)) ⊎ Mem x l
kept x y true l m = elim (Mem-cons m) [ inl e ↦ inl (e, refl) | inr k ↦ inr k ]
kept x y false l m = inr m

names_on-cases : (n x : Bytes) (es : List Edge) → Mem x (names_on n es) → Mem (x, n) es
unfolding names_on
names_on-cases n x [] m = elim m [ ]
names_on-cases n x ((y, dep) ∷ es) m = elim (kept x y (beq n dep) (names_on n es) m) [
  | inl (e, t) ↦ rw (e, (beq_iff n dep).0 t) here
  | inr k ↦ there (names_on-cases n x es k)
]

pub names_on-Within : (ms : List Member) (n : Bytes) → Within (names_on n (edges ms)) (names ms)
names_on-Within ms n x m =
    let (member, k, e, _) = edges-cases ms x n (names_on-cases n x (edges ms) m) in
    rw (← e) (names-intro ms member k)

-- The head of the queue is removed.
pub pop-Inv :
    (ms : List Member) (r q : List Bytes) (n : Bytes) (s : Search)
    → Inv ms r [] s
    → s.queue ≡ n ∷ q
    → Inv ms
        (n ∷ r)
        (names_on n (edges ms))
        (record { indegree = s.indegree; queue = q; removed = suc s.removed })
pop-Inv ms r q n s v e = record {
  counted = omega (arith, v.counted);
  degrees = λ x. v.degrees x ∙ ap pos (omega (arith, sums x));
  distinct = Distinct-move r q (rw (← e) v.distinct);
  inside = λ x m. v.inside x (old x m);
  ready = λ x m. omega (arith, v.ready x (old x m), sums x);
  zero_in = λ x m z. Mem-move r q (rw (← e) (v.zero_in x m (omega (arith, sums x))));
}
  where
    gone : ¬ Mem n r
    gone m = (Distinct-move r q (rw (← e) v.distinct)).0 (Mem-left q m)

    old : (x : Bytes) → Mem x (n ∷ r ++ q) → Mem x (r ++ s.queue)
    old x m = rw e (Mem-put r q m)

    sums :
        (x : Bytes)
        → waiting r (edges ms) x + count x []
          ≡ waiting (n ∷ r) (edges ms) x + count x (names_on n (edges ms))
    sums x =
        omega (arith, count_nil x, waiting-cons r (edges ms) n x ((contains-false_iff r n).1 gone))
