-- ===== src/Config/Gameday/Cycle/Answer.antt =====
-- The search of `cycleMembers` from its first turn to its answer.
use probavi.Base.{
  ℕ, zero, suc, ◌+◌, ◌≤◌, ◌≡◌, refl, sym, ap, subst, ◌∙◌, ◌⊎◌, ◌↔◌, inl, inr, Bool, true, false,
  List, [], ◌∷◌, ◌++◌, if◌then◌else◌, ==_iff, length, length-append, Mem, here, there, Mem-append,
  Mem-cons, Distinct, Within, length-Within, contains-Mem, Bytes, arith,
}
use probavi.Base.Int.{ℤ, pos, eq_int}
use probavi.Config.Gameday.Order.{names, IsOrder}
use probavi.Config.Gameday.Cycle.Edges.{
  edges, waiting, names_on, waiting-zero, graph-Counts, edges-intro,
}
use probavi.Config.Gameday.Cycle.{
  Member, Search, release_all, drain, roots, search, add_members, empty_graph,
}
use probavi.Config.Gameday.Cycle.Kahn.{Inv}
use probavi.Config.Gameday.Cycle.Pop.{count_nil, release_all-Inv, pop-Inv, names_on-Within, kept}

pub record Found (ms : List Member) (r : List Bytes) (s : Search) : Type 0 where
  pub inv : Inv ms r [] s
  pub ordered : IsOrder ms r

pub List-cases : (q : List Bytes) → (q ≡ []) ⊎ ((n : Bytes) × (rest : List Bytes) × (q ≡ n ∷ rest))
List-cases [] = inl refl
List-cases (n ∷ rest) = inr (n, rest, refl)

abbrev pub dependents : List Member → Bytes → List Bytes
dependents ms = (add_members empty_graph ms).dependents

-- Every dependency of a queued name is removed.
queued-order :
    (ms : List Member) (r q : List Bytes) (n : Bytes) (s : Search)
    → Inv ms r [] s
    → s.queue ≡ n ∷ q
    → (m : Member) → Mem m ms
    → m.name ≡ n
    → Within m.depends_on r
queued-order ms r q n s v e m k same d l = contains-Mem r d (
    waiting-zero r (edges ms) n d (omega (arith, v.ready n (rw e (Mem-append r here)), count_nil n))
      (rw (← same) (edges-intro ms m d k l)))

drain_empty :
    (users : Bytes → List Bytes) (fuel : ℕ) (s : Search)
    → s.queue ≡ []
    → drain users (suc fuel) s ≡ s
unfolding drain
drain_empty users fuel s e = rw e refl

drain_next :
    (users : Bytes → List Bytes) (fuel : ℕ) (s : Search) (n : Bytes) (rest : List Bytes)
    → s.queue ≡ n ∷ rest
    → drain users (suc fuel) s
      ≡ drain users fuel (
          release_all
            (record { indegree = s.indegree; queue = rest; removed = suc s.removed })
            (users n))
unfolding drain
drain_next users fuel s n rest e = rw e refl

pub drain-Found :
    (ms : List Member) (fuel : ℕ) (r : List Bytes) (s : Search)
    → Found ms r s
    → (r' : List Bytes) × Found ms r' (drain (dependents ms) fuel s)
      × (((drain (dependents ms) fuel s).queue ≡ []) ⊎ (length r + fuel ≤ length r'))
unfolding drain
drain-Found ms zero r s f = (r, f, inr (omega arith))
drain-Found ms (suc fuel) r s f = elim (List-cases s.queue) [
  | inl e ↦ rw (drain_empty (dependents ms) fuel s e) (r, f, inl e)
  | inr (n, rest, e) ↦
      let (r', g, end) = drain-Found ms fuel (n ∷ r) _ (record {
        inv =
            release_all-Inv ms (n ∷ r) (names_on n (edges ms)) _ (pop-Inv ms r rest n s f.inv e)
              (names_on-Within ms n);
        ordered = (queued-order ms r rest n s f.inv e, f.ordered);
      }) in
      rw (drain_next (dependents ms) fuel s n rest e, (graph-Counts ms).users n)
        (r', g, elim end [ inl h ↦ inl h | inr h ↦ inr (omega (arith, h)) ])
]

eq_pos : (n : ℕ) → (eq_int (pos n) (pos 0) ≡ true) ↔ (n ≡ 0)
eq_pos n = ==_iff n 0

zero_of : (i : ℤ) (n : ℕ) → i ≡ pos n → eq_int i (pos 0) ≡ true → n ≡ 0
zero_of i n e h = (eq_pos n).0 (subst (λ j. eq_int j (pos 0) ≡ true) e h)

roots-cases :
    (f : Bytes → ℤ) (x : Bytes) (ms : List Member)
    → Mem x (roots f ms)
    → Mem x (names ms) × (eq_int (f x) (pos 0) ≡ true)
unfolding roots
roots-cases f x [] m = elim m [ ]
roots-cases f x (n ∷ ms) m = elim (kept x n.name (eq_int (f n.name) (pos 0)) (roots f ms) m) [
  | inl (e, t) ↦ (rw e here, rw e t)
  | inr k ↦ let (i, t) = roots-cases f x ms k in (there i, t)
]

roots-intro :
    (f : Bytes → ℤ) (x : Bytes) (ms : List Member)
    → Mem x (names ms)
    → eq_int (f x) (pos 0) ≡ true
    → Mem x (roots f ms)
unfolding roots
roots-intro f x [] m t = elim m [ ]
roots-intro f x (n ∷ ms) m t = elim (Mem-cons m) [
  | inl e ↦ rw (← e, t) here
  | inr k ↦ behind (eq_int (f n.name) (pos 0)) n.name (roots-intro f x ms k t)
]
  where
    behind : (b : Bool) (y : Bytes) {l : List Bytes} → Mem x l → Mem x (if b then y ∷ l else l)
    behind true y k = there k
    behind false y k = k

roots-Distinct : (f : Bytes → ℤ) (ms : List Member) → Distinct (names ms) → Distinct (roots f ms)
unfolding roots
roots-Distinct f [] d = tt
roots-Distinct f (n ∷ ms) d =
    put_first (eq_int (f n.name) (pos 0)) (λ m. d.0 (roots-cases f n.name ms m).0)
      (roots-Distinct f ms d.1)
  where
    put_first :
        (b : Bool) {l : List Bytes}
        → ¬ Mem n.name l
        → Distinct l
        → Distinct (if b then n.name ∷ l else l)
    put_first true fresh k = (fresh, k)
    put_first false fresh k = k

abbrev pub start : List Member → Search
start ms = record {
  indegree = (add_members empty_graph ms).indegree;
  queue = roots (add_members empty_graph ms).indegree ms;
  removed = 0;
}

start-Inv : (ms : List Member) → Distinct (names ms) → Inv ms [] [] (start ms)
start-Inv ms d = record {
  counted = refl;
  degrees = λ x. (graph-Counts ms).degrees x ∙ ap pos (omega (arith, count_nil x));
  distinct = roots-Distinct _ ms d;
  inside = λ x m. (roots-cases _ x ms m).0;
  ready = λ x m.
      omega
        (arith, count_nil x, zero_of _ _ ((graph-Counts ms).degrees x) (roots-cases _ x ms m).1);
  zero_in = λ x m z. roots-intro _ x ms m (
      rw ((graph-Counts ms).degrees x)
        ((eq_pos (waiting [] (edges ms) x)).1 (omega (arith, count_nil x, z))));
}

pub length-names : (ms : List Member) → length (names ms) ≡ length ms
length-names [] = refl
length-names (m ∷ ms) = ap suc (length-names ms)

none_left : (q : List Bytes) → length q ≤ 0 → q ≡ []
none_left [] h = refl
none_left (n ∷ q) h = absurd (omega arith)

-- The queue is empty after a turn for each member.
pub search-Found :
    (ms : List Member)
    → Distinct (names ms)
    → (r : List Bytes) × Found ms r (search ms) × ((search ms).queue ≡ [])
unfolding search
search-Found ms d =
    let (r, f, end) =
      drain-Found ms (length ms) [] (start ms) (record { inv = start-Inv ms d; ordered = tt }) in
    (
      r,
      f,
      elim end [
        | inl e ↦ e
        | inr h ↦ none_left _ (
            omega (
              arith,
              h,
              length-names ms,
              length-append r (search ms).queue,
              length-Within (r ++ (search ms).queue) (names ms) f.inv.distinct f.inv.inside,
            ))
      ],
    )

drain_settled :
    (users : Bytes → List Bytes) (fuel : ℕ) (s : Search) → s.queue ≡ [] → drain users fuel s ≡ s
drain_settled users zero s e = unfold drain in refl
drain_settled users (suc fuel) s e = drain_empty users fuel s e

drain_more :
    (users : Bytes → List Bytes) (fuel more : ℕ) (s : Search)
    → (drain users fuel s).queue ≡ []
    → drain users (fuel + more) s ≡ drain users fuel s
drain_more users zero more s e =
    subst (λ n. drain users n s ≡ drain users zero s) (omega arith)
      (drain_settled users more s (unfold drain in e) ∙ sym (unfold drain in refl))
drain_more users (suc fuel) more s e = elim (List-cases s.queue) [
  | inl q ↦ drain_settled users (suc fuel + more) s q ∙ sym (drain_empty users fuel s q)
  | inr (n, rest, q) ↦
      let step = drain_next users fuel s n rest q in
      subst (λ k. drain users k s ≡ drain users (suc fuel) s) (omega arith)
        (drain_next users (fuel + more) s n rest q
          ∙ drain_more users fuel more _ (subst (λ t. t.queue ≡ []) step e)
          ∙ sym step)
]

-- Over members with names of their own the loop of `cycleMembers` ends: as many turns as members
-- leave its queue empty, and more turns leave the search as it is.
pub search-ends :
    (ms : List Member)
    → Distinct (names ms)
    → ((search ms).queue ≡ [])
      × ((more : ℕ) → drain (dependents ms) (length ms + more) (start ms) ≡ search ms)
unfolding search
search-ends ms d =
    let (r, f, e) = search-Found ms d in
    (e, λ more. drain_more (dependents ms) (length ms) more (start ms) e)
