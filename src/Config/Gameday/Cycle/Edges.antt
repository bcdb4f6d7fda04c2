-- ===== src/Config/Gameday/Cycle/Edges.antt =====
-- What the two maps of `cycleMembers` hold: counts and lists over the edges of the dependency graph.
use probavi.Base.{
  ℕ, suc, ◌+◌, ◌≡◌, refl, sym, ap, inl, inr, true, false, not, ◌&&◌, List, [], ◌∷◌, ◌++◌,
  append-nil, append_assoc, if◌then◌else◌, beq, beq_iff, beq_comm, contains, put, Bool-cases,
  and_left, and_right, Mem, here, there, Mem-append, Mem-left, Mem-cases, Mem-cons, Bytes, arith,
}
use probavi.Base.Int.{pos}
use probavi.Config.Gameday.Cycle.{Member, Graph, add_dep, add_deps, add_members, empty_graph}

abbrev pub Edge : Type 0
Edge = Bytes × Bytes

abbrev pub edges_of : Bytes → List Bytes → List Edge
edges_of name [] = []
edges_of name (dep ∷ deps) = (name, dep) ∷ edges_of name deps

abbrev pub edges : List Member → List Edge
edges [] = []
edges (m ∷ ms) = edges_of m.name m.depends_on ++ edges ms

-- How many dependencies of a name are not yet removed.
unfoldable pub waiting : List Bytes → List Edge → Bytes → ℕ
waiting removed [] x = 0
waiting removed ((name, dep) ∷ es) x =
    let rest = waiting removed es x in
    if beq name x && not (contains removed dep) then suc rest else rest

-- The names that depend on one, once for each edge.
unfoldable pub names_on : Bytes → List Edge → List Bytes
names_on x [] = []
names_on x ((name, dep) ∷ es) = let rest = names_on x es in if beq x dep then name ∷ rest else rest

unfoldable pub count : Bytes → List Bytes → ℕ
count x [] = 0
count x (y ∷ ys) = let rest = count x ys in if beq y x then suc rest else rest

waiting-append :
    (r : List Bytes) (es fs : List Edge) (x : Bytes)
    → waiting r (es ++ fs) x ≡ waiting r es x + waiting r fs x
unfolding waiting
waiting-append r [] fs x = omega arith
waiting-append r (e ∷ es) fs x = ground (arith, waiting-append r es fs x)

names_on-append :
    (x : Bytes) (es fs : List Edge) → names_on x (es ++ fs) ≡ names_on x es ++ names_on x fs
unfolding names_on
names_on-append x [] fs = refl
names_on-append x (e ∷ es) fs = ground (arith, names_on-append x es fs)

-- Removing a name takes its edges off the counts of those that depend on it.
pub waiting-cons :
    (r : List Bytes) (es : List Edge) (n x : Bytes)
    → contains r n ≡ false
    → waiting r es x ≡ waiting (n ∷ r) es x + count x (names_on n es)
unfolding waiting names_on count contains
waiting-cons r [] n x f = refl
waiting-cons r ((name, dep) ∷ es) n x f = elim (Bool-cases (beq n dep)) [
  | inl t ↦
      let f' : contains r dep ≡ false = rw (← (beq_iff n dep).0 t) f in
      ground (arith, waiting-cons r es n x f)
  | inr g ↦ ground (arith, waiting-cons r es n x f)
]

pub record Counts (g : Graph) (es : List Edge) : Type 0 where
  pub degrees : (x : Bytes) → g.indegree x ≡ pos (waiting [] es x)
  pub users : (d : Bytes) → g.dependents d ≡ names_on d es

waiting_one : (name dep x : Bytes) → waiting [] ((name, dep) ∷ []) x ≡ (if beq name x then 1 else 0)
unfolding waiting contains
waiting_one name dep x = ground arith

add_dep-degrees :
    (name : Bytes) (g : Graph) (es : List Edge) (dep x : Bytes)
    → Counts g es
    → (add_dep name g dep).indegree x ≡ pos (waiting [] (es ++ (name, dep) ∷ []) x)
unfolding add_dep put
add_dep-degrees name g es dep x c = elim (Bool-cases (beq name x)) [
  | inl t ↦
      rw
        (
          waiting-append [] es ((name, dep) ∷ []) x,
          waiting_one name dep x,
          t,
          (beq_iff name x).0 t,
          c.degrees x,
        )
        (ap pos (omega arith))
  | inr f ↦
      rw (waiting-append [] es ((name, dep) ∷ []) x, waiting_one name dep x, f, c.degrees x)
        (ap pos (omega arith))
]

add_dep-users :
    (name : Bytes) (g : Graph) (es : List Edge) (dep x : Bytes)
    → Counts g es
    → (add_dep name g dep).dependents x ≡ names_on x (es ++ (name, dep) ∷ [])
unfolding add_dep put names_on
add_dep-users name g es dep x c = elim (Bool-cases (beq dep x)) [
  | inl t ↦
      rw
        (names_on-append x es ((name, dep) ∷ []), beq_comm x dep, t, (beq_iff dep x).0 t, c.users x)
        refl
  | inr f ↦
      rw (names_on-append x es ((name, dep) ∷ []), beq_comm x dep, f, c.users x)
        (sym (append-nil (names_on x es)))
]

add_dep-Counts :
    (name : Bytes) (g : Graph) (es : List Edge) (dep : Bytes)
    → Counts g es
    → Counts (add_dep name g dep) (es ++ (name, dep) ∷ [])
add_dep-Counts name g es dep c = record {
  degrees = λ x. add_dep-degrees name g es dep x c;
  users = λ x. add_dep-users name g es dep x c;
}

add_deps-Counts :
    (name : Bytes) (g : Graph) (es : List Edge) (deps : List Bytes)
    → Counts g es
    → Counts (add_deps name g deps) (es ++ edges_of name deps)
unfolding add_deps
add_deps-Counts name g es [] c = rw (append-nil es) c
add_deps-Counts name g es (dep ∷ deps) c =
    rw (← append_assoc es ((name, dep) ∷ []) (edges_of name deps)) (
      add_deps-Counts name (add_dep name g dep) (es ++ (name, dep) ∷ []) deps
        (add_dep-Counts name g es dep c))

add_members-Counts :
    (g : Graph) (es : List Edge) (ms : List Member)
    → Counts g es
    → Counts (add_members g ms) (es ++ edges ms)
unfolding add_members
add_members-Counts g es [] c = rw (append-nil es) c
add_members-Counts g es (m ∷ ms) c =
    rw (← append_assoc es (edges_of m.name m.depends_on) (edges ms)) (
      add_members-Counts (add_deps m.name g m.depends_on) (es ++ edges_of m.name m.depends_on) ms
        (add_deps-Counts m.name g es m.depends_on c))

pub graph-Counts : (ms : List Member) → Counts (add_members empty_graph ms) (edges ms)
unfolding waiting names_on
graph-Counts ms =
    add_members-Counts empty_graph [] ms (record { degrees = λ x. refl; users = λ d. refl })

-- A count of 0 says that every dependency of the name is removed.
pub waiting-zero :
    (r : List Bytes) (es : List Edge) (x d : Bytes)
    → waiting r es x ≡ 0
    → Mem (x, d) es
    → contains r d ≡ true
unfolding waiting
waiting-zero r [] x d h m = elim m [ ]
waiting-zero r ((name, dep) ∷ es) x d h m = elim (Mem-cons m) [
  | inl e ↦ elim (Bool-cases (contains r d)) [
    | inl t ↦ t
    | inr f ↦
        let same : beq name x ≡ true = (beq_iff name x).1 (sym (ap (λ p. p.0) e)) in
        let still : contains r dep ≡ false = rw (← ap (λ p. p.1) e) f in absurd (ground arith)
  ]
  | inr k ↦ ground (arith, waiting-zero r es x d)
]

-- And a name whose dependencies are all removed waits for none.
pub waiting_none :
    (r : List Bytes) (es : List Edge) (x : Bytes)
    → ((d : Bytes) → Mem (x, d) es → contains r d ≡ true)
    → waiting r es x ≡ 0
unfolding waiting
waiting_none r [] x h = refl
waiting_none r ((name, dep) ∷ es) x h = elim (Bool-cases (beq name x)) [
  | inl t ↦
      rw (t, h dep (rw ((beq_iff name x).0 t) here)) (waiting_none r es x (λ d m. h d (there m)))
  | inr f ↦ rw f (waiting_none r es x (λ d m. h d (there m)))
]

-- A name that waits waits for some dependency.
pub waiting_some :
    (r : List Bytes) (es : List Edge) (x : Bytes) (k : ℕ)
    → waiting r es x ≡ suc k
    → (d : Bytes) × Mem (x, d) es × (contains r d ≡ false)
unfolding waiting
waiting_some r [] x k h = absurd (omega arith)
waiting_some r ((name, dep) ∷ es) x k h = elim (Bool-cases (beq name x && not (contains r dep))) [
  | inl t ↦
      let same = (beq_iff name x).0 (and_left (beq name x) (not (contains r dep)) t) in
      (dep, rw same here, ground (arith, and_right (beq name x) (not (contains r dep)) t))
  | inr f ↦ let (d, m, g) = waiting_some r es x k (ground arith) in (d, there m, g)
]

edges_of-intro : (n d : Bytes) (deps : List Bytes) → Mem d deps → Mem (n, d) (edges_of n deps)
edges_of-intro n d [] m = elim m [ ]
edges_of-intro n d (x ∷ deps) here = here
edges_of-intro n d (x ∷ deps) (there m) = there (edges_of-intro n d deps m)

edges_of-cases :
    (n x d : Bytes) (deps : List Bytes) → Mem (x, d) (edges_of n deps) → (n ≡ x) × Mem d deps
edges_of-cases n x d [] m = elim m [ ]
edges_of-cases n x d (y ∷ deps) m = elim (Mem-cons m) [
  | inl e ↦ (sym (ap (λ p. p.0) e), rw (ap (λ p. p.1) e) here)
  | inr k ↦ let (e, l) = edges_of-cases n x d deps k in (e, there l)
]

-- The edges are the dependencies of the members.
pub edges-intro :
    (ms : List Member) (m : Member) (d : Bytes)
    → Mem m ms
    → Mem d m.depends_on
    → Mem (m.name, d) (edges ms)
edges-intro [] m d k l = elim k [ ]
edges-intro (x ∷ ms) m d here l = Mem-left (edges ms) (edges_of-intro m.name d m.depends_on l)
edges-intro (x ∷ ms) m d (there k) l =
    Mem-append (edges_of x.name x.depends_on) (edges-intro ms m d k l)

pub edges-cases :
    (ms : List Member) (x d : Bytes)
    → Mem (x, d) (edges ms)
    → (m : Member) × Mem m ms × (m.name ≡ x) × Mem d m.depends_on
edges-cases [] x d k = elim k [ ]
edges-cases (m ∷ ms) x d k = elim (Mem-cases (edges_of m.name m.depends_on) k) [
  | inl l ↦ let (e, i) = edges_of-cases m.name x d m.depends_on l in (m, here, e, i)
  | inr l ↦ let (n, i, e, j) = edges-cases ms x d l in (n, there i, e, j)
]
