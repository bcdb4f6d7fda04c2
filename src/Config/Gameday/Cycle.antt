-- ===== src/Config/Gameday/Cycle.antt =====
-- internal/config/gameday.go: `cycleMembers`, Kahn's algorithm over the names of the members.
pub mod Edges
pub mod Kahn
pub mod Pop
pub mod Answer
pub mod Verdict
use probavi.Base.{
  ℕ, zero, suc, Bool, true, false, List, [], ◌∷◌, ◌++◌, ◌==◌, if◌then◌else◌, length, put, Bytes,
}
use probavi.Base.Int.{ℤ, pos, negsuc, eq_int, le_int}

-- `GameDayMember`.
pub record Member : Type 0 where
  pub name : Bytes
  pub config : Bytes
  pub depends_on : List Bytes

abbrev pub increment : ℤ → ℤ
increment (pos n) = pos (suc n)
increment (negsuc zero) = pos 0
increment (negsuc (suc n)) = negsuc n

abbrev pub decrement : ℤ → ℤ
decrement (pos zero) = negsuc 0
decrement (pos (suc n)) = pos n
decrement (negsuc n) = negsuc (suc n)

-- The two maps.
pub record Graph : Type 0 where
  pub indegree : Bytes → ℤ
  pub dependents : Bytes → List Bytes

-- One turn of the loop over `m.DependsOn`.
unfoldable pub add_dep : Bytes → Graph → Bytes → Graph
unfolding put
add_dep name g dep = record {
  indegree = put name (increment (g.indegree name)) g.indegree;
  dependents = put dep (g.dependents dep ++ name ∷ []) g.dependents;
}

unfoldable pub add_deps : Bytes → Graph → List Bytes → Graph
unfolding add_dep
add_deps name g [] = g
add_deps name g (dep ∷ deps) = add_deps name (add_dep name g dep) deps

-- `indegree[m.Name] += 0` gives the key its default.
unfoldable pub add_members : Graph → List Member → Graph
unfolding add_deps
add_members g [] = g
add_members g (m ∷ ms) = add_members (add_deps m.name g m.depends_on) ms

abbrev pub empty_graph : Graph
empty_graph = record { indegree = λ x. pos 0; dependents = λ x. [] }

-- The members without a dependency, in the order of the file.
unfoldable pub roots : (Bytes → ℤ) → List Member → List Bytes
roots indegree [] = []
roots indegree (m ∷ ms) =
    let rest = roots indegree ms in if eq_int (indegree m.name) (pos 0) then m.name ∷ rest else rest

pub record Search : Type 0 where
  pub indegree : Bytes → ℤ
  pub queue : List Bytes
  pub removed : ℕ

-- One turn of the loop over `dependents[name]`.
unfoldable pub release : Search → Bytes → Search
unfolding put
release s d =
    let left = decrement (s.indegree d) in
    record {
      indegree = put d left s.indegree;
      queue = if eq_int left (pos 0) then s.queue ++ d ∷ [] else s.queue;
      removed = s.removed;
    }

unfoldable pub release_all : Search → List Bytes → Search
unfolding release
release_all s [] = s
release_all s (d ∷ ds) = release_all (release s d) ds

-- `for len(queue) > 0`, with at most `fuel` turns.
unfoldable pub drain : (Bytes → List Bytes) → ℕ → Search → Search
unfolding release_all
drain dependents zero s = s
drain dependents (suc fuel) s = elim s.queue [
  | [] ↦ s
  | name ∷ rest ↦ drain dependents fuel (
      release_all (record { indegree = s.indegree; queue = rest; removed = suc s.removed })
        (dependents name))
]

abbrev pub is_above_zero : ℤ → Bool
is_above_zero n = le_int (pos 1) n

unfoldable pub stuck : (Bytes → ℤ) → List Member → List Bytes
stuck indegree [] = []
stuck indegree (m ∷ ms) =
    let rest = stuck indegree ms in if is_above_zero (indegree m.name) then m.name ∷ rest else rest

unfoldable pub search : List Member → Search
unfolding add_members roots drain
search ms =
    let g = add_members empty_graph ms in
    drain g.dependents (length ms)
      (record { indegree = g.indegree; queue = roots g.indegree ms; removed = 0 })

-- `cycleMembers`.
unfoldable pub cycle_members : List Member → List Bytes
unfolding search stuck
cycle_members ms = let s = search ms in if s.removed == length ms then [] else stuck s.indegree ms
