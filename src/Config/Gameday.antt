-- ===== src/Config/Gameday.antt =====
-- internal/config/gameday.go: the members of an exercise, and what `validate` says of them. A
-- diagnostic is a `Problem`, its words left out.
pub mod Cycle
pub mod Order
pub mod Shape
pub mod Dependencies
pub mod Sound
use probavi.Base.{
  ℕ, suc, Bool, true, false, not, ◌&&◌, Option, none, some, List, [], ◌∷◌, ◌++◌, ltb, leb,
  if◌then◌else◌, beq, contains, is_empty, Bytes,
}
use probavi.Base.Int.{ℤ, pos, negsuc, is_negative, eq_int}
use probavi.Config.Gameday.Cycle.{Member, cycle_members}

-- A duration is its nanoseconds.
pub record GameDay : Type 0 where
  pub name : Bytes
  pub timeout : ℤ
  pub max_parallel : ℤ
  pub members : List Member
  pub hash : Bytes

-- `Parallelism`.
unfoldable pub parallelism : GameDay → ℕ
parallelism g = elim g.max_parallel [ pos n ↦ if ltb n 1 then 1 else n | negsuc n ↦ 1 ]

pub data Problem : Type 0 where
  name_required timeout_required max_parallel_negative members_required : Problem
  member_name_required member_config_required member_self_dependency : ℕ → Problem
  member_name_duplicate : ℕ → Bytes → ℕ → Problem
  member_duplicate_dep member_unknown_dep : ℕ → Bytes → Problem
  dependency_cycle : List Bytes → Problem

-- `p.add` under a condition.
abbrev pub add_if : Bool → Problem → List Problem
add_if bad p = if bad then p ∷ [] else []

-- The map `index` of `validateMembers`, the newest name first.
unfoldable pub find_index : List (Bytes × ℕ) → Bytes → Option ℕ
find_index [] name = none
find_index ((n, i) ∷ rest) name = if beq n name then some i else find_index rest name

-- The loop over `DependsOn`, with the keys of `seen`.
unfoldable pub validate_deps : ℕ → Bytes → List Bytes → List Bytes → List Problem
validate_deps i name seen [] = []
validate_deps i name seen (dep ∷ deps) =
    (if beq dep name
      then member_self_dependency i ∷ []
      else add_if (contains seen dep) (member_duplicate_dep i dep))
    ++ validate_deps i name (dep ∷ seen) deps

unfoldable pub index_found :
    ℕ → Bytes → List (Bytes × ℕ) → Option ℕ → List Problem × List (Bytes × ℕ)
index_found i name index (some prev) = (member_name_duplicate i name prev ∷ [], index)
index_found i name index none = ([], (name, i) ∷ index)

-- The switch over the name: its problems, and the index behind it.
unfoldable pub index_name : ℕ → Bytes → List (Bytes × ℕ) → List Problem × List (Bytes × ℕ)
unfolding find_index index_found
index_name i name index =
    if is_empty name
    then (member_name_required i ∷ [], index)
    else index_found i name index (find_index index name)

-- `validateMembers`, from the i-th member on.
unfoldable pub validate_members :
    ℕ → List (Bytes × ℕ) → List Member → List Problem × List (Bytes × ℕ)
unfolding index_name validate_deps
validate_members i index [] = ([], index)
validate_members i index (m ∷ ms) =
    let (named, index') = index_name i m.name index in
    let (rest, index'') = validate_members (suc i) index' ms in
    (
      named
          ++ add_if (is_empty m.config) (member_config_required i)
          ++ validate_deps i m.name [] m.depends_on
          ++ rest,
      index'',
    )

abbrev pub missing : Option ℕ → Bool
missing none = true
missing (some i) = false

unfoldable pub unknown_deps : ℕ → Bytes → List (Bytes × ℕ) → List Bytes → List Problem
unfolding find_index
unknown_deps i name index [] = []
unknown_deps i name index (dep ∷ deps) =
    add_if (missing (find_index index dep) && not (beq dep name)) (member_unknown_dep i dep)
    ++ unknown_deps i name index deps

-- `validateDependencies`, from the i-th member on.
unfoldable pub validate_dependencies : ℕ → List (Bytes × ℕ) → List Member → List Problem
unfolding unknown_deps
validate_dependencies i index [] = []
validate_dependencies i index (m ∷ ms) =
    unknown_deps i m.name index m.depends_on ++ validate_dependencies (suc i) index ms

-- The cycle is sought only where nothing else is wrong.
unfoldable pub validate_cycle : List Member → List Problem → List Problem
unfolding cycle_members
validate_cycle ms (p ∷ ps) = p ∷ ps
validate_cycle ms [] = elim (cycle_members ms) [
  | [] ↦ []
  | stuck ∷ more ↦ dependency_cycle (stuck ∷ more) ∷ []
]

-- The problems of `validate` before its members.
unfoldable pub validate_fields : GameDay → List Problem
validate_fields g =
    add_if (is_empty g.name) name_required
    ++ add_if (eq_int g.timeout (pos 0)) timeout_required
    ++ add_if (is_negative g.max_parallel) max_parallel_negative

-- `GameDay.validate`.
unfoldable pub validate : GameDay → List Problem
unfolding validate_fields validate_members validate_dependencies validate_cycle
validate g = elim g.members [
  | [] ↦ validate_fields g ++ members_required ∷ []
  | m ∷ ms ↦
      let (shape, index) = validate_members 0 [] (m ∷ ms) in
      validate_cycle (m ∷ ms) (validate_fields g ++ shape ++ validate_dependencies 0 index (m ∷ ms))
]
