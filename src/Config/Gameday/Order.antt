-- ===== src/Config/Gameday/Order.antt =====
-- What the dependencies of an exercise must be, without the algorithm that tests it: there is an
-- order of the members in which each comes after those that it depends on.
use probavi.Base.{◌≡◌, List, [], ◌∷◌, Mem, Within, Bytes}
use probavi.Config.Gameday.Cycle.{Member}

abbrev pub names : List Member → List Bytes
names [] = []
names (m ∷ ms) = m.name ∷ names ms

-- The last one first: the dependencies of each name stand behind it.
abbrev pub IsOrder : List Member → List Bytes → Type 0
IsOrder ms [] = Unit
IsOrder ms (n ∷ ns) =
    ((m : Member) → Mem m ms → m.name ≡ n → Within m.depends_on ns) × IsOrder ms ns

pub record Schedule (ms : List Member) : Type 0 where
  pub order : List Bytes
  pub ordered : IsOrder ms order
  pub complete : Within (names ms) order

-- Every dependency is a member.
abbrev pub Known : List Member → Type 0
Known ms = (m : Member) → Mem m ms → Within m.depends_on (names ms)
