-- ===== src/Config/Gameday/Sound.antt =====
-- The configuration of an exercise that `validate` lets pass.
use probavi.Base.{
  ◌≡◌, ◌≢◌, ◌↔◌, refl, subst, ◌⊎◌, inl, inr, false, List, [], ◌∷◌, ne_of_is_empty, is_empty-of_ne,
  Distinct, All, append-nil_iff, Bytes,
}
use probavi.Base.Int.{pos, is_negative, eq_int}
use probavi.Config.Gameday.Cycle.{Member, cycle_members}
use probavi.Config.Gameday.Cycle.Verdict.{cycle_members-Schedule, Schedule-cycle_members}
use probavi.Config.Gameday.Order.{names, Known, Schedule}
use probavi.Config.Gameday.{
  GameDay, Problem, add_if, find_index, validate_members, validate_dependencies, validate_cycle,
  validate_fields, validate, name_required, timeout_required, max_parallel_negative,
  members_required, dependency_cycle,
}
use probavi.Config.Gameday.Shape.{Shaped, add_if-nil_iff, validate_members-nil_iff}
use probavi.Config.Gameday.Dependencies.{dependencies-Known_iff}

pub record IsSound (g : GameDay) : Type 0 where
  pub named : g.name ≢ []
  pub timed : eq_int g.timeout (pos 0) ≡ false
  pub parallel : is_negative g.max_parallel ≡ false
  pub peopled : g.members ≢ []
  pub shaped : All Shaped g.members
  pub unique : Distinct (names g.members)
  pub known : Known g.members
  pub schedule : Schedule g.members

validate_fields-nil_iff :
    (g : GameDay)
    → (validate_fields g ≡ [])
      ↔ ((g.name ≢ []) × (eq_int g.timeout (pos 0) ≡ false) × (is_negative g.max_parallel ≡ false))
unfolding validate_fields
validate_fields-nil_iff g = (
  λ e.
      let (ab, c) =
        (append-nil_iff _ (add_if (is_negative g.max_parallel) max_parallel_negative)).0 e in
      let (a, b) = (append-nil_iff _ (add_if (eq_int g.timeout (pos 0)) timeout_required)).0 ab in
      (
        ne_of_is_empty g.name ((add_if-nil_iff _ name_required).0 a),
        (add_if-nil_iff _ timeout_required).0 b,
        (add_if-nil_iff _ max_parallel_negative).0 c,
      ),
  λ h. rw (is_empty-of_ne g.name h.0, h.1, h.2) refl,
)

validate_cycle-nil_iff :
    (ms : List Member) (ps : List Problem)
    → (validate_cycle ms ps ≡ []) ↔ ((ps ≡ []) × (cycle_members ms ≡ []))
unfolding validate_cycle
validate_cycle-nil_iff ms (p ∷ ps) = ((λ e. cc), λ h. cc)
validate_cycle-nil_iff ms [] = found (cycle_members ms)
  where
    found :
        (l : List Bytes)
        → (elim l [ [] ↦ [] | stuck ∷ more ↦ dependency_cycle (stuck ∷ more) ∷ [] ] ≡ [])
          ↔ ((◌≡◌ {A = List Problem} [] []) × (l ≡ []))
    found [] = ((λ e. (refl, refl)), λ h. refl)
    found (x ∷ l) = ((λ e. cc), λ h. cc)

-- The parts of `validate` where there are members.
parts_iff :
    (g : GameDay) (m : Member) (ms : List Member)
    → g.members ≡ m ∷ ms
    → (validate g ≡ []) ↔ (
        (validate_fields g ≡ [])
        × ((validate_members 0 [] (m ∷ ms)).0 ≡ [])
        × (validate_dependencies 0 (validate_members 0 [] (m ∷ ms)).1 (m ∷ ms) ≡ [])
        × (cycle_members (m ∷ ms) ≡ []))
unfolding validate
parts_iff g m ms e = rw e (
  λ h.
      let (abc, d) = (validate_cycle-nil_iff (m ∷ ms) _).0 h in
      let (ab, c) = (append-nil_iff _ (validate_dependencies 0 _ (m ∷ ms))).0 abc in
      let (a, b) = (append-nil_iff (validate_fields g) _).0 ab in (a, b, c, d),
  λ h.
      (validate_cycle-nil_iff (m ∷ ms) _).1
        ((append-nil_iff _ _).1 ((append-nil_iff _ _).1 (h.0, h.1), h.2), h.3),
)

members-cases : (l : List Member) → (l ≡ []) ⊎ ((m : Member) × (ms : List Member) × (l ≡ m ∷ ms))
members-cases [] = inl refl
members-cases (m ∷ ms) = inr (m, ms, refl)

IsSound-intro :
    (g : GameDay) (m : Member) (ms : List Member) → g.members ≡ m ∷ ms → validate g ≡ [] → IsSound g
unfolding find_index
IsSound-intro g m ms e h =
    let (fields, shape, deps, cycle) = (parts_iff g m ms e).0 h in
    let (named, timed, parallel) = (validate_fields-nil_iff g).0 fields in
    let (shaped, unique, _) = (validate_members-nil_iff 0 [] (m ∷ ms)).0 shape in
    record {
      named = named;
      timed = timed;
      parallel = parallel;
      peopled = rw e (λ q. cc);
      shaped = rw e shaped;
      unique = rw e unique;
      known = rw e ((dependencies-Known_iff (m ∷ ms) shape).0 deps);
      schedule = rw e (cycle_members-Schedule (m ∷ ms) unique cycle);
    }

IsSound-validate :
    (g : GameDay) (m : Member) (ms : List Member) → g.members ≡ m ∷ ms → IsSound g → validate g ≡ []
unfolding find_index
IsSound-validate g m ms e s =
    let shape : (validate_members 0 [] (m ∷ ms)).0 ≡ [] =
      (validate_members-nil_iff 0 [] (m ∷ ms)).1
        (subst (All Shaped) e s.shaped, subst (λ l. Distinct (names l)) e s.unique, λ x k. refl) in
    (parts_iff g m ms e).1 (
      (validate_fields-nil_iff g).1 (s.named, s.timed, s.parallel),
      shape,
      (dependencies-Known_iff (m ∷ ms) shape).1 (subst Known e s.known),
      Schedule-cycle_members (m ∷ ms) (subst (λ l. Distinct (names l)) e s.unique)
          (subst Known e s.known) (subst Schedule e s.schedule),
    )

no_members : (g : GameDay) → g.members ≡ [] → validate g ≢ []
unfolding validate
no_members g e =
    rw e λ h. let h' = ((append-nil_iff (validate_fields g) (members_required ∷ [])).0 h).1 in cc

-- `validate` has no complaint exactly if the exercise is sound: named, with a timeout and no
-- negative parallelism, of members that are well shaped under names of their own, that depend on
-- members only, and that have an order in which each comes after those it depends on.
pub validate-IsSound_iff : (g : GameDay) → (validate g ≡ []) ↔ IsSound g
validate-IsSound_iff g = elim (members-cases g.members) [
  | inl e ↦ ((λ h. absurd (no_members g e h)), λ s. absurd (s.peopled e))
  | inr (m, ms, e) ↦ (IsSound-intro g m ms e, IsSound-validate g m ms e)
]
