-- ===== src/Config/Gameday/Shape.antt =====
-- `validateMembers` has no complaint exactly if the members are well shaped under names of their own.
use probavi.Base.{
  ℕ, suc, ◌≡◌, ◌≢◌, ◌↔◌, refl, sym, subst, inl, inr, Bool, true, false, Option, none, some, List,
  [], ◌∷◌, ◌++◌, if◌then◌else◌, beq, beq_iff, beq-false, ne_of_beq, contains, is_empty,
  ne_of_is_empty, is_empty-of_ne, Bool-cases, Mem, here, there, Mem-cons, Distinct, All,
  append-nil_iff, contains-false_iff, Bytes,
}
use probavi.Config.Gameday.Cycle.{Member}
use probavi.Config.Gameday.Order.{names}
use probavi.Config.Gameday.{
  Problem, add_if, find_index, validate_deps, index_found, index_name, validate_members,
  member_config_required, member_self_dependency, member_duplicate_dep,
}

abbrev pub Shaped : Member → Type 0
Shaped m = (m.name ≢ []) × (m.config ≢ []) × (¬ Mem m.name m.depends_on) × Distinct m.depends_on

pub add_if-nil_iff : (b : Bool) (p : Problem) → (add_if b p ≡ []) ↔ (b ≡ false)
add_if-nil_iff true p = ((λ e. cc), λ e. cc)
add_if-nil_iff false p = ((λ e. refl), λ e. refl)

-- No dependency is the member itself, or stands twice.
validate_deps-nil_iff :
    (i : ℕ) (name : Bytes) (seen deps : List Bytes)
    → (validate_deps i name seen deps ≡ [])
      ↔ ((¬ Mem name deps) × Distinct deps × ((d : Bytes) → Mem d deps → ¬ Mem d seen))
unfolding validate_deps
validate_deps-nil_iff i name seen [] =
    ((λ e. ((λ m. elim m [ ]), tt, λ d m. elim m [ ])), λ h. refl)
validate_deps-nil_iff i name seen (dep ∷ deps) = (
  λ e.
      let (now, later) = (append-nil_iff _ _).0 e in
      let (other, unseen) = (turn (beq dep name) (contains seen dep)).0 now in
      let (own, rest, apart) = (validate_deps-nil_iff i name (dep ∷ seen) deps).0 later in
      (
        λ m. elim (Mem-cons m) [ inl q ↦ ne_of_beq dep name other (sym q) | inr k ↦ own k ],
        ((λ m. apart dep m here), rest),
        λ d m k. elim (Mem-cons m) [
          | inl q ↦ (contains-false_iff seen dep).0 unseen (subst (λ x. Mem x seen) q k)
          | inr j ↦ apart d j (there k)
        ],
      ),
  λ h. (append-nil_iff _ _).1 (
    (turn (beq dep name) (contains seen dep)).1 (
      beq-false dep name (λ q. h.0 (rw (← q) here)),
      (contains-false_iff seen dep).1 (h.2 dep here),
    ),
    (validate_deps-nil_iff i name (dep ∷ seen) deps).1 (
      (λ m. h.0 (there m)),
      h.1.1,
      λ d m k. elim (Mem-cons k) [
        | inl q ↦ h.1.0 (subst (λ x. Mem x deps) q m)
        | inr j ↦ h.2 d (there m) j
      ],
    ),
  ),
)
  where
    turn :
        (self dup : Bool)
        → ((if self then member_self_dependency i ∷ [] else add_if dup (member_duplicate_dep i dep))
            ≡ [])
          ↔ ((self ≡ false) × (dup ≡ false))
    turn true dup = ((λ e. cc), λ e. cc)
    turn false dup = ((λ e. (refl, (add_if-nil_iff dup _).0 e)), λ h. (add_if-nil_iff dup _).1 h.1)

is_empty_iff : (x : Bytes) → (is_empty x ≡ false) ↔ (x ≢ [])
is_empty_iff x = (ne_of_is_empty x, is_empty-of_ne x)

index_found-nil_iff :
    (i : ℕ) (name : Bytes) (index : List (Bytes × ℕ)) (o : Option ℕ)
    → ((index_found i name index o).0 ≡ []) ↔ (o ≡ none)
unfolding index_found
index_found-nil_iff i name index none = ((λ e. refl), λ h. refl)
index_found-nil_iff i name index (some p) = ((λ e. cc), λ h. cc)

-- A name is indexed without a problem if it is there and was not indexed before.
index_name-nil_iff :
    (i : ℕ) (name : Bytes) (index : List (Bytes × ℕ))
    → ((index_name i name index).0 ≡ []) ↔ ((name ≢ []) × (find_index index name ≡ none))
unfolding index_name
index_name-nil_iff i [] index = ((λ e. cc), λ h. absurd (h.0 refl))
index_name-nil_iff i (c ∷ x) index = (
  (λ e. ((λ q. cc), (index_found-nil_iff i (c ∷ x) index _).0 e)),
  λ h. (index_found-nil_iff i (c ∷ x) index _).1 h.1,
)

index_name-index :
    (i : ℕ) (name : Bytes) (index : List (Bytes × ℕ))
    → (index_name i name index).0 ≡ []
    → (index_name i name index).1 ≡ (name, i) ∷ index
unfolding index_name index_found
index_name-index i name index e =
    let (n, f) = (index_name-nil_iff i name index).0 e in rw (is_empty-of_ne name n, f) refl

find_index-cons_iff :
    (n x : Bytes) (i : ℕ) (index : List (Bytes × ℕ))
    → (find_index ((n, i) ∷ index) x ≡ none) ↔ ((n ≢ x) × (find_index index x ≡ none))
unfolding find_index
find_index-cons_iff n x i index = elim (Bool-cases (beq n x)) [
  | inl t ↦ rw t ((λ e. cc), λ h. absurd (h.0 ((beq_iff n x).0 t)))
  | inr f ↦ rw f ((λ e. (ne_of_beq n x f, e)), λ h. h.1)
]

four_nil_iff :
    (a b c d : List Problem)
    → (((a ++ b) ++ c) ++ d ≡ []) ↔ ((a ≡ []) × (b ≡ []) × (c ≡ []) × (d ≡ []))
four_nil_iff [] [] [] d = ((λ e. (refl, refl, refl, e)), λ h. h.3)
four_nil_iff [] [] (x ∷ c) d = ((λ e. cc), λ h. cc)
four_nil_iff [] (x ∷ b) c d = ((λ e. cc), λ h. cc)
four_nil_iff (x ∷ a) b c d = ((λ e. cc), λ h. cc)

-- The problems of one member and of those behind it.
members-cons_iff :
    (i : ℕ) (index : List (Bytes × ℕ)) (m : Member) (ms : List Member)
    → ((validate_members i index (m ∷ ms)).0 ≡ []) ↔ (
        ((index_name i m.name index).0 ≡ [])
        × (add_if (is_empty m.config) (member_config_required i) ≡ [])
        × (validate_deps i m.name [] m.depends_on ≡ [])
        × ((validate_members (suc i) (index_name i m.name index).1 ms).0 ≡ []))
unfolding validate_members
members-cons_iff i index m ms =
    four_nil_iff (index_name i m.name index).0
      (add_if (is_empty m.config) (member_config_required i))
      (validate_deps i m.name [] m.depends_on)
      (validate_members (suc i) (index_name i m.name index).1 ms).0

-- What a run of `validateMembers` without a problem leaves in the index.
pub validate_members-index_iff :
    (i : ℕ) (index : List (Bytes × ℕ)) (ms : List Member) (x : Bytes)
    → (validate_members i index ms).0 ≡ []
    → (find_index (validate_members i index ms).1 x ≡ none)
      ↔ ((find_index index x ≡ none) × (¬ Mem x (names ms)))
unfolding validate_members
validate_members-index_iff i index [] x e = ((λ f. (f, λ m. elim m [ ])), λ h. h.0)
validate_members-index_iff i index (m ∷ ms) x e =
    let (named, _, _, rest) = (members-cons_iff i index m ms).0 e in
    let ih = validate_members-index_iff (suc i) (index_name i m.name index).1 ms x rest in
    let step = find_index-cons_iff m.name x i index in
    let same = index_name-index i m.name index named in
    (
      λ f.
          let (g, n) = ih.0 f in
          let (ne, h) = step.0 (subst (λ l. find_index l x ≡ none) same g) in
          (h, λ k. elim (Mem-cons k) [ inl q ↦ ne (sym q) | inr l ↦ n l ]),
      λ h. ih.1 (
        subst (λ l. find_index l x ≡ none) (sym same) (step.1 ((λ q. h.1 (rw q here)), h.0)),
        λ k. h.1 (there k),
      ),
    )

-- The names behind a member that is indexed are none that were before, nor its own.
apart_iff :
    (i : ℕ) (index : List (Bytes × ℕ)) (n : Bytes) (x : Bytes)
    → (index_name i n index).0 ≡ []
    → (find_index (index_name i n index).1 x ≡ none) ↔ ((n ≢ x) × (find_index index x ≡ none))
apart_iff i index n x e = rw (index_name-index i n index e) (find_index-cons_iff n x i index)

-- The members have no problem exactly if they are well shaped under names of their own.
pub validate_members-nil_iff :
    (i : ℕ) (index : List (Bytes × ℕ)) (ms : List Member)
    → ((validate_members i index ms).0 ≡ []) ↔ (
        All Shaped ms
        × Distinct (names ms)
        × ((x : Bytes) → Mem x (names ms) → find_index index x ≡ none))
unfolding validate_members
validate_members-nil_iff i index [] = ((λ e. (tt, tt, λ x m. elim m [ ])), λ h. refl)
validate_members-nil_iff i index (m ∷ ms) =
    let ih = validate_members-nil_iff (suc i) (index_name i m.name index).1 ms in
    (
      λ e.
          let (named, config, deps, rest) = (members-cons_iff i index m ms).0 e in
          let (name, fresh) = (index_name-nil_iff i m.name index).0 named in
          let (own, once, _) = (validate_deps-nil_iff i m.name [] m.depends_on).0 deps in
          let (shaped, unique, apart) = ih.0 rest in
          (
            (
              (
                name,
                ne_of_is_empty m.config ((add_if-nil_iff _ (member_config_required i)).0 config),
                own,
                once,
              ),
              shaped,
            ),
            ((λ k. ((apart_iff i index m.name m.name named).0 (apart m.name k)).0 refl), unique),
            λ x k. elim (Mem-cons k) [
              | inl q ↦ rw q fresh
              | inr l ↦ ((apart_iff i index m.name x named).0 (apart x l)).1
            ],
          ),
      λ h.
          let named = (index_name-nil_iff i m.name index).1 (h.0.0.0, h.2 m.name here) in
          (members-cons_iff i index m ms).1 (
            named,
            (add_if-nil_iff _ (member_config_required i)).1 (is_empty-of_ne m.config h.0.0.1),
            (validate_deps-nil_iff i m.name [] m.depends_on).1
                (h.0.0.2, h.0.0.3, λ d k n. elim n [ ]),
            ih.1 (
              h.0.1,
              h.1.1,
              λ x k. (apart_iff i index m.name x named).1 ((λ q. h.1.0 (rw q k)), h.2 x (there k)),
            ),
          ),
    )
