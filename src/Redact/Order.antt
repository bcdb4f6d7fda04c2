-- ===== src/Redact/Order.antt =====
-- What `New` keeps of the values, and in which order.
use probavi.Base.{
  ℕ, ◌<◌, ◌⊎◌, ◌==◌, ==_iff, Bool, ltb, and_left, and_right, subst, ap, ◌∙◌, ◌↔◌, ◌≡◌, ◌≢◌, refl,
  true, false, ◌||◌, inl, inr, List, [], ◌∷◌, ◌++◌, arith, sym, Bool-cases, or_left, or_right,
  length, is_empty, ne_of_is_empty, is_empty-of_ne, contains, beq, beq_iff, Bytes,
}
use probavi.Redact.{text_le, before, insert, sort, gather, collect, new}

abbrev pub All : (Bytes → Type 0) → List Bytes → Type 0
All P [] = Unit
All P (x ∷ xs) = P x × All P xs

-- The byte order of two texts, neither of which starts with the other.
pub data InOrder : Bytes → Bytes → Type 0 where
  at_head : (x y : ℕ) (s t : Bytes) → x < y → InOrder (x ∷ s) (y ∷ t)
  behind : (x : ℕ) (s t : Bytes) → InOrder s t → InOrder (x ∷ s) (x ∷ t)

-- A secret comes before a shorter one, and among those of its length before one that is later in byte
-- order.
abbrev pub Ranks : Bytes → Bytes → Type 0
Ranks v w = (length w < length v) ⊎ ((length w ≡ length v) × InOrder v w)

-- Every secret is nonempty and comes before all behind it.
abbrev pub IsOrdered : List Bytes → Type 0
IsOrdered [] = Unit
IsOrdered (v ∷ vs) = (v ≢ []) × All (Ranks v) vs × IsOrdered vs

abbrev Distinct : List Bytes → Type 0
Distinct [] = Unit
Distinct (v ∷ vs) = (v ≢ []) × All (λ w. w ≢ v) vs × Distinct vs

text_le-InOrder : (a b : Bytes) → length a ≡ length b → text_le a b ≡ true → b ≢ a → InOrder a b
unfolding text_le
text_le-InOrder [] [] l h n = absurd (n refl)
text_le-InOrder [] (y ∷ b) l h n = cc
text_le-InOrder (x ∷ a) [] l h n = cc
text_le-InOrder (x ∷ a) (y ∷ b) l h n = elim (Bool-cases (ltb x y)) [
  | inl e ↦ at_head x y a b (ground arith)
  | inr e ↦
      let same : x ≡ y = (==_iff x y).0 (and_left _ _ (or_right _ _ h e)) in
      subst (λ z. InOrder (x ∷ a) (z ∷ b)) same
        (behind x a b (
          text_le-InOrder a b (omega (arith, l)) (and_right (x == y) _ (or_right _ _ h e))
            (λ q. n (ap (λ z. z ∷ b) (sym same) ∙ ap (λ z. x ∷ z) q))))
]
  where
    or_right : (p q : Bool) → (p || q) ≡ true → p ≡ false → q ≡ true
    or_right p q k e = ground arith

text_le-false : (a b : Bytes) → length a ≡ length b → text_le a b ≡ false → InOrder b a
unfolding text_le
text_le-false [] b l h = cc
text_le-false (x ∷ a) [] l h = cc
text_le-false (x ∷ a) (y ∷ b) l h = elim (Bool-cases (x == y)) [
  | inl e ↦
      subst (λ z. InOrder (z ∷ b) (x ∷ a)) ((==_iff x y).0 e)
        (behind x b a (text_le-false a b (omega (arith, l)) (ground (arith, e, h))))
  | inr e ↦ at_head y x b a (ground (arith, e, h))
]

before-Ranks : (v w : Bytes) → w ≢ v → before v w ≡ true → Ranks v w
unfolding before
before-Ranks v w n h = elim (Bool-cases (ltb (length w) (length v))) [
  | inl e ↦ inl (ground arith)
  | inr e ↦
      let same : length v ≡ length w = ground (arith, e, h) in
      inr (sym same, text_le-InOrder v w same (ground (arith, e, h)) n)
]

before-false : (v w : Bytes) → before v w ≡ false → Ranks w v
unfolding before
before-false v w h = elim (Bool-cases (length v == length w)) [
  | inl e ↦
      let same : length v ≡ length w = (==_iff (length v) (length w)).0 e in
      inr (same, text_le-false v w same (ground (arith, e, h)))
  | inr e ↦ inl (ground (arith, e, h))
]

InOrder-trans : (u v w : Bytes) → InOrder u v → InOrder v w → InOrder u w
InOrder-trans u v w (at_head x y s t h) (at_head _ z _ r k) = at_head x z s r (omega arith)
InOrder-trans u v w (at_head x y s t h) (behind _ _ r k) = at_head x y s r h
InOrder-trans u v w (behind x s t h) (at_head _ z _ r k) = at_head x z s r k
InOrder-trans u v w (behind x s t h) (behind _ _ r k) = behind x s r (InOrder-trans s t r h k)

Ranks-trans : (u v w : Bytes) → Ranks u v → Ranks v w → Ranks u w
Ranks-trans u v w (inl h) (inl k) = inl (omega arith)
Ranks-trans u v w (inl h) (inr (e, k)) = inl (omega arith)
Ranks-trans u v w (inr (e, h)) (inl k) = inl (omega arith)
Ranks-trans u v w (inr (e, h)) (inr (f, k)) = inr (f ∙ e, InOrder-trans u v w h k)

All-insert :
    (P : Bytes → Type 0) (v : Bytes) (ws : List Bytes) → P v → All P ws → All P (insert v ws)
unfolding insert
All-insert P v [] p a = (p, tt)
All-insert P v (w ∷ ws) p a = elim (Bool-cases (before v w)) [
  | inl e ↦ rw e (p, a)
  | inr e ↦ rw e (a.0, All-insert P v ws p a.1)
]

All-outranked : (v w : Bytes) (ws : List Bytes) → Ranks v w → All (Ranks w) ws → All (Ranks v) ws
All-outranked v w [] h a = tt
All-outranked v w (x ∷ ws) h a = (Ranks-trans v w x h a.0, All-outranked v w ws h a.1)

insert-IsOrdered :
    (v : Bytes) (ws : List Bytes)
    → v ≢ []
    → All (λ w. w ≢ v) ws
    → IsOrdered ws
    → IsOrdered (insert v ws)
unfolding insert
insert-IsOrdered v [] n a o = (n, tt, tt)
insert-IsOrdered v (w ∷ ws) n a o = elim (Bool-cases (before v w)) [
  | inl e ↦
      let first = before-Ranks v w a.0 e in rw e (n, (first, All-outranked v w ws first o.1), o)
  | inr e ↦
      rw e
        (o.0, All-insert (Ranks w) v ws (before-false v w e) o.1, insert-IsOrdered v ws n a.1 o.2)
]

sort-IsOrdered : (vs : List Bytes) → Distinct vs → IsOrdered (sort vs)
unfolding sort
sort-IsOrdered [] d = tt
sort-IsOrdered (v ∷ vs) d =
    insert-IsOrdered v (sort vs) d.0 (All-sort _ vs d.1) (sort-IsOrdered vs d.2)
  where
    All-sort : (P : Bytes → Type 0) (ws : List Bytes) → All P ws → All P (sort ws)
    All-sort P [] a = tt
    All-sort P (w ∷ ws) a = All-insert P w (sort ws) a.0 (All-sort P ws a.1)

contains-false : (ws : List Bytes) (v : Bytes) → contains ws v ≡ false → All (λ w. w ≢ v) ws
unfolding contains
contains-false [] v h = tt
contains-false (w ∷ ws) v h = (
  λ e. cc ((beq_iff w v).1 e, or_left (beq w v) (contains ws v) h),
  contains-false ws v (or_right (beq w v) (contains ws v) h),
)

Distinct-concat :
    (ws : List Bytes) (v : Bytes)
    → Distinct ws
    → v ≢ []
    → All (λ w. w ≢ v) ws
    → Distinct (ws ++ v ∷ [])
Distinct-concat [] v d n a = (n, tt, tt)
Distinct-concat (w ∷ ws) v d n a =
    (d.0, All-concat ws d.1 (λ e. a.0 (sym e)), Distinct-concat ws v d.2 n a.1)
  where
    All-concat : (us : List Bytes) → All (λ u. u ≢ w) us → v ≢ w → All (λ u. u ≢ w) (us ++ v ∷ [])
    All-concat [] b e = (e, tt)
    All-concat (u ∷ us) b e = (b.0, All-concat us b.1 e)

gather-Distinct : (ws : List Bytes) (v : Bytes) → Distinct ws → Distinct (gather ws v)
unfolding gather
gather-Distinct ws v d = elim (Bool-cases (is_empty v || contains ws v)) [
  | inl e ↦ rw e d
  | inr e ↦ rw e (
      Distinct-concat ws v d (ne_of_is_empty v (or_left _ _ e))
        (contains-false ws v (or_right _ _ e)))
]

collect-Distinct : (ws vs : List Bytes) → Distinct ws → Distinct (collect ws vs)
unfolding collect
collect-Distinct ws [] d = d
collect-Distinct ws (v ∷ vs) d = collect-Distinct (gather ws v) vs (gather-Distinct ws v d)

ordered : (values : List Bytes) → IsOrdered (new values).secrets
unfolding new
ordered values = sort-IsOrdered (collect [] values) (collect-Distinct [] values tt)

contains-insert :
    (v : Bytes) (ws : List Bytes) (x : Bytes)
    → contains (insert v ws) x ≡ (beq v x || contains ws x)
unfolding insert contains
contains-insert v [] x = refl
contains-insert v (w ∷ ws) x = ground (arith, contains-insert v ws x)

contains-sort : (vs : List Bytes) (x : Bytes) → contains (sort vs) x ≡ contains vs x
unfolding sort contains
contains-sort [] x = refl
contains-sort (v ∷ vs) x = rw (contains-insert v (sort vs) x, contains-sort vs x)

contains-concat :
    (ws : List Bytes) (v x : Bytes) → contains (ws ++ v ∷ []) x ≡ (contains ws x || beq v x)
unfolding contains
contains-concat [] v x = ground arith
contains-concat (w ∷ ws) v x = ground (arith, contains-concat ws v x)

gather-keeps :
    (ws : List Bytes) (v x : Bytes) → contains ws x ≡ true → contains (gather ws v) x ≡ true
unfolding gather
gather-keeps ws v x h = elim (Bool-cases (is_empty v || contains ws v)) [
  | inl e ↦ rw e h
  | inr e ↦ rw e (rw (contains-concat ws v x, h))
]

contains-gather : (ws : List Bytes) (x : Bytes) → x ≢ [] → contains (gather ws x) x ≡ true
unfolding gather
contains-gather ws x n = ground (arith, is_empty-of_ne x n, contains-concat ws x x, beq_iff x x)

collect-keeps :
    (ws vs : List Bytes) (x : Bytes) → contains ws x ≡ true → contains (collect ws vs) x ≡ true
unfolding collect
collect-keeps ws [] x h = h
collect-keeps ws (v ∷ vs) x h = collect-keeps (gather ws v) vs x (gather-keeps ws v x h)

contains-collect :
    (ws vs : List Bytes) (x : Bytes)
    → x ≢ []
    → contains vs x ≡ true
    → contains (collect ws vs) x ≡ true
unfolding collect contains
contains-collect ws [] x n h = cc
contains-collect ws (v ∷ vs) x n h = elim (Bool-cases (beq v x)) [
  | inl e ↦ rw ((beq_iff v x).0 e) (collect-keeps (gather ws x) vs x (contains-gather ws x n))
  | inr e ↦ contains-collect (gather ws v) vs x n (rw e at h)
]

-- `New` forgets no nonempty value.
pub contains-new :
    (values : List Bytes) (x : Bytes)
    → x ≢ []
    → contains values x ≡ true
    → contains (new values).secrets x ≡ true
unfolding new
contains-new values x n h =
    rw (contains-sort (collect [] values) x) (contains-collect [] values x n h)

gather-from :
    (ws : List Bytes) (v x : Bytes)
    → contains (gather ws v) x ≡ true
    → (contains ws x || beq v x) ≡ true
unfolding gather
gather-from ws v x h = elim (Bool-cases (is_empty v || contains ws v)) [
  | inl e ↦ ground (arith, rw e at h)
  | inr e ↦ sym (contains-concat ws v x) ∙ (rw e at h)
]

collect-from :
    (ws vs : List Bytes) (x : Bytes)
    → contains (collect ws vs) x ≡ true
    → (contains ws x || contains vs x) ≡ true
unfolding collect contains
collect-from ws [] x h = ground arith
collect-from ws (v ∷ vs) x h = elim (Bool-cases (contains vs x)) [
  | inl e ↦ ground arith
  | inr e ↦
      let first = gather-from ws v x (or_false (collect-from (gather ws v) vs x h) e) in
      ground arith
]
  where
    or_false : {p q : Bool} → (p || q) ≡ true → q ≡ false → p ≡ true
    or_false k e = ground arith

IsOrdered-ne : (vs : List Bytes) (x : Bytes) → IsOrdered vs → contains vs x ≡ true → x ≢ []
unfolding contains
IsOrdered-ne [] x o h e = cc
IsOrdered-ne (v ∷ vs) x o h e = elim (Bool-cases (beq v x)) [
  | inl k ↦ o.0 ((beq_iff v x).0 k ∙ e)
  | inr k ↦ IsOrdered-ne vs x o.2 (ground arith) e
]

kept :
    (values : List Bytes) (x : Bytes)
    → contains (new values).secrets x ≡ true
    → contains values x ≡ true
unfolding new contains
kept values x h = collect-from [] values x (sym (contains-sort (collect [] values) x) ∙ h)

-- Whatever the values: each secret of the new redactor comes before all shorter ones, and those of one
-- length stand in byte order, so that none stands twice; and the secrets are the values that are not
-- empty.
pub new-IsOrdered :
    (values : List Bytes) (x : Bytes)
    → IsOrdered (new values).secrets
      × ((contains (new values).secrets x ≡ true) ↔ ((contains values x ≡ true) × (x ≢ [])))
new-IsOrdered values x = (
  ordered values,
  (
    λ h. (kept values x h, IsOrdered-ne (new values).secrets x (ordered values) h),
    λ h. contains-new values x h.1 h.0,
  ),
)
