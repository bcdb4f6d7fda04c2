-- ===== src/Config/Gameday/Cycle/Kahn.antt =====
-- What holds of the search of `cycleMembers` at each turn, and what its answer says.
use probavi.Base.{
  ℕ, suc, ◌+◌, ◌≤◌, ◌≡◌, ◌≢◌, refl, ap, ◌∙◌, ◌⊎◌, inl, inr, false, List, [], ◌∷◌, ◌++◌,
  append_assoc, ◌==◌, ==_iff, length, beq, beq_iff, beq-false, ne_of_beq, beq_refl, put_same,
  put_other, Bool-cases, Mem, here, Mem-append, Mem-left, Mem-cases, Mem-cons, Distinct, Within,
  Distinct-snoc, Bytes, arith,
}
use probavi.Base.Int.{ℤ, pos}
use probavi.Config.Gameday.Order.{names}
use probavi.Config.Gameday.Cycle.Edges.{edges, waiting, count}
use probavi.Config.Gameday.Cycle.{Member, Search, release, decrement}

-- The removed names r, the newest first, and the dependents l of the newest that are still to be
-- released.
pub record Inv (ms : List Member) (r l : List Bytes) (s : Search) : Type 0 where
  pub counted : s.removed ≡ length r
  pub degrees : (x : Bytes) → s.indegree x ≡ pos (waiting r (edges ms) x + count x l)
  pub distinct : Distinct (r ++ s.queue)
  pub inside : Within (r ++ s.queue) (names ms)
  pub ready : (x : Bytes) → Mem x (r ++ s.queue) → waiting r (edges ms) x + count x l ≡ 0
  pub zero_in :
      (x : Bytes) → Mem x (names ms) → waiting r (edges ms) x + count x l ≡ 0 → Mem x (r ++ s.queue)

count_other : (d x : Bytes) (l : List Bytes) → d ≢ x → count x (d ∷ l) ≡ count x l
unfolding count
count_other d x l n = rw (beq-false d x n) refl

count_same : (d : Bytes) (l : List Bytes) → count d (d ∷ l) ≡ suc (count d l)
unfolding count
count_same d l = rw (beq_refl d) refl

decrement-suc : (i : ℤ) (k : ℕ) → i ≡ pos (suc k) → decrement i ≡ pos k
decrement-suc i k e = rw e refl

-- The dependent that is released had a count of one more.
released :
    (ms : List Member) (r l : List Bytes) (d : Bytes) (s : Search)
    → Inv ms r (d ∷ l) s
    → decrement (s.indegree d) ≡ pos (waiting r (edges ms) d + count d l)
released ms r l d s v =
    decrement-suc (s.indegree d) _ (v.degrees d ∙ ap pos (omega (arith, count_same d l)))

same_or : (d x : Bytes) → (d ≡ x) ⊎ (d ≢ x)
same_or d x = elim (Bool-cases (beq d x)) [
  | inl t ↦ inl ((beq_iff d x).0 t)
  | inr f ↦ inr (ne_of_beq d x f)
]

==-false : (n : ℕ) → n ≢ 0 → (n == 0) ≡ false
==-false n h = ground arith

ne_of_== : (n : ℕ) → (n == 0) ≡ false → n ≢ 0
ne_of_== n f = λ e. ground arith

module _ (ms : List Member) (r l : List Bytes) (d : Bytes) (s : Search) where
  release-degrees :
      Inv ms r (d ∷ l) s
      → (x : Bytes) → (release s d).indegree x ≡ pos (waiting r (edges ms) x + count x l)
  unfolding release
  release-degrees v x = elim (same_or d x) [
    | inl e ↦ rw (← e, put_same d (decrement (s.indegree d)) s.indegree) (released ms r l d s v)
    | inr n ↦
        rw (put_other d x (decrement (s.indegree d)) s.indegree n)
          (v.degrees x ∙ ap pos (omega (arith, count_other d x l n)))
  ]

  -- The dependent was neither removed nor queued.
  fresh : Inv ms r (d ∷ l) s → ¬ Mem d (r ++ s.queue)
  fresh v m = absurd (omega (arith, v.ready d m, count_same d l))

  abbrev left : ℕ
  left = waiting r (edges ms) d + count d l

  queue_zero : Inv ms r (d ∷ l) s → left ≡ 0 → (release s d).queue ≡ s.queue ++ d ∷ []
  unfolding release
  queue_zero v e = rw (released ms r l d s v, (==_iff left 0).1 e) refl

  queue_more : Inv ms r (d ∷ l) s → left ≢ 0 → (release s d).queue ≡ s.queue
  unfolding release
  queue_more v n = rw (released ms r l d s v, ==-false left n) refl

  -- The rest of the invariant, with the dependent queued or not.
  module _ (v : Inv ms r (d ∷ l) s) (known : Mem d (names ms)) where
    count_less : (x : Bytes) → count x l ≤ count x (d ∷ l)
    unfolding count
    count_less x = ground arith

    still_ready : (x : Bytes) → Mem x (r ++ s.queue) → waiting r (edges ms) x + count x l ≡ 0
    still_ready x m = omega (arith, v.ready x m, count_less x)

    still_in :
        (x : Bytes)
        → d ≢ x
        → Mem x (names ms)
        → waiting r (edges ms) x + count x l ≡ 0
        → Mem x (r ++ s.queue)
    still_in x n m e = v.zero_in x m (omega (arith, count_other d x l n))

    release_zero : left ≡ 0 → Inv ms r l (release s d)
    release_zero e = record {
      counted = unfold release in v.counted;
      degrees = release-degrees v;
      distinct =
          rw (queue_zero v e, ← append_assoc r s.queue (d ∷ []))
            (Distinct-snoc (r ++ s.queue) v.distinct (fresh v));
      inside = λ x m. elim (Mem-cases (r ++ s.queue) (queued x m)) [
        | inl k ↦ v.inside x k
        | inr k ↦ elim (Mem-cons k) [ inl q ↦ rw q known | inr q ↦ elim q [ ] ]
      ];
      ready = λ x m. elim (Mem-cases (r ++ s.queue) (queued x m)) [
        | inl k ↦ still_ready x k
        | inr k ↦ elim (Mem-cons k) [ inl q ↦ rw q e | inr q ↦ elim q [ ] ]
      ];
      zero_in = λ x m q.
          rw (queue_zero v e, ← append_assoc r s.queue (d ∷ []))
            (elim (same_or d x) [
              | inl o ↦ Mem-append (r ++ s.queue) (rw o here)
              | inr n ↦ Mem-left (d ∷ []) (still_in x n m q)
            ]);
    }
      where
        queued : (x : Bytes) → Mem x (r ++ (release s d).queue) → Mem x ((r ++ s.queue) ++ d ∷ [])
        queued x m = rw (append_assoc r s.queue (d ∷ []), ← queue_zero v e) m

    release_more : left ≢ 0 → Inv ms r l (release s d)
    release_more n = record {
      counted = unfold release in v.counted;
      degrees = release-degrees v;
      distinct = rw (queue_more v n) v.distinct;
      inside = rw (queue_more v n) v.inside;
      ready = rw (queue_more v n) still_ready;
      zero_in = λ x m q.
          rw (queue_more v n)
            (elim (same_or d x) [ inl o ↦ absurd (n (rw o q)) | inr o ↦ still_in x o m q ]);
    }

    pub release-Inv : Inv ms r l (release s d)
    release-Inv = elim (Bool-cases (left == 0)) [
      | inl t ↦ release_zero ((==_iff left 0).0 t)
      | inr f ↦ release_more (ne_of_== left f)
    ]
