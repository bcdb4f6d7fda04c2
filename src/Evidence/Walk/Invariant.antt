-- ===== src/Evidence/Walk/Invariant.antt =====
-- What the walk knows of the lines that it has read, and that each further line keeps it so.
use probavi.Base.{
  ℕ, suc, ◌-◌, ◌≡◌, refl, sym, ◌∙◌, inl, inr, true, false, Option, none, some, List, [], ◌∷◌, ◌++◌,
  arith, length, Bytes,
}
use mathlib.Core.Path.{subst₂}
use probavi.Evidence.Json.{Json}
use probavi.Evidence.Codec.{Codec, line_hash}
use probavi.Evidence.Walk.{Head, Keyring, WalkState}
use probavi.Evidence.Walk.Chain.{Chain, genesis, link, records_onto}
use probavi.Evidence.Walk.Step.{Keeps, Stepped, skipped, accepted}

module _ (c : Codec) where
  -- The chain once ended in the anchor.
  pub record Passed (k : Option Keyring) (a : Head) (rs : List Bytes) : Type 0 where
    pub newer : List Bytes
    pub older : List Bytes
    pub splits : rs ≡ newer ++ older
    pub chain : Chain c k older (suc a.seq) a.hash

  -- What the walk knows when it has read the records `rs`.
  pub record Inv (k : Option Keyring) (anchor : Option Head) (w : WalkState) (rs : List Bytes)
      : Type 0 where
    pub going : w.failed ≡ false
    pub keyring : w.keyring ≡ k
    pub anchored : w.anchor ≡ anchor
    pub chain : Chain c k rs w.next_seq w.prev_hash
    pub count : w.records ≡ length rs
    pub passed : (a : Head) → anchor ≡ some a → w.anchor_seen ≡ true → Passed k a rs

  pub Chain-length :
      {k : Option Keyring} {rs : List Bytes} {n : ℕ} {h : Bytes}
      → Chain c k rs n h
      → n ≡ suc (length rs)
  Chain-length genesis = refl
  Chain-length (link t e) = omega (arith, Chain-length t)

  records_onto-none :
      (older : List Bytes) (l : Bytes) (ls : List Bytes)
      → c.decode_strict l ≡ none
      → records_onto c older (l ∷ ls) ≡ records_onto c older ls
  unfolding records_onto
  records_onto-none older l ls e = rw e

  records_onto-some :
      (older : List Bytes) (l : Bytes) (ls : List Bytes) {v : Json}
      → c.decode_strict l ≡ some v
      → records_onto c older (l ∷ ls) ≡ records_onto c (l ∷ older) ls
  unfolding records_onto
  records_onto-some older l ls e = rw e

  Passed-cons :
      {k : Option Keyring} {a : Head} {rs : List Bytes} (l : Bytes)
      → Passed k a rs
      → Passed k a (l ∷ rs)
  Passed-cons l p = record {
    newer = l ∷ p.newer;
    older = p.older;
    splits = cc (p.splits);
    chain = p.chain;
  }

  pub Chain-at :
      {k : Option Keyring} {rs : List Bytes} {n n' : ℕ} {h h' : Bytes}
      → n ≡ n'
      → h ≡ h'
      → Chain c k rs n h
      → Chain c k rs n' h'
  Chain-at {k} {rs} p q t = subst₂ (λ n h. Chain c k rs n h) p q t

  pub Passed-here :
      {k : Option Keyring} {a : Head} {rs : List Bytes} {n : ℕ} {h : Bytes}
      → Chain c k rs n h
      → n - 1 ≡ a.seq
      → h ≡ a.hash
      → Passed k a rs
  Passed-here {rs} t p q = record {
    newer = [];
    older = rs;
    splits = refl;
    chain = Chain-at (omega (arith, Chain-length t)) q t;
  }

  pub step-Inv :
      {k : Option Keyring} {anchor : Option Head} (w w' : WalkState) (rs : List Bytes) (l : Bytes)
      (ls : List Bytes)
      → Inv k anchor w rs
      → Keeps c w w' × Stepped c w l w'
      → (rs' : List Bytes) × Inv k anchor w' rs'
        × (records_onto c rs (l ∷ ls) ≡ records_onto c rs' ls)
  step-Inv w w' rs l ls i (keep, skipped e seq prev count seen) = (
    rs,
    record {
      going = keep.failed ∙ i.going;
      keyring = keep.keyring ∙ i.keyring;
      anchored = keep.anchor ∙ i.anchored;
      chain = Chain-at (sym seq) (sym prev) i.chain;
      count = count ∙ i.count;
      passed = λ a p s. i.passed a p (sym seen ∙ s);
    },
    records_onto-none rs l ls e,
  )
  step-Inv {k} {anchor} w w' rs l ls i (keep, accepted e seq prev count meets) =
      let longer : Chain c k (l ∷ rs) (suc w.next_seq) (line_hash c l) =
        link i.chain (rw i.keyring at e) in
      let longer' : Chain c k (l ∷ rs) w'.next_seq w'.prev_hash =
        Chain-at (sym seq) (sym prev) longer in
      (
        l ∷ rs,
        record {
          going = keep.failed ∙ i.going;
          keyring = keep.keyring ∙ i.keyring;
          anchored = keep.anchor ∙ i.anchored;
          chain = longer';
          count = omega (arith, count, i.count);
          passed = λ a p s. elim meets [
            | inl same ↦ Passed-cons l (i.passed a p (sym same ∙ s))
            | inr (b, q, m, h) ↦
                let same : b ≡ a = cc (q, p, i.anchored) in rw same at (Passed-here longer' m h)
          ];
        },
        records_onto-some rs l ls e.parsed,
      )
