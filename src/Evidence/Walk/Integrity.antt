-- ===== src/Evidence/Walk/Integrity.antt =====
-- What a verdict other than INVALID is worth.
use probavi.Base.{
  ℕ, suc, ◌≡◌, ◌≢◌, refl, sym, ap, ◌∙◌, ◌⊎◌, inl, inr, Bool, true, false, Option, some, List, [],
  ◌++◌, arith, length, Bytes,
}
use mathlib.Core.Path.{subst}
use probavi.Evidence.Codec.{Codec}
use probavi.Evidence.Walk.{Head, Keyring, not_valid, status_of, walk, lines, verify}
use probavi.Evidence.Walk.Chain.{Chain, Collision, Collision-append, Chain-unique, records_onto}
use probavi.Evidence.Walk.Sound.{Walked, walk-Walked}
use probavi.Evidence.Walk.Invariant.{Chain-at, Chain-length}

module _ (c : Codec) where
  -- The parseable lines of a log, newest first.
  abbrev pub entries : Bytes → List Bytes
  entries content = records_onto c [] (lines content).0

  status-going : (f : Bool) (damaged : List ℕ) → status_of f damaged ≢ not_valid → f ≡ false
  status-going true damaged h = absurd (h refl)
  status-going false damaged h = refl

  verify-Walked :
      (keyring : Keyring) (anchor : Option Head) (content : Bytes)
      → (verify c keyring anchor content).status ≢ not_valid
      → Walked c (some keyring) anchor (entries content) (walk c (some keyring) anchor content)
  unfolding verify
  verify-Walked keyring anchor content h =
      walk-Walked c (some keyring) anchor content (status-going _ _ h)

  -- Unless the verdict is INVALID, the parseable lines of the log are a chain of canonical records
  -- signed by keys of the keyring, numbered from 1, each with the hash of the line before it; the
  -- report counts them, and its head is the last of them.
  pub verify-Chain :
      (keyring : Keyring) (anchor : Option Head) (content : Bytes)
      → (verify c keyring anchor content).status ≢ not_valid
      → let r = verify c keyring anchor content in
        Chain c (some keyring) (entries content) (suc r.head.seq) r.head.hash
        × (r.records ≡ length (entries content))
        × (r.head.seq ≡ length (entries content))
  unfolding verify
  verify-Chain keyring anchor content h =
      let w = (verify-Walked keyring anchor content h).inv in
      let n = Chain-length c w.chain in
      (Chain-at c (omega (arith, n)) refl w.chain, w.count, omega (arith, n))

  -- Unless the verdict is INVALID, two logs with the same head hold the same records in the same
  -- order, or a record of the one and a different
  -- record of the other have one hash.
  pub tamper_evident :
      (k k' : Keyring) (a a' : Option Head) (content content' : Bytes)
      → (verify c k a content).status ≢ not_valid
      → (verify c k' a' content').status ≢ not_valid
      → (verify c k a content).head ≡ (verify c k' a' content').head
      → (entries content ≡ entries content') ⊎ Collision c (entries content) (entries content')
  tamper_evident k k' a a' content content' v v' h =
      let (t, n, m) = verify-Chain k a content v in
      let (t', n', m') = verify-Chain k' a' content' v' in
      Chain-unique c t t' (ap (λ x. suc x.seq) h) (ap (λ x. x.hash) h)

  -- A log that passes against the head of an earlier log holds all its records, unchanged and in
  -- order, with newer ones behind them at most, or a
  -- record of the one and a different record of the other have one hash.
  pub anchor_holds :
      (k k' : Keyring) (a : Option Head) (old new : Bytes)
      → (verify c k a old).status ≢ not_valid
      → (verify c k' (some (verify c k a old).head) new).status ≢ not_valid
      → ((newer : List Bytes) × (entries new ≡ newer ++ entries old))
        ⊎ Collision c (entries new) (entries old)
  anchor_holds k k' a old new v v' =
      let (t, n, m) = verify-Chain k a old v in
      let w = verify-Walked k' (some (verify c k a old).head) new v' in
      let p = w.inv.passed (verify c k a old).head refl (w.seen (verify c k a old).head refl) in
      elim (Chain-unique c p.chain t refl refl) [
        | inl e ↦ inl (p.newer, p.splits ∙ ap (λ r. p.newer ++ r) e)
        | inr x ↦
            inr (
              subst (λ r. Collision c r (entries old)) (sym p.splits)
                (Collision-append c p.newer x))
      ]
