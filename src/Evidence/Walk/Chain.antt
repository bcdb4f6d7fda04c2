-- ===== src/Evidence/Walk/Chain.antt =====
-- What a log is: its parseable lines form a chain of signed records. The definitions say so without
-- the walk.
use probavi.Base.{
  ℕ, suc, ◌≡◌, refl, ◌≢◌, ◌⊎◌, inl, inr, true, Option, none, some, List, [], ◌∷◌, ◌++◌, ◌≤◌, arith,
  Bool-cases, length, beq, beq_iff, codes, Bytes, Mem, here, there, Mem-append,
}
use probavi.Base.Int.{pos}
use probavi.Evidence.Codes.{genesis_prev_hash, supported_schema}
use probavi.Evidence.Result.{ok}
use probavi.Evidence.Json.{object, Fields}
use probavi.Evidence.Canonical.{canonicalize}
use probavi.Evidence.Record.{Record, Signature}
use probavi.Evidence.Codec.{Codec, line_hash}
use probavi.Evidence.Walk.{Keyring, delete}

module _ (c : Codec) where
  -- The signature is ed25519's, by a key of the keyring, over the canonical object without it.
  pub record IsSigned (keyring : Keyring) (fs : Fields) (s : Signature) : Type 0 where
    pub alg : s.alg ≡ codes "ed25519"
    pub key : Bytes
    pub known : keyring s.key_id ≡ some key
    pub bytes : Bytes
    pub decoded : c.decode_base64 s.sig_b64 ≡ some bytes
    pub size : length bytes ≡ 64
    pub message : Bytes
    pub rebuilt : canonicalize (object (delete (codes "sig") fs)) ≡ ok message
    pub verified : c.verify key message bytes ≡ true

  abbrev pub Signed : Option Keyring → Record → Fields → Type 0
  Signed none rec fs = Unit
  Signed (some keyring) rec fs = (s : Signature) × (rec.sig ≡ some s) × IsSigned keyring fs s

  -- The line is the canonical form of a record that carries this seq and this prev_hash.
  pub record IsEntry (keyring : Option Keyring) (line : Bytes) (seq : ℕ) (prev : Bytes)
      : Type 0 where
    pub fs : Fields
    pub rec : Record
    pub parsed : c.decode_strict line ≡ some (object fs)
    pub canonical : canonicalize (object fs) ≡ ok line
    pub decoded : c.unmarshal line ≡ some rec
    pub schema : supported_schema rec.schema ≡ true
    pub seq_is : rec.seq ≡ pos seq
    pub prev_is : rec.prev_hash ≡ prev
    pub signed : Signed keyring rec fs

  -- The records, newest first, with the seq that comes next and the hash of the newest.
  pub data Chain (keyring : Option Keyring) : List Bytes → ℕ → Bytes → Type 0 where
    genesis : Chain keyring [] 1 genesis_prev_hash
    link :
        {line : Bytes} {older : List Bytes} {n : ℕ} {h : Bytes}
        → Chain keyring older n h
        → IsEntry keyring line n h
        → Chain keyring (line ∷ older) (suc n) (line_hash c line)

  -- Two different lines with one hash, one of the first records and one of the second.
  pub record Collision (rs rs' : List Bytes) : Type 0 where
    pub left : Bytes
    pub right : Bytes
    pub among : Mem left rs
    pub among' : Mem right rs'
    pub differ : left ≢ right
    pub collide : line_hash c left ≡ line_hash c right

  Collision-cons :
      {rs rs' : List Bytes} (a b : Bytes) → Collision rs rs' → Collision (a ∷ rs) (b ∷ rs')
  Collision-cons a b k = record {
    left = k.left;
    right = k.right;
    among = there k.among;
    among' = there k.among';
    differ = k.differ;
    collide = k.collide;
  }

  pub Collision-append :
      (newer : List Bytes) {rs rs' : List Bytes} → Collision rs rs' → Collision (newer ++ rs) rs'
  Collision-append newer k = record {
    left = k.left;
    right = k.right;
    among = Mem-append newer k.among;
    among' = k.among';
    differ = k.differ;
    collide = k.collide;
  }

  Chain-pos :
      {keyring : Option Keyring} {rs : List Bytes} {n : ℕ} {h : Bytes}
      → Chain keyring rs n h
      → 1 ≤ n
  Chain-pos genesis = omega arith
  Chain-pos (link t e) = omega (arith, Chain-pos t)

  -- One line is an entry behind one hash only.
  IsEntry-prev :
      {k k' : Option Keyring} {line line' : Bytes} {n n' : ℕ} {h h' : Bytes}
      → IsEntry k line n h
      → IsEntry k' line' n' h'
      → line ≡ line'
      → h ≡ h'
  IsEntry-prev e e' q = cc (e.decoded, e'.decoded, e.prev_is, e'.prev_is)

  extend :
      {rs rs' : List Bytes} {a b : Bytes}
      → a ≡ b
      → (rs ≡ rs') ⊎ Collision rs rs'
      → (a ∷ rs ≡ b ∷ rs') ⊎ Collision (a ∷ rs) (b ∷ rs')
  extend p (inl q) = inl (cc)
  extend {a} {b} p (inr k) = inr (Collision-cons a b k)

  -- Two chains with the same head hold the same lines, or show two lines with one hash.
  pub Chain-unique :
      {k k' : Option Keyring} {rs rs' : List Bytes} {n n' : ℕ} {h h' : Bytes}
      → Chain k rs n h
      → Chain k' rs' n' h'
      → n ≡ n'
      → h ≡ h'
      → (rs ≡ rs') ⊎ Collision rs rs'
  Chain-unique genesis genesis p q = inl refl
  Chain-unique genesis (link t e) p q = absurd (omega (arith, Chain-pos t))
  Chain-unique (link t e) genesis p q = absurd (omega (arith, Chain-pos t))
  Chain-unique (link {line} t e) (link {line = line'} t' e') p q =
      elim (Bool-cases (beq line line')) [
        | inl same ↦
            let l : line ≡ line' = (beq_iff line line').0 same in
            extend l (Chain-unique t t' (omega arith) (IsEntry-prev e e' l))
        | inr differ ↦ inr (record {
          left = line;
          right = line';
          among = here;
          among' = here;
          differ = λ l. cc ((beq_iff line line').1 l, differ);
          collide = q;
        })
      ]

-- The parseable ones of the lines, newest first, in front of `older`.
unfoldable pub records_onto : Codec → List Bytes → List Bytes → List Bytes
records_onto c older [] = older
records_onto c older (l ∷ ls) =
    records_onto c (elim (c.decode_strict l) [ none ↦ older | some v ↦ l ∷ older ]) ls
