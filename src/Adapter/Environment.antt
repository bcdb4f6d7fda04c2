-- ===== src/Adapter/Environment.antt =====
-- internal/adapter/session.go: the environment of an adapter process.
use probavi.Base.{
  ◌≡◌, ◌≢◌, ◌↔◌, refl, sym, ap, subst, beq_iff, ne_of_beq, ◌⊎◌, inl, inr, Bool, true, false, Option,
  none, some, List, [], ◌∷◌, ◌++◌, if◌then◌else◌, beq, contains, contains-false_iff, codes,
  Bool-cases, Mem, here, there, Mem-cons, Mem-cases, Mem-left, Mem-append, Distinct, Bytes,
}

abbrev pub baseline : List Bytes
baseline = codes "PATH" ∷ codes "HOME" ∷ codes "LANG" ∷ codes "TZ" ∷ []

abbrev set_value : Bytes → Option Bytes → List (Bytes × Bytes) → List (Bytes × Bytes)
set_value name none rest = rest
set_value name (some v) rest = (name, v) ∷ rest

-- The loop of `buildEnv` over the names, with the keys of `seen`; `look_up` is `os.LookupEnv`.
unfoldable pub pass_through :
    (Bytes → Option Bytes) → List Bytes → List Bytes → List (Bytes × Bytes)
pass_through look_up seen [] = []
pass_through look_up seen (name ∷ names) =
    let skipped = pass_through look_up seen names in
    let taken = set_value name (look_up name) (pass_through look_up (name ∷ seen) names) in
    if contains seen name then skipped else taken

-- `buildEnv`, by names and values; `extra` is a map, in the order of its entries.
unfoldable pub build_env :
    (Bytes → Option Bytes) → List Bytes → List (Bytes × Bytes) → List (Bytes × Bytes)
unfolding pass_through
build_env look_up credential_env extra =
    pass_through look_up [] (baseline ++ credential_env) ++ extra

abbrev pub names_of : List (Bytes × Bytes) → List Bytes
names_of [] = []
names_of (kv ∷ env) = kv.0 ∷ names_of env

-- What an environment holds: the variables that are passed on, and the extras.
pub record PassesOn (look_up : Bytes → Option Bytes) (credential_env : List Bytes)
    (extra env : List (Bytes × Bytes)) : Type 0 where
  pub entries :
      (kv : Bytes × Bytes)
      → Mem kv env
        ↔ ((Mem kv.0 (baseline ++ credential_env) × (look_up kv.0 ≡ some kv.1)) ⊎ Mem kv extra)
  pub passed : List (Bytes × Bytes)
  pub split : env ≡ passed ++ extra
  pub once : Distinct (names_of passed)

module _ (look_up : Bytes → Option Bytes) where
  set_value-Mem :
      (name : Bytes) (o : Option Bytes) (rest : List (Bytes × Bytes)) (kv : Bytes × Bytes)
      → look_up name ≡ o
      → Mem kv (set_value name o rest)
      → ((kv.0 ≡ name) × (look_up kv.0 ≡ some kv.1)) ⊎ Mem kv rest
  set_value-Mem name none rest kv e m = inr m
  set_value-Mem name (some v) rest kv e m = elim (Mem-cons m) [
    | inl q ↦ inl (
      ap (λ (z : Bytes × Bytes). z.0) q,
      subst (λ (z : Bytes × Bytes). look_up z.0 ≡ some z.1) (sym q) e,
    )
    | inr k ↦ inr k
  ]

  -- An entry is one of a name that is not seen, with the value of the host.
  pass_through-Mem :
      (seen names : List Bytes) (kv : Bytes × Bytes)
      → Mem kv (pass_through look_up seen names)
      → Mem kv.0 names × (look_up kv.0 ≡ some kv.1) × (¬ Mem kv.0 seen)
  unfolding pass_through
  pass_through-Mem seen [] kv m = elim m [ ]
  pass_through-Mem seen (name ∷ names) kv m = elim (Bool-cases (contains seen name)) [
    | inl t ↦ let (a, b, c) = pass_through-Mem seen names kv (rw t at m) in (there a, b, c)
    | inr f ↦
        elim (set_value-Mem name (look_up name) (pass_through look_up (name ∷ seen) names) kv refl
          (rw f at m)) [
            | inl (q, v) ↦ (
              subst (λ z. Mem z (name ∷ names)) (sym q) here,
              v,
              subst (λ z. ¬ Mem z seen) (sym q) ((contains-false_iff seen name).0 f),
            )
            | inr k ↦
                let (a, b, c) = pass_through-Mem (name ∷ seen) names kv k in
                (there a, b, λ j. c (there j))
          ]
  ]

  set_value-Distinct :
      (name : Bytes) (o : Option Bytes) (rest : List (Bytes × Bytes))
      → ¬ Mem name (names_of rest)
      → Distinct (names_of rest)
      → Distinct (names_of (set_value name o rest))
  set_value-Distinct name none rest n d = d
  set_value-Distinct name (some v) rest n d = (n, d)

  names_of-Mem :
      (env : List (Bytes × Bytes)) (name : Bytes)
      → Mem name (names_of env)
      → (v : Bytes) × Mem (name, v) env
  names_of-Mem [] name m = elim m [ ]
  names_of-Mem (kv ∷ env) name m = elim (Mem-cons m) [
    | inl q ↦ (kv.1, subst (λ z. Mem (z, kv.1) (kv ∷ env)) (sym q) here)
    | inr k ↦ let (v, j) = names_of-Mem env name k in (v, there j)
  ]

  pass_through-Distinct :
      (seen names : List Bytes) → Distinct (names_of (pass_through look_up seen names))
  unfolding pass_through
  pass_through-Distinct seen [] = tt
  pass_through-Distinct seen (name ∷ names) =
      by (contains seen name) _ _ (pass_through-Distinct seen names)
        (set_value-Distinct name (look_up name) _ fresh (pass_through-Distinct (name ∷ seen) names))
    where
      fresh : ¬ Mem name (names_of (pass_through look_up (name ∷ seen) names))
      fresh m =
          let (v, k) = names_of-Mem _ name m in
          let (a, b, c) = pass_through-Mem (name ∷ seen) names (name, v) k in c here

      by :
          (b : Bool) (x y : List (Bytes × Bytes))
          → Distinct (names_of x)
          → Distinct (names_of y)
          → Distinct (names_of (if b then x else y))
      by true x y d e = d
      by false x y d e = e

  set_value-complete :
      (name : Bytes) (o : Option Bytes) (rest : List (Bytes × Bytes)) (v : Bytes)
      → o ≡ some v
      → Mem (name, v) (set_value name o rest)
  set_value-complete name none rest v e = cc
  set_value-complete name (some u) rest v e =
      subst (λ z. Mem (name, v) ((name, z) ∷ rest)) (cc) here

  pass_through-complete :
      (seen names : List Bytes) (name v : Bytes)
      → Mem name names
      → ¬ Mem name seen
      → look_up name ≡ some v
      → Mem (name, v) (pass_through look_up seen names)
  unfolding pass_through
  pass_through-complete seen [] name v m n e = elim m [ ]
  pass_through-complete seen (x ∷ xs) name v m n e = elim (Bool-cases (beq x name)) [
    | inl q ↦
        let same = (beq_iff x name).0 q in
        rw ((contains-false_iff seen x).1 (subst (λ z. ¬ Mem z seen) (sym same) n)) (
          subst (λ z. Mem (name, v) (set_value z (look_up z) (pass_through look_up (x ∷ seen) xs)))
            (sym same) (set_value-complete name (look_up name) _ v e))
    | inr q ↦
        let later = tail_of m (ne_of_beq x name q) in
        by (contains seen x) (pass_through-complete seen xs name v later n e) (
          set_value-later x (look_up x) _ (
            pass_through-complete (x ∷ seen) xs name v later
              (λ k. elim (Mem-cons k) [ inl w ↦ ne_of_beq x name q (sym w) | inr j ↦ n j ]) e))
  ]
    where
      tail_of : Mem name (x ∷ xs) → x ≢ name → Mem name xs
      tail_of k w = elim (Mem-cons k) [ inl z ↦ absurd (w (sym z)) | inr j ↦ j ]

      set_value-later :
          (y : Bytes) (o : Option Bytes) (rest : List (Bytes × Bytes))
          → Mem (name, v) rest
          → Mem (name, v) (set_value y o rest)
      set_value-later y none rest k = k
      set_value-later y (some u) rest k = there k

      by :
          (b : Bool) {a c : List (Bytes × Bytes)}
          → Mem (name, v) a
          → Mem (name, v) c
          → Mem (name, v) (if b then a else c)
      by true h k = h
      by false h k = k

  -- The environment of an adapter holds the extras of the core and, of the variables of the host, all
  -- those that are of the baseline or declared as credentials, each once and with its value there, and
  -- nothing else.
  pub build_env-PassesOn :
      (credential_env : List Bytes) (extra : List (Bytes × Bytes))
      → PassesOn look_up credential_env extra (build_env look_up credential_env extra)
  unfolding build_env
  build_env-PassesOn credential_env extra =
      let names = baseline ++ credential_env in
      record {
        entries = λ kv. (
          λ m. elim (Mem-cases (pass_through look_up [] names) m) [
            | inl k ↦ let (a, b, c) = pass_through-Mem [] names kv k in inl (a, b)
            | inr k ↦ inr k
          ],
          λ h. elim h [
            | inl k ↦
                Mem-left extra (pass_through-complete [] names kv.0 kv.1 k.0 (λ z. elim z [ ]) k.1)
            | inr k ↦ Mem-append (pass_through look_up [] names) k
          ],
        );
        passed = pass_through look_up [] names;
        split = refl;
        once = pass_through-Distinct [] names;
      }
