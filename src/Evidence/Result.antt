-- ===== src/Evidence/Result.antt =====
-- Errors of internal/evidence as values: the sentinel that `errors.Is` finds, the wording left out.
use probavi.Base.{Bool, true, false, if◌then◌else◌, ◌≡◌, refl}
use probavi.Evidence.Codes.{Sentinel}

-- A result with a nil error, or the error.
pub data Result {ℓ} (A : Type ℓ) : Type ℓ where
  fails : Sentinel → Result A
  ok : A → Result A

infixr 4 ◌>>◌
infixl 4 ◌>>=◌
-- `if err != nil { return err }` behind a check.
abbrev pub ◌>>◌ {κ} : {B : Type κ} → Result (Unit {0}) → Result B → Result B
fails e >> next = fails e
ok u >> next = next

-- The same behind a call whose value is used.
abbrev pub ◌>>=◌ {ℓ κ} : {A : Type ℓ} {B : Type κ} → Result A → (A → Result B) → Result B
r >>= next = elim r [ fails e ↦ fails e | ok value ↦ next value ]

-- The early return of an error where a condition does not hold.
abbrev pub require : Bool → Sentinel → Result (Unit {0})
require holds e = if holds then ok tt else fails e

-- A chain without an error had none at any place.
pub >>-ok {κ} :
    {B : Type κ} {b : B} (m : Result (Unit {0})) (k : Result B)
    → (m >> k) ≡ ok b
    → (m ≡ ok tt) × (k ≡ ok b)
>>-ok (fails e) k h = cc
>>-ok (ok u) k h = (refl, h)

pub ok->> : (m k : Result (Unit {0})) → m ≡ ok tt → k ≡ ok tt → (m >> k) ≡ ok tt
ok->> m k p q = rw p q

pub >>=-ok {ℓ κ} :
    {B : Type κ} {b : B} {A : Type ℓ} (r : Result A) (k : A → Result B)
    → (r >>= k) ≡ ok b
    → (a : A) × (k a ≡ ok b) × (r ≡ ok a)
>>=-ok (fails e) k h = cc
>>=-ok (ok a) k h = (a, h, refl)

pub require-ok : (b : Bool) (e : Sentinel) → require b e ≡ ok tt → b ≡ true
require-ok true e h = refl
require-ok false e h = cc
