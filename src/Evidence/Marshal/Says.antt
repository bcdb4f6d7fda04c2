-- ===== src/Evidence/Marshal/Says.antt =====
-- What a map of parameters says.
use probavi.Base.{◌≡◌, Option, none, some, List, [], ◌∷◌, beq, if◌then◌else◌, Bytes}

abbrev pub param : Bytes → List (Bytes × Bytes) → Option Bytes
param k [] = none
param k ((l, v) ∷ ps) = if beq k l then some v else param k ps

-- A Go map of parameters is what it holds under each key, or nil.
abbrev pub SameParams : Option (List (Bytes × Bytes)) → Option (List (Bytes × Bytes)) → Type 0
SameParams none none = Unit
SameParams (some ps) (some qs) = (k : Bytes) → param k ps ≡ param k qs
SameParams _ _ = ⊥
