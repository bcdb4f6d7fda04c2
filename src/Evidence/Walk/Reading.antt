-- ===== src/Evidence/Walk/Reading.antt =====
-- What a line is that the walk could parse, and when it calls a line damaged.
use probavi.Base.{◌≡◌, ◌≢◌, refl, true, Option, none, some, arith, beq_iff, Bytes}
use probavi.Evidence.Codes.{supported_schema}
use probavi.Evidence.Result.{Result, ok, fails}
use probavi.Evidence.Json.{Json, null, boolean, number, text, array, object, Fields}
use probavi.Evidence.Canonical.{canonicalize}
use probavi.Evidence.Record.{Record}
use probavi.Evidence.Codec.{Codec}
use probavi.Evidence.Walk.{
  damage, parsed, parse_struct, parse_form, parse_decoded, parse_object, parse_canonical,
}

module _ (c : Codec) where
  pub record IsParsed (line : Bytes) (rec : Record) (fs : Fields) : Type 0 where
    pub read : c.decode_strict line ≡ some (object fs)
    pub canonical : canonicalize (object fs) ≡ ok line
    pub decoded : c.unmarshal line ≡ some rec
    pub schema : supported_schema rec.schema ≡ true

  parse_struct-parsed :
      (gs : Fields) (r : Option Record) {rec : Record} {fs : Fields}
      → parse_struct gs r ≡ parsed rec fs
      → (gs ≡ fs) × (r ≡ some rec) × (supported_schema rec.schema ≡ true)
  unfolding parse_struct
  parse_struct-parsed gs none h = cc
  parse_struct-parsed gs (some r) h = ground arith

  parse_object-parsed :
      (line : Bytes) (v : Json) {rec : Record} {fs : Fields}
      → parse_object c line v ≡ parsed rec fs
      → (v ≡ object fs) × (c.unmarshal line ≡ some rec) × (supported_schema rec.schema ≡ true)
  unfolding parse_object
  parse_object-parsed line (object gs) h =
      let (p, q, s) = parse_struct-parsed gs (c.unmarshal line) h in (cc p, q, s)
  parse_object-parsed line null h = cc
  parse_object-parsed line (boolean b) h = cc
  parse_object-parsed line (number s) h = cc
  parse_object-parsed line (text s) h = cc
  parse_object-parsed line (array xs) h = cc

  parse_form-parsed :
      (line : Bytes) (v : Json) (r : Result Bytes) {rec : Record} {fs : Fields}
      → parse_form c line v r ≡ parsed rec fs
      → (r ≡ ok line) × (parse_object c line v ≡ parsed rec fs)
  unfolding parse_form
  parse_form-parsed line v (fails e) h = cc
  parse_form-parsed line v (ok b) h = ground (arith, beq_iff b line)

  parse_decoded-parsed :
      (line : Bytes) (d : Option Json) {rec : Record} {fs : Fields}
      → c.decode_strict line ≡ d
      → parse_decoded c line d ≡ parsed rec fs
      → IsParsed line rec fs
  unfolding parse_decoded
  parse_decoded-parsed line none e h = cc
  parse_decoded-parsed line (some v) e h =
      let (f, o) = parse_form-parsed line v (canonicalize v) h in
      let (p, d, s) = parse_object-parsed line v o in
      record { read = cc; canonical = cc; decoded = d; schema = s }

  pub parse_canonical-parsed :
      (line : Bytes) {rec : Record} {fs : Fields}
      → parse_canonical c line ≡ parsed rec fs
      → IsParsed line rec fs
  unfolding parse_canonical
  parse_canonical-parsed line h = parse_decoded-parsed line (c.decode_strict line) refl h

  parse_struct-ne-damage : (gs : Fields) (r : Option Record) → parse_struct gs r ≢ damage
  unfolding parse_struct
  parse_struct-ne-damage gs none = λ h. cc
  parse_struct-ne-damage gs (some r) = ground arith

  parse_object-ne-damage : (line : Bytes) (v : Json) → parse_object c line v ≢ damage
  unfolding parse_object
  parse_object-ne-damage line (object gs) = parse_struct-ne-damage gs (c.unmarshal line)
  parse_object-ne-damage line null = λ h. cc
  parse_object-ne-damage line (boolean b) = λ h. cc
  parse_object-ne-damage line (number s) = λ h. cc
  parse_object-ne-damage line (text s) = λ h. cc
  parse_object-ne-damage line (array xs) = λ h. cc

  parse_form-ne-damage :
      (line : Bytes) (v : Json) (r : Result Bytes) → parse_form c line v r ≢ damage
  unfolding parse_form
  parse_form-ne-damage line v (fails e) = λ h. cc
  parse_form-ne-damage line v (ok b) = ground (arith, parse_object-ne-damage line v)

  parse_decoded-damage :
      (line : Bytes) (d : Option Json) → parse_decoded c line d ≡ damage → d ≡ none
  unfolding parse_decoded
  parse_decoded-damage line none h = refl
  parse_decoded-damage line (some v) h = absurd (parse_form-ne-damage line v (canonicalize v) h)

  pub parse_canonical-damage :
      (line : Bytes) → parse_canonical c line ≡ damage → c.decode_strict line ≡ none
  unfolding parse_canonical
  parse_canonical-damage line h = parse_decoded-damage line (c.decode_strict line) h
