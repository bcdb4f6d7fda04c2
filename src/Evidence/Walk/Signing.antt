-- ===== src/Evidence/Walk/Signing.antt =====
-- What a signature is that the walk could verify.
use probavi.Base.{◌≡◌, refl, true, Option, none, some, arith, beq_iff, codes, length, Bytes}
use probavi.Evidence.Result.{Result, ok, fails}
use probavi.Evidence.Json.{object, Fields}
use probavi.Evidence.Canonical.{canonicalize}
use probavi.Evidence.Record.{Record, Signature}
use probavi.Evidence.Codec.{Codec}
use probavi.Evidence.Walk.{
  Keyring, delete, verify_message, verify_bytes, verify_signature, check_signature, verify_key,
}
use probavi.Evidence.Walk.Chain.{IsSigned, Signed}

module _ (c : Codec) where
  verify_message-none :
      (key sig : Bytes) (r : Result Bytes)
      → verify_message c key sig r ≡ none
      → (message : Bytes) × (r ≡ ok message) × (c.verify key message sig ≡ true)
  unfolding verify_message
  verify_message-none key sig (fails e) h = cc
  verify_message-none key sig (ok m) h = (m, refl, ground arith)

  verify_bytes-none :
      (key : Bytes) (b : Option Bytes) (fs : Fields)
      → verify_bytes c key b fs ≡ none
      → (sig : Bytes) × (b ≡ some sig)
        × (length sig ≡ 64)
        × (verify_message c key sig (canonicalize (object (delete (codes "sig") fs))) ≡ none)
  unfolding verify_bytes
  verify_bytes-none key none fs h = cc
  verify_bytes-none key (some sig) fs h = (sig, refl, ground arith, ground arith)

  verify_key-none :
      (key : Option Bytes) (s : Signature) (fs : Fields)
      → verify_key c key s fs ≡ none
      → (k : Bytes) × (key ≡ some k) × (verify_bytes c k (c.decode_base64 s.sig_b64) fs ≡ none)
  unfolding verify_key
  verify_key-none none s fs h = cc
  verify_key-none (some k) s fs h = (k, refl, h)

  verify_signature-none :
      (keyring : Keyring) (sig : Option Signature) (fs : Fields)
      → verify_signature c keyring sig fs ≡ none
      → (s : Signature) × (sig ≡ some s) × IsSigned c keyring fs s
  unfolding verify_signature
  verify_signature-none keyring none fs h = cc
  verify_signature-none keyring (some s) fs h =
      let algorithm : s.alg ≡ codes "ed25519" = ground (arith, beq_iff s.alg (codes "ed25519")) in
      let (key, known, keyed) = verify_key-none (keyring s.key_id) s fs (ground arith) in
      let (b, decoded, size, checked) =
        verify_bytes-none key (c.decode_base64 s.sig_b64) fs keyed in
      let (m, rebuilt, verified) = verify_message-none key b _ checked in
      (
        s,
        refl,
        record {
          alg = algorithm;
          key = key;
          known = known;
          bytes = b;
          decoded = decoded;
          size = size;
          message = m;
          rebuilt = rebuilt;
          verified = verified;
        },
      )

  pub check_signature-none :
      (keyring : Option Keyring) (rec : Record) (fs : Fields)
      → check_signature c keyring rec fs ≡ none
      → Signed c keyring rec fs
  check_signature-none none rec fs h = tt
  check_signature-none (some keyring) rec fs h = verify_signature-none keyring rec.sig fs h
