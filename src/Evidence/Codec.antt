-- ===== src/Evidence/Codec.antt =====
-- What the evidence log takes from encoding/json and the crypto packages: reading a line, SHA-256,
-- ed25519 and base64.
use probavi.Base.{Bool, Option, ◌++◌, codes, Bytes}
use probavi.Evidence.Json.{Json}
use probavi.Evidence.Record.{Record}

pub record Codec : Type 0 where
  -- `decodeStrict`: one JSON value and nothing behind it.
  pub decode_strict : Bytes → Option Json
  -- `json.Unmarshal(line, &rec)`.
  pub unmarshal : Bytes → Option Record
  -- `hex.EncodeToString` of `sha256.Sum256`.
  pub sha256_hex : Bytes → Bytes
  -- `ed25519.Sign` with a private key, `ed25519.Verify` with a public one.
  pub sign : Bytes → Bytes → Bytes
  pub verify : Bytes → Bytes → Bytes → Bool
  -- `base64.StdEncoding`.
  pub encode_base64 : Bytes → Bytes
  pub decode_base64 : Bytes → Option Bytes

-- `lineHash`.
abbrev pub line_hash : Codec → Bytes → Bytes
line_hash c line = codes "sha256:" ++ c.sha256_hex line
