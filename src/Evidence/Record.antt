-- ===== src/Evidence/Record.antt =====
-- internal/evidence/record.go: the shape of an evidence record. A pointer is an option, a string the
-- list of its bytes, an int64 an integer.
use probavi.Base.{Bool, Option, none, List, Bytes}
use probavi.Base.Int.{ℤ}

-- The Go type is a string; `other` is any value beside the four constants.
pub data Outcome : Type 0 where
  pass fail error cancelled : Outcome
  other : Bytes → Outcome

pub record Drill : Type 0 where
  pub name : Bytes
  pub config_hash : Bytes
  pub pitr_target : Option Bytes

pub record Backup : Type 0 where
  pub kind : Bytes
  pub checksum : Option Bytes
  pub size_bytes : Option ℤ
  pub created_at : Option Bytes
  pub manifest_hash : Option Bytes
  pub manifest_match : Option Bool
  pub newest_data_at : Option Bytes

pub record Adapter : Type 0 where
  pub name : Bytes
  pub version : Option Bytes
  pub protocol : Bytes
  pub digest : Option Bytes

pub record Resources : Type 0 where
  pub memory_bytes : Option ℤ
  pub cpus_milli : Option ℤ

-- `params` is a Go map, listed in some order; `none` is the nil map.
pub record Sandbox : Type 0 where
  pub provider : Bytes
  pub params : Option (List (Bytes × Bytes))
  pub image_digest : Option Bytes
  pub resources : Resources

pub record Timings : Type 0 where
  pub provision : Option ℤ
  pub engine_ready : Option ℤ
  pub transfer : Option ℤ
  pub restore : Option ℤ
  pub validate : Option ℤ
  pub total : Option ℤ

pub record Check : Type 0 where
  pub name : Bytes
  pub passed : Bool
  pub detail : Option Bytes

pub record DrillError : Type 0 where
  pub code : Bytes
  pub message : Bytes

pub record Env : Type 0 where
  pub probavi_version : Bytes
  pub os : Bytes
  pub arch : Bytes
  pub host_id : Bytes
  pub probavi_digest : Option Bytes
  pub clock_synchronised : Option Bool

pub record Signature : Type 0 where
  pub alg : Bytes
  pub key_id : Bytes
  pub sig_b64 : Bytes

-- `checks` is a slice; `none` is the nil slice.
pub record Record : Type 0 where
  pub schema : Bytes
  pub seq : ℤ
  pub prev_hash : Bytes
  pub ts : Bytes
  pub drill : Drill
  pub backup : Backup
  pub adapter : Adapter
  pub sandbox : Sandbox
  pub timings : Timings
  pub checks : Option (List Check)
  pub outcome : Outcome
  pub failure : Option DrillError
  pub env : Env
  pub sig : Option Signature

-- `Timings{}`.
abbrev pub no_timings : Timings
no_timings = record {
  provision = none;
  engine_ready = none;
  transfer = none;
  restore = none;
  validate = none;
  total = none;
}

-- `Resources{}`.
abbrev pub no_resources : Resources
no_resources = record { memory_bytes = none; cpus_milli = none }
