-- ===== src/Evidence/Json.antt =====
-- What `decodeStrict` returns: an `any` with numbers kept as text. A Go map is listed in some order,
-- each key once.
use probavi.Base.{Bool, Bytes}

mutual
  pub data Json : Type 0 where
    null : Json
    boolean : Bool → Json
    number : Bytes → Json
    text : Bytes → Json
    array : Items → Json
    object : Fields → Json

  pub data Items : Type 0 where
    nil : Items
    cons : Json → Items → Items

  pub data Fields : Type 0 where
    end : Fields
    field : Bytes → Json → Fields → Fields
