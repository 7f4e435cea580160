-- ===== src/Handler/Json.antt =====
-- What the handlers use of nlohmann::json, which is no part of the repository: the documents that
-- they build, and a record of the library's functions.
use voxtral_server.Base.Float.{Float}
use voxtral_server.Base.Int.{ℤ}
use voxtral_server.Base.{Bool, Option, Bytes}

-- A document. The members of an object are written in the order of the code.
mutual
  pub data Doc : Type 0 where
    null : Doc
    flag : Bool → Doc
    number : ℤ → Doc
    text : Bytes → Doc
    array : Items → Doc
    object : Members → Doc

  pub data Items : Type 0 where
    items : Items
    item : Doc → Items → Items

  pub data Members : Type 0 where
    members : Members
    member : Bytes → Doc → Members → Members

-- What `json::parse` does: it returns a value, throws a `parse_error`, or throws another exception
-- of the library (a number out of range).
pub data Parsed (Value : Type 0) : Type 0 where
  parsed : Value → Parsed Value
  parse_error : Parsed Value
  other_error : Parsed Value

pub record JsonApi : Type 1 where
  pub Value : Type 0
  pub parse : Bytes → Parsed Value
  -- `value(key, default)`; `none` is the type error that it throws where the value is no object, or
  -- has a member of another type under the key.
  pub text_value : Value → Bytes → Bytes → Option Bytes
  pub float_value : Value → Bytes → Float → Option Float
  pub dump : Doc → Bytes
