-- ===== src/Api.antt =====
-- The HTTP layer of the browser client (resources/js/api): what a request answers with.
pub mod Cache
pub mod Capacity
pub mod CachedGet
pub mod Retry
pub mod Coherence
pub mod Sharing
pub mod Client
pub mod Messages
mod Scenarios
use fleximo_oss.Base.{ℕ, Bool, Option, String}

-- A JSON document. A number that is not whole is kept as its text.
mutual
  pub data Json : Type 0 where
    null : Json
    bool : Bool → Json
    num : ℕ → Json
    real : String → Json
    str : String → Json
    arr : Items → Json
    obj : Fields → Json

  pub data Items : Type 0 where
    nil : Items
    cons : Json → Items → Items

  pub data Fields : Type 0 where
    end : Fields
    field : String → Json → Fields → Fields

-- `ApiResponse`; `none` is `null`.
pub record ApiResponse : Type 0 where
  pub payload : Option Json
  pub error_data : Option Json
  pub error : Option String
  pub status : ℕ
