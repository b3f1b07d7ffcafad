-- ===== src/Signing.antt =====
-- signing.go: what is signed and what is verified.
use hookbound.Base.{List, Text}
use hookbound.Http.{Header}
use hookbound.Retry.{Time}

-- SignInput
pub record SignInput : Type 0 where
  pub message_id : Text
  pub timestamp : Time
  pub body : Text
  pub headers : Header

-- VerifyInput
pub record VerifyInput : Type 0 where
  pub headers : Header
  pub body : Text
  pub received_at : Time

-- Verification
pub record Verification : Type 0 where
  pub id : Text
  pub event_type : Text
  pub source : Text
  pub timestamp : Time
  pub metadata : List (Text × Text)
