-- ===== src/Operation.antt =====
-- di_result.py (.pi/skills/aws-observability/scripts), and an operation as what it does: it
-- answers, or it sends one request and goes on with the reply.
pub mod Run
pub mod Late
use kiro_usage_pipeline.Base.{Bool, Option, none, some, [], Text}
use kiro_usage_pipeline.Value.{Fields}
use kiro_usage_pipeline.Errors.{AwsException}

pub record OpResult : Type 0 where
  pub ok : Bool
  pub text : Text

-- What an operation sees of a reply: the response, or a `GatewayError` with its `original_exc`.
pub data Reply : Type 0 where
  response : Fields → Reply
  gateway_error : AwsException → Reply

-- `raises` is an exception that the operation does not handle.
pub data Op : Type 0 where
  done : OpResult → Op
  raises : Text → Op
  request : (name : Text) (kwargs : Fields) → (Reply → Op) → Op

-- `return OpResult(ok, text)`
abbrev pub answer : Bool → Text → Op
answer ok text = done (record { ok = ok; text = text })

-- The same for a text whose rendering may raise.
abbrev pub answer_rendered : Bool → Option Text → Op
answer_rendered ok none = raises []
answer_rendered ok (some text) = answer ok text
