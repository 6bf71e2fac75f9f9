-- ===== src/Gateway/Failures.antt =====
-- How the failure text of an operation begins.
use kiro_usage_pipeline.Base.{◌++◌, Bool-cases, inl, inr, Text, lit}
use kiro_usage_pipeline.Errors.{Kind, client_error, AwsException, Prose}
use kiro_usage_pipeline.Errors.Layout.{
  StartsWith, render_client_error-StartsWith, translate_aws_error-StartsWith,
}
use kiro_usage_pipeline.Gateway.{is_tailored, render_error}

render_of_kind :
    (k : Kind) (text : Text) (p : Prose)
    → StartsWith (render_error (record { kind = k; text = text }) p) (lit "Failed to " ++ p.action)
unfolding render_error
render_of_kind (client_error r) text p = elim (Bool-cases (is_tailored p)) [
  | inl e ↦ rw e (render_client_error-StartsWith r text p)
  | inr e ↦ rw e (translate_aws_error-StartsWith _ p.action p.attempted)
]
render_of_kind k text p = translate_aws_error-StartsWith _ p.action p.attempted

-- Every failure that an operation reports begins with `Failed to` and the operation's action,
-- whatever the exception is, and whatever text the operation asks for after it.
pub render_error-StartsWith :
    (exc : AwsException) (p : Prose)
    → StartsWith (render_error exc p) (lit "Failed to " ++ p.action)
render_error-StartsWith exc p = render_of_kind exc.kind exc.text p
