-- ===== src/Gateway/Allowed.antt =====
-- The allowlist and the branches of `_bind_method` agree.
use kiro_usage_pipeline.Base.{
  true, false, none, ◌≡◌, ◌≢◌, ◌↔◌, refl, arith, Text, lit, contains, text_eq,
}
use kiro_usage_pipeline.Value.{Fields}
use kiro_usage_pipeline.Gateway.{Client, allowed_operations, bind_method, call, disallowed}

-- A method is bound exactly for the allowed names, so that the last `raise` of `_bind_method` is
-- never reached through `_call`; for a name that is not allowed, the reply is a `ValueError`,
-- whatever the client's methods do.
pub call_allowed :
    (c : Client) (name : Text) (kwargs : Fields)
    → ((contains allowed_operations name ≡ true) ↔ (bind_method c name ≢ none))
      × (contains allowed_operations name ≡ false → call c name kwargs ≡ disallowed name)
unfolding call bind_method
call_allowed c name kwargs = ground arith

module _ (c : Client) (kwargs : Fields) where
  pub call-create :
      call c (lit "create_instrumentation_configuration") kwargs
      ≡ c.create_instrumentation_configuration kwargs
  unfolding call bind_method lit text_eq
  call-create = refl

  pub call-get :
      call c (lit "get_instrumentation_configuration") kwargs
      ≡ c.get_instrumentation_configuration kwargs
  unfolding call bind_method lit text_eq
  call-get = refl

  pub call-delete :
      call c (lit "delete_instrumentation_configuration") kwargs
      ≡ c.delete_instrumentation_configuration kwargs
  unfolding call bind_method lit text_eq
  call-delete = refl

  pub call-batch_delete :
      call c (lit "batch_delete_instrumentation_configurations") kwargs
      ≡ c.batch_delete_instrumentation_configurations kwargs
  unfolding call bind_method lit text_eq
  call-batch_delete = refl
