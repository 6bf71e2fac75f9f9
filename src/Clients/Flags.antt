-- ===== src/Clients/Flags.antt =====
-- The client that an operation gets where the entry script was called with --region and --profile.
use kiro_usage_pipeline.Base.{Option, none, some, [], ◌∷◌, ◌≡◌, refl, Text, lit, text_eq}
use kiro_usage_pipeline.Region.{resolve_region, set_region}
use kiro_usage_pipeline.Clients.{Environ, Sdk, build_client}
use kiro_usage_pipeline.Entry.{Args, set_profile, prepared}

-- The profile that is asked for: the flag where it is not blank, else that of the environment.
abbrev pub asked_profile : Option Text → Option Text → Option Text
asked_profile none ambient = ambient
asked_profile (some []) ambient = ambient
asked_profile (some (c ∷ s)) ambient = some (c ∷ s)

module _ {C : Type 0} (sdk : Sdk C) (service : Text) (environ : Environ) where
  build_client-flags :
      (region : Option Text) (profile : Option Text)
      → build_client sdk service (set_profile profile (set_region region environ))
        ≡ sdk.make service
            (asked_profile profile (environ (lit "AWS_PROFILE")))
            (resolve_region environ region)
  unfolding build_client set_profile set_region resolve_region lit text_eq
  build_client-flags none none = refl
  build_client-flags none (some []) = refl
  build_client-flags none (some (c ∷ s)) = refl
  build_client-flags (some []) none = refl
  build_client-flags (some []) (some []) = refl
  build_client-flags (some []) (some (c ∷ s)) = refl
  build_client-flags (some (d ∷ r)) none = refl
  build_client-flags (some (d ∷ r)) (some []) = refl
  build_client-flags (some (d ∷ r)) (some (c ∷ s)) = refl

  -- A client built in the environment that the entry script prepares has the profile of the flag, or
  -- of the environment where that is omitted or blank, and the region that the flag has as an
  -- explicit argument.
  pub build_client-prepared :
      (args : Args)
      → build_client sdk service (prepared args environ)
        ≡ sdk.make service
            (asked_profile args.profile (environ (lit "AWS_PROFILE")))
            (resolve_region environ args.region)
  build_client-prepared args = build_client-flags args.region args.profile
