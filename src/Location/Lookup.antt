-- ===== src/Location/Lookup.antt =====
-- Which location a lookup finds, and how it is named to the backend.
use kiro_usage_pipeline.Base.{
  true, Option, none, some, ◌≡◌, ◌⊎◌, ◌↔◌, arith, Text, lit, if◌then◌else◌,
}
use kiro_usage_pipeline.Value.{str, dict, Fields, field, end}
use kiro_usage_pipeline.Validation.{or_blank, is_missing}
use kiro_usage_pipeline.Validation.Location.{Inputs}
use kiro_usage_pipeline.Validation.Location.Bindable.{IsGiven}
use kiro_usage_pipeline.Location.{Location, code, hash, to_code_location_dict, to_identifier}
use kiro_usage_pipeline.Location.Inputs.{code_location, parse_lookup_inputs}

module _ (location_hash : Option Text) (i : Inputs) where
  -- A hash, or a language and a file path.
  abbrev pub IsFindable : Type 0
  IsFindable = IsGiven location_hash ⊎ (IsGiven i.language × IsGiven i.file_path)

  -- The hash goes before the code location.
  abbrev pub location_of : Location
  location_of =
      if is_missing location_hash then code (code_location i) else hash (or_blank location_hash)

  abbrev pub identifier_of : Fields
  identifier_of =
      if is_missing location_hash
      then field (lit "CodeLocation") (dict (to_code_location_dict (code_location i))) end
      else field (lit "LocationHash") (str (or_blank location_hash)) end

  -- A lookup by hash or by code location is accepted exactly when a hash is given, or a language
  -- and a file path; then the location is that of the hash if one is given, else the code
  -- location of the inputs.
  pub parse_lookup_inputs_iff :
      (location : Location)
      → (parse_lookup_inputs location_hash i true ≡ (some location, none))
        ↔ (IsFindable × (location ≡ location_of))
  unfolding parse_lookup_inputs
  parse_lookup_inputs_iff location = ground arith

  pub to_identifier-location_of : to_identifier location_of ≡ some identifier_of
  unfolding to_identifier
  to_identifier-location_of = ground arith
