-- ===== src/Snapshot/Rendering/Sample/Documentation.antt =====
-- The documentation of the fields that goes with a sample.
use kiro_usage_pipeline.Base.{[], ◌∷◌, lit}
use kiro_usage_pipeline.Value.{str, Fields}
use kiro_usage_pipeline.Value.Dict.{of_entries}

abbrev pub field_documentation : Fields
field_documentation = of_entries (
    (lit "attributes.aws.di.snapshot_id", str (lit "Unique snapshot identifier (UUID v4)."))
    ∷ (lit "timeUnixNano", str (lit "Snapshot timestamp in nanoseconds since Unix epoch."))
    ∷ (
      lit "attributes.aws.di.duration_ms",
      str (
          lit
            "Function execution duration in milliseconds. Present for method-level breakpoints only; absent for line-level."),
    )
    ∷ (lit "resource.attributes.service.name", str (lit "Service name from OTel resource."))
    ∷ (
      lit "resource.attributes.deployment.environment",
      str (
          lit
            "Deployment environment from OTel resource (legacy semconv key used by the Python agent and the Java agent's fallback path). Filter on both this key and resource.attributes.deployment.environment.name to cover every agent path."),
    )
    ∷ (
      lit "resource.attributes.deployment.environment.name",
      str (
          lit
            "Deployment environment under the modern semconv key. The Java agent emits this via OTel autoconfiguration / OTEL_RESOURCE_ATTRIBUTES."),
    )
    ∷ (
      lit "attributes.aws.di.location_hash",
      str (
          lit
            "Breakpoint identifier. Use in filters: attributes.aws.di.location_hash = \"<value>\""),
    )
    ∷ (
      lit "attributes.aws.di.*",
      str (
          lit
            "Breakpoint location metadata: code_unit, class_name, method_name, file_path, instrumentation_level, instrumentation_type."),
    )
    ∷ (
      lit "traceId",
      str (
          lit
            "OpenTelemetry trace ID (hex, 32 chars). Use to filter snapshots from the same request: traceId = \"<value>\""),
    )
    ∷ (
      lit "spanId",
      str (
          lit
            "OpenTelemetry span ID (hex, 16 chars). Use with traceId for precise span correlation."),
    )
    ∷ (
      lit "body.stack",
      str (
          lit
            "Call stack frames (file_path, function, line_number), top to bottom. First few frames are DI internals; application frames follow after."),
    )
    ∷ (
      lit "body.captures.entry.arguments.<name>",
      str (
          lit
            "Input arguments at function entry (method-level only). Filter: @message like /\"arguments\"/ and @message like /\"<name>\"/"),
    )
    ∷ (
      lit "body.captures.entry.locals.<name>",
      str (lit "Local variables at function entry (method-level only)."),
    )
    ∷ (
      lit "body.captures.return.return_value",
      str (
          lit
            "Function return value (method-level only). Filter: @message like /\"return_value\"/ and @message like /\"<value>\"/"),
    )
    ∷ (
      lit "body.captures.return.arguments.<name>",
      str (lit "Arguments at function exit. Compare with entry arguments to detect mutation."),
    )
    ∷ (
      lit "body.captures.return.locals.<name>",
      str (lit "Local variables at function exit (method-level only)."),
    )
    ∷ (
      lit "body.captures.return.throwable",
      str (lit "Exception info if function threw: type, message, stacktrace."),
    )
    ∷ (
      lit "body.captures.lines.<line>.locals.<name>",
      str (
          lit
            "Local variables at a specific line (line-level only). Filter: @message like /\"locals\"/ and @message like /\"<name>\"/"),
    )
    ∷ (
      lit "CapturedValue shapes",
      str (
          lit
            "Each captured value has 'type' and one of: 'value' (string representation for primitives/strings/numbers), 'fields' (map of field name to CapturedValue, for objects/structs), 'elements' (array of CapturedValue, for lists/arrays), 'entries' (array of {key: CapturedValue, value: CapturedValue}, for maps/dicts), 'is_null': true (for null values), 'not_captured_reason' — the literal is agent-specific: Python emits lowercase camelCase (depth, fieldCount, timeout); Java emits uppercase enum names (DEPTH, TIMEOUT). Match both forms when filtering. Oversize collections/maps are signaled via 'truncated: true' plus 'size' (original element count), not via a not_captured_reason."),
    )
    ∷ [])
