-- ===== src/Validation/Location.antt =====
-- di_validation.py: `_validate_location_inputs` and the troubleshooting text that ends its message.
pub mod Bindable
use kiro_usage_pipeline.Base.{
  ℕ, zero, suc, ◌+◌, Bool, true, false, ◌&&◌, ◌||◌, not, Option, none, some, List, [], ◌∷◌, ◌++◌,
  Text, lit, concat, join, strip, split, has_substring, ends_with, show_nat, ◌==◌, contains,
  text_eq, is_empty, ℤ, below_one, show_int, if◌then◌else◌,
}
use kiro_usage_pipeline.Validation.{or_blank, is_missing, show_optional, fold_language}

-- The keyword arguments that describe a code location.
pub record Inputs : Type 0 where
  pub language : Option Text
  pub file_path : Option Text
  pub code_unit : Option Text
  pub class_name : Option Text
  pub method_name : Option Text
  pub line_number : Option ℤ

abbrev show_line : Option ℤ → Text
show_line none = lit "None"
show_line (some n) = show_int n

abbrev when : Bool → Text → List Text
when b t = if b then t ∷ [] else []

abbrev level_lines : Text → Option ℤ → List Text
level_lines lang none = lit "- Breakpoint level: FUNCTION/METHOD-level (line_number omitted)." ∷ []
level_lines lang (some n) =
    concat (lit "- Breakpoint level: LINE-LEVEL (L" ∷ show_int n ∷ lit ")." ∷ [])
    ∷ (if lang == lit "python" || lang == lit "java"
        then lit
            "  * NOTE: target an executable statement. In Python/Java a non-executable line (blank, comment, decorator, signature) is ignored and the breakpoint never fires."
          ∷ []
        else when (lang == lit "javascript") (
            lit
              "  * NOTE: in JavaScript a breakpoint on a non-executable line slides to the next parseable line and fires there — verify it lands where you intend."))

abbrev python_lines : List Text
python_lines =
    lit "- Python rules:"
    ∷ lit
        "  * Set code_unit to the dotted runtime import path for the module that defines the target code."
    ∷ lit "  * Example: services.billing, not billing.py or /app/services/billing.py."
    ∷ lit "  * Use code_unit=\"__main__\" only when the target file is executed"
    ∷ lit "    directly as the process entry script."
    ∷ lit "  * If call site uses direct import aliasing, target importing module and alias name."
    ∷ lit
        "  * If you cannot determine the runtime module path confidently, inspect first instead of guessing."
    ∷ []

abbrev java_lines : List Text
java_lines =
    lit "- Java rules:"
    ∷ lit "  * Set code_unit to the Java package name (e.g., com.amazon.sampleapp)."
    ∷ lit "  * class_name must be simple name (e.g., OrderContext), not fully qualified."
    ∷ []

abbrev javascript_lines : List Text
javascript_lines =
    lit "- JavaScript rules:"
    ∷ lit "  * JavaScript binds by file_path + line_number; line_number is required (>= 1)."
    ∷ lit "  * code_unit, class_name, and method_name are not used for JavaScript."
    ∷ lit "  * Point line_number at the executable statement you want to observe."
    ∷ []

abbrev rule_lines : Text → List Text
rule_lines lang =
    if lang == lit "python"
    then python_lines
    else if lang == lit "java"
    then java_lines
    else if lang == lit "javascript"
    then javascript_lines
    else []

unfoldable pub format_code_location_troubleshooting : Inputs → Text
unfolding join concat
format_code_location_troubleshooting i =
    let lang = fold_language i.language in
    join (lit "\n") (
      (lit "CODE LOCATION TROUBLESHOOTING:"
        ∷ lit "- file_path: source file path for the target code."
        ∷ lit "- code_unit: Python runtime module path OR Java package name."
        ∷ lit "- class_name: use for class methods (Java: simple class name only)."
        ∷ lit "- method_name: function/method name."
        ∷ lit "- line_number: set only for line-level breakpoints (1-based)."
        ∷ [])
      ++ (level_lines lang i.line_number
          ++ (rule_lines lang
              ++ (lit "LOCATION INPUTS RECEIVED:"
                  ∷ (lit "- language=" ++ show_optional i.language)
                  ∷ (lit "- file_path=" ++ show_optional i.file_path)
                  ∷ (lit "- code_unit=" ++ show_optional i.code_unit)
                  ∷ (lit "- class_name=" ++ show_optional i.class_name)
                  ∷ (lit "- method_name=" ++ show_optional i.method_name)
                  ∷ (lit "- line_number=" ++ show_line i.line_number)
                  ∷ []))))

-- The errors that hold for every language.
path_errors : Option Text → List Text
path_errors file_path =
    when (is_missing file_path || is_empty (strip (or_blank file_path)))
      (lit "file_path is required and must be non-empty.")

line_errors : Option ℤ → List Text
line_errors none = []
line_errors (some n) =
    when (below_one n)
      (concat (lit "line_number must be >= 1 (received: " ∷ show_int n ∷ lit ")." ∷ []))

language_errors : Text → Option Text → List Text
language_errors lang language =
    if contains (lit "python" ∷ lit "java" ∷ lit "javascript" ∷ []) lang
    then []
    else concat (
        lit "language must be Python, Java, or JavaScript (received: "
        ∷ show_optional language
        ∷ lit ")."
        ∷ [])
      ∷ []

-- `class_name and "." in class_name`
is_dotted : Option Text → Bool
unfolding has_substring
is_dotted class_name = not (is_missing class_name) && has_substring (or_blank class_name) (lit ".")

java_errors : Inputs → List Text
java_errors i =
    when (is_missing i.code_unit)
      (lit "Java requires code_unit (the package name, e.g. com.amazon.sampleapp).")
    ++ (when (is_missing i.class_name)
          (lit "Java requires class_name (the simple class name, e.g. OrderContext).")
        ++ (when (is_missing i.method_name) (lit "Java requires method_name.")
            ++ when (is_dotted i.class_name) (
                lit
                  "For Java, class_name must be simple (e.g., \"OrderContext\"), not fully qualified (e.g., \"com.example.OrderContext\").")))

python_errors : Inputs → List Text
python_errors i =
    when (is_missing i.code_unit)
      (lit "Python requires code_unit (the dotted runtime module path, e.g. services.billing).")
    ++ when (is_missing i.method_name) (lit "Python requires method_name.")

javascript_errors : Inputs → List Text
javascript_errors i = elim (i.line_number) [
  | none ↦ lit "JavaScript requires line_number (>= 1); it binds by file and line." ∷ []
  | some _ ↦ []
]

rule_errors : Text → Inputs → List Text
rule_errors lang i =
    if lang == lit "java"
    then java_errors i
    else if lang == lit "python"
    then python_errors i
    else if lang == lit "javascript"
    then javascript_errors i
    else []

unfoldable pub location_errors : Inputs → List Text
unfolding path_errors line_errors language_errors rule_errors java_errors python_errors
    javascript_errors is_dotted
location_errors i =
    let lang = fold_language i.language in
    path_errors i.file_path
    ++ (line_errors i.line_number ++ (language_errors lang i.language ++ rule_errors lang i))

-- `".".join(parts[:-1])` and `parts[-1]`, where the name splits into two parts or more.
qualified_hint : List Text → List Text → List Text
qualified_hint before [] = []
qualified_hint [] (p ∷ []) = []
qualified_hint (b ∷ bs) (p ∷ []) =
    concat (
      lit "Use code_unit=\""
      ∷ join (lit ".") (b ∷ bs)
      ∷ lit "\" and class_name=\""
      ∷ p
      ∷ lit "\"."
      ∷ [])
    ∷ []
qualified_hint before (p ∷ q ∷ ps) = qualified_hint (before ++ (p ∷ [])) (q ∷ ps)

java_suggestions : Inputs → List Text
unfolding qualified_hint is_dotted split
java_suggestions i =
    (if is_dotted i.class_name && is_missing i.code_unit
      then qualified_hint [] (split b'.' (or_blank i.class_name))
      else [])
    ++ when (has_substring (or_blank i.code_unit) (lit "/"))
        (lit "Java code_unit should be a package name with dots, not a path with slashes.")

suggestions : Inputs → List Text
unfolding java_suggestions ends_with
suggestions i =
    let lang = fold_language i.language in
    if lang == lit "java"
    then java_suggestions i
    else if lang == lit "python"
    then when (ends_with (or_blank i.code_unit) (lit ".py")) (
        lit
          "Python code_unit should be a module path (e.g., services.billing), not a .py filename.")
    else []

-- `for idx, err in enumerate(items, 1): message += f"{idx}. {err}\n"`
numbered : ℕ → List Text → Text
numbered n [] = []
numbered n (t ∷ ts) = concat (show_nat n ∷ lit ". " ∷ t ∷ lit "\n" ∷ numbered (n + 1) ts ∷ [])

suggestion_block : List Text → Text
unfolding numbered
suggestion_block [] = []
suggestion_block (t ∷ ts) = lit "\nSuggestions:\n" ++ numbered 1 (t ∷ ts)

unfoldable pub error_message : List Text → Inputs → Text
unfolding suggestion_block suggestions
error_message errors i = concat (
    lit "Invalid breakpoint location inputs:\n"
    ∷ numbered 1 errors
    ∷ suggestion_block (suggestions i)
    ∷ lit "\n"
    ∷ format_code_location_troubleshooting i
    ∷ [])

unfoldable pub validate_location_inputs : Inputs → Option Text
validate_location_inputs i = elim (location_errors i) [
  | [] ↦ none
  | e ∷ es ↦ some (error_message (e ∷ es) i)
]
