-- ===== src/ToolArgs/Tools/Devops.antt =====
-- The validators of the tools for version control, tests, linters and dependencies.
use ai_agent_starter_kit.ToolArgs.Helpers.{lower_case}
use ai_agent_starter_kit.ToolArgs.Rules.{
  required_text, optional_text, required_path, optional_path, choice, whole, optional_whole,
  optional_flag, Rule, rule,
}
use ai_agent_starter_kit.Common.{true, none, some, List, [], ◌∷◌, codes}

abbrev pub git_log : List Rule
git_log =
    rule "path" optional_path
    ∷ rule "max_count" (whole 20 1 100)
    ∷ rule "author" (optional_text true 200)
    ∷ rule "since" (optional_text true 100)
    ∷ rule "format" (
        choice lower_case 32 (codes "oneline" ∷ codes "short" ∷ codes "full" ∷ [])
          (some (codes "short")))
    ∷ []

abbrev pub git_diff : List Rule
git_diff =
    rule "target" (optional_text true 400)
    ∷ rule "base" (optional_text true 400)
    ∷ rule "stat_only" optional_flag
    ∷ []

abbrev pub git_blame : List Rule
git_blame =
    rule "path" required_path
    ∷ rule "start_line" (optional_whole 1 999999)
    ∷ rule "end_line" (optional_whole 1 999999)
    ∷ []

abbrev pub git_show : List Rule
git_show = rule "ref" (required_text true 200) ∷ rule "stat_only" optional_flag ∷ []

abbrev pub git_stash : List Rule
git_stash =
    rule "action" (
      choice lower_case 32 (codes "save" ∷ codes "pop" ∷ codes "list" ∷ codes "drop" ∷ [])
        (some (codes "save")))
    ∷ rule "message" (optional_text true 200)
    ∷ []

abbrev pub run_tests : List Rule
run_tests =
    rule "runner" (
      choice lower_case 32
        (codes "auto"
          ∷ codes "pytest"
          ∷ codes "jest"
          ∷ codes "mocha"
          ∷ codes "go"
          ∷ codes "cargo"
          ∷ [])
        (some (codes "auto")))
    ∷ rule "path" optional_path
    ∷ rule "filter" (optional_text true 300)
    ∷ rule "verbose" optional_flag
    ∷ []

abbrev pub lint_check : List Rule
lint_check =
    rule "tool" (
      choice lower_case 32
        (codes "auto"
          ∷ codes "eslint"
          ∷ codes "ruff"
          ∷ codes "flake8"
          ∷ codes "mypy"
          ∷ codes "pyright"
          ∷ codes "tsc"
          ∷ [])
        (some (codes "auto")))
    ∷ rule "path" optional_path
    ∷ rule "fix" optional_flag
    ∷ []

abbrev pub test_coverage : List Rule
test_coverage =
    rule "runner" (
      choice lower_case 32 (codes "auto" ∷ codes "pytest" ∷ codes "jest" ∷ [])
        (some (codes "auto")))
    ∷ rule "path" optional_path
    ∷ []

abbrev pub dependency_audit : List Rule
dependency_audit =
    rule "manager"
      (choice lower_case 32 (codes "auto" ∷ codes "npm" ∷ codes "pip" ∷ []) (some (codes "auto")))
    ∷ rule "severity" (
        choice lower_case 32 (codes "low" ∷ codes "moderate" ∷ codes "high" ∷ codes "critical" ∷ [])
          (some (codes "moderate")))
    ∷ []

abbrev pub dependency_manager : List Rule
dependency_manager =
    rule "manager"
      (choice lower_case 32 (codes "auto" ∷ codes "npm" ∷ codes "pip" ∷ []) (some (codes "auto")))
    ∷ []

abbrev pub dependency_tree : List Rule
dependency_tree =
    rule "manager"
      (choice lower_case 32 (codes "auto" ∷ codes "npm" ∷ codes "pip" ∷ []) (some (codes "auto")))
    ∷ rule "package" (optional_text true 200)
    ∷ []

abbrev pub parse_errors : List Rule
parse_errors =
    rule "error_text" (required_text true 50000)
    ∷ rule "language" (
        choice lower_case 32
          (codes "auto" ∷ codes "python" ∷ codes "javascript" ∷ codes "go" ∷ codes "rust" ∷ [])
          (some (codes "auto")))
    ∷ []

abbrev pub secrets_scan : List Rule
secrets_scan =
    rule "path" optional_path
    ∷ rule "tool" (
        choice lower_case 32 (codes "auto" ∷ codes "gitleaks" ∷ codes "builtin" ∷ [])
          (some (codes "auto")))
    ∷ []

abbrev pub security_check : List Rule
security_check =
    rule "tool" (
      choice lower_case 32 (codes "auto" ∷ codes "bandit" ∷ codes "semgrep" ∷ [])
        (some (codes "auto")))
    ∷ rule "path" optional_path
    ∷ rule "severity" (choice lower_case 32 (codes "low" ∷ codes "medium" ∷ codes "high" ∷ []) none)
    ∷ []
