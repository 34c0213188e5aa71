-- ===== src/ToolArgs/Tools.antt =====
-- The table of the validators by tool, and `validate` and `has_validator`.
pub mod Files
pub mod Tasks
pub mod Devops
use ai_agent_starter_kit.ToolArgs.{
  Value, Args, validator_missing, Checked, refused, accepted, Converted,
}
use ai_agent_starter_kit.ToolArgs.Rules.{Rule, run}
use ai_agent_starter_kit.ToolArgs.Tools.Files.{
  path_only, write_file, command_tool, code_execute, apply_patch, file_search, grep_search,
  list_code_usages, get_background_output, kill_background_process, web_fetch, web_search,
  http_request,
}
use ai_agent_starter_kit.ToolArgs.Tools.Tasks.{
  spawn_subrun, analyze_image, noop_tool, emit_visualization, create_workflow, delete_workflow,
  build_workflow, explore_connector, session_id_only, browser_open, browser_selector, browser_type,
  browser_read_dom, browser_evaluate_js, parse_pdf, transcribe_audio, generate_image, export_pdf,
}
use ai_agent_starter_kit.ToolArgs.Tools.Devops.{
  git_log, git_diff, git_blame, git_show, git_stash, run_tests, lint_check, test_coverage,
  dependency_audit, dependency_manager, dependency_tree, parse_errors, secrets_scan, security_check,
}
use ai_agent_starter_kit.Common.{
  Bool, ◌||◌, none, some, List, [], ◌∷◌, if◌then◌else◌, Text, codes, starts_with,
}
use ai_agent_starter_kit.Common.Dict.{Dict, get, contains}

-- `self._validators`
abbrev pub validators : Dict (List Rule)
validators =
    (codes "list_dir", path_only)
    ∷ (codes "read_file", path_only)
    ∷ (codes "write_file", write_file)
    ∷ (codes "run_command", command_tool)
    ∷ (codes "code_execute", code_execute)
    ∷ (codes "code_reset", session_id_only)
    ∷ (codes "apply_patch", apply_patch)
    ∷ (codes "file_search", file_search)
    ∷ (codes "grep_search", grep_search)
    ∷ (codes "list_code_usages", list_code_usages)
    ∷ (codes "get_changed_files", noop_tool)
    ∷ (codes "start_background_command", command_tool)
    ∷ (codes "get_background_output", get_background_output)
    ∷ (codes "kill_background_process", kill_background_process)
    ∷ (codes "web_fetch", web_fetch)
    ∷ (codes "web_search", web_search)
    ∷ (codes "http_request", http_request)
    ∷ (codes "analyze_image", analyze_image)
    ∷ (codes "browser_open", browser_open)
    ∷ (codes "browser_click", browser_selector)
    ∷ (codes "browser_type", browser_type)
    ∷ (codes "browser_screenshot", session_id_only)
    ∷ (codes "browser_read_dom", browser_read_dom)
    ∷ (codes "browser_evaluate_js", browser_evaluate_js)
    ∷ (codes "emit_visualization", emit_visualization)
    ∷ (codes "spawn_subrun", spawn_subrun)
    ∷ (codes "create_workflow", create_workflow)
    ∷ (codes "delete_workflow", delete_workflow)
    ∷ (codes "build_workflow", build_workflow)
    ∷ (codes "explore_connector", explore_connector)
    ∷ (codes "parse_pdf", parse_pdf)
    ∷ (codes "transcribe_audio", transcribe_audio)
    ∷ (codes "generate_image", generate_image)
    ∷ (codes "export_pdf", export_pdf)
    ∷ (codes "git_log", git_log)
    ∷ (codes "git_diff", git_diff)
    ∷ (codes "git_blame", git_blame)
    ∷ (codes "git_show", git_show)
    ∷ (codes "git_stash", git_stash)
    ∷ (codes "run_tests", run_tests)
    ∷ (codes "lint_check", lint_check)
    ∷ (codes "test_coverage", test_coverage)
    ∷ (codes "dependency_audit", dependency_audit)
    ∷ (codes "dependency_outdated", dependency_manager)
    ∷ (codes "dependency_tree", dependency_tree)
    ∷ (codes "parse_errors", parse_errors)
    ∷ (codes "secrets_scan", secrets_scan)
    ∷ (codes "security_check", security_check)
    ∷ []

-- `tool_name.startswith("mcp_")`
unfoldable pub is_mcp : Text → Bool
unfolding starts_with
is_mcp tool = starts_with tool (codes "mcp_")

unfoldable pub has_validator : Text → Bool
unfolding contains is_mcp
has_validator tool = contains validators tool || is_mcp tool

module _ (violates : Text → Bool) (to_int : Value → Converted) where
  unfoldable pub validate : Text → Args → Checked Args
  unfolding get is_mcp run
  validate tool args = elim (get validators tool) [
    | some rules ↦ run violates to_int rules args
    | none ↦ if is_mcp tool then accepted args else refused validator_missing
  ]
