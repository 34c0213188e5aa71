-- ===== src/ToolArgs/Tools/Files.antt =====
-- The validators of the tools for files, commands, code, searches and the web.
use ai_agent_starter_kit.ToolArgs.Helpers.{lower_case, upper_case}
use ai_agent_starter_kit.ToolArgs.Rules.{
  required_text, optional_text, optional_path, command, choice, whole, flag, Rule, rule,
}
use ai_agent_starter_kit.Common.{true, false, none, some, List, [], ◌∷◌, codes}

abbrev pub path_only : List Rule
path_only = rule "path" optional_path ∷ []

abbrev pub write_file : List Rule
write_file = rule "path" optional_path ∷ rule "content" (required_text false 350000) ∷ []

abbrev pub command_tool : List Rule
command_tool = rule "command" command ∷ rule "cwd" (optional_text true 400) ∷ []

abbrev pub code_execute : List Rule
code_execute =
    rule "code" (required_text true 200000)
    ∷ rule "language" (
        choice lower_case 32 (codes "python" ∷ codes "javascript" ∷ codes "js" ∷ [])
          (some (codes "python")))
    ∷ rule "timeout" (whole 30 1 60)
    ∷ rule "max_output_chars" (whole 10000 500 20000)
    ∷ rule "strategy" (
        choice lower_case 32 (codes "process" ∷ codes "direct" ∷ codes "docker" ∷ [])
          (some (codes "process")))
    ∷ []

abbrev pub apply_patch : List Rule
apply_patch =
    rule "path" optional_path
    ∷ rule "search" (required_text true 50000)
    ∷ rule "replace" (required_text false 50000)
    ∷ rule "replace_all" flag
    ∷ []

abbrev pub file_search : List Rule
file_search = rule "pattern" (required_text true 300) ∷ rule "max_results" (whole 100 1 500) ∷ []

abbrev pub grep_search : List Rule
grep_search =
    rule "query" (required_text true 500)
    ∷ rule "include_pattern" (optional_text true 300)
    ∷ rule "is_regexp" flag
    ∷ rule "max_results" (whole 100 1 500)
    ∷ []

abbrev pub list_code_usages : List Rule
list_code_usages =
    rule "symbol" (required_text true 160)
    ∷ rule "include_pattern" (optional_text true 300)
    ∷ rule "max_results" (whole 100 1 500)
    ∷ []

abbrev pub get_background_output : List Rule
get_background_output =
    rule "job_id" (required_text true 80) ∷ rule "tail_lines" (whole 200 1 1000) ∷ []

abbrev pub kill_background_process : List Rule
kill_background_process = rule "job_id" (required_text true 80) ∷ []

abbrev pub web_fetch : List Rule
web_fetch = rule "url" (required_text true 1000) ∷ rule "max_chars" (whole 12000 1000 100000) ∷ []

abbrev pub web_search : List Rule
web_search = rule "query" (required_text true 1000) ∷ rule "max_results" (whole 5 1 10) ∷ []

abbrev pub http_request : List Rule
http_request =
    rule "url" (required_text true 1000)
    ∷ rule "method" (
        choice upper_case 16
          (codes "GET"
            ∷ codes "POST"
            ∷ codes "PUT"
            ∷ codes "PATCH"
            ∷ codes "DELETE"
            ∷ codes "HEAD"
            ∷ codes "OPTIONS"
            ∷ [])
          none)
    ∷ rule "headers" (optional_text false 50000)
    ∷ rule "body" (optional_text false 1000000)
    ∷ rule "content_type" (optional_text true 200)
    ∷ rule "max_chars" (whole 100000 1 100000)
    ∷ []
