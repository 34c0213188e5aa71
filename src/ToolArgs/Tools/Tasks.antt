-- ===== src/ToolArgs/Tools/Tasks.antt =====
-- The validators of the tools for subruns, workflows, images, documents and browsers.
use ai_agent_starter_kit.ToolArgs.Helpers.{lower_case}
use ai_agent_starter_kit.ToolArgs.Rules.{
  required_text, optional_text, required_path, optional_path, required_choice, choice, whole,
  tool_policy, steps, Rule, rule,
}
use ai_agent_starter_kit.Common.{true, false, none, List, [], ◌∷◌, codes}

abbrev pub spawn_subrun : List Rule
spawn_subrun =
    rule "message" (required_text true 4000)
    ∷ rule "mode" (choice lower_case 20 (codes "run" ∷ codes "session" ∷ []) none)
    ∷ rule "agent_id" (optional_text true 120)
    ∷ rule "model" (optional_text true 120)
    ∷ rule "timeout_seconds" (whole 0 0 3600)
    ∷ rule "tool_policy" tool_policy
    ∷ []

abbrev pub analyze_image : List Rule
analyze_image = rule "image_path" required_path ∷ rule "prompt" (optional_text true 4000) ∷ []

abbrev pub noop_tool : List Rule
noop_tool = []

abbrev pub emit_visualization : List Rule
emit_visualization =
    rule "viz_type" (required_choice 20 (codes "mermaid" ∷ codes "svg" ∷ []))
    ∷ rule "code" (required_text true 50000)
    ∷ rule "title" (optional_text false 200)
    ∷ []

abbrev pub create_workflow : List Rule
create_workflow =
    rule "name" (required_text true 120)
    ∷ rule "description" (required_text true 500)
    ∷ rule "steps" steps
    ∷ rule "base_agent_id" (optional_text true 120)
    ∷ []

abbrev pub delete_workflow : List Rule
delete_workflow = rule "workflow_id" (required_text true 120) ∷ []

abbrev pub build_workflow : List Rule
build_workflow =
    rule "name" (required_text true 120)
    ∷ rule "steps_description" (required_text true 5000)
    ∷ rule "description" (optional_text true 500)
    ∷ rule "execution_mode" (optional_text true 20)
    ∷ []

abbrev pub explore_connector : List Rule
explore_connector = rule "connector_id" (required_text true 120) ∷ []

abbrev pub session_id_only : List Rule
session_id_only = rule "session_id" (optional_text true 120) ∷ []

abbrev pub browser_open : List Rule
browser_open =
    rule "url" (required_text true 2000) ∷ rule "session_id" (optional_text true 120) ∷ []

abbrev pub browser_selector : List Rule
browser_selector =
    rule "selector" (required_text true 500) ∷ rule "session_id" (optional_text true 120) ∷ []

abbrev pub browser_type : List Rule
browser_type =
    rule "selector" (required_text true 500)
    ∷ rule "text" (required_text false 4000)
    ∷ rule "session_id" (optional_text true 120)
    ∷ []

abbrev pub browser_read_dom : List Rule
browser_read_dom =
    rule "selector" (optional_text true 500) ∷ rule "session_id" (optional_text true 120) ∷ []

abbrev pub browser_evaluate_js : List Rule
browser_evaluate_js =
    rule "code" (required_text true 50000) ∷ rule "session_id" (optional_text true 120) ∷ []

abbrev pub parse_pdf : List Rule
parse_pdf = rule "path" required_path ∷ []

abbrev pub transcribe_audio : List Rule
transcribe_audio = rule "path" required_path ∷ []

abbrev pub generate_image : List Rule
generate_image = rule "prompt" (required_text true 1000) ∷ rule "size" (optional_text true 20) ∷ []

abbrev pub export_pdf : List Rule
export_pdf = rule "content" (required_text true 200000) ∷ rule "path" optional_path ∷ []
