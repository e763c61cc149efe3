-- ===== src/Tests/Captures.antt =====
-- engine/audit_capture.py and engine/analysis.py on fixed data.
use mathlib.Core.Logic.{◌↔◌}
use justflow.Common.{String, ◌≡◌, refl, Option, some, List, [], ◌∷◌, All}
use justflow.Common.Int.{ℤ, pos}
use justflow.Engine.Exceptions.{ok}
use justflow.Engine.Data.Objects.{Object, str, dict, Entries, end, entry, key}
use justflow.Engine.Worklist.Reaches.{In}
use justflow.Engine.AuditCapture.{redact_at, redact_pointers, metadata_only}
use justflow.Engine.AuditCapture.Agreement.{
  Agree, at_key, at_other, at_token, at_end, every_value, each_entry, each_end,
}
use justflow.Engine.AuditCapture.Redaction.{redact_at-Agree}
use justflow.Engine.AuditCapture.Metadata.{AllEntries, IsField, metadata_only-IsField}
use justflow.Engine.Analysis.{FlowEdge, success, step_edges, reachable}
use justflow.Engine.Analysis.Edges.{IsMove, step_edges-IsMove}
use justflow.Engine.Analysis.Reachable.{Linked, reachable-Linked}
use justflow.Engine.Runner.Graph.{flow_steps}
use justflow.Engine.Runner.Audit.{targets_of}
use justflow.Tests.Executions.{workflow, pause}

abbrev digits : String → Option ℤ
digits text = some (pos 1)

abbrev step_entry : Object
step_entry = dict (entry (key "status") (str "succeeded") (entry (key "output") (str "secret") end))

abbrev audit : Entries
audit = entry (key "workflow") (str "orders") (
    entry (key "params") (dict (entry (key "card") (str "4111") end))
      (entry (key "steps") (dict (entry (key "pay") step_entry end)) end))

abbrev redacted : Entries
redacted = entry (key "workflow") (str "orders") (
    entry (key "params") (dict (entry (key "card") (str "4111") end)) (
      entry (key "steps")
        (dict (
          entry (key "pay")
            (dict (
              entry (key "status") (str "succeeded") (entry (key "output") (str "[REDACTED]") end)))
            end))
        end))

redact_run : redact_pointers digits ("/steps/*/output" ∷ []) (dict audit) ≡ ok (dict redacted)
unfolding redact_pointers
redact_run = refl

abbrev open_audit : Entries
open_audit = entry (key "workflow") (str "orders") (
    entry (key "params") (dict (entry (key "card") (str "4111") end)) (
      entry (key "steps")
        (dict (
          entry (key "pay")
            (dict (entry (key "status") (str "succeeded") (entry (key "output") (str "other") end)))
            end))
        end))

output_differs : Agree digits ("steps" ∷ "*" ∷ "output" ∷ []) (dict audit) (dict open_audit)
unfolding Agree
output_differs = at_key refl (
    at_other (key "workflow") (str "orders") (
      at_other (key "params") (dict (entry (key "card") (str "4111") end)) (
        at_token "steps" refl
          (every_value refl (
            each_entry (key "pay")
              (at_key refl
                (at_other (key "status") (str "succeeded") (at_token "output" refl tt at_end)))
              each_end))
          at_end)))

redact_at-Agree_example :
    ((w : Object)
      → Agree digits ("steps" ∷ "*" ∷ "output" ∷ []) (dict audit) w
      → redact_at digits ("steps" ∷ "*" ∷ "output" ∷ []) (dict audit)
        ≡ redact_at digits ("steps" ∷ "*" ∷ "output" ∷ []) w)
    × Agree digits
        ("steps" ∷ "*" ∷ "output" ∷ [])
        (dict audit)
        (redact_at digits ("steps" ∷ "*" ∷ "output" ∷ []) (dict audit))
redact_at-Agree_example = redact_at-Agree digits ("steps" ∷ "*" ∷ "output" ∷ []) (dict audit)

same_redaction :
    redact_at digits ("steps" ∷ "*" ∷ "output" ∷ []) (dict audit)
    ≡ redact_at digits ("steps" ∷ "*" ∷ "output" ∷ []) (dict open_audit)
same_redaction = redact_at-Agree_example.0 (dict open_audit) output_differs

metadata_run :
    metadata_only audit
    ≡ entry (key "workflow") (str "orders") (
        entry
          (key "steps")
          (dict (entry (key "pay") (dict (entry (key "status") (str "succeeded") end)) end))
          end)
unfolding metadata_only
metadata_run = refl

metadata_only-IsField_example : AllEntries IsField (metadata_only audit)
metadata_only-IsField_example = metadata_only-IsField audit

step_edges-IsMove_example :
    All
      (IsMove (flow_steps workflow.flow) "pause" (targets_of workflow pause))
      (step_edges workflow (flow_steps workflow.flow) pause)
step_edges-IsMove_example = step_edges-IsMove workflow (flow_steps workflow.flow) pause

abbrev onward : FlowEdge
onward = record { source = "pause"; target = "done"; kind = success; produced = [] }

reachable-Linked_example :
    (r : List String) × (reachable (onward ∷ []) ("pause" ∷ []) ≡ some r)
    × ((t : String) → In t r ↔ Linked (onward ∷ []) ("pause" ∷ []) t)
reachable-Linked_example = reachable-Linked (onward ∷ []) ("pause" ∷ [])
