-- ===== src/Artifacts/Kinds.antt =====
-- The tables of the six kinds of artifact: the statuses and patch rules of dto.go, the immutable
-- statuses and the transitions of service.go.
use projectbook_backend.Base.{true, false, List, [], ◌∷◌}
use projectbook_backend.Text.{Text, codes}
use projectbook_backend.Patchx.{FieldRule, rule, no_rules, rules, Rules, no_more, entry}
use projectbook_backend.Artifacts.Workflow.{Workflow, status_key}

-- `{}`, `{AllowNull: true}`, `{AllowNull: true, AllowAnyNested: true}` and a rule with the rules of
-- an object.
abbrev required_field : FieldRule
required_field = rule false no_rules false

abbrev nullable : FieldRule
nullable = rule true no_rules false

abbrev any_object : FieldRule
any_object = rule true no_rules true

abbrev nested : Rules → FieldRule
nested rs = rule true (rules rs) false

abbrev pub persona_patch_rules : Rules
persona_patch_rules = entry (codes "name") nullable (
    entry (codes "bio") nullable (
      entry (codes "role") nullable (
        entry (codes "age") nullable
          (entry (codes "job") nullable (entry (codes "edu") nullable (no_more))))))

abbrev pub empathy_patch_rules : Rules
empathy_patch_rules = entry (codes "says") nullable (
    entry (codes "thinks") nullable
      (entry (codes "does") nullable (entry (codes "feels") nullable (no_more))))

abbrev pub story_patch_rules : Rules
story_patch_rules = entry (codes "title") nullable (
    entry (codes "description") nullable (
      entry (codes "status") required_field (
        entry (codes "persona") (nested persona_patch_rules) (
          entry (codes "context") nullable (
            entry (codes "empathyMap") (nested empathy_patch_rules) (
              entry (codes "painPoints") nullable (
                entry (codes "hypothesis") nullable (
                  entry (codes "addOnSections") nullable
                    (entry (codes "notes") nullable (no_more))))))))))

abbrev pub journey_patch_rules : Rules
journey_patch_rules = entry (codes "title") nullable (
    entry (codes "description") nullable (
      entry (codes "status") required_field (
        entry (codes "persona") (nested persona_patch_rules) (
          entry (codes "context") nullable
            (entry (codes "stages") nullable (entry (codes "notes") nullable (no_more)))))))

abbrev pub problem_patch_rules : Rules
problem_patch_rules = entry (codes "title") nullable (
    entry (codes "description") nullable (
      entry (codes "status") required_field (
        entry (codes "finalStatement") nullable (
          entry (codes "orphanAcknowledged") nullable (
            entry (codes "selectedPainPoints") nullable (
              entry (codes "customPainPoints") nullable (
                entry (codes "linkedSources") nullable (
                  entry (codes "activeModules") nullable (
                    entry (codes "moduleContent") any_object (
                      entry (codes "notesText") nullable
                        (entry (codes "notes") nullable (no_more))))))))))))

abbrev pub idea_patch_rules : Rules
idea_patch_rules = entry (codes "title") nullable (
    entry (codes "description") nullable (
      entry (codes "status") required_field (
        entry (codes "summary") nullable (
          entry (codes "summaryTitle") nullable (
            entry (codes "summaryDescription") nullable (
              entry (codes "notes") nullable (
                entry (codes "notesText") nullable (
                  entry (codes "selectedProblemId") nullable (
                    entry (codes "activeModules") nullable
                      (entry (codes "moduleContent") any_object (no_more)))))))))))

abbrev pub task_patch_rules : Rules
task_patch_rules = entry (codes "title") nullable (
    entry (codes "status") required_field (
      entry (codes "assignedToId") nullable (
        entry (codes "assignedToIds") nullable (
          entry (codes "selectedIdeaId") nullable (
            entry (codes "deadline") nullable (
              entry (codes "hypothesis") nullable (
                entry (codes "planItems") nullable (
                  entry (codes "executionLinks") nullable (
                    entry (codes "notes") nullable (
                      entry (codes "notesText") nullable (
                        entry (codes "activeModules") nullable (
                          entry (codes "abandonReason") nullable
                            (entry (codes "hasFeedback") nullable (no_more))))))))))))))

abbrev pub feedback_patch_rules : Rules
feedback_patch_rules = entry (codes "title") nullable (
    entry (codes "description") nullable (
      entry (codes "status") required_field (
        entry (codes "outcome") required_field (
          entry (codes "isArchived") nullable (
            entry (codes "linkedArtifacts") nullable (
              entry (codes "activeModules") nullable (
                entry (codes "moduleContent") any_object (
                  entry (codes "notes") nullable (
                    entry (codes "notesText") nullable (
                      entry (codes "observation") nullable (
                        entry (codes "interpretation") nullable (
                          entry (codes "evidenceText") nullable (
                            entry (codes "evidenceLocked") nullable
                              (entry (codes "nextStepsText") nullable (no_more)))))))))))))))

abbrev pub document_statuses : List Text
document_statuses = codes "Draft" ∷ codes "Locked" ∷ codes "Archived" ∷ []

abbrev pub idea_statuses : List Text
idea_statuses = codes "Considered" ∷ codes "Selected" ∷ codes "Rejected" ∷ codes "Archived" ∷ []

abbrev pub task_statuses : List Text
task_statuses = codes "Planned" ∷ codes "In Progress" ∷ codes "Completed" ∷ codes "Abandoned" ∷ []

abbrev pub feedback_statuses : List Text
feedback_statuses = codes "Active" ∷ codes "Archived" ∷ []

abbrev pub feedback_outcomes : List Text
feedback_outcomes = codes "Validated" ∷ codes "Invalidated" ∷ codes "Needs Iteration" ∷ []

abbrev pub document_immutable : List Text
document_immutable = codes "Locked" ∷ codes "Archived" ∷ []

abbrev pub idea_immutable : List Text
idea_immutable = codes "Selected" ∷ codes "Rejected" ∷ codes "Archived" ∷ []

abbrev pub task_immutable : List Text
task_immutable = codes "Completed" ∷ codes "Abandoned" ∷ []

abbrev pub document_transitions : List (Text × List Text)
document_transitions =
    (codes "Draft", codes "Draft" ∷ codes "Locked" ∷ codes "Archived" ∷ [])
    ∷ (codes "Locked", codes "Locked" ∷ codes "Archived" ∷ [])
    ∷ (codes "Archived", codes "Archived" ∷ codes "Draft" ∷ codes "Locked" ∷ [])
    ∷ []

abbrev pub idea_transitions : List (Text × List Text)
idea_transitions =
    (
      codes "Considered",
      codes "Considered" ∷ codes "Selected" ∷ codes "Rejected" ∷ codes "Archived" ∷ [],
    )
    ∷ (codes "Selected", codes "Selected" ∷ codes "Rejected" ∷ codes "Archived" ∷ [])
    ∷ (codes "Rejected", codes "Rejected" ∷ codes "Archived" ∷ [])
    ∷ (
      codes "Archived",
      codes "Archived" ∷ codes "Considered" ∷ codes "Selected" ∷ codes "Rejected" ∷ [],
    )
    ∷ []

abbrev pub task_transitions : List (Text × List Text)
task_transitions =
    (codes "Planned", codes "Planned" ∷ codes "In Progress" ∷ codes "Abandoned" ∷ [])
    ∷ (codes "In Progress", codes "In Progress" ∷ codes "Completed" ∷ codes "Abandoned" ∷ [])
    ∷ (codes "Completed", codes "Completed" ∷ [])
    ∷ (codes "Abandoned", codes "Abandoned" ∷ [])
    ∷ []

abbrev pub feedback_transitions : List (Text × List Text)
feedback_transitions =
    (codes "Active", codes "Active" ∷ codes "Archived" ∷ [])
    ∷ (codes "Archived", codes "Archived" ∷ codes "Active" ∷ [])
    ∷ []

abbrev pub story_workflow : Workflow
story_workflow = record {
  patch_rules = story_patch_rules;
  choices = (status_key, document_statuses) ∷ [];
  immutable = document_immutable;
  transitions = document_transitions;
}

abbrev pub journey_workflow : Workflow
journey_workflow = record {
  patch_rules = journey_patch_rules;
  choices = (status_key, document_statuses) ∷ [];
  immutable = document_immutable;
  transitions = document_transitions;
}

abbrev pub problem_workflow : Workflow
problem_workflow = record {
  patch_rules = problem_patch_rules;
  choices = (status_key, document_statuses) ∷ [];
  immutable = document_immutable;
  transitions = document_transitions;
}

abbrev pub idea_workflow : Workflow
idea_workflow = record {
  patch_rules = idea_patch_rules;
  choices = (status_key, idea_statuses) ∷ [];
  immutable = idea_immutable;
  transitions = idea_transitions;
}

abbrev pub task_workflow : Workflow
task_workflow = record {
  patch_rules = task_patch_rules;
  choices = (status_key, task_statuses) ∷ [];
  immutable = task_immutable;
  transitions = task_transitions;
}

abbrev pub feedback_workflow : Workflow
feedback_workflow = record {
  patch_rules = feedback_patch_rules;
  choices = (status_key, feedback_statuses) ∷ (codes "outcome", feedback_outcomes) ∷ [];
  immutable = [];
  transitions = feedback_transitions;
}
