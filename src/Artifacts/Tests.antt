-- ===== src/Artifacts/Tests.antt =====
-- Updates of artifacts at concrete requests and rows.
use projectbook_backend.Base.{◌≡◌, ◌≢◌, inl, refl, none, some, ok, err, ◌>>=◌}
use projectbook_backend.Text.{codes}
use projectbook_backend.Patchx.{text, Fields, end, field}
use projectbook_backend.Artifacts.Workflow.{
  check_update, count_fields, string_at, status_key, archived_text, not_found, immutable_state,
}
use projectbook_backend.Artifacts.Kinds.{story_workflow, task_workflow}
use projectbook_backend.Artifacts.Frozen.{story_locked, frozen_update, task_closed}
use projectbook_backend.Artifacts.Rows.{
  DocumentStatus, draft, locked, archived, IdeaStatus, considered, Row, no_link, document_text,
  update_document_row, update_idea_row,
}
use projectbook_backend.Artifacts.Updates.{update_story, update_idea, refused}
use projectbook_backend.Artifacts.Lifecycle.{
  set_status, story, archive-restore, Consistent, archived_locked, update_document_row-Consistent,
}
use projectbook_backend.Artifacts.Content.{frozen_title}

runs : Unit {0}
unfolding check_update update_story update_idea update_document_row update_idea_row document_text
runs = tt

abbrev archive : Fields
archive = field status_key (text (codes "Archived")) end

abbrev retitle : Fields
retitle = field (codes "title") (text (codes "New")) archive

abbrev locked_story : Row DocumentStatus
locked_story = record { title = codes "Old"; status = locked; archived_from = none; revision = 4 }

abbrev archived_story : Row DocumentStatus
archived_story = record {
  title = codes "Old";
  status = archived;
  archived_from = some locked;
  revision = 5;
}

abbrev new_idea : Row IdeaStatus
new_idea = record { title = codes "Idea"; status = considered; archived_from = none; revision = 1 }

spelling :
    check_update story_workflow (codes "Locked") (set_status (codes " archived ")) ≡ ok archive
unfolding runs
spelling = refl

content_refused :
    check_update story_workflow (codes "Locked") (some retitle)
    ≡ err (immutable_state (codes "Locked"))
unfolding runs
content_refused = refl

story_archived : update_story (some archive) locked_story ≡ ok archived_story
unfolding runs
story_archived = refl

-- The notes of a new idea cannot be edited.
notes_not_found :
    update_idea (some (field (codes "notes") (text (codes "n")) end)) no_link new_idea
    ≡ err (refused not_found)
unfolding runs
notes_not_found = refl

frozen_update_example : (count_fields archive ≡ 1) × (string_at status_key archive ≡ archived_text)
frozen_update_example =
    frozen_update story_workflow (codes "Locked") (set_status (codes " archived ")) archive
      story_locked spelling

task_closed_example : check_update task_workflow (codes "Completed") (some archive) ≢ ok archive
task_closed_example = task_closed (codes "Completed") (some archive) archive (inl refl)

archive-restore_example :
    (update_story (set_status (codes "Archived")) locked_story
      >>= update_story (set_status (document_text draft)))
    ≡ ok (record locked_story { archived_from = none; revision = 6 })
archive-restore_example = archive-restore update_story locked_story draft story (λ e. cc) (λ e. cc)

restored_row :
    update_document_row (codes "") (codes "Draft") archived_story
    ≡ ok (record locked_story { revision = 6 })
unfolding runs
restored_row = refl

archives_row :
    update_document_row (codes "") (codes "Archived") archived_story
    ≡ ok (record archived_story { revision = 6 })
unfolding runs
archives_row = refl

update_document_row-Consistent_example : Consistent (record archived_story { revision = 6 })
update_document_row-Consistent_example =
    update_document_row-Consistent (codes "") (codes "Archived") archived_story
      (record archived_story { revision = 6 }) archived_locked archives_row

frozen_title_example : archived_story.title ≡ locked_story.title
frozen_title_example =
    frozen_title update_story (some archive) locked_story archived_story story (λ e. cc)
      story_archived
