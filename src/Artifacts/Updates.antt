-- ===== src/Artifacts/Updates.antt =====
-- UpdateStory, UpdateJourney, UpdateProblem and UpdateIdea from the request to the stored row: the
-- checks of service.go, then the UPDATE statement of repo.go.
use projectbook_backend.Base.{Option, if◌then◌else◌, Result, ok, err, ◌>>=◌}
use projectbook_backend.Text.{Text, codes, is_empty}
use projectbook_backend.Patchx.{Fields}
use projectbook_backend.Artifacts.Workflow.{
  Workflow, UpdateError, not_found, string_at, status_key, check_update,
}
use projectbook_backend.Artifacts.Kinds.{
  story_workflow, journey_workflow, problem_workflow, idea_workflow,
}
use projectbook_backend.Artifacts.Rows.{
  DocumentStatus, IdeaStatus, document_text, idea_text, RowError, invalid_enum, no_rows, Row,
  Linked, update_document_row, update_idea_row,
}

pub data Failure : Type 0 where
  refused : UpdateError → Failure
  internal_error : Failure

-- pgx.ErrNoRows is answered as not found, another failure of the statement as an internal error.
unfoldable pub of_row {ℓ} : {A : Type ℓ} → Result RowError A → Result Failure A
of_row (ok a) = ok a
of_row (err no_rows) = err (refused not_found)
of_row (err invalid_enum) = err internal_error

unfoldable pub of_check {ℓ} : {A : Type ℓ} → Result UpdateError A → Result Failure A
of_check (ok a) = ok a
of_check (err e) = err (refused e)

unfoldable pub first_string : Text → Text → Fields → Text
unfolding string_at
first_string k j fs = if is_empty (string_at k fs) then string_at j fs else string_at k fs

-- The title that each statement takes from its patch.
unfoldable pub story_title : Fields → Text
unfolding first_string
story_title fs = first_string (codes "title") (codes "description") fs

unfoldable pub journey_title : Fields → Text
unfolding string_at
journey_title fs = string_at (codes "title") fs

unfoldable pub problem_title : Fields → Text
unfolding first_string
problem_title fs = first_string (codes "finalStatement") (codes "title") fs

unfoldable pub update_document :
    Workflow
    → (Fields → Text)
    → Option Fields
    → Row DocumentStatus
    → Result Failure (Row DocumentStatus)
unfolding check_update document_text of_check of_row update_document_row string_at
update_document k title_of o row = of_check (check_update k (document_text row.status) o) >>= λ fs.
    of_row (update_document_row (title_of fs) (string_at status_key fs) row)

unfoldable pub update_story :
    Option Fields → Row DocumentStatus → Result Failure (Row DocumentStatus)
unfolding update_document story_title
update_story o row = update_document story_workflow story_title o row

unfoldable pub update_journey :
    Option Fields → Row DocumentStatus → Result Failure (Row DocumentStatus)
unfolding update_document journey_title
update_journey o row = update_document journey_workflow journey_title o row

-- UpdateProblem, without the errors of the queries for the linked sources that follow its UPDATE.
unfoldable pub update_problem :
    Option Fields → Row DocumentStatus → Result Failure (Row DocumentStatus)
unfolding update_document problem_title
update_problem o row = update_document problem_workflow problem_title o row

-- UpdateIdea, for the problem that the idea is linked to after the update.
unfoldable pub update_idea :
    Option Fields → Linked → Row IdeaStatus → Result Failure (Row IdeaStatus)
unfolding check_update idea_text of_check of_row update_idea_row string_at
update_idea o linked row = of_check (check_update idea_workflow (idea_text row.status) o) >>= λ fs.
    of_row (update_idea_row (string_at status_key fs) linked row)
