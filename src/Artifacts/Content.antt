-- ===== src/Artifacts/Content.antt =====
-- The content of a document that is Locked or Archived.
use projectbook_backend.Base.{
  ◌≡◌, ◌≢◌, inl, inr, refl, sym, ap, ◌∙◌, true, false, Bool-cases, Option, List, [], Result, ok,
  err, >>=-eq-ok, guard_iff, arith,
}
use projectbook_backend.Text.{Text, codes, text_eq, is_empty, trim_space}
use projectbook_backend.Text.Laws.{text_eq_iff}
use projectbook_backend.Patchx.{Fields, end, field}
use projectbook_backend.Artifacts.Workflow.{
  Workflow, enforce_archive_only, is_immutable_status, is_archive_only_patch, is_restore_only_patch,
  count_fields, string_at, to_string, lookup_field, status_key, check_update, UpdateError,
}
use projectbook_backend.Artifacts.Frozen.{to_string-trim, filled, accepted_update}
use projectbook_backend.Artifacts.Kinds.{
  document_immutable, story_workflow, journey_workflow, problem_workflow,
}
use projectbook_backend.Artifacts.Rows.{
  DocumentStatus, draft, locked, archived, document_text, Row, RowError, no_rows, invalid_enum,
  or_title, write_document, update_document_row, requested, cast_document, next_row, document_eq,
}
use projectbook_backend.Artifacts.Updates.{
  Failure, of_check, of_row, story_title, journey_title, problem_title, first_string,
  update_document, update_story, update_journey, update_problem,
}
use projectbook_backend.Artifacts.Lifecycle.{IsDocumentUpdate, story, journey, problem}

status_alone :
    (from : Text) (fs : Fields) (immutable : List Text)
    → is_immutable_status from immutable ≡ true
    → enforce_archive_only from fs immutable ≡ ok tt
    → (count_fields fs ≡ 1) × (is_empty (string_at status_key fs) ≡ false)
unfolding enforce_archive_only is_archive_only_patch is_restore_only_patch
status_alone from fs immutable frozen h =
    let trimmed : trim_space (string_at status_key fs) ≡ string_at status_key fs =
      to_string-trim (lookup_field status_key fs) in
    let passed = (guard_iff _ _).0 h in
    ground (arith, passed, trimmed, filled (string_at status_key fs))

absent :
    (k : Text) (fs : Fields)
    → text_eq status_key k ≡ false
    → count_fields fs ≡ 1
    → is_empty (string_at status_key fs) ≡ false
    → string_at k fs ≡ []
unfolding count_fields string_at lookup_field to_string
absent k end other one full = refl
absent k (field j v (field i u fs)) other one full = absurd (omega arith)
absent k (field j v end) other one full = elim (Bool-cases (text_eq j status_key)) [
  | inl e ↦
      let here : j ≡ status_key = (text_eq_iff j status_key).0 e in
      let skipped : text_eq j k ≡ false = ap (λ i. text_eq i k) here ∙ other in rw skipped refl
  | inr e ↦ absurd (ground (arith, e, full))
]

of_check-ok : {A : Type 0} (r : Result UpdateError A) {a : A} → of_check r ≡ ok a → r ≡ ok a
unfolding of_check
of_check-ok (ok b) h = ground arith
of_check-ok (err e) h = cc

of_row-ok : {A : Type 0} (r : Result RowError A) {a : A} → of_row r ≡ ok a → r ≡ ok a
unfolding of_row
of_row-ok (ok b) h = ground arith
of_row-ok (err no_rows) h = cc
of_row-ok (err invalid_enum) h = cc

frozen_document :
    (s : DocumentStatus)
    → s ≢ draft
    → is_immutable_status (document_text s) document_immutable ≡ true
unfolding is_immutable_status document_text
frozen_document draft live = absurd (live refl)
frozen_document locked live = refl
frozen_document archived live = refl

written_title :
    (title : Text) (new : Option DocumentStatus) (row row' : Row DocumentStatus)
    → write_document title new row ≡ ok row'
    → row'.title ≡ or_title title row.title
unfolding write_document
written_title title new row row' h =
    let written : next_row document_eq archived draft title new row ≡ row' = ground arith in
    ap (λ r. r.title) (sym written)

updated_title :
    (title status : Text) (row row' : Row DocumentStatus)
    → title ≡ []
    → update_document_row title status row ≡ ok row'
    → row'.title ≡ row.title
unfolding update_document_row or_title
updated_title title status row row' e h =
    let (new, _, written) = >>=-eq-ok (requested cast_document status) _ h in
    written_title title new row row' written ∙ ap (λ t. or_title t row.title) e

module _ (k : Workflow) (title_of : Fields → Text) (tables : k.immutable ≡ document_immutable)
    (untitled : (fs : Fields)
      → count_fields fs ≡ 1
      → is_empty (string_at status_key fs) ≡ false
      → title_of fs ≡ []) where
  document_content :
      (o : Option Fields) (row row' : Row DocumentStatus)
      → row.status ≢ draft
      → update_document k title_of o row ≡ ok row'
      → row'.title ≡ row.title
  unfolding update_document
  document_content o row row' live h =
      let (fs, checked, rest) =
        >>=-eq-ok (of_check (check_update k (document_text row.status) o)) _ h in
      let (_, free, _) =
        accepted_update k (document_text row.status) o fs (of_check-ok _ checked) in
      let frozen = frozen_document row.status live in
      let (one, full) =
        status_alone (document_text row.status) fs k.immutable (rw tables frozen) free in
      updated_title (title_of fs) (string_at status_key fs) row row' (untitled fs one full)
        (of_row-ok _ rest)

first_absent :
    (k j : Text) (fs : Fields)
    → text_eq status_key k ≡ false
    → text_eq status_key j ≡ false
    → count_fields fs ≡ 1
    → is_empty (string_at status_key fs) ≡ false
    → first_string k j fs ≡ []
unfolding first_string string_at
first_absent k j fs ek ej one full =
    ground (arith, absent k fs ek one full, absent j fs ej one full)

-- No update of a story, journey or problem that is Locked or Archived changes its title.
pub frozen_title :
    (update : Option Fields → Row DocumentStatus → Result Failure (Row DocumentStatus))
    (o : Option Fields) (row row' : Row DocumentStatus)
    → IsDocumentUpdate update
    → row.status ≢ draft
    → update o row ≡ ok row'
    → row'.title ≡ row.title
unfolding update_story update_journey update_problem story_title journey_title problem_title text_eq
frozen_title update o row row' story live h =
    document_content story_workflow story_title refl
      (λ fs one full. first_absent (codes "title") (codes "description") fs refl refl one full) o
      row row' live h
frozen_title update o row row' journey live h =
    document_content journey_workflow journey_title refl
      (λ fs one full. absent (codes "title") fs refl one full) o row row' live h
frozen_title update o row row' problem live h =
    document_content problem_workflow problem_title refl
      (λ fs one full. first_absent (codes "finalStatement") (codes "title") fs refl refl one full) o
      row row' live h
