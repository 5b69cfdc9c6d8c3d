-- ===== src/Artifacts/Lifecycle.antt =====
-- Archiving and restoring of stored rows, by the UPDATE statements of internal/modules/artifacts/repo.go
-- behind the checks of service.go. docs/ProjectBookDocs/API-GUIDELINES.md (7.1 to 7.3) describes another
-- life cycle: from Archived to Draft only, and no status Locked for journeys.
use projectbook_backend.Base.{
  ℕ, suc, ◌≡◌, ◌≢◌, refl, Option, none, some, Result, ok, ◌>>=◌, >>=-eq-ok, arith,
}
use projectbook_backend.Text.{Text, codes}
use projectbook_backend.Patchx.{text, Fields, end, field}
use projectbook_backend.Artifacts.Workflow.{status_key}
use projectbook_backend.Artifacts.Rows.{
  DocumentStatus, draft, locked, archived, document_text, Row, document_eq, next_row, next_status,
  next_archived_from, write_document, cast_document, requested, update_document_row,
}
use projectbook_backend.Artifacts.Updates.{
  Failure, update_story, update_journey, update_problem, update_idea,
}

-- A patch of the status alone.
abbrev pub set_status : Text → Option Fields
set_status t = some (field status_key (text t) end)

all_updates : Unit {0}
unfolding update_story update_journey update_problem update_idea
all_updates = tt

-- The three updates of documents.
pub data IsDocumentUpdate
    : (Option Fields → Row DocumentStatus → Result Failure (Row DocumentStatus)) → Type 0 where
  story : IsDocumentUpdate update_story
  journey : IsDocumentUpdate update_journey
  problem : IsDocumentUpdate update_problem

-- A document before and after the two requests.
abbrev stored : Text → DocumentStatus → Option DocumentStatus → ℕ → Row DocumentStatus
stored t s a n = record { title = t; status = s; archived_from = a; revision = n }

module _ (t : Text) (a : Option DocumentStatus) (n : ℕ) where
  archive_draft :
      (update : Option Fields → Row DocumentStatus → Result Failure (Row DocumentStatus))
      → IsDocumentUpdate update
      → update (set_status (codes "Archived")) (stored t draft a n)
        ≡ ok (stored t archived (some draft) (suc n))
  unfolding all_updates
  archive_draft update story = refl
  archive_draft update journey = refl
  archive_draft update problem = refl

  archive_locked :
      (update : Option Fields → Row DocumentStatus → Result Failure (Row DocumentStatus))
      → IsDocumentUpdate update
      → update (set_status (codes "Archived")) (stored t locked a n)
        ≡ ok (stored t archived (some locked) (suc n))
  unfolding all_updates
  archive_locked update story = refl
  archive_locked update journey = refl
  archive_locked update problem = refl

restore_document :
    (update : Option Fields → Row DocumentStatus → Result Failure (Row DocumentStatus)) (t : Text)
    (s : DocumentStatus) (n : ℕ) (to : DocumentStatus)
    → IsDocumentUpdate update
    → to ≢ archived
    → update (set_status (document_text to)) (stored t archived (some s) n)
      ≡ ok (stored t s none (suc n))
unfolding all_updates document_text
restore_document update t s n archived kind live = absurd (live refl)
restore_document update t s n draft story live = refl
restore_document update t s n locked story live = refl
restore_document update t s n draft journey live = refl
restore_document update t s n locked journey live = refl
restore_document update t s n draft problem live = refl
restore_document update t s n locked problem live = refl

archive_document :
    (update : Option Fields → Row DocumentStatus → Result Failure (Row DocumentStatus)) (t : Text)
    (s : DocumentStatus) (a : Option DocumentStatus) (n : ℕ)
    → IsDocumentUpdate update
    → s ≢ archived
    → update (set_status (codes "Archived")) (stored t s a n)
      ≡ ok (stored t archived (some s) (suc n))
archive_document update t draft a n kind live = archive_draft t a n update kind
archive_document update t locked a n kind live = archive_locked t a n update kind
archive_document update t archived a n kind live = absurd (live refl)

-- Archiving a Draft or Locked story, journey or problem and then restoring it gives back its title and
-- the status it had, whichever of Draft and Locked the second request names, two revisions later.
pub archive-restore :
    (update : Option Fields → Row DocumentStatus → Result Failure (Row DocumentStatus))
    (row : Row DocumentStatus) (to : DocumentStatus)
    → IsDocumentUpdate update
    → row.status ≢ archived
    → to ≢ archived
    → (update (set_status (codes "Archived")) row >>= update (set_status (document_text to)))
      ≡ ok (record row { archived_from = none; revision = suc (suc row.revision) })
archive-restore update row to kind live ok_to =
    rw (archive_document update row.title row.status row.archived_from row.revision kind live)
      (restore_document update row.title row.status (suc row.revision) to kind ok_to)

-- The status before archiving is recorded exactly while the document is archived, and is not
-- Archived.
pub data IsConsistent : DocumentStatus → Option DocumentStatus → Type 0 where
  draft_row : IsConsistent draft none
  locked_row : IsConsistent locked none
  archived_draft : IsConsistent archived (some draft)
  archived_locked : IsConsistent archived (some locked)

next-IsConsistent :
    (t : Text) (n : ℕ) (s : DocumentStatus) (a : Option DocumentStatus)
    (new : Option DocumentStatus)
    → IsConsistent s a
    → IsConsistent
        (next_status document_eq archived draft new (stored t s a n))
        (next_archived_from document_eq archived draft new (stored t s a n))
unfolding next_status next_archived_from document_eq
next-IsConsistent t n s a none draft_row = draft_row
next-IsConsistent t n s a none locked_row = locked_row
next-IsConsistent t n s a none archived_draft = archived_draft
next-IsConsistent t n s a none archived_locked = archived_locked
next-IsConsistent t n s a (some draft) draft_row = draft_row
next-IsConsistent t n s a (some draft) locked_row = draft_row
next-IsConsistent t n s a (some draft) archived_draft = draft_row
next-IsConsistent t n s a (some draft) archived_locked = locked_row
next-IsConsistent t n s a (some locked) draft_row = locked_row
next-IsConsistent t n s a (some locked) locked_row = locked_row
next-IsConsistent t n s a (some locked) archived_draft = draft_row
next-IsConsistent t n s a (some locked) archived_locked = locked_row
next-IsConsistent t n s a (some archived) draft_row = archived_draft
next-IsConsistent t n s a (some archived) locked_row = archived_locked
next-IsConsistent t n s a (some archived) archived_draft = archived_draft
next-IsConsistent t n s a (some archived) archived_locked = archived_locked

abbrev pub Consistent : Row DocumentStatus → Type 0
Consistent row = IsConsistent row.status row.archived_from

written-Consistent :
    (title : Text) (new : Option DocumentStatus) (row row' : Row DocumentStatus)
    → Consistent row
    → write_document title new row ≡ ok row'
    → Consistent row'
unfolding write_document
written-Consistent title new row row' c h =
    let written : next_row document_eq archived draft title new row ≡ row' = ground arith in
    rw (← written) (next-IsConsistent row.title row.revision row.status row.archived_from new c)

-- Every update of a story, journey or problem row that the database makes keeps the status before
-- archiving recorded exactly while the row is archived.
pub update_document_row-Consistent :
    (title status : Text) (row row' : Row DocumentStatus)
    → Consistent row
    → update_document_row title status row ≡ ok row'
    → Consistent row'
unfolding update_document_row
update_document_row-Consistent title status row row' c h =
    let (new, _, written) = >>=-eq-ok (requested cast_document status) _ h in
    written-Consistent title new row row' c written
