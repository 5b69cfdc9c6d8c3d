-- ===== src/Artifacts/Rows.antt =====
-- The UPDATE statements of UpdateStory, UpdateJourney, UpdateProblem and UpdateIdea in
-- internal/modules/artifacts/repo.go: the columns that carry the title, the status, the status before
-- archiving and the revision.
use projectbook_backend.Base.{
  ℕ, suc, Bool, true, false, Option, none, some, if◌then◌else◌, Result, ok, err, ◌>>=◌,
}
use projectbook_backend.Text.{Text, codes, text_eq, is_empty}
use projectbook_backend.Artifacts.Sql.{
  Truth, holds, fails, sql_bool, sql_or, sql_and, sql_not, is_true, sql_eq, sql_ne, is_not_null,
  coalesce, case_when,
}

-- The enumerations story_status, journey_status and problem_status, which have the same values.
pub data DocumentStatus : Type 0 where
  draft locked archived : DocumentStatus

pub data IdeaStatus : Type 0 where
  considered selected rejected archived : IdeaStatus

unfoldable pub document_eq : DocumentStatus → DocumentStatus → Bool
document_eq draft draft = true
document_eq locked locked = true
document_eq DocumentStatus.archived DocumentStatus.archived = true
document_eq _ _ = false

unfoldable pub idea_eq : IdeaStatus → IdeaStatus → Bool
idea_eq considered considered = true
idea_eq selected selected = true
idea_eq rejected rejected = true
idea_eq IdeaStatus.archived IdeaStatus.archived = true
idea_eq _ _ = false

-- `status::text`
unfoldable pub document_text : DocumentStatus → Text
document_text draft = codes "Draft"
document_text locked = codes "Locked"
document_text DocumentStatus.archived = codes "Archived"

unfoldable pub idea_text : IdeaStatus → Text
idea_text considered = codes "Considered"
idea_text selected = codes "Selected"
idea_text rejected = codes "Rejected"
idea_text IdeaStatus.archived = codes "Archived"

-- `t::story_status`, which fails on another text.
unfoldable pub cast_document : Text → Option DocumentStatus
unfolding text_eq
cast_document t =
    if text_eq t (codes "Draft")
    then some draft
    else if text_eq t (codes "Locked")
    then some locked
    else if text_eq t (codes "Archived")
    then some DocumentStatus.archived
    else none

unfoldable pub cast_idea : Text → Option IdeaStatus
unfolding text_eq
cast_idea t =
    if text_eq t (codes "Considered")
    then some considered
    else if text_eq t (codes "Selected")
    then some selected
    else if text_eq t (codes "Rejected")
    then some rejected
    else if text_eq t (codes "Archived")
    then some IdeaStatus.archived
    else none

pub data RowError : Type 0 where
  invalid_enum no_rows : RowError

-- `NULLIF($4, '')::status`
unfoldable pub requested {ℓ} : {A : Type ℓ} → (Text → Option A) → Text → Result RowError (Option A)
requested cast t =
    if is_empty t then ok none else elim (cast t) [ none ↦ err invalid_enum | some a ↦ ok (some a) ]

-- `COALESCE(NULLIF($3, ''), title)`
unfoldable pub or_title : Text → Text → Text
or_title t title = if is_empty t then title else t

-- The columns shared by the tables, for an enumeration A.
pub record Row (A : Type 0) : Type 0 where
  pub title : Text
  pub status : A
  pub archived_from : Option A
  pub revision : ℕ

module _ {A : Type 0} (eq : A → A → Bool) (archived default : A) where
  -- The first two WHEN conditions.
  unfoldable pub to_archive : Option A → A → Truth
  unfolding sql_and sql_eq sql_ne
  to_archive new old =
      sql_and (sql_eq eq new (some archived)) (sql_ne eq (some old) (some archived))

  unfoldable pub to_restore : Option A → A → Truth
  unfolding sql_and sql_eq sql_ne is_not_null
  to_restore new old =
      sql_and (is_not_null new)
        (sql_and (sql_eq eq (some old) (some archived)) (sql_ne eq new (some archived)))

  unfoldable pub next_status : Option A → Row A → A
  unfolding to_archive to_restore case_when coalesce
  next_status new row = case_when (to_archive new row.status) archived (
      case_when (to_restore new row.status) (coalesce row.archived_from default)
        (coalesce new row.status))

  unfoldable pub next_archived_from : Option A → Row A → Option A
  unfolding to_archive to_restore case_when
  next_archived_from new row =
      case_when (to_archive new row.status) (some row.status)
        (case_when (to_restore new row.status) none row.archived_from)

  unfoldable pub next_row : Text → Option A → Row A → Row A
  unfolding next_status next_archived_from or_title
  next_row title new row = record {
    title = or_title title row.title;
    status = next_status new row;
    archived_from = next_archived_from new row;
    revision = suc row.revision;
  }

-- The condition of stories, journeys and problems.
unfoldable pub document_where : Option DocumentStatus → DocumentStatus → Truth
unfolding document_eq sql_or sql_and sql_not sql_eq sql_ne is_not_null
document_where new old =
    sql_or
      (sql_not (
        sql_or (sql_eq document_eq (some old) (some locked))
          (sql_eq document_eq (some old) (some DocumentStatus.archived))))
      (sql_or (sql_eq document_eq new (some DocumentStatus.archived)) (
        sql_and (sql_eq document_eq (some old) (some DocumentStatus.archived))
          (sql_and (is_not_null new) (sql_ne document_eq new (some DocumentStatus.archived)))))

unfoldable pub write_document :
    Text → Option DocumentStatus → Row DocumentStatus → Result RowError (Row DocumentStatus)
unfolding document_where is_true next_row
write_document title new row =
    if is_true (document_where new row.status)
    then ok (next_row document_eq DocumentStatus.archived draft title new row)
    else err no_rows

unfoldable pub update_document_row :
    Text → Text → Row DocumentStatus → Result RowError (Row DocumentStatus)
unfolding requested cast_document write_document
update_document_row title status row =
    requested cast_document status >>= λ new. write_document title new row

-- The problem that an idea is linked to after the update: no link, a link to no row, or its status.
pub data Linked : Type 0 where
  no_link missing : Linked
  problem_status : DocumentStatus → Linked

unfoldable pub has_link : Linked → Truth
has_link no_link = fails
has_link missing = holds
has_link (problem_status s) = holds

-- EXISTS (SELECT 1 FROM problems ... AND p.status = 'Locked')
unfoldable pub exists_locked : Linked → Truth
unfolding document_eq sql_bool
exists_locked (problem_status s) = sql_bool (document_eq s locked)
exists_locked no_link = fails
exists_locked missing = fails

unfoldable pub is_null {ℓ} : {A : Type ℓ} → Option A → Truth
unfolding is_not_null sql_not
is_null new = sql_not (is_not_null new)

-- The condition of ideas.
unfoldable pub idea_where : Option IdeaStatus → IdeaStatus → Linked → Truth
unfolding idea_eq sql_or sql_and sql_not sql_eq sql_ne is_not_null is_null has_link exists_locked
idea_where new old linked =
    sql_and
      (sql_or
        (sql_and (is_null new) (
          sql_not (
            sql_or (sql_eq idea_eq (some old) (some selected)) (
              sql_or (sql_eq idea_eq (some old) (some rejected))
                (sql_eq idea_eq (some old) (some IdeaStatus.archived))))))
        (is_not_null new))
      (sql_or (sql_ne idea_eq new (some selected))
        (sql_and (has_link linked) (exists_locked linked)))

unfoldable pub write_idea :
    Option IdeaStatus → Linked → Row IdeaStatus → Result RowError (Row IdeaStatus)
unfolding idea_where is_true next_row
write_idea new linked row =
    if is_true (idea_where new row.status linked)
    then ok (next_row idea_eq IdeaStatus.archived considered (codes "") new row)
    else err no_rows

unfoldable pub update_idea_row : Text → Linked → Row IdeaStatus → Result RowError (Row IdeaStatus)
unfolding requested cast_idea write_idea
update_idea_row status linked row = requested cast_idea status >>= λ new. write_idea new linked row
