-- ===== src/Artifacts/Frozen.antt =====
-- What the checks of an update leave possible once an artifact is in one of the statuses that
-- freeze it.
use projectbook_backend.Base.{
  ◌≡◌, ◌≢◌, ◌⊎◌, inl, inr, refl, ap, ◌∙◌, true, false, not, ◌||◌, Option, some, List, [], ◌∷◌, Any,
  any, all, Result, ok, err, ◌>>◌, >>=-eq-ok, guard_iff, arith,
}
use projectbook_backend.Rbac.{lookup_text}
use projectbook_backend.Text.{mem_text, Text, codes, text_eq, is_empty, trim_space, equal_fold}
use projectbook_backend.Text.Laws.{text_eq_iff, trim_space_idempotent}
use projectbook_backend.Patchx.{Value, text, Fields}
use projectbook_backend.Artifacts.Workflow.{
  Workflow, UpdateError, check_update, validate_request, enforce_archive_only, check_transition,
  string_at, to_string, lookup_field, count_fields, is_immutable_status, is_archive_only_patch,
  is_restore_only_patch, is_allowed_transition, status_key, archived_text,
}
use projectbook_backend.Artifacts.Kinds.{
  task_workflow, idea_workflow, story_workflow, journey_workflow, problem_workflow,
}

pub to_string-trim : (v : Value) → trim_space (to_string v) ≡ to_string v
unfolding to_string trim_space
to_string-trim (text t) = trim_space_idempotent t
to_string-trim _ = refl

two_checks :
    {p fs : Fields} (m n : Result UpdateError (Unit {0}))
    → (m >> (n >> ok p)) ≡ ok fs
    → (m ≡ ok tt) × (n ≡ ok tt) × (p ≡ fs)
two_checks (ok u) (ok v) h = (refl, refl, cc)
two_checks (ok u) (err e) h = cc
two_checks (err e) n h = cc

checks_passed :
    (k : Workflow) (from : Text) (p fs : Fields)
    → (enforce_archive_only from p k.immutable
        >> (check_transition k from (string_at status_key p) >> ok p))
      ≡ ok fs
    → (enforce_archive_only from fs k.immutable ≡ ok tt)
      × (check_transition k from (string_at status_key fs) ≡ ok tt)
      × (p ≡ fs)
checks_passed k from p fs h =
    let (free, moved, same) =
      two_checks (enforce_archive_only from p k.immutable)
        (check_transition k from (string_at status_key p)) h in
    rw (← same) (free, moved, refl)

-- The parts of an accepted update.
pub accepted_update :
    (k : Workflow) (from : Text) (o : Option Fields) (fs : Fields)
    → check_update k from o ≡ ok fs
    → (validate_request k o ≡ ok fs)
      × (enforce_archive_only from fs k.immutable ≡ ok tt)
      × (check_transition k from (string_at status_key fs) ≡ ok tt)
unfolding check_update
accepted_update k from o fs h =
    let (p, valid, rest) = >>=-eq-ok (validate_request k o) _ h in
    let (free, moved, same) = checks_passed k from p fs rest in (valid ∙ ap ok same, free, moved)

-- Past the archive-only rule, from a frozen status other than Archived.
archive_only :
    (from : Text) (fs : Fields) (immutable : List Text)
    → is_immutable_status from immutable ≡ true
    → equal_fold (trim_space from) archived_text ≡ false
    → enforce_archive_only from fs immutable ≡ ok tt
    → (count_fields fs ≡ 1) × (equal_fold (string_at status_key fs) archived_text ≡ true)
unfolding enforce_archive_only is_archive_only_patch is_restore_only_patch
archive_only from fs immutable frozen live h =
    let trimmed : trim_space (string_at status_key fs) ≡ string_at status_key fs =
      to_string-trim (lookup_field status_key fs) in
    let passed = (guard_iff _ _).0 h in ground (arith, passed, trimmed)

mem_text-Any : (s : Text) (ts : List Text) → mem_text s ts ≡ true → Any (λ t. s ≡ t) ts
unfolding mem_text
mem_text-Any s [] h = cc
mem_text-Any s (t ∷ ts) h = ground (arith, text_eq_iff s t, mem_text-Any s ts)

pub filled : (s : Text) → equal_fold s archived_text ≡ true → is_empty s ≡ false
unfolding equal_fold
filled [] h = cc
filled (c ∷ s) h = refl

-- An allowed move is in the row of the matrix.
move_in_row :
    (k : Workflow) (from s : Text) (row : List Text)
    → trim_space s ≡ s
    → is_empty s ≡ false
    → lookup_text (trim_space from) k.transitions ≡ some row
    → check_transition k from s ≡ ok tt
    → Any (λ t. s ≡ t) row
unfolding check_transition is_allowed_transition
move_in_row k from s row trimmed full e h =
    let passed = (guard_iff _ _).0 h in mem_text-Any s row (ground (arith, passed, trimmed))

-- In a row where only Archived is written like it.
pick_archived :
    (s : Text) (row : List Text)
    → all (λ t. not (equal_fold t archived_text) || text_eq t archived_text) row ≡ true
    → equal_fold s archived_text ≡ true
    → Any (λ t. s ≡ t) row
    → s ≡ archived_text
pick_archived s [] only h found = elim found [ ]
pick_archived s (t ∷ row) only h (inl e) =
    let same : equal_fold t archived_text ≡ true = rw (← e) h in
    e ∙ (text_eq_iff t archived_text).0 (ground arith)
pick_archived s (t ∷ row) only h (inr found) = pick_archived s row (ground arith) h found

no_archived :
    (s : Text) (row : List Text)
    → any (λ t. equal_fold t archived_text) row ≡ false
    → equal_fold s archived_text ≡ true
    → Any (λ t. s ≡ t) row
    → ⊥
no_archived s [] none_here h found = elim found [ ]
no_archived s (t ∷ row) none_here h (inl e) =
    let same : equal_fold t archived_text ≡ true = rw (← e) h in ground arith
no_archived s (t ∷ row) none_here h (inr found) = no_archived s row (ground arith) h found

module _ (k : Workflow) (from : Text) (o : Option Fields) (fs : Fields) (row : List Text)
    (frozen : is_immutable_status from k.immutable ≡ true)
    (live : equal_fold (trim_space from) archived_text ≡ false)
    (here : lookup_text (trim_space from) k.transitions ≡ some row) where
  -- From a frozen status, only a patch of the status alone is left, to an archived status.
  frozen_moves :
      check_update k from o ≡ ok fs
      → (count_fields fs ≡ 1)
        × Any (λ t. string_at status_key fs ≡ t) row
        × (equal_fold (string_at status_key fs) archived_text ≡ true)
  unfolding string_at
  frozen_moves h =
      let (valid, free, moved) = accepted_update k from o fs h in
      let (one, archived) = archive_only from fs k.immutable frozen live free in
      let trimmed = to_string-trim (lookup_field status_key fs) in
      let full = filled (string_at status_key fs) archived in
      (one, move_in_row k from (string_at status_key fs) row trimmed full here moved, archived)

  frozen_archives :
      all (λ t. not (equal_fold t archived_text) || text_eq t archived_text) row ≡ true
      → check_update k from o ≡ ok fs
      → (count_fields fs ≡ 1) × (string_at status_key fs ≡ archived_text)
  frozen_archives only h =
      let (one, found, fold) = frozen_moves h in
      (one, pick_archived (string_at status_key fs) row only fold found)

  frozen_closed : any (λ t. equal_fold t archived_text) row ≡ false → check_update k from o ≢ ok fs
  frozen_closed none_here h =
      let (one, found, fold) = frozen_moves h in
      no_archived (string_at status_key fs) row none_here fold found

-- The statuses that freeze an artifact without being its last, by the tables of service.go;
-- docs/ProjectBookDocs/API-GUIDELINES.md (6.8 and 7.4) would let an idea go back from Selected or
-- Rejected to Considered.
pub data Freezes : Workflow → Text → Type 0 where
  story_locked : Freezes story_workflow (codes "Locked")
  journey_locked : Freezes journey_workflow (codes "Locked")
  problem_locked : Freezes problem_workflow (codes "Locked")
  idea_selected : Freezes idea_workflow (codes "Selected")
  idea_rejected : Freezes idea_workflow (codes "Rejected")

tables : Unit {0}
unfolding is_immutable_status equal_fold lookup_text mem_text trim_space
tables = tt

-- A story, journey or problem that is Locked and an idea that is Selected or Rejected accept one
-- update only: a patch with the status Archived and no other field.
pub frozen_update :
    (k : Workflow) (from : Text) (o : Option Fields) (fs : Fields)
    → Freezes k from
    → check_update k from o ≡ ok fs
    → (count_fields fs ≡ 1) × (string_at status_key fs ≡ archived_text)
unfolding tables
frozen_update k from o fs story_locked h = frozen_archives _ _ o fs _ refl refl refl refl h
frozen_update k from o fs journey_locked h = frozen_archives _ _ o fs _ refl refl refl refl h
frozen_update k from o fs problem_locked h = frozen_archives _ _ o fs _ refl refl refl refl h
frozen_update k from o fs idea_selected h = frozen_archives _ _ o fs _ refl refl refl refl h
frozen_update k from o fs idea_rejected h = frozen_archives _ _ o fs _ refl refl refl refl h

-- A task that is Completed or Abandoned accepts no update at all.
pub task_closed :
    (from : Text) (o : Option Fields) (fs : Fields)
    → (from ≡ codes "Completed") ⊎ (from ≡ codes "Abandoned")
    → check_update task_workflow from o ≢ ok fs
unfolding tables
task_closed from o fs (inl e) h =
    frozen_closed task_workflow (codes "Completed") o fs _ refl refl refl refl (rw e at h)
task_closed from o fs (inr e) h =
    frozen_closed task_workflow (codes "Abandoned") o fs _ refl refl refl refl (rw e at h)
