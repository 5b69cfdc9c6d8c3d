-- ===== src/Team/Batch/Reports.antt =====
-- One round of BatchInvites in internal/modules/team/service.go against the same invite, posted alone.
use projectbook_backend.Base.{
  ℕ, ◌≡◌, refl, sym, ap, ◌⊎◌, inl, inr, Bool, true, false, ◌||◌, Option, none, some, List, [], ◌∷◌,
  if◌then◌else◌, Result, ok, err, ◌>>◌, guard, Bool-cases, arith,
}
use projectbook_backend.Text.{Text, codes, is_empty, trim_space}
use projectbook_backend.Team.{
  Failure, bad, InviteRequest, canonical_role, normalize_email, usable_email, validate_invite,
  is_some,
}
use projectbook_backend.Team.Store.{Db}
use projectbook_backend.Team.Service.{
  World, BatchFailure, Step, invited, refused, aborted, is_fatal, step_of_result, create_with,
  invite, batch_create, batch_role, batch_item, invalid_invite,
}

pub or_false : (a b : Bool) → a || b ≡ false → (a ≡ false) × (b ≡ false)
or_false a b h = ground arith

-- What a round may do with an invite whose answer, posted alone, is the given one: report it as
-- invited with its address and role where it is created; or as failed, with its address, its role as
-- it was written or as it was read, and the code and message of that answer; or end the batch.
pub IsStepOf : InviteRequest → Result Failure Db → Step → Type 0
IsStepOf q answer (invited email role) =
    (email ≡ normalize_email q.email)
    × (canonical_role q.role ≡ some role)
    × ((db : Db) × (answer ≡ ok db))
IsStepOf q answer (refused f) =
    (f.email ≡ normalize_email q.email)
    × ((f.role ≡ q.role) ⊎ (canonical_role q.role ≡ some f.role))
    × ((e : Failure) × (answer ≡ err e) × (f.code ≡ e.code) × (f.message ≡ e.message))
IsStepOf q answer (aborted f) = answer ≡ err f

step_of_result-IsStepOf :
    (q : InviteRequest) (role : Text) (r : Result Failure Db)
    → canonical_role q.role ≡ some role
    → IsStepOf q r (step_of_result (normalize_email q.email) role r)
unfolding IsStepOf step_of_result
step_of_result-IsStepOf q role (ok db) h = (refl, h, (db, refl))
step_of_result-IsStepOf q role (err f) h = elim (Bool-cases (is_fatal f.code)) [
  | inl e ↦ rw e refl
  | inr e ↦ rw e (refl, inr h, (f, refl, refl, refl))
]

module _ (parse_address parse_uuid : Text → Option Text) (id actor : Text) (clock : ℕ) where
  -- The world after an invite that is posted alone, behind its validation.
  pub posted : Result Failure (Unit {0}) → InviteRequest → World → World
  posted (err f) req w = w
  posted (ok u) req w = (invite parse_address parse_uuid id actor clock req w).1

  -- Its answer.
  pub reply : Result Failure (Unit {0}) → InviteRequest → World → Result Failure Db
  reply (err f) req w = err f
  reply (ok u) req w = (invite parse_address parse_uuid id actor clock req w).0

  posted_by_parts :
      (b : Bool) (o : Option Text) (email raw : Text) (e e' : Failure) (s : Step)
      (q : InviteRequest) (w : World)
      → (invite parse_address parse_uuid id actor clock q w).1
        ≡ (create_with parse_address parse_uuid id actor clock email o w).1
      → (if b then batch_role parse_address parse_uuid id actor clock email raw o w else (s, w)).1
        ≡ posted (guard b e >> guard (is_some o) e') q w
  unfolding batch_role batch_create posted create_with
  posted_by_parts true none email raw e e' s q w h = refl
  posted_by_parts true (some role) email raw e e' s q w h = sym h
  posted_by_parts false o email raw e e' s q w h = refl

  invite-create_with :
      (q : InviteRequest) (w : World)
      → is_empty (trim_space id) || is_empty (trim_space actor) ≡ false
      → invite parse_address parse_uuid id actor clock q w
        ≡ create_with parse_address parse_uuid id actor clock
            (normalize_email q.email)
            (canonical_role q.role)
            w
  unfolding invite
  invite-create_with q w full =
      let e = or_false (is_empty (trim_space id)) _ full in rw (e.0, e.1) refl

  pub batch_item-posted :
      (q : InviteRequest) (w : World)
      → is_empty (trim_space id) || is_empty (trim_space actor) ≡ false
      → (batch_item parse_address parse_uuid id actor clock q w).1
        ≡ posted (validate_invite parse_address q) q w
  unfolding batch_item validate_invite
  batch_item-posted q w full =
      posted_by_parts (usable_email parse_address (normalize_email q.email)) (canonical_role q.role)
        (normalize_email q.email) q.role _ _ _ q w (ap (λ y. y.1) (invite-create_with q w full))

  step_by_parts :
      (b : Bool) (o : Option Text) (q : InviteRequest) (w : World)
      → canonical_role q.role ≡ o
      → (invite parse_address parse_uuid id actor clock q w).0
        ≡ (create_with parse_address parse_uuid id actor clock (normalize_email q.email) o w).0
      → IsStepOf q
          (reply
            (guard b (bad (codes "email is invalid"))
              >> guard (is_some o) (bad (codes "role is invalid")))
            q
            w)
          (if b
            then batch_role parse_address parse_uuid id actor clock
                (normalize_email q.email)
                q.role
                o
                w
            else (invalid_invite (normalize_email q.email) q.role (codes "email is invalid"), w)).0
  unfolding batch_role batch_create reply create_with IsStepOf
  step_by_parts true none q w e h = (refl, inl refl, (_, refl, refl, refl))
  step_by_parts true (some role) q w e h = rw h (step_of_result-IsStepOf q role _ e)
  step_by_parts false o q w e h = (refl, inl refl, (_, refl, refl, refl))

  pub batch_item-IsStepOf :
      (q : InviteRequest) (w : World)
      → is_empty (trim_space id) || is_empty (trim_space actor) ≡ false
      → IsStepOf q
          (reply (validate_invite parse_address q) q w)
          (batch_item parse_address parse_uuid id actor clock q w).0
  unfolding batch_item validate_invite
  batch_item-IsStepOf q w full =
      step_by_parts (usable_email parse_address (normalize_email q.email)) (canonical_role q.role) q
        w refl (ap (λ y. y.0) (invite-create_with q w full))

  -- The two lists of a response report each invite once, in order, as it is answered when the invites
  -- are posted one by one.
  pub data IsReported
      : World → List InviteRequest → List (Text × Text) → List BatchFailure → Type 0 where
    no_more : (w : World) → IsReported w [] [] []
    sent :
        (w : World) (q : InviteRequest) (qs : List InviteRequest) (email role : Text)
        (is : List (Text × Text)) (fs : List BatchFailure)
        → IsStepOf q (reply (validate_invite parse_address q) q w) (invited email role)
        → IsReported (posted (validate_invite parse_address q) q w) qs is fs
        → IsReported w (q ∷ qs) ((email, role) ∷ is) fs
    failed :
        (w : World) (q : InviteRequest) (qs : List InviteRequest) (f : BatchFailure)
        (is : List (Text × Text)) (fs : List BatchFailure)
        → IsStepOf q (reply (validate_invite parse_address q) q w) (refused f)
        → IsReported (posted (validate_invite parse_address q) q w) qs is fs
        → IsReported w (q ∷ qs) is (f ∷ fs)
