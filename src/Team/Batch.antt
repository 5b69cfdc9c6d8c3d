-- ===== src/Team/Batch.antt =====
-- A batch of invites in internal/modules/team against invites that are posted one by one.
pub mod Reports
use mathlib.Core.List.{append-nil, append_assoc}
use mathlib.Core.Path.{subst}
use projectbook_backend.Base.{
  ℕ, suc, ◌+◌, ◌≡◌, refl, sym, ap, ◌∙◌, Bool, true, false, ◌||◌, Option, none, some, List, [], ◌∷◌,
  ◌++◌, length, length-append, if◌then◌else◌, Result, ok, err, ◌>>◌, guard, arith,
}
use projectbook_backend.Text.{Text, is_empty, trim_space}
use projectbook_backend.Team.{
  Failure, InviteRequest, canonical_role, normalize_email, usable_email, validate_invite, is_some,
}
use projectbook_backend.Team.Repo.{resolve_project}
use projectbook_backend.Team.Batch.Reports.{
  or_false, IsStepOf, posted, reply, batch_item-posted, batch_item-IsStepOf, IsReported, no_more,
  sent, failed,
}
use projectbook_backend.Team.Service.{
  World, BatchFailure, BatchResponse, Step, invited, refused, aborted, record_step, lift_error,
  create_with, invite, batch_create, batch_role, batch_item, batch_all, batch_in, batch_invites,
}

module _ (parse_address parse_uuid : Text → Option Text) (id actor : Text) (clock : ℕ) where
  -- The world after the rest of a batch.
  abbrev rest :
      List InviteRequest
      → Result Failure BatchResponse
      → World
      → Result Failure BatchResponse × World
  rest = batch_all parse_address parse_uuid id actor clock

  rest_err :
      (reqs : List InviteRequest) (f : Failure) (w : World) → rest reqs (err f) w ≡ (err f, w)
  unfolding batch_all
  rest_err [] f w = refl
  rest_err (q ∷ qs) f w = refl

  no_answer : (f : Failure) (r : BatchResponse) → err f ≡ ok r → ⊥
  no_answer f r e = cc

  -- A round that was followed by an answer had recorded its step.
  recorded :
      (qs : List InviteRequest) (x : Result Failure BatchResponse) (r' : BatchResponse) (w : World)
      → (rest qs x w).0 ≡ ok r'
      → (r : BatchResponse) × (x ≡ ok r)
  recorded qs (ok r) r' w h = (r, refl)
  recorded qs (err f) r' w h = absurd (no_answer f r' (sym (ap (λ y. y.0) (rest_err qs f w)) ∙ h))

  pub one_by_one : List InviteRequest → World → World
  one_by_one [] w = w
  one_by_one (q ∷ qs) w =
      one_by_one qs
        (posted parse_address parse_uuid id actor clock (validate_invite parse_address q) q w)

  -- The rest of a batch adds the reports of its invites to the two lists.
  IsExtended : List InviteRequest → World → BatchResponse → BatchResponse → Type 0
  IsExtended reqs w r r' =
      (is : List (Text × Text)) × (fs : List BatchFailure) × (r'.invited ≡ r.invited ++ is)
      × (r'.failed ≡ r.failed ++ fs)
      × IsReported parse_address parse_uuid id actor clock w reqs is fs

  IsExtended-step :
      (s : Step) (q : InviteRequest) (qs : List InviteRequest) (w : World) (r r2 r' : BatchResponse)
      → record_step s r ≡ ok r2
      → IsStepOf q
          (reply parse_address parse_uuid id actor clock (validate_invite parse_address q) q w)
          s
      → IsExtended qs
          (posted parse_address parse_uuid id actor clock (validate_invite parse_address q) q w)
          r2
          r'
      → IsExtended (q ∷ qs) w r r'
  unfolding IsExtended record_step
  IsExtended-step (invited email role) q qs w r r2 r' h step (is, fs, ei, ef, later) =
      let e : record r { invited = r.invited ++ (email, role) ∷ [] } ≡ r2 = cc in
      (
        (email, role) ∷ is,
        fs,
        ei ∙ ap (λ x. x.invited ++ is) (sym e) ∙ append_assoc r.invited ((email, role) ∷ []) is,
        ef ∙ ap (λ x. x.failed ++ fs) (sym e),
        sent w q qs email role is fs step later,
      )
  IsExtended-step (refused f) q qs w r r2 r' h step (is, fs, ei, ef, later) =
      let e : record r { failed = r.failed ++ f ∷ [] } ≡ r2 = cc in
      (
        is,
        f ∷ fs,
        ei ∙ ap (λ x. x.invited ++ is) (sym e),
        ef ∙ ap (λ x. x.failed ++ fs) (sym e) ∙ append_assoc r.failed (f ∷ []) fs,
        failed w q qs f is fs step later,
      )
  IsExtended-step (aborted f) q qs w r r2 r' h step later = cc

  batch_all-IsExtended :
      (reqs : List InviteRequest) (r r' : BatchResponse) (w : World)
      → is_empty (trim_space id) || is_empty (trim_space actor) ≡ false
      → (rest reqs (ok r) w).0 ≡ ok r'
      → IsExtended reqs w r r'
  unfolding batch_all IsExtended
  batch_all-IsExtended [] r r' w full h =
      let e : r ≡ r' = cc in
      (
        [],
        [],
        ap (λ x. x.invited) (sym e) ∙ sym (append-nil r.invited),
        ap (λ x. x.failed) (sym e) ∙ sym (append-nil r.failed),
        no_more w,
      )
  batch_all-IsExtended (q ∷ qs) r r' w full h =
      let x = batch_item parse_address parse_uuid id actor clock q w in
      let (r2, e) = recorded qs (record_step x.0 r) r' x.1 h in
      let later : IsExtended qs x.1 r2 r' =
        batch_all-IsExtended qs r2 r' x.1 full (ap (λ y. (rest qs y x.1).0) (sym e) ∙ h) in
      IsExtended-step x.0 q qs w r r2 r' e
        (batch_item-IsStepOf parse_address parse_uuid id actor clock q w full)
        (subst (λ v. IsExtended qs v r2 r')
          (batch_item-posted parse_address parse_uuid id actor clock q w full) later)

  batch_all-one_by_one :
      (reqs : List InviteRequest) (r r' : BatchResponse) (w : World)
      → is_empty (trim_space id) || is_empty (trim_space actor) ≡ false
      → (rest reqs (ok r) w).0 ≡ ok r'
      → (rest reqs (ok r) w).1 ≡ one_by_one reqs w
  unfolding batch_all one_by_one
  batch_all-one_by_one [] r r' w full h = refl
  batch_all-one_by_one (q ∷ qs) r r' w full h =
      let x = batch_item parse_address parse_uuid id actor clock q w in
      let (r2, e) = recorded qs (record_step x.0 r) r' x.1 h in
      ap (λ y. (rest qs y x.1).1) e
      ∙ batch_all-one_by_one qs r2 r' x.1 full (ap (λ y. (rest qs y x.1).0) (sym e) ∙ h)
      ∙ ap (one_by_one qs) (batch_item-posted parse_address parse_uuid id actor clock q w full)

module _ (parse_address parse_uuid : Text → Option Text) where
  batch_started :
      (project actor : Text) (clock : ℕ) (reqs : List InviteRequest) (w : World) (id : Text)
      → resolve_project project w.db ≡ ok id
      → is_empty (trim_space project) || is_empty (trim_space actor) ≡ false
      → batch_invites parse_address parse_uuid project actor clock reqs w
        ≡ batch_all parse_address parse_uuid id actor clock reqs
            (ok (record { invited = []; failed = [] }))
            w
  unfolding batch_invites batch_in lift_error
  batch_started project actor clock reqs w id here full =
      let e = or_false (is_empty (trim_space project)) _ full in rw (e.0, e.1, here) refl

  -- A batch that is answered, of a project that exists and an actor, neither blank, leaves the tables
  -- and the log that its invites would leave that are posted one by one, in order, after the
  -- validation of each. It reports each invite once, in order: as invited, with the normalized address
  -- and the canonical role, if the one posted alone is created; otherwise as failed, with the
  -- normalized address, the role as written or as read, and the code and the message that the one
  -- posted alone is answered with.
  pub batch_invites-one_by_one :
      (project actor : Text) (clock : ℕ) (reqs : List InviteRequest) (w : World) (id : Text)
      (r : BatchResponse)
      → resolve_project project w.db ≡ ok id
      → is_empty (trim_space project) || is_empty (trim_space actor) ≡ false
      → is_empty (trim_space id) || is_empty (trim_space actor) ≡ false
      → (batch_invites parse_address parse_uuid project actor clock reqs w).0 ≡ ok r
      → IsReported parse_address parse_uuid id actor clock w reqs r.invited r.failed
        × ((batch_invites parse_address parse_uuid project actor clock reqs w).1
            ≡ one_by_one parse_address parse_uuid id actor clock reqs w)
  unfolding IsExtended
  batch_invites-one_by_one project actor clock reqs w id r here full full' h =
      let start = batch_started project actor clock reqs w id here full in
      let answer = sym (ap (λ y. y.0) start) ∙ h in
      let (is, fs, ei, ef, reports) =
        batch_all-IsExtended parse_address parse_uuid id actor clock reqs
          (record { invited = []; failed = [] }) r w full' answer in
      (
        rw (ei, ef) reports,
        ap (λ y. y.1) start
            ∙ batch_all-one_by_one parse_address parse_uuid id actor clock reqs
                (record { invited = []; failed = [] }) r w full' answer,
      )
