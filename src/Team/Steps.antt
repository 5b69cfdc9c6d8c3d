-- ===== src/Team/Steps.antt =====
-- The service of internal/modules/team as a system of steps, and the properties of the tables that every
-- operation keeps.
use projectbook_backend.Base.{
  ℕ, ◌≡◌, refl, Bool, true, false, not, Option, none, some, List, [], ◌∷◌, if◌then◌else◌, Result,
  ok, err,
}
use projectbook_backend.Base.Rows.{Yields, bind-Yields, guard-Yields}
use projectbook_backend.Text.{Text, is_empty, trim_space, equal_fold}
use projectbook_backend.Rbac.{role_owner}
use projectbook_backend.Rbac.Roles.{IsViewClosed}
use projectbook_backend.Permissions.Tags.{Deployment}
use projectbook_backend.Team.{
  Failure, TeamError, canonical_role, normalize_email, InviteRequest, MemberRequest, RoleRequest,
  usable_email,
}
use projectbook_backend.Team.Store.{Db}
use projectbook_backend.Team.Repo.{
  resolve_project, create_invite, cancel_invite, MemberInput, update_member_permissions,
  RoleUpdated, CreateInput, RoleInput, update_role_permissions,
}
use projectbook_backend.Team.Masks.{validate_mask_dependencies_iff}
use projectbook_backend.Team.Plans.{IsPlan, plan_member-IsPlan}
use projectbook_backend.Team.Service.{
  World, with_tx, lift_error, invite_input, BatchResponse, record_step, batch_create, batch_role,
  batch_item, batch_all, batch_in, batch_invites, create_with, invite, run_cancel, cancel,
  check_body_role, check_role_request, role_input, after_role, run_role, update_role, plan_member,
  after_member, run_member, update_member,
}

module _ (parse_address parse_uuid : Text → Option Text) where
  -- One operation of the service, or the passing of time.
  pub data TeamStep : World → World → Type 0 where
    invites :
        (project actor : Text) (clock : ℕ) (req : InviteRequest) (w : World)
        → TeamStep w (invite parse_address parse_uuid project actor clock req w).1
    batches :
        (project actor : Text) (clock : ℕ) (reqs : List InviteRequest) (w : World)
        → TeamStep w (batch_invites parse_address parse_uuid project actor clock reqs w).1
    cancels :
        (project email : Text) (w : World)
        → TeamStep w (cancel parse_address parse_uuid project email w).1
    updates_member :
        (d : Deployment) (project member : Text) (req : MemberRequest) (w : World)
        → TeamStep w (update_member parse_address parse_uuid d project member req w).1
    updates_role :
        (d : Deployment) (project path actor : Text) (req : RoleRequest) (w : World)
        → TeamStep w (update_role d project path actor req w).1
    waits : (now : ℕ) (w : World) → TeamStep w (record w { db = record w.db { now = now } })

  pub data TeamRun : World → World → Type 0 where
    stays : (w : World) → TeamRun w w
    steps : (u v w : World) → TeamStep u v → TeamRun v w → TeamRun u w

after_member-db :
    (d : Deployment) (project : Text) (x : Result Failure (Db × Text) × World)
    → (after_member d project x).1.db ≡ x.1.db
unfolding after_member
after_member-db d project (ok p, w) = refl
after_member-db d project (err f, w) = refl

after_role-db :
    (d : Deployment) (project : Text) (x : Result Failure RoleUpdated × World)
    → (after_role d project x).1.db ≡ x.1.db
unfolding after_role
after_role-db d project (ok p, w) = refl
after_role-db d project (err f, w) = refl

own-IsPlan :
    {project : Text} {db : Db} {input : MemberInput}
    → IsPlan project db input
    → IsPlan input.project_id db input
own-IsPlan plan = record {
  of_project = refl;
  canonical = plan.canonical;
  not_owner = plan.not_owner;
  closed = plan.closed;
  settled = rw plan.of_project plan.settled;
}

check_role_request_closed :
    (project path actor : Text) (req : RoleRequest)
    → Yields (λ u. IsViewClosed req.permission_mask) (check_role_request project path actor req)
unfolding check_role_request
check_role_request_closed project path actor req =
    guard-Yields _ (not (is_empty (trim_space project))) _ _ (λ h0.
      guard-Yields _ (not (is_empty (trim_space path))) _ _ (λ h1.
        guard-Yields _ (not (is_empty (trim_space actor))) _ _ (λ h2.
          bind-Yields _ (check_body_role path (canonical_role req.role)) _ (λ u h3.
            guard-Yields _ (not (equal_fold path role_owner)) _ _
              (λ h4. λ u h. (validate_mask_dependencies_iff req.permission_mask).0 h)))))

module _ (parse_address parse_uuid : Text → Option Text) (P : Db → Type 0)
    (on_create : (input : CreateInput) (db : Db)
      → P db
      → Yields P (create_invite parse_uuid input db))
    (on_cancel : (project email : Text) (db : Db)
      → P db
      → Yields P (cancel_invite project email db))
    (on_member : (input : MemberInput) (db : Db)
      → P db
      → IsPlan input.project_id db input
      → Yields (λ r. P r.0) (update_member_permissions parse_uuid input db))
    (on_role : (input : RoleInput) (db : Db)
      → IsViewClosed input.permission_mask
      → P db
      → Yields (λ u. P u.db) (update_role_permissions input db))
    (on_wait : (now : ℕ) (db : Db) → P db → P (record db { now = now })) where
  with_tx_keeps {ℓ} :
      {A : Type ℓ} (f : A → Db) (r : Result TeamError A) (w : World)
      → P w.db
      → Yields (λ a. P (f a)) r
      → P (with_tx f r w).1.db
  unfolding with_tx
  with_tx_keeps f (ok a) w v h = h a refl
  with_tx_keeps f (err e) w v h = v

  if_world :
      {A : Type 0} (b : Bool) (x y : A × World) → P x.1.db → P y.1.db → P (if b then x else y).1.db
  if_world true x y h k = h
  if_world false x y h k = k

  create_with_keeps :
      (project actor : Text) (clock : ℕ) (email : Text) (role : Option Text) (w : World)
      → P w.db
      → P (create_with parse_address parse_uuid project actor clock email role w).1.db
  unfolding create_with
  create_with_keeps project actor clock email none w v = v
  create_with_keeps project actor clock email (some role) w v =
      with_tx_keeps (λ db. db) _ w v
        (on_create (invite_input project actor clock email role) w.db v)

  invite_keeps :
      (project actor : Text) (clock : ℕ) (req : InviteRequest) (w : World)
      → P w.db
      → P (invite parse_address parse_uuid project actor clock req w).1.db
  unfolding invite
  invite_keeps project actor clock req w v = if_world (is_empty (trim_space project)) _ _ v (
      if_world (is_empty (trim_space actor)) _ _ v (
        create_with_keeps project actor clock (normalize_email req.email) (canonical_role req.role)
          w v))

  batch_role_keeps :
      (id actor : Text) (clock : ℕ) (email raw : Text) (role : Option Text) (w : World)
      → P w.db
      → P (batch_role parse_address parse_uuid id actor clock email raw role w).1.db
  unfolding batch_role batch_create
  batch_role_keeps id actor clock email raw none w v = v
  batch_role_keeps id actor clock email raw (some role) w v =
      with_tx_keeps (λ db. db) _ w v (on_create (invite_input id actor clock email role) w.db v)

  batch_item_keeps :
      (id actor : Text) (clock : ℕ) (req : InviteRequest) (w : World)
      → P w.db
      → P (batch_item parse_address parse_uuid id actor clock req w).1.db
  unfolding batch_item
  batch_item_keeps id actor clock req w v =
      if_world (usable_email parse_address (normalize_email req.email)) _ _
        (batch_role_keeps id actor clock (normalize_email req.email) req.role
          (canonical_role req.role) w v)
        v

  batch_all_keeps :
      (id actor : Text) (clock : ℕ) (reqs : List InviteRequest) (r : Result Failure BatchResponse)
      (w : World)
      → P w.db
      → P (batch_all parse_address parse_uuid id actor clock reqs r w).1.db
  unfolding batch_all
  batch_all_keeps id actor clock [] (err f) w v = v
  batch_all_keeps id actor clock (q ∷ qs) (err f) w v = v
  batch_all_keeps id actor clock [] (ok r) w v = v
  batch_all_keeps id actor clock (q ∷ qs) (ok r) w v =
      let x = batch_item parse_address parse_uuid id actor clock q w in
      batch_all_keeps id actor clock qs (record_step x.0 r) x.1
        (batch_item_keeps id actor clock q w v)

  batch_in_keeps :
      (actor : Text) (clock : ℕ) (reqs : List InviteRequest) (r : Result Failure Text) (w : World)
      → P w.db
      → P (batch_in parse_address parse_uuid actor clock reqs r w).1.db
  unfolding batch_in
  batch_in_keeps actor clock reqs (err f) w v = v
  batch_in_keeps actor clock reqs (ok id) w v =
      batch_all_keeps id actor clock reqs (ok (record { invited = []; failed = [] })) w v

  batch_invites_keeps :
      (project actor : Text) (clock : ℕ) (reqs : List InviteRequest) (w : World)
      → P w.db
      → P (batch_invites parse_address parse_uuid project actor clock reqs w).1.db
  unfolding batch_invites
  batch_invites_keeps project actor clock reqs w v =
      if_world (is_empty (trim_space project)) _ _ v (
        if_world (is_empty (trim_space actor)) _ _ v
          (batch_in_keeps actor clock reqs (lift_error (resolve_project project w.db)) w v))

  cancel_keeps :
      (project email : Text) (w : World)
      → P w.db
      → P (cancel parse_address parse_uuid project email w).1.db
  unfolding cancel run_cancel
  cancel_keeps project email w v = if_world (is_empty (trim_space project)) _ _ v (
      if_world (usable_email parse_address (normalize_email email)) _ _
        (with_tx_keeps (λ db. db) (cancel_invite project email w.db) w v
          (on_cancel project email w.db v))
        v)

  run_member_keeps :
      (d : Deployment) (project : Text) (r : Result Failure MemberInput) (w : World)
      → Yields (IsPlan project w.db) r
      → P w.db
      → P (run_member parse_address parse_uuid d project r w).1.db
  unfolding run_member
  run_member_keeps d project (err f) w plan v = v
  run_member_keeps d project (ok input) w plan v =
      rw
        (after_member-db d project
          (with_tx (λ r. r.0) (update_member_permissions parse_uuid input w.db) w))
        (with_tx_keeps (λ r. r.0) (update_member_permissions parse_uuid input w.db) w v
          (on_member input w.db v (own-IsPlan (plan input refl))))

  update_member_keeps :
      (d : Deployment) (project member : Text) (req : MemberRequest) (w : World)
      → P w.db
      → P (update_member parse_address parse_uuid d project member req w).1.db
  unfolding update_member
  update_member_keeps d project member req w =
      run_member_keeps d project (plan_member project member req w.db) w
        (plan_member-IsPlan project member req w.db)

  run_role_keeps :
      (d : Deployment) (project path : Text) (req : RoleRequest) (r : Result Failure (Unit {0}))
      (w : World)
      → Yields (λ u. IsViewClosed req.permission_mask) r
      → P w.db
      → P (run_role d project (role_input project path req) r w).1.db
  unfolding run_role role_input
  run_role_keeps d project path req (err f) w closed v = v
  run_role_keeps d project path req (ok u) w closed v =
      let r = update_role_permissions (role_input project path req) w.db in
      rw (after_role-db d project (with_tx (λ u. u.db) r w)) (
        with_tx_keeps (λ u. u.db) r w v
          (on_role (role_input project path req) w.db (closed u refl) v))

  update_role_keeps :
      (d : Deployment) (project path actor : Text) (req : RoleRequest) (w : World)
      → P w.db
      → P (update_role d project path actor req w).1.db
  unfolding update_role
  update_role_keeps d project path actor req w =
      run_role_keeps d project path req (check_role_request project path actor req) w
        (check_role_request_closed project path actor req)

  step_keeps : (u v : World) → TeamStep parse_address parse_uuid u v → P u.db → P v.db
  step_keeps u _ (invites project actor clock req w) v = invite_keeps project actor clock req u v
  step_keeps u _ (batches project actor clock reqs w) v =
      batch_invites_keeps project actor clock reqs u v
  step_keeps u _ (cancels project email w) v = cancel_keeps project email u v
  step_keeps u _ (updates_member d project member req w) v =
      update_member_keeps d project member req u v
  step_keeps u _ (updates_role d project path actor req w) v =
      update_role_keeps d project path actor req u v
  step_keeps u _ (waits now w) v = on_wait now u.db v

  -- A property of the tables that every operation keeps holds after any run.
  pub run_keeps : (u v : World) → TeamRun parse_address parse_uuid u v → P u.db → P v.db
  run_keeps u _ (stays w) v = v
  run_keeps u z (steps _ y _ s r) v = run_keeps y z r (step_keeps u y s v)
