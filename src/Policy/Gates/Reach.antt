-- ===== src/Policy/Gates/Reach.antt =====
-- What is known of a request when a gate passes it on, said as: a change of the next handler
-- outside the requests of which that is known does not show before the gate.
use projectbook_backend.Base.{
  ◌≡◌, ◌≢◌, refl, ◌∙◌, Bool-cases, not, ◌&&◌, Option, none, some, [], Result, ok, err, inl, inr,
  arith,
}
use projectbook_backend.Text.{Text, is_empty, trim_space}
use projectbook_backend.Text.Laws.{is_empty_iff}
use projectbook_backend.Policy.Http.{
  AuthContext, Request, with_context, Headers, Handler, Policy, AuthResult, called, refused, Mode,
  RouteMode, GuardOutcome, Resolution, ResolveError, Services,
}
use projectbook_backend.Policy.Gates.{
  request_project_id, principal_of, on_auth_result, auth_required_policy, project_required_with,
  project_required_policy, on_resolution, apply_resolution, on_guard, for_principal, route_mode,
  on_path_project, is_same_project, resolve_permissions_with, resolve_permissions_policy,
}

module _ {W : Type 0} where
  -- Two handlers agree on the requests of which Q is known.
  abbrev pub Agree : (Request → Type 0) → Handler W → Handler W → Type 0
  Agree Q h h' = (r : Request) (hs : Headers) (w : W) → Q r → h r hs w ≡ h' r hs w

module _ {W : Type 0} (s : Services W) where
  open s use {validate, resolve}

  -- The guard accepted this request, whatever principal it had, for this user.
  pub record IsAuthenticated (r : Request) (a : AuthContext) : Type 0 where
    pub mode : RouteMode
    pub before : Option AuthContext
    pub result : AuthResult
    pub accepted : validate mode (record r { principal = before }) ≡ called (some result)
    pub user : result.user_id ≡ a.user_id
    pub not_blank : trim_space a.user_id ≢ []

  IsAuthenticated-with_context :
      (r : Request) (a b : AuthContext)
      → a.user_id ≡ b.user_id
      → IsAuthenticated r a
      → IsAuthenticated (with_context b r) b
  IsAuthenticated-with_context r a b e known = record {
    mode = known.mode;
    before = known.before;
    result = known.result;
    accepted = known.accepted;
    user = known.user ∙ e;
    not_blank = rw (← e) known.not_blank;
  }

  -- From the project in the path to the project of a principal, by the resolver's answers.
  pub data Leads (user path : Text) : Text → Type 0 where
    from_path : Leads user path path
    resolved :
        {project : Text} (a : AuthContext) (res : Resolution) (w w' : W)
        → Leads user path project
        → resolve user (trim_space project) w ≡ (ok res, w')
        → Leads user path (apply_resolution a (trim_space project) res).project_id

  -- The mask is the one that the resolver gave for the user and the project of the path.
  pub record IsResolved (path : Text) (a : AuthContext) : Type 0 where
    pub project : Text
    pub res : Resolution
    pub w : W
    pub w' : W
    pub leads : Leads a.user_id path project
    pub answer : resolve a.user_id (trim_space project) w ≡ (ok res, w')
    pub mask : a.permission_mask ≡ res.mask

  abbrev pub Authenticated : Request → Type 0
  Authenticated r = (a : AuthContext) × (r.principal ≡ some a) × IsAuthenticated r a

  abbrev pub Scoped : Request → Type 0
  Scoped r =
      (a : AuthContext) × (r.principal ≡ some a)
      × IsAuthenticated r a
      × ((path : Text) × (request_project_id r ≡ some path) × Leads a.user_id path a.project_id)

  abbrev pub Resolved : Request → Type 0
  Resolved r =
      (a : AuthContext) × (r.principal ≡ some a)
      × IsAuthenticated r a
      × ((path : Text) × (request_project_id r ≡ some path)
          × Leads a.user_id path a.project_id
          × IsResolved path a)

  module _ (next next' : Handler W) where
    auth_result_reach :
        (m : RouteMode) (o : Option AuthResult) (r : Request) (hs : Headers) (w : W)
        → validate m r ≡ called o
        → Agree Authenticated next next'
        → on_auth_result s o next r hs w ≡ on_auth_result s o next' r hs w
    unfolding on_auth_result
    auth_result_reach m none r hs w e agree = refl
    auth_result_reach m (some a) r hs w e agree =
        elim (Bool-cases (is_empty (trim_space a.user_id))) [
          | inl blank ↦ rw blank refl
          | inr user ↦ rw user (
              agree _ hs w (
                principal_of a,
                refl,
                record {
                  mode = m;
                  before = r.principal;
                  result = a;
                  accepted = e;
                  user = refl;
                  not_blank = ground (arith, is_empty_iff (trim_space a.user_id));
                },
              ))
        ]

    guard_reach :
        (m : RouteMode) (o : GuardOutcome) (r : Request) (hs : Headers) (w : W)
        → validate m r ≡ o
        → Agree Authenticated next next'
        → on_guard s o next r hs w ≡ on_guard s o next' r hs w
    unfolding on_guard
    guard_reach m (called o) r hs w e agree = auth_result_reach m o r hs w e agree
    guard_reach m (refused status) r hs w e agree = refl

    -- AuthRequired passes on only requests of a user that the guard accepted.
    pub auth_reach :
        (Q : Request → Type 0) (mode : Mode)
        → Agree Authenticated next next'
        → Agree Q (auth_required_policy s mode next) (auth_required_policy s mode next')
    unfolding auth_required_policy
    auth_reach Q mode agree r hs w q =
        guard_reach (route_mode mode) (validate (route_mode mode) r) r hs w refl agree

    for_principal_reach :
        (f : AuthContext → Policy W) (o : Option AuthContext) (a : AuthContext) (r : Request)
        (hs : Headers) (w : W)
        → o ≡ some a
        → f a next r hs w ≡ f a next' r hs w
        → for_principal s f o next r hs w ≡ for_principal s f o next' r hs w
    unfolding for_principal
    for_principal_reach f none a r hs w e h = cc
    for_principal_reach f (some b) a r hs w e h = let q : b ≡ a = cc in rw q h

    path_reach :
        (a : AuthContext) (o : Option Text) (r : Request) (hs : Headers) (w : W)
        → request_project_id r ≡ o
        → IsAuthenticated r a
        → Agree Scoped next next'
        → on_path_project s a o next r hs w ≡ on_path_project s a o next' r hs w
    unfolding on_path_project request_project_id
    path_reach a none r hs w e known agree = refl
    path_reach a (some p) r hs w e known agree =
        elim (Bool-cases (
          not (is_empty (trim_space a.project_id))
          && not (is_same_project (trim_space a.project_id) p))) [
            | inl mismatch ↦ rw mismatch refl
            | inr same ↦ rw same (
                agree _ hs w (
                  record a { project_id = p },
                  refl,
                  IsAuthenticated-with_context r a _ refl known,
                  (p, e, from_path),
                ))
          ]

    -- ProjectRequired passes on a request with the project of its path.
    pub project_reach :
        Agree Scoped next next'
        → Agree Authenticated (project_required_policy s next) (project_required_policy s next')
    unfolding project_required_policy project_required_with
    project_reach agree r hs w (a, here, known) =
        for_principal_reach (project_required_with s) r.principal a r hs w here
          (elim (Bool-cases (is_empty (trim_space a.user_id))) [
            | inl blank ↦ rw blank refl
            | inr user ↦ rw user (path_reach a (request_project_id r) r hs w refl known agree)
          ])

    resolution_reach :
        (a : AuthContext) (path : Text) (res : Result ResolveError Resolution) (w w' : W)
        (r : Request) (hs : Headers)
        → resolve a.user_id (trim_space a.project_id) w ≡ (res, w')
        → request_project_id r ≡ some path
        → Leads a.user_id path a.project_id
        → IsAuthenticated r a
        → Agree Resolved next next'
        → on_resolution s a (trim_space a.project_id) res next r hs w'
          ≡ on_resolution s a (trim_space a.project_id) res next' r hs w'
    unfolding on_resolution request_project_id apply_resolution
    resolution_reach a path (err e) w w' r hs answer project leads known agree = refl
    resolution_reach a path (ok res) w w' r hs answer project leads known agree = agree _ hs w' (
      apply_resolution a (trim_space a.project_id) res,
      refl,
      IsAuthenticated-with_context r a _ refl known,
      (
        path,
        project,
        resolved a res w w' leads answer,
        record {
          project = a.project_id;
          res = res;
          w = w;
          w' = w';
          leads = leads;
          answer = answer;
          mask = refl;
        },
      ),
    )

    -- ResolvePermissions passes on a request with the mask that the resolver gave for the user and
    -- the project of the path.
    pub resolve_reach :
        Agree Resolved next next'
        → Agree Scoped (resolve_permissions_policy s next) (resolve_permissions_policy s next')
    unfolding resolve_permissions_policy resolve_permissions_with
    resolve_reach agree r hs w (a, here, known, (path, project, leads)) =
        for_principal_reach (resolve_permissions_with s) r.principal a r hs w here
          (elim (Bool-cases (is_empty (trim_space a.user_id))) [
            | inl blank ↦ rw blank refl
            | inr user ↦ elim (Bool-cases (is_empty (trim_space a.project_id))) [
              | inl blank ↦ rw (user, blank) refl
              | inr scope ↦
                  rw (user, scope)
                    (resolution_reach a path (resolve a.user_id (trim_space a.project_id) w).0 w
                      (resolve a.user_id (trim_space a.project_id) w).1 r hs refl project leads
                      known agree)
            ]
          ])
