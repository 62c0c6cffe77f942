-- ===== src/Offboarding.antt =====
-- arcanium/api/src/offboarding.js, with requestKeyDestroy of provisioner/key.js. The tables are lists,
-- approval_requests with the newest row first; `now` is the time of the statements.
pub mod Closing
pub mod Closed
use Prim.Native.String
use arcanium.Prelude.{
  ℕ, zero, suc, ◌+◌, ◌-◌, ◌*◌, ◌/◌, ◌≤◌, ◌<◌, String, ◌≡◌, refl, sym, ap, ◌∙◌, ◌≢◌, ◌↔◌, ◌⊎◌, inl,
  inr, Bool, true, false, not, ◌&&◌, ◌||◌, Option, none, some, List, [], ◌∷◌, ◌++◌, map, arith,
  ◌==◌, eq_iff, eq_refl, ltb, leb, eqb, if◌then◌else◌, Bool-cases, Option-cases, is_some,
  or_default, truthy, length, select, any, all, first?, last?, length-append, length-select-le,
  includes, AnyOf, AllOf, agree, all-includes, includes-AnyOf, AnyOf-includes, AnyOf-map,
  AnyOf-map_all, AnyOf-elim, AllOf-select, AnyOf-select, AnyOf-selected, all-AllOf, any-AnyOf,
  AllOf-iff, ◌<|>◌, first_match, first_match-AnyOf, AnyOf-first_match, first_match-result,
}
use arcanium.Reconciliation.Json.{Json, bool, get_field}
use arcanium.Reconciliation.Diff.{Observed}
use arcanium.Reconciliation.Observe.{KeyAnswer, observe_expiry_date}

pub record Member : Type 0 where
  pub id : ℕ
  pub supplier_id : Option ℕ
  pub offboarding_initiated_at : Option ℕ
  pub offboarded_at : Option ℕ

pub record Desired : Type 0 where
  pub id : ℕ
  pub application_id : ℕ
  pub key_name : String
  pub archived_at : Option ℕ

pub record Profile : Type 0 where
  pub application_id : ℕ
  pub vault_path : String

pub record DestroyRequest : Type 0 where
  pub id : ℕ
  pub app_id : ℕ
  pub key_name : String
  pub action : String
  pub requester : String
  pub supplier_id : Option ℕ
  pub pinned_key_version : Option ℕ
  pub status : String
  pub executed_at : Option ℕ

pub record Books : Type 0 where
  pub applications : List Member
  pub desired : List Desired
  pub profiles : List Profile
  -- suppliers with their vault_namespace
  pub suppliers : List (ℕ × String)
  pub requests : List DestroyRequest
  pub next_request : ℕ

-- `WHERE id = $1`
unfoldable pub find_member : ℕ → List Member → Option Member
find_member id [] = none
find_member id (a ∷ applications) = if eqb a.id id then some a else find_member id applications

unfoldable pub update_member : (Member → Member) → ℕ → List Member → List Member
update_member f id [] = []
update_member f id (a ∷ applications) =
    let rest = update_member f id applications in if eqb a.id id then f a ∷ rest else a ∷ rest

-- `COALESCE(x, now())`
abbrev pub or_now : Option ℕ → ℕ → Option ℕ
or_now none now = some now
or_now (some at) now = some at

abbrev pub mark_initiated : ℕ → Member → Member
mark_initiated now a = record a { offboarding_initiated_at = or_now a.offboarding_initiated_at now }

-- `SET offboarded_at = now() WHERE ... offboarded_at IS NULL`
abbrev pub mark_offboarded : ℕ → Member → Member
mark_offboarded now a = record a { offboarded_at = or_now a.offboarded_at now }

-- `WHERE app_id = $1 AND key_name = $2 AND action = 'revoke'`
abbrev pub is_destroy_of : ℕ → String → DestroyRequest → Bool
is_destroy_of app key_name r = eqb r.app_id app && (r.key_name == key_name && r.action == "revoke")

-- `ORDER BY created_at DESC LIMIT 1`
abbrev pub latest_destroy : ℕ → String → List DestroyRequest → Option DestroyRequest
latest_destroy app key_name requests = first? (select (is_destroy_of app key_name) requests)

abbrev pub is_settled : Option DestroyRequest → Bool
is_settled none = false
is_settled (some r) = r.status == "rejected" || (r.status == "approved" && is_some r.executed_at)

unfoldable pub is_resolved : List DestroyRequest → Desired → Bool
is_resolved requests d = is_settled (latest_destroy d.application_id d.key_name requests)

abbrev pub is_row_of : ℕ → Desired → Bool
is_row_of app d = eqb d.application_id app

abbrev pub is_archived : Desired → Bool
is_archived d = is_some d.archived_at

abbrev pub archive : ℕ → Desired → Desired
archive now d = record d { archived_at = some now }

-- The loop over the application's rows, in the table: `allResolved`, and the rows behind it.
unfoldable pub close_rows : ℕ → ℕ → List DestroyRequest → List Desired → Bool × List Desired
close_rows app now requests [] = (true, [])
close_rows app now requests (d ∷ desired) =
    let (all_resolved, rest) = close_rows app now requests desired in
    if not (is_row_of app d) || is_archived d
    then (all_resolved, d ∷ rest)
    else if is_resolved requests d
    then (all_resolved, archive now d ∷ rest)
    else (false, d ∷ rest)

abbrev pub complete : ℕ → ℕ → Books → Bool × List Desired → Books
complete app now t (all_resolved, desired) =
    let closed = record t { desired = desired } in
    if all_resolved
    then record closed { applications = update_member (mark_offboarded now) app t.applications }
    else closed

-- `!offboarding_initiated_at || offboarded_at`
abbrev pub is_idle : Member → Bool
is_idle a = not (is_some a.offboarding_initiated_at) || is_some a.offboarded_at

abbrev pub check_member : ℕ → ℕ → Books → Option Member → Option Member × Books
check_member app now t none = (none, t)
check_member app now t (some a) =
    let closed = complete app now t (close_rows app now t.requests t.desired) in
    if is_idle a then (some a, t) else (find_member app closed.applications, closed)

unfoldable pub check_offboarding_completion : ℕ → ℕ → Books → Option Member × Books
check_offboarding_completion app now t = check_member app now t (find_member app t.applications)

abbrev pub is_in_progress : Member → Bool
is_in_progress a = is_some a.offboarding_initiated_at && not (is_some a.offboarded_at)

abbrev completes : Option Member → Bool
completes none = false
completes (some a) = is_some a.offboarded_at

abbrev count_completed : Option Member → ℕ → ℕ
count_completed status n = if completes status then suc n else n

-- The loop over the applications that the query of the sweep gave.
unfoldable pub sweep_members : List Member → ℕ → Books → ℕ × Books
sweep_members [] now t = (0, t)
sweep_members (a ∷ applications) now t =
    let (status, t') = check_offboarding_completion a.id now t in
    let (completed, t'') = sweep_members applications now t' in
    (count_completed status completed, t'')

-- `{ checked, completed }`, and the tables.
unfoldable pub sweep_offboarding : ℕ → Books → ℕ × ℕ × Books
sweep_offboarding now t =
    let rows = select is_in_progress t.applications in
    let (completed, t') = sweep_members rows now t in (length rows, completed, t')

-- What the code reads in Vault: a key at its path, and the latest version of a named key, which is
-- missing where the read fails; and the test `right(path, length(key) + 1) = '/' || key`.
pub record Reads : Type 0 where
  pub get_key : Option String → String → KeyAnswer
  pub latest_version : Option String → String → Option ℕ
  pub ends_in : String → String → Bool

pub data Requested : Type 0 where
  -- the error 409
  no_owner : Requested
  requested : DestroyRequest → Books → Requested

abbrev supplier_of : Option Member → Option ℕ
supplier_of none = none
supplier_of (some a) = a.supplier_id

-- The first profile, the oldest, whose path is the key's and whose application has no supplier.
abbrev owns : Option Member → Bool
owns none = false
owns (some a) = not (is_some a.supplier_id)

unfoldable pub root_owner :
    (String → String → Bool) → String → List Member → List Profile → Option ℕ
root_owner ends_in name applications [] = none
root_owner ends_in name applications (p ∷ profiles) =
    if ends_in p.vault_path name && owns (find_member p.application_id applications)
    then some p.application_id
    else root_owner ends_in name applications profiles

module _ (reads : Reads) (today : String) (now : ℕ) where
  abbrev new_request : String → String → Option String → ℕ → Option ℕ → ℕ → DestroyRequest
  new_request name requester ns app supplier id = record {
    id = id;
    app_id = app;
    key_name = name;
    action = "revoke";
    requester = requester;
    supplier_id = supplier;
    pinned_key_version = reads.latest_version ns name;
    status = "pending";
    executed_at = none;
  }

  abbrev pub insert_request : DestroyRequest → Books → Requested
  insert_request r t =
      requested r (record t { requests = r ∷ t.requests; next_request = suc t.next_request })

  abbrev pub request_for : String → String → Option String → Option ℕ → Books → Requested
  request_for name requester ns none t = no_owner
  request_for name requester ns (some app) t =
      insert_request
        (new_request name requester ns app (supplier_of (find_member app t.applications))
          t.next_request)
        t

  -- `appId ?? null`, and the fallback to an application of the root namespace.
  abbrev pub owner_of : String → Option ℕ → Books → Option ℕ
  owner_of name (some app) t = some app
  owner_of name none t = root_owner reads.ends_in name t.applications t.profiles

  unfoldable pub request_key_destroy :
      String → String → Option ℕ → Option String → Books → Requested
  request_key_destroy name requester app ns t =
      request_for name requester ns (owner_of name app t) t

  -- `observed.value.active`
  abbrev is_active_in : Observed → Bool
  is_active_in o = elim (get_field o.value "active") [ some (bool b) ↦ b | _ ↦ false ]

  unfoldable pub key_is_active : Option String → Option String → Bool
  key_is_active path ns =
      let observed = observe_expiry_date today reads.get_key path ns in
      if not (truthy path)
      then false
      else if observed.status == "OK"
      then is_active_in observed
      else true

  -- A row that the query of the loop gives: the intent with a path of its key, if there is one.
  abbrev pub Selected : Type 0
  Selected = Desired × Option String

  abbrev paths_of : Desired → List Profile → List (Option String)
  paths_of d [] = []
  paths_of d (p ∷ profiles) =
      let rest = paths_of d profiles in
      if eqb p.application_id d.application_id && reads.ends_in p.vault_path d.key_name
      then some p.vault_path ∷ rest
      else rest

  -- `LEFT JOIN`: a row without a profile is kept once.
  abbrev or_once : List (Option String) → List (Option String)
  or_once [] = none ∷ []
  or_once (p ∷ ps) = p ∷ ps

  abbrev with_paths : Desired → List (Option String) → List Selected
  with_paths d [] = []
  with_paths d (p ∷ paths) = (d, p) ∷ with_paths d paths

  unfoldable pub select_rows : ℕ → List Profile → List Desired → List Selected
  select_rows app profiles [] = []
  select_rows app profiles (d ∷ desired) =
      let rest = select_rows app profiles desired in
      if is_row_of app d && not (is_archived d)
      then with_paths d (or_once (paths_of d profiles)) ++ rest
      else rest

  -- `UPDATE desired_state SET archived_at = now() WHERE id = $1`
  unfoldable pub archive_row : ℕ → List Desired → List Desired
  archive_row id [] = []
  archive_row id (d ∷ desired) =
      let rest = archive_row id desired in if eqb d.id id then archive now d ∷ rest else d ∷ rest

  -- The submitted requests, with the intent that each is for.
  abbrev pub submit : Desired → Requested → Books → List (ℕ × ℕ) × Books
  submit d no_owner t = ([], t)
  submit d (requested r t') t = ((d.id, r.id) ∷ [], t')

  abbrev pub offboard_row : ℕ → String → Option String → Selected → Books → List (ℕ × ℕ) × Books
  offboard_row app actor ns (d, path) t =
      if key_is_active path ns
      then submit d (request_key_destroy d.key_name actor (some app) ns t) t
      else ([], record t { desired = archive_row d.id t.desired })

  unfoldable pub offboard_rows :
      ℕ → String → Option String → List Selected → Books → List (ℕ × ℕ) × Books
  offboard_rows app actor ns [] t = ([], t)
  offboard_rows app actor ns (row ∷ rows) t =
      let (sent, t') = offboard_row app actor ns row t in
      let (more, t'') = offboard_rows app actor ns rows t' in (sent ++ more, t'')

  abbrev namespace_in : List (ℕ × String) → ℕ → Option String
  namespace_in [] id = none
  namespace_in ((supplier, ns) ∷ suppliers) id =
      if eqb supplier id then some ns else namespace_in suppliers id

  abbrev pub namespace_of : Option ℕ → List (ℕ × String) → Option String
  namespace_of none suppliers = none
  namespace_of (some id) suppliers = namespace_in suppliers id

  pub data Initiated : Type 0 where
    not_found : Initiated
    already_offboarded : Initiated
    initiated : Option Member → List (ℕ × ℕ) → Initiated

  abbrev finish_initiation : ℕ → List (ℕ × ℕ) × Books → Initiated × Books
  finish_initiation app (sent, t) =
      let (status, t') = check_offboarding_completion app now t in (initiated status sent, t')

  abbrev pub initiate_member : ℕ → String → Books → Option Member → Initiated × Books
  initiate_member app actor t none = (not_found, t)
  initiate_member app actor t (some a) =
      let ns = namespace_of a.supplier_id t.suppliers in
      let rows = select_rows app t.profiles t.desired in
      if is_some a.offboarded_at
      then (already_offboarded, t)
      else finish_initiation app (offboard_rows app actor ns rows t)

  -- `actor ?? "arcanium"`
  unfoldable pub initiate_offboarding : ℕ → Option String → Books → Initiated × Books
  initiate_offboarding app actor t =
      let begun = record t {
        applications = update_member (mark_initiated now) app t.applications;
      } in
      initiate_member app (or_default actor "arcanium") begun (find_member app begun.applications)
