-- ===== src/Tests/Requesting.antt =====
-- The handlers of approvals on one request of each of two tenants.
use arcanium.Prelude.{String, ◌≡◌, refl, ◌≢◌, inl, true, false, none, some, [], ◌∷◌, arith}
use arcanium.Auth.Authorize.{
  Identity, authorize, decide_identity, effective_roles, estate_round, grant_round, cell,
}
use arcanium.Auth.Scope.{Supplier, tenant_scope}
use arcanium.Approvals.Execution.{replied}
use arcanium.Approvals.Requests.{
  Asked, App, Register, Oracle, created, decided, find_asked, passed, verify_approval_gate,
  decide_request, settle, approve, approval_context, resolve_approval_action, Body, new_request,
  create,
}
use arcanium.Approvals.Requests.Decisions.{HasCiso, IsVouched, approved_exact}
use arcanium.Approvals.Requests.Standing.{Lists, to_approve, to_deny, after_calls}
use arcanium.Approvals.Requests.Decided.{decisions_stand}
use arcanium.Approvals.Requests.Tenancy.{create_crosses_tenants}

abbrev carol : Identity
carol = record {
  user = "carol";
  persona = some "ciso";
  roles = "ciso" ∷ [];
  namespaces = [];
  tenant_scopes = [];
  scopes = [];
}

abbrev sam : Identity
sam = record {
  user = "sam";
  persona = some "supplier-admin";
  roles = "supplier-admin" ∷ [];
  namespaces = "acme" ∷ [];
  tenant_scopes = "acme" ∷ [];
  scopes = [];
}

abbrev destroy_request : Asked
destroy_request = record {
  id = 21;
  app_id = some "zenith-app";
  key_name = "payments";
  action = "revoke";
  status = "pending";
  requester = "olga";
  approver = none;
  reason = none;
  accessor = some "cg-1";
  supplier_id = none;
  pinned_key_version = some 3;
}

abbrev zenith_app : App
zenith_app = record { id = "zenith-app"; supplier_id = some "s2"; environment = some "prod" }

abbrev acme : Supplier
acme = record { id = "s1"; vault_namespace = "acme" }

abbrev zenith : Supplier
zenith = record { id = "s2"; vault_namespace = "zenith" }

abbrev reg : Register
reg = record {
  requests = destroy_request ∷ [];
  apps = zenith_app ∷ [];
  suppliers = acme ∷ zenith ∷ [];
  next_id = 22;
}

abbrev agreeing : Oracle
agreeing = record {
  control_group = λ accessor. record { approved = true; entity = some "approver-1" };
  live_key = λ ns key_name. replied (record { latest_version = 3; deletion_allowed = false });
}

abbrev approved_request : Asked
approved_request = record destroy_request { status = "approved"; approver = some "approver-1" }

abbrev approved_reg : Register
approved_reg = record reg { requests = approved_request ∷ [] }

carol-approves : approve agreeing 21 (some carol) reg ≡ (decided approved_request, approved_reg)
unfolding approve authorize decide_identity effective_roles estate_round grant_round
    approval_context verify_approval_gate decide_request cell
carol-approves = refl

approved_exact_example :
    HasCiso (some carol)
    × ((r : Asked) × (find_asked 21 (destroy_request ∷ []) ≡ some r)
        × (r.status ≡ "pending")
        × IsVouched agreeing r reg
        × ((approver : String) × (verify_approval_gate agreeing r reg ≡ passed approver)
            × (settle r "approved" approver r.reason reg
                ≡ (decided approved_request, approved_reg))))
approved_exact_example =
    approved_exact agreeing 21 (some carol) reg approved_reg approved_request carol-approves

approved_is_not_pending : ◌≢◌ {A = String} "approved" "pending"
approved_is_not_pending e = absurd (cc)

decisions_stand_example :
    Lists
      (after_calls
        (λ n. agreeing)
        (λ s. s)
        (to_deny 21 (some carol) none ∷ to_approve 21 (some sam) ∷ [])
        approved_reg)
      approved_request
decisions_stand_example =
    decisions_stand (λ n. agreeing) (λ s. s)
      (to_deny 21 (some carol) none ∷ to_approve 21 (some sam) ∷ []) approved_reg approved_request
      ((omega arith, tt), (tt, tt)) (inl refl) approved_is_not_pending

-- An administrator of Acme asks for a key of Zenith's application.
abbrev crossing : Body
crossing = record {
  app_id = some "zenith-app";
  key_name = some "payments";
  action = some "rotate";
  requester = some "sam";
  accessor = none;
  reason = none;
  source = none;
  supplier_id = some "s1";
}

create_crosses_tenants_example :
    (create (λ s. s) (some sam) crossing reg).0 ≡ created (new_request "zenith-app" crossing 22)
unfolding authorize decide_identity effective_roles estate_round grant_round tenant_scope
    resolve_approval_action cell
create_crosses_tenants_example =
    create_crosses_tenants (λ s. s) (some sam) reg "payments" "rotate" "sam" none "zenith-app"
      zenith_app "s1" acme (refl, refl, refl) refl refl refl refl refl
