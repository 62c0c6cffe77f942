-- ===== src/Approvals/Requests/Tenancy.antt =====
-- arcanium/api/src/routes/approvals.js: the tenant that POST / checks, and the application it is for.
use mathlib.Core.Path.{subst}
use arcanium.Prelude.{
  String, ◌≡◌, refl, sym, ap, ◌∙◌, true, false, Option, none, some, if◌then◌else◌, truthy,
}
use arcanium.Auth.Authorize.{
  Identity, Decision, allow, allow_tenant, allow_scoped, deny, is_allowed,
}
use arcanium.Auth.Scope.{Supplier, tenant_scope}
use arcanium.Approvals.Requests.{
  stored_actions, includes, not_found, create_for, App, Register, Response, created, find_app,
  find_supplier, Context, approval_tenant, if_allowed, outside_scope, Body, new_request, check_body,
  may_create, create,
}

abbrev pub context_named : Supplier → Context
context_named s = record {
  supplier_id = some s.id;
  vault_namespace = some s.vault_namespace;
  environment = none;
}

if_allowed-next :
    (d : Decision) (reg : Register) (next : Response × Register)
    → is_allowed d ≡ true
    → if_allowed d reg next ≡ next
if_allowed-next (deny why) reg next h = absurd (cc)
if_allowed-next (allow a) reg next h = refl
if_allowed-next (allow_tenant a b) reg next h = refl
if_allowed-next (allow_scoped a b c) reg next h = refl

create_for-next :
    (lower : String → String) (identity : Option Identity) (body : Body) (reg : Register)
    (app : String) (ctx : Context)
    → approval_tenant body.supplier_id (some app) reg ≡ ctx
    → outside_scope (tenant_scope reg.suppliers identity) ctx.supplier_id ≡ false
    → is_allowed (may_create lower identity body ctx) ≡ true
    → create_for lower (some app) identity body reg ≡ check_body app body reg
create_for-next lower identity body reg app ctx e inside may =
    let next = check_body app body reg in
    subst
      (λ c.
        (if outside_scope (tenant_scope reg.suppliers identity) c.supplier_id
          then (not_found, reg)
          else if_allowed (may_create lower identity body c) reg next)
        ≡ next)
      (sym e) (rw inside (if_allowed-next (may_create lower identity body ctx) reg next may))

approval_tenant-named :
    (supplier : String) (app : Option String) (reg : Register) (s : Supplier)
    → find_supplier supplier reg.suppliers ≡ some s
    → approval_tenant (some supplier) app reg ≡ context_named s
unfolding approval_tenant
approval_tenant-named supplier app reg s e = rw e refl

-- A request whose body names a supplier, and an action that the table takes, is created for whatever
-- application it names as well, if only the caller may act on that supplier: nothing asks whose the
-- application is.
pub create_crosses_tenants :
    (lower : String → String) (identity : Option Identity) (reg : Register)
    (key_name action requester : String) (reason : Option String) (app : String) (a : App)
    (supplier : String) (s : Supplier)
    → let body : Body = record {
      app_id = some app;
      key_name = some key_name;
      action = some action;
      requester = some requester;
      accessor = none;
      reason = reason;
      source = none;
      supplier_id = some supplier;
    } in
      (truthy (some key_name) ≡ true)
        × (truthy (some action) ≡ true)
        × (truthy (some requester) ≡ true)
      → includes stored_actions action ≡ true
      → find_app app reg.apps ≡ some a
      → find_supplier supplier reg.suppliers ≡ some s
      → outside_scope (tenant_scope reg.suppliers identity) (some s.id) ≡ false
      → is_allowed (may_create lower identity body (context_named s)) ≡ true
      → (create lower identity body reg).0 ≡ created (new_request app body reg.next_id)
unfolding create
create_crosses_tenants lower identity reg key_name action requester reason app a supplier s
      (k, l, m) stored f h inside may =
    let body : Body = record {
      app_id = some app;
      key_name = some key_name;
      action = some action;
      requester = some requester;
      accessor = none;
      reason = reason;
      source = none;
      supplier_id = some supplier;
    } in
    ap (λ x. x.0)
      (create_for-next lower identity body reg app (context_named s)
        (approval_tenant-named supplier (some app) reg s h) inside may)
    ∙ rw (k, l, m, stored, f, h) refl
