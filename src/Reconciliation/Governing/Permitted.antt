-- ===== src/Reconciliation/Governing/Permitted.antt =====
-- arcanium/api/src/routes/reconciliation.js: when the two governed actions reach the engine.
use mathlib.Core.Path.{subst}
use arcanium.Prelude.{
  ℕ, String, ◌≡◌, refl, sym, ap, ◌↔◌, ◌⊎◌, inl, inr, Bool, true, false, Option, none, some, List,
  [], ◌∷◌, arith, Bool-cases, includes, AnyOf, includes-AnyOf, AnyOf-includes,
}
use arcanium.Auth.Authorize.{
  actions, no_matching_rule, decide_identity, effective_roles, estate_round, cell, Identity,
  Decision, allow, allow_tenant, allow_scoped, deny, authorize, is_allowed,
}
use arcanium.Auth.Authorize.Permits.{Permits, authorize_iff}
use arcanium.Auth.Authorize.Duties.{HoldsCiso, approve_needs_ciso}
use arcanium.Auth.Scope.{tenant_scope}
use arcanium.Reconciliation.Engine.{Row, ActionRow, Db, Outside}
use arcanium.Reconciliation.Engine.Actions.{
  Answer, answered, Reconciled, reconcile_run, accept_exception,
}
use arcanium.Reconciliation.Declaring.{Caller, user_of, is_outside}
use arcanium.Reconciliation.Governing.{
  refused_by, all_intents, run_route, run_tenant, accept_route, reconcile_route, if_owned, act_at,
  passed, if_allowed, Estate,
}

-- The two checks of an intent's tenant, as the code makes them.
abbrev IsAdmitted : Caller → String → Row → Estate → Type 0
IsAdmitted caller action row e =
    (is_outside (tenant_scope e.suppliers caller.identity) row.supplier_id ≡ false)
    × (is_allowed (authorize caller.identity (act_at action row e)) ≡ true)

-- A caller with no scope of suppliers, or with one that has the supplier of the intent.
abbrev pub SeesSupplier : Option (List String) → Option String → Type 0
SeesSupplier scope supplier =
    (scope ≡ none)
    ⊎ ((ids : List String) × (id : String) × (scope ≡ some ids)
        × (supplier ≡ some id)
        × AnyOf (λ x. x ≡ id) ids)

-- The caller has an identity and sees the supplier of that intent, and a role of the identity or a
-- grant permits the action at the intent's tenant and environment.
abbrev pub IsPermitted : Caller → String → Row → Estate → Type 0
IsPermitted caller action row e =
    (who : Identity) × (caller.identity ≡ some who)
    × SeesSupplier (tenant_scope e.suppliers caller.identity) row.supplier_id
    × Permits who (act_at action row e)

sees_iff :
    (scope : Option (List String)) (supplier : Option String)
    → (is_outside scope supplier ≡ false) ↔ SeesSupplier scope supplier
sees_iff none supplier = (λ _. inl refl, λ _. refl)
sees_iff (some ids) none =
    (λ h. absurd (cc), λ h. elim h [ inl e ↦ absurd (cc) | inr (xs, id, e, f, m) ↦ absurd (cc) ])
sees_iff (some ids) (some id) = (
  λ h.
      let listed_there : includes ids id ≡ true = ground arith in
      inr (ids, id, refl, refl, includes-AnyOf ids id listed_there),
  λ h. elim h [
    | inl e ↦ absurd (cc)
    | inr (xs, x, e, f, m) ↦
        let same : ids ≡ xs = cc in
        let own : id ≡ x = cc in
        let there : includes xs x ≡ true = AnyOf-includes xs x m in
        let here : includes ids id ≡ true = rw (same, own) there in rw here refl
  ],
)

same_identity : (a b : Identity) → some a ≡ some b → a ≡ b
same_identity a b e = cc

IsAdmitted-iff :
    (identity : Option Identity) (groups : List String) (action : String) (row : Row) (e : Estate)
    → includes actions action ≡ true
    → IsAdmitted (record { identity = identity; groups = groups }) action row e
      ↔ IsPermitted (record { identity = identity; groups = groups }) action row e
unfolding authorize
IsAdmitted-iff none groups action row e known =
    (λ (inside, may). absurd (ground arith), λ (who, nobody, seen, permits). absurd (cc))
IsAdmitted-iff (some who) groups action row e known =
    let sees = sees_iff (tenant_scope e.suppliers (some who)) row.supplier_id in
    let may = authorize_iff who (act_at action row e) in
    (
      λ (inside, allowed). (who, refl, sees.0 inside, (may.0 allowed).1),
      λ (other, same, seen, permits). (
        sees.1 seen,
        may.1 (
          known,
          subst (λ x. Permits x (act_at action row e)) (sym (same_identity who other same)) permits,
        ),
      ),
    )

passed_same : {A : Type 0} → (x y : Answer A) → passed x ≡ passed y → x ≡ y
passed_same x y e = cc

pub if_allowed_iff :
    {A : Type 0}
    → (w : Decision) (next : Answer A) (x : A)
    → (if_allowed w next ≡ passed (answered x)) ↔ ((is_allowed w ≡ true) × (next ≡ answered x))
if_allowed_iff (allow role) next x =
    (λ h. (refl, passed_same next (answered x) h), λ (a, h). ap passed h)
if_allowed_iff (allow_tenant role tenant) next x =
    (λ h. (refl, passed_same next (answered x) h), λ (a, h). ap passed h)
if_allowed_iff (allow_scoped role env team) next x =
    (λ h. (refl, passed_same next (answered x) h), λ (a, h). ap passed h)
if_allowed_iff (deny why) next x = (λ h. absurd (cc), λ (a, h). absurd (cc))

if_owned_row :
    {A : Type 0}
    → (caller : Caller) (action : String) (row : Row) (e : Estate) (next : Answer A) (x : A)
    → (if_owned caller action (some row) e next ≡ passed (answered x))
      ↔ (IsAdmitted caller action row e × (next ≡ answered x))
if_owned_row caller action row e next x =
    let gate = if_allowed_iff (authorize caller.identity (act_at action row e)) next x in
    elim (Bool-cases (is_outside (tenant_scope e.suppliers caller.identity) row.supplier_id)) [
      | inl out ↦ rw out (λ h. absurd (cc), λ ((a, b), c). absurd (cc))
      | inr inside ↦
          rw inside
            (λ h. let (may, rest) = gate.0 h in ((refl, may), rest), λ ((a, b), c). gate.1 (b, c))
    ]

pub some_row_same : (a b : Row) → some a ≡ some b → a ≡ b
some_row_same a b e = cc

pub if_owned_iff :
    {A : Type 0}
    → (caller : Caller) (action : String) (found : Option Row) (e : Estate) (next : Answer A)
      (x : A)
    → (if_owned caller action found e next ≡ passed (answered x))
      ↔ (((row : Row) × (found ≡ some row) × IsAdmitted caller action row e) × (next ≡ answered x))
if_owned_iff caller action none e next x = (λ h. absurd (cc), λ ((row, f, p), h). absurd (cc))
if_owned_iff caller action (some row) e next x =
    let here = if_owned_row caller action row e next x in
    (
      λ h. let (p, rest) = here.0 h in ((row, refl, p), rest),
      λ ((row', f, p), h).
          here.1 (subst (λ r. IsAdmitted caller action r e) (sym (some_row_same row row' f)) p, h),
    )

-- The found intent is admitted exactly if it is permitted.
found_iff :
    (caller : Caller) (action : String) (found : Option Row) (e : Estate)
    → includes actions action ≡ true
    → ((row : Row) × (found ≡ some row) × IsAdmitted caller action row e)
      ↔ ((row : Row) × (found ≡ some row) × IsPermitted caller action row e)
found_iff caller action found e known = (
  λ (row, f, p). (row, f, (IsAdmitted-iff caller.identity caller.groups action row e known).0 p),
  λ (row, f, p). (row, f, (IsAdmitted-iff caller.identity caller.groups action row e known).1 p),
)

-- Where an approval is permitted, the caller holds the role ciso.
permitted_ciso :
    (caller : Caller) (row : Row) (e : Estate)
    → IsAdmitted caller "approve" row e
    → IsPermitted caller "approve" row e
    → (who : Identity) × (caller.identity ≡ some who) × HoldsCiso who
permitted_ciso caller row e (inside, allowed) (who, same, seen, permits) =
    let req = act_at "approve" row e in
    (
      who,
      same,
      approve_needs_ciso who req refl
          (subst (λ x. is_allowed (authorize x req) ≡ true) same allowed),
    )

-- A reconciliation is answered exactly where the run's intent exists, the caller has an identity, sees
-- the intent's supplier and has a role or a grant that permits to reconcile at its tenant and
-- environment, and the engine answers so. An exception is accepted exactly where the body fits the
-- schema, the caller sees the supplier and has a role or a grant that permits to approve there, and the
-- engine accepts it; and then the caller holds the role ciso, estate-wide or by a grant.
pub governed_exact :
    {W : Type 0}
    → (parse_date : String → Option ℕ) (outside : Outside W)
      (fits_schema : Option String → Option ℕ → Bool) (caller : Caller) (run_id : ℕ)
      (reason : Option String) (expires_at : Option ℕ) (e : Estate) (w : W) (now : ℕ) (db : Db)
      (done : Reconciled W) (noted : ActionRow × Db)
    → ((reconcile_route parse_date outside caller (some run_id) e w now db ≡ passed (answered done))
        ↔ (((row : Row) × (run_tenant run_id e db ≡ some row)
              × IsPermitted caller "reconcile" row e)
            × (reconcile_run parse_date outside run_id e.rows (user_of caller.identity) now db w
                ≡ answered done)))
      × ((accept_route fits_schema caller (some run_id) reason expires_at e now db
            ≡ passed (answered noted))
          ↔ ((fits_schema reason expires_at ≡ true)
              × ((row : Row) × (run_tenant run_id e db ≡ some row)
                  × IsPermitted caller "approve" row e)
              × (accept_exception run_id (user_of caller.identity) reason expires_at now db
                  ≡ answered noted)))
      × (accept_route fits_schema caller (some run_id) reason expires_at e now db
            ≡ passed (answered noted)
          → (who : Identity) × (caller.identity ≡ some who) × HoldsCiso who)
unfolding reconcile_route accept_route
governed_exact parse_date outside fits_schema caller run_id reason expires_at e w now db done
      noted =
    let tenant = run_tenant run_id e db in
    let user = user_of caller.identity in
    let acts = reconcile_run parse_date outside run_id e.rows user now db w in
    let accepts = accept_exception run_id user reason expires_at now db in
    let act = if_owned_iff caller "reconcile" tenant e acts done in
    let accept = if_owned_iff caller "approve" tenant e accepts noted in
    let may_act = found_iff caller "reconcile" tenant e refl in
    let may_accept = found_iff caller "approve" tenant e refl in
    (
      (λ h. let (p, rest) = act.0 h in (may_act.0 p, rest), λ (p, rest). act.1 (may_act.1 p, rest)),
      elim (Bool-cases (fits_schema reason expires_at)) [
        | inl fits ↦ rw fits (
          λ h. let (p, rest) = accept.0 h in (refl, may_accept.0 p, rest),
          λ (f, p, rest). accept.1 (may_accept.1 p, rest),
        )
        | inr bad ↦ rw bad (λ h. absurd (cc), λ (f, p, rest). absurd (cc))
      ],
      elim (Bool-cases (fits_schema reason expires_at)) [
        | inl fits ↦ rw fits (λ h.
            let ((row, f, p), rest) = accept.0 h in
            permitted_ciso caller row e p
              ((IsAdmitted-iff caller.identity caller.groups "approve" row e refl).0 p))
        | inr bad ↦ rw bad (λ h. absurd (cc))
      ],
    )

-- Whoever has the role supplier-admin and nothing else is always refused a sweep of all intents, since
-- the role reads within a tenant and this request names none: the sweep narrowed to the tenants of such
-- a caller is never run.
pub whole_sweep_refused :
    {W : Type 0}
    → (parse_date : String → Option ℕ) (outside : Outside W) (who : Identity) (groups : List String)
      (e : Estate) (w : W) (now : ℕ) (db : Db)
    → who.roles ≡ "supplier-admin" ∷ []
    → who.scopes ≡ []
    → run_route parse_date outside
        (record { identity = some who; groups = groups })
        all_intents
        e
        w
        now
        db
      ≡ refused_by (deny (no_matching_rule ("supplier-admin" ∷ [])))
unfolding run_route authorize decide_identity effective_roles estate_round cell
whole_sweep_refused parse_date outside who groups e w now db r s = rw (r, s) refl
