-- ===== src/Approvals/Requests/Standing.antt =====
-- arcanium/api/src/routes/approvals.js: over any sequence of the handlers, a decision stands.
use arcanium.Prelude.{
  ℕ, suc, String, ◌≡◌, refl, inl, inr, Bool, true, false, not, Option, none, some, List, [], ◌∷◌,
  ◌==◌, eq_iff, eqb, if◌then◌else◌, Bool-cases, is_some, truthy, length, AnyOf,
}
use arcanium.Auth.Authorize.{Identity, Decision, allow, allow_tenant, allow_scoped, deny}
use arcanium.Auth.Scope.{tenant_scope}
use arcanium.Approvals.Requests.{
  or_default, includes, may_create, accessor_context, approver_label, approval_tenant, find_app,
  Asked, Register, Oracle, Response, Gate, passed, stopped, Body, find_asked, find_accessor,
  is_accessor, decide_request, settle, may_approve, if_allowed, if_pending, approve, approve_found,
  approve_gated, authorize_accessor, authorize_found, authorize_gated, deny_request, deny_found,
  create, create_for, check_body, insert_request, stored_actions, stored_sources, has_accessor,
  knows_supplier, new_request, outside_scope, context_of, verify_approval_gate,
}

abbrev pub Lists : Register → Asked → Type 0
Lists reg r = AnyOf (λ x. x ≡ r) reg.requests

-- What a handler may do to the tables: nothing, decide a pending request, or add one.
pub data Moves (reg : Register) : Register → Type 0 where
  unmoved : Moves reg reg
  decides :
      (r : Asked) (status : String) (approver reason : Option String)
      → Lists reg r
      → r.status ≡ "pending"
      → Moves reg
          (record reg { requests = decide_request r.id status approver reason reg.requests })
  adds :
      (r : Asked)
      → r.id ≡ reg.next_id
      → Moves reg (record reg { requests = r ∷ reg.requests; next_id = suc reg.next_id })

some_same : (a b : Asked) → some a ≡ some b → a ≡ b
some_same a b e = cc

find_asked-listed :
    (id : ℕ) (rows : List Asked) (r : Asked) → find_asked id rows ≡ some r → AnyOf (λ x. x ≡ r) rows
find_asked-listed id [] r e = absurd (cc)
find_asked-listed id (x ∷ rows) r e = elim (Bool-cases (eqb x.id id)) [
  | inl h ↦ inl (some_same x r (rw h at e))
  | inr h ↦ inr (find_asked-listed id rows r (rw h at e))
]

find_accessor-listed :
    (accessor : String) (rows : List Asked) (r : Asked)
    → find_accessor accessor rows ≡ some r
    → AnyOf (λ x. x ≡ r) rows
find_accessor-listed accessor [] r e = absurd (cc)
find_accessor-listed accessor (x ∷ rows) r e = elim (Bool-cases (is_accessor accessor x.accessor)) [
  | inl h ↦ inl (some_same x r (rw h at e))
  | inr h ↦ inr (find_accessor-listed accessor rows r (rw h at e))
]

if_allowed-Moves :
    (d : Decision) (reg : Register) (next : Response × Register)
    → Moves reg next.1
    → Moves reg (if_allowed d reg next).1
if_allowed-Moves (deny why) reg next m = unmoved
if_allowed-Moves (allow a) reg next m = m
if_allowed-Moves (allow_tenant a b) reg next m = m
if_allowed-Moves (allow_scoped a b c) reg next m = m

if_pending-Moves :
    (r : Asked) (reg : Register) (next : Response × Register)
    → (r.status ≡ "pending" → Moves reg next.1)
    → Moves reg (if_pending r reg next).1
if_pending-Moves r reg next m = elim (Bool-cases (r.status == "pending")) [
  | inl e ↦ rw e (m ((eq_iff r.status "pending").0 e))
  | inr e ↦ rw e unmoved
]

pub approve-Moves :
    (oracle : Oracle) (id : ℕ) (identity : Option Identity) (reg : Register)
    → Moves reg (approve oracle id identity reg).1
unfolding approve
approve-Moves oracle id identity reg =
    let found = find_asked id reg.requests in
    if_allowed-Moves (may_approve identity (context_of found reg)) reg
      (approve_found oracle found reg)
      (found-Moves found (λ r e. find_asked-listed id reg.requests r e))
  where
    gated-Moves :
        (r : Asked) (gate : Gate)
        → Lists reg r
        → r.status ≡ "pending"
        → Moves reg (approve_gated oracle r gate reg).1
    gated-Moves r (stopped why) l p = unmoved
    gated-Moves r (passed approver) l p = decides r "approved" (some approver) r.reason l p

    found-Moves :
        (found : Option Asked)
        → ((r : Asked) → found ≡ some r → Lists reg r)
        → Moves reg (approve_found oracle found reg).1
    found-Moves none l = unmoved
    found-Moves (some r) l =
        if_pending-Moves r reg (approve_gated oracle r (verify_approval_gate oracle r reg) reg)
          (λ p. gated-Moves r (verify_approval_gate oracle r reg) (l r refl) p)

pub deny_request-Moves :
    (id : ℕ) (identity : Option Identity) (reason : Option String) (reg : Register)
    → Moves reg (deny_request id identity reason reg).1
unfolding deny_request
deny_request-Moves id identity reason reg =
    let found = find_asked id reg.requests in
    if_allowed-Moves (may_approve identity (context_of found reg)) reg (deny_found found reason reg)
      (found-Moves found (λ r e. find_asked-listed id reg.requests r e))
  where
    found-Moves :
        (found : Option Asked)
        → ((r : Asked) → found ≡ some r → Lists reg r)
        → Moves reg (deny_found found reason reg).1
    found-Moves none l = unmoved
    found-Moves (some r) l =
        if_pending-Moves r reg (settle r "rejected" "arcanium-api" reason reg)
          (λ p. decides r "rejected" (some "arcanium-api") reason (l r refl) p)

pub authorize_accessor-Moves :
    (oracle : Oracle) (accessor : String) (identity : Option Identity) (source : Option String)
    (reg : Register)
    → Moves reg (authorize_accessor oracle accessor identity source reg).1
unfolding authorize_accessor
authorize_accessor-Moves oracle accessor identity source reg =
    let found = find_accessor accessor reg.requests in
    found-Moves found (λ r e. find_accessor-listed accessor reg.requests r e)
  where
    gated-Moves :
        (r : Asked) (gate : Gate)
        → Lists reg r
        → r.status ≡ "pending"
        → Moves reg (authorize_gated oracle r source gate reg).1
    gated-Moves r (stopped why) l p = unmoved
    gated-Moves r (passed approver) l p =
        decides r "approved" (some (approver_label oracle approver source)) r.reason l p

    found-Moves :
        (found : Option Asked)
        → ((r : Asked) → found ≡ some r → Lists reg r)
        → Moves reg (authorize_found oracle found identity source reg).1
    found-Moves none l = unmoved
    found-Moves (some r) l =
        let gate = verify_approval_gate oracle r reg in
        elim (Bool-cases (outside_scope (tenant_scope reg.suppliers identity) r.supplier_id)) [
          | inl e ↦ rw e unmoved
          | inr e ↦ rw e (
              if_allowed-Moves (may_approve identity (accessor_context r reg)) reg
                (if_pending r reg (authorize_gated oracle r source gate reg))
                (if_pending-Moves r reg (authorize_gated oracle r source gate reg)
                  (λ p. gated-Moves r gate (l r refl) p)))
        ]

if-Moves :
    (b : Bool) (reg : Register) (x y : Response × Register)
    → Moves reg x.1
    → Moves reg y.1
    → Moves reg (if b then x else y).1
if-Moves true reg x y m n = m
if-Moves false reg x y m n = n

insert_request-Moves :
    (app : String) (body : Body) (reg : Register) → Moves reg (insert_request app body reg).1
insert_request-Moves app body reg =
    let row = new_request app body reg.next_id in
    if-Moves (not (includes stored_actions row.action)) reg _ _ unmoved (
      if-Moves (not (includes stored_sources (or_default body.source "external"))) reg _ _ unmoved (
        if-Moves (has_accessor body.accessor reg.requests) reg _ _ unmoved (
          if-Moves (not (is_some (find_app app reg.apps))) reg _ _ unmoved (
            if-Moves (not (knows_supplier body.supplier_id reg.suppliers)) reg _ _ unmoved
              (adds row refl)))))

check_body-Moves :
    (app : String) (body : Body) (reg : Register) → Moves reg (check_body app body reg).1
check_body-Moves app body reg = if-Moves (not (truthy body.key_name)) reg _ _ unmoved (
    if-Moves (not (truthy body.action)) reg _ _ unmoved
      (if-Moves (not (truthy body.requester)) reg _ _ unmoved (insert_request-Moves app body reg)))

pub create-Moves :
    (lower : String → String) (identity : Option Identity) (body : Body) (reg : Register)
    → Moves reg (create lower identity body reg).1
unfolding create
create-Moves lower identity body reg = for-Moves body.app_id
  where
    for-Moves : (app : Option String) → Moves reg (create_for lower app identity body reg).1
    for-Moves none = unmoved
    for-Moves (some app) =
        let ctx = approval_tenant body.supplier_id (some app) reg in
        if-Moves (outside_scope (tenant_scope reg.suppliers identity) ctx.supplier_id) reg _ _
          unmoved
          (if_allowed-Moves (may_create lower identity body ctx) reg (check_body app body reg)
            (check_body-Moves app body reg))

-- A call of one of the handlers.
pub data Call : Type 0 where
  to_create : Option Identity → Body → Call
  to_approve : ℕ → Option Identity → Call
  to_authorize : String → Option Identity → Option String → Call
  to_deny : ℕ → Option Identity → Option String → Call

module _ (oracle : ℕ → Oracle) (lower : String → String) where
  -- The tables after the calls, in order; Vault may answer each of them anew.
  unfoldable pub after_calls : List Call → Register → Register
  after_calls [] reg = reg
  after_calls (to_create identity body ∷ calls) reg =
      after_calls calls (create lower identity body reg).1
  after_calls (to_approve id identity ∷ calls) reg =
      after_calls calls (approve (oracle (length calls)) id identity reg).1
  after_calls (to_authorize accessor identity source ∷ calls) reg =
      after_calls calls (authorize_accessor (oracle (length calls)) accessor identity source reg).1
  after_calls (to_deny id identity reason ∷ calls) reg =
      after_calls calls (deny_request id identity reason reg).1
