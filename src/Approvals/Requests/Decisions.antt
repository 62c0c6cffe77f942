-- ===== src/Approvals/Requests/Decisions.antt =====
-- arcanium/api/src/routes/approvals.js: what an approval has gone through.
use arcanium.Prelude.{
  ℕ, String, ◌≡◌, refl, sym, ap, ◌∙◌, ◌≢◌, inl, inr, true, Option, none, some, arith, ◌==◌, eq_iff,
  Bool-cases, Option-cases, or_default,
}
use arcanium.Auth.Authorize.{
  Identity, Decision, allow, allow_tenant, allow_scoped, deny, authorize, is_allowed,
}
use arcanium.Auth.Authorize.Duties.{HoldsCiso, approve_needs_ciso}
use arcanium.Approvals.Execution.{KeyMeta, Reply, replied}
use arcanium.Approvals.Requests.{
  not_found, group_not_authorized, Asked, Register, Oracle, Response, decided, find_asked, Context,
  Gate, passed, stopped, live_matches, is_destroy, verify_approval_gate, pin_gate, destroy_gate,
  accessor_gate, owner_namespace, settle, may_approve, if_allowed, if_pending, approve,
  approve_found, approve_gated, context_of,
}

abbrev pub HasCiso : Option Identity → Type 0
HasCiso none = ⊥
HasCiso (some identity) = HoldsCiso identity

pub may_approve-HasCiso :
    (identity : Option Identity) (ctx : Context)
    → is_allowed (may_approve identity ctx) ≡ true
    → HasCiso identity
unfolding authorize
may_approve-HasCiso none ctx h = absurd (cc)
may_approve-HasCiso (some identity) ctx h = approve_needs_ciso identity _ refl h

-- Vault has authorized the request's control group, if it names one, and the key of a destruction is
-- gone, or at the version that was pinned, if one was.
abbrev pub IsVouched : Oracle → Asked → Register → Type 0
IsVouched oracle r reg =
    ((accessor : String)
      → r.accessor ≡ some accessor
      → accessor ≢ ""
      → (oracle.control_group accessor).approved ≡ true)
    × (is_destroy r ≡ true
        → (live : KeyMeta)
        → oracle.live_key (owner_namespace r.app_id reg) r.key_name ≡ replied live
        → live_matches r.pinned_key_version live ≡ true)

abbrev IsPinned : Oracle → Asked → Register → Type 0
IsPinned oracle r reg =
    is_destroy r ≡ true
    → (live : KeyMeta) → oracle.live_key (owner_namespace r.app_id reg) r.key_name ≡ replied live
    → live_matches r.pinned_key_version live ≡ true

pin_gate-passed :
    (r : Asked) (approver a : String) (reply : Reply KeyMeta) (live : KeyMeta)
    → pin_gate r approver reply ≡ passed a
    → reply ≡ replied live
    → live_matches r.pinned_key_version live ≡ true
pin_gate-passed r approver a reply live h e =
    elim (Bool-cases (live_matches r.pinned_key_version live)) [
      | inl m ↦ m
      | inr m ↦ absurd (ground (arith, h, e, m))
    ]

destroy_gate-passed :
    (oracle : Oracle) (r : Asked) (approver a : String) (reg : Register)
    → destroy_gate oracle r approver reg ≡ passed a
    → IsPinned oracle r reg
destroy_gate-passed oracle r approver a reg h d live e =
    pin_gate-passed r approver a (oracle.live_key (owner_namespace r.app_id reg) r.key_name) live
      (rw d at h) e

one_accessor : (named accessor : String) → some accessor ≡ some named → accessor ≡ named
one_accessor named accessor e = cc

gate_apart : (a : String) → ¬ (stopped group_not_authorized ≡ passed a)
gate_apart a e = absurd (cc)

accessor_gate-passed :
    (oracle : Oracle) (r : Asked) (a : String) (reg : Register) (accessor : Option String)
    → accessor_gate oracle r accessor reg ≡ passed a
    → ((named : String)
        → accessor ≡ some named
        → named ≢ ""
        → (oracle.control_group named).approved ≡ true)
      × IsPinned oracle r reg
accessor_gate-passed oracle r a reg none h =
    (λ named e n. absurd (cc), destroy_gate-passed oracle r "arcanium-api" a reg h)
accessor_gate-passed oracle r a reg (some accessor) h = elim (Bool-cases (accessor == "")) [
  | inl e ↦ (
    λ named q n. absurd (n (sym (one_accessor named accessor q) ∙ (eq_iff accessor "").0 e)),
    destroy_gate-passed oracle r "arcanium-api" a reg (rw e at h),
  )
  | inr e ↦ elim (Bool-cases (oracle.control_group accessor).approved) [
    | inl ok ↦ (
      λ named q n.
          ap (λ x. (oracle.control_group x).approved) (sym (one_accessor named accessor q)) ∙ ok,
      destroy_gate-passed oracle r
          (or_default (oracle.control_group accessor).entity "arcanium-api") a reg
          (rw (e, ok) at h),
    )
    | inr bad ↦ absurd (gate_apart a (rw (e, bad) at h))
  ]
]

pub if_allowed-decided :
    (d : Decision) (reg reg' : Register) (r' : Asked) (next : Response × Register)
    → if_allowed d reg next ≡ (decided r', reg')
    → (is_allowed d ≡ true) × (next ≡ (decided r', reg'))
if_allowed-decided (deny why) reg reg' r' next h = absurd (cc)
if_allowed-decided (allow a) reg reg' r' next h = (refl, h)
if_allowed-decided (allow_tenant a b) reg reg' r' next h = (refl, h)
if_allowed-decided (allow_scoped a b c) reg reg' r' next h = (refl, h)

if_pending-decided :
    (r : Asked) (reg reg' : Register) (r' : Asked) (next : Response × Register)
    → if_pending r reg next ≡ (decided r', reg')
    → (r.status ≡ "pending") × (if_pending r reg next ≡ next) × (next ≡ (decided r', reg'))
if_pending-decided r reg reg' r' next h = elim (Bool-cases (r.status == "pending")) [
  | inl e ↦ ((eq_iff r.status "pending").0 e, rw e refl, rw e at h)
  | inr e ↦ absurd (ground (arith, h, e))
]

unfound :
    {reg reg' : Register} {r' : Asked}
    → ¬ (◌≡◌ {A = Response × Register} (not_found, reg) (decided r', reg'))
unfound e = absurd (cc)

gated-passed :
    (oracle : Oracle) (r : Asked) (gate : Gate) (reg reg' : Register) (r' : Asked)
    → approve_gated oracle r gate reg ≡ (decided r', reg')
    → (approver : String) × (gate ≡ passed approver)
      × (settle r "approved" approver r.reason reg ≡ (decided r', reg'))
gated-passed oracle r (stopped why) reg reg' r' h = absurd (cc)
gated-passed oracle r (passed approver) reg reg' r' h = (approver, refl, h)

-- An approval through POST /:id/approve is answered only to a caller that holds the role ciso, for a
-- request that was pending and that Vault vouches for: its control group, if it names one, has been
-- authorized, and the key of a destruction is gone or at the pinned version, if one was pinned. The
-- request is then approved, by the approver that the gate has named.
pub approved_exact :
    (oracle : Oracle) (id : ℕ) (identity : Option Identity) (reg reg' : Register) (r' : Asked)
    → approve oracle id identity reg ≡ (decided r', reg')
    → HasCiso identity
      × ((r : Asked) × (find_asked id reg.requests ≡ some r)
          × (r.status ≡ "pending")
          × IsVouched oracle r reg
          × ((approver : String) × (verify_approval_gate oracle r reg ≡ passed approver)
              × (settle r "approved" approver r.reason reg ≡ (decided r', reg'))))
unfolding approve verify_approval_gate
approved_exact oracle id identity reg reg' r' h =
    let found = find_asked id reg.requests in
    let ctx = context_of found reg in
    let (may, next) =
      if_allowed-decided (may_approve identity ctx) reg reg' r' (approve_found oracle found reg)
        h in
    elim (Option-cases found) [
      | inl e ↦ absurd (unfound (rw e at next))
      | inr (r, e) ↦
          let gated = approve_gated oracle r (verify_approval_gate oracle r reg) reg in
          let (pending, _, rest) = if_pending-decided r reg reg' r' gated (rw e at next) in
          let (approver, ok, done) =
            gated-passed oracle r (verify_approval_gate oracle r reg) reg reg' r' rest in
          (
            may_approve-HasCiso identity ctx may,
            (
              r,
              e,
              pending,
              accessor_gate-passed oracle r approver reg r.accessor ok,
              (approver, ok, done),
            ),
          )
    ]
