-- ===== src/Reconciliation/Declaring/Checks.antt =====
-- arcanium/api/src/routes/reconciliation.js, POST /desired-state: what an intent that is answered was
-- checked for.
use arcanium.Prelude.{
  ℕ, ◌≡◌, refl, inl, inr, true, false, not, ◌||◌, Option, none, some, List, [], ◌∷◌, arith, ◌==◌,
  eq_iff, Bool-cases, Option-cases, any,
}
use arcanium.Auth.Authorize.{
  Decision, allow, allow_tenant, allow_scoped, deny, authorize, is_allowed,
}
use arcanium.Auth.Scope.{tenant_scope}
use arcanium.Reconciliation.Json.{deep_equal, deep_equal_iff}
use arcanium.Reconciliation.Intent.{
  Intent, Intents, Change, is_about, find_intent, upsert_desired_state,
}
use arcanium.Reconciliation.Declaring.{
  is_key_name, provision_at, declaration_of, is_profile_of, declare_at, supplier_of, find_owned,
  declare_known, if_governed, validate_desired_value, is_outside, OwnedApp, if_permitted,
  Declaration, if_valid, created, declare_desired_state, Invalid, Caller, Written, Desk,
}

pub found_is_about :
    (c : Change) (rows : List Intent) (i : Intent)
    → find_intent c rows ≡ some i
    → is_about c i ≡ true
unfolding find_intent
found_is_about c [] i e = absurd (cc)
found_is_about c (x ∷ rows) i e = elim (Bool-cases (is_about c x)) [
  | inl h ↦ let held : some x ≡ some i = rw h at e in let same : x ≡ i = cc in rw (← same) h
  | inr h ↦ found_is_about c rows i (rw h at e)
]

-- A row that has what the change says.
abbrev pub IsStored : Change → Intent → Type 0
IsStored c i =
    (i.application_id ≡ c.application_id)
    × (i.key_name ≡ c.key_name)
    × (i.requirement ≡ c.requirement)
    × (i.desired_value ≡ c.desired_value)

pub about_parts :
    (c : Change) (i : Intent)
    → is_about c i ≡ true
    → (i.application_id ≡ c.application_id)
      × (i.key_name ≡ c.key_name)
      × (i.requirement ≡ c.requirement)
about_parts c i h =
    let key = (eq_iff i.key_name c.key_name).0 in
    let requirement = (eq_iff i.requirement c.requirement).0 in
    (ground arith, key (ground arith), requirement (ground arith))

pub upsert-IsStored : (c : Change) (t : Intents) → IsStored c (upsert_desired_state c t).0
unfolding upsert_desired_state
upsert-IsStored c t = elim (Option-cases (find_intent c t.rows)) [
  | inl e ↦ rw e (refl, refl, refl, refl)
  | inr (prior, e) ↦
      let (app, key, requirement) = about_parts c prior (found_is_about c t.rows prior e) in
      elim (Bool-cases (deep_equal prior.desired_value c.desired_value)) [
        | inl same ↦
            rw (e, same)
              (app, key, requirement, (deep_equal_iff prior.desired_value c.desired_value).0 same)
        | inr differ ↦ rw (e, differ) (app, key, requirement, refl)
      ]
]

-- An answer that only a later check gives comes from there.
if_permitted_created :
    (w : Decision) (d : Desk) (next : Written × Desk) (i : Intent)
    → (if_permitted w d next).0 ≡ created i
    → (is_allowed w ≡ true) × (next.0 ≡ created i)
if_permitted_created (allow role) d next i h = (refl, h)
if_permitted_created (allow_tenant role tenant) d next i h = (refl, h)
if_permitted_created (allow_scoped role env team) d next i h = (refl, h)
if_permitted_created (deny why) d next i h = absurd (cc)

-- The caller sees the application's supplier, and may provision at its tenant and environment.
abbrev pub IsGoverned : Caller → Option OwnedApp → Desk → Type 0
IsGoverned caller app d =
    (is_outside (tenant_scope d.suppliers caller.identity) (supplier_of app) ≡ false)
    × (is_allowed (authorize caller.identity (provision_at app d)) ≡ true)

if_governed_created :
    (caller : Caller) (app : Option OwnedApp) (d : Desk) (next : Written × Desk) (i : Intent)
    → (if_governed caller app d next).0 ≡ created i
    → IsGoverned caller app d × (next.0 ≡ created i)
if_governed_created caller app d next i =
    elim (Bool-cases (is_outside (tenant_scope d.suppliers caller.identity) (supplier_of app))) [
      | inl out ↦ rw out (λ h. absurd (cc))
      | inr inside ↦
          let permitted =
            if_permitted_created (authorize caller.identity (provision_at app d)) d next i in
          rw inside (λ h. let (may, rest) = permitted h in ((refl, may), rest))
    ]

if_valid_created :
    (v : Option Invalid) (d : Desk) (next : Written × Desk) (i : Intent)
    → (if_valid v d next).0 ≡ created i
    → (v ≡ none) × (next.0 ≡ created i)
if_valid_created none d next i h = (refl, h)
if_valid_created (some why) d next i h = absurd (cc)

created_same : (i j : Intent) → created i ≡ created j → i ≡ j
created_same i j e = cc

-- What the route has checked when it writes for an application.
abbrev pub IsDeclared : Caller → Declaration → Desk → ℕ → Intent → Type 0
IsDeclared caller body d id i =
    (app : OwnedApp) × (find_owned id d.apps ≡ some app)
    × IsGoverned caller (some app) d
    × (any (is_profile_of id body.key_name) d.profiles ≡ true)
    × IsStored (declaration_of caller body id) i

known_declared :
    (caller : Caller) (body : Declaration) (id : ℕ) (d : Desk) (i : Intent)
    → (declare_known caller body id d).0 ≡ created i
    → (any (is_profile_of id body.key_name) d.profiles ≡ true)
      × IsStored (declaration_of caller body id) i
known_declared caller body id d i =
    let stored = upsert-IsStored (declaration_of caller body id) d.intents in
    elim (Bool-cases (any (is_profile_of id body.key_name) d.profiles)) [
      | inr e ↦ rw e (λ h. absurd (cc))
      | inl e ↦ rw e (λ h. (
        refl,
        rw (← created_same (upsert_desired_state (declaration_of caller body id) d.intents).0 i h)
            stored,
      ))
    ]

at-IsDeclared :
    (caller : Caller) (body : Declaration) (id : ℕ) (found : Option OwnedApp) (d : Desk)
    (i : Intent)
    → find_owned id d.apps ≡ found
    → (declare_at caller body id found d).0 ≡ created i
    → IsDeclared caller body d id i
at-IsDeclared caller body id none d i e = λ h. absurd (cc)
at-IsDeclared caller body id (some app) d i e = λ h.
    let next = declare_known caller body id d in
    let (governed, rest) = if_governed_created caller (some app) d next i h in
    let (profile, stored) = known_declared caller body id d i rest in
    (app, e, governed, profile, stored)

-- Where POST /desired-state answers that an intent is created, the body names an application that
-- exists, whose supplier the caller's scope has and at whose tenant and environment the caller may
-- provision; a crypto profile of that application ends in the key's name, which is well formed; the
-- value is valid for the requirement; and the intent has that application, key, requirement and the
-- shaped value, also where an earlier row was updated.
pub created_after_checks :
    (caller : Caller) (body : Declaration) (d : Desk) (i : Intent)
    → (declare_desired_state caller body d).0 ≡ created i
    → (id : ℕ) × (body.application_id ≡ some id)
      × (is_key_name body.key_name ≡ true)
      × (validate_desired_value body.requirement body.desired_value ≡ none)
      × IsDeclared caller body d id i
unfolding declare_desired_state
created_after_checks caller body d i = elim (Option-cases body.application_id) [
  | inl e ↦ rw e (λ h. absurd (cc))
  | inr (id, e) ↦ elim (Bool-cases (body.key_name == "" || not (is_key_name body.key_name))) [
    | inl bad ↦ rw (e, bad) (λ h. absurd (cc))
    | inr good ↦
        rw (e, good)
          (λ h.
            let found = find_owned id d.apps in
            let next = declare_at caller body id found d in
            let v = validate_desired_value body.requirement body.desired_value in
            let (valid, rest) = if_valid_created v d next i h in
            (id, refl, ground arith, valid, at-IsDeclared caller body id found d i refl rest))
  ]
]
