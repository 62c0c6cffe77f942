-- ===== src/Reconciliation/Declaring/Kept.antt =====
-- arcanium/api/src/routes/reconciliation.js, PATCH and POST /desired-state: what every answer keeps of
-- the tables.
use mathlib.Core.Path.{subst}
use arcanium.Prelude.{
  ℕ, String, ◌≡◌, refl, sym, ap, ◌∙◌, ◌≢◌, inl, inr, true, false, not, ◌||◌, Option, none, some,
  List, [], ◌∷◌, arith, ◌==◌, eqb, Bool-cases, Option-cases, any, AnyOf, AllOf, AnyOf-elim,
}
use arcanium.Auth.Authorize.{Decision, allow, allow_tenant, allow_scoped, deny, authorize}
use arcanium.Auth.Scope.{tenant_scope}
use arcanium.Reconciliation.Json.{deep_equal}
use arcanium.Reconciliation.Intent.{
  Intent, Intents, Change, find_intent, update_intent, next_intent, revise_intent,
  upsert_desired_state, get_desired_state,
}
use arcanium.Reconciliation.Intent.Histories.{
  IsComplete, HasDistinctIds, HasOtherId, find_intent-held, upsert-IsComplete,
}
use arcanium.Reconciliation.Declaring.{
  is_key_name, is_profile_of, provision_at, updated, declare_known, declaration_of, store,
  supplier_of, declare_at, is_outside, edit_of, find_owned, edit_found, declare_for,
  validate_desired_value, if_governed, if_valid, OwnedApp, Invalid, Edit, if_permitted, Declaration,
  Caller, declare_desired_state, Written, edit_desired_state, Desk,
}
use arcanium.Reconciliation.Declaring.Checks.{found_is_about, about_parts}
use arcanium.Reconciliation.Declaring.Sound.{IsJudged, IsMeasurable-IsJudged, valid-IsMeasurable}

-- An update of one row, where the ids are distinct.
module _ (c : Change) (prior : Intent) where
  update_others :
      (rows : List Intent) → AllOf (HasOtherId prior.id) rows → update_intent c prior.id rows ≡ rows
  unfolding update_intent
  update_others [] h = refl
  update_others (i ∷ rows) (h, hs) =
      let other : eqb i.id prior.id ≡ false = ground (arith, h) in
      rw (other, update_others rows hs) refl

  update_held :
      (P : Intent → Type 0) (rows : List Intent)
      → P (next_intent c prior)
      → AnyOf (λ i. i ≡ prior) rows
      → HasDistinctIds rows
      → AllOf P rows
      → AllOf P (update_intent c prior.id rows)
  unfolding update_intent
  update_held P [] new m d h = absurd m
  update_held P (i ∷ rows) new (inl same) (d, ds) (h, hs) =
      let mine : eqb i.id prior.id ≡ true = ground (arith, ap (λ x. x.id) same) in
      let others = subst (λ x. AllOf (HasOtherId x.id) rows) same d in
      let stays : AllOf P (update_intent c prior.id rows) =
        subst (λ rs. AllOf P rs) (sym (update_others rows others)) hs in
      rw mine (subst (λ x. P (next_intent c x)) (sym same) new, stays)
  update_held P (i ∷ rows) new (inr m) (d, ds) (h, hs) =
      let apart : prior.id ≢ i.id =
        AnyOf-elim (λ x. x ≡ prior) (HasOtherId i.id) (prior.id ≢ i.id)
          (λ x o q r. o (ap (λ y. y.id) q ∙ r)) rows d m in
      let other : eqb i.id prior.id ≡ false = ground (arith, apart) in
      rw other (h, update_held P rows new m ds hs)

abbrev HasJudged : (String → Option ℕ) → ℕ → Intent → Type 0
HasJudged parse_date now i = IsJudged parse_date now i.requirement i.desired_value

-- The histories are complete, and each intent can be judged.
abbrev pub IsSound : (String → Option ℕ) → ℕ → Intents → Type 0
IsSound parse_date now t = IsComplete t × AllOf (HasJudged parse_date now) t.rows

abbrev pub HasSound : (String → Option ℕ) → ℕ → Desk → Type 0
HasSound parse_date now d = IsSound parse_date now d.intents

-- The checks change nothing.
module _ (P : Desk → Type 0) (d : Desk) (here : P d) (next : Written × Desk) where
  if_permitted-keeps : (w : Decision) → P next.1 → P (if_permitted w d next).1
  if_permitted-keeps (allow role) h = h
  if_permitted-keeps (allow_tenant role tenant) h = h
  if_permitted-keeps (allow_scoped role env team) h = h
  if_permitted-keeps (deny why) h = here

  if_governed-keeps :
      (caller : Caller) (app : Option OwnedApp) → P next.1 → P (if_governed caller app d next).1
  if_governed-keeps caller app h =
      elim (Bool-cases (is_outside (tenant_scope d.suppliers caller.identity) (supplier_of app))) [
        | inl e ↦ rw e here
        | inr e ↦ rw e (if_permitted-keeps (authorize caller.identity (provision_at app d)) h)
      ]

  if_valid-keeps : (v : Option Invalid) → (v ≡ none → P next.1) → P (if_valid v d next).1
  if_valid-keeps none h = h refl
  if_valid-keeps (some why) h = here

module _ (parse_date : String → Option ℕ) (now : ℕ) where
  revise_intent-judged :
      (c : Change) (prior : Intent) (t : Intents)
      → IsJudged parse_date now c.requirement c.desired_value
      → prior.requirement ≡ c.requirement
      → AnyOf (λ i. i ≡ prior) t.rows
      → HasDistinctIds t.rows
      → AllOf (HasJudged parse_date now) t.rows
      → AllOf (HasJudged parse_date now) (revise_intent c prior t).1.rows
  revise_intent-judged c prior t new same m d h =
      let fits : HasJudged parse_date now (next_intent c prior) =
        subst (λ r. IsJudged parse_date now r c.desired_value) (sym same) new in
      elim (Bool-cases (deep_equal prior.desired_value c.desired_value)) [
        | inl e ↦ rw e h
        | inr e ↦ rw e (update_held c prior (HasJudged parse_date now) t.rows fits m d h)
      ]

  upsert-IsSound :
      (c : Change) (t : Intents)
      → IsJudged parse_date now c.requirement c.desired_value
      → IsSound parse_date now t
      → IsSound parse_date now (upsert_desired_state c t).1
  unfolding upsert_desired_state
  upsert-IsSound c t new (complete, judged) =
      let (ids, priors, distinct, recorded) = complete in
      let rows : AllOf (HasJudged parse_date now) (upsert_desired_state c t).1.rows =
        elim (Option-cases (find_intent c t.rows)) [
          | inl e ↦ rw e (new, judged)
          | inr (prior, e) ↦
              let (app, key, same) = about_parts c prior (found_is_about c t.rows prior e) in
              let held = find_intent-held c t.rows prior e in
              rw e (revise_intent-judged c prior t new same held distinct judged)
        ] in
      (upsert-IsComplete c t complete, rows)

  edit_found_sound :
      (caller : Caller) (body : Edit) (found : Option Intent) (d : Desk)
      → HasSound parse_date now d
      → HasSound parse_date now (edit_found caller body found d).1
  edit_found_sound caller body none d h = h
  edit_found_sound caller body (some i) d h =
      let c = edit_of caller body i in
      let v = validate_desired_value i.requirement body.desired_value in
      let next = store updated c d in
      let judged = λ (e : v ≡ none).
        upsert-IsSound c d.intents
          (IsMeasurable-IsJudged parse_date now i.requirement c.desired_value
            (valid-IsMeasurable i.requirement body.desired_value e))
          h in
      if_governed-keeps (HasSound parse_date now) d h (if_valid v d next) caller
        (find_owned i.application_id d.apps)
        (if_valid-keeps (HasSound parse_date now) d h next v judged)

  edit_sound :
      (caller : Caller) (id : Option ℕ) (body : Edit) (d : Desk)
      → HasSound parse_date now d
      → HasSound parse_date now (edit_desired_state caller id body d).1
  unfolding edit_desired_state
  edit_sound caller none body d h = h
  edit_sound caller (some id) body d h =
      edit_found_sound caller body (get_desired_state id d.intents.rows) d h

module _ (parse_date : String → Option ℕ) (now : ℕ) where
  declare_at_sound :
      (caller : Caller) (body : Declaration) (id : ℕ) (found : Option OwnedApp) (d : Desk)
      → validate_desired_value body.requirement body.desired_value ≡ none
      → HasSound parse_date now d
      → HasSound parse_date now (declare_at caller body id found d).1
  declare_at_sound caller body id none d e h = h
  declare_at_sound caller body id (some app) d e h =
      let c = declaration_of caller body id in
      let judged =
        IsMeasurable-IsJudged parse_date now body.requirement c.desired_value
          (valid-IsMeasurable body.requirement body.desired_value e) in
      let known : HasSound parse_date now (declare_known caller body id d).1 =
        elim (Bool-cases (any (is_profile_of id body.key_name) d.profiles)) [
          | inl p ↦ rw p (upsert-IsSound parse_date now c d.intents judged h)
          | inr p ↦ rw p h
        ] in
      if_governed-keeps (HasSound parse_date now) d h (declare_known caller body id d) caller
        (some app) known

  declare_for_sound :
      (caller : Caller) (body : Declaration) (id : Option ℕ) (d : Desk)
      → HasSound parse_date now d
      → HasSound parse_date now (declare_for caller body id d).1
  declare_for_sound caller body none d h = h
  declare_for_sound caller body (some id) d h =
      let found = find_owned id d.apps in
      let v = validate_desired_value body.requirement body.desired_value in
      elim (Bool-cases (body.key_name == "" || not (is_key_name body.key_name))) [
        | inl bad ↦ rw bad h
        | inr good ↦ rw good (
            if_valid-keeps (HasSound parse_date now) d h (declare_at caller body id found d) v
              (λ e. declare_at_sound caller body id found d e h))
      ]

  -- Where the histories are complete and the comparator of each intent's requirement answers UNKNOWN
  -- for it exactly where the observation is unknown, both stay so whatever is sent to PATCH and to POST
  -- /desired-state and whatever they answer.
  pub routes_keep_judged :
      (caller : Caller) (d : Desk) (id : Option ℕ) (edit : Edit) (body : Declaration)
      → HasSound parse_date now d
      → HasSound parse_date now (edit_desired_state caller id edit d).1
        × HasSound parse_date now (declare_desired_state caller body d).1
  unfolding declare_desired_state
  routes_keep_judged caller d id edit body h = (
    edit_sound parse_date now caller id edit d h,
    declare_for_sound caller body body.application_id d h,
  )
