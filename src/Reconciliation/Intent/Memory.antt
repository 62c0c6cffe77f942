-- ===== src/Reconciliation/Intent/Memory.antt =====
-- arcanium/api/src/reconciliation/desiredState.js: what a write adds to the history that is answered.
use mathlib.Core.Path.{subst}
use arcanium.Prelude.{
  ℕ, zero, suc, ◌≡◌, refl, sym, ap, ◌∙◌, ◌≢◌, inl, inr, true, false, some, List, [], ◌∷◌, map,
  arith, leb, eqb, Bool-cases, select, AnyOf-elim,
}
use arcanium.Reconciliation.Json.{deep_equal, deep_equal_iff}
use arcanium.Reconciliation.Intent.{
  Intent, PriorIntent, Intents, Change, find_intent, next_intent, as_prior, upsert_desired_state,
  insert_version, order_versions, is_prior_of, get_desired_state_history,
}
use arcanium.Reconciliation.Intent.Histories.{
  here-IsRecorded, version_of, down_from, IsComplete, IsRecorded, find_intent-held,
}

insert_version-first :
    (p : PriorIntent) (ps : List PriorIntent) (m : ℕ)
    → p.version ≡ suc m
    → map version_of ps ≡ down_from m
    → insert_version p ps ≡ p ∷ ps
unfolding insert_version
insert_version-first p [] m v e = refl
insert_version-first p (q ∷ qs) zero v e = absurd (cc)
insert_version-first p (q ∷ qs) (suc k) v e =
    let head : q.version ≡ suc k = cc in
    let first : leb q.version p.version ≡ true = ground (arith, head, v) in rw first refl

order_versions-down :
    (ps : List PriorIntent) (n : ℕ) → map version_of ps ≡ down_from n → order_versions ps ≡ ps
unfolding order_versions
order_versions-down [] n e = refl
order_versions-down (p ∷ ps) zero e = absurd (cc)
order_versions-down (p ∷ ps) (suc n) e =
    let head : p.version ≡ suc n = cc in
    let rest : map version_of ps ≡ down_from n = cc in
    rw (order_versions-down ps n rest) (insert_version-first p ps n head rest)

history_stored :
    (history : List PriorIntent) (i : Intent)
    → IsRecorded history i
    → get_desired_state_history i history ≡ as_prior i ∷ select (is_prior_of i.id) history
unfolding get_desired_state_history
history_stored history i (n, v, e) =
    ap (λ x. as_prior i ∷ x) (order_versions-down (select (is_prior_of i.id) history) n e)

history_versions :
    (history : List PriorIntent) (i : Intent)
    → IsRecorded history i
    → map version_of (get_desired_state_history i history) ≡ down_from i.version
history_versions history i (n, v, e) = rw (history_stored history i (n, v, e), e, v) refl

history_revised :
    (c : Change) (history : List PriorIntent) (prior : Intent)
    → IsRecorded history prior
    → get_desired_state_history (next_intent c prior) (as_prior prior ∷ history)
      ≡ as_prior (next_intent c prior) ∷ get_desired_state_history prior history
history_revised c history prior mine =
    let new = next_intent c prior in
    let hit : eqb prior.id prior.id ≡ true = ground arith in
    let listed : select (is_prior_of prior.id) (as_prior prior ∷ history)
        ≡ as_prior prior ∷ select (is_prior_of prior.id) history =
      rw hit refl in
    history_stored (as_prior prior ∷ history) new (here-IsRecorded c prior history prior refl mine)
    ∙ ap (λ x. as_prior new ∷ x) (listed ∙ sym (history_stored history prior mine))

-- In complete tables the history that is answered for an intent has every version from its own down to
-- 1, each once. A write of the value that stands changes nothing; a write of another value answers the
-- next version with that value, and its history is the one before with the new version in front.
pub upsert_remembers :
    (c : Change) (t : Intents) (prior : Intent)
    → IsComplete t
    → find_intent c t.rows ≡ some prior
    → let (new, t') = upsert_desired_state c t in
      (map version_of (get_desired_state_history prior t.history) ≡ down_from prior.version)
      × (c.desired_value ≡ prior.desired_value → (new ≡ prior) × (t' ≡ t))
      × (c.desired_value ≢ prior.desired_value
          → (new ≡ next_intent c prior)
            × (get_desired_state_history new t'.history
                ≡ as_prior new ∷ get_desired_state_history prior t.history))
unfolding upsert_desired_state
upsert_remembers c t prior (_, _, _, recorded) found =
    let mine : IsRecorded t.history prior =
      AnyOf-elim (λ x. x ≡ prior) (IsRecorded t.history) (IsRecorded t.history prior)
        (λ x r q. subst (IsRecorded t.history) q r) t.rows recorded
        (find_intent-held c t.rows prior found) in
    let same = deep_equal_iff prior.desired_value c.desired_value in
    (
      history_versions t.history prior mine,
      λ e. rw (found, same.1 (sym e)) (refl, refl),
      λ n.
          let differ : deep_equal prior.desired_value c.desired_value ≡ false =
            elim (Bool-cases (deep_equal prior.desired_value c.desired_value)) [
              | inl e ↦ absurd (n (sym (same.0 e)))
              | inr e ↦ e
            ] in
          rw (found, differ) (refl, history_revised c t.history prior mine),
    )
