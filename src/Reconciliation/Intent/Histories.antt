-- ===== src/Reconciliation/Intent/Histories.antt =====
-- arcanium/api/src/reconciliation/desiredState.js: the history of an intent is complete.
use arcanium.Prelude.{
  ℕ, zero, suc, ◌<◌, ◌≡◌, refl, sym, ap, ◌∙◌, ◌≢◌, inl, inr, true, false, some, List, [], ◌∷◌, map,
  arith, eqb, Bool-cases, Option-cases, select, AnyOf, AllOf, AnyOf-elim,
}
use arcanium.Reconciliation.Json.{deep_equal}
use arcanium.Reconciliation.Intent.{
  Intent, PriorIntent, Intents, Change, is_about, find_intent, next_intent, as_prior, update_intent,
  insert_intent, revise_intent, upsert_desired_state, is_prior_of,
}

abbrev pub version_of : PriorIntent → ℕ
version_of p = p.version

-- The versions from a number down to 1.
abbrev pub down_from : ℕ → List ℕ
down_from zero = []
down_from (suc n) = suc n ∷ down_from n

-- An intent's prior values stand under the versions below its own, each once, the newest first.
abbrev pub IsRecorded : List PriorIntent → Intent → Type 0
IsRecorded history i =
    (n : ℕ) × (i.version ≡ suc n)
    × (map version_of (select (is_prior_of i.id) history) ≡ down_from n)

abbrev pub HasOtherId : ℕ → Intent → Type 0
HasOtherId id i = i.id ≢ id

abbrev pub HasDistinctIds : List Intent → Type 0
HasDistinctIds [] = Unit
HasDistinctIds (i ∷ rows) = AllOf (HasOtherId i.id) rows × HasDistinctIds rows

-- Well-formed tables: the ids in use are below the next one, and the history of each intent is complete.
abbrev pub IsComplete : Intents → Type 0
IsComplete t =
    AllOf (λ i. i.id < t.next_id) t.rows
    × AllOf (λ p. p.desired_state_id < t.next_id) t.history
    × HasDistinctIds t.rows
    × AllOf (IsRecorded t.history) t.rows

AllOf-weaken {ℓ} :
    {A : Type ℓ} (P Q : A → Type 0) (xs : List A) → ((x : A) → P x → Q x) → AllOf P xs → AllOf Q xs
AllOf-weaken P Q [] f h = tt
AllOf-weaken P Q (x ∷ xs) f (h, hs) = (f x h, AllOf-weaken P Q xs f hs)

no_priors :
    (id : ℕ) (history : List PriorIntent)
    → AllOf (λ p. p.desired_state_id < id) history
    → select (is_prior_of id) history ≡ []
no_priors id [] h = refl
no_priors id (p ∷ history) (h, hs) =
    let other : is_prior_of id p ≡ false = ground (arith, h) in rw other (no_priors id history hs)

down_from-suc : (n : ℕ) → suc n ∷ down_from n ≡ down_from (suc n)
down_from-suc n = refl

some_same : (a b : Intent) → some a ≡ some b → a ≡ b
some_same a b e = cc

-- The rows that an update leaves.
module _ (c : Change) (prior : Intent) (history : List PriorIntent) where
  kept-IsRecorded :
      (rows : List Intent)
      → AllOf (HasOtherId prior.id) rows
      → AllOf (IsRecorded history) rows
      → AllOf (IsRecorded (as_prior prior ∷ history)) (update_intent c prior.id rows)
  unfolding update_intent
  kept-IsRecorded [] o h = tt
  kept-IsRecorded (i ∷ rows) (o, os) ((n, v, e), hs) =
      let other : eqb i.id prior.id ≡ false = ground (arith, o) in
      let miss : eqb prior.id i.id ≡ false = ground (arith, o) in
      rw other ((n, v, rw miss e), kept-IsRecorded rows os hs)

  pub here-IsRecorded :
      (i : Intent)
      → i ≡ prior
      → IsRecorded history i
      → IsRecorded (as_prior prior ∷ history) (next_intent c i)
  here-IsRecorded i same (n, v, e) =
      let hit : eqb prior.id i.id ≡ true = ground (arith, ap (λ x. x.id) same) in
      let version : prior.version ≡ suc n = ap (λ x. x.version) (sym same) ∙ v in
      (suc n, ap suc v, rw (hit, e, version) (down_from-suc n))

  revised-IsRecorded :
      (rows : List Intent)
      → AnyOf (λ i. i ≡ prior) rows
      → HasDistinctIds rows
      → AllOf (IsRecorded history) rows
      → AllOf (IsRecorded (as_prior prior ∷ history)) (update_intent c prior.id rows)
  unfolding update_intent
  revised-IsRecorded [] m d h = absurd m
  revised-IsRecorded (i ∷ rows) (inl same) (d, ds) (h, hs) =
      let mine : eqb i.id prior.id ≡ true = ground (arith, ap (λ x. x.id) same) in
      rw mine (
        here-IsRecorded i same h,
        kept-IsRecorded rows
            (AllOf-weaken (HasOtherId i.id) (HasOtherId prior.id) rows
              (λ x o e. o (e ∙ ap (λ y. y.id) (sym same))) d)
            hs,
      )
  revised-IsRecorded (i ∷ rows) (inr m) (d, ds) ((n, v, e), hs) =
      let apart : prior.id ≢ i.id =
        AnyOf-elim (λ x. x ≡ prior) (HasOtherId i.id) (prior.id ≢ i.id)
          (λ x o q r. o (ap (λ y. y.id) q ∙ r)) rows d m in
      let other : eqb i.id prior.id ≡ false = ground (arith, apart) in
      let miss : eqb prior.id i.id ≡ false = ground (arith, apart) in
      rw other ((n, v, rw miss e), revised-IsRecorded rows m ds hs)

module _ (c : Change) (id : ℕ) (P : Intent → Type 0)
    (keep : (i : Intent) → P i → P (next_intent c i)) where
  AllOf-update_intent : (rows : List Intent) → AllOf P rows → AllOf P (update_intent c id rows)
  unfolding update_intent
  AllOf-update_intent [] h = tt
  AllOf-update_intent (i ∷ rows) (h, hs) = elim (Bool-cases (eqb i.id id)) [
    | inl e ↦ rw e (keep i h, AllOf-update_intent rows hs)
    | inr e ↦ rw e (h, AllOf-update_intent rows hs)
  ]

update_intent-HasDistinctIds :
    (c : Change) (id : ℕ) (rows : List Intent)
    → HasDistinctIds rows
    → HasDistinctIds (update_intent c id rows)
unfolding update_intent
update_intent-HasDistinctIds c id [] d = tt
update_intent-HasDistinctIds c id (i ∷ rows) (d, ds) =
    let rest = update_intent-HasDistinctIds c id rows ds in
    let others = AllOf-update_intent c id (HasOtherId i.id) (λ x o. o) rows d in
    elim (Bool-cases (eqb i.id id)) [ inl e ↦ rw e (others, rest) | inr e ↦ rw e (others, rest) ]

pub find_intent-held :
    (c : Change) (rows : List Intent) (i : Intent)
    → find_intent c rows ≡ some i
    → AnyOf (λ x. x ≡ i) rows
unfolding find_intent
find_intent-held c [] i e = absurd (cc)
find_intent-held c (x ∷ rows) i e = elim (Bool-cases (is_about c x)) [
  | inl h ↦ inl (some_same x i (rw h at e))
  | inr h ↦ inr (find_intent-held c rows i (rw h at e))
]

insert_intent-IsComplete :
    (c : Change) (t : Intents) → IsComplete t → IsComplete (insert_intent c t).1
insert_intent-IsComplete c t (ids, priors, distinct, recorded) = (
  (omega arith, AllOf-weaken _ _ t.rows (λ i h. omega (arith, h)) ids),
  AllOf-weaken _ _ t.history (λ p h. omega (arith, h)) priors,
  (AllOf-weaken _ _ t.rows (λ i h e. absurd (omega (arith, h, e))) ids, distinct),
  ((0, refl, rw (no_priors t.next_id t.history priors) refl), recorded),
)

revise_intent-IsComplete :
    (c : Change) (prior : Intent) (t : Intents)
    → AnyOf (λ x. x ≡ prior) t.rows
    → IsComplete t
    → IsComplete (revise_intent c prior t).1
revise_intent-IsComplete c prior t m (ids, priors, distinct, recorded) =
    let below : prior.id < t.next_id =
      AnyOf-elim (λ x. x ≡ prior) (λ i. i.id < t.next_id) (prior.id < t.next_id)
        (λ x h q. omega (arith, h, ap (λ y. y.id) q)) t.rows ids m in
    elim (Bool-cases (deep_equal prior.desired_value c.desired_value)) [
      | inl e ↦ rw e (ids, priors, distinct, recorded)
      | inr e ↦ rw e (
        AllOf-update_intent c prior.id (λ i. i.id < t.next_id) (λ i h. h) t.rows ids,
        (below, priors),
        update_intent-HasDistinctIds c prior.id t.rows distinct,
        revised-IsRecorded c prior t.history t.rows m distinct recorded,
      )
    ]

-- Every write keeps the tables complete: whatever the change, each intent's prior values stand under
-- the versions from the one below its own down to 1, each once and the newest first.
pub upsert-IsComplete :
    (c : Change) (t : Intents) → IsComplete t → IsComplete (upsert_desired_state c t).1
unfolding upsert_desired_state
upsert-IsComplete c t h = elim (Option-cases (find_intent c t.rows)) [
  | inl e ↦ rw e (insert_intent-IsComplete c t h)
  | inr (prior, e) ↦ rw e (revise_intent-IsComplete c prior t (find_intent-held c t.rows prior e) h)
]
