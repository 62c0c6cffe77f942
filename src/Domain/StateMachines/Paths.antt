-- ===== src/Domain/StateMachines/Paths.antt =====
-- arcanium/api/src/domain/state-machines.js: the ways through the machines.
use arcanium.Prelude.{
  ℕ, suc, ◌+◌, ◌≤◌, String, ◌≡◌, refl, ◌≢◌, ◌↔◌, ◌⊎◌, inl, inr, Bool, true, false, not, ◌&&◌, some,
  List, [], ◌∷◌, arith, ◌==◌, eq_iff, if◌then◌else◌, all, includes, agree, all-includes,
}
use arcanium.Domain.StateMachines.{
  illegal_transition, Checked, observation_status_states, disposition_states, List, includes,
  Machine, job_states, successors, legal, assert_transition,
}

abbrev pub Legal : Machine → String → String → Type 0
Legal machine from to = assert_transition machine (some from) to ≡ legal

-- Legal writes one after another, with their number.
pub data Writes (machine : Machine) : String → String → ℕ → Type 0 where
  unwritten : {s : String} → Writes machine s s 0
  write :
      {s t u : String} {n : ℕ}
      → Legal machine s t
      → Writes machine t u n
      → Writes machine s u (suc n)

abbrev pub observation_statuses : List String
observation_statuses = "COMPLIANT" ∷ "DRIFTED" ∷ "UNKNOWN" ∷ []

abbrev pub dispositions : List String
dispositions = "OPEN" ∷ "EXCEPTION_ACCEPTED" ∷ "RECONCILED" ∷ []

-- How many writes a job's status has left.
abbrev writes_left : String → ℕ
writes_left status = if status == "pending" then 2 else if status == "running" then 1 else 0

job_edges :
    (s t : String)
    → Legal job_states s t
    → ((s ≡ "pending") × (t ≡ "running"))
      ⊎ ((s ≡ "running") × ((t ≡ "succeeded") ⊎ ((t ≡ "failed") ⊎ (t ≡ "rolled_back"))))
unfolding assert_transition successors
job_edges s t h = ground (
  arith,
  eq_iff "pending" s,
  eq_iff "running" s,
  eq_iff "running" t,
  eq_iff "succeeded" t,
  eq_iff "failed" t,
  eq_iff "rolled_back" t,
)

write_uses_one : (s t : String) → Legal job_states s t → suc (writes_left t) ≤ writes_left s
write_uses_one s t h = elim (job_edges s t h) [
  | inl (p, q) ↦ rw (p, q) (omega arith)
  | inr (p, inl q) ↦ rw (p, q) (omega arith)
  | inr (p, inr (inl q)) ↦ rw (p, q) (omega arith)
  | inr (p, inr (inr q)) ↦ rw (p, q) (omega arith)
]

Writes-le : {s t : String} {n : ℕ} → Writes job_states s t n → n + writes_left t ≤ writes_left s
Writes-le unwritten = omega arith
Writes-le (write {s} {t} l w) = omega (arith, write_uses_one s t l, Writes-le w)

writes_left_le : (s : String) → writes_left s ≤ 2
writes_left_le s = ground arith

writes_left_le_one : (s : String) → s ≢ "pending" → writes_left s ≤ 1
writes_left_le_one s h = ground (arith, eq_iff s "pending")

writes_left_zero : (s : String) → s ≢ "pending" → s ≢ "running" → writes_left s ≡ 0
writes_left_zero s h k = ground (arith, eq_iff s "pending", eq_iff s "running")

stays : {s t : String} {n : ℕ} → Writes job_states s t n → writes_left s ≡ 0 → (n ≡ 0) × (s ≡ t)
stays unwritten z = (refl, refl)
stays (write {s} {t} l w) z = absurd (omega (arith, write_uses_one s t l))

-- The status of a job is written legally at most once after `running`, at most twice in all, and
-- never again once it has been neither `pending` nor `running`.
pub job_states-Writes :
    {s t : String} {n : ℕ}
    → Writes job_states s t n
    → (n ≤ 2) × (s ≢ "pending" → n ≤ 1) × (s ≢ "pending" → s ≢ "running" → (n ≡ 0) × (s ≡ t))
job_states-Writes {s} {t} {n} w = (
  omega (arith, Writes-le w, writes_left_le s),
  λ h. omega (arith, Writes-le w, writes_left_le_one s h),
  λ h k. stays w (writes_left_zero s h k),
)

abbrev is_legal : Checked → Bool
is_legal legal = true
is_legal (illegal_transition _ _) = false

-- Both tables are checked pair by pair, by evaluation.
observation_agrees : String → String → Bool
unfolding assert_transition successors
observation_agrees s t =
    agree (is_legal (assert_transition observation_status_states (some s) t)) (not (s == t))

disposition_agrees : String → String → Bool
unfolding assert_transition successors
disposition_agrees s t =
    agree (is_legal (assert_transition disposition_states (some s) t))
      (not (s == t) && not (s == "RECONCILED" && t == "EXCEPTION_ACCEPTED"))

module _ (statuses : List String) (p : String → String → Bool) where
  table_lookup :
      (s t : String)
      → all (λ x. all (p x) statuses) statuses ≡ true
      → includes statuses s ≡ true
      → includes statuses t ≡ true
      → p s t ≡ true
  table_lookup s t h hs ht =
      all-includes (p s) statuses t (all-includes (λ x. all (p x) statuses) statuses s h hs) ht

observation_table :
    all (λ x. all (observation_agrees x) observation_statuses) observation_statuses ≡ true
unfolding observation_agrees
observation_table = refl

disposition_table : all (λ x. all (disposition_agrees x) dispositions) dispositions ≡ true
unfolding disposition_agrees
disposition_table = refl

-- Between two statuses of an observation a transition is legal exactly if they differ.
pub observation_transitions :
    (s t : String)
    → includes observation_statuses s ≡ true
    → includes observation_statuses t ≡ true
    → (assert_transition observation_status_states (some s) t ≡ legal) ↔ (s ≢ t)
observation_transitions s t hs ht =
    let table = table_lookup observation_statuses observation_agrees s t observation_table hs ht in
    unfold observation_agrees in
    (λ h. ground (arith, table, eq_iff s t), λ h. ground (arith, table, eq_iff s t))

-- Of the transitions between two different dispositions one alone is illegal: a reconciled drift
-- is not excepted before it has opened again.
pub disposition_transitions :
    (s t : String)
    → includes dispositions s ≡ true
    → includes dispositions t ≡ true
    → (assert_transition disposition_states (some s) t ≡ legal)
      ↔ ((s ≢ t) × ¬ ((s ≡ "RECONCILED") × (t ≡ "EXCEPTION_ACCEPTED")))
disposition_transitions s t hs ht =
    let table = table_lookup dispositions disposition_agrees s t disposition_table hs ht in
    unfold disposition_agrees in
    (
      λ h. (
        ground (arith, table, eq_iff s t),
        ground (arith, table, eq_iff s "RECONCILED", eq_iff t "EXCEPTION_ACCEPTED"),
      ),
      λ h. ground (arith, table, eq_iff s t, eq_iff s "RECONCILED", eq_iff t "EXCEPTION_ACCEPTED"),
    )
