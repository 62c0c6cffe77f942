-- ===== src/Tests/Remembering.antt =====
-- The history of one intent, revised once.
use arcanium.Prelude.{ℕ, ◌≡◌, refl, ◌≢◌, some, [], ◌∷◌, map, arith}
use arcanium.Reconciliation.Json.{num}
use arcanium.Reconciliation.Intent.{
  Author, Intent, Intents, Change, find_intent, next_intent, as_prior, upsert_desired_state,
  get_desired_state_history,
}
use arcanium.Reconciliation.Intent.Histories.{version_of, IsComplete}
use arcanium.Reconciliation.Intent.Memory.{upsert_remembers}

abbrev olga : Author
olga = record { by = "olga"; groups = "arcanium-operator" ∷ []; reason = some "audit" }

abbrev to_days : ℕ → Change
to_days n = record {
  application_id = 1;
  key_name = "payments";
  requirement = "rotation_period";
  desired_value = num n;
  source = "api";
  author = olga;
}

abbrev empty_tables : Intents
empty_tables = record { rows = []; history = []; next_id = 5 }

abbrev ninety : Intent
ninety = record {
  id = 5;
  application_id = 1;
  key_name = "payments";
  requirement = "rotation_period";
  desired_value = num 90;
  source = "api";
  version = 1;
  author = olga;
}

abbrev one_intent : Intents
one_intent = record { rows = ninety ∷ []; history = []; next_id = 6 }

one_intent-IsComplete : IsComplete one_intent
one_intent-IsComplete = ((omega arith, tt), tt, (tt, tt), ((0, refl, refl), tt))

upsert_remembers_example :
    let (new, t') = upsert_desired_state (to_days 30) one_intent in
    (map version_of (get_desired_state_history ninety []) ≡ 1 ∷ [])
    × (num 30 ≡ num 90 → (new ≡ ninety) × (t' ≡ one_intent))
    × (num 30 ≢ num 90
        → (new ≡ next_intent (to_days 30) ninety)
          × (get_desired_state_history new t'.history
              ≡ as_prior new ∷ get_desired_state_history ninety []))
unfolding find_intent
upsert_remembers_example =
    upsert_remembers (to_days 30) one_intent ninety one_intent-IsComplete refl
