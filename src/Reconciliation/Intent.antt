-- ===== src/Reconciliation/Intent.antt =====
-- arcanium/api/src/reconciliation/desiredState.js: the one write path of desired_state, and the history
-- of each intent. A transaction is a function of the two tables; new rows stand first.
pub mod Histories
pub mod Memory
use arcanium.Prelude.{
  ℕ, zero, suc, ◌+◌, ◌-◌, ◌*◌, ◌/◌, ◌≤◌, ◌<◌, String, ◌≡◌, refl, sym, ap, ◌∙◌, ◌≢◌, ◌↔◌, ◌⊎◌, inl,
  inr, Bool, true, false, not, ◌&&◌, ◌||◌, Option, none, some, List, [], ◌∷◌, ◌++◌, map, arith,
  ◌==◌, eq_iff, eq_refl, ltb, leb, eqb, if◌then◌else◌, Bool-cases, Option-cases, is_some,
  or_default, truthy, length, select, any, all, first?, last?, length-append, length-select-le,
  includes, AnyOf, AllOf, agree, all-includes, includes-AnyOf, AnyOf-includes, AnyOf-map,
  AnyOf-map_all, AnyOf-elim, ◌<|>◌, first_match, first_match-AnyOf, AnyOf-first_match,
  first_match-result,
}
use arcanium.Reconciliation.Json.{Json, deep_equal}

-- Who changed an intent, with which groups, and why.
pub record Author : Type 0 where
  pub by : String
  pub groups : List String
  pub reason : Option String

-- A row of desired_state.
pub record Intent : Type 0 where
  pub id : ℕ
  pub application_id : ℕ
  pub key_name : String
  pub requirement : String
  pub desired_value : Json
  pub source : String
  pub version : ℕ
  pub author : Author

-- A row of desired_state_history.
pub record PriorIntent : Type 0 where
  pub desired_state_id : ℕ
  pub version : ℕ
  pub desired_value : Json
  pub author : Author

pub record Intents : Type 0 where
  pub rows : List Intent
  pub history : List PriorIntent
  pub next_id : ℕ

-- The arguments of `upsertDesiredState`.
pub record Change : Type 0 where
  pub application_id : ℕ
  pub key_name : String
  pub requirement : String
  pub desired_value : Json
  pub source : String
  pub author : Author

abbrev pub is_about : Change → Intent → Bool
is_about c i =
    eqb i.application_id c.application_id
    && (i.key_name == c.key_name && i.requirement == c.requirement)

unfoldable pub find_intent : Change → List Intent → Option Intent
find_intent c [] = none
find_intent c (i ∷ rows) = if is_about c i then some i else find_intent c rows

abbrev pub first_intent : Change → ℕ → Intent
first_intent c id = record {
  id = id;
  application_id = c.application_id;
  key_name = c.key_name;
  requirement = c.requirement;
  desired_value = c.desired_value;
  source = c.source;
  version = 1;
  author = c.author;
}

abbrev pub next_intent : Change → Intent → Intent
next_intent c prior = record prior {
  desired_value = c.desired_value;
  version = suc prior.version;
  author = c.author;
}

abbrev pub as_prior : Intent → PriorIntent
as_prior i = record {
  desired_state_id = i.id;
  version = i.version;
  desired_value = i.desired_value;
  author = i.author;
}

-- `UPDATE desired_state ... WHERE id = ?`
unfoldable pub update_intent : Change → ℕ → List Intent → List Intent
update_intent c id [] = []
update_intent c id (i ∷ rows) =
    let rest = update_intent c id rows in if eqb i.id id then next_intent c i ∷ rest else i ∷ rest

abbrev pub insert_intent : Change → Intents → Intent × Intents
insert_intent c t =
    let i = first_intent c t.next_id in (i, record t { rows = i ∷ t.rows; next_id = suc t.next_id })

abbrev pub revise_intent : Change → Intent → Intents → Intent × Intents
revise_intent c prior t = if deep_equal prior.desired_value c.desired_value then (prior, t) else (
  next_intent c prior,
  record t { rows = update_intent c prior.id t.rows; history = as_prior prior ∷ t.history },
)

abbrev upsert_found : Change → Option Intent → Intents → Intent × Intents
upsert_found c none t = insert_intent c t
upsert_found c (some prior) t = revise_intent c prior t

unfoldable pub upsert_desired_state : Change → Intents → Intent × Intents
upsert_desired_state c t = upsert_found c (find_intent c t.rows) t

unfoldable pub get_desired_state : ℕ → List Intent → Option Intent
get_desired_state id [] = none
get_desired_state id (i ∷ rows) = if eqb i.id id then some i else get_desired_state id rows

-- `ORDER BY version DESC`
unfoldable pub insert_version : PriorIntent → List PriorIntent → List PriorIntent
insert_version p [] = p ∷ []
insert_version p (q ∷ qs) =
    let rest = insert_version p qs in if leb q.version p.version then p ∷ q ∷ qs else q ∷ rest

unfoldable pub order_versions : List PriorIntent → List PriorIntent
order_versions [] = []
order_versions (p ∷ ps) = insert_version p (order_versions ps)

abbrev pub is_prior_of : ℕ → PriorIntent → Bool
is_prior_of id p = eqb p.desired_state_id id

-- The current value, then each prior one.
unfoldable pub get_desired_state_history : Intent → List PriorIntent → List PriorIntent
get_desired_state_history current history =
    as_prior current ∷ order_versions (select (is_prior_of current.id) history)
