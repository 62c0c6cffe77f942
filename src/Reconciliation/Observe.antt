-- ===== src/Reconciliation/Observe.antt =====
-- arcanium/api/src/reconciliation/observe.js: what observeExpiryDate makes of Vault's answer.
use arcanium.Prelude.{
  ℕ, String, Bool, true, false, Option, none, some, ◌==◌, eqb, if◌then◌else◌, truthy,
}
use arcanium.Reconciliation.Json.{null, bool, text, obj, end, field}
use arcanium.Reconciliation.Diff.{Observed}

-- The answer to the GET of a key: the key, or an error with its `vaultStatus` and its message.
pub data KeyAnswer : Type 0 where
  key_exists : KeyAnswer
  key_error : Option ℕ → String → KeyAnswer

abbrev seen_active : Bool → String → Observed
seen_active active today = record {
  value = obj (field "active" (bool active) (field "observed_date" (text today) end));
  status = "OK";
  detail = none;
}

abbrev unknown_because : String → Observed
unknown_because reason = record { value = null; status = "UNKNOWN"; detail = some reason }

abbrev is_404 : Option ℕ → Bool
is_404 none = false
is_404 (some code) = eqb code 404

abbrev observe_answer : String → KeyAnswer → Observed
observe_answer today key_exists = seen_active true today
observe_answer today (key_error code message) =
    if is_404 code then seen_active false today else unknown_because message

-- `!vaultPath`, then the answer for the path in the namespace; an empty namespace is none.
abbrev namespace_or_root : Option String → Option String
namespace_or_root ns = if truthy ns then ns else none

abbrev observe_at :
    String → (Option String → String → KeyAnswer) → Option String → Option String → Observed
observe_at today get none ns =
    unknown_because "no Transit key on record for this application (crypto_profiles)"
observe_at today get (some path) ns =
    if path == ""
    then unknown_because "no Transit key on record for this application (crypto_profiles)"
    else observe_answer today (get (namespace_or_root ns) path)

unfoldable pub observe_expiry_date :
    String → (Option String → String → KeyAnswer) → Option String → Option String → Observed
observe_expiry_date today get path ns = observe_at today get path ns
