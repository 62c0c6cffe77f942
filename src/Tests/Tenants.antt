-- ===== src/Tests/Tenants.antt =====
-- The check of the boundary between two tenants.
use arcanium.Prelude.{
  ◌≤◌, String, ◌≡◌, ◌↔◌, true, some, List, [], ◌∷◌, ◌==◌, if◌then◌else◌, or_default, AllOf,
}
use arcanium.Suppliers.Isolation.{Tenant, answer, status, Vault, run_check}
use arcanium.Suppliers.Isolation.Boundary.{HasDistinctNames, IsBounded, verified_exact}

-- A token is the name of its tenant's namespace, and lists that alone.
abbrev leading : List String → String
leading [] = ""
leading (s ∷ segments) = s

abbrev two_namespaces : Vault String
two_namespaces = record {
  role_id = λ ns role. answer (some "role");
  secret_id = λ ns role. answer (some "secret");
  login = λ ns role secret. answer (some (leading ns));
  list_keys = λ token ns. if or_default token "" == leading ns then answer tt else status 403;
}

abbrev acme : Tenant
acme = record { name = "Acme"; namespace = "acme" ∷ [] }

abbrev zenith : Tenant
zenith = record { name = "Zenith"; namespace = "zenith" ∷ [] }

distinct : HasDistinctNames (acme ∷ zenith ∷ [])
distinct = ((λ e. absurd (cc), tt), (tt, tt))

verified_exact_example :
    ((run_check two_namespaces 100 (acme ∷ zenith ∷ [])).verified ≡ true)
    ↔ ((2 ≤ 2) × AllOf (IsBounded two_namespaces (acme ∷ zenith ∷ [])) (acme ∷ zenith ∷ []))
verified_exact_example = verified_exact two_namespaces 100 (acme ∷ zenith ∷ []) distinct
