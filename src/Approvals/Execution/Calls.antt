-- ===== src/Approvals/Execution/Calls.antt =====
-- arcanium/api/src/approval-execution.js: when a request's key is touched, and what becomes of the
-- key's protection.
use arcanium.Prelude.{
  ℕ, String, ◌≡◌, refl, ◌≢◌, ◌⊎◌, inl, inr, Bool, true, false, Option, none, some, [], ◌∷◌, arith,
  if◌then◌else◌, Bool-cases, last?, AllOf,
}
use arcanium.Approvals.Execution.{
  settle_configure, settle_delete, Approval, Tables, KeyMeta, vault_404, vault_error, Reply,
  replied, refused, Call, set_deletion_allowed, delete_key, Vault, has_live_destroy_intent,
  resolve_key_location, Ending, executed, already_gone, Attempted, Destroyed, destroy_transit_key,
  process, pins, settle_read, settle_destroy, executed_in,
}

abbrev pub target : Call → Option String × String
target (set_deletion_allowed ns key_name _) = (ns, key_name)
target (delete_key ns key_name) = (ns, key_name)

-- The executed requests are the ones whose ending says so.
abbrev pub is_settled : Ending → Bool
is_settled executed = true
is_settled already_gone = true
is_settled _ = false

pins-some : (pinned : Option ℕ) (live : ℕ) → pins pinned live ≡ true → pinned ≡ some live
pins-some none live h = absurd (cc)
pins-some (some pinned) live h = ground (arith, h)

module _ {V : Type 0} (vault : Vault V) where
  -- What all of a request's gates have let through.
  abbrev pub Gates : Approval → ℕ → Tables → V → Type 0
  Gates req now t v =
      (has_live_destroy_intent req.key_name req.app_id now t ≡ true)
      × ((live : KeyMeta) × (vault.read_key (resolve_key_location req.app_id t.applications)
              req.key_name v
            ≡ replied live)
          × (req.pinned_key_version ≡ some live.latest_version))

  settle_read-gated :
      (req : Approval) (ns : Option String) (now : ℕ) (t : Tables) (v : V) (reply : Reply KeyMeta)
      → (settle_read vault req ns now t v reply).calls ≢ []
      → (live : KeyMeta) × (reply ≡ replied live)
        × (req.pinned_key_version ≡ some live.latest_version)
  settle_read-gated req ns now t v (refused vault_404) h = absurd (h refl)
  settle_read-gated req ns now t v (refused (vault_error m)) h = absurd (h refl)
  settle_read-gated req ns now t v (replied live) h =
      elim (Bool-cases (pins req.pinned_key_version live.latest_version)) [
        | inl p ↦ (live, refl, pins-some req.pinned_key_version live.latest_version p)
        | inr p ↦ absurd (h (rw p refl))
      ]

  -- A request makes a call that changes Vault only if its destruction is still intended, its key has
  -- been read, and the version read is the one that was pinned.
  pub process_gated :
      (req : Approval) (now : ℕ) (t : Tables) (v : V)
      → (process vault req now t v).calls ≢ []
      → Gates req now t v
  unfolding process
  process_gated req now t v h =
      let ns = resolve_key_location req.app_id t.applications in
      elim (Bool-cases (has_live_destroy_intent req.key_name req.app_id now t)) [
        | inl i ↦
            (i, settle_read-gated req ns now t v (vault.read_key ns req.key_name v) (rw i at h))
        | inr i ↦ absurd (h (rw i refl))
      ]

  -- The calls of a destruction are on the key, and one that throws behind a DELETE has asked Vault to
  -- protect again a key that was protected.
  abbrev pub OnKey : Option String → String → Call → Type 0
  OnKey ns key_name c = target c ≡ (ns, key_name)

  abbrev Fate : Option String → String → Bool → Destroyed V → Type 0
  Fate ns key_name deletable d =
      AllOf (OnKey ns key_name) d.calls
      × (d.thrown ≡ false → last? d.calls ≡ some (delete_key ns key_name))
      × (d.thrown ≡ true
          → deletable ≡ false
          → (d.calls ≡ set_deletion_allowed ns key_name true ∷ [])
            ⊎ (last? d.calls ≡ some (set_deletion_allowed ns key_name false)))

  unprotected-Fate :
      (ns : Option String) (key_name : String) (answer : V × Reply Unit)
      → Fate ns key_name true
          (settle_delete vault ns key_name true (delete_key ns key_name ∷ []) answer)
  unprotected-Fate ns key_name (v, replied u) = ((refl, tt), λ _. refl, λ e. absurd (cc))
  unprotected-Fate ns key_name (v, refused vault_404) = ((refl, tt), λ _. refl, λ e. absurd (cc))
  unprotected-Fate ns key_name (v, refused (vault_error m)) =
      ((refl, tt), λ e. absurd (cc), λ e f. absurd (cc))

  protected-Fate :
      (ns : Option String) (key_name : String) (answer : V × Reply Unit)
      → Fate ns key_name false (
          settle_delete vault ns key_name false
            (set_deletion_allowed ns key_name true ∷ delete_key ns key_name ∷ [])
            answer)
  protected-Fate ns key_name (v, replied u) = ((refl, (refl, tt)), λ _. refl, λ e. absurd (cc))
  protected-Fate ns key_name (v, refused vault_404) =
      ((refl, (refl, tt)), λ _. refl, λ e. absurd (cc))
  protected-Fate ns key_name (v, refused (vault_error m)) =
      ((refl, (refl, (refl, tt))), λ e. absurd (cc), λ e f. inr refl)

  configured-Fate :
      (ns : Option String) (key_name : String) (answer : V × Reply Unit)
      → Fate ns key_name false (settle_configure vault ns key_name answer)
  configured-Fate ns key_name (v, replied u) =
      protected-Fate ns key_name (vault.delete ns key_name v)
  configured-Fate ns key_name (v, refused e) = ((refl, tt), λ e. absurd (cc), λ e f. inl refl)

  -- Whatever Vault answers, the calls of a destruction are on its key alone; one that returns ends in
  -- the DELETE; and one that throws has left a key that was protected without a DELETE, or asked Vault
  -- last to protect it again.
  pub destroy_restores :
      (ns : Option String) (key_name : String) (live : KeyMeta) (v : V)
      → let d = destroy_transit_key vault ns key_name live v in
        AllOf (OnKey ns key_name) d.calls
        × (d.thrown ≡ false → last? d.calls ≡ some (delete_key ns key_name))
        × (d.thrown ≡ true
            → live.deletion_allowed ≡ false
            → (d.calls ≡ set_deletion_allowed ns key_name true ∷ [])
              ⊎ (last? d.calls ≡ some (set_deletion_allowed ns key_name false)))
  unfolding destroy_transit_key
  destroy_restores ns key_name live v = elim (Bool-cases live.deletion_allowed) [
    | inl bare ↦ rw bare (unprotected-Fate ns key_name (vault.delete ns key_name v))
    | inr shut ↦ rw shut (configured-Fate ns key_name (vault.configure ns key_name true v))
  ]

  abbrev Marks : Approval → Option String → ℕ → Tables → Reply KeyMeta → Attempted V → Type 0
  Marks req ns now t reply a =
      (a.tables ≡ (if is_settled a.ending then executed_in vault req now t else t))
      × (a.ending ≡ executed → last? a.calls ≡ some (delete_key ns req.key_name))
      × (a.ending ≡ already_gone → reply ≡ refused vault_404)
      × AllOf (OnKey ns req.key_name) a.calls

  settle_destroy-Marks :
      (req : Approval) (ns : Option String) (now : ℕ) (t : Tables) (reply : Reply KeyMeta)
      (d : Destroyed V)
      → (d.thrown ≡ false → last? d.calls ≡ some (delete_key ns req.key_name))
      → AllOf (OnKey ns req.key_name) d.calls
      → Marks req ns now t reply (settle_destroy vault req now t d)
  settle_destroy-Marks req ns now t reply d h k = elim (Bool-cases d.thrown) [
    | inl e ↦ rw e (refl, λ x. absurd (cc), λ x. absurd (cc), k)
    | inr e ↦ rw e (refl, λ x. h e, λ x. absurd (cc), k)
  ]

  settle_read-Marks :
      (req : Approval) (ns : Option String) (now : ℕ) (t : Tables) (v : V) (reply : Reply KeyMeta)
      → Marks req ns now t reply (settle_read vault req ns now t v reply)
  settle_read-Marks req ns now t v (refused vault_404) = (refl, λ x. absurd (cc), λ x. refl, tt)
  settle_read-Marks req ns now t v (refused (vault_error m)) =
      (refl, λ x. absurd (cc), λ x. absurd (cc), tt)
  settle_read-Marks req ns now t v (replied live) =
      elim (Bool-cases (pins req.pinned_key_version live.latest_version)) [
        | inl p ↦ rw p (
            let (calls, ends, _) = destroy_restores ns req.key_name live v in
            settle_destroy-Marks req ns now t (replied live)
              (destroy_transit_key vault ns req.key_name live v) ends calls)
        | inr p ↦ rw p (refl, λ x. absurd (cc), λ x. absurd (cc), tt)
      ]

  -- The calls of an attempt are on its request's key. It marks its request executed, and changes no other row, exactly if it ends as executed or
  -- already gone; the first only behind a DELETE of the key as the last call, the second only where
  -- Vault has answered that there is no such key.
  pub process_marks :
      (req : Approval) (now : ℕ) (t : Tables) (v : V)
      → let a = process vault req now t v in
        let ns = resolve_key_location req.app_id t.applications in
        (a.tables ≡ (if is_settled a.ending then executed_in vault req now t else t))
        × (a.ending ≡ executed → last? a.calls ≡ some (delete_key ns req.key_name))
        × (a.ending ≡ already_gone → vault.read_key ns req.key_name v ≡ refused vault_404)
        × AllOf (OnKey ns req.key_name) a.calls
  unfolding process
  process_marks req now t v =
      let ns = resolve_key_location req.app_id t.applications in
      elim (Bool-cases (has_live_destroy_intent req.key_name req.app_id now t)) [
        | inl i ↦ rw i (settle_read-Marks req ns now t v (vault.read_key ns req.key_name v))
        | inr i ↦ rw i (refl, λ x. absurd (cc), λ x. absurd (cc), tt)
      ]
