-- ===== src/Approvals/Execution/Safety.antt =====
-- arcanium/api/src/approval-execution.js: the calls of a whole tick are on keys whose destruction was
-- approved and is still intended.
use mathlib.Core.Path.{subst}
use arcanium.Prelude.{
  ℕ, zero, suc, String, ◌≡◌, refl, sym, ap, ◌∙◌, ◌≢◌, inl, inr, Bool, true, Option, none, some,
  List, [], ◌∷◌, ◌++◌, arith, Bool-cases, length, AllOf,
}
use arcanium.Approvals.Execution.{
  Approval, Tables, Call, Vault, Tick, process, has_live_destroy_intent, resolve_key_location,
  after_attempt, after_unclaimed, run_rounds, first_tick, execute_approved_destroys, is_claimable,
}
use arcanium.Approvals.Execution.Claims.{Holds, IsNext, unexecuted-Holds}
use arcanium.Approvals.Execution.Calls.{
  is_settled, process_marks, process_gated, Gates, OnKey, target,
}
use arcanium.Approvals.Execution.Rounds.{round_cases}

AllOf-weaken :
    (P Q : Call → Type 0) (xs : List Call) → ((x : Call) → P x → Q x) → AllOf P xs → AllOf Q xs
AllOf-weaken P Q [] f h = tt
AllOf-weaken P Q (x ∷ xs) f (h, hs) = (f x h, AllOf-weaken P Q xs f hs)

-- What is known once there is a call at all.
AllOf-inhabited :
    (P Q : Call → Type 0) (xs : List Call)
    → (xs ≢ [] → (x : Call) → P x → Q x)
    → AllOf P xs
    → AllOf Q xs
AllOf-inhabited P Q [] f h = tt
AllOf-inhabited P Q (x ∷ xs) f h = AllOf-weaken P Q (x ∷ xs) (f (λ e. absurd (cc))) h

AllOf-append :
    (P : Call → Type 0) (xs ys : List Call) → AllOf P xs → AllOf P ys → AllOf P (xs ++ ys)
AllOf-append P [] ys h k = k
AllOf-append P (x ∷ xs) ys (h, hs) k = (h, AllOf-append P xs ys hs k)

module _ {V : Type 0} (vault : Vault V) (now : ℕ) where
  -- A call is on the key of an approved, unexecuted revocation, whose gates some state let through.
  abbrev pub IsJustified : Tables → Call → Type 0
  IsJustified t c =
      (a : Approval) × Holds t.approvals a
      × (is_claimable [] a ≡ true)
      × (target c ≡ (resolve_key_location a.app_id t.applications, a.key_name))
      × ((v : V) × Gates vault a now t v)

  -- What a tick leaves of the tables that it began with.
  abbrev Agrees : Tables → Tables → Type 0
  Agrees t t' =
      (t'.policies ≡ t.policies)
      × (t'.applications ≡ t.applications)
      × (t'.reconciliation ≡ t.reconciliation)
      × ((a : Approval) → Holds t'.approvals a → a.executed_at ≡ none → Holds t.approvals a)

  intent-Agrees :
      (t t' : Tables) (key_name : String) (app : Option ℕ)
      → Agrees t t'
      → has_live_destroy_intent key_name app now t' ≡ has_live_destroy_intent key_name app now t
  unfolding has_live_destroy_intent
  intent-Agrees t t' key_name app (p, q, r, _) = rw (p, q, r) refl

  claimable-fresh :
      (exclude : List ℕ) (a : Approval)
      → is_claimable exclude a ≡ true
      → (is_claimable [] a ≡ true) × (a.executed_at ≡ none)
  claimable-fresh exclude a h = ground (arith, h)

  Gates-Agrees :
      (t t' : Tables) (req : Approval) (v : V)
      → Agrees t t'
      → Gates vault req now t' v
      → Gates vault req now t v
  Gates-Agrees t t' req v agrees (i, (live, read, pinned)) = (
    sym (intent-Agrees t t' req.key_name req.app_id agrees) ∙ i,
    (
      live,
      ap (λ apps. vault.read_key (resolve_key_location req.app_id apps) req.key_name v)
            (sym agrees.1)
          ∙ read,
      pinned,
    ),
  )

  -- Each of the calls of an attempt is justified, if there are any.
  attempt-IsJustified :
      (t t' : Tables) (req : Approval) (exclude : List ℕ) (v : V)
      → Agrees t t'
      → IsNext exclude t'.approvals req
      → AllOf (IsJustified t) (process vault req now t' v).calls
  attempt-IsJustified t t' req exclude v agrees (c, held, _) =
      let (fresh, unexecuted) = claimable-fresh exclude req c in
      let (_, _, _, on_key) = process_marks vault req now t' v in
      let ns = resolve_key_location req.app_id t'.applications in
      AllOf-inhabited (OnKey vault ns req.key_name) (IsJustified t)
        (process vault req now t' v).calls
        (λ some_call c on.
          let gates = process_gated vault req now t' v some_call in
          (
            req,
            agrees.3 req held unexecuted,
            fresh,
            on ∙ ap (λ apps. (resolve_key_location req.app_id apps, req.key_name)) agrees.1,
            (v, Gates-Agrees t t' req v agrees gates),
          ))
        on_key

  attempt-Agrees :
      (t t' : Tables) (req : Approval) (v : V)
      → Agrees t t'
      → Agrees t (process vault req now t' v).tables
  attempt-Agrees t t' req v agrees =
      let a = process vault req now t' v in
      let marks = (process_marks vault req now t' v).0 in
      elim (Bool-cases (is_settled a.ending)) [
        | inl s ↦
            rw (marks, s)
              (
                agrees.0,
                agrees.1,
                agrees.2,
                λ x h e. agrees.3 x (unexecuted-Holds req.id now t'.approvals x h e) e,
              )
        | inr s ↦ rw (marks, s) agrees
      ]

  module _ (connects : ℕ → Bool) where
    calls-IsJustified :
        (fuel : ℕ) (t : Tables) (tick end : Tick V)
        → Agrees t tick.tables
        → AllOf (IsJustified t) tick.calls
        → run_rounds vault connects now fuel tick ≡ some end
        → AllOf (IsJustified t) end.calls
    unfolding run_rounds
    calls-IsJustified zero t tick end agrees h ran = absurd (cc)
    calls-IsJustified (suc fuel) t tick end agrees h ran =
        elim (round_cases vault connects now tick) [
          | inl (stop, _) ↦
              let same : tick ≡ end = ground (arith, stop, ran) in
              subst (λ x. AllOf (IsJustified t) x.calls) same h
          | inr (inr (_, go)) ↦
              calls-IsJustified fuel t (after_unclaimed vault connects now tick) end agrees h
                (rw go at ran)
          | inr (inl (req, next, go)) ↦
              let a = process vault req now tick.tables tick.vault in
              calls-IsJustified fuel t (after_attempt vault connects now req a tick) end
                (attempt-Agrees t tick.tables req tick.vault agrees)
                (AllOf-append (IsJustified t) tick.calls a.calls h
                  (attempt-IsJustified t tick.tables req tick.exclude tick.vault agrees next))
                (rw go at ran)
        ]

    -- Whatever Vault answers, each call by which a tick changes Vault is on the key of a request that
    -- was approved for revocation and not executed when the tick began, whose destruction was intended
    -- then, and whose key was read at the pinned version.
    pub execute_approved_destroys-IsJustified :
        (t : Tables) (v : V) (end : Tick V)
        → execute_approved_destroys vault connects now t v ≡ some end
        → AllOf (IsJustified t) end.calls
    unfolding execute_approved_destroys
    execute_approved_destroys-IsJustified t v end ran =
        calls-IsJustified (suc (length t.approvals)) t (first_tick vault connects now t v) end
          (refl, refl, refl, λ a h e. h) tt ran
