-- ===== src/Approvals/Requests/Decided.antt =====
-- arcanium/api/src/routes/approvals.js: no sequence of calls touches a request that is decided.
use arcanium.Prelude.{
  ℕ, ◌<◌, String, ◌≡◌, sym, ap, ◌∙◌, ◌≢◌, inl, inr, false, Option, List, [], ◌∷◌, arith, eqb,
  Bool-cases, length, AnyOf, AllOf, AnyOf-elim,
}
use arcanium.Approvals.Requests.{Asked, Register, Oracle, decide_request}
use arcanium.Approvals.Requests.Standing.{
  Lists, Moves, unmoved, decides, adds, Call, to_create, to_approve, to_authorize, to_deny,
  after_calls, approve-Moves, deny_request-Moves, authorize_accessor-Moves, create-Moves,
}

abbrev HasOtherId : ℕ → Asked → Type 0
HasOtherId id r = r.id ≢ id

abbrev HasDistinctIds : List Asked → Type 0
HasDistinctIds [] = Unit
HasDistinctIds (r ∷ rows) = AllOf (HasOtherId r.id) rows × HasDistinctIds rows

-- The ids of the requests differ, and are below the next one.
abbrev pub IsKeyed : Register → Type 0
IsKeyed reg = AllOf (λ r. r.id < reg.next_id) reg.requests × HasDistinctIds reg.requests

same_row :
    (rows : List Asked) (r x : Asked)
    → HasDistinctIds rows
    → AnyOf (λ y. y ≡ r) rows
    → AnyOf (λ y. y ≡ x) rows
    → r.id ≡ x.id
    → r ≡ x
same_row [] r x d h k e = absurd h
same_row (y ∷ rows) r x (d, ds) (inl h) (inl k) e = sym h ∙ k
same_row (y ∷ rows) r x (d, ds) (inl h) (inr k) e = absurd (
    AnyOf-elim (λ z. z ≡ x) (HasOtherId y.id) ⊥
      (λ z o q. o (ap (λ w. w.id) q ∙ sym e ∙ ap (λ w. w.id) (sym h))) rows d k)
same_row (y ∷ rows) r x (d, ds) (inr h) (inl k) e = absurd (
    AnyOf-elim (λ z. z ≡ r) (HasOtherId y.id) ⊥
      (λ z o q. o (ap (λ w. w.id) q ∙ e ∙ ap (λ w. w.id) (sym k))) rows d h)
same_row (y ∷ rows) r x (d, ds) (inr h) (inr k) e = same_row rows r x ds h k e

module _ (id : ℕ) (status : String) (approver reason : Option String) where
  decide_request-other :
      (rows : List Asked) (x : Asked)
      → x.id ≢ id
      → AnyOf (λ y. y ≡ x) rows
      → AnyOf (λ y. y ≡ x) (decide_request id status approver reason rows)
  unfolding decide_request
  decide_request-other [] x n h = h
  decide_request-other (y ∷ rows) x n (inl h) =
      let other : eqb y.id id ≡ false = ground (arith, n, ap (λ w. w.id) h) in rw other (inl h)
  decide_request-other (y ∷ rows) x n (inr h) = elim (Bool-cases (eqb y.id id)) [
    | inl e ↦ rw e (inr (decide_request-other rows x n h))
    | inr e ↦ rw e (inr (decide_request-other rows x n h))
  ]

  AllOf-decide_request :
      (P : ℕ → Type 0) (rows : List Asked)
      → AllOf (λ r. P r.id) rows
      → AllOf (λ r. P r.id) (decide_request id status approver reason rows)
  unfolding decide_request
  AllOf-decide_request P [] h = tt
  AllOf-decide_request P (y ∷ rows) (h, hs) = elim (Bool-cases (eqb y.id id)) [
    | inl e ↦ rw e (h, AllOf-decide_request P rows hs)
    | inr e ↦ rw e (h, AllOf-decide_request P rows hs)
  ]

  decide_request-HasDistinctIds :
      (rows : List Asked)
      → HasDistinctIds rows
      → HasDistinctIds (decide_request id status approver reason rows)
  unfolding decide_request
  decide_request-HasDistinctIds [] d = tt
  decide_request-HasDistinctIds (y ∷ rows) (d, ds) =
      let others = AllOf-decide_request (λ i. i ≢ y.id) rows d in
      let rest = decide_request-HasDistinctIds rows ds in
      elim (Bool-cases (eqb y.id id)) [ inl e ↦ rw e (others, rest) | inr e ↦ rw e (others, rest) ]

AllOf-weaken :
    (P Q : Asked → Type 0) (xs : List Asked) → ((x : Asked) → P x → Q x) → AllOf P xs → AllOf Q xs
AllOf-weaken P Q [] f h = tt
AllOf-weaken P Q (x ∷ xs) f (h, hs) = (f x h, AllOf-weaken P Q xs f hs)

Moves-IsKeyed : {reg reg' : Register} → Moves reg reg' → IsKeyed reg → IsKeyed reg'
Moves-IsKeyed unmoved k = k
Moves-IsKeyed {reg} (decides r status approver reason l p) (below, distinct) = (
  AllOf-decide_request r.id status approver reason (λ i. i < reg.next_id) reg.requests below,
  decide_request-HasDistinctIds r.id status approver reason reg.requests distinct,
)
Moves-IsKeyed {reg} (adds r e) (below, distinct) = (
  (omega (arith, e), AllOf-weaken _ _ reg.requests (λ x h. omega (arith, h)) below),
  (AllOf-weaken _ _ reg.requests (λ x h q. absurd (omega (arith, h, q, e))) below, distinct),
)

Moves-stands :
    {reg reg' : Register}
    → Moves reg reg'
    → IsKeyed reg
    → (x : Asked) → Lists reg x
    → x.status ≢ "pending"
    → Lists reg' x
Moves-stands unmoved k x h n = h
Moves-stands {reg} (decides r status approver reason l p) (_, distinct) x h n =
    decide_request-other r.id status approver reason reg.requests x
      (λ e. n (ap (λ w. w.status) (same_row reg.requests x r distinct h l e) ∙ p)) h
Moves-stands (adds r e) k x h n = inr h

-- In tables of distinct ids a request that has been approved or rejected stays as it is, in every
-- field, whatever calls of the handlers follow, by whomever, and whatever Vault answers.
pub decisions_stand :
    (oracle : ℕ → Oracle) (lower : String → String) (calls : List Call) (reg : Register) (r : Asked)
    → IsKeyed reg
    → Lists reg r
    → r.status ≢ "pending"
    → Lists (after_calls oracle lower calls reg) r
unfolding after_calls
decisions_stand oracle lower [] reg r k h n = h
decisions_stand oracle lower (to_create identity body ∷ calls) reg r k h n =
    let m = create-Moves lower identity body reg in
    decisions_stand oracle lower calls _ r (Moves-IsKeyed m k) (Moves-stands m k r h n) n
decisions_stand oracle lower (to_approve id identity ∷ calls) reg r k h n =
    let m = approve-Moves (oracle (length calls)) id identity reg in
    decisions_stand oracle lower calls _ r (Moves-IsKeyed m k) (Moves-stands m k r h n) n
decisions_stand oracle lower (to_authorize accessor identity source ∷ calls) reg r k h n =
    let m = authorize_accessor-Moves (oracle (length calls)) accessor identity source reg in
    decisions_stand oracle lower calls _ r (Moves-IsKeyed m k) (Moves-stands m k r h n) n
decisions_stand oracle lower (to_deny id identity reason ∷ calls) reg r k h n =
    let m = deny_request-Moves id identity reason reg in
    decisions_stand oracle lower calls _ r (Moves-IsKeyed m k) (Moves-stands m k r h n) n
