-- ===== src/Offboarding/Closing.antt =====
-- arcanium/api/src/offboarding.js: when an application counts as offboarded.
use mathlib.Core.Path.{subst}
use arcanium.Prelude.{
  ℕ, ◌≡◌, refl, sym, ap, ◌∙◌, ◌↔◌, ◌⊎◌, inl, inr, Bool, true, false, not, ◌||◌, Option, none, some,
  List, [], ◌∷◌, arith, eq_iff, eqb, Bool-cases, is_some, AllOf,
}
use arcanium.Offboarding.{
  latest_destroy, is_settled, complete, or_now, Member, Desired, DestroyRequest, Books, find_member,
  update_member, mark_offboarded, is_resolved, is_row_of, is_archived, close_rows, is_idle,
  check_offboarding_completion,
}

contradicts : {b : Bool} → b ≡ false → b ≡ true → ⊥
contradicts e f = absurd (cc)

some_request_same : (a b : DestroyRequest) → some a ≡ some b → a ≡ b
some_request_same a b e = cc

-- A request was rejected, or it was approved and has been executed.
abbrev pub IsDecided : DestroyRequest → Type 0
IsDecided r = (r.status ≡ "rejected") ⊎ ((r.status ≡ "approved") × (is_some r.executed_at ≡ true))

-- The latest request to destroy the key of an intent is decided.
abbrev pub HasDecided : List DestroyRequest → Desired → Type 0
HasDecided requests d =
    (r : DestroyRequest) × (latest_destroy d.application_id d.key_name requests ≡ some r)
    × IsDecided r

-- An intent of the application is archived, or its latest destroy request is decided.
abbrev pub IsSettledRow : ℕ → List DestroyRequest → Desired → Type 0
IsSettledRow app requests d =
    is_row_of app d ≡ true → (is_archived d ≡ true) ⊎ HasDecided requests d

is_settled_iff :
    (found : Option DestroyRequest)
    → (is_settled found ≡ true) ↔ ((r : DestroyRequest) × (found ≡ some r) × IsDecided r)
is_settled_iff none = (λ h. absurd (cc), λ (r, e, h). absurd (cc))
is_settled_iff (some r) =
    let rejected = eq_iff r.status "rejected" in
    let approved = eq_iff r.status "approved" in
    let decided : (is_settled (some r) ≡ true) ↔ IsDecided r = ground (arith, rejected, approved) in
    (
      λ h. (r, refl, decided.0 h),
      λ (q, e, h). decided.1 (subst IsDecided (sym (some_request_same r q e)) h),
    )

is_resolved_iff :
    (requests : List DestroyRequest) (d : Desired)
    → (is_resolved requests d ≡ true) ↔ HasDecided requests d
unfolding is_resolved
is_resolved_iff requests d = is_settled_iff (latest_destroy d.application_id d.key_name requests)

abbrev pub IsArchivedRow : ℕ → Desired → Type 0
IsArchivedRow app d = is_row_of app d ≡ true → is_archived d ≡ true

close_rows-settled :
    (app now : ℕ) (requests : List DestroyRequest) (desired : List Desired)
    → ((close_rows app now requests desired).0 ≡ true) ↔ AllOf (IsSettledRow app requests) desired
unfolding close_rows
close_rows-settled app now requests [] = (λ _. tt, λ _. refl)
close_rows-settled app now requests (d ∷ desired) =
    let rest = close_rows-settled app now requests desired in
    elim (Bool-cases (is_row_of app d)) [
      | inr other ↦ rw other (λ h. ((λ f. absurd (cc)), rest.0 h), λ h. rest.1 h.1)
      | inl own ↦ rw own (elim (Bool-cases (is_archived d)) [
        | inl gone ↦ rw gone (λ h. ((λ _. inl refl), rest.0 h), λ h. rest.1 h.1)
        | inr kept ↦ rw kept (elim (Bool-cases (is_resolved requests d)) [
          | inl settled ↦
              let decided = (is_resolved_iff requests d).0 settled in
              rw settled (λ h. ((λ _. inr decided), rest.0 h), λ h. rest.1 h.1)
          | inr waiting ↦
              let undecided = λ (u : HasDecided requests d).
                contradicts waiting ((is_resolved_iff requests d).1 u) in
              rw waiting (
                λ h. absurd (cc),
                λ h. elim (h.0 refl) [ inl e ↦ absurd (cc) | inr u ↦ absurd (undecided u) ],
              )
        ])
      ])
    ]

pub close_rows-archived :
    (app now : ℕ) (requests : List DestroyRequest) (desired : List Desired)
    → (close_rows app now requests desired).0 ≡ true
    → AllOf (IsArchivedRow app) (close_rows app now requests desired).1
unfolding close_rows
close_rows-archived app now requests [] = λ h. tt
close_rows-archived app now requests (d ∷ desired) =
    let rest = close_rows-archived app now requests desired in
    elim (Bool-cases (is_row_of app d)) [
      | inr other ↦ rw other (λ h. ((λ own. absurd (ground (arith, own, other))), rest h))
      | inl own ↦ rw own (elim (Bool-cases (is_archived d)) [
        | inl gone ↦ rw gone (λ h. ((λ _. gone), rest h))
        | inr kept ↦ rw kept (elim (Bool-cases (is_resolved requests d)) [
          | inl settled ↦ rw settled (λ h. ((λ _. refl), rest h))
          | inr waiting ↦ rw waiting (λ h. absurd (cc))
        ])
      ])
    ]

-- No archived row comes back.
pub close_rows-keeps :
    (app now other : ℕ) (requests : List DestroyRequest) (desired : List Desired)
    → AllOf (IsArchivedRow other) desired
    → AllOf (IsArchivedRow other) (close_rows app now requests desired).1
unfolding close_rows
close_rows-keeps app now other requests [] h = tt
close_rows-keeps app now other requests (d ∷ desired) (h, hs) =
    let rest = close_rows-keeps app now other requests desired hs in
    elim (Bool-cases (not (is_row_of app d) || is_archived d)) [
      | inl skipped ↦ rw skipped (h, rest)
      | inr looked ↦ rw looked (elim (Bool-cases (is_resolved requests d)) [
        | inl settled ↦ rw settled ((λ _. refl), rest)
        | inr waiting ↦ rw waiting (h, rest)
      ])
    ]

some-injective : (m a : Member) → some m ≡ some a → m ≡ a
some-injective m a h = cc

find-update :
    (f : Member → Member) (id : ℕ) (applications : List Member) (a : Member)
    → ((m : Member) → (f m).id ≡ m.id)
    → find_member id applications ≡ some a
    → find_member id (update_member f id applications) ≡ some (f a)
unfolding find_member update_member
find-update f id [] a keeps h = absurd (cc)
find-update f id (m ∷ applications) a keeps h =
    let same_id = keeps m in
    elim (Bool-cases (eqb m.id id)) [
      | inl same ↦ ground (arith, ap f (some-injective m a (ground arith)))
      | inr other ↦ let rest = find-update f id applications a keeps (ground arith) in ground arith
    ]

-- The application is on record as offboarded.
abbrev pub IsOffboarded : ℕ → List Member → Type 0
IsOffboarded app applications =
    (a : Member) × (find_member app applications ≡ some a) × (is_some a.offboarded_at ≡ true)

open_at : (a : Member) → is_some a.offboarded_at ≡ true → is_idle a ≡ false → ⊥
open_at a gone busy = absurd (ground arith)

still_open : (b a : Member) → b ≡ a → is_some b.offboarded_at ≡ true → is_idle a ≡ false → ⊥
still_open b a e gone busy = open_at a (rw (← e) gone) busy

or_now_some : (at : Option ℕ) (now : ℕ) → is_some (or_now at now) ≡ true
or_now_some none now = refl
or_now_some (some at) now = refl

module _ (app now : ℕ) (t : Books) (a : Member)
    (found : find_member app t.applications ≡ some a) where
  complete-IsOffboarded :
      (c : Bool × List Desired) → c.0 ≡ true → IsOffboarded app (complete app now t c).applications
  complete-IsOffboarded c e = rw e (
    mark_offboarded now a,
    find-update (mark_offboarded now) app t.applications a (λ m. refl) found,
    or_now_some a.offboarded_at now,
  )

  complete_open :
      (c : Bool × List Desired)
      → c.0 ≡ false
      → is_idle a ≡ false
      → IsOffboarded app (complete app now t c).applications
      → ⊥
  complete_open c e busy =
      rw e (λ (b, same, gone). still_open b a (some-injective b a (sym same ∙ found)) gone busy)

  check_completes :
      is_idle a ≡ false
      → (check_offboarding_completion app now t).1
        ≡ complete app now t (close_rows app now t.requests t.desired)
  unfolding check_offboarding_completion
  check_completes busy = rw (found, busy) refl

  complete_desired : (c : Bool × List Desired) → (complete app now t c).desired ≡ c.1
  complete_desired c = elim (Bool-cases c.0) [ inl e ↦ rw e refl | inr e ↦ rw e refl ]

  -- The check of an application in progress closes it exactly if each of its intents is archived or
  -- has a latest destroy request that was rejected, or that was approved and has been executed: an
  -- approved request that still waits for its execution keeps the application open. All its intents are
  -- archived once it is closed.
  pub completion_exact :
      is_idle a ≡ false
      → (IsOffboarded app (check_offboarding_completion app now t).1.applications
          ↔ AllOf (IsSettledRow app t.requests) t.desired)
        × (IsOffboarded app (check_offboarding_completion app now t).1.applications
            → AllOf (IsArchivedRow app) (check_offboarding_completion app now t).1.desired)
  completion_exact busy =
      let c = close_rows app now t.requests t.desired in
      let settled = close_rows-settled app now t.requests t.desired in
      rw (check_completes busy, complete_desired c)
        (elim (Bool-cases c.0) [
          | inl e ↦ (
            (λ _. settled.0 e, λ _. complete-IsOffboarded c e),
            λ _. close_rows-archived app now t.requests t.desired e,
          )
          | inr e ↦ (
            (λ h. absurd (complete_open c e busy h), λ h. absurd (contradicts e (settled.1 h))),
            λ h. absurd (complete_open c e busy h),
          )
        ])
