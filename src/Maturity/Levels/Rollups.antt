-- ===== src/Maturity/Levels/Rollups.antt =====
-- arcanium/api/src/maturity/controls.js: rollupByControl, without its groups.
use arcanium.Prelude.{
  AnyOf-select, AnyOf-selected, any-AnyOf, AllOf-select, String, ◌≡◌, refl, sym, ap, ◌∙◌, ◌↔◌, ◌⊎◌,
  inl, inr, Bool, true, false, not, ◌&&◌, ◌||◌, List, [], ◌∷◌, ◌++◌, map, arith, ◌==◌, eq_iff, eqb,
  if◌then◌else◌, Bool-cases, length, select, any, AnyOf, AllOf, AnyOf-map,
}
use arcanium.Maturity.Controls.{Status, pass, fail, unknown, not_applicable, Assessment}
use arcanium.Maturity.Levels.{
  Groups, add_row, by_control, worst_case, roll, rollup_by_control, status_of, is_some_pass, passes,
  is_pass, is_fail, is_unknown, is_applicable, has_status,
}

abbrev pub is_of : String → Assessment → Bool
is_of id a = a.control_id == id

abbrev rows_of : Groups → String → List Assessment
rows_of [] id = []
rows_of ((control, rows) ∷ groups) id = if control == id then rows else rows_of groups id

append_nil {ℓ} : {A : Type ℓ} (xs : List A) → xs ++ [] ≡ xs
append_nil [] = refl
append_nil (x ∷ xs) = rw (append_nil xs) refl

append_assoc {ℓ} : {A : Type ℓ} (xs ys zs : List A) → (xs ++ ys) ++ zs ≡ xs ++ (ys ++ zs)
append_assoc [] ys zs = refl
append_assoc (x ∷ xs) ys zs = rw (append_assoc xs ys zs) refl

unrelated :
    (a : Assessment) (control id : String)
    → control == a.control_id ≡ false
    → control ≡ id
    → select (is_of id) (a ∷ []) ≡ []
unrelated a control id f e = ground (arith, eq_iff control a.control_id, eq_iff a.control_id id)

regroup :
    (a : Assessment) (rest : List Assessment) (id : String) (rows : List Assessment)
    → (rows ++ select (is_of id) (a ∷ [])) ++ select (is_of id) rest
      ≡ rows ++ select (is_of id) (a ∷ rest)
regroup a rest id rows = elim (Bool-cases (a.control_id == id)) [
  | inl e ↦ rw e (append_assoc rows (a ∷ []) (select (is_of id) rest))
  | inr e ↦ rw e (append_assoc rows [] (select (is_of id) rest))
]

-- The row goes to the group of its control.
same_control :
    (a : Assessment) (control id : String) (rows : List Assessment) (groups : Groups)
    → control ≡ a.control_id
    → rows_of ((control, rows ++ a ∷ []) ∷ groups) id
      ≡ rows_of ((control, rows) ∷ groups) id ++ select (is_of id) (a ∷ [])
same_control a control id rows groups e = elim (Bool-cases (control == id)) [
  | inl f ↦ ground (arith, e)
  | inr f ↦ rw (f, ← e) (rw f (sym (append_nil (rows_of groups id))))
]

other_control :
    (a : Assessment) (control id : String) (rows : List Assessment)
    → control == a.control_id ≡ false
    → control ≡ id
    → rows ≡ rows ++ select (is_of id) (a ∷ [])
other_control a control id rows f e = rw (unrelated a control id f e) (sym (append_nil rows))

rows_of-add_row :
    (a : Assessment) (groups : Groups) (id : String)
    → rows_of (add_row a groups) id ≡ rows_of groups id ++ select (is_of id) (a ∷ [])
unfolding add_row
rows_of-add_row a [] id = refl
rows_of-add_row a ((control, rows) ∷ groups) id = elim (Bool-cases (control == a.control_id)) [
  | inl here ↦
      rw here (same_control a control id rows groups ((eq_iff control a.control_id).0 here))
  | inr there ↦ rw there (elim (Bool-cases (control == id)) [
    | inl e ↦ rw e (other_control a control id rows there ((eq_iff control id).0 e))
    | inr e ↦ rw e (rows_of-add_row a groups id)
  ])
]

rows_of-by_control :
    (assessments : List Assessment) (groups : Groups) (id : String)
    → rows_of (by_control assessments groups) id
      ≡ rows_of groups id ++ select (is_of id) assessments
unfolding by_control
rows_of-by_control [] groups id = sym (append_nil (rows_of groups id))
rows_of-by_control (a ∷ rest) groups id =
    rw (rows_of-by_control rest (add_row a groups) id, rows_of-add_row a groups id)
      (regroup a rest id (rows_of groups id))

status_of-roll :
    (groups : Groups) (id : String)
    → is_some_pass (status_of (map roll groups) id) ≡ is_pass (worst_case (rows_of groups id))
unfolding status_of worst_case
status_of-roll [] id = refl
status_of-roll ((control, rows) ∷ groups) id = elim (Bool-cases (control == id)) [
  | inl e ↦ rw e refl
  | inr e ↦ rw e (status_of-roll groups id)
]

-- A control passes if the worst of its own rows does.
passes-worst :
    (assessments : List Assessment) (id : String)
    → passes (rollup_by_control assessments) id
      ≡ is_pass (worst_case (select (is_of id) assessments))
unfolding passes rollup_by_control
passes-worst assessments id =
    status_of-roll (by_control assessments []) id
    ∙ ap (λ rows. is_pass (worst_case rows)) (rows_of-by_control assessments [] id)

-- A row that does not stand in the way: it passes, or it does not apply.
abbrev pub IsClean : Assessment → Type 0
IsClean a = (a.status ≡ pass) ⊎ (a.status ≡ not_applicable)

abbrev pub IsPassing : Assessment → Type 0
IsPassing a = a.status ≡ pass

applies : (s : Status) → (s ≡ not_applicable) ⊎ (is_applicable s ≡ true)
applies pass = inr refl
applies fail = inr refl
applies unknown = inr refl
applies not_applicable = inl refl

ladder :
    (p f u : Bool)
    → is_pass (
        if not (p || f || u)
        then not_applicable
        else if f
        then fail
        else if u
        then unknown
        else pass)
      ≡ (p && not (f || u))
ladder true true u = refl
ladder true false true = refl
ladder true false false = refl
ladder false true u = refl
ladder false false true = refl
ladder false false false = refl

abbrev applicable_rows : List Assessment → List Assessment
applicable_rows rows = select (has_status is_applicable) rows

-- A test that rows which do not apply fail is the same on the others alone.
any-applicable :
    (p : Status → Bool) (rows : List Assessment)
    → p not_applicable ≡ false
    → any (has_status p) (applicable_rows rows) ≡ any (has_status p) rows
any-applicable p [] h = refl
any-applicable p (a ∷ rows) h = elim (applies a.status) [
  | inl e ↦ rw e (rw h (any-applicable p rows h))
  | inr e ↦ rw e (rw (any-applicable p rows h) refl)
]

none_applicable_at :
    (a : Assessment) (rows : List Assessment) (s : Status)
    → a.status ≡ s
    → eqb (length (applicable_rows rows)) 0
      ≡ not (
          any (has_status is_pass) rows
          || any (has_status is_fail) rows
          || any (has_status is_unknown) rows)
    → eqb (length (applicable_rows (a ∷ rows))) 0
      ≡ not (
          any (has_status is_pass) (a ∷ rows)
          || any (has_status is_fail) (a ∷ rows)
          || any (has_status is_unknown) (a ∷ rows))
none_applicable_at a rows pass e h = rw e (ground arith)
none_applicable_at a rows fail e h = rw e (ground arith)
none_applicable_at a rows unknown e h = rw e (ground arith)
none_applicable_at a rows not_applicable e h = rw e h

-- Each row that applies passes, fails or is unknown.
none_applicable :
    (rows : List Assessment)
    → eqb (length (applicable_rows rows)) 0
      ≡ not (
          any (has_status is_pass) rows
          || any (has_status is_fail) rows
          || any (has_status is_unknown) rows)
none_applicable [] = refl
none_applicable (a ∷ rows) = none_applicable_at a rows a.status refl (none_applicable rows)

worst_case-any :
    (rows : List Assessment)
    → is_pass (worst_case rows) ≡ (
        any (has_status is_pass) rows
        && not (any (has_status is_fail) rows || any (has_status is_unknown) rows))
unfolding worst_case
worst_case-any rows =
    rw (none_applicable rows, any-applicable is_fail rows refl, any-applicable is_unknown rows refl)
      (ladder (any (has_status is_pass) rows) (any (has_status is_fail) rows)
        (any (has_status is_unknown) rows))

pass_iff : (s : Status) → (is_pass s ≡ true) ↔ (s ≡ pass)
pass_iff pass = (λ _. refl, λ _. refl)
pass_iff fail = (λ h. absurd (cc), λ h. absurd (cc))
pass_iff unknown = (λ h. absurd (cc), λ h. absurd (cc))
pass_iff not_applicable = (λ h. absurd (cc), λ h. absurd (cc))

clean_iff :
    (s : Status)
    → ((is_fail s ≡ false) × (is_unknown s ≡ false)) ↔ ((s ≡ pass) ⊎ (s ≡ not_applicable))
clean_iff pass = (λ _. inl refl, λ _. (refl, refl))
clean_iff fail = (λ h. absurd (cc), λ h. elim h [ inl e ↦ absurd (cc) | inr e ↦ absurd (cc) ])
clean_iff unknown = (λ h. absurd (cc), λ h. elim h [ inl e ↦ absurd (cc) | inr e ↦ absurd (cc) ])
clean_iff not_applicable = (λ _. inr refl, λ _. (refl, refl))

IsPassing-iff :
    (rows : List Assessment) → (any (has_status is_pass) rows ≡ true) ↔ AnyOf IsPassing rows
IsPassing-iff rows =
    let found = any-AnyOf (has_status is_pass) rows in
    (
      λ h.
          AnyOf-map (λ a. is_pass a.status ≡ true) IsPassing (λ a. (pass_iff a.status).0) rows
            (found.0 h),
      λ h.
          found.1 (
            AnyOf-map IsPassing (λ a. is_pass a.status ≡ true) (λ a. (pass_iff a.status).1) rows h),
    )

all-IsClean_iff :
    (rows : List Assessment)
    → ((any (has_status is_fail) rows ≡ false) × (any (has_status is_unknown) rows ≡ false))
      ↔ AllOf IsClean rows
all-IsClean_iff [] = (λ _. tt, λ _. (refl, refl))
all-IsClean_iff (a ∷ rows) =
    let rest = all-IsClean_iff rows in
    let here = clean_iff a.status in
    (
      λ (f, u). (here.0 (ground arith, ground arith), rest.0 (ground arith, ground arith)),
      λ (c, cs). let (f, u) = here.1 c in let (fs, us) = rest.1 cs in (ground arith, ground arith),
    )

-- The worst of the rows passes if one passes and each passes or does not apply.
worst_case_exact :
    (rows : List Assessment)
    → (is_pass (worst_case rows) ≡ true) ↔ (AnyOf IsPassing rows × AllOf IsClean rows)
worst_case_exact rows =
    let shape = worst_case-any rows in
    let some_pass = IsPassing-iff rows in
    let clean = all-IsClean_iff rows in
    (
      λ h. (some_pass.0 (ground arith), clean.0 (ground arith, ground arith)),
      λ (p, c). let (f, u) = clean.1 c in let q = some_pass.1 p in ground arith,
    )

-- A control's evidence: some row of it passes, and each of its rows passes or does not apply.
abbrev pub IsEvidenced : List Assessment → String → Type 0
IsEvidenced assessments id =
    AnyOf (λ a. (is_of id a ≡ true) × IsPassing a) assessments
    × AllOf (λ a. is_of id a ≡ true → IsClean a) assessments

pub passes_exact :
    (assessments : List Assessment) (id : String)
    → (passes (rollup_by_control assessments) id ≡ true) ↔ IsEvidenced assessments id
passes_exact assessments id =
    let exact = worst_case_exact (select (is_of id) assessments) in
    let clean = AllOf-select (is_of id) IsClean assessments in
    rw (passes-worst assessments id) (
      λ h. let (p, c) = exact.0 h in (AnyOf-selected (is_of id) IsPassing assessments p, clean.0 c),
      λ (p, c). exact.1 (AnyOf-select (is_of id) IsPassing assessments p, clean.1 c),
    )
