-- ===== src/Reconciliation/Governing/Swept.antt =====
-- arcanium/api/src/routes/reconciliation.js, POST /run with `runSweep` of reconciliation/engine.js: a
-- sweep that a caller asks for stays among the tenants that the caller sees.
use mathlib.Core.Path.{subst}
use arcanium.Prelude.{
  ℕ, String, ◌≡◌, refl, sym, ap, ◌⊎◌, inl, inr, true, false, Option, none, some, List, [], ◌∷◌,
  arith, eqb, Bool-cases, select, AnyOf, AllOf, AnyOf-map, AnyOf-selected, AllOf-map,
}
use arcanium.Auth.Authorize.{authorize}
use arcanium.Auth.Scope.{tenant_scope}
use arcanium.Reconciliation.Engine.{
  Row, RunRow, Db, Outcome, returns, throws, Outside, sweep_row, observe, compare_for, run_sweep,
  one_row, of_suppliers, is_among, is_chosen, desired_state_rows_for,
}
use arcanium.Reconciliation.Engine.Actions.{answered, find_row}
use arcanium.Reconciliation.Engine.Events.{record_run-returned}
use arcanium.Reconciliation.Engine.Governance.{find_row-id}
use arcanium.Reconciliation.Declaring.{is_outside, Caller}
use arcanium.Reconciliation.Governing.{
  read_anywhere, if_allowed, intent_id, malformed_id, all_intents, passed, Target, swept, run_route,
  Estate,
}
use arcanium.Reconciliation.Governing.Permitted.{if_owned_iff, if_allowed_iff, some_row_same}

-- A run observes an intent of one of those rows.
abbrev Observes : List Row → RunRow → Type 0
Observes rows run = AnyOf (λ row. run.desired_state_id ≡ row.id) rows

returned_same : {A : Type 0} → (x y : A) → returns x ≡ returns y → x ≡ y
returned_same x y e = cc

Outcome-cases :
    {A : Type 0}
    → (o : Outcome A) → ((message : String) × (o ≡ throws message)) ⊎ ((x : A) × (o ≡ returns x))
Outcome-cases (throws message) = inl (message, refl)
Outcome-cases (returns x) = inr (x, refl)

module _ (parse_date : String → Option ℕ) {W : Type 0} (outside : Outside W) where
  sweep_row-id :
      (row : Row) (w : W) (now : ℕ) (db db' : Db) (run : RunRow)
      → sweep_row parse_date outside row w now db ≡ returns (run, db')
      → run.desired_state_id ≡ row.id
  sweep_row-id row w now db db' run h =
      let observed = observe parse_date outside row w in
      let compared = compare_for parse_date outside now row observed in
      ap (λ r. r.desired_state_id) (record_run-returned row observed compared now db run db' h).0

  -- The three ways of a sweep of one more row.
  sweep_stopped :
      (row : Row) (rows : List Row) (w : W) (now : ℕ) (db : Db) (message : String)
      → sweep_row parse_date outside row w now db ≡ throws message
      → run_sweep parse_date outside (row ∷ rows) w now db ≡ throws message
  unfolding run_sweep
  sweep_stopped row rows w now db message e = ground (arith, e)

  sweep_broken :
      (row : Row) (rows : List Row) (w : W) (now : ℕ) (db db₁ : Db) (run : RunRow)
      (message : String)
      → sweep_row parse_date outside row w now db ≡ returns (run, db₁)
      → run_sweep parse_date outside rows w now db₁ ≡ throws message
      → run_sweep parse_date outside (row ∷ rows) w now db ≡ throws message
  unfolding run_sweep
  sweep_broken row rows w now db db₁ run message e f = ground (arith, e, f)

  sweep_ended :
      (row : Row) (rows : List Row) (w : W) (now : ℕ) (db db₁ db₂ : Db) (run : RunRow)
      (rest : List RunRow)
      → sweep_row parse_date outside row w now db ≡ returns (run, db₁)
      → run_sweep parse_date outside rows w now db₁ ≡ returns (rest, db₂)
      → run_sweep parse_date outside (row ∷ rows) w now db ≡ returns (run ∷ rest, db₂)
  unfolding run_sweep
  sweep_ended row rows w now db db₁ db₂ run rest e f = ground (arith, e, f)

  -- Each run of a sweep observes a row that was swept.
  sweep-Observes :
      (rows : List Row) (w : W) (now : ℕ) (db db' : Db) (runs : List RunRow)
      → run_sweep parse_date outside rows w now db ≡ returns (runs, db')
      → AllOf (Observes rows) runs
  unfolding run_sweep
  sweep-Observes [] w now db db' runs = λ e.
      let same : [] ≡ runs = ap (λ x. x.0) (returned_same ([], db) (runs, db') e) in
      subst (λ rs. AllOf (Observes []) rs) same tt
  sweep-Observes (row ∷ rows) w now db db' runs =
      elim (Outcome-cases (sweep_row parse_date outside row w now db)) [
        | inl (message, e) ↦ rw (sweep_stopped row rows w now db message e) (λ f. absurd (cc))
        | inr ((run, db₁), e) ↦
            let first = sweep_row-id row w now db db₁ run e in
            elim (Outcome-cases (run_sweep parse_date outside rows w now db₁)) [
              | inl (message, e₁) ↦
                  rw (sweep_broken row rows w now db db₁ run message e e₁) (λ f. absurd (cc))
              | inr ((rest, db₂), e₁) ↦
                  let later =
                    AllOf-map (Observes rows) (Observes (row ∷ rows)) (λ r o. inr o) rest
                      (sweep-Observes rows w now db₁ db₂ rest e₁) in
                  rw (sweep_ended row rows w now db db₁ db₂ run rest e e₁) (λ f.
                    let same = ap (λ x. x.0) (returned_same (run ∷ rest, db₂) (runs, db') f) in
                    subst (λ rs. AllOf (Observes (row ∷ rows)) rs) same (inl first, later))
            ]
      ]

find_row-held :
    (id : ℕ) (rows : List Row) (row : Row) → find_row id rows ≡ some row → AnyOf (λ r. r ≡ row) rows
find_row-held id [] row e = absurd (cc)
find_row-held id (r ∷ rows) row e = elim (Bool-cases (eqb r.id id)) [
  | inl h ↦ inl (some_row_same r row (rw h at e))
  | inr h ↦ inr (find_row-held id rows row (rw h at e))
]

-- Inside a scope is among its suppliers.
inside_among :
    (ids : List String) (supplier : Option String)
    → is_outside (some ids) supplier ≡ false
    → is_among supplier ids ≡ true
inside_among ids none h = absurd (cc)
inside_among ids (some id) h = ground arith

-- An intent of a supplier of that scope.
abbrev pub IsInScope : List String → List Row → RunRow → Type 0
IsInScope ids rows run =
    AnyOf (λ row. (is_among row.supplier_id ids ≡ true) × (run.desired_state_id ≡ row.id)) rows

swept_returns :
    (o : Outcome (List RunRow × Db)) (x : List RunRow × Db) → swept o ≡ answered x → o ≡ returns x
swept_returns (returns y) x h = cc
swept_returns (throws message) x h = absurd (cc)

chosen_id :
    (id own : ℕ)
    → own ≡ id
    → (rows : List Row) (d : ℕ) → AnyOf (λ r. (is_chosen (one_row id) r ≡ true) × (d ≡ r.id)) rows
    → d ≡ own
chosen_id id own o [] d h = absurd h
chosen_id id own o (r ∷ rows) d (inl (e, q)) = ground arith
chosen_id id own o (r ∷ rows) d (inr h) = chosen_id id own o rows d h

module _ (parse_date : String → Option ℕ) {W : Type 0} (outside : Outside W) where
  chosen-IsInScope :
      (ids : List String) (rows : List Row) (w : W) (now : ℕ) (db db' : Db) (runs : List RunRow)
      → run_sweep parse_date outside (desired_state_rows_for (of_suppliers ids) rows) w now db
        ≡ returns (runs, db')
      → AllOf (IsInScope ids rows) runs
  unfolding desired_state_rows_for
  chosen-IsInScope ids rows w now db db' runs h =
      let p = is_chosen (of_suppliers ids) in
      AllOf-map (Observes (select p rows)) (IsInScope ids rows)
        (λ run o. AnyOf-selected p (λ row. run.desired_state_id ≡ row.id) rows o) runs
        (sweep-Observes parse_date outside (select p rows) w now db db' runs h)

  one-IsInScope :
      (ids : List String) (rows : List Row) (row : Row) (id : ℕ) (w : W) (now : ℕ) (db db' : Db)
      (runs : List RunRow)
      → find_row id rows ≡ some row
      → is_among row.supplier_id ids ≡ true
      → run_sweep parse_date outside (desired_state_rows_for (one_row id) rows) w now db
        ≡ returns (runs, db')
      → AllOf (IsInScope ids rows) runs
  unfolding desired_state_rows_for
  one-IsInScope ids rows row id w now db db' runs found mine h =
      let p = is_chosen (one_row id) in
      let own = find_row-id id rows row found in
      AllOf-map (Observes (select p rows)) (IsInScope ids rows)
        (λ run o.
          let same : run.desired_state_id ≡ row.id =
            chosen_id id row.id own rows run.desired_state_id
              (AnyOf-selected p (λ r. run.desired_state_id ≡ r.id) rows o) in
          AnyOf-map (λ r. r ≡ row)
            (λ r. (is_among r.supplier_id ids ≡ true) × (run.desired_state_id ≡ r.id))
            (λ r e.
              subst (λ x. (is_among x.supplier_id ids ≡ true) × (run.desired_state_id ≡ x.id))
                (sym e) (mine, same))
            rows (find_row-held id rows row found))
        runs (sweep-Observes parse_date outside (select p rows) w now db db' runs h)

  -- Where a caller's scope is limited to some suppliers, every run that POST /run answers, whether for
  -- one intent or for all, observes an intent of one of those suppliers.
  pub sweeps_stay-IsInScope :
      (caller : Caller) (target : Target) (e : Estate) (w : W) (now : ℕ) (db db' : Db)
      (ids : List String) (runs : List RunRow)
      → tenant_scope e.suppliers caller.identity ≡ some ids
      → run_route parse_date outside caller target e w now db ≡ passed (answered (runs, db'))
      → AllOf (IsInScope ids e.rows) runs
  unfolding run_route
  sweeps_stay-IsInScope caller malformed_id e w now db db' ids runs scope h = absurd (cc)
  sweeps_stay-IsInScope caller (intent_id id) e w now db db' ids runs scope h =
      let chosen = desired_state_rows_for (one_row id) e.rows in
      let next = swept (run_sweep parse_date outside chosen w now db) in
      let ((row, found, (inside, may)), rest) =
        (if_owned_iff caller "read" (find_row id e.rows) e next (runs, db')).0 h in
      one-IsInScope ids e.rows row id w now db db' runs found
        (inside_among ids row.supplier_id (rw (← scope) inside))
        (swept_returns (run_sweep parse_date outside chosen w now db) (runs, db') rest)
  sweeps_stay-IsInScope caller all_intents e w now db db' ids runs scope h =
      let chosen = desired_state_rows_for (of_suppliers ids) e.rows in
      let sweep = swept (run_sweep parse_date outside chosen w now db) in
      let h₁ : if_allowed (authorize caller.identity read_anywhere) sweep
          ≡ passed (answered (runs, db')) =
        rw scope at h in
      let (may, rest) =
        (if_allowed_iff (authorize caller.identity read_anywhere) sweep (runs, db')).0 h₁ in
      chosen-IsInScope ids e.rows w now db db' runs
        (swept_returns (run_sweep parse_date outside chosen w now db) (runs, db') rest)
