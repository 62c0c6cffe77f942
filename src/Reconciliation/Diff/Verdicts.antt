-- ===== src/Reconciliation/Diff/Verdicts.antt =====
-- arcanium/api/src/reconciliation/diff.js: what each comparator answers.
use arcanium.Prelude.{
  ℕ, ◌+◌, ◌-◌, ◌*◌, ◌/◌, ◌≤◌, ◌<◌, String, ◌≡◌, refl, ◌≢◌, ◌↔◌, ◌⊎◌, inl, inr, true, false, Option,
  none, some, arith, ◌==◌, eq_iff, ltb, Bool-cases,
}
use arcanium.Reconciliation.Json.{Json, num, deep_equal, deep_equal_iff, get_field}
use arcanium.Reconciliation.Diff.{
  Observed, compare, compare_rotation_period, compare_expiry_date, finite, is_false, same_days,
  is_overdue, truthy_text, instant, today_of, deadline_of, approaching_expiry_days, ms_per_day,
}

-- The generic comparator answers UNKNOWN exactly for an unknown observation, and otherwise COMPLIANT
-- exactly if the two values are the same.
pub compare_exact :
    (desired : Json) (observed : Observed)
    → ((compare desired observed).status ≡ "UNKNOWN" ↔ observed.status ≡ "UNKNOWN")
      × ((compare desired observed).status ≡ "COMPLIANT"
          ↔ ((observed.status ≢ "UNKNOWN") × (desired ≡ observed.value)))
unfolding compare
compare_exact desired observed = elim (Bool-cases (observed.status == "UNKNOWN")) [
  | inl u ↦ rw u (ground (arith, eq_iff observed.status "UNKNOWN", eq_iff "COMPLIANT" "UNKNOWN"))
  | inr u ↦ rw u (elim (Bool-cases (deep_equal desired observed.value)) [
    | inl e ↦ rw e (
        ground (
          arith,
          u,
          eq_iff observed.status "UNKNOWN",
          deep_equal_iff desired observed.value,
          eq_iff "COMPLIANT" "UNKNOWN",
        ))
    | inr e ↦ rw e (
        ground (
          arith,
          u,
          eq_iff observed.status "UNKNOWN",
          deep_equal_iff desired observed.value,
          eq_iff "DRIFTED" "UNKNOWN",
          eq_iff "DRIFTED" "COMPLIANT",
        ))
  ])
]

same_days_iff : (v : Option Json) (days : ℕ) → (same_days v days ≡ true) ↔ (finite v ≡ some days)
same_days_iff none days = ground arith
same_days_iff (some (num n)) days = ground arith
same_days_iff (some _) days = ground arith

differs : (s t : String) → s ≢ t → (s == t) ≡ false
differs s t h = ground (arith, eq_iff s t)

drifts_exclusive :
    (s : String) → (s ≡ "DRIFTED") ⊎ (s ≡ "COMPLIANT") → (s ≢ "DRIFTED") ↔ (s ≡ "COMPLIANT")
drifts_exclusive s either = ground (arith, either, eq_iff "COMPLIANT" "DRIFTED")

module _ (parse_date : String → Option ℕ) (now : ℕ) where
  -- Older than the period and a day, at a known time.
  abbrev IsLate : ℕ → Option ℕ → Type 0
  IsLate days created = (at : ℕ) × (created ≡ some at) × ((days + 1) * 86400000 + at < now)

  overdue-IsLate :
      (days : ℕ) (created : Option ℕ)
      → (is_overdue parse_date now days created ≡ true) ↔ IsLate days created
  overdue-IsLate days none = (λ h. absurd (cc), λ (at, e, h). absurd (cc))
  overdue-IsLate days (some c) = (
    λ h. (c, refl, ground arith),
    λ (at, e, h).
        let same : c ≡ at = cc in
        let late : (days + 1) * 86400000 + c < now = rw same h in ground arith,
  )

  rotation_overdue :
      (desired : Json) (observed : Observed) (days : ℕ)
      → observed.status ≢ "UNKNOWN"
      → finite (get_field desired "days") ≡ some days
      → ((compare_rotation_period parse_date now desired observed).status ≡ "DRIFTED") ↔ (
          (is_false (get_field observed.value "active") ≡ false)
          × ((finite (get_field observed.value "days") ≢ some days)
              ⊎ (is_overdue parse_date now days (
                    instant parse_date now
                      (truthy_text (get_field observed.value "latest_version_creation_time")))
                  ≡ true)))
  unfolding compare_rotation_period
  rotation_overdue desired observed days known d =
      let value = observed.value in
      let created =
        instant parse_date now (truthy_text (get_field value "latest_version_creation_time")) in
      let same = same_days_iff (get_field value "days") days in
      rw (differs observed.status "UNKNOWN" known, d)
        (elim (Bool-cases (is_false (get_field value "active"))) [
          | inl gone ↦ rw gone (ground (arith, eq_iff "COMPLIANT" "DRIFTED"))
          | inr gone ↦ rw gone (elim (Bool-cases (same_days (get_field value "days") days)) [
            | inr other ↦ rw other (ground (arith, same, other))
            | inl same_ ↦ rw same_ (elim (Bool-cases (is_overdue parse_date now days created)) [
              | inl late ↦ rw late (ground (arith, same, same_))
              | inr late ↦ rw late (ground (arith, same, same_, eq_iff "COMPLIANT" "DRIFTED"))
            ])
          ])
        ])

  rotation_drifts_or_complies :
      (desired : Json) (observed : Observed) (days : ℕ)
      → observed.status ≢ "UNKNOWN"
      → finite (get_field desired "days") ≡ some days
      → let status = (compare_rotation_period parse_date now desired observed).status in
        (status ≡ "DRIFTED") ⊎ (status ≡ "COMPLIANT")
  unfolding compare_rotation_period
  rotation_drifts_or_complies desired observed days known d =
      let value = observed.value in
      let created =
        instant parse_date now (truthy_text (get_field value "latest_version_creation_time")) in
      rw (differs observed.status "UNKNOWN" known, d)
        (elim (Bool-cases (is_false (get_field value "active"))) [
          | inl gone ↦ rw gone (inr refl)
          | inr here ↦ rw here (elim (Bool-cases (same_days (get_field value "days") days)) [
            | inr other ↦ rw other (inl refl)
            | inl same ↦ rw same (elim (Bool-cases (is_overdue parse_date now days created)) [
              | inl late ↦ rw late (inl refl)
              | inr early ↦ rw early (inr refl)
            ])
          ])
        ])

  -- A key with a configured rotation of so many days drifts exactly if it is not known to be gone, and
  -- either another period was read, or its latest version was created, at a time that the parser of
  -- dates reads, more than the period and one day, in milliseconds, before now. A key that is known to
  -- be gone, and every other key, is compliant.
  pub rotation_exact :
      (desired : Json) (observed : Observed) (days : ℕ)
      → observed.status ≢ "UNKNOWN"
      → finite (get_field desired "days") ≡ some days
      → (((compare_rotation_period parse_date now desired observed).status ≡ "DRIFTED") ↔ (
          (is_false (get_field observed.value "active") ≡ false)
          × ((finite (get_field observed.value "days") ≢ some days)
              ⊎ ((created : ℕ) × (instant parse_date now
                      (truthy_text (get_field observed.value "latest_version_creation_time"))
                    ≡ some created)
                  × ((days + 1) * 86400000 + created < now)))))
        × (((compare_rotation_period parse_date now desired observed).status ≢ "DRIFTED")
            ↔ ((compare_rotation_period parse_date now desired observed).status ≡ "COMPLIANT"))
  rotation_exact desired observed days known d =
      let verdict = compare_rotation_period parse_date now desired observed in
      let created =
        instant parse_date now
          (truthy_text (get_field observed.value "latest_version_creation_time")) in
      let drifts = rotation_overdue desired observed days known d in
      let late = overdue-IsLate days created in
      (
        (
          λ h.
              let (here, why) = drifts.0 h in
              (here, elim why [ inl other ↦ inl other | inr old ↦ inr (late.0 old) ]),
          λ (here, why).
              drifts.1 (here, elim why [ inl other ↦ inl other | inr old ↦ inr (late.1 old) ]),
        ),
        drifts_exclusive verdict.status (rotation_drifts_or_complies desired observed days known d),
      )

  -- A key with a date of expiry drifts exactly if it is not known to be gone and that day's first
  -- moment has passed; otherwise it is compliant, and flagged as approaching expiry exactly if not
  -- known to be gone and at most 14 whole days are left.
  pub expiry_exact :
      (desired : Json) (observed : Observed) (not_after : String) (today deadline : ℕ)
      → observed.status ≢ "UNKNOWN"
      → truthy_text (get_field desired "not_after") ≡ some not_after
      → today_of parse_date now (get_field observed.value "observed_date") ≡ some today
      → deadline_of parse_date now not_after ≡ some deadline
      → let verdict = compare_expiry_date parse_date now desired observed in
        let gone = is_false (get_field observed.value "active") in
        ((verdict.status ≡ "DRIFTED") ↔ ((gone ≡ false) × (deadline < today)))
        × ((verdict.status ≢ "DRIFTED") ↔ (verdict.status ≡ "COMPLIANT"))
        × ((verdict.approaching_expiry ≡ true) ↔ (
            (gone ≡ false)
            × (today ≤ deadline)
            × ((deadline - today) / ms_per_day ≤ approaching_expiry_days)))
  unfolding compare_expiry_date
  expiry_exact desired observed not_after today deadline known d t e =
      rw (differs observed.status "UNKNOWN" known, d, t, e)
        (elim (Bool-cases (is_false (get_field observed.value "active"))) [
          | inl gone ↦ rw gone (ground (arith, eq_iff "COMPLIANT" "DRIFTED"))
          | inr gone ↦ rw gone (elim (Bool-cases (ltb deadline today)) [
            | inl past ↦ rw past (ground (arith, past, eq_iff "COMPLIANT" "DRIFTED"))
            | inr past ↦ rw past (ground (arith, past, eq_iff "COMPLIANT" "DRIFTED"))
          ])
        ])
