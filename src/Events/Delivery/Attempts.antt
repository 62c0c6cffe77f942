-- ===== src/Events/Delivery/Attempts.antt =====
-- arcanium/api/src/events/deliver.js: how a delivery ends.
use arcanium.Prelude.{
  ℕ, zero, suc, ◌+◌, ◌-◌, ◌≤◌, ◌<◌, ◌≡◌, refl, ap, ◌⊎◌, inl, inr, Bool, true, false, ◌&&◌, Option,
  none, some, arith, eqb, Bool-cases,
}
use mathlib.Core.Path.{subst}
use arcanium.Events.Delivery.{
  settle_attempt, delivered, unsuccessful, is_answered, settle_reply, Delivery, Response, response,
  threw, Round, Ended, mark_delivered, count_attempt, last_write, try_once, attempt_from,
  attempt_delivery,
}

-- A POST that is answered with a status of success, and marked so.
abbrev pub Succeeds : Round → ℕ → Type 0
Succeeds r status = (r.reply ≡ response true status) × (r.marks ≡ true)

abbrev succeeding : Response → Bool → Bool
succeeding (response ok _) marks = ok && marks
succeeding threw marks = false

abbrev pub is_success : Round → Bool
is_success r = succeeding r.reply r.marks

success_at :
    (r : Round) (reply : Response)
    → r.reply ≡ reply
    → succeeding reply r.marks ≡ true
    → (status : ℕ) × Succeeds r status
success_at r (response true status) e h = (status, (e, ground arith))
success_at r (response false status) e h = absurd (cc)
success_at r threw e h = absurd (cc)

try_once-delivered :
    (r : Round) (attempt now : ℕ) (last : Option ℕ) (d : Delivery) (status : ℕ)
    → Succeeds r status
    → try_once r attempt now last d ≡ delivered (mark_delivered status attempt now d)
unfolding try_once
try_once-delivered r attempt now last d status (reply, marks) = rw (reply, marks) refl

unsuccessful_at :
    (reply : Response) (marks : Bool) (attempt now : ℕ) (last : Option ℕ) (d : Delivery)
    → succeeding reply marks ≡ false
    → (status : Option ℕ) × (settle_reply reply marks attempt now last d ≡ unsuccessful status)
unsuccessful_at threw marks attempt now last d h = (last, refl)
unsuccessful_at (response ok status) marks attempt now last d h = (some status, rw h refl)

try_once-unsuccessful :
    (r : Round) (attempt now : ℕ) (last : Option ℕ) (d : Delivery)
    → is_success r ≡ false
    → (status : Option ℕ) × (try_once r attempt now last d ≡ unsuccessful status)
unfolding try_once
try_once-unsuccessful r attempt now last d h = unsuccessful_at r.reply r.marks attempt now last d h

next_is : (j made : ℕ) → eqb j (suc made) ≡ true → suc made ≡ j
next_is j made h = ground arith

same_count : (d : Delivery) (n : ℕ) → d.attempt_count ≡ n → d ≡ count_attempt n d
same_count d n e = rw (← e) refl

module _ (round : ℕ → Round) (now : ℕ) (finalizes : Bool) where
  -- No attempt behind `from` and before `until` succeeds.
  abbrev pub NoneSucceeds : ℕ → ℕ → Type 0
  NoneSucceeds from until = (j : ℕ) → from < j → j < until → is_success (round j) ≡ false

  -- The count is written behind each attempt behind `from` and before `until`.
  abbrev pub AllCounted : ℕ → ℕ → Type 0
  AllCounted from until = (j : ℕ) → from < j → j < until → (round j).counts ≡ true

  -- The three ends of the attempts `from + 1` to `until`: the first that succeeds marks the row; none
  -- does, and the row is marked as failed; the count cannot be written behind one that does not, the
  -- first of which that holds.
  abbrev pub IsDelivered : ℕ → ℕ → Delivery → Ended → Type 0
  IsDelivered from until d e =
      (k : ℕ) × (status : ℕ) × (from < k)
      × (k ≤ until)
      × Succeeds (round k) status
      × NoneSucceeds from k
      × AllCounted from k
      × (e.row ≡ mark_delivered status k now d)
      × (e.raised ≡ false)

  abbrev pub IsFailed : ℕ → ℕ → Delivery → Ended → Type 0
  IsFailed from until d e =
      (last : Option ℕ) × NoneSucceeds from (suc until)
      × AllCounted from (suc until)
      × (e.row ≡ last_write round now finalizes last (count_attempt until d))
      × (e.raised ≡ false)

  abbrev pub IsAbandoned : ℕ → ℕ → Delivery → Ended → Type 0
  IsAbandoned from until d e =
      (k : ℕ) × (from < k)
      × (k ≤ until)
      × ((round k).counts ≡ false)
      × NoneSucceeds from (suc k)
      × AllCounted from k
      × (e.row ≡ count_attempt (k - 1) d)
      × (e.raised ≡ true)

  abbrev pub IsEnd : ℕ → ℕ → Delivery → Ended → Type 0
  IsEnd from until d e =
      IsDelivered from until d e ⊎ IsFailed from until d e ⊎ IsAbandoned from until d e

  none_before : (n : ℕ) → NoneSucceeds n (suc n)
  none_before n j l u = absurd (omega arith)

  none_extended :
      (made until : ℕ)
      → is_success (round (suc made)) ≡ false
      → NoneSucceeds (suc made) until
      → NoneSucceeds made until
  none_extended made until failing rest j l u = elim (Bool-cases (eqb j (suc made))) [
    | inl same ↦ subst (λ n. is_success (round n) ≡ false) (next_is j made same) failing
    | inr other ↦ rest j (ground arith) u
  ]

  all_counted : (n : ℕ) → AllCounted n (suc n)
  all_counted n j l u = absurd (omega arith)

  counted_extended :
      (made until : ℕ)
      → (round (suc made)).counts ≡ true
      → AllCounted (suc made) until
      → AllCounted made until
  counted_extended made until wrote rest j l u = elim (Bool-cases (eqb j (suc made))) [
    | inl same ↦ subst (λ n. (round n).counts ≡ true) (next_is j made same) wrote
    | inr other ↦ rest j (ground arith) u
  ]

  -- An attempt without success before them, behind which the count is written, does not change how the others end.
  IsEnd-extended :
      (made until : ℕ) (d : Delivery) (e : Ended)
      → is_success (round (suc made)) ≡ false
      → (round (suc made)).counts ≡ true
      → IsEnd (suc made) until (count_attempt (suc made) d) e
      → IsEnd made until d e
  IsEnd-extended made until d e failing wrote
        (inl (k, status, l, u, ok, none_in, counted, row, calm)) =
      let none_of = none_extended made k failing none_in in
      let all_of = counted_extended made k wrote counted in
      inl (k, status, omega arith, u, ok, none_of, all_of, row, calm)
  IsEnd-extended made until d e failing wrote (inr (inl (last, none_in, counted, row, calm))) =
      let none_of = none_extended made (suc until) failing none_in in
      let all_of = counted_extended made (suc until) wrote counted in
      inr (inl (last, none_of, all_of, row, calm))
  IsEnd-extended made until d e failing wrote
        (inr (inr (k, l, u, stuck, none_in, counted, row, err))) =
      let none_of = none_extended made (suc k) failing none_in in
      let all_of = counted_extended made k wrote counted in
      inr (inr (k, omega arith, u, stuck, none_of, all_of, row, err))

  -- Behind an attempt without success the loop goes on, or the count cannot be written.
  after_failure :
      (made until posts : ℕ) (d : Delivery) (status : Option ℕ) (go_on : Option ℕ → Ended)
      → made < until
      → d.attempt_count ≡ made
      → is_success (round (suc made)) ≡ false
      → IsEnd (suc made) until (count_attempt (suc made) d) (go_on status)
      → (counts : Bool) → (round (suc made)).counts ≡ counts
      → IsEnd made until d (settle_attempt counts posts d (unsuccessful status) go_on)
  after_failure made until posts d status go_on l e failing rest true wrote =
      IsEnd-extended made until d (go_on status) failing wrote rest
  after_failure made until posts d status go_on l e failing rest false stuck = inr (
      inr (
        suc made,
        omega arith,
        omega arith,
        stuck,
        none_extended made (suc (suc made)) failing (none_before (suc made)),
        all_counted made,
        same_count d (suc made - 1) (omega (arith, e)),
        refl,
      ))

  attempt_ends :
      (left made until posts : ℕ) (last : Option ℕ) (d : Delivery)
      → d.attempt_count ≡ made
      → until ≡ made + left
      → IsEnd made until d (attempt_from round now finalizes left made posts last d)
  unfolding attempt_from
  attempt_ends zero made until posts last d e sum =
      let same = same_count d until (omega (arith, e)) in
      inr (
        inl (
          last,
          λ j l u. absurd (omega arith),
          λ j l u. absurd (omega arith),
          ap (last_write round now finalizes last) same,
          refl,
        ))
  attempt_ends (suc left) made until posts last d e sum =
      elim (Bool-cases (is_success (round (suc made)))) [
        | inl passing ↦
            let (status, ok) =
              success_at (round (suc made)) (round (suc made)).reply refl passing in
            rw (try_once-delivered (round (suc made)) (suc made) now last d status ok) (
              inl (
                suc made,
                status,
                omega arith,
                omega arith,
                ok,
                none_before made,
                all_counted made,
                refl,
                refl,
              ))
        | inr failing ↦
            let (status, said) =
              try_once-unsuccessful (round (suc made)) (suc made) now last d failing in
            let count = posts + is_answered (round (suc made)).reply in
            rw said (
              after_failure made until count d status
                (λ last'.
                  attempt_from round now finalizes left (suc made) count last'
                    (count_attempt (suc made) d))
                (omega arith) e failing
                (attempt_ends left (suc made) until count status (count_attempt (suc made) d) refl
                  (omega arith))
                (round (suc made)).counts refl)
      ]

  -- A delivery of no attempts yet ends in one of three ways, which exclude each other. At the first of
  -- three attempts whose POST succeeds and whose row can be marked, where the count was written behind
  -- each attempt before it, the row is marked as delivered with the number of that attempt. If none of
  -- the three does and the count was written behind each, the row has attempt_count 3 and is marked as
  -- failed where that UPDATE goes through. At the first attempt behind which the count cannot be
  -- written, none up to it having succeeded, the error leaves the loop, and the row is as it was but
  -- for the count of the attempt before.
  pub delivery_ends :
      (d : Delivery) → d.attempt_count ≡ 0 → IsEnd 0 3 d (attempt_delivery round now finalizes d)
  unfolding attempt_delivery
  delivery_ends d e = attempt_ends 3 0 3 0 none d e refl
