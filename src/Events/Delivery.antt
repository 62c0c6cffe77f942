-- ===== src/Events/Delivery.antt =====
-- arcanium/api/src/events/deliver.js and emit.js: the attempts of a delivery, with what each decrypt,
-- POST and UPDATE does as an answer, and the fan-out of an event. The delays are left out.
pub mod Attempts
pub mod Fanout
use arcanium.Prelude.{
  ℕ, zero, suc, ◌+◌, ◌-◌, ◌*◌, ◌/◌, ◌≤◌, ◌<◌, String, ◌≡◌, refl, sym, ap, ◌∙◌, ◌≢◌, ◌↔◌, ◌⊎◌, inl,
  inr, Bool, true, false, not, ◌&&◌, ◌||◌, Option, none, some, List, [], ◌∷◌, ◌++◌, map, arith,
  ◌==◌, eq_iff, eq_refl, ltb, leb, eqb, if◌then◌else◌, Bool-cases, Option-cases, is_some,
  or_default, truthy, length, select, any, all, first?, last?, length-append, length-select-le,
  includes, AnyOf, AllOf, agree, all-includes, includes-AnyOf, AnyOf-includes, AnyOf-map,
  AnyOf-map_all, AnyOf-elim, AllOf-select, AnyOf-select, AnyOf-selected, all-AllOf, any-AnyOf,
  AllOf-iff, ◌<|>◌, first_match, first_match-AnyOf, AnyOf-first_match, first_match-result,
}

-- A row of webhook_deliveries.
pub record Delivery : Type 0 where
  pub id : ℕ
  pub endpoint_id : ℕ
  pub event : String
  pub payload_hash : String
  pub attempt_count : ℕ
  pub http_status : Option ℕ
  pub delivered_at : Option ℕ
  pub failed_at : Option ℕ

-- What the secret's decryption and the POST give: the response's status with its `ok`, or a throw.
pub data Response : Type 0 where
  response : Bool → ℕ → Response
  threw : Response

-- The outside of one attempt: the response, and whether the UPDATEs behind it go through, that of
-- the delivered row and that of the count.
pub record Round : Type 0 where
  pub reply : Response
  pub marks : Bool
  pub counts : Bool

abbrev pub max_attempts : ℕ
max_attempts = 3

abbrev pub mark_delivered : ℕ → ℕ → ℕ → Delivery → Delivery
mark_delivered status attempt now d = record d {
  http_status = some status;
  delivered_at = some now;
  attempt_count = attempt;
}

abbrev pub count_attempt : ℕ → Delivery → Delivery
count_attempt attempt d = record d { attempt_count = attempt }

abbrev pub mark_failed : Option ℕ → ℕ → Delivery → Delivery
mark_failed last_status now d = record d { http_status = last_status; failed_at = some now }

-- How an attempt leaves the loop's body, or goes on.
pub data Outcome : Type 0 where
  delivered : Delivery → Outcome
  -- the response's status, if there was one; it replaces the last
  unsuccessful : Option ℕ → Outcome

-- The `try` block. An UPDATE that throws behind a successful POST is caught too.
abbrev pub settle_reply : Response → Bool → ℕ → ℕ → Option ℕ → Delivery → Outcome
settle_reply threw marks attempt now last_status d = unsuccessful last_status
settle_reply (response ok status) marks attempt now last_status d =
    if ok && marks
    then delivered (mark_delivered status attempt now d)
    else unsuccessful (some status)

unfoldable pub try_once : Round → ℕ → ℕ → Option ℕ → Delivery → Outcome
try_once r attempt now last_status d = settle_reply r.reply r.marks attempt now last_status d

-- The row at the end, how many POSTs were answered, and whether an UPDATE's error left the loop.
pub record Ended : Type 0 where
  pub row : Delivery
  pub posts : ℕ
  pub raised : Bool

abbrev pub is_answered : Response → ℕ
is_answered (response _ _) = 1
is_answered threw = 0

-- Behind the `try` block: the count is written, and its error leaves the loop.
abbrev settle_attempt : Bool → ℕ → Delivery → Outcome → (Option ℕ → Ended) → Ended
settle_attempt counts posts d (delivered row) go_on = record {
  row = row;
  posts = posts;
  raised = false;
}
settle_attempt counts posts d (unsuccessful status) go_on =
    if counts then go_on status else record { row = d; posts = posts; raised = true }

-- `finalizes` is whether the last UPDATE goes through; its error is caught.
module _ (round : ℕ → Round) (now : ℕ) (finalizes : Bool) where
  abbrev pub last_write : Option ℕ → Delivery → Delivery
  last_write last_status d = if finalizes then mark_failed last_status now d else d

  -- The loop, with `left` attempts to make behind the `made` ones.
  unfoldable pub attempt_from : ℕ → ℕ → ℕ → Option ℕ → Delivery → Ended
  attempt_from zero made posts last_status d = record {
    row = last_write last_status d;
    posts = posts;
    raised = false;
  }
  attempt_from (suc left) made posts last_status d =
      let attempt = suc made in
      let r = round attempt in
      let count = posts + is_answered r.reply in
      settle_attempt r.counts count d (try_once r attempt now last_status d)
        (λ status. attempt_from left attempt count status (count_attempt attempt d))

  unfoldable pub attempt_delivery : Delivery → Ended
  attempt_delivery d = attempt_from max_attempts 0 0 none d
