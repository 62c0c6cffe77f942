-- ===== src/Maturity/Rounding.antt =====
-- `Math.round((evidenced / applicable) * 100)` of arcanium/api/src/maturity/controls.js, in doubles. A
-- double is a whole number of at most 53 bits over or times a power of two.
use native.Mathlib.Nat.{div-add-mod, mod-lt, mul-le-mul_left}
use arcanium.Prelude.{
  ℕ, zero, suc, ◌+◌, ◌*◌, ◌/◌, ◌≤◌, ◌<◌, ◌≡◌, inl, inr, arith, ltb, leb, if◌then◌else◌, Bool-cases,
}
use Prim.Native.Nat.{◌%◌, ◌^◌}

-- 2 ^ 52 and 2 ^ 53
abbrev pub least_mantissa : ℕ
least_mantissa = 4503599627370496

abbrev pub mantissa_end : ℕ
mantissa_end = 9007199254740992

-- n / d, rounded to the nearest whole number, and at a half to the even one.
unfoldable pub to_nearest_even : ℕ → ℕ → ℕ
to_nearest_even n d =
    let q = n / d in
    let r = n % d in if ltb (2 * r) d then q else if ltb d (2 * r) then q + 1 else q + q % 2

-- The power of two at which part / whole has 53 bits: doubled while it has fewer.
unfoldable pub quotient_scale : ℕ → ℕ → ℕ → ℕ → ℕ
quotient_scale zero part whole s = s
quotient_scale (suc fuel) part whole s =
    let rest = quotient_scale fuel part whole (2 * s) in
    if leb (least_mantissa * whole) (part * s) then s else rest

-- What the last bit of a product of at most 60 bits counts for: doubled while it has more than 53.
unfoldable pub product_unit : ℕ → ℕ → ℕ → ℕ
product_unit zero n u = u
product_unit (suc fuel) n u =
    let rest = product_unit fuel n (2 * u) in if ltb n (mantissa_end * u) then u else rest

-- The quotient, the product with 100, and `Math.round`, which is the floor of the number and a half. A
-- part of at most the whole, below 2 ^ 64, has its 53 bits at 2 ^ 52 or after at most 64 doublings.
unfoldable pub round_percent : ℕ → ℕ → ℕ
round_percent part whole =
    let s = quotient_scale 64 part whole least_mantissa in
    let q = to_nearest_even (part * s) whole in
    let u = product_unit 7 (100 * q) 1 in
    let p = to_nearest_even (100 * q) u in (2 * (p * u) + s) / (2 * s)

-- The three cases, of n = d * q + r.
near_down :
    (n d q r : ℕ)
    → d * q + r ≡ n
    → 2 * r ≤ d
    → (2 * (d * q) ≤ 2 * n + d) × (2 * n ≤ 2 * (d * q) + d)
near_down n d q r e h = (omega arith, omega arith)

near_up :
    (n d q r : ℕ)
    → d * q + r ≡ n
    → r < d
    → d ≤ 2 * r
    → (2 * (d * (q + 1)) ≤ 2 * n + d) × (2 * n ≤ 2 * (d * (q + 1)) + d)
near_up n d q r e small h = (omega arith, omega arith)

near_even :
    (n d q r b : ℕ)
    → d * q + r ≡ n
    → r < d
    → 2 * r ≡ d
    → b < 2
    → (2 * (d * (q + b)) ≤ 2 * n + d) × (2 * n ≤ 2 * (d * (q + b)) + d)
near_even n d q r zero e small h b = (omega arith, omega arith)
near_even n d q r (suc zero) e small h b = (omega arith, omega arith)
near_even n d q r (suc (suc b)) e small h k = absurd (omega arith)

-- At most half of d lies between n and d times the rounded quotient.
to_nearest_even-near :
    (n d : ℕ)
    → 1 ≤ d
    → (2 * (d * to_nearest_even n d) ≤ 2 * n + d) × (2 * n ≤ 2 * (d * to_nearest_even n d) + d)
unfolding to_nearest_even
to_nearest_even-near n d pos =
    let e = div-add-mod n d in
    let small : n % d < d = mod-lt n pos in
    elim (Bool-cases (ltb (2 * (n % d)) d)) [
      | inl below ↦ rw below (near_down n d (n / d) (n % d) e (ground arith))
      | inr above ↦ elim (Bool-cases (ltb d (2 * (n % d)))) [
        | inl over ↦ rw (above, over) (near_up n d (n / d) (n % d) e small (ground arith))
        | inr under ↦
            rw (above, under)
              (near_even n d (n / d) (n % d) (n / d % 2) e small (ground arith) (omega arith))
      ]
    ]

quotient_scale-ge :
    (fuel part whole s : ℕ) → least_mantissa ≤ s → least_mantissa ≤ quotient_scale fuel part whole s
unfolding quotient_scale
quotient_scale-ge zero part whole s h = h
quotient_scale-ge (suc fuel) part whole s h =
    let rest = quotient_scale-ge fuel part whole (2 * s) (omega (arith, h)) in ground (arith, rest)

doubled : (fuel part s : ℕ) → part * (s * 2 ^ suc fuel) ≡ part * (2 * s * 2 ^ fuel)
doubled fuel part s =
    let twice : 2 ^ suc fuel ≡ 2 * 2 ^ fuel = omega arith in rw twice (omega arith)

-- 64 doublings are enough for a part of at least 1 and a whole of at most 2 ^ 64: the quotient has its
-- 53 bits.
quotient_scale-full :
    (fuel part whole s : ℕ)
    → least_mantissa * whole ≤ part * (s * 2 ^ fuel)
    → least_mantissa * whole ≤ part * quotient_scale fuel part whole s
unfolding quotient_scale
quotient_scale-full zero part whole s h = omega (arith, h)
quotient_scale-full (suc fuel) part whole s h =
    let same : part * (s * 2 ^ suc fuel) ≡ part * (2 * s * 2 ^ fuel) = doubled fuel part s in
    let rest = quotient_scale-full fuel part whole (2 * s) (omega (arith, h, same)) in
    ground (arith, rest)

quotient_scale_enough :
    (part whole : ℕ)
    → 1 ≤ part
    → whole ≤ 2 ^ 64
    → least_mantissa * whole ≤ part * quotient_scale 64 part whole least_mantissa
quotient_scale_enough part whole pos bound =
    quotient_scale-full 64 part whole least_mantissa (omega (arith, pos, bound))

product_unit-le : (fuel n u : ℕ) → 1 ≤ u → (1 ≤ product_unit fuel n u)
unfolding product_unit
product_unit-le zero n u h = h
product_unit-le (suc fuel) n u h =
    let rest = product_unit-le fuel n (2 * u) (omega (arith, h)) in ground (arith, rest)

product_unit-max : (n : ℕ) → product_unit 7 n 1 ≤ 128
unfolding product_unit
product_unit-max n = ground arith

-- The roundings of the quotient and of the product, each within half a unit, and the last floor.
module _ (part whole s q u p r : ℕ) (coarse : u ≤ 128) (fine : 228 * whole < s) where
  no_excess : (a b : ℕ) → s * a ≤ s * b + 228 * whole → a ≤ b
  no_excess a b h = elim (Bool-cases (leb a b)) [
    | inl le ↦ ground arith
    | inr above ↦
        let more : b + 1 ≤ a = ground arith in
        absurd (omega (arith, h, fine, mul-le-mul_left s more))
  ]

  near_above :
      2 * (whole * q) ≤ 2 * (part * s) + whole
      → 2 * (u * p) ≤ 2 * (100 * q) + u
      → 2 * s * r ≤ 2 * (p * u) + s
      → 2 * (whole * r) ≤ 200 * part + whole
  near_above first second last = no_excess (2 * (whole * r)) (200 * part + whole) (
      omega (
        arith,
        first,
        mul-le-mul_left whole second,
        mul-le-mul_left whole last,
        mul-le-mul_left whole coarse,
      ))

  near_below :
      2 * (part * s) ≤ 2 * (whole * q) + whole
      → 2 * (100 * q) ≤ 2 * (u * p) + u
      → 2 * (p * u) + s ≤ 2 * s * r + 2 * s
      → 200 * part ≤ 2 * (whole * r) + whole
  near_below first second last = no_excess (200 * part) (2 * (whole * r) + whole) (
      omega (
        arith,
        first,
        mul-le-mul_left whole second,
        mul-le-mul_left whole last,
        mul-le-mul_left whole coarse,
      ))

-- The roundings stay within a half of the exact percentage, of a whole below 2 ^ 44.
pub round_percent-near :
    (part whole : ℕ)
    → 1 ≤ whole
    → whole < 17592186044416
    → (2 * (whole * round_percent part whole) ≤ 200 * part + whole)
      × (200 * part ≤ 2 * (whole * round_percent part whole) + whole)
unfolding round_percent
round_percent-near part whole pos bound =
    let s = quotient_scale 64 part whole least_mantissa in
    let q = to_nearest_even (part * s) whole in
    let u = product_unit 7 (100 * q) 1 in
    let p = to_nearest_even (100 * q) u in
    let big : least_mantissa ≤ s = quotient_scale-ge 64 part whole least_mantissa (omega arith) in
    let first = to_nearest_even-near (part * s) whole pos in
    let second = to_nearest_even-near (100 * q) u (product_unit-le 7 (100 * q) 1 (omega arith)) in
    let coarse : u ≤ 128 = product_unit-max (100 * q) in
    let fine : 228 * whole < s = omega (arith, big, bound) in
    let n = 2 * (p * u) + s in
    let whole_part = div-add-mod n (2 * s) in
    let left_over : n % (2 * s) < 2 * s = mod-lt n (omega (arith, big)) in
    (
      near_above part whole s q u p (n / (2 * s)) coarse fine first.0 second.0
          (omega (arith, whole_part)),
      near_below part whole s q u p (n / (2 * s)) coarse fine first.1 second.1
          (omega (arith, whole_part, left_over)),
    )
