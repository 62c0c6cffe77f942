-- ===== src/Reconciliation/Json.antt =====
-- The JSON values that desired_state.desired_value and an observation hold. Numbers are natural.
-- `deepEqual` of reconciliation/diff.js compares what JSON.stringify prints, so the order of the
-- fields counts.
use mathlib.Core.Path.{ap₂}
use arcanium.Prelude.{
  ℕ, String, ◌≡◌, refl, ap, ◌↔◌, Bool, true, false, ◌&&◌, Option, none, some, arith, ◌==◌, eq_iff,
  eq_refl, eqb, if◌then◌else◌, agree,
}

mutual
  pub data Json : Type 0 where
    null : Json
    bool : Bool → Json
    num : ℕ → Json
    text : String → Json
    arr : Items → Json
    obj : Fields → Json

  pub data Items : Type 0 where
    nil : Items
    cons : Json → Items → Items

  pub data Fields : Type 0 where
    end : Fields
    field : String → Json → Fields → Fields

unfoldable mutual
  pub deep_equal : Json → Json → Bool
  deep_equal null null = true
  deep_equal (bool a) (bool b) = agree a b
  deep_equal (num a) (num b) = eqb a b
  deep_equal (text a) (text b) = a == b
  deep_equal (arr a) (arr b) = items_equal a b
  deep_equal (obj a) (obj b) = fields_equal a b
  deep_equal _ _ = false

  pub items_equal : Items → Items → Bool
  items_equal nil nil = true
  items_equal (cons a as_) (cons b bs) = deep_equal a b && items_equal as_ bs
  items_equal _ _ = false

  pub fields_equal : Fields → Fields → Bool
  fields_equal end end = true
  fields_equal (field k a fs) (field j b gs) = k == j && (deep_equal a b && fields_equal fs gs)
  fields_equal _ _ = false

-- `value?.key`
abbrev pub fields_get : Fields → String → Option Json
fields_get end key = none
fields_get (field k v fs) key = if k == key then some v else fields_get fs key

abbrev pub get_field : Json → String → Option Json
get_field (obj fs) key = fields_get fs key
get_field _ key = none

mutual
  unfolding deep_equal items_equal fields_equal

  deep_equal_refl : (a : Json) → deep_equal a a ≡ true
  deep_equal_refl null = refl
  deep_equal_refl (bool a) = ground arith
  deep_equal_refl (num a) = ground arith
  deep_equal_refl (text a) = eq_refl a
  deep_equal_refl (arr a) = items_equal_refl a
  deep_equal_refl (obj a) = fields_equal_refl a

  items_equal_refl : (a : Items) → items_equal a a ≡ true
  items_equal_refl nil = refl
  items_equal_refl (cons a b) = ground (arith, deep_equal_refl a, items_equal_refl b)

  fields_equal_refl : (a : Fields) → fields_equal a a ≡ true
  fields_equal_refl end = refl
  fields_equal_refl (field k a b) =
      ground (arith, deep_equal_refl a, fields_equal_refl b, eq_refl k)

both_true : (a b : Bool) → a && b ≡ true → (a ≡ true) × (b ≡ true)
both_true true true h = (refl, refl)
both_true true false h = absurd (cc)
both_true false b h = absurd (cc)

same_field :
    (k j : String) (a b : Json) (fs gs : Fields)
    → k ≡ j
    → a ≡ b
    → fs ≡ gs
    → field k a fs ≡ field j b gs
same_field k j a b fs gs p q r = cc

mutual
  unfolding deep_equal items_equal fields_equal

  deep_equal_sound : (a b : Json) → deep_equal a b ≡ true → a ≡ b
  deep_equal_sound null null h = refl
  deep_equal_sound (bool a) (bool b) h = ground arith
  deep_equal_sound (num a) (num b) h = ground arith
  deep_equal_sound (text a) (text b) h = ap text ((eq_iff a b).0 h)
  deep_equal_sound (arr a) (arr b) h = ap arr (items_equal_sound a b h)
  deep_equal_sound (obj a) (obj b) h = ap obj (fields_equal_sound a b h)
  deep_equal_sound _ _ h = absurd (cc)

  items_equal_sound : (a b : Items) → items_equal a b ≡ true → a ≡ b
  items_equal_sound nil nil h = refl
  items_equal_sound (cons a as_) (cons b bs) h =
      let (p, q) = both_true (deep_equal a b) (items_equal as_ bs) h in
      ap₂ cons (deep_equal_sound a b p) (items_equal_sound as_ bs q)
  items_equal_sound _ _ h = absurd (cc)

  fields_equal_sound : (a b : Fields) → fields_equal a b ≡ true → a ≡ b
  fields_equal_sound end end h = refl
  fields_equal_sound (field k a fs) (field j b gs) h =
      let (p, q) = both_true (k == j) (deep_equal a b && fields_equal fs gs) h in
      let (r, t) = both_true (deep_equal a b) (fields_equal fs gs) q in
      same_field k j a b fs gs ((eq_iff k j).0 p) (deep_equal_sound a b r)
        (fields_equal_sound fs gs t)
  fields_equal_sound _ _ h = absurd (cc)

pub deep_equal_iff : (a b : Json) → (deep_equal a b ≡ true) ↔ (a ≡ b)
deep_equal_iff a b = (deep_equal_sound a b, λ e. rw e (deep_equal_refl b))
