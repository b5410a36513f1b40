-- ===== src/Reminder/TimeParser/Float.antt =====
-- The floating-point numbers of 64 bits that `Minutes` and `Hours` of package `time` compute with.
use famclaw.Prelude.{
  ℕ, zero, suc, ◌+◌, ◌*◌, ◌/◌, ◌%◌, ◌≤◌, ◌<◌, ◌≡◌, sym, ap, ◌∙◌, ◌||◌, ◌&&◌, ◌==◌, ltb, leb,
  if◌then◌else◌, arith, Bool-cases, inl, inr,
}
use native.Mathlib.Nat.{
  le-div_iff_mul-le, div-le_of_le-mul, lt_of_mul-lt-mul_right, mul_comm, mul_assoc, add-mul,
  mul-pos, mul-le-mul_right, div-add-mod,
}

-- A number that is not negative and below `2 ^ 53`: `mantissa / scale`, its scale a power of two.
pub record Float : Type 0 where
  pub mantissa : ℕ
  pub scale : ℕ

-- The quotient of two numbers, rounded to the nearest one, and to an even one between two.
unfoldable pub nearest : ℕ → ℕ → ℕ
nearest a b =
    let r = a % b in if ltb (b) (2 * r) || (2 * r == b && a / b % 2 == 1) then a / b + 1 else a / b

abbrev two_52 : ℕ
two_52 = 4503599627370496

-- The scale, from `scale` on, at which the quotient has the 53 digits of a mantissa.
unfoldable scale_of : ℕ → ℕ → ℕ → ℕ → ℕ
scale_of zero p q scale = scale
scale_of (suc fuel) p q scale =
    let next = scale_of fuel p q (2 * scale) in if leb (two_52 * q) (p * scale) then scale else next

-- A quotient that is not zero is above `2 ^ -42` here, so that 128 doublings are enough.
unfoldable scale_for : ℕ → ℕ → ℕ
unfolding scale_of
scale_for p q = if p == 0 then 1 else scale_of 128 p q 1

abbrev at_scale : ℕ → ℕ → ℕ → Float
at_scale s p q = record { mantissa = nearest (p * s) q; scale = s }

-- The quotient of two numbers as a float.
unfoldable pub rounded : ℕ → ℕ → Float
unfolding nearest scale_for
rounded p q = at_scale (scale_for p q) p q

-- `float64(n)` for an integer, which is exact.
unfoldable pub of_int : ℕ → Float
of_int n = record { mantissa = n; scale = 1 }

-- `x / n` for a constant
unfoldable pub divided : Float → ℕ → Float
unfolding rounded
divided x n = rounded x.mantissa (x.scale * n)

-- `x + y`
unfoldable pub plus : Float → Float → Float
unfolding rounded
plus x y = rounded (x.mantissa * y.scale + y.mantissa * x.scale) (x.scale * y.scale)

-- `int(x)`
unfoldable pub whole : Float → ℕ
whole x = x.mantissa / x.scale

-- A float is between two integers.
pub record Between (x : Float) (lo hi : ℕ) : Type 0 where
  pub positive : 0 < x.scale
  pub above : lo * x.scale ≤ x.mantissa
  pub below : x.mantissa ≤ hi * x.scale

nearest_bounds :
    (a b lo hi : ℕ) → 0 < b → lo * b ≤ a → a ≤ hi * b → (lo ≤ nearest a b) × (nearest a b ≤ hi)
unfolding nearest
nearest_bounds a b lo hi p l h =
    let low : lo ≤ a / b = (le-div_iff_mul-le p).1 l in
    let high : a / b ≤ hi = div-le_of_le-mul b (rw (mul_comm b hi) h) in
    elim (Bool-cases (ltb b (2 * (a % b)) || 2 * (a % b) == b && a / b % 2 == 1)) [
      | inl up ↦
          let rest : 0 < a % b = ground arith in
          let parts : a / b * b + a % b ≡ a =
            ap (λ x. x + a % b) (mul_comm (a / b) b) ∙ div-add-mod a b in
          let whole_part : a / b * b < hi * b = omega (arith, parts) in
          let strict = lt_of_mul-lt-mul_right b whole_part in rw up (omega arith, omega arith)
      | inr down ↦ rw down (low, high)
    ]

scale_of-positive : (fuel p q scale : ℕ) → 0 < scale → 0 < scale_of fuel p q scale
unfolding scale_of
scale_of-positive zero p q scale h = h
scale_of-positive (suc fuel) p q scale h =
    let ih = scale_of-positive fuel p q (2 * scale) (omega arith) in ground (arith, ih)

scale_for-positive : (p q : ℕ) → 0 < scale_for p q
unfolding scale_for
scale_for-positive p q =
    let h = scale_of-positive 128 p q 1 (omega arith) in
    elim (Bool-cases (p == 0)) [
      | inl z ↦ rw (scale_for, z) (omega arith)
      | inr n ↦ rw (scale_for, n) h
    ]

swapped : (a b c : ℕ) → a * b * c ≡ a * c * b
swapped a b c = mul_assoc a b c ∙ ap (λ x. a * x) (mul_comm b c) ∙ sym (mul_assoc a c b)

at_scale-Between :
    (s p q lo hi : ℕ) → 0 < s → 0 < q → lo * q ≤ p → p ≤ hi * q → Between (at_scale s p q) lo hi
at_scale-Between s p q lo hi pos z l h =
    let l' : lo * s * q ≤ p * s = rw (swapped lo s q) (mul-le-mul_right s l) in
    let h' : p * s ≤ hi * s * q = rw (swapped hi s q) (mul-le-mul_right s h) in
    let b = nearest_bounds (p * s) q (lo * s) (hi * s) z l' h' in
    record { positive = pos; above = b.0; below = b.1 }

pub rounded-Between :
    (p q lo hi : ℕ) → 0 < q → lo * q ≤ p → p ≤ hi * q → Between (rounded p q) lo hi
unfolding rounded
rounded-Between p q lo hi = at_scale-Between (scale_for p q) p q lo hi (scale_for-positive p q)

pub of_int-Between : (n : ℕ) → Between (of_int n) n n
unfolding of_int
of_int-Between n = record { positive = omega arith; above = omega arith; below = omega arith }

pub Between-weaken : (x : Float) (a b lo hi : ℕ) → Between x a b → lo ≤ a → b ≤ hi → Between x lo hi
Between-weaken x a b lo hi h l u =
    let l' = mul-le-mul_right x.scale l in
    let u' = mul-le-mul_right x.scale u in
    record {
      positive = h.positive;
      above = omega (arith, l', h.above);
      below = omega (arith, u', h.below);
    }

pub divided-Between :
    (x : Float) (n lo hi : ℕ) → 0 < n → Between x (lo * n) (hi * n) → Between (divided x n) lo hi
unfolding divided
divided-Between x n lo hi p h =
    rounded-Between x.mantissa (x.scale * n) lo hi (mul-pos h.positive p)
      (rw (sym (mul_assoc lo x.scale n), swapped lo x.scale n) h.above)
      (rw (sym (mul_assoc hi x.scale n), swapped hi x.scale n) h.below)

crossed : (a c s t : ℕ) → (a + c) * (s * t) ≡ a * s * t + c * t * s
crossed a c s t =
    add-mul a c (s * t)
    ∙ ap (λ x. x + c * (s * t)) (sym (mul_assoc a s t))
    ∙ ap (λ x. a * s * t + x) (sym (mul_assoc c s t) ∙ swapped c s t)

pub plus-Between :
    (x y : Float) (a b c e : ℕ) → Between x a b → Between y c e → Between (plus x y) (a + c) (b + e)
unfolding plus
plus-Between x y a b c e h k =
    let l = mul-le-mul_right y.scale h.above in
    let l' = mul-le-mul_right x.scale k.above in
    let u = mul-le-mul_right y.scale h.below in
    let u' = mul-le-mul_right x.scale k.below in
    rounded-Between (x.mantissa * y.scale + y.mantissa * x.scale) (x.scale * y.scale) (a + c)
      (b + e) (mul-pos h.positive k.positive)
      (rw (crossed a c x.scale y.scale) (omega (arith, l, l')))
      (rw (crossed b e x.scale y.scale) (omega (arith, u, u')))

pub whole_bounds : (x : Float) (lo hi : ℕ) → Between x lo hi → (lo ≤ whole x) × (whole x ≤ hi)
unfolding whole
whole_bounds x lo hi h = (
  (le-div_iff_mul-le h.positive).1 h.above,
  div-le_of_le-mul x.scale (rw (mul_comm x.scale hi) h.below),
)
