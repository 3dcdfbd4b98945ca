-- ===== src/IntPower/Bounds.antt =====
-- When `power` does not overflow, and what it then returns.
use Prim.Native.Nat.{◌^◌, ◌/◌, ◌%◌}
use native.Mathlib.Nat.{pow-zero, pow-suc, pow-le-pow_right, one-le-pow, div-add-mod, mod-lt}
use dynare.Base.{
  ℕ, zero, suc, ◌+◌, ◌*◌, ◌≤◌, ◌<◌, ◌≡◌, refl, ap, subst, ◌∙◌, Bool-cases, inl, inr, true, ok,
  arith, ltb, ◌==◌,
}
use dynare.IntPower.{times_int, power_loop, power}

pow_square : (a k : ℕ) → (a * a) ^ k ≡ a ^ (k + k)
pow_square a zero = rw (pow-zero (a * a), pow-zero a) refl
pow_square a (suc k) =
    let e : suc k + suc k ≡ suc (suc (k + k)) = omega arith in
    rw (e, pow-suc (a * a) k, pow-suc a (suc (k + k)), pow-suc a (k + k), pow_square a k)
      (omega arith)

pub times_int-fits : (x y : ℕ) → x * y < 2 ^ 31 → times_int x y ≡ ok (x * y)
unfolding times_int
times_int-fits x y h = let test : ltb (x * y) (2 ^ 31) ≡ true = ground arith in rw test refl

grow : (x y : ℕ) → 1 ≤ y → x ≤ x * y
grow x zero h = absurd (omega arith)
grow x (suc y) h = omega arith

-- One round, where `b` is 2 * c or 2 * c + 1, `y` is a ^ (4 * c), and the loop goes on with c.
round_fits :
    (res a y : ℕ)
    → 1 ≤ a
    → 1 ≤ res
    → 1 ≤ y
    → res * (y * a * a) < 2 ^ 31
    → (a * a < 2 ^ 31) × (res * y < 2 ^ 31) × (res * a < 2 ^ 31) × (res * a * y < 2 ^ 31)
round_fits res a y p q l h = (
  omega (arith, grow (a * a) (res * y) (omega (arith, grow res y l))),
  omega (arith, grow (res * y) (a * a) (omega (arith, grow a a p))),
  omega (arith, grow (res * a) (a * y) (omega (arith, grow a y l))),
  omega (arith, grow (res * a * y) a p),
)

square_le : (a n : ℕ) → 1 ≤ a → 2 ≤ n → a * a ≤ a ^ n
square_le a n p l = omega (
  arith,
  pow-le-pow_right p l,
  pow-suc a 1,
  ap (λ (t : ℕ). t * a) (pow-suc a 0),
  ap (λ (t : ℕ). t * a * a) (pow-zero a),
)

-- The powers that a round reads, through a ^ (2 * c) and a ^ (4 * c).
pow_odd :
    (a c : ℕ)
    → (a ^ (c + c + 1) ≡ a ^ (c + c) * a)
      × (a ^ (c + c + 1 + (c + c + 1)) ≡ a ^ (c + c + (c + c)) * a * a)
pow_odd a c =
    let e : c + c + 1 ≡ suc (c + c) = omega arith in
    let f : c + c + 1 + (c + c + 1) ≡ suc (suc (c + c + (c + c))) = omega arith in
    (
      rw e (pow-suc a (c + c)),
      rw (f, pow-suc a (suc (c + c + (c + c))))
          (ap (λ (t : ℕ). t * a) (pow-suc a (c + c + (c + c)))),
    )

power_loop-fits :
    (fuel res a b : ℕ)
    → 1 ≤ a
    → 1 ≤ res
    → b ≤ fuel
    → res * a ^ (b + b) < 2 ^ 31
    → power_loop fuel res a b ≡ ok (res * a ^ b)
unfolding power_loop
power_loop-fits fuel res a zero p q l h = rw (pow-zero a) (ap ok (omega arith))
power_loop-fits zero res a (suc b) p q l h = absurd (omega arith)
power_loop-fits (suc fuel) res a (suc b) p q l h =
    let c = suc b / 2 in
    let halves : c + c + suc b % 2 ≡ suc b = omega (arith, div-add-mod (suc b) 2) in
    let square : (a * a) ^ c ≡ a ^ (c + c) = pow_square a c in
    let fourth : (a * a) ^ (c + c) ≡ a ^ (c + c + (c + c)) = pow_square a (c + c) in
    let y : 1 ≤ a ^ (c + c + (c + c)) = one-le-pow (c + c + (c + c)) a p in
    elim (Bool-cases (suc b % 2 == 1)) [
      | inl odd ↦
          let e : suc b ≡ c + c + 1 = ground arith in
          let (low, high) = pow_odd a c in
          let h' = subst (λ t. res * a ^ (t + t) < 2 ^ 31) e h in
          let f =
            round_fits res a (a ^ (c + c + (c + c))) p q y
              (omega (arith, ap (λ (t : ℕ). res * t) high)) in
          let next =
            power_loop-fits fuel (res * a) (a * a) c (omega (arith, grow a a p))
              (omega (arith, grow res a p)) (omega arith) (rw fourth f.3) in
          rw (odd, times_int-fits res a f.2, times_int-fits a a f.0, next)
            (ap ok (
              omega (
                arith,
                ap (λ (t : ℕ). res * a * t) square,
                ap (λ (t : ℕ). res * t) low,
                ap (λ t. res * a ^ t) e,
              )))
      | inr even ↦
          let e : suc b ≡ c + c = ground (arith, mod-lt (suc b) {m = 2} (omega arith)) in
          let h' = subst (λ t. res * a ^ (t + t) < 2 ^ 31) e h in
          let two : a * a ≤ a ^ (c + c + (c + c)) = square_le a (c + c + (c + c)) p (omega arith) in
          let f : a * a < 2 ^ 31 = omega (arith, grow (a ^ (c + c + (c + c))) res q) in
          let next =
            power_loop-fits fuel res (a * a) c (omega (arith, grow a a p)) q (omega arith)
              (rw fourth h') in
          rw (even, times_int-fits a a f, next)
            (ap ok (omega (arith, ap (λ (t : ℕ). res * t) square, ap (λ t. res * a ^ t) e)))
    ]

-- For a positive base `power` ends within b rounds and returns a ^ b, without an overflow, where
-- a ^ (2 * b) is below 2 ^ 31.
pub power-fits :
    (fuel a b : ℕ) → 1 ≤ a → b ≤ fuel → a ^ (b + b) < 2 ^ 31 → power fuel a b ≡ ok (a ^ b)
unfolding power
power-fits fuel a b p l h =
    power_loop-fits fuel 1 a b p (omega arith) l (omega arith) ∙ ap ok (omega arith)
