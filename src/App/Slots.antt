-- ===== src/App/Slots.antt =====
-- The size of the timer wheel of bridge/src/app.rs.
use poa_bridge.Prelude.{
  ℕ, zero, suc, ◌*◌, ◌%◌, ◌^◌, ◌≤◌, ◌<◌, ◌≡◌, refl, inl, inr, arith, ltb, Bool-cases,
}
use poa_bridge.App.{max, double_up, next_power_of_two, timer_wheel}
use native.Mathlib.Nat.{pow-suc}

le-pow : (n : ℕ) → n < 2 ^ n
le-pow zero = omega arith
le-pow (suc n) = omega (arith, le-pow n, pow-suc 2 n)

shift : (p fuel : ℕ) → p * 2 ^ suc fuel ≡ 2 * p * 2 ^ fuel
shift p fuel = rw (pow-suc 2 fuel) (grind arith)

double_up_reaches : (fuel p n : ℕ) → n ≤ p * 2 ^ fuel → n ≤ double_up fuel p n
unfolding double_up
double_up_reaches zero p n h = omega arith
double_up_reaches (suc fuel) p n h =
    let rest = double_up_reaches fuel (2 * p) n (omega (arith, shift p fuel)) in ground arith

double_up_below : (fuel p n : ℕ) → p < 2 * n → double_up fuel p n < 2 * n
unfolding double_up
double_up_below zero p n h = h
double_up_below (suc fuel) p n h = ground (arith, double_up_below fuel (2 * p) n)

-- The doubling is a power of two.
double_up_power : (fuel p n k : ℕ) → p ≡ 2 ^ k → (j : ℕ) × (double_up fuel p n ≡ 2 ^ j)
unfolding double_up
double_up_power zero p n k e = (k, e)
double_up_power (suc fuel) p n k e = elim (Bool-cases (ltb p n)) [
  | inl more ↦
      let (j, q) = double_up_power fuel (2 * p) n (suc k) (omega (arith, pow-suc 2 k)) in
      (j, rw more q)
  | inr enough ↦ (k, rw enough e)
]

-- The result is a power of two, at least `n`, and for `n` above 0 the least one.
pub next_power_of_two_lem :
    (n : ℕ)
    → 0 < n
    → ((j : ℕ) × (next_power_of_two n ≡ 2 ^ j))
      × (n ≤ next_power_of_two n)
      × (next_power_of_two n < 2 * n)
unfolding next_power_of_two
next_power_of_two_lem n h = (
  double_up_power n 1 n 0 refl,
  double_up_reaches n 1 n (omega (arith, le-pow n)),
  double_up_below n 1 n (omega arith),
)

-- The slots of the wheel last at least as long as the longest request timeout, of either node, as
-- long as ten times that number of seconds is at most 2 ^ 63, which has a power of two of 64 bits.
pub timer_wheel_long_enough :
    (home foreign : ℕ)
    → max home foreign * 10 ≤ 2 ^ 63
    → let wheel = timer_wheel home foreign in
      (home * 1000 ≤ wheel.num_slots * wheel.tick_duration)
      × (foreign * 1000 ≤ wheel.num_slots * wheel.tick_duration)
      × (wheel.max_timeout ≤ wheel.num_slots * wheel.tick_duration)
unfolding timer_wheel next_power_of_two
timer_wheel_long_enough home foreign h =
    let n : ℕ = max home foreign * 10 % 2 ^ 64 in
    let reached = double_up_reaches n 1 n (omega (arith, le-pow n)) in
    (omega arith, omega arith, omega arith)
