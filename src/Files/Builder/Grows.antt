-- ===== src/Files/Builder/Grows.antt =====
-- The capacity after `builder_reserve` is enough.
use final_system_progamming.Common.{
  ℕ, zero, suc, ◌*◌, ◌/◌, ◌%◌, ◌≡◌, ◌≤◌, ◌<◌, arith, ltb, ◌==◌, size_mod, size_max, Bool-cases, inl,
  inr,
}
use final_system_progamming.Files.Builder.{grow_from, grow_capacity}

doubled : ℕ → ℕ → ℕ
doubled zero n = n
doubled (suc fuel) n = doubled fuel (n * 2)

grow_from-le :
    (fuel n required : ℕ)
    → n ≤ size_max
    → required ≤ size_max
    → required ≤ doubled fuel n
    → (required ≤ grow_from fuel n required)
      × (grow_from fuel n required ≤ size_max)
      × (n ≤ grow_from fuel n required)
unfolding grow_from doubled
grow_from-le zero n required le r d = (d, le, omega arith)
grow_from-le (suc fuel) n required le r d = elim (Bool-cases (ltb n required)) [
  | inr enough ↦ rw enough (ground arith, le, omega arith)
  | inl less ↦ elim (Bool-cases (ltb (size_max / 2) n)) [
    | inl far ↦ rw (less, far) (omega arith, r, ground arith)
    | inr near ↦
        let fits : n * 2 % size_mod ≡ n * 2 = ground (arith, near) in
        let p = grow_from-le fuel (n * 2) required (ground (arith, near)) r d in
        rw (less, near, fits) (p.0, p.1, omega (arith, p.2))
  ]
]

doubled-enough : (n : ℕ) → 0 < n → size_max ≤ doubled 64 n
unfolding doubled
doubled-enough n h = omega (arith, h)

-- The loop that doubles the capacity finds one that is enough, does not shrink the array, and
-- stays a `size_t`, within 64 rounds.
pub grow_capacity-le :
    (capacity required : ℕ)
    → capacity ≤ size_max
    → required ≤ size_max
    → (required ≤ grow_capacity capacity required)
      × (grow_capacity capacity required ≤ size_max)
      × (capacity ≤ grow_capacity capacity required)
unfolding grow_capacity
grow_capacity-le capacity required c r = elim (Bool-cases (capacity == 0)) [
  | inl e ↦
      let p =
        grow_from-le 64 1024 required (omega arith) r
          (omega (arith, r, doubled-enough 1024 (omega arith))) in
      rw e (p.0, p.1, ground (arith, e))
  | inr ne ↦ rw ne (
      grow_from-le 64 capacity required c r
        (omega (arith, r, doubled-enough capacity (ground (arith, ne)))))
]
