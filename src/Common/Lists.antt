-- ===== src/Common/Lists.antt =====
-- Lists measured and indexed by native numbers, under the library's names.
use Prim.Native.Nat.{ℕ, zero, suc, ◌+◌, ◌-◌, ◌<◌, ◌≤◌, min}
use mathlib.Core.Path.{◌≡◌, refl, ap}
use mathlib.Core.Logic.{◌≢◌}
use mathlib.Core.Bool.{true}
use mathlib.Core.List.{List, [], ◌∷◌, ◌++◌}
use mathlib.Core.Option.{Option, none, some}
use native.Mathlib.Omega.{arith}
use final_system_progamming.Common.Booleans.{◌==◌, if◌then◌else◌}

module _ {ℓ} {A : Type ℓ} where
  abbrev pub length : List A → ℕ
  length [] = 0
  length (x ∷ xs) = suc (length xs)

  abbrev pub get_elem? : List A → ℕ → Option A
  get_elem? [] i = none
  get_elem? (x ∷ xs) zero = some x
  get_elem? (x ∷ xs) (suc i) = get_elem? xs i

  abbrev pub get_or : List A → ℕ → A → A
  get_or [] i d = d
  get_or (x ∷ xs) zero d = x
  get_or (x ∷ xs) (suc i) d = get_or xs i d

  -- A write out of bounds changes nothing.
  abbrev pub set : List A → ℕ → A → List A
  set [] i v = []
  set (x ∷ xs) zero v = v ∷ xs
  set (x ∷ xs) (suc i) v = x ∷ set xs i v

  abbrev pub take : ℕ → List A → List A
  take zero xs = []
  take (suc n) [] = []
  take (suc n) (x ∷ xs) = x ∷ take n xs

  abbrev pub drop : ℕ → List A → List A
  drop zero xs = xs
  drop (suc n) [] = []
  drop (suc n) (x ∷ xs) = drop n xs

  abbrev pub replicate : ℕ → A → List A
  replicate zero a = []
  replicate (suc n) a = a ∷ replicate n a

  pub length-append : (xs ys : List A) → length (xs ++ ys) ≡ length xs + length ys
  length-append [] ys = omega arith
  length-append (x ∷ xs) ys = omega (arith, length-append xs ys)

  pub length-set : (xs : List A) (i : ℕ) (v : A) → length (set xs i v) ≡ length xs
  length-set [] i v = refl
  length-set (x ∷ xs) zero v = refl
  length-set (x ∷ xs) (suc i) v = ap suc (length-set xs i v)

  pub get_elem?-eq-get_or :
      (xs : List A) (i : ℕ) (d : A) → i < length xs → get_elem? xs i ≡ some (get_or xs i d)
  get_elem?-eq-get_or [] i d h = absurd (omega arith)
  get_elem?-eq-get_or (x ∷ xs) zero d h = refl
  get_elem?-eq-get_or (x ∷ xs) (suc i) d h = get_elem?-eq-get_or xs i d (omega arith)

  pub get_or-set_self :
      (xs : List A) (i : ℕ) (v d : A) → i < length xs → get_or (set xs i v) i d ≡ v
  get_or-set_self [] i v d h = absurd (omega arith)
  get_or-set_self (x ∷ xs) zero v d h = refl
  get_or-set_self (x ∷ xs) (suc i) v d h = get_or-set_self xs i v d (omega arith)

  pub get_or-set_ne :
      (xs : List A) {i j : ℕ} (v d : A) → i ≢ j → get_or (set xs i v) j d ≡ get_or xs j d
  get_or-set_ne [] v d h = refl
  get_or-set_ne (x ∷ xs) {i = zero} {j = zero} v d h = absurd (h refl)
  get_or-set_ne (x ∷ xs) {i = zero} {j = suc j} v d h = refl
  get_or-set_ne (x ∷ xs) {i = suc i} {j = zero} v d h = refl
  get_or-set_ne (x ∷ xs) {i = suc i} {j = suc j} v d h = get_or-set_ne xs v d (λ e. h (ap suc e))

  pub length-take : (n : ℕ) (xs : List A) → length (take n xs) ≡ min n (length xs)
  length-take zero xs = omega arith
  length-take (suc n) [] = omega arith
  length-take (suc n) (x ∷ xs) = omega (arith, length-take n xs)

  pub length-drop : (n : ℕ) (xs : List A) → length (drop n xs) ≡ length xs - n
  length-drop zero xs = omega arith
  length-drop (suc n) [] = omega arith
  length-drop (suc n) (x ∷ xs) = omega (arith, length-drop n xs)

  pub length-replicate : (n : ℕ) (a : A) → length (replicate n a) ≡ n
  length-replicate zero a = refl
  length-replicate (suc n) a = ap suc (length-replicate n a)

  pub take-append-drop : (n : ℕ) (xs : List A) → take n xs ++ drop n xs ≡ xs
  take-append-drop zero xs = refl
  take-append-drop (suc n) [] = refl
  take-append-drop (suc n) (x ∷ xs) = rw (take-append-drop n xs)

  pub take-length_append : (xs ys : List A) → take (length xs) (xs ++ ys) ≡ xs
  take-length_append [] ys = refl
  take-length_append (x ∷ xs) ys = ap (λ zs. x ∷ zs) (take-length_append xs ys)

  pub drop-length_append : (xs ys : List A) → drop (length xs) (xs ++ ys) ≡ ys
  drop-length_append [] ys = refl
  drop-length_append (x ∷ xs) ys = drop-length_append xs ys

  pub drop-length-add : (k : ℕ) (xs ys : List A) → drop (length xs + k) (xs ++ ys) ≡ drop k ys
  drop-length-add k [] ys = ap (λ n. drop n ys) (omega arith)
  drop-length-add k (x ∷ xs) ys =
      let e : suc (length xs) + k ≡ suc (length xs + k) = omega arith in
      rw e (drop-length-add k xs ys)

  pub take-append : (n : ℕ) (xs ys : List A) → n ≤ length xs → take n (xs ++ ys) ≡ take n xs
  take-append zero xs ys h = refl
  take-append (suc n) [] ys h = absurd (omega arith)
  take-append (suc n) (x ∷ xs) ys h = ap (λ zs. x ∷ zs) (take-append n xs ys (omega arith))

  pub take-append_le :
      (n : ℕ) (xs ys : List A) → length xs ≤ n → take n (xs ++ ys) ≡ xs ++ take (n - length xs) ys
  take-append_le n [] ys h = ap (λ k. take k ys) (omega arith)
  take-append_le zero (x ∷ xs) ys h = absurd (omega arith)
  take-append_le (suc n) (x ∷ xs) ys h =
      let e : suc n - suc (length xs) ≡ n - length xs = omega arith in
      rw e (ap (λ zs. x ∷ zs) (take-append_le n xs ys (omega arith)))

  pub drop-append : (n : ℕ) (xs ys : List A) → n ≤ length xs → drop n (xs ++ ys) ≡ drop n xs ++ ys
  drop-append zero xs ys h = refl
  drop-append (suc n) [] ys h = absurd (omega arith)
  drop-append (suc n) (x ∷ xs) ys h = drop-append n xs ys (omega arith)

  pub take-all : (n : ℕ) (xs : List A) → length xs ≤ n → take n xs ≡ xs
  take-all zero [] h = refl
  take-all zero (x ∷ xs) h = absurd (omega arith)
  take-all (suc n) [] h = refl
  take-all (suc n) (x ∷ xs) h = ap (λ zs. x ∷ zs) (take-all n xs (omega arith))

  pub length-nil : (xs : List A) → (length xs == 0) ≡ true → xs ≡ []
  length-nil [] h = refl
  length-nil (x ∷ xs) h = absurd (ground (arith, h))

  -- A predicate by recursion computes to tuples, which the tactics read and build.
  abbrev pub All {κ} : (A → Type κ) → List A → Type κ
  All P [] = Unit
  All P (x ∷ xs) = P x × All P xs

module _ {ℓ κ} {A : Type ℓ} (P : A → Type κ) where
  pub All-append : (xs ys : List A) → All P xs → All P ys → All P (xs ++ ys)
  All-append [] ys hx hy = hy
  All-append (x ∷ xs) ys hx hy = (hx.0, All-append xs ys hx.1 hy)

  pub All-take : (n : ℕ) (xs : List A) → All P xs → All P (take n xs)
  All-take zero xs h = tt
  All-take (suc n) [] h = tt
  All-take (suc n) (x ∷ xs) h = (h.0, All-take n xs h.1)

module _ {ℓ} {A : Type ℓ} where
  pub get_or-append_length :
      (xs : List A) (x : A) (ys : List A) (d : A) → get_or (xs ++ x ∷ ys) (length xs) d ≡ x
  get_or-append_length [] x ys d = refl
  get_or-append_length (y ∷ xs) x ys d = get_or-append_length xs x ys d

-- How often a number stands in a list.
abbrev pub count : ℕ → List ℕ → ℕ
count v [] = 0
count v (x ∷ xs) = (if x == v then 1 else 0) + count v xs

pub count-append : (v : ℕ) (xs ys : List ℕ) → count v (xs ++ ys) ≡ count v xs + count v ys
count-append v [] ys = omega arith
count-append v (x ∷ xs) ys = omega (arith, count-append v xs ys)

-- The first `c` splits a list in one way, if no `c` stands before it.
pub split_first :
    (c : ℕ) (xs ys r s : List ℕ)
    → All (λ x. x ≢ c) xs
    → All (λ x. x ≢ c) ys
    → xs ++ c ∷ r ≡ ys ++ c ∷ s
    → (xs ≡ ys) × (r ≡ s)
split_first c [] [] r s hx hy e = ground (arith, e)
split_first c [] (y ∷ ys) r s hx hy e = absurd (ground (arith, e, hy.0))
split_first c (x ∷ xs) [] r s hx hy e = absurd (ground (arith, e, hx.0))
split_first c (x ∷ xs) (y ∷ ys) r s hx hy e = ground (arith, e, split_first c xs ys r s hx.1 hy.1)

not-All : (c : ℕ) (xs s : List ℕ) → ¬ All (λ x. x ≢ c) (xs ++ c ∷ s)
not-All c [] s h = h.0 refl
not-All c (x ∷ xs) s h = not-All c xs s h.1

-- The last `c` splits a list in one way, if no `c` stands behind it.
pub split_last :
    (c : ℕ) (xs ys r s : List ℕ)
    → All (λ x. x ≢ c) r
    → All (λ x. x ≢ c) s
    → xs ++ c ∷ r ≡ ys ++ c ∷ s
    → (xs ≡ ys) × (r ≡ s)
split_last c [] [] r s hr hs e = ground (arith, e)
split_last c [] (y ∷ ys) r s hr hs e =
    let tail : r ≡ ys ++ c ∷ s = ground (arith, e) in absurd (not-All c ys s (rw tail at hr))
split_last c (x ∷ xs) [] r s hr hs e =
    let tail : s ≡ xs ++ c ∷ r = ground (arith, e) in absurd (not-All c xs r (rw tail at hs))
split_last c (x ∷ xs) (y ∷ ys) r s hr hs e = ground (arith, e, split_last c xs ys r s hr hs)
