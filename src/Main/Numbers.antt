-- ===== src/Main/Numbers.antt =====
-- Which texts `parse_positive_int` takes for which numbers.
use final_system_progamming.Common.{
  ℕ, ◌≡◌, ◌≤◌, ◌<◌, ◌⊎◌, ◌↔◌, inl, inr, refl, sym, ap, ◌∙◌, Bool, true, false, [], ◌∷◌, ◌++◌,
  append-nil, some, arith, Bytes, codes, All, ◌==◌, length, length-append, length-nil,
  decimal_value, all_digits, Bool-cases,
}
use final_system_progamming.Main.{
  isspace, skip_white, read_sign, leading_digits, Parsed, saturate, parsed_digits, strtol, checked,
  parse_positive_int,
}

-- White space, a plus sign or none, and the digits of a number from 1 to 65535.
pub record IsPositiveInt (text : Bytes) (value : ℕ) : Type 0 where
  pub white : Bytes
  pub sign : Bytes
  pub digits : Bytes
  pub is_text : text ≡ white ++ (sign ++ digits)
  pub is_white : All (λ c. isspace c ≡ true) white
  pub is_sign : (sign ≡ []) ⊎ (sign ≡ codes "+")
  pub is_digits : all_digits digits ≡ true
  pub is_value : decimal_value digits ≡ value
  pub positive : 0 < value
  pub small : value ≤ 65535

skip_white-append :
    (white text : Bytes)
    → All (λ c. isspace c ≡ true) white
    → skip_white (white ++ text) ≡ skip_white text
skip_white-append [] text h = refl
skip_white-append (c ∷ white) text h = ground (arith, h.0, skip_white-append white text h.1)

skip_white-splits :
    (text : Bytes)
    → (white : Bytes) × (text ≡ white ++ skip_white text) × All (λ c. isspace c ≡ true) white
skip_white-splits [] = ([], refl, tt)
skip_white-splits (c ∷ text) = elim (Bool-cases (isspace c)) [
  | inl space ↦
      let (white, splits, all) = skip_white-splits text in
      (c ∷ white, rw space (ap (λ xs. c ∷ xs) splits), (space, all))
  | inr other ↦ ([], rw other refl, tt)
]

leading_digits-all :
    (digits : Bytes) → all_digits digits ≡ true → leading_digits digits ≡ (digits, [])
leading_digits-all [] h = refl
leading_digits-all (c ∷ digits) h = ground (arith, h, leading_digits-all digits)

leading_digits-splits :
    (text : Bytes)
    → (text ≡ (leading_digits text).0 ++ (leading_digits text).1)
      × (all_digits (leading_digits text).0 ≡ true)
leading_digits-splits [] = (refl, refl)
leading_digits-splits (c ∷ text) = ground (arith, leading_digits-splits text)

plain_strtol :
    (digits : Bytes) (n : ℕ)
    → all_digits digits ≡ true
    → decimal_value digits ≡ n
    → 0 < n
    → (skip_white digits ≡ digits)
      × (read_sign digits ≡ (false, digits))
      × ((length digits == 0) ≡ false)
plain_strtol [] n h e p = absurd (ground (arith, e, p))
plain_strtol (c ∷ digits) n h e p = ground (arith, h)

-- What the test asks of what `strtol` found.
record Accepted (p : Parsed) (value : ℕ) : Type 0 where
  all_read : p.rest ≡ []
  not_negative : p.negative ≡ false
  is_magnitude : p.magnitude ≡ value
  above : 0 < value
  below : value ≤ 65535

checked-Accepted :
    (text : Bytes) (p : Parsed) (value : ℕ) → checked text p ≡ some value → Accepted p value
checked-Accepted text p value h = record {
  all_read = length-nil p.rest (ground (arith, h));
  not_negative = ground (arith, h);
  is_magnitude = ground (arith, h);
  above = ground (arith, h);
  below = ground (arith, h);
}

read_sign-splits :
    (text : Bytes)
    → (read_sign text).0 ≡ false
    → (sign : Bytes) × (text ≡ sign ++ (read_sign text).1) × ((sign ≡ []) ⊎ (sign ≡ codes "+"))
read_sign-splits [] h = ([], refl, inl refl)
read_sign-splits (c ∷ text) h = elim (Bool-cases (c == b'-')) [
  | inl minus ↦ absurd (ground (arith, h, minus))
  | inr other ↦ elim (Bool-cases (c == b'+')) [
    | inl plus ↦ (codes "+", ground (arith, other, plus), inr refl)
    | inr none_here ↦ ([], ground (arith, other, none_here), inl refl)
  ]
]

parsed_digits-Accepted :
    (text : Bytes) (negative : Bool) (body : Bytes) (value : ℕ)
    → Accepted (parsed_digits text negative (leading_digits body)) value
    → (negative ≡ false)
      × (body ≡ (leading_digits body).0)
      × (decimal_value (leading_digits body).0 ≡ value)
parsed_digits-Accepted text negative body value a =
    elim (Bool-cases (length (leading_digits body).0 == 0)) [
      | inl nothing ↦ absurd (ground (arith, nothing, a.is_magnitude, a.above))
      | inr some_digits ↦
          let digits = (leading_digits body).0 in
          let b = rw some_digits at a in
          let size : saturate false (decimal_value digits) ≡ value =
            ap (λ n. saturate n (decimal_value digits)) (sym b.not_negative) ∙ b.is_magnitude in
          (
            b.not_negative,
            (leading_digits-splits body).0 ∙ ap (λ xs. digits ++ xs) b.all_read ∙ append-nil digits,
            omega (arith, size, b.below),
          )
    ]

parse_positive_int-splits :
    (text : Bytes) (value : ℕ) → parse_positive_int text ≡ some value → IsPositiveInt text value
unfolding parse_positive_int
parse_positive_int-splits text value h =
    let a = checked-Accepted text (strtol text) value h in
    let (white, splits, all) = skip_white-splits text in
    let signed = read_sign (skip_white text) in
    let d = parsed_digits-Accepted text signed.0 signed.1 value a in
    let (sign, parts, either) = read_sign-splits (skip_white text) d.0 in
    record {
      white = white;
      sign = sign;
      digits = (leading_digits signed.1).0;
      is_text = splits ∙ ap (λ xs. white ++ xs) (parts ∙ ap (λ xs. sign ++ xs) d.1);
      is_white = all;
      is_sign = either;
      is_digits = (leading_digits-splits signed.1).1;
      is_value = d.2;
      positive = a.above;
      small = a.below;
    }

signed_digits :
    (sign digits : Bytes) (n : ℕ)
    → (sign ≡ []) ⊎ (sign ≡ codes "+")
    → all_digits digits ≡ true
    → decimal_value digits ≡ n
    → 0 < n
    → (read_sign (skip_white (sign ++ digits)) ≡ (false, digits))
signed_digits sign digits n (inl none_here) h e p =
    let plain = plain_strtol digits n h e p in rw (none_here, plain.0) plain.1
signed_digits sign digits n (inr plus) h e p = rw plus refl

parse_positive_int-some :
    (text : Bytes) (value : ℕ) → IsPositiveInt text value → parse_positive_int text ≡ some value
unfolding parse_positive_int
parse_positive_int-some text value t =
    let body = skip_white-append t.white (t.sign ++ t.digits) t.is_white in
    let signed = signed_digits t.sign t.digits value t.is_sign t.is_digits t.is_value t.positive in
    let plain = plain_strtol t.digits value t.is_digits t.is_value t.positive in
    let long : 0 < length text = ground (
      arith,
      ap length t.is_text,
      length-append t.white (t.sign ++ t.digits),
      length-append t.sign t.digits,
      plain.2,
    ) in
    let found : read_sign (skip_white text) ≡ (false, t.digits) =
      ap (λ xs. read_sign (skip_white xs)) t.is_text ∙ ap read_sign body ∙ signed in
    rw (found, leading_digits-all t.digits t.is_digits, plain.2, t.is_value)
      (ground (arith, long, t.small, t.positive))

-- `parse_positive_int` accepts exactly the texts that are white space, a plus sign or none, and
-- digits, for the number that the digits write, from 1 to 65535: it refuses an empty text, a minus
-- sign, anything behind the digits, and a number out of this range, however long.
pub parse_positive_int_exact :
    (text : Bytes) (value : ℕ) → (parse_positive_int text ≡ some value) ↔ IsPositiveInt text value
parse_positive_int_exact text value =
    (parse_positive_int-splits text value, parse_positive_int-some text value)
