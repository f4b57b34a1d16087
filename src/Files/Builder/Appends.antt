-- ===== src/Files/Builder/Appends.antt =====
-- What is appended is the text, inside the array.
use mathlib.Core.Path.{subst}
use final_system_progamming.Common.{
  ℕ, zero, suc, ◌+◌, ◌≡◌, ◌≤◌, ◌<◌, ◌⊎◌, refl, sym, ap, ◌∙◌, Bool, [], ◌∷◌, ◌++◌, append_assoc,
  Option, some, arith, Bytes, ltb, leb, length, take, drop, size_max, sub_size, get_elem?,
  get_elem?-eq-get_or, get_or-append_length, Option-cases, add_size, take-append, length-take,
  take-length_append, length-drop, length-append, length-replicate, replicate, Bool-cases, inl, inr,
}
use final_system_progamming.Files.Builder.{
  StringBuilder, empty_builder, resized, grown, put_text, grow_capacity, builder_reserve,
  builder_append_text,
}
use final_system_progamming.Files.Builder.Grows.{grow_capacity-le}

-- The array has its capacity; the text and a terminator fit it, or there is no array.
pub record IsBuilder (builder : StringBuilder) : Type 0 where
  pub sized : length builder.data_bytes ≡ builder.capacity
  pub fits :
      (builder.length_used < builder.capacity)
      ⊎ ((builder.length_used ≡ 0) × (builder.capacity ≡ 0))
  pub bounded : builder.capacity ≤ size_max

abbrev pub text_of : StringBuilder → Bytes
text_of builder = take builder.length_used builder.data_bytes

take-take : (n k : ℕ) (xs : Bytes) → n ≤ k → take n (take k xs) ≡ take n xs
take-take zero k xs h = refl
take-take (suc n) zero xs h = absurd (omega arith)
take-take (suc n) (suc k) [] h = refl
take-take (suc n) (suc k) (x ∷ xs) h = ap (λ ys. x ∷ ys) (take-take n k xs (omega arith))

-- Room for so many bytes and a terminator, and the text as it was.
record HasRoom (builder : StringBuilder) (additional : ℕ) (builder' : StringBuilder) : Type 0 where
  sized : length builder'.data_bytes ≡ builder'.capacity
  room : builder.length_used + additional < builder'.capacity
  bounded : builder'.capacity ≤ size_max
  same_length : builder'.length_used ≡ builder.length_used
  same_text : text_of builder' ≡ text_of builder

some-inj : {b c : StringBuilder} → ◌≡◌ {A = Option StringBuilder} (some b) (some c) → b ≡ c
some-inj h = ground (arith, h)

length-resized :
    (size : ℕ) (bytes : Bytes) → length bytes ≤ size → length (resized size bytes) ≡ size
length-resized size bytes h = omega (
  arith,
  length-take size (bytes ++ replicate size 0),
  length-append bytes (replicate size 0),
  length-replicate {A = ℕ} size 0,
)

take-resized :
    (n size : ℕ) (bytes : Bytes)
    → n ≤ length bytes
    → length bytes ≤ size
    → take n (resized size bytes) ≡ take n bytes
take-resized n size bytes h le =
    take-take n size (bytes ++ replicate size 0) (omega (arith, h, le))
    ∙ take-append n bytes (replicate size 0) h

module _ (realloc : ℕ → Bool) (builder : StringBuilder) (additional : ℕ)
    (v : IsBuilder builder) where
  grown-HasRoom :
      (new : ℕ) {builder' : StringBuilder}
      → builder.length_used + additional < new
      → new ≤ size_max
      → builder.capacity ≤ new
      → grown realloc builder new ≡ some builder'
      → HasRoom builder additional builder'
  grown-HasRoom new {builder'} room bounded more h = elim (Bool-cases (realloc new)) [
    | inl given ↦
        let bigger : StringBuilder = record builder {
          data_bytes = resized new builder.data_bytes;
          capacity = new;
        } in
        let same : bigger ≡ builder' = some-inj (rw given at h) in
        let used_le : builder.length_used ≤ length builder.data_bytes =
          ground (arith, v.fits, v.sized) in
        let size_le : length builder.data_bytes ≤ new = omega (arith, v.sized, more) in
        subst (HasRoom builder additional) {x = bigger} same (record {
          sized = length-resized new builder.data_bytes size_le;
          room = room;
          bounded = bounded;
          same_length = refl;
          same_text = take-resized builder.length_used new builder.data_bytes used_le size_le;
        })
    | inr refused ↦ absurd (ground (arith, refused, h))
  ]

  builder_reserve-HasRoom :
      {builder' : StringBuilder}
      → builder_reserve realloc builder additional ≡ some builder'
      → HasRoom builder additional builder'
  unfolding builder_reserve
  builder_reserve-HasRoom {builder'} h =
      let used = builder.length_used in
      elim (Bool-cases (ltb (sub_size (sub_size size_max used) 1) additional)) [
        | inl refused ↦ absurd (ground (arith, refused, h))
        | inr passed ↦
            let size : add_size (add_size used additional) 1 ≡ used + additional + 1 =
              ground (arith, passed, v.fits, v.bounded) in
            let small : used + additional + 1 ≤ size_max =
              ground (arith, passed, v.fits, v.bounded) in
            let h' = rw (passed, size) at h in
            let new = grow_capacity-le builder.capacity (used + additional + 1) v.bounded small in
            elim (Bool-cases (leb (used + additional + 1) builder.capacity)) [
              | inl enough ↦
                  subst (HasRoom builder additional) (some-inj (rw enough at h')) (record {
                    sized = v.sized;
                    room = ground (arith, enough);
                    bounded = v.bounded;
                    same_length = refl;
                    same_text = refl;
                  })
              | inr less ↦
                  grown-HasRoom (grow_capacity builder.capacity (used + additional + 1))
                    (omega (arith, new.0)) new.1 new.2 (rw less at h')
            ]
      ]

pub empty-IsBuilder : IsBuilder empty_builder
empty-IsBuilder = record { sized = refl; fits = inr (refl, refl); bounded = omega arith }

-- What a successful append leaves: a builder in order that holds the old text and the new one, and
-- a terminator behind it.
pub record Holds (text : Bytes) (builder : StringBuilder) : Type 0 where
  pub in_order : IsBuilder builder
  pub is_text : text_of builder ≡ text
  pub terminated : get_elem? builder.data_bytes builder.length_used ≡ some 0

put_text-Holds :
    (builder room : StringBuilder) (text : Bytes)
    → IsBuilder builder
    → HasRoom builder (length text) room
    → Holds (text_of builder ++ text) (put_text text room)
put_text-Holds builder room text v r =
    let used = room.length_used in
    let front = take used room.data_bytes in
    let back = drop (used + length text + 1) room.data_bytes in
    let bytes = front ++ (text ++ 0 ∷ back) in
    let split : bytes ≡ (front ++ text) ++ 0 ∷ back = sym (append_assoc front text (0 ∷ back)) in
    let front_size : length front ≡ used =
      omega (arith, length-take used room.data_bytes, r.sized, r.room, r.same_length) in
    let end : add_size used (length text) ≡ used + length text =
      omega (arith, r.room, r.same_length, r.bounded) in
    let total : add_size used (length text) ≡ length (front ++ text) =
      omega (arith, end, front_size, length-append front text) in
    let size : length bytes ≡ room.capacity = omega (
      arith,
      front_size,
      length-append front (text ++ 0 ∷ back),
      length-append text (0 ∷ back),
      length-drop (used + length text + 1) room.data_bytes,
      r.sized,
      r.room,
      r.same_length,
    ) in
    let inside : length (front ++ text) < length ((front ++ text) ++ 0 ∷ back) =
      omega (arith, length-append (front ++ text) (0 ∷ back)) in
    record {
      in_order = record {
        sized = size;
        fits = inl (omega (arith, end, r.room, r.same_length));
        bounded = r.bounded;
      };
      is_text =
          ap (λ n. take n bytes) total
          ∙ ap (take (length (front ++ text))) split
          ∙ take-length_append (front ++ text) (0 ∷ back)
          ∙ ap (λ xs. xs ++ text) r.same_text;
      terminated =
          ap (get_elem? bytes) total
          ∙ ap (λ xs. get_elem? xs (length (front ++ text))) split
          ∙ get_elem?-eq-get_or _ _ 0 inside
          ∙ ap some (get_or-append_length (front ++ text) 0 back 0);
    }

-- A successful `builder_append_text` on a builder in order, whatever `realloc` refuses: the array
-- is grown enough, the bytes are written inside it, and it then holds the old text, the new one
-- and a terminator.
pub builder_append_text-Holds :
    (realloc : ℕ → Bool) {builder builder' : StringBuilder} (text : Bytes)
    → IsBuilder builder
    → builder_append_text realloc builder text ≡ some builder'
    → Holds (text_of builder ++ text) builder'
unfolding builder_append_text
builder_append_text-Holds realloc {builder} {builder'} text v h =
    elim (Option-cases (builder_reserve realloc builder (length text))) [
      | inl refused ↦ absurd (ground (arith, rw refused at h))
      | inr (room, given) ↦ subst (Holds (text_of builder ++ text)) (some-inj (rw given at h)) (
          put_text-Holds builder room text v
            (builder_reserve-HasRoom realloc builder (length text) v given))
    ]
