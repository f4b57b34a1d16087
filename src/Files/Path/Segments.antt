-- ===== src/Files/Path/Segments.antt =====
-- `contains_dot_dot_segment` against the list of a path's segments.
use final_system_progamming.Common.{
  ℕ, zero, suc, ◌≤◌, ◌<◌, ◌≡◌, ◌≢◌, refl, ap, ◌∙◌, Bool, false, ◌||◌, List, [], ◌∷◌, arith, Bytes,
  Avoids, bytes_eq, codes, ◌==◌, if◌then◌else◌, length, Bool-cases, inl, inr,
}
use final_system_progamming.Files.Path.{
  skip_slashes, skip_segment, at_dot_dot, dot_dot_from, contains_dot_dot_segment,
}

abbrev extend : ℕ → List Bytes → List Bytes
extend c [] = (c ∷ []) ∷ []
extend c (segment ∷ more) = (c ∷ segment) ∷ more

-- The texts between the slashes, empty ones included.
abbrev pub segments : Bytes → List Bytes
segments [] = [] ∷ []
segments (c ∷ path) = if c == b'/' then [] ∷ segments path else extend c (segments path)

abbrev pub has_segment : Bytes → List Bytes → Bool
has_segment s [] = false
has_segment s (segment ∷ more) = bytes_eq segment s || has_segment s more

abbrev dot_dot : Bytes
dot_dot = codes ".."

abbrev has : Bytes → Bool
has path = has_segment dot_dot (segments path)

abbrev before_slash : Bytes → Bytes
before_slash [] = []
before_slash (c ∷ p) = if c == b'/' then [] else c ∷ before_slash p

has-skip_slashes : (p : Bytes) → has (skip_slashes p) ≡ has p
unfolding skip_slashes
has-skip_slashes [] = refl
has-skip_slashes (c ∷ p) = ground (arith, has-skip_slashes p)

record Parts (p : Bytes) : Type 0 where
  more : List Bytes
  splits : segments p ≡ before_slash p ∷ more
  later : has_segment dot_dot more ≡ has (skip_segment p)

parts : (p : Bytes) → Avoids 0 p → Parts p
unfolding skip_segment
parts [] a = record { more = []; splits = refl; later = refl }
parts (c ∷ p) a = elim (Bool-cases (c == b'/')) [
  | inl slash ↦ record {
    more = segments p;
    splits = ground (arith, slash);
    later = ground (arith, slash);
  }
  | inr other ↦
      let rest = parts p a.1 in
      record {
        more = rest.more;
        splits = rw other (ap (extend c) rest.splits);
        later = ground (arith, a.0, other, rest.later);
      }
]

segments-first :
    (p : Bytes) → Avoids 0 p → has p ≡ (bytes_eq (before_slash p) dot_dot || has (skip_segment p))
segments-first p a =
    let rest = parts p a in
    ap (has_segment dot_dot) rest.splits
    ∙ ap (λ b. bytes_eq (before_slash p) dot_dot || b) rest.later

at_dot_dot-first : (p : Bytes) → Avoids 0 p → at_dot_dot p ≡ bytes_eq (before_slash p) dot_dot
at_dot_dot-first [] a = refl
at_dot_dot-first (x ∷ []) a = ground (arith, a.0)
at_dot_dot-first (x ∷ y ∷ []) a = ground (arith, a.0, a.1.0)
at_dot_dot-first (x ∷ y ∷ z ∷ p) a = ground (arith, a.0, a.1.0, a.1.1.0)

skip_slashes-Avoids : (p : Bytes) → Avoids 0 p → Avoids 0 (skip_slashes p)
unfolding skip_slashes
skip_slashes-Avoids [] a = tt
skip_slashes-Avoids (c ∷ p) a = elim (Bool-cases (c == b'/')) [
  | inl slash ↦ rw (slash, skip_slashes) (skip_slashes-Avoids p a.1)
  | inr other ↦ rw (other, skip_slashes) a
]

skip_segment-Avoids : (p : Bytes) → Avoids 0 p → Avoids 0 (skip_segment p)
unfolding skip_segment
skip_segment-Avoids [] a = tt
skip_segment-Avoids (c ∷ p) a = elim (Bool-cases (c == b'/' || c == 0)) [
  | inl ends ↦ rw (ends, skip_segment) a
  | inr more ↦ rw (more, skip_segment) (skip_segment-Avoids p a.1)
]

length-skip_slashes : (p : Bytes) → length (skip_slashes p) ≤ length p
unfolding skip_slashes
length-skip_slashes [] = omega arith
length-skip_slashes (c ∷ p) = ground (arith, length-skip_slashes p)

length-skip_segment : (p : Bytes) → length (skip_segment p) ≤ length p
unfolding skip_segment
length-skip_segment [] = omega arith
length-skip_segment (c ∷ p) = ground (arith, length-skip_segment p)

-- A round passes over a byte.
round-lt :
    (c : ℕ) (p : Bytes) → c ≢ 0 → length (skip_segment (skip_slashes (c ∷ p))) < length (c ∷ p)
unfolding skip_slashes skip_segment
round-lt c p h =
    ground
      (arith, length-skip_slashes p, length-skip_segment (skip_slashes p), length-skip_segment p)

dot_dot_from-has :
    (fuel : ℕ) (p : Bytes) → Avoids 0 p → length p < fuel → dot_dot_from fuel p ≡ has p
unfolding dot_dot_from
dot_dot_from-has zero p a h = absurd (omega arith)
dot_dot_from-has (suc fuel) [] a h = refl
dot_dot_from-has (suc fuel) (c ∷ p) a h =
    let s = skip_slashes (c ∷ p) in
    let plain = skip_slashes-Avoids (c ∷ p) a in
    ground (
      arith,
      a.0,
      has-skip_slashes (c ∷ p),
      segments-first s plain,
      at_dot_dot-first s plain,
      dot_dot_from-has fuel (skip_segment s) (skip_segment-Avoids s plain)
          (omega (arith, round-lt c p a.0)),
    )

-- The loop finds a `..` exactly when one of the texts between the slashes of the C string is `..`,
-- wherever it stands and however many slashes stand around it.
pub contains_dot_dot_segment-segments :
    (path : Bytes)
    → Avoids 0 path
    → contains_dot_dot_segment path ≡ has_segment (codes "..") (segments path)
unfolding contains_dot_dot_segment
contains_dot_dot_segment-segments path a = dot_dot_from-has (suc (length path)) path a (omega arith)
