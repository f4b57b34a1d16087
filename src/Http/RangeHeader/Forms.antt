-- ===== src/Http/RangeHeader/Forms.antt =====
-- The three forms of a byte range, and what the stored range satisfies.
use final_system_progamming.Common.{
  ℕ, ◌<◌, ◌≡◌, ◌≢◌, refl, sym, ap, ◌∙◌, Bool, true, false, ◌||◌, [], ◌∷◌, ◌++◌, none, some, arith,
  Bytes, Avoids, length, memchr, memchr-append, memchr-none, isdigit, all_digits, ◌==◌,
  length-append, take-length_append, drop-length-add, append_assoc, All-append, codes,
}
use final_system_progamming.Http.Types.{HttpRequest}
use final_system_progamming.Http.Scan.{
  ascii_case_equal_bounded, skip_spaces, trim_trailing_span, parse_size_token,
}
use final_system_progamming.Http.Scan.Laws.{trim_trailing_span-last, skip_spaces-cons}
use final_system_progamming.Http.Scan.Number.{parse_size_token-some}
use final_system_progamming.Http.RangeHeader.{
  prefix, parse_suffix, parse_last, parse_first, parse_range_spec, parse_range_header,
}

digits-Avoids : (c : ℕ) (text : Bytes) → isdigit c ≡ false → all_digits text ≡ true → Avoids c text
digits-Avoids c [] h d = tt
digits-Avoids c (x ∷ text) h d = (λ e. ground arith, digits-Avoids c text h (ground arith))

-- A nonempty text by its last byte.
pub record EndsIn (text : Bytes) : Type 0 where
  pub front : Bytes
  pub last : ℕ
  pub splits : text ≡ front ++ last ∷ []
  pub is_digit : isdigit last ≡ true

digits-EndsIn : (text : Bytes) → all_digits text ≡ true → text ≢ [] → EndsIn text
digits-EndsIn [] d ne = absurd (ne refl)
digits-EndsIn (x ∷ []) d ne = record {
  front = [];
  last = x;
  splits = refl;
  is_digit = ground arith;
}
digits-EndsIn (x ∷ y ∷ text) d ne =
    let e = digits-EndsIn (y ∷ text) (ground arith) (λ h. cc) in
    record {
      front = x ∷ e.front;
      last = e.last;
      splits = ap (λ ys. x ∷ ys) e.splits;
      is_digit = e.is_digit;
    }

abbrev ends_span : ℕ → Bool
ends_span c = (c == b' ' || c == b'\t') || c == b'\r' || c == b'\n'

-- Behind the prefix, a text that no white space ends is read as the range.
parse_range_header-prefix :
    (front : Bytes) (last : ℕ) (r : HttpRequest)
    → ends_span last ≡ false
    → parse_range_header (prefix ++ (front ++ last ∷ [])) r
      ≡ parse_range_spec (front ++ last ∷ []) r
unfolding parse_range_header ascii_case_equal_bounded
parse_range_header-prefix front last r h =
    let value : skip_spaces (trim_trailing_span (prefix ++ (front ++ last ∷ [])))
        ≡ prefix ++ (front ++ last ∷ []) =
      rw (trim_trailing_span-last (prefix ++ front) last h) (skip_spaces-cons b'b' _ refl) in
    rw value (ground (arith, length-append front (last ∷ [])))

-- What a token that is read gives the proofs below.
pub record IsToken (text : Bytes) (n : ℕ) : Type 0 where
  pub reads : parse_size_token text ≡ some n
  pub digits : all_digits text ≡ true
  pub ends : EndsIn text
  pub some_bytes : 0 < length text

pub token : (text : Bytes) (n : ℕ) → parse_size_token text ≡ some n → IsToken text n
token [] n h = absurd ((parse_size_token-some [] n h).1 refl)
token (x ∷ text) n h =
    let s = parse_size_token-some (x ∷ text) n h in
    record {
      reads = h;
      digits = s.0;
      ends = digits-EndsIn (x ∷ text) s.0 s.1;
      some_bytes = omega arith;
    }

module _ (a b : Bytes) {m n : ℕ} (r : HttpRequest) (ta : IsToken a m) (tb : IsToken b n) where
  spec_closed :
      parse_range_spec (a ++ b'-' ∷ b) r
      ≡ record r { has_range = true; range_start = m; range_end_provided = true; range_end = n }
  unfolding parse_range_spec parse_first parse_last
  spec_closed =
      let no_comma : memchr b',' (a ++ b'-' ∷ b) ≡ none = memchr-none b',' _ (
        All-append _ a _ (digits-Avoids b',' a refl ta.digits)
          (λ e. omega arith, digits-Avoids b',' b refl tb.digits)) in
      let dash : memchr b'-' (a ++ b'-' ∷ b) ≡ some (length a) =
        memchr-append b'-' a b (digits-Avoids b'-' a refl ta.digits) in
      ground (
        arith,
        no_comma,
        dash,
        take-length_append a (b'-' ∷ b),
        drop-length-add 1 a (b'-' ∷ b),
        ta.reads,
        tb.reads,
        ta.some_bytes,
        tb.some_bytes,
      )

  pub range_closed :
      parse_range_header (prefix ++ (a ++ b'-' ∷ b)) r
      ≡ record r { has_range = true; range_start = m; range_end_provided = true; range_end = n }
  range_closed =
      let whole : a ++ b'-' ∷ b ≡ (a ++ b'-' ∷ tb.ends.front) ++ tb.ends.last ∷ [] =
        ap (λ t. a ++ b'-' ∷ t) tb.ends.splits
        ∙ sym (append_assoc a (b'-' ∷ tb.ends.front) (tb.ends.last ∷ [])) in
      ap (λ t. parse_range_header (prefix ++ t) r) whole
      ∙ parse_range_header-prefix _ tb.ends.last r (ground (arith, tb.ends.is_digit))
      ∙ ap (λ t. parse_range_spec t r) (sym whole)
      ∙ spec_closed

module _ (a : Bytes) {m : ℕ} (r : HttpRequest) (ta : IsToken a m) where
  spec_open : parse_range_spec (a ++ b'-' ∷ []) r ≡ record r { has_range = true; range_start = m }
  unfolding parse_range_spec parse_first parse_last
  spec_open =
      let no_comma : memchr b',' (a ++ b'-' ∷ []) ≡ none =
        memchr-none b',' _
          (All-append _ a _ (digits-Avoids b',' a refl ta.digits) (λ e. omega arith, tt)) in
      let dash : memchr b'-' (a ++ b'-' ∷ []) ≡ some (length a) =
        memchr-append b'-' a [] (digits-Avoids b'-' a refl ta.digits) in
      ground (
        arith,
        no_comma,
        dash,
        take-length_append a (b'-' ∷ []),
        drop-length-add 1 a (b'-' ∷ []),
        ta.reads,
        ta.some_bytes,
      )

  range_open :
      parse_range_header (prefix ++ (a ++ b'-' ∷ [])) r
      ≡ record r { has_range = true; range_start = m }
  range_open = parse_range_header-prefix a b'-' r refl ∙ spec_open

  spec_suffix :
      0 < m
      → parse_range_spec (b'-' ∷ a) r
        ≡ record r { has_range = true; range_is_suffix = true; range_start = m }
  unfolding parse_range_spec parse_suffix
  spec_suffix h = ground (arith, ta.reads, memchr-none b',' a (digits-Avoids b',' a refl ta.digits))

  pub range_suffix :
      0 < m
      → parse_range_header (prefix ++ (b'-' ∷ a)) r
        ≡ record r { has_range = true; range_is_suffix = true; range_start = m }
  range_suffix h =
      let whole : b'-' ∷ a ≡ (b'-' ∷ ta.ends.front) ++ ta.ends.last ∷ [] =
        ap (λ t. b'-' ∷ t) ta.ends.splits in
      ap (λ t. parse_range_header (prefix ++ t) r) whole
      ∙ parse_range_header-prefix (b'-' ∷ ta.ends.front) ta.ends.last r
          (ground (arith, ta.ends.is_digit))
      ∙ ap (λ t. parse_range_spec t r) (sym whole)
      ∙ spec_suffix h

-- The three forms, with any two numbers that `parse_size_token` reads, the second not 0:
-- `bytes=a-b` stores both positions, `bytes=a-` stores the first and leaves the last as it was,
-- and `bytes=-b` stores a suffix length. Nothing else of the request changes.
pub parse_range_header_forms :
    (a b : Bytes) (m n : ℕ) (r : HttpRequest)
    → parse_size_token a ≡ some m
    → parse_size_token b ≡ some n
    → 0 < n
    → (parse_range_header (codes "bytes=" ++ (a ++ b'-' ∷ b)) r
        ≡ record r { has_range = true; range_start = m; range_end_provided = true; range_end = n })
      × (parse_range_header (codes "bytes=" ++ (a ++ b'-' ∷ [])) r
          ≡ record r { has_range = true; range_start = m })
      × (parse_range_header (codes "bytes=" ++ (b'-' ∷ b)) r
          ≡ record r { has_range = true; range_is_suffix = true; range_start = n })
parse_range_header_forms a b m n r ea eb pos = (
  range_closed a b r (token a m ea) (token b n eb),
  range_open a r (token a m ea),
  range_suffix b r (token b n eb) pos,
)
