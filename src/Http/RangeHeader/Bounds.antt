-- ===== src/Http/RangeHeader/Bounds.antt =====
-- What a stored range satisfies.
use final_system_progamming.Common.{
  ℕ, ◌+◌, ◌≤◌, ◌<◌, ◌≡◌, true, false, arith, Bytes, take, drop, memchr, ◌==◌, size_max, Bool-cases,
  Option-cases, inl, inr,
}
use final_system_progamming.Http.Types.{HttpRequest}
use final_system_progamming.Http.Scan.{skip_spaces, trim_trailing_span, parse_size_token}
use final_system_progamming.Http.Scan.Number.{parse_size_token-some}
use final_system_progamming.Http.RangeHeader.{
  parse_suffix, parse_last, parse_first, parse_range_spec, parse_range_header,
}

-- What `resolve_range` is entitled to: both numbers fit a `size_t`, and a suffix is not empty.
pub record IsRange (r : HttpRequest) : Type 0 where
  pub start_fits : r.range_start ≤ size_max
  pub end_fits : r.range_end ≤ size_max
  pub suffix_pos : r.range_is_suffix ≡ true → 0 < r.range_start

module _ (text : Bytes) {r : HttpRequest} (v : IsRange r) where
  parse_suffix-IsRange : IsRange (parse_suffix text r)
  unfolding parse_suffix
  parse_suffix-IsRange = elim (Option-cases (parse_size_token text)) [
    | inl e ↦ rw (e, parse_suffix) v
    | inr (n, e) ↦ rw (e, parse_suffix) (ground (arith, parse_size_token-some text n e))
  ]

  parse_last-IsRange : IsRange (parse_last text r)
  unfolding parse_last
  parse_last-IsRange = elim (Option-cases (parse_size_token text)) [
    | inl e ↦ rw (e, parse_last) (ground arith)
    | inr (n, e) ↦ rw (e, parse_last) (ground (arith, parse_size_token-some text n e))
  ]

started-IsRange :
    {r : HttpRequest} (n : ℕ)
    → n ≤ size_max
    → r.range_is_suffix ≡ false
    → IsRange r
    → IsRange (record r { has_range = true; range_start = n })
started-IsRange n h s v = record { start_fits = h; end_fits = v.end_fits; suffix_pos = λ e. cc }

parse_first-IsRange :
    (before after : Bytes) {r : HttpRequest}
    → r.range_is_suffix ≡ false
    → IsRange r
    → IsRange (parse_first before after r)
unfolding parse_first
parse_first-IsRange before after s v = elim (Option-cases (parse_size_token before)) [
  | inl e ↦ rw (e, parse_first) v
  | inr (n, e) ↦
      rw (e, parse_first)
        (parse_last-IsRange after (started-IsRange n (parse_size_token-some before n e).2 s v))
]

parse_range_spec-IsRange :
    (spec : Bytes) {r : HttpRequest}
    → r.range_is_suffix ≡ false
    → IsRange r
    → IsRange (parse_range_spec spec r)
unfolding parse_range_spec
parse_range_spec-IsRange spec s v = elim (Option-cases (memchr b',' spec)) [
  | inr (i, e) ↦ rw (e, parse_range_spec) v
  | inl no_comma ↦
      rw (no_comma, parse_range_spec)
        (elim (Option-cases (memchr b'-' spec)) [
          | inl e ↦ rw e v
          | inr (dash, e) ↦ rw e (elim (Bool-cases (dash == 0)) [
            | inl z ↦ rw z (parse_suffix-IsRange (drop 1 spec) v)
            | inr nz ↦ rw nz (parse_first-IsRange (take dash spec) (drop (dash + 1) spec) s v)
          ])
        ])
]

-- Whatever the header's value, a request in which no suffix was stored yet, and whose numbers are
-- in order, keeps them in order.
parse_range_header-IsRange :
    (span : Bytes) {r : HttpRequest}
    → r.range_is_suffix ≡ false
    → IsRange r
    → IsRange (parse_range_header span r)
unfolding parse_range_header
parse_range_header-IsRange span s v =
    let value = skip_spaces (trim_trailing_span span) in
    ground (arith, parse_range_spec-IsRange (drop 6 value) s v)
