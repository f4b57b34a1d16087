-- ===== src/Log/Lines.antt =====
-- What can be read back from the log.
use final_system_progamming.Common.{
  ℕ, ◌+◌, ◌≡◌, ◌≢◌, refl, sym, ap, ◌∙◌, true, false, [], ◌∷◌, ◌++◌, append_assoc, arith, Bytes,
  Avoids, All-append, codes, decimal, decimal-value, decimal-digits, decimal_value, all_digits,
  count, count-append, split_first, split_last, c_string,
}
use final_system_progamming.Log.{log_line, access_log_write}

decimal_injective : (m n : ℕ) → decimal m ≡ decimal n → m ≡ n
decimal_injective m n e = sym (decimal-value m) ∙ ap decimal_value e ∙ decimal-value n

-- No digit is another byte.
digits-Avoids :
    (c : ℕ) (text : Bytes) → all_digits (c ∷ []) ≡ false → all_digits text ≡ true → Avoids c text
digits-Avoids c [] d h = tt
digits-Avoids c (x ∷ text) d h = ground (arith, d, h, digits-Avoids c text d)

decimal-Avoids : (c n : ℕ) → all_digits (c ∷ []) ≡ false → Avoids c (decimal n)
decimal-Avoids c n d = digits-Avoids c (decimal n) d (decimal-digits n)

-- The part of a line behind the timestamp.
abbrev back : Bytes → ℕ → ℕ → Bytes
back request_line status bytes =
    request_line
    ++ (codes "\" " ++ (decimal status ++ (codes " " ++ (decimal bytes ++ codes "\n"))))

back-words :
    (line : Bytes) (status bytes : ℕ)
    → back line status bytes
      ≡ ((line ++ b'"' ∷ []) ++ b' ' ∷ decimal status) ++ b' ' ∷ (decimal bytes ++ b'\n' ∷ [])
back-words line status bytes =
    let rest = b' ' ∷ (decimal bytes ++ b'\n' ∷ []) in
    sym (
      append_assoc (line ++ b'"' ∷ []) (b' ' ∷ decimal status) rest
      ∙ append_assoc line (b'"' ∷ []) (b' ' ∷ (decimal status ++ rest)))

back_injective :
    (line line' : Bytes) (status status' bytes bytes' : ℕ)
    → back line status bytes ≡ back line' status' bytes'
    → (line ≡ line') × (status ≡ status') × (bytes ≡ bytes')
back_injective line line' status status' bytes bytes' e =
    let words = sym (back-words line status bytes) ∙ e ∙ back-words line' status' bytes' in
    let last = split_last b' ' _ _ _ _ (bytes-Avoids bytes) (bytes-Avoids bytes') words in
    let number =
      split_first b'\n' (decimal bytes) (decimal bytes') [] [] (decimal-Avoids b'\n' bytes refl)
        (decimal-Avoids b'\n' bytes' refl) last.1 in
    let middle =
      split_last b' ' _ _ (decimal status) (decimal status') (decimal-Avoids b' ' status refl)
        (decimal-Avoids b' ' status' refl) last.0 in
    let front = split_last b'"' line line' [] [] tt tt middle.0 in
    (front.0, decimal_injective status status' middle.1, decimal_injective bytes bytes' number.0)
  where
    bytes-Avoids : (n : ℕ) → Avoids b' ' (decimal n ++ b'\n' ∷ [])
    bytes-Avoids n =
        All-append (λ x. x ≢ b' ') (decimal n) (b'\n' ∷ []) (decimal-Avoids b' ' n refl)
          (omega arith)

-- A line of the log can be read back: two lines are equal only if the address, the timestamp, the
-- request line, the status and the number of bytes are, where the addresses have no space and the
-- timestamps no closing bracket, whatever stands in the request lines, quotation marks included.
pub log_line_injective :
    (ip ip' time time' line line' : Bytes) (status status' bytes bytes' : ℕ)
    → Avoids b' ' ip
    → Avoids b' ' ip'
    → Avoids b']' time
    → Avoids b']' time'
    → log_line ip time line status bytes ≡ log_line ip' time' line' status' bytes'
    → (ip ≡ ip') × (time ≡ time') × (line ≡ line') × (status ≡ status') × (bytes ≡ bytes')
unfolding log_line
log_line_injective ip ip' time time' line line' status status' bytes bytes' hi hi' ht ht' e =
    let first = split_first b' ' ip ip' _ _ hi hi' e in
    let behind = drop_mark _ _ first.1 in
    let second = split_first b']' time time' _ _ ht ht' behind in
    let third = back_injective line line' status status' bytes bytes' (drop_mark2 _ _ second.1) in
    (first.0, second.0, third.0, third.1, third.2)
  where
    drop_mark :
        (xs ys : Bytes)
        → b'-' ∷ b' ' ∷ b'-' ∷ b' ' ∷ b'[' ∷ xs ≡ b'-' ∷ b' ' ∷ b'-' ∷ b' ' ∷ b'[' ∷ ys
        → xs ≡ ys
    drop_mark xs ys h = ground (arith, h)

    drop_mark2 : (xs ys : Bytes) → b' ' ∷ b'"' ∷ xs ≡ b' ' ∷ b'"' ∷ ys → xs ≡ ys
    drop_mark2 xs ys h = ground (arith, h)

count-Avoids : (c : ℕ) (xs : Bytes) → Avoids c xs → count c xs ≡ 0
count-Avoids c [] h = refl
count-Avoids c (x ∷ xs) h = ground (arith, h.0, count-Avoids c xs h.1)

-- One call of `access_log_write` adds to the file, for a timestamp and an address without line
-- feeds, one line and as many more as the request line has line feeds: one exactly if it has none.
pub access_log_write-lines :
    (file time ip request_line : Bytes) (status bytes : ℕ)
    → Avoids b'\n' time
    → Avoids b'\n' (c_string ip)
    → count b'\n' (access_log_write file time ip request_line status bytes)
      ≡ count b'\n' file + (1 + count b'\n' (c_string request_line))
unfolding access_log_write log_line
access_log_write-lines file time ip request_line status bytes ht hi =
    let line = c_string request_line in
    let words = back-words line status bytes in
    let line_end : Bytes = decimal bytes ++ b'\n' ∷ [] in
    let front : Bytes = line ++ b'"' ∷ [] in
    let middle : Bytes = front ++ b' ' ∷ decimal status in
    omega (
      arith,
      count-append b'\n' file (log_line (c_string ip) time line status bytes),
      count-append b'\n' (c_string ip)
          (codes " - - [" ++ (time ++ (codes "] \"" ++ back line status bytes))),
      count-append b'\n' time (codes "] \"" ++ back line status bytes),
      ap (count b'\n') words,
      count-append b'\n' middle (b' ' ∷ line_end),
      count-append b'\n' front (b' ' ∷ decimal status),
      count-append b'\n' line (b'"' ∷ []),
      count-append b'\n' (decimal bytes) (b'\n' ∷ []),
      count-Avoids b'\n' (c_string ip) hi,
      count-Avoids b'\n' time ht,
      count-Avoids b'\n' (decimal status) (decimal-Avoids b'\n' status refl),
      count-Avoids b'\n' (decimal bytes) (decimal-Avoids b'\n' bytes refl),
    )
