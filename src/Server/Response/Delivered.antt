-- ===== src/Server/Response/Delivered.antt =====
-- What the client gets of a response.
use mathlib.Core.Path.{subst}
use final_system_progamming.Common.{
  ℕ, zero, suc, ◌+◌, ◌-◌, ◌≡◌, ◌≤◌, ◌<◌, min, refl, ap, ◌∙◌, true, false, List, [], ◌∷◌, ◌++◌,
  arith, Bytes, some, leb, ◌==◌, length, take, drop, length-append, length-take, length-drop,
}
use final_system_progamming.Server.Socket.{Outcome, Sent, send_all}
use final_system_progamming.Server.Socket.Delivery.{willing, send_all-willing}
use final_system_progamming.Server.Read.{read_buffer_size}
use final_system_progamming.Server.Response.{send_then, respond, response_buffer_size, copy_file}

-- The sender puts the text out, and uses one call for each byte at most.
abbrev pub Puts : (List Outcome → Sent) → Bytes → Type 0
Puts send text =
    (sends : List Outcome)
    → length text ≤ willing sends
    → ((send sends).done ≡ true)
      × ((send sends).bytes ≡ text)
      × (willing sends ≤ willing (send sends).sends + length text)

send_then-Puts :
    (front back : Bytes) (next : List Outcome → Sent)
    → Puts next back
    → Puts (λ sends. send_then (send_all sends front) next) (front ++ back)
send_then-Puts front back next puts sends h =
    let size = length-append front back in
    let first = send_all-willing sends front (omega (arith, size)) in
    let second = puts (send_all sends front).sends (omega (arith, size, first.2)) in
    rw (first.0) (
      second.0,
      ap (λ xs. xs ++ (next (send_all sends front).sends).bytes) first.1
          ∙ ap (λ xs. front ++ xs) second.1,
      omega (arith, size, first.2, second.2),
    )

take-nil : (n : ℕ) → take {A = ℕ} n [] ≡ []
take-nil zero = refl
take-nil (suc n) = refl

take-split : (n k : ℕ) (xs : Bytes) → take n xs ++ take k (drop n xs) ≡ take (n + k) xs
take-split zero k xs = ap (λ m. take m xs) (omega arith)
take-split (suc n) k [] =
    let next : suc n + k ≡ suc (n + k) = omega arith in rw next (rw (take-nil k) refl)
take-split (suc n) k (x ∷ xs) =
    let next : suc n + k ≡ suc (n + k) = omega arith in
    rw next (ap (λ ys. x ∷ ys) (take-split n k xs))

-- The rounds of the copy put out the bytes asked for, where the file has them.
pub copy_file-Puts :
    (fuel remaining : ℕ) (contents : Bytes)
    → remaining ≤ fuel
    → remaining ≤ length contents
    → Puts (copy_file fuel remaining contents) (take remaining contents)
unfolding copy_file
copy_file-Puts zero zero contents h le sends w = (refl, refl, omega arith)
copy_file-Puts zero (suc remaining) contents h le sends w = absurd (omega arith)
copy_file-Puts (suc fuel) zero contents h le sends w = (refl, refl, omega arith)
copy_file-Puts (suc fuel) (suc r) contents h le sends w =
    let want = min (suc r) read_buffer_size in
    let got = take want contents in
    let size : length got ≡ want = omega (arith, length-take want contents) in
    let more : (length got == 0) ≡ false = ground (arith, size) in
    let left : want + (suc r - length got) ≡ suc r = omega (arith, size) in
    let whole : got ++ take (suc r - length got) (drop want contents) ≡ take (suc r) contents =
      take-split want (suc r - length got) contents ∙ ap (λ m. take m contents) left in
    let later =
      copy_file-Puts fuel (suc r - length got) (drop want contents) (omega (arith, size))
        (omega (arith, size, length-drop want contents)) in
    let goes : (suc r == 0) ≡ false = ground arith in
    let rest = copy_file fuel (suc r - length got) (drop want contents) in
    let puts : Puts (λ s. send_then (send_all s got) rest) (take (suc r) contents) =
      subst (Puts (λ s. send_then (send_all s got) rest)) whole
        (send_then-Puts got (take (suc r - length got) (drop want contents)) rest later) in
    rw (goes, more) (puts sends w)

pub respond-Puts :
    (sends : List Outcome) (headers body : Bytes) (next : List Outcome → Sent) (status n : ℕ)
    → length headers < response_buffer_size
    → Puts next body
    → length headers + length body ≤ willing sends
    → let p = respond sends headers next status n in
      (p.bytes ≡ headers ++ body)
      × (p.result ≡ some (record { status_code = status; body_bytes = n }))
respond-Puts sends headers body next status n fits puts w =
    let room : leb response_buffer_size (length headers) ≡ false = ground (arith, fits) in
    let p =
      send_then-Puts headers body next puts sends (omega (arith, w, length-append headers body)) in
    rw (room, p.0) (p.1, refl)
