-- ===== src/Server/Socket/Delivery.antt =====
-- `send_all` sends all or reports that it did not.
use final_system_progamming.Common.{
  ℕ, zero, suc, ◌+◌, ◌≡◌, ◌≤◌, ◌↔◌, refl, ap, ◌∙◌, true, false, List, [], ◌∷◌, ◌++◌, append_assoc,
  arith, Bytes, leb, ◌==◌, length, take, drop, length-drop, take-append-drop,
}
use final_system_progamming.Server.Socket.{Outcome, moves, interrupted, failed, send_all}

-- How many bytes the calls can move before one of them fails or moves none.
abbrev pub allows : List Outcome → ℕ
allows [] = 0
allows (interrupted ∷ calls) = allows calls
allows (failed ∷ calls) = 0
allows (moves zero ∷ calls) = 0
allows (moves (suc n) ∷ calls) = suc n + allows calls

send_all-done :
    (sends : List Outcome) (text : Bytes)
    → (send_all sends text).done ≡ leb (length text) (allows sends)
unfolding send_all
send_all-done sends [] = ground arith
send_all-done [] (b ∷ text) = ground arith
send_all-done (interrupted ∷ sends) (b ∷ text) = send_all-done sends (b ∷ text)
send_all-done (failed ∷ sends) (b ∷ text) = ground arith
send_all-done (moves zero ∷ sends) (b ∷ text) = ground arith
send_all-done (moves (suc n) ∷ sends) (b ∷ text) =
    ground (arith, send_all-done sends (drop n text), length-drop n text)

send_all-prefix :
    (sends : List Outcome) (text : Bytes)
    → (unsent : Bytes) × ((send_all sends text).bytes ++ unsent ≡ text)
      × ((send_all sends text).done ≡ true → (send_all sends text).bytes ≡ text)
unfolding send_all
send_all-prefix sends [] = ([], refl, λ h. refl)
send_all-prefix [] (b ∷ text) = (b ∷ text, refl, λ h. cc)
send_all-prefix (interrupted ∷ sends) (b ∷ text) = send_all-prefix sends (b ∷ text)
send_all-prefix (failed ∷ sends) (b ∷ text) = (b ∷ text, refl, λ h. cc)
send_all-prefix (moves zero ∷ sends) (b ∷ text) = (b ∷ text, refl, λ h. cc)
send_all-prefix (moves (suc n) ∷ sends) (b ∷ text) =
    let p = send_all-prefix sends (drop n text) in
    let goes : (suc n == 0) ≡ false = ground arith in
    let joined =
      ap (λ xs. b ∷ xs) (append_assoc (take n text) (send_all sends (drop n text)).bytes p.0) in
    (
      p.0,
      rw goes (
          joined
          ∙ ap (λ xs. b ∷ (take n text ++ xs)) p.1
          ∙ ap (λ xs. b ∷ xs) (take-append-drop n text)),
      rw goes (λ h.
          ap (λ xs. b ∷ (take n text ++ xs)) (p.2 h) ∙ ap (λ xs. b ∷ xs) (take-append-drop n text)),
    )

-- Whatever the calls of `send` do, what goes out is a front part of the text. `send_all` succeeds
-- exactly when the calls can move the whole text before one of them fails, and the whole text has
-- then gone out.
send_all_lem :
    (sends : List Outcome) (text : Bytes)
    → ((unsent : Bytes) × ((send_all sends text).bytes ++ unsent ≡ text))
      × (((send_all sends text).done ≡ true) ↔ (length text ≤ allows sends))
      × ((send_all sends text).done ≡ true → (send_all sends text).bytes ≡ text)
send_all_lem sends text =
    let p = send_all-prefix sends text in
    ((p.0, p.1), ground (arith, send_all-done sends text), p.2)

-- How many calls move something before one of them fails or moves nothing.
abbrev pub willing : List Outcome → ℕ
willing [] = 0
willing (interrupted ∷ calls) = willing calls
willing (failed ∷ calls) = 0
willing (moves zero ∷ calls) = 0
willing (moves (suc n) ∷ calls) = suc (willing calls)

pub send_all-willing :
    (sends : List Outcome) (text : Bytes)
    → length text ≤ willing sends
    → ((send_all sends text).done ≡ true)
      × ((send_all sends text).bytes ≡ text)
      × (willing sends ≤ willing (send_all sends text).sends + length text)
unfolding send_all
send_all-willing sends [] h = (refl, refl, omega arith)
send_all-willing [] (b ∷ text) h = absurd (omega arith)
send_all-willing (interrupted ∷ sends) (b ∷ text) h = send_all-willing sends (b ∷ text) h
send_all-willing (failed ∷ sends) (b ∷ text) h = absurd (omega arith)
send_all-willing (moves zero ∷ sends) (b ∷ text) h = absurd (omega arith)
send_all-willing (moves (suc n) ∷ sends) (b ∷ text) h =
    let goes : (suc n == 0) ≡ false = ground arith in
    let p = send_all-willing sends (drop n text) (omega (arith, length-drop n text)) in
    rw goes (
      p.0,
      ap (λ xs. b ∷ (take n text ++ xs)) p.1 ∙ ap (λ xs. b ∷ xs) (take-append-drop n text),
      omega (arith, p.2, length-drop n text),
    )
