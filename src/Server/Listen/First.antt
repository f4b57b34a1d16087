-- ===== src/Server/Listen/First.antt =====
-- The address that is listened on, and what is left open of the others.
use final_system_progamming.Common.{
  ℕ, ◌+◌, ◌≡◌, refl, sym, ◌∙◌, suc, Bool, true, false, ◌&&◌, List, [], ◌∷◌, Option, none, some,
  decimal, if◌then◌else◌, count, count-append, arith,
}
use final_system_progamming.Server.Config.{ServerConfig}
use final_system_progamming.Server.Listen.{
  Address, Net, GetAddrInfo, open_fd, close_fd, try_socket, try_addresses, with_list,
  create_listening_socket,
}

-- The socket of an address for which all three calls succeed.
abbrev pub usable : Address → Option ℕ
usable a = if a.bind && a.listen then a.socket else none

abbrev or_else : Option ℕ → Option ℕ → Option ℕ
or_else none other = other
or_else (some fd) other = some fd

abbrev pub first_usable : List Address → Option ℕ
first_usable [] = none
first_usable (a ∷ addresses) = or_else (usable a) (first_usable addresses)

abbrev pub first_of : Option (List Address) → Option ℕ
first_of none = none
first_of (some addresses) = first_usable addresses

-- How often a descriptor is the one that is listened on.
abbrev pub held_as : ℕ → Option ℕ → ℕ
held_as x none = 0
held_as x (some fd) = count x (fd ∷ [])

-- The net after a call that was given `before`: the call has closed what it opened, but for the
-- descriptor it returns.
abbrev pub Adds : Option ℕ → Net → Net → Type 0
Adds fd before after =
    ((x : ℕ)
      → count x after.opened + count x before.closed
        ≡ count x before.opened + count x after.closed + held_as x fd)
    × (after.lists ≡ before.lists)

Tried : List Address → Net → Option ℕ × Net → Type 0
Tried addresses before (fd, after) = (fd ≡ first_usable addresses) × Adds fd before after

open_then_close :
    (x fd : ℕ) (net : Net)
    → let after = close_fd fd (open_fd fd net) in
      count x after.opened + count x net.closed ≡ count x net.opened + count x after.closed
open_then_close x fd net =
    omega (arith, count-append x net.opened (fd ∷ []), count-append x net.closed (fd ∷ []))

Adds-after :
    (result : Option ℕ) (fd : ℕ) (net after : Net)
    → Adds result (close_fd fd (open_fd fd net)) after
    → Adds result net after
Adds-after result fd net after h = (λ x. omega (arith, h.0 x, open_then_close x fd net), h.1)

or_else-nothing : (b : Bool) (other : Option ℕ) → or_else (if b then none else none) other ≡ other
or_else-nothing true other = refl
or_else-nothing false other = refl

-- One address, by its fields, before the loop `next` over those in `addresses`.
try_socket-Tried :
    (socket : Option ℕ) (listens : Bool) (addresses : List Address) (net : Net)
    (next : Net → Option ℕ × Net)
    → ((before : Net) → Tried addresses before (next before))
    → let (fd, after) = try_socket socket listens net next in
      (fd ≡ or_else (if listens then socket else none) (first_usable addresses)) × Adds fd net after
unfolding Tried
try_socket-Tried none listens addresses net next h =
    ((h net).0 ∙ sym (or_else-nothing listens (first_usable addresses)), (h net).1)
try_socket-Tried (some fd) true addresses net next h =
    (refl, (λ x. omega (arith, count-append x net.opened (fd ∷ [])), refl))
try_socket-Tried (some fd) false addresses net next h =
    let rest = h (close_fd fd (open_fd fd net)) in (rest.0, Adds-after _ fd net _ rest.1)

try_addresses-Tried :
    (addresses : List Address) (net : Net) → Tried addresses net (try_addresses addresses net)
unfolding try_addresses Tried
try_addresses-Tried [] net = (refl, (λ x. omega arith, refl))
try_addresses-Tried (a ∷ addresses) net =
    unfold Tried in
    try_socket-Tried a.socket (a.bind && a.listen) addresses net (try_addresses addresses)
      (try_addresses-Tried addresses)

with_list-first :
    (answer : Option (List Address)) (net : Net)
    → let (fd, after) = with_list answer net in (fd ≡ first_of answer) × Adds fd net after
unfolding Tried with_list
with_list-first none net = (refl, (λ x. omega arith, refl))
with_list-first (some addresses) net =
    let tried = try_addresses-Tried addresses (record net { lists = suc net.lists }) in
    (tried.0, (tried.1.0, omega (arith, tried.1.1)))

-- `create_listening_socket` returns the socket of the first address, in the order of
-- `getaddrinfo`, for which `socket`, `bind` and `listen` succeed, and -1 if there is none. Of the
-- descriptors it opens it closes each exactly once but the one it returns, and it frees the list
-- of addresses.
pub create_listening_socket-first :
    (getaddrinfo : GetAddrInfo) (config : ServerConfig) (net : Net)
    → let (fd, after) = create_listening_socket getaddrinfo config net in
      (fd ≡ first_of (getaddrinfo config.host (decimal config.port))) × Adds fd net after
unfolding create_listening_socket
create_listening_socket-first getaddrinfo config net =
    with_list-first (getaddrinfo config.host (decimal config.port)) net
