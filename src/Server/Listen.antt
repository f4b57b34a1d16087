-- ===== src/Server/Listen.antt =====
-- `create_listening_socket` (src/server.c). What `getaddrinfo` and the calls for each address
-- answer is a parameter.
pub mod First
use final_system_progamming.Common.{
  ℕ, suc, ◌-◌, Bool, true, false, ◌&&◌, List, [], ◌∷◌, ◌++◌, Option, none, some, Bytes, decimal,
  if◌then◌else◌,
}
use final_system_progamming.Server.Config.{ServerConfig}

-- An address of the list: the descriptor that `socket` gives, and whether `bind` and `listen`
-- return 0.
pub record Address : Type 0 where
  pub socket : Option ℕ
  pub bind : Bool
  pub listen : Bool

-- The descriptors that were opened and those that were closed, in order, and how many address
-- lists of `getaddrinfo` are not freed.
pub record Net : Type 0 where
  pub opened : List ℕ
  pub closed : List ℕ
  pub lists : ℕ

-- `none` is a call that fails, for the host and the port as a text.
abbrev pub GetAddrInfo : Type 0
GetAddrInfo = Bytes → Bytes → Option (List Address)

abbrev pub open_fd : ℕ → Net → Net
open_fd fd net = record net { opened = net.opened ++ fd ∷ [] }

abbrev pub close_fd : ℕ → Net → Net
close_fd fd net = record net { closed = net.closed ++ fd ∷ [] }

-- The body of the loop for a socket, before what follows if it is given up.
abbrev try_socket : Option ℕ → Bool → Net → (Net → Option ℕ × Net) → Option ℕ × Net
try_socket none listens net next = next net
try_socket (some fd) listens net next =
    let later = next (close_fd fd (open_fd fd net)) in
    if listens then (some fd, open_fd fd net) else later

-- The loop over the list; `none` is a `listen_fd` of -1.
unfoldable pub try_addresses : List Address → Net → Option ℕ × Net
try_addresses [] net = (none, net)
try_addresses (a ∷ addresses) net =
    try_socket a.socket (a.bind && a.listen) net (try_addresses addresses)

abbrev free_list : Option ℕ × Net → Option ℕ × Net
free_list (fd, net) = (fd, record net { lists = net.lists - 1 })

unfoldable pub with_list : Option (List Address) → Net → Option ℕ × Net
unfolding try_addresses
with_list none net = (none, net)
with_list (some addresses) net =
    free_list (try_addresses addresses (record net { lists = suc net.lists }))

unfoldable pub create_listening_socket : GetAddrInfo → ServerConfig → Net → Option ℕ × Net
create_listening_socket getaddrinfo config net =
    with_list (getaddrinfo config.host (decimal config.port)) net
