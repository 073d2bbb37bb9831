-- ===== src/Datagram.antt =====
-- The kernel's side of a datagram socket as `sendto` and `recvfrom` show it, and the creation of such
-- a socket, which src/protocols/udp_impl.c and src/protocols/kcp_impl.c write alike.
use omni_socket.Base.{
  ℕ, Bool, true, false, List, [], ◌∷◌, ◌++◌, Bytes, length, take, Option, none, some, ltb, ◌==◌,
  ◌||◌, ◌≡◌, arith, if◌then◌else◌,
}
use omni_socket.Host.{Host, Sockaddr, addr_of, bind, new_fd, attempt, close}

-- What the next calls of `recvfrom` meet. Behind the last event nothing is there: a call that waits
-- is ended by a signal, and with MSG_DONTWAIT it fails.
pub data Arrival : Type 0 where
  datagram : Sockaddr → Bytes → Arrival
  interrupted : Arrival
  broken : Arrival

-- `refusals` says of each `sendto` in turn whether the kernel refuses it; behind its end none is.
pub record Datagrams : Type 0 where
  pub arrivals : List Arrival
  pub refusals : List Bool
  pub sent : List (Sockaddr × Bytes)

-- The longest payload of an IPv4 datagram.
abbrev pub max_datagram : ℕ
max_datagram = 65507

abbrev pub refused : List Bool → Bool
refused [] = false
refused (r ∷ rs) = r

abbrev pub behind : {A : Type 0} → List A → List A
behind [] = []
behind (x ∷ xs) = xs

-- `sendto`: whether it succeeds, which it does with the whole datagram.
unfoldable pub sendto : Datagrams → Sockaddr → Bytes → Bool × Datagrams
sendto s to bs =
    if refused s.refusals || ltb max_datagram (length bs)
    then (false, record s { refusals = behind s.refusals })
    else (true, record s { refusals = behind s.refusals; sent = s.sent ++ (to, bs) ∷ [] })

-- What `recvfrom` returns: -1 with EINTR, -1 with another errno, or the sender and what of the datagram fits.
pub data Received : Type 0 where
  eintr : Received
  fault : Received
  from : Sockaddr → Bytes → Received

abbrev pub next_arrival : List Arrival → ℕ → Received × List Arrival
next_arrival [] cap = (eintr, [])
next_arrival (datagram a bs ∷ rest) cap = (from a (take cap bs), rest)
next_arrival (Arrival.interrupted ∷ rest) cap = (eintr, rest)
next_arrival (Arrival.broken ∷ rest) cap = (fault, rest)

unfoldable pub recvfrom : Datagrams → ℕ → Received × Datagrams
recvfrom s cap = let (r, rest) = next_arrival s.arrivals cap in (r, record s { arrivals = rest })

-- `socket` and, for a port that is not 0, `bind`: the descriptor.
unfoldable pub open_socket : Host → Option ℕ → ℕ → Option ℕ × Host
open_socket h bind_ip bind_port =
    let (fd, h1) = new_fd h in
    elim fd [
      | none ↦ (none, h1)
      | some f ↦
          let (bound, h2) = attempt (bind f (addr_of bind_ip bind_port)) h1 in
          if bind_port == 0
          then (some f, h1)
          else if bound
          then (some f, h2)
          else (none, close f h2)
    ]

-- Of the descriptors opened on the way only the one returned is still open.
abbrev pub Opened : List ℕ → ℕ → Option ℕ × Host → Type 0
Opened fds blocks (none, h) = (h.open_fds ≡ fds) × (h.blocks ≡ blocks)
Opened fds blocks (some fd, h) = (h.open_fds ≡ fd ∷ fds) × (h.blocks ≡ blocks)

pub open_socket-Opened :
    (h : Host) (ip : Option ℕ) (port : ℕ) → Opened h.open_fds h.blocks (open_socket h ip port)
unfolding open_socket new_fd
open_socket-Opened h ip port = ground arith
