-- ===== src/Host.antt =====
-- The process's side of the kernel while a context is created and closed: descriptors, allocated
-- blocks, and the calls made. Whether a call succeeds is the environment's answer.
use omni_socket.Base.{
  ℕ, ◌+◌, ◌-◌, Bool, true, false, List, [], ◌∷◌, ◌++◌, Option, none, some, ◌==◌, if◌then◌else◌,
}

-- `struct sockaddr_in`: the address is the value of `inet_addr`, the port is in host order.
pub record Sockaddr : Type 0 where
  pub ip : ℕ
  pub port : ℕ

abbrev pub inaddr_any : ℕ
inaddr_any = 0

-- `ip ? inet_addr(ip) : INADDR_ANY`
abbrev pub addr_of : Option ℕ → ℕ → Sockaddr
addr_of none port = record { ip = inaddr_any; port = port }
addr_of (some ip) port = record { ip = ip; port = port }

pub data SockOption : Type 0 where
  tcp_nodelay so_reuseaddr : SockOption

pub data Syscall : Type 0 where
  setsockopt : ℕ → SockOption → Syscall
  bind : ℕ → Sockaddr → Syscall
  listen : ℕ → ℕ → Syscall
  accept : ℕ → Syscall
  connect : ℕ → Sockaddr → Syscall
  getsockopt : ℕ → Syscall

-- `answers` says of each fallible call in turn whether it succeeds; behind its end all succeed.
pub record Host : Type 0 where
  pub next_fd : ℕ
  pub open_fds : List ℕ
  pub blocks : ℕ
  pub answers : List Bool
  pub calls : List Syscall

abbrev pub answer : List Bool → Bool
answer [] = true
answer (a ∷ rest) = a

abbrev pub later : List Bool → List Bool
later [] = []
later (a ∷ rest) = rest

-- Ask the environment.
abbrev pub asked : Host → Host
asked h = record h { answers = later h.answers }

abbrev pub called : Syscall → Host → Host
called c h = record h { calls = h.calls ++ c ∷ [] }

-- `calloc` of one context, and `free`
unfoldable pub calloc : Host → Bool × Host
calloc h =
    if answer h.answers
    then (true, record (asked h) { blocks = h.blocks + 1 })
    else (false, asked h)

abbrev pub free : Host → Host
free h = record h { blocks = h.blocks - 1 }

-- `socket` and `accept` return a new descriptor.
unfoldable pub new_fd : Host → Option ℕ × Host
new_fd h =
    if answer h.answers
    then (
      some h.next_fd,
      record (asked h) { next_fd = h.next_fd + 1; open_fds = h.next_fd ∷ h.open_fds },
    )
    else (none, asked h)

-- `bind`, `listen`, `connect`, `getsockopt`: whether the call succeeds.
abbrev pub attempt : Syscall → Host → Bool × Host
attempt c h = (answer h.answers, called c (asked h))

abbrev pub without : ℕ → List ℕ → List ℕ
without fd [] = []
without fd (x ∷ xs) = if x == fd then xs else x ∷ without fd xs

abbrev pub close : ℕ → Host → Host
close fd h = record h { open_fds = without fd h.open_fds }
