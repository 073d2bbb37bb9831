-- ===== src/Tcp/Stream.antt =====
-- The kernel's side of a connected stream socket, as `read` and `write` show it.
use omni_socket.Base.{
  ℕ, suc, List, [], ◌∷◌, ◌++◌, Bytes, length, take, drop, leb, min, if◌then◌else◌,
}

-- What the next calls of `read` meet. `arrive b bs` is a segment of at least one byte. After the
-- last event the peer has closed.
pub data RxEvent : Type 0 where
  arrive : ℕ → Bytes → RxEvent
  interrupted : RxEvent
  broken : RxEvent

-- What the next calls of `write` meet: room for `suc k` bytes, EINTR, or another error. After the
-- last event there is room for everything.
pub data TxEvent : Type 0 where
  room : ℕ → TxEvent
  interrupted : TxEvent
  broken : TxEvent

pub record Socket : Type 0 where
  pub rx : List RxEvent
  pub tx : List TxEvent
  pub sent : Bytes

-- What `read` and `write` return: a count, -1 with EINTR, or -1 with another errno.
pub data Io : Type 0 where
  moved : ℕ → Io
  eintr : Io
  fault : Io

abbrev pub leftover : Bytes → List RxEvent → List RxEvent
leftover [] rest = rest
leftover (c ∷ cs) rest = arrive c cs ∷ rest

-- One event met by `read(fd, p, n)`: the first `n` bytes of a segment, the others stay for the
-- next call.
unfoldable pub read_event : RxEvent → List RxEvent → ℕ → Io × Bytes × List RxEvent
read_event (arrive b bs) rest n =
    if leb (suc (length bs)) n
    then (moved (suc (length bs)), b ∷ bs, rest)
    else (moved n, take n (b ∷ bs), leftover (drop n (b ∷ bs)) rest)
read_event RxEvent.interrupted rest n = (eintr, [], rest)
read_event RxEvent.broken rest n = (fault, [], rest)

unfoldable pub read_events : List RxEvent → ℕ → Io × Bytes × List RxEvent
read_events [] n = (moved 0, [], [])
read_events (e ∷ rest) n = read_event e rest n

unfoldable pub read : Socket → ℕ → Io × Bytes × Socket
unfolding read_events read_event
read s n = let (r, got, rx) = read_events s.rx n in (r, got, record s { rx = rx })

-- `write(fd, buf, length buf)`
unfoldable pub write_events : List TxEvent → Bytes → Io × List TxEvent
write_events [] buf = (moved (length buf), [])
write_events (room k ∷ rest) buf = (moved (min (suc k) (length buf)), rest)
write_events (TxEvent.interrupted ∷ rest) buf = (eintr, rest)
write_events (TxEvent.broken ∷ rest) buf = (fault, rest)

-- What of `buf` went out at this result.
abbrev pub accepted : Io → Bytes → Bytes
accepted (moved k) buf = take k buf
accepted eintr buf = []
accepted fault buf = []

unfoldable pub write : Socket → Bytes → Io × Socket
unfolding write_events
write s buf =
    let (r, tx) = write_events s.tx buf in
    (r, record s { tx = tx; sent = s.sent ++ accepted r buf })

-- All bytes still to come.
abbrev pub payload : List RxEvent → Bytes
payload [] = []
payload (arrive b bs ∷ rest) = b ∷ (bs ++ payload rest)
payload (RxEvent.interrupted ∷ rest) = payload rest
payload (RxEvent.broken ∷ rest) = payload rest

-- No error but EINTR is to come.
abbrev pub RxClean : List RxEvent → Type 0
RxClean [] = Unit {0}
RxClean (arrive b bs ∷ rest) = RxClean rest
RxClean (RxEvent.interrupted ∷ rest) = RxClean rest
RxClean (RxEvent.broken ∷ rest) = ⊥

abbrev pub TxClean : List TxEvent → Type 0
TxClean [] = Unit {0}
TxClean (room k ∷ rest) = TxClean rest
TxClean (TxEvent.interrupted ∷ rest) = TxClean rest
TxClean (TxEvent.broken ∷ rest) = ⊥
