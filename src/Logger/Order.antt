-- ===== src/Logger/Order.antt =====
-- The counters and extremes of src/core/logger.c: the order of the calls is forgotten. The calls are taken one after
-- another, as whole ones.
use mathlib.Core.Quot
use mathlib.Core.Quot.{Quot, Quot-set}
use native.Mathlib.Nat.{ℕ_set}
use omni_socket.Base.{
  ℕ, ◌+◌, ◌%◌, ◌^◌, ◌≡◌, refl, ap, ◌∙◌, sym, Bool, List, [], ◌∷◌, ◌++◌, Option, min, max, arith,
}
use omni_socket.Logger.{LogCall, init}
use omni_socket.Logger.Counts.{
  NoInit, total, total-append, bytes_out, bytes_in, sends, receipts, retrans, replayed-counts,
}
use omni_socket.Logger.Latency.{least, least_bound, most, send_ms, recv_ms, replayed-latencies}
use omni_socket.Logger.Stats.{Double, LoggerState, replayed}
use Prim.Native.String.{String}

-- Two calls next to each other change places.
pub data Swapped (xs ys : List LogCall) : Type 0 where
  swap :
      (before behind : List LogCall) (a b : LogCall)
      → xs ≡ before ++ a ∷ b ∷ behind
      → ys ≡ before ++ b ∷ a ∷ behind
      → Swapped xs ys

-- Calls up to their order.
abbrev pub Log : Type 0
Log = Quot Swapped

abbrev pub of_calls : List LogCall → Log
of_calls = Quot.mk

-- A measure of calls that two of them and their order do not change.
total-swap :
    (f : LogCall → ℕ) (before behind : List LogCall) (a b : LogCall)
    → total f (before ++ a ∷ b ∷ behind) ≡ total f (before ++ b ∷ a ∷ behind)
total-swap f before behind a b =
    omega (arith, total-append f before (a ∷ b ∷ behind), total-append f before (b ∷ a ∷ behind))

least-cons :
    (f : LogCall → Option ℕ) (x : LogCall) (xs : List LogCall)
    → least f (x ∷ xs) ≡ min (least f (x ∷ [])) (least f xs)
least-cons f x xs = let bound = least_bound f xs in ground arith

most-cons :
    (f : LogCall → Option ℕ) (x : LogCall) (xs : List LogCall)
    → most f (x ∷ xs) ≡ max (most f (x ∷ [])) (most f xs)
most-cons f x xs = ground arith

least-append :
    (f : LogCall → Option ℕ) (xs ys : List LogCall)
    → least f (xs ++ ys) ≡ min (least f xs) (least f ys)
least-append f [] ys = omega (arith, least_bound f ys)
least-append f (x ∷ xs) ys =
    omega (arith, least-cons f x (xs ++ ys), least-cons f x xs, least-append f xs ys)

most-append :
    (f : LogCall → Option ℕ) (xs ys : List LogCall)
    → most f (xs ++ ys) ≡ max (most f xs) (most f ys)
most-append f [] ys = omega arith
most-append f (x ∷ xs) ys =
    omega (arith, most-cons f x (xs ++ ys), most-cons f x xs, most-append f xs ys)

least-swap :
    (f : LogCall → Option ℕ) (before behind : List LogCall) (a b : LogCall)
    → least f (before ++ a ∷ b ∷ behind) ≡ least f (before ++ b ∷ a ∷ behind)
least-swap f before behind a b = omega (
  arith,
  least-append f before (a ∷ b ∷ behind),
  least-append f before (b ∷ a ∷ behind),
  least-cons f a (b ∷ behind),
  least-cons f b (a ∷ behind),
  least-cons f a behind,
  least-cons f b behind,
)

most-swap :
    (f : LogCall → Option ℕ) (before behind : List LogCall) (a b : LogCall)
    → most f (before ++ a ∷ b ∷ behind) ≡ most f (before ++ b ∷ a ∷ behind)
most-swap f before behind a b = omega (
  arith,
  most-append f before (a ∷ b ∷ behind),
  most-append f before (b ∷ a ∷ behind),
  most-cons f a (b ∷ behind),
  most-cons f b (a ∷ behind),
  most-cons f a behind,
  most-cons f b behind,
)

-- A function of calls that no swap changes is one of logs.
lifted :
    (m : List LogCall → ℕ)
    → ((before behind : List LogCall) (a b : LogCall)
        → m (before ++ a ∷ b ∷ behind) ≡ m (before ++ b ∷ a ∷ behind))
    → Log
    → ℕ
lifted m same = Quot.lift ℕ_set m (λ xs ys s. elim s [
  | swap before behind a b ex ey ↦ ap m ex ∙ same before behind a b ∙ sym (ap m ey)
])

same_log :
    (m : List LogCall → ℕ)
    → ((before behind : List LogCall) (a b : LogCall)
        → m (before ++ a ∷ b ∷ behind) ≡ m (before ++ b ∷ a ∷ behind))
    → (xs ys : List LogCall) → of_calls xs ≡ of_calls ys
    → m xs ≡ m ys
unfolding lifted
same_log m same xs ys e = ap (lifted m same) e

-- `zs` takes the calls of two lists in turn, those of each in their order.
pub data Interleaved : List LogCall → List LogCall → List LogCall → Type 0 where
  over : Interleaved [] [] []
  first :
      {xs ys zs : List LogCall} (c : LogCall)
      → Interleaved xs ys zs
      → Interleaved (c ∷ xs) ys (c ∷ zs)
  second :
      {xs ys zs : List LogCall} (c : LogCall)
      → Interleaved xs ys zs
      → Interleaved xs (c ∷ ys) (c ∷ zs)

-- One call more.
put : LogCall → Log → Log
put c =
    Quot.lift Quot-set (λ xs. of_calls (c ∷ xs))
      (λ xs ys s. elim s [
        | swap before behind a b ex ey ↦
            Quot.sound (swap (c ∷ before) behind a b (ap (◌∷◌ c) ex) (ap (◌∷◌ c) ey))
      ])

put-of_calls :
    (c : LogCall) (xs ys : List LogCall)
    → of_calls xs ≡ of_calls ys
    → of_calls (c ∷ xs) ≡ of_calls (c ∷ ys)
unfolding put
put-of_calls c xs ys e = ap (put c) e

-- A call moves behind others.
of_calls-moved :
    (c : LogCall) (xs ys : List LogCall) → of_calls (c ∷ (xs ++ ys)) ≡ of_calls (xs ++ c ∷ ys)
of_calls-moved c [] ys = refl
of_calls-moved c (x ∷ xs) ys =
    Quot.sound (swap [] (xs ++ ys) c x refl refl)
    ∙ put-of_calls x (c ∷ (xs ++ ys)) (xs ++ c ∷ ys) (of_calls-moved c xs ys)

pub of_calls-Interleaved :
    {xs ys zs : List LogCall} → Interleaved xs ys zs → of_calls zs ≡ of_calls (xs ++ ys)
of_calls-Interleaved over = refl
of_calls-Interleaved (first {xs = xs} {ys = ys} {zs = zs} c i) =
    put-of_calls c zs (xs ++ ys) (of_calls-Interleaved i)
of_calls-Interleaved (second {xs = xs} {ys = ys} {zs = zs} c i) =
    put-of_calls c zs (xs ++ ys) (of_calls-Interleaved i) ∙ of_calls-moved c xs ys

module _ {D : Type 0} (d : Double D) where
  -- The counters and the extremes do not depend on the order of the calls, taken one after another as whole ones: behind a
  -- `logger_init`, with calls that are, in any order, those of one list and those of another, and no further `logger_init`
  -- among them, the counters are the sums over both lists modulo 2^64, and the least and the greatest latencies of send
  -- and receive calls are those of both.
  pub replayed-Log :
      (lvl_env : Option String) (opened : Bool) (t : ℕ) (xs ys zs : List LogCall)
      (g : LoggerState D)
      → of_calls zs ≡ of_calls (xs ++ ys)
      → NoInit zs
      → let h = (replayed d lvl_env opened (init t ∷ zs) g).g_stats in
        (h.bytes_sent ≡ (total bytes_out xs + total bytes_out ys) % 2 ^ 64)
        × (h.bytes_recv ≡ (total bytes_in xs + total bytes_in ys) % 2 ^ 64)
        × (h.send_count ≡ (total sends xs + total sends ys) % 2 ^ 64)
        × (h.recv_count ≡ (total receipts xs + total receipts ys) % 2 ^ 64)
        × (h.kcp_retrans ≡ (total retrans xs + total retrans ys) % 2 ^ 64)
        × (h.send_call_min_ms ≡ min (least send_ms xs) (least send_ms ys))
        × (h.send_call_max_ms ≡ max (most send_ms xs) (most send_ms ys))
        × (h.recv_call_min_ms ≡ min (least recv_ms xs) (least recv_ms ys))
        × (h.recv_call_max_ms ≡ max (most recv_ms xs) (most recv_ms ys))
  replayed-Log lvl_env opened t xs ys zs g e quiet =
      let (out, into, sent, got, again) = replayed-counts d lvl_env opened t zs g quiet in
      let (s_min, s_max, _, r_min, r_max, _) = replayed-latencies d lvl_env opened t zs g quiet in
      (
        out ∙ ap (λ n. n % 2 ^ 64) (sum bytes_out),
        into ∙ ap (λ n. n % 2 ^ 64) (sum bytes_in),
        sent ∙ ap (λ n. n % 2 ^ 64) (sum sends),
        got ∙ ap (λ n. n % 2 ^ 64) (sum receipts),
        again ∙ ap (λ n. n % 2 ^ 64) (sum retrans),
        s_min ∙ lowest send_ms,
        s_max ∙ highest send_ms,
        r_min ∙ lowest recv_ms,
        r_max ∙ highest recv_ms,
      )
    where
      sum : (f : LogCall → ℕ) → total f zs ≡ total f xs + total f ys
      sum f = same_log (total f) (total-swap f) zs (xs ++ ys) e ∙ total-append f xs ys

      lowest : (f : LogCall → Option ℕ) → least f zs ≡ min (least f xs) (least f ys)
      lowest f = same_log (least f) (least-swap f) zs (xs ++ ys) e ∙ least-append f xs ys

      highest : (f : LogCall → Option ℕ) → most f zs ≡ max (most f xs) (most f ys)
      highest f = same_log (most f) (most-swap f) zs (xs ++ ys) e ∙ most-append f xs ys
