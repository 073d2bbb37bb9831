-- ===== src/App/Options.antt =====
-- What the four programs of src/apps share as they start: the loop over the options, `parse_proto`, and the call of
-- `omni_init` with its ports.
use omni_socket.App.Lines.{eqb_bytes}
use omni_socket.Base.{
  ℕ, ◌-◌, ◌%◌, ◌^◌, ◌<◌, ◌≡◌, ◌∙◌, refl, ap, sym, Bool-cases, inl, inr, Bool, true, List, [], ◌∷◌,
  Bytes, Option, none, some, ℤ, pos, negsuc, if◌then◌else◌, ◌==◌, ◌&&◌, arith,
}
use omni_socket.Network.Types.{OmniProtocol, OmniRole, proto_tcp, proto_udp, proto_kcp}

-- What `getopt` finds: the letter of an option with its argument, `optarg`; and 63, a question mark, for what it does
-- not know.
pub record Opt : Type 0 where
  pub letter : ℕ
  pub optarg : Bytes

abbrev pub and_then : {A : Type 0} → Option A → (A → Option A) → Option A
and_then none next = none
and_then (some a) next = next a

-- The `while` over `getopt`, with the `switch` of the program; where that shows the usage there are no settings.
abbrev pub getopt_loop : {A : Type 0} → (Opt → A → Option A) → A → List Opt → Option A
getopt_loop switch a [] = some a
getopt_loop switch a (o ∷ opts) = and_then (switch o a) (λ a'. getopt_loop switch a' opts)

-- `tcp`, `udp`, `kcp`
abbrev pub tcp_text : Bytes
tcp_text = 116 ∷ 99 ∷ 112 ∷ []

abbrev pub udp_text : Bytes
udp_text = 117 ∷ 100 ∷ 112 ∷ []

abbrev pub kcp_text : Bytes
kcp_text = 107 ∷ 99 ∷ 112 ∷ []

-- `parse_proto`: what is no name of a protocol stands for TCP, and so does NULL.
unfoldable pub parse_proto : Option Bytes → OmniProtocol
parse_proto none = proto_tcp
parse_proto (some s) =
    if eqb_bytes s tcp_text
    then proto_tcp
    else if eqb_bytes s udp_text
    then proto_udp
    else if eqb_bytes s kcp_text
    then proto_kcp
    else proto_tcp

-- `(uint16_t)port` of an `int`
abbrev pub as_uint16 : ℤ → ℕ
as_uint16 (pos n) = n % 2 ^ 16
as_uint16 (negsuc n) = 2 ^ 16 - 1 - n % 2 ^ 16

-- The arguments of `omni_init`.
pub record InitCall : Type 0 where
  pub role : OmniRole
  pub proto : OmniProtocol
  pub bind_ip : Option Bytes
  pub bind_port : ℕ
  pub peer_ip : Option Bytes
  pub peer_port : ℕ

-- The argument of the last option with this letter, if there is one.
abbrev pub last_arg : ℕ → List Opt → Option Bytes
last_arg letter [] = none
last_arg letter (o ∷ opts) = elim (last_arg letter opts) [
  | some arg ↦ some arg
  | none ↦ if o.letter == letter then some o.optarg else none
]

-- A setting: of the last option that sets it, or as it was.
abbrev pub setting : {A : Type 0} → (Bytes → A) → A → Option Bytes → A
setting read was none = was
setting read was (some arg) = read arg

-- Each option is one that the program knows.
abbrev pub all_known : (ℕ → Bool) → List Opt → Bool
all_known knows [] = true
all_known knows (o ∷ opts) = knows o.letter && all_known knows opts

-- A setting, with one option before the others.
pub setting-last_arg :
    {A : Type 0} (read : Bytes → A) (was : A) (letter : ℕ) (o : Opt) (opts : List Opt)
    → setting read (if o.letter == letter then read o.optarg else was) (last_arg letter opts)
      ≡ setting read was (last_arg letter (o ∷ opts))
setting-last_arg read was letter o opts = ground arith

pub as_uint16_lt : (n : ℤ) → as_uint16 n < 2 ^ 16
as_uint16_lt n = ground arith

-- What one option sets, and what all of them come to, which is told apart from the order in which they are read.
pub getopt_loop-described :
    {A : Type 0} (switch : Opt → A → Option A) (knows : ℕ → Bool) (set : Opt → A → A)
    (described : A → List Opt → A)
    → ((o : Opt) (a : A) → switch o a ≡ (if knows o.letter then some (set o a) else none))
    → ((a : A) → described a [] ≡ a)
    → ((o : Opt) (a : A) (opts : List Opt) → described (set o a) opts ≡ described a (o ∷ opts))
    → (a : A) (opts : List Opt)
    → getopt_loop switch a opts ≡ (if all_known knows opts then some (described a opts) else none)
getopt_loop-described switch knows set described switches initial one a [] =
    ap some (sym (initial a))
getopt_loop-described switch knows set described switches initial one a (o ∷ opts) =
    ap (λ r. and_then r (λ a'. getopt_loop switch a' opts)) (switches o a)
    ∙ (elim (Bool-cases (knows o.letter)) [
      | inl known ↦ rw known (
          getopt_loop-described switch knows set described switches initial one (set o a) opts
          ∙ ap (λ d. if all_known knows opts then some d else none) (one o a opts))
      | inr unknown ↦ rw unknown refl
    ])
