-- ===== src/Relay/Options.antt =====
-- src/apps/relay_main.c: the options of the command line, their checks, and what `main` calls with them.
use omni_socket.App.Numbers.{atoi}
use omni_socket.App.Options.{
  Opt, getopt_loop, tcp_text, parse_proto, as_uint16, InitCall, last_arg, setting, setting-last_arg,
  all_known, getopt_loop-described,
}
use omni_socket.Base.{
  ℕ, ◌≡◌, refl, ap, Bool, not, List, ◌∷◌, Bytes, Option, none, some, ℤ, pos, ◌==◌, ◌||◌,
  is_positive, if◌then◌else◌, arith,
}
use omni_socket.Network.Types.{server}

-- The variables that the options set; `none` is NULL.
pub record RelayArgs : Type 0 where
  pub proto_str : Option Bytes
  pub listen_port : ℤ
  pub target_ip : Option Bytes
  pub target_port : ℤ

abbrev pub relay_defaults : RelayArgs
relay_defaults = record {
  proto_str = some tcp_text;
  listen_port = pos 0;
  target_ip = none;
  target_port = pos 0;
}

-- The `switch`: p, L, H and P.
unfoldable pub relay_switch : Opt → RelayArgs → Option RelayArgs
relay_switch o a =
    if o.letter == 112
    then some (record a { proto_str = some o.optarg })
    else if o.letter == 76
    then some (record a { listen_port = atoi o.optarg })
    else if o.letter == 72
    then some (record a { target_ip = some o.optarg })
    else if o.letter == 80
    then some (record a { target_port = atoi o.optarg })
    else none

-- What `main` does behind the options: shows the usage, or calls `omni_init` for the upstream context and then
-- `relay_set_target` with the address and the port of the target.
pub data RelayStart : Type 0 where
  usage : RelayStart
  starts : InitCall → Bytes → ℕ → RelayStart

-- The check of the settings.
unfoldable pub relay_checked : RelayArgs → Option Bytes → RelayStart
relay_checked a none = usage
relay_checked a (some ip) =
    if not (is_positive a.listen_port) || not (is_positive a.target_port)
    then usage
    else starts
        (record {
          role = server;
          proto = parse_proto a.proto_str;
          bind_ip = none;
          bind_port = as_uint16 a.listen_port;
          peer_ip = none;
          peer_port = 0;
        })
        ip (as_uint16 a.target_port)

abbrev pub relay_begun : Option RelayArgs → RelayStart
relay_begun none = usage
relay_begun (some a) = relay_checked a a.target_ip

unfoldable pub relay_start : List Opt → RelayStart
relay_start opts = relay_begun (getopt_loop relay_switch relay_defaults opts)

-- The options that the program knows.
abbrev pub relay_knows : ℕ → Bool
relay_knows c = c == 112 || c == 76 || c == 72 || c == 80

-- The settings as the manual describes them: each from the last option that gives it.
abbrev pub relay_described : RelayArgs → List Opt → RelayArgs
relay_described a opts = record {
  proto_str = setting some a.proto_str (last_arg 112 opts);
  listen_port = setting atoi a.listen_port (last_arg 76 opts);
  target_ip = setting some a.target_ip (last_arg 72 opts);
  target_port = setting atoi a.target_port (last_arg 80 opts);
}

-- The settings behind one option.
abbrev relay_set : Opt → RelayArgs → RelayArgs
relay_set o a = record {
  proto_str = if o.letter == 112 then some o.optarg else a.proto_str;
  listen_port = if o.letter == 76 then atoi o.optarg else a.listen_port;
  target_ip = if o.letter == 72 then some o.optarg else a.target_ip;
  target_port = if o.letter == 80 then atoi o.optarg else a.target_port;
}

relay_switch-set :
    (o : Opt) (a : RelayArgs)
    → relay_switch o a ≡ (if relay_knows o.letter then some (relay_set o a) else none)
unfolding relay_switch
relay_switch-set o a = ground arith

relay_described_step :
    (o : Opt) (a : RelayArgs) (opts : List Opt)
    → relay_described (relay_set o a) opts ≡ relay_described a (o ∷ opts)
relay_described_step o a opts = λ i. record {
  proto_str = setting-last_arg some a.proto_str 112 o opts i;
  listen_port = setting-last_arg atoi a.listen_port 76 o opts i;
  target_ip = setting-last_arg some a.target_ip 72 o opts i;
  target_port = setting-last_arg atoi a.target_port 80 o opts i;
}

-- The relay reads its options as they are documented, whatever their order and number: it shows the usage if one of
-- them is unknown, and else each setting is that of the last option that gives it, or its default.
pub relay_start-described :
    (opts : List Opt)
    → relay_start opts
      ≡ relay_begun
          (if all_known relay_knows opts then some (relay_described relay_defaults opts) else none)
unfolding relay_start
relay_start-described opts = ap relay_begun (
    getopt_loop-described relay_switch relay_knows relay_set relay_described relay_switch-set
      (λ a. refl) relay_described_step relay_defaults opts)
