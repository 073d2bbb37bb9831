-- ===== src/Server/Options.antt =====
-- src/apps/server_main.c: the options of the command line, their checks, and what `main` calls with them.
use omni_socket.App.Numbers.{atoi}
use omni_socket.App.Options.{
  Opt, getopt_loop, tcp_text, parse_proto, as_uint16, InitCall, last_arg, setting, setting-last_arg,
  all_known, getopt_loop-described,
}
use omni_socket.Base.{
  ℕ, ◌≡◌, refl, ap, Bool, not, List, ◌∷◌, Bytes, Option, none, some, ℤ, pos, ◌==◌, ◌||◌,
  is_positive, if◌then◌else◌, arith,
}
use omni_socket.Network.Types.{server}

-- The variables that the options set; `none` is NULL.
pub record ServerArgs : Type 0 where
  pub proto_str : Option Bytes
  pub bind_ip : Option Bytes
  pub listen_port : ℤ
  pub output_path : Option Bytes

abbrev pub server_defaults : ServerArgs
server_defaults = record {
  proto_str = some tcp_text;
  bind_ip = none;
  listen_port = pos 0;
  output_path = none;
}

-- The `switch`: p, b, P and o.
unfoldable pub server_switch : Opt → ServerArgs → Option ServerArgs
server_switch o a =
    if o.letter == 112
    then some (record a { proto_str = some o.optarg })
    else if o.letter == 98
    then some (record a { bind_ip = some o.optarg })
    else if o.letter == 80
    then some (record a { listen_port = atoi o.optarg })
    else if o.letter == 111
    then some (record a { output_path = some o.optarg })
    else none

-- What `main` does behind the options: shows the usage, or opens the file and calls `omni_init`.
pub data ServerStart : Type 0 where
  usage : ServerStart
  starts : Bytes → InitCall → ServerStart

-- The check of the settings.
unfoldable pub server_checked : ServerArgs → Option Bytes → ServerStart
server_checked a none = usage
server_checked a (some path) =
    if not (is_positive a.listen_port)
    then usage
    else starts path (record {
      role = server;
      proto = parse_proto a.proto_str;
      bind_ip = a.bind_ip;
      bind_port = as_uint16 a.listen_port;
      peer_ip = none;
      peer_port = 0;
    })

abbrev pub server_begun : Option ServerArgs → ServerStart
server_begun none = usage
server_begun (some a) = server_checked a a.output_path

unfoldable pub server_start : List Opt → ServerStart
server_start opts = server_begun (getopt_loop server_switch server_defaults opts)

-- The options that the program knows.
abbrev pub server_knows : ℕ → Bool
server_knows c = c == 112 || c == 98 || c == 80 || c == 111

-- The settings as the manual describes them: each from the last option that gives it.
abbrev pub server_described : ServerArgs → List Opt → ServerArgs
server_described a opts = record {
  proto_str = setting some a.proto_str (last_arg 112 opts);
  bind_ip = setting some a.bind_ip (last_arg 98 opts);
  listen_port = setting atoi a.listen_port (last_arg 80 opts);
  output_path = setting some a.output_path (last_arg 111 opts);
}

-- The settings behind one option.
abbrev server_set : Opt → ServerArgs → ServerArgs
server_set o a = record {
  proto_str = if o.letter == 112 then some o.optarg else a.proto_str;
  bind_ip = if o.letter == 98 then some o.optarg else a.bind_ip;
  listen_port = if o.letter == 80 then atoi o.optarg else a.listen_port;
  output_path = if o.letter == 111 then some o.optarg else a.output_path;
}

server_switch-set :
    (o : Opt) (a : ServerArgs)
    → server_switch o a ≡ (if server_knows o.letter then some (server_set o a) else none)
unfolding server_switch
server_switch-set o a = ground arith

server_described_step :
    (o : Opt) (a : ServerArgs) (opts : List Opt)
    → server_described (server_set o a) opts ≡ server_described a (o ∷ opts)
server_described_step o a opts = λ i. record {
  proto_str = setting-last_arg some a.proto_str 112 o opts i;
  bind_ip = setting-last_arg some a.bind_ip 98 o opts i;
  listen_port = setting-last_arg atoi a.listen_port 80 o opts i;
  output_path = setting-last_arg some a.output_path 111 o opts i;
}

-- The server reads its options as they are documented, whatever their order and number: it shows the usage if one of
-- them is unknown, and else each setting is that of the last option that gives it, or its default.
pub server_start-described :
    (opts : List Opt)
    → server_start opts
      ≡ server_begun (
          if all_known server_knows opts
          then some (server_described server_defaults opts)
          else none)
unfolding server_start
server_start-described opts = ap server_begun (
    getopt_loop-described server_switch server_knows server_set server_described server_switch-set
      (λ a. refl) server_described_step server_defaults opts)
