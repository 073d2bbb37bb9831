-- ===== src/Client/Options.antt =====
-- src/apps/client_main.c: the options of the command line, their checks, and what `main` calls with them.
use omni_socket.App.Numbers.{atoi, strtoul}
use omni_socket.App.Options.{
  Opt, getopt_loop, tcp_text, parse_proto, as_uint16, InitCall, last_arg, setting, setting-last_arg,
  all_known, getopt_loop-described,
}
use omni_socket.Base.{
  ℕ, ◌≤◌, ◌<◌, ◌≡◌, ◌≢◌, ◌^◌, refl, ap, Bool, not, List, ◌∷◌, Bytes, Option, none, some, ℤ, pos,
  ltb, ◌==◌, ◌||◌, is_positive, if◌then◌else◌, arith,
}
use omni_socket.Network.Types.{client}
use omni_socket.Wire.{omni_default_mtu}

-- The variables that the options set; `none` is NULL.
pub record ClientArgs : Type 0 where
  pub proto_str : Option Bytes
  pub server_ip : Option Bytes
  pub server_port : ℤ
  pub file_path : Option Bytes
  pub bind_port : ℤ
  pub chunk_size : ℕ
  pub wait_seconds : ℤ

abbrev pub client_defaults : ClientArgs
client_defaults = record {
  proto_str = some tcp_text;
  server_ip = none;
  server_port = pos 0;
  file_path = none;
  bind_port = pos 0;
  chunk_size = omni_default_mtu;
  wait_seconds = pos 2;
}

-- The `switch`: p, H, P, f, b, m and w.
unfoldable pub client_switch : Opt → ClientArgs → Option ClientArgs
client_switch o a =
    if o.letter == 112
    then some (record a { proto_str = some o.optarg })
    else if o.letter == 72
    then some (record a { server_ip = some o.optarg })
    else if o.letter == 80
    then some (record a { server_port = atoi o.optarg })
    else if o.letter == 102
    then some (record a { file_path = some o.optarg })
    else if o.letter == 98
    then some (record a { bind_port = atoi o.optarg })
    else if o.letter == 109
    then some (record a { chunk_size = strtoul o.optarg })
    else if o.letter == 119
    then some (record a { wait_seconds = atoi o.optarg })
    else none

-- What `main` does behind the options: shows the usage, refuses the chunk size, or opens the file and calls
-- `omni_init`.
pub data ClientStart : Type 0 where
  usage : ClientStart
  invalid_chunk : ℕ → ClientStart
  starts : Bytes → InitCall → ℕ → ℤ → ClientStart

-- The checks of the settings.
unfoldable pub client_checked : ClientArgs → Option Bytes → Option Bytes → ClientStart
client_checked a (some ip) (some path) =
    if not (is_positive a.server_port)
    then usage
    else if a.chunk_size == 0 || ltb 65536 a.chunk_size
    then invalid_chunk a.chunk_size
    else starts path
        (record {
          role = client;
          proto = parse_proto a.proto_str;
          bind_ip = none;
          bind_port = as_uint16 a.bind_port;
          peer_ip = some ip;
          peer_port = as_uint16 a.server_port;
        })
        a.chunk_size a.wait_seconds
client_checked a ip path = usage

abbrev pub client_begun : Option ClientArgs → ClientStart
client_begun none = usage
client_begun (some a) = client_checked a a.server_ip a.file_path

unfoldable pub client_start : List Opt → ClientStart
client_start opts = client_begun (getopt_loop client_switch client_defaults opts)

-- The options that the client knows.
abbrev pub client_knows : ℕ → Bool
client_knows c = c == 112 || c == 72 || c == 80 || c == 102 || c == 98 || c == 109 || c == 119

-- The settings as the manual describes them: each from the last option that gives it.
abbrev pub client_described : ClientArgs → List Opt → ClientArgs
client_described a opts = record {
  proto_str = setting some a.proto_str (last_arg 112 opts);
  server_ip = setting some a.server_ip (last_arg 72 opts);
  server_port = setting atoi a.server_port (last_arg 80 opts);
  file_path = setting some a.file_path (last_arg 102 opts);
  bind_port = setting atoi a.bind_port (last_arg 98 opts);
  chunk_size = setting strtoul a.chunk_size (last_arg 109 opts);
  wait_seconds = setting atoi a.wait_seconds (last_arg 119 opts);
}

-- The settings behind one option.
abbrev client_set : Opt → ClientArgs → ClientArgs
client_set o a = record {
  proto_str = if o.letter == 112 then some o.optarg else a.proto_str;
  server_ip = if o.letter == 72 then some o.optarg else a.server_ip;
  server_port = if o.letter == 80 then atoi o.optarg else a.server_port;
  file_path = if o.letter == 102 then some o.optarg else a.file_path;
  bind_port = if o.letter == 98 then atoi o.optarg else a.bind_port;
  chunk_size = if o.letter == 109 then strtoul o.optarg else a.chunk_size;
  wait_seconds = if o.letter == 119 then atoi o.optarg else a.wait_seconds;
}

client_switch-set :
    (o : Opt) (a : ClientArgs)
    → client_switch o a ≡ (if client_knows o.letter then some (client_set o a) else none)
unfolding client_switch
client_switch-set o a = ground arith

client_described_step :
    (o : Opt) (a : ClientArgs) (opts : List Opt)
    → client_described (client_set o a) opts ≡ client_described a (o ∷ opts)
client_described_step o a opts = λ i. record {
  proto_str = setting-last_arg some a.proto_str 112 o opts i;
  server_ip = setting-last_arg some a.server_ip 72 o opts i;
  server_port = setting-last_arg atoi a.server_port 80 o opts i;
  file_path = setting-last_arg some a.file_path 102 o opts i;
  bind_port = setting-last_arg atoi a.bind_port 98 o opts i;
  chunk_size = setting-last_arg strtoul a.chunk_size 109 o opts i;
  wait_seconds = setting-last_arg atoi a.wait_seconds 119 o opts i;
}

-- The client reads its options as they are documented, whatever their order and number: it shows the usage if one of
-- them is unknown, and else each setting is that of the last option that gives it, or its default.
pub client_start-described :
    (opts : List Opt)
    → client_start opts
      ≡ client_begun (
          if all_known client_knows opts
          then some (client_described client_defaults opts)
          else none)
unfolding client_start
client_start-described opts = ap client_begun (
    getopt_loop-described client_switch client_knows client_set client_described client_switch-set
      (λ a. refl) client_described_step client_defaults opts)

-- What the checks let through.
abbrev pub InRange : ClientStart → Type 0
InRange (starts path call chunk_size wait_seconds) =
    (0 < chunk_size)
    × (chunk_size ≤ 65536)
    × (call.bind_port < 2 ^ 16)
    × (call.peer_port < 2 ^ 16)
    × (call.role ≡ client)
    × (call.peer_ip ≢ none)
InRange other = Unit {0}

client_checked-InRange :
    (a : ClientArgs) (ip path : Option Bytes) → InRange (client_checked a ip path)
unfolding client_checked
client_checked-InRange a ip path = ground arith

begun_lem : (a : Option ClientArgs) → InRange (client_begun a)
begun_lem none = tt
begun_lem (some a) = client_checked-InRange a a.server_ip a.file_path

-- What the client starts with is in range: a chunk of 1 to 65536 bytes, ports of 16 bits and the address of a peer.
pub client_start-InRange : (opts : List Opt) → InRange (client_start opts)
unfolding client_start
client_start-InRange opts = begun_lem (getopt_loop client_switch client_defaults opts)
