-- ===== src/Echo/Options.antt =====
-- src/apps/test_main.c: the options of the command line, their checks, and what `main` calls with them.
use omni_socket.App.Numbers.{atoi}
use omni_socket.App.Options.{
  Opt, getopt_loop, tcp_text, parse_proto, as_uint16, last_arg, setting, setting-last_arg,
  all_known, getopt_loop-described,
}
use omni_socket.Base.{
  ℕ, ◌≡◌, refl, ap, Bool, not, List, [], ◌∷◌, Bytes, Option, none, some, ℤ, pos, ◌==◌, ◌||◌,
  is_positive, if◌then◌else◌, arith,
}
use omni_socket.App.Lines.{eqb_bytes}
use omni_socket.Network.Types.{OmniProtocol}

-- The variables that the options set; `none` is NULL.
pub record TestArgs : Type 0 where
  pub role_str : Option Bytes
  pub proto_str : Option Bytes
  pub port : ℤ
  pub host : Option Bytes

abbrev pub test_defaults : TestArgs
test_defaults = record { role_str = none; proto_str = some tcp_text; port = pos 0; host = none }

-- The `switch`: r, p, P and H.
unfoldable pub test_switch : Opt → TestArgs → Option TestArgs
test_switch o a =
    if o.letter == 114
    then some (record a { role_str = some o.optarg })
    else if o.letter == 112
    then some (record a { proto_str = some o.optarg })
    else if o.letter == 80
    then some (record a { port = atoi o.optarg })
    else if o.letter == 72
    then some (record a { host = some o.optarg })
    else none

-- What `main` does behind the options: shows the usage, or calls `run_server` or `run_client`.
pub data TestStart : Type 0 where
  usage : TestStart
  runs_server : OmniProtocol → ℕ → TestStart
  runs_client : OmniProtocol → Option Bytes → ℕ → TestStart

-- `server`, `client`
abbrev pub server_text : Bytes
server_text = 115 ∷ 101 ∷ 114 ∷ 118 ∷ 101 ∷ 114 ∷ []

abbrev pub client_text : Bytes
client_text = 99 ∷ 108 ∷ 105 ∷ 101 ∷ 110 ∷ 116 ∷ []

-- The checks of the settings.
unfoldable pub test_checked : TestArgs → Option Bytes → TestStart
test_checked a none = usage
test_checked a (some role) =
    if not (is_positive a.port)
    then usage
    else if eqb_bytes role server_text
    then runs_server (parse_proto a.proto_str) (as_uint16 a.port)
    else if eqb_bytes role client_text
    then runs_client (parse_proto a.proto_str) a.host (as_uint16 a.port)
    else usage

abbrev pub test_begun : Option TestArgs → TestStart
test_begun none = usage
test_begun (some a) = test_checked a a.role_str

unfoldable pub test_start : List Opt → TestStart
test_start opts = test_begun (getopt_loop test_switch test_defaults opts)

-- The options that the program knows.
abbrev pub test_knows : ℕ → Bool
test_knows c = c == 114 || c == 112 || c == 80 || c == 72

-- The settings as the manual describes them: each from the last option that gives it.
abbrev pub test_described : TestArgs → List Opt → TestArgs
test_described a opts = record {
  role_str = setting some a.role_str (last_arg 114 opts);
  proto_str = setting some a.proto_str (last_arg 112 opts);
  port = setting atoi a.port (last_arg 80 opts);
  host = setting some a.host (last_arg 72 opts);
}

-- The settings behind one option.
abbrev test_set : Opt → TestArgs → TestArgs
test_set o a = record {
  role_str = if o.letter == 114 then some o.optarg else a.role_str;
  proto_str = if o.letter == 112 then some o.optarg else a.proto_str;
  port = if o.letter == 80 then atoi o.optarg else a.port;
  host = if o.letter == 72 then some o.optarg else a.host;
}

test_switch-set :
    (o : Opt) (a : TestArgs)
    → test_switch o a ≡ (if test_knows o.letter then some (test_set o a) else none)
unfolding test_switch
test_switch-set o a = ground arith

test_described_step :
    (o : Opt) (a : TestArgs) (opts : List Opt)
    → test_described (test_set o a) opts ≡ test_described a (o ∷ opts)
test_described_step o a opts = λ i. record {
  role_str = setting-last_arg some a.role_str 114 o opts i;
  proto_str = setting-last_arg some a.proto_str 112 o opts i;
  port = setting-last_arg atoi a.port 80 o opts i;
  host = setting-last_arg some a.host 72 o opts i;
}

-- The test program reads its options as they are documented, whatever their order and number: it shows the usage if one of
-- them is unknown, and else each setting is that of the last option that gives it, or its default.
pub test_start-described :
    (opts : List Opt)
    → test_start opts
      ≡ test_begun
          (if all_known test_knows opts then some (test_described test_defaults opts) else none)
unfolding test_start
test_start-described opts = ap test_begun (
    getopt_loop-described test_switch test_knows test_set test_described test_switch-set (λ a. refl)
      test_described_step test_defaults opts)
