-- ===== src/Tests/Options.antt =====
-- The options of the programs on command lines.
use omni_socket.App.Numbers.{atoi, decimal}
use omni_socket.App.Options.{Opt, all_known, parse_proto, tcp_text, udp_text}
use omni_socket.Base.{
  ℕ, ◌≡◌, refl, List, [], ◌∷◌, Bytes, none, some, pos, negsuc, if◌then◌else◌, arith,
}
use omni_socket.Client.Options.{
  ClientStart, client_start, client_begun, client_knows, client_described, client_defaults,
  client_start-described, client_start-InRange, InRange, client_switch, client_checked,
}
use omni_socket.EndToEnd.Startup.{ports_agree}
use omni_socket.Network.Types.{client, server, proto_udp}
use omni_socket.Server.Options.{ServerStart, server_start}

abbrev opt : ℕ → Bytes → Opt
opt letter optarg = record { letter = letter; optarg = optarg }

-- `-p udp -H h -P 80 -P 9000 -f f -w -1`
abbrev client_line : List Opt
client_line =
    opt 112 udp_text
    ∷ opt 72 (104 ∷ [])
    ∷ opt 80 (decimal 80)
    ∷ opt 80 (decimal 9000)
    ∷ opt 102 (102 ∷ [])
    ∷ opt 119 (45 ∷ 49 ∷ [])
    ∷ []

-- `-p udp -P 9000 -o o`
abbrev server_line : List Opt
server_line = opt 112 udp_text ∷ opt 80 (decimal 9000) ∷ opt 111 (111 ∷ []) ∷ []

-- A space, a sign, what follows the digits; a number too large for a long.
read_sign : atoi (32 ∷ 45 ∷ 49 ∷ 50 ∷ 120 ∷ []) ≡ negsuc 11
unfolding atoi
read_sign = refl

read_large :
    atoi (
      49 ∷ 56 ∷ 52 ∷ 52 ∷ 54 ∷ 55 ∷ 52 ∷ 52 ∷ 48 ∷ 55 ∷ 51 ∷ 55 ∷ 48 ∷ 57 ∷ 53 ∷ 53 ∷ 49 ∷ 54 ∷ 49
      ∷ 54 ∷ [])
    ≡ negsuc 0
unfolding atoi
read_large = refl

-- `-H h -P 65536 -f f`: the port passes the check and becomes 0.
port_truncated :
    client_start (opt 72 (104 ∷ []) ∷ opt 80 (decimal 65536) ∷ opt 102 (102 ∷ []) ∷ [])
    ≡ ClientStart.starts
        (102 ∷ [])
        (record {
          role = client;
          proto = parse_proto (some tcp_text);
          bind_ip = none;
          bind_port = 0;
          peer_ip = some (104 ∷ []);
          peer_port = 0;
        })
        1400
        (pos 2)
unfolding client_start client_switch client_checked atoi
port_truncated = refl

client_start-described_example :
    client_start client_line
    ≡ client_begun (
        if all_known client_knows client_line
        then some (client_described client_defaults client_line)
        else none)
client_start-described_example = client_start-described client_line

client_start-InRange_example : InRange (client_start client_line)
client_start-InRange_example = client_start-InRange client_line

ports_agree_example :
    (client_start client_line
      ≡ ClientStart.starts
          (102 ∷ [])
          (record {
            role = client;
            proto = proto_udp;
            bind_ip = none;
            bind_port = 0;
            peer_ip = some (104 ∷ []);
            peer_port = 9000;
          })
          1400
          (negsuc 0))
    × (server_start server_line
        ≡ ServerStart.starts (111 ∷ []) (record {
          role = server;
          proto = proto_udp;
          bind_ip = none;
          bind_port = 9000;
          peer_ip = none;
          peer_port = 0;
        }))
unfolding atoi parse_proto
ports_agree_example =
    ports_agree 9000 client_line server_line (104 ∷ []) (102 ∷ []) (111 ∷ []) (omega arith)
      (omega arith) refl refl refl refl refl refl refl refl refl
