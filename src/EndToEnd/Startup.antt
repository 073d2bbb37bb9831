-- ===== src/EndToEnd/Startup.antt =====
-- The client of src/apps/client_main.c and the server of src/apps/server_main.c, started with options that name the
-- same port.
use omni_socket.App.Numbers.{atoi, strtoul, decimal, atoi-decimal}
use omni_socket.App.Options.{Opt, tcp_text, parse_proto, as_uint16, last_arg, setting, all_known}
use omni_socket.Base.{
  ℕ, ◌<◌, ◌≤◌, ◌≡◌, ◌∙◌, ◌^◌, ap, sym, subst, true, List, Bytes, Option, none, some, ℤ, pos, arith,
  if◌then◌else◌,
}
use omni_socket.Client.Options.{
  ClientArgs, ClientStart, client_start, client_checked, client_begun, client_knows,
  client_described, client_defaults, client_start-described,
}
use omni_socket.Network.Types.{client, server}
use omni_socket.Server.Options.{
  ServerArgs, ServerStart, server_start, server_checked, server_begun, server_knows,
  server_described, server_defaults, server_start-described,
}
use omni_socket.Wire.{omni_default_mtu}

client_launch :
    (a : ClientArgs) (server_ip file_path : Option Bytes) (ip path : Bytes) (n : ℕ)
    → server_ip ≡ some ip
    → file_path ≡ some path
    → a.server_port ≡ pos n
    → 0 < n
    → n < 2 ^ 16
    → (0 < a.chunk_size) × (a.chunk_size ≤ 65536)
    → client_checked a server_ip file_path
      ≡ ClientStart.starts path
          (record {
            role = client;
            proto = parse_proto a.proto_str;
            bind_ip = none;
            bind_port = as_uint16 a.bind_port;
            peer_ip = some ip;
            peer_port = n;
          })
          a.chunk_size
          a.wait_seconds
unfolding client_checked
client_launch a server_ip file_path ip path n has_ip has_path port low high chunk = ground arith

server_launch :
    (a : ServerArgs) (output_path : Option Bytes) (path : Bytes) (n : ℕ)
    → output_path ≡ some path
    → a.listen_port ≡ pos n
    → 0 < n
    → n < 2 ^ 16
    → server_checked a output_path
      ≡ ServerStart.starts path (record {
        role = server;
        proto = parse_proto a.proto_str;
        bind_ip = a.bind_ip;
        bind_port = n;
        peer_ip = none;
        peer_port = 0;
      })
unfolding server_checked
server_launch a output_path path n has_path port low high = ground arith

-- A port in decimal, as a setting.
port_setting :
    (was : ℤ) (arg : Option Bytes) (n : ℕ)
    → arg ≡ some (decimal n)
    → n < 2 ^ 16
    → setting atoi was arg ≡ pos n
port_setting was arg n named high = ap (setting atoi was) named ∙ atoi-decimal n (omega arith)

chunk_setting :
    (arg : Option Bytes)
    → arg ≡ none
    → (0 < setting strtoul omni_default_mtu arg) × (setting strtoul omni_default_mtu arg ≤ 65536)
chunk_setting arg unset =
    subst
      (λ x. (0 < setting strtoul omni_default_mtu x) × (setting strtoul omni_default_mtu x ≤ 65536))
      (sym unset) (omega arith, omega arith)

-- A client and a server that are started for each other meet: if both get the port n, from 1 to 65535, in decimal with
-- their last -P, and the same -p or none, and the other options are known, the client with an address, a file and no -m,
-- the server with a file, then the client connects to port n of that address, the server listens on port n, and both with
-- the same protocol.
pub ports_agree :
    (n : ℕ) (client_opts server_opts : List Opt) (ip sent_path written_path : Bytes)
    → 0 < n
    → n < 2 ^ 16
    → all_known client_knows client_opts ≡ true
    → last_arg 72 client_opts ≡ some ip
    → last_arg 80 client_opts ≡ some (decimal n)
    → last_arg 102 client_opts ≡ some sent_path
    → last_arg 109 client_opts ≡ none
    → all_known server_knows server_opts ≡ true
    → last_arg 80 server_opts ≡ some (decimal n)
    → last_arg 111 server_opts ≡ some written_path
    → last_arg 112 client_opts ≡ last_arg 112 server_opts
    → let proto = parse_proto (setting some (some tcp_text) (last_arg 112 server_opts)) in
      let a = client_described client_defaults client_opts in
      let s = server_described server_defaults server_opts in
      (client_start client_opts
        ≡ ClientStart.starts sent_path
            (record {
              role = client;
              proto = proto;
              bind_ip = none;
              bind_port = as_uint16 a.bind_port;
              peer_ip = some ip;
              peer_port = n;
            })
            a.chunk_size
            a.wait_seconds)
      × (server_start server_opts
          ≡ ServerStart.starts written_path (record {
            role = server;
            proto = proto;
            bind_ip = s.bind_ip;
            bind_port = n;
            peer_ip = none;
            peer_port = 0;
          }))
ports_agree n client_opts server_opts ip sent_path written_path low high known at_ip at_port at_file
      no_chunk known' at_port' at_file' same =
    let a = client_described client_defaults client_opts in
    let s = server_described server_defaults server_opts in
    let called : Option Bytes → ClientStart = λ p.
      ClientStart.starts sent_path
        (record {
          role = client;
          proto = parse_proto (setting some (some tcp_text) p);
          bind_ip = none;
          bind_port = as_uint16 a.bind_port;
          peer_ip = some ip;
          peer_port = n;
        })
        a.chunk_size a.wait_seconds in
    (
      client_start-described client_opts
          ∙ ap (λ b. client_begun (if b then some a else none)) known
          ∙ client_launch a a.server_ip a.file_path ip sent_path n (ap (setting some none) at_ip)
              (ap (setting some none) at_file)
              (port_setting (pos 0) (last_arg 80 client_opts) n at_port high) low high
              (chunk_setting (last_arg 109 client_opts) no_chunk)
          ∙ ap called same,
      server_start-described server_opts
          ∙ ap (λ b. server_begun (if b then some s else none)) known'
          ∙ server_launch s s.output_path written_path n (ap (setting some none) at_file')
              (port_setting (pos 0) (last_arg 80 server_opts) n at_port' high) low high,
    )
