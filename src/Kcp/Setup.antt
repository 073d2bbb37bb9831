-- ===== src/Kcp/Setup.antt =====
-- src/protocols/kcp_impl.c: creating a context and closing it.
use omni_socket.Base.{
  ℕ, ◌%◌, ◌^◌, Bool, true, false, not, Option, none, some, ℤ, pos, negsuc, if◌then◌else◌,
}
use omni_socket.Datagram.{open_socket}
use omni_socket.Host.{Host, addr_of, calloc, free, close}
use omni_socket.Kcp.{Ikcp, KcpContext, KcpConn, kcp_send, kcp_recv}
use omni_socket.Logger.{LogLevel, message}
use omni_socket.Network.Types.{OmniRole, client, server, ProtoVTable}
use omni_socket.Runtime.{World, logged}

-- The conversation number: both sides take the server's port.
abbrev pub conv_of : OmniRole → ℕ → ℕ → ℕ
conv_of server bind_port peer_port = bind_port % 2 ^ 32
conv_of client bind_port peer_port = peer_port % 2 ^ 32

abbrev pub close_socket : ℤ → Host → Host
close_socket (pos fd) h = close fd h
close_socket (negsuc n) h = h

module _ {K : Type 0} where
  abbrev pub with_host : World (KcpConn K) → Host → World (KcpConn K)
  with_host w h = record w { conn = record (w.conn) { host = h } }

  -- `if (ctx->kcp) ikcp_release(ctx->kcp)`
  abbrev pub release : Option K → Host → Host
  release none h = h
  release (some k) h = free h

  unfoldable pub kcp_close : World (KcpConn K) → World (KcpConn K)
  kcp_close w = elim (w.conn.ctx) [
    | none ↦ w
    | some c ↦ record w {
      conn = record {
        ctx = none;
        net = w.conn.net;
        host = free (close_socket c.fd (release c.kcp w.conn.host));
      };
    }
  ]

module _ {K : Type 0} (lib : Ikcp K) where
  -- The control block that `kcp_init` prepares.
  abbrev pub started : ℕ → K
  started conv = lib.wndsize (lib.nodelay (lib.create conv) 1 10 2 1) 128 128

  -- The part of `kcp_init` behind the socket; `ikcp_create` allocates a block or fails.
  abbrev pub with_block :
      World (KcpConn K) → ℕ → Option ℕ → ℕ → ℕ → Bool × Host → Bool × World (KcpConn K)
  with_block w fd peer_ip peer_port conv (created, h) =
      let c : KcpContext K = record {
        fd = pos fd;
        peer_addr = addr_of peer_ip peer_port;
        kcp = some (started conv);
        last_xmit = 0;
      } in
      if not created
      then (false, logged (with_host w (free (close fd h))) (message LogLevel.error))
      else (
        true,
        logged (record w { conn = record { ctx = some c; net = w.conn.net; host = h } })
            (message LogLevel.info),
      )

  abbrev pub finish_init :
      World (KcpConn K) → Option ℕ → ℕ → ℕ → Option ℕ × Host → Bool × World (KcpConn K)
  finish_init w peer_ip peer_port conv (none, h) =
      (false, logged (with_host w (free h)) (message LogLevel.error))
  finish_init w peer_ip peer_port conv (some fd, h) =
      with_block w fd peer_ip peer_port conv (calloc h)

  -- `kcp_init`: whether it returns a context (`false` for NULL), which is then the `ctx` of the world.
  unfoldable pub kcp_init :
      OmniRole → Option ℕ → ℕ → Option ℕ → ℕ → World (KcpConn K) → Bool × World (KcpConn K)
  kcp_init role bind_ip bind_port peer_ip peer_port w =
      let (allocated, h) = calloc w.conn.host in
      if not allocated
      then (false, with_host w h)
      else finish_init w peer_ip peer_port (conv_of role bind_port peer_port)
          (open_socket h bind_ip bind_port)

  -- `KCP_PROTO_VTABLE`
  abbrev pub kcp_proto_vtable : ProtoVTable (KcpConn K)
  kcp_proto_vtable = record {
    init = some kcp_init;
    send = some (kcp_send lib);
    recv = some (kcp_recv lib);
    close = some kcp_close;
  }
