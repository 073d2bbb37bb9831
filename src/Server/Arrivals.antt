-- ===== src/Server/Arrivals.antt =====
-- A datagram that the server of src/apps/server_main.c receives over UDP, and what it should do to the file.
use omni_socket.App.{Decoded, refused, decoded, decode_app_message}
use omni_socket.App.Messages.{decode_app_message-accepts}
use omni_socket.Base.{
  ℕ, ◌≤◌, ◌≡◌, refl, ap, sym, ◌++◌, [], ◌∷◌, List, Bytes, length, Bool, true, false, ◌||◌, none, ℤ,
  pos, arith, append-nil, length-drop, ◌==◌, if◌then◌else◌, Bool-cases, inl, inr, ==_iff, ◌∙◌,
}
use omni_socket.Datagram.{Arrival, datagram, interrupted, broken, recvfrom, max_datagram}
use omni_socket.Host.{Sockaddr}
use omni_socket.Runtime.{World}
use omni_socket.Server.Stdio.{fwrite-roomy, fflush-roomy}
use omni_socket.Server.{ServerRuntime, on_message, is_tcp}
use omni_socket.Udp.{UdpConn, udp_recv}
use omni_socket.Udp.Peers.{Talks, udp_recv-open}
use omni_socket.Wire.{ByteOrder, msg_type_file_chunk, msg_type_file_end, omni_err_io}

-- What a message adds to the file, and whether it ends it.
abbrev pub chunk_of : Decoded → Bytes
chunk_of (refused rc) = []
chunk_of (decoded hdr payload) = if hdr.type == msg_type_file_chunk then payload else []

abbrev pub is_end : Decoded → Bool
is_end (refused rc) = false
is_end (decoded hdr payload) = hdr.type == msg_type_file_end

-- All that arrives up to the first error: the bodies of the chunks, and whether the end of the file was among it.
abbrev pub chunks : ByteOrder → List Arrival → Bytes
chunks o [] = []
chunks o (datagram from bs ∷ rest) = chunk_of (decode_app_message o bs) ++ chunks o rest
chunks o (interrupted ∷ rest) = chunks o rest
chunks o (broken ∷ rest) = []

abbrev pub has_end : ByteOrder → List Arrival → Bool
has_end o [] = false
has_end o (datagram from bs ∷ rest) = is_end (decode_app_message o bs) || has_end o rest
has_end o (interrupted ∷ rest) = has_end o rest
has_end o (broken ∷ rest) = false

abbrev pub has_error : List Arrival → Bool
has_error [] = false
has_error (datagram from bs ∷ rest) = has_error rest
has_error (interrupted ∷ rest) = has_error rest
has_error (broken ∷ rest) = true

-- No datagram is longer than datagrams are.
abbrev pub AllShort : List Arrival → Type 0
AllShort [] = Unit {0}
AllShort (datagram from bs ∷ rest) = (length bs ≤ max_datagram) × AllShort rest
AllShort (interrupted ∷ rest) = AllShort rest
AllShort (broken ∷ rest) = AllShort rest

-- A server whose disk takes everything.
abbrev pub IsRoomy : ServerRuntime → Type 0
IsRoomy rt = (rt.out_fp.room ≡ none) × (is_tcp rt.proto ≡ false)

-- What a message does to the runtime.
abbrev pub Did : ServerRuntime → Bytes → Bool → ServerRuntime → Type 0
Did rt body end rt' =
    (rt'.out_fp.given ≡ rt.out_fp.given ++ body)
    × (rt'.transfer_done ≡ rt.transfer_done || end)
    × (rt'.running ≡ rt.running)
    × IsRoomy rt'

-- The payload that is decoded is as long as its header says.
abbrev pub IsSized : Decoded → Type 0
IsSized (refused rc) = Unit {0}
IsSized (decoded hdr payload) = length payload ≡ hdr.len

pub decode_app_message-IsSized :
    (o : ByteOrder) (frame : Bytes) (d : Decoded) → decode_app_message o frame ≡ d → IsSized d
decode_app_message-IsSized o frame (refused rc) e = tt
decode_app_message-IsSized o frame (decoded hdr payload) e =
    let (same, rest, len) = (decode_app_message-accepts o frame hdr payload).0 e in
    omega (arith, ap length rest, length-drop 16 frame, len)

pub on_message-Did :
    {S : Type 0} (rt : ServerRuntime) (w : World S) (d : Decoded)
    → IsRoomy rt
    → IsSized d
    → Did rt (chunk_of d) (is_end d) (on_message rt w d).0
unfolding on_message
on_message-Did rt w (refused rc) roomy sized =
    let same = sym (append-nil rt.out_fp.given) in ground arith
on_message-Did rt w (decoded hdr payload) roomy sized =
    let same = sym (append-nil rt.out_fp.given) in
    let (n, given, room) = fwrite-roomy payload rt.out_fp roomy.0 in
    let (kept, flushed, room') = fflush-roomy rt.out_fp roomy.0 in
    elim (Bool-cases (hdr.type == msg_type_file_chunk)) [
      | inl chunk ↦ rw (chunk, n, (==_iff (length payload) hdr.len).1 sized) (ground arith)
      | inr other ↦ elim (Bool-cases (hdr.type == msg_type_file_end)) [
        | inl end ↦ rw (other, end) (kept ∙ same, ground arith, refl, (room', roomy.1))
        | inr no_end ↦ rw (other, no_end) (same, ground arith, refl, roomy)
      ]
    ]

pub interrupted_result :
    (w : World UdpConn) (a : Sockaddr) (cap : ℕ) (rest : List Arrival)
    → Talks a w.conn
    → w.conn.net.arrivals ≡ interrupted ∷ rest
    → (udp_recv w cap).0 ≡ pos 0
unfolding recvfrom
interrupted_result w a cap rest (c, made, is_open, peer) there =
    rw (udp_recv-open cap w c made is_open, there) refl

pub broken_result :
    (w : World UdpConn) (a : Sockaddr) (cap : ℕ) (rest : List Arrival)
    → Talks a w.conn
    → w.conn.net.arrivals ≡ broken ∷ rest
    → (udp_recv w cap).0 ≡ omni_err_io
unfolding recvfrom
broken_result w a cap rest (c, made, is_open, peer) there =
    rw (udp_recv-open cap w c made is_open, there) refl

pub empty_refused : (o : ByteOrder) → (rc : ℤ) × (decode_app_message o [] ≡ refused rc)
unfolding decode_app_message
empty_refused o = (_, refl)
