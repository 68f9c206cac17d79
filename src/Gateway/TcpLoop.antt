-- ===== src/Gateway/TcpLoop.antt =====
-- gateway/src/GatewayServer.cpp, `onTcpMessage`: the loop that takes packets off a connection's
-- buffer. The calls that it makes of other components act on a state `S` that it does not see.
pub mod Serve
use native.Mathlib.Decide.{dec_lt}
use nebula_im.Base.{
  ℕ, zero, suc, ◌+◌, ◌≤◌, ◌<◌, ◌≡◌, ◌≢◌, refl, sym, ap, ◌∙◌, Bool, true, false, Option, none, some,
  List, [], ◌∷◌, ◌++◌, length, ltb, le→ltb, lt→ltb, if◌then◌else◌, ◌>>=◌, arith, length-append,
  append_assoc, ◌^◌, drop, length-drop, Bool-cases, inl, inr,
}
use nebula_im.Net.Buffer.{Buffer, readable_bytes, retrieve_all}
use nebula_im.Net.Buffer.Contents.{IsValid, contents, Leaves, readable_lem, retrieve_all_lem}
use nebula_im.Protocol.MessageType.{unknown}
use nebula_im.Protocol.Header.{packet_header_length}
use nebula_im.Protocol.Codec.{Packet, ProtocolError, ok, incomplete_packet, encode, decode}
use nebula_im.Protocol.Codec.Stream.{decode-encode, decode-encode_prefix}
use nebula_im.Protocol.Codec.Cases.{decode_short}
use nebula_im.Protocol.Codec.Sound.{Outcome, took, waits, refuses, decode-Outcome}

-- `allowPacket` (with its error reply), `GatewayRouter::handlePacket`, and the error reply with
-- `forceClose` for a stream that is refused.
pub record Peer (S : Type 0) : Type 0 where
  pub allow_packet : S → Packet → S × Bool
  pub handle_packet : S → Packet → S
  pub refuse : S → ProtocolError → S

-- `Packet packet;`
abbrev pub empty_packet : Packet
empty_packet = record { type = unknown; sequence_id = 0; body = [] }

module _ {S : Type 0} (peer : Peer S) where
  open peer use {allow_packet, handle_packet, refuse}

  -- What a round does with a decoded packet that `allowPacket` let through or not.
  unfoldable pub served :
      (Buffer → S → Option (Buffer × S)) → Buffer → Packet → S × Bool → Option (Buffer × S)
  served next b packet (s, true) = next b (handle_packet s packet)
  served next b packet (s, false) = some (retrieve_all b, s)

  unfoldable pub decoded :
      (Buffer → S → Option (Buffer × S)) → S → ProtocolError × Buffer × Packet → Option (Buffer × S)
  decoded next s (ok, b, packet) = served next b packet (allow_packet s packet)
  decoded next s (incomplete_packet, b, packet) = some (b, s)
  decoded next s (e, b, packet) = some (b, refuse s e)

  -- One round for each unit of fuel; `none` is fuel that ran out, or an abort of the buffer.
  unfoldable pub on_tcp_message : ℕ → Buffer → S → Option (Buffer × S)
  on_tcp_message zero b s = none
  on_tcp_message (suc fuel) b s =
      if ltb (readable_bytes b) packet_header_length
      then some (b, s)
      else (decode b empty_packet >>= decoded (on_tcp_message fuel) s)
