-- ===== src/Tests/Codecs.antt =====
-- The packet codec, the buffer and the receiving loop, at a heartbeat packet with a body of two
-- bytes, followed by one byte more.
use nebula_im.Base.{ℕ, suc, ◌≡◌, ◌≢◌, refl, true, some, List, [], ◌∷◌, ◌++◌, drop, arith, replicate}
use nebula_im.Net.Buffer.{Buffer}
use nebula_im.Net.Buffer.Contents.{IsValid, contents, Leaves}
use nebula_im.Protocol.MessageType.{
  heartbeat_req, to_uint16, message_type_from_uint16, is_valid_message_type,
}
use nebula_im.Protocol.Header.{encode_header}
use nebula_im.Protocol.Codec.{Packet, ok, incomplete_packet, encode, decode}
use nebula_im.Protocol.Codec.Stream.{decode-encode, decode-encode_prefix}
use nebula_im.Protocol.Codec.Sound.{Outcome, decode-Outcome, decode_sound}
use nebula_im.Gateway.TcpLoop.{Peer, empty_packet, on_tcp_message}
use nebula_im.Gateway.TcpLoop.Serve.{
  nothing, sent, IsPartial, Served, Ends, serve, on_tcp_message-serve, on_tcp_message_total,
}

abbrev heartbeat : Packet
heartbeat = record { type = heartbeat_req; sequence_id = 7; body = 1 ∷ 2 ∷ [] }

abbrev heartbeat_bytes : List ℕ
heartbeat_bytes =
    0x4E ∷ 0x49 ∷ 0x4D ∷ 0x42 ∷ 0 ∷ 1 ∷ 4 ∷ 77 ∷ 0 ∷ 0 ∷ 0 ∷ 7 ∷ 0 ∷ 0 ∷ 0 ∷ 2 ∷ 1 ∷ 2 ∷ []

encode-heartbeat : encode heartbeat ≡ some heartbeat_bytes
unfolding encode to_uint16 is_valid_message_type message_type_from_uint16 encode_header
encode-heartbeat = refl

-- The heartbeat and the first byte of what follows.
abbrev filled : Buffer
filled = record {
  storage = replicate 8 0 ++ heartbeat_bytes ++ (0x4E ∷ 0 ∷ []);
  reader_index = 8;
  writer_index = 27;
}

filled-IsValid : IsValid filled
filled-IsValid = omega arith

-- All but the last byte of the heartbeat.
abbrev waiting : Buffer
waiting = record filled { writer_index = 25 }

waiting-IsValid : IsValid waiting
waiting-IsValid = omega arith

abbrev counting : Peer ℕ
counting = record {
  allow_packet = λ s p. (s, true);
  handle_packet = λ s p. suc s;
  refuse = λ s e. s;
}

decode-encode_example :
    (b' : Buffer) × (decode filled empty_packet ≡ some (ok, b', heartbeat)) × Leaves (0x4E ∷ []) b'
decode-encode_example =
    decode-encode heartbeat empty_packet filled heartbeat_bytes (0x4E ∷ []) filled-IsValid
      (omega arith) encode-heartbeat refl

one_more : ◌≢◌ {A = List ℕ} (2 ∷ []) []
one_more e = cc

decode-encode_prefix_example :
    decode waiting empty_packet ≡ some (incomplete_packet, waiting, empty_packet)
decode-encode_prefix_example =
    decode-encode_prefix heartbeat empty_packet waiting heartbeat_bytes (2 ∷ []) waiting-IsValid
      (omega arith) encode-heartbeat refl one_more

decode-Outcome_example : Outcome filled empty_packet (decode filled empty_packet)
decode-Outcome_example = decode-Outcome filled empty_packet filled-IsValid

drained : Buffer
drained =
    (decode-encode heartbeat empty_packet filled heartbeat_bytes (0x4E ∷ []) filled-IsValid
      (omega arith) encode-heartbeat refl).0

decode_sound_example :
    (bytes : List ℕ) × (encode heartbeat ≡ some bytes)
    × (contents filled ≡ bytes ++ contents drained)
unfolding drained
decode_sound_example =
    decode_sound filled drained empty_packet heartbeat filled-IsValid (omega arith)
      (decode-encode heartbeat empty_packet filled heartbeat_bytes (0x4E ∷ []) filled-IsValid
        (omega arith) encode-heartbeat refl).1

-- The byte 0x4E alone is the start of a heartbeat.
started : IsPartial (0x4E ∷ [])
started = record {
  packet = heartbeat;
  bytes = heartbeat_bytes;
  more = drop 1 heartbeat_bytes;
  encoded = encode-heartbeat;
  small = omega arith;
  split = refl;
  unfinished = λ e. cc;
}

on_tcp_message-serve_example :
    Served counting
      (0x4E ∷ [])
      (on_tcp_message counting 20 filled 0)
      (serve counting (heartbeat ∷ []) 0)
on_tcp_message-serve_example =
    on_tcp_message-serve counting (0x4E ∷ []) 20 filled 0
      (sent encode-heartbeat (omega arith) nothing) started filled-IsValid refl (omega arith)

on_tcp_message_total_example : Ends counting (on_tcp_message counting 20 filled 0)
on_tcp_message_total_example =
    on_tcp_message_total counting 20 filled 0 filled-IsValid (omega arith)
