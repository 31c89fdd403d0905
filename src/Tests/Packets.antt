-- ===== src/Tests/Packets.antt =====
-- Packets and payloads.
use open_broadcast_intercom.Base.{ℕ, ◌%◌, ◌≡◌, refl, ◌⊎◌, List, [], ◌∷◌, ok, err, length, arith}
use open_broadcast_intercom.Wire.Types.{
  channel, pcm16, too_short, codec_byte, wire_parts, codec_try_from, from_wire,
}
use open_broadcast_intercom.Wire.Bytes.{from_be16, from_be32}
use open_broadcast_intercom.Wire.Packet.{AudioPacket, encode, decode, packet_bytes}
use open_broadcast_intercom.Wire.RoundTrip.{FitsPacket, decode-encode, encode-decode}
use open_broadcast_intercom.Wire.Pcm.{
  ℤ, pos, negsuc, pcm16_samples_to_le_bytes, pcm16_le_bytes_to_samples, odd_byte_length,
  to_bytes-to_samples,
}

abbrev hello : AudioPacket
hello = record {
  user_id = 258;
  target = channel 7;
  codec = pcm16;
  seq = 9;
  timestamp = 65_537;
  payload = 1 ∷ 255 ∷ [];
}

abbrev hello_bytes : List ℕ
hello_bytes = packet_bytes hello

decode_short : decode (79 ∷ 66 ∷ []) ≡ err (too_short 2)
unfolding decode
decode_short = refl

decode-encode_example :
    ((encode hello (3 ∷ [])).0 ≡ ok tt) × (decode (encode hello (3 ∷ [])).1 ≡ ok hello)
decode-encode_example = decode-encode hello (3 ∷ []) (ground arith) (omega arith)

encode-decode_example : (encode hello [] ≡ (ok tt, hello_bytes)) × FitsPacket hello
unfolding packet_bytes decode codec_byte wire_parts codec_try_from from_wire from_be16 from_be32
encode-decode_example = encode-decode hello_bytes [] hello (ground arith) refl

abbrev three : List ℤ
three = pos 5 ∷ negsuc 0 ∷ negsuc 32_767 ∷ []

abbrev odd_payload : List ℕ
odd_payload = 1 ∷ 2 ∷ 3 ∷ []

to_bytes-to_samples_example :
    ((length odd_payload % 2 ≡ 1)
      × (pcm16_le_bytes_to_samples odd_payload ≡ err (odd_byte_length (length odd_payload))))
    ⊎ ((length odd_payload % 2 ≡ 0)
        × (ss : List ℤ) × (pcm16_le_bytes_to_samples odd_payload ≡ ok ss)
        × (pcm16_samples_to_le_bytes ss ≡ odd_payload))
to_bytes-to_samples_example = to_bytes-to_samples odd_payload (ground arith)
