-- ===== src/Wire/Packet.antt =====
-- common/src/lib.rs: `AudioPacket` with its encoder and decoder.
use open_broadcast_intercom.Base.{
  ℕ, ◌%◌, Bool, true, false, not, ◌&&◌, ltb, ◌==◌, nat_eq, if◌then◌else◌, List, [], ◌∷◌, ◌++◌,
  length, Result, ok, err, ◌>>=◌,
}
use open_broadcast_intercom.Wire.Types.{
  Codec, AudioTarget, mixed, PacketError, too_short, invalid_magic, unsupported_version,
  payload_length_mismatch, payload_too_large, codec_byte, codec_try_from, wire_parts, from_wire,
  magic_0, magic_1, version, u16_max,
}
use open_broadcast_intercom.Wire.Bytes.{be16, be32, from_be16, from_be32}

pub record AudioPacket : Type 0 where
  pub user_id : ℕ
  pub target : AudioTarget
  pub codec : Codec
  pub seq : ℕ
  pub timestamp : ℕ
  pub payload : List ℕ

-- `AudioPacket::registration`
unfoldable pub registration : ℕ → Codec → ℕ → AudioPacket
registration user_id codec seq = record {
  user_id = user_id;
  target = mixed;
  codec = codec;
  seq = seq;
  timestamp = 0;
  payload = [];
}

abbrev is_mixed : AudioTarget → Bool
is_mixed mixed = true
is_mixed _ = false

abbrev is_empty : List ℕ → Bool
is_empty [] = true
is_empty _ = false

unfoldable pub is_registration : AudioPacket → Bool
is_registration p = is_mixed p.target && is_empty p.payload

-- the bytes that a call of `encode` appends to the cleared buffer
unfoldable pub packet_bytes : AudioPacket → List ℕ
packet_bytes p =
    let (target_kind, target_id) = wire_parts p.target in
    (magic_0 ∷ magic_1 ∷ [])
    ++ version ∷ []
    ++ be16 p.user_id
    ++ target_kind ∷ []
    ++ be16 target_id
    ++ codec_byte p.codec ∷ []
    ++ be16 p.seq
    ++ be32 p.timestamp
    ++ be16 (length p.payload % 65_536)
    ++ p.payload

-- `AudioPacket::encode`: the result, and the buffer `out` afterwards
unfoldable pub encode : AudioPacket → List ℕ → Result PacketError (Unit {0}) × List ℕ
unfolding packet_bytes
encode p out =
    if ltb u16_max (length p.payload)
    then (err (payload_too_large (length p.payload)), out)
    else (ok tt, packet_bytes p)

-- `AudioPacket::decode`: the test that the header is there is the pattern
unfoldable pub decode : List ℕ → Result PacketError AudioPacket
decode (m0 ∷ m1 ∷ v ∷ u0 ∷ u1 ∷ kind ∷ t0 ∷ t1 ∷ c ∷ s0 ∷ s1 ∷ d0 ∷ d1 ∷ d2 ∷ d3 ∷ l0 ∷ l1 ∷ rest) =
    if not (m0 == magic_0 && m1 == magic_1)
    then err (invalid_magic m0 m1)
    else if not (v == version)
    then err (unsupported_version v)
    else do
      target ← from_wire kind (from_be16 t0 t1)
      codec ← codec_try_from c
      let payload_len = from_be16 l0 l1
      if not (payload_len == length rest)
          then err (payload_length_mismatch payload_len (length rest))
          else ok (record {
            user_id = from_be16 u0 u1;
            target = target;
            codec = codec;
            seq = from_be16 s0 s1;
            timestamp = from_be32 d0 d1 d2 d3;
            payload = rest;
          })
decode bytes = err (too_short (length bytes))
