-- ===== src/Wire/RoundTrip.antt =====
-- The packet encoder and decoder are inverse to one another.
use open_broadcast_intercom.Base.{
  ℕ, ◌/◌, ◌%◌, ◌^◌, ◌≤◌, ◌<◌, ◌≡◌, refl, List, [], ◌∷◌, arith, ok, length,
}
use open_broadcast_intercom.Wire.Types.{
  Codec, AudioTarget, channel, direct, mixed, codec_byte, codec_try_from, wire_parts, from_wire,
  u16_max, magic_0, magic_1, version,
}
use open_broadcast_intercom.Wire.Bytes.{
  from_be16, from_be32, from_be16-be16, from_be32-be32, be16-from_be16, be32-from_be32,
}
use open_broadcast_intercom.Wire.Packet.{AudioPacket, encode, decode, packet_bytes}

-- The identifiers of a target fit their `u16`.
abbrev pub FitsTarget : AudioTarget → Type 0
FitsTarget (channel id) = id < 65_536
FitsTarget (direct id) = id < 65_536
FitsTarget mixed = Unit {0}

-- The fields of a packet fit the widths of their Rust types.
pub record FitsPacket (p : AudioPacket) : Type 0 where
  pub user_id : p.user_id < 65_536
  pub target : FitsTarget p.target
  pub seq : p.seq < 65_536
  pub timestamp : p.timestamp < 2 ^ 32

abbrev pub AreBytes : List ℕ → Type 0
AreBytes [] = Unit {0}
AreBytes (b ∷ bs) = (b < 256) × AreBytes bs

codec_try_from-codec_byte : (c : Codec) → codec_try_from (codec_byte c) ≡ ok c
unfolding codec_try_from codec_byte
codec_try_from-codec_byte c = ground arith

from_wire-wire_parts :
    (t : AudioTarget)
    → FitsTarget t
    → from_wire (wire_parts t).0 (from_be16 ((wire_parts t).1 / 256 % 256) ((wire_parts t).1 % 256))
      ≡ ok t
unfolding from_wire wire_parts
from_wire-wire_parts (channel id) h = rw (from_be16-be16 id h)
from_wire-wire_parts (direct id) h = rw (from_be16-be16 id h)
from_wire-wire_parts mixed h = unfold from_be16 in refl

decode-packet_bytes :
    (p : AudioPacket) → FitsPacket p → length p.payload ≤ u16_max → decode (packet_bytes p) ≡ ok p
unfolding decode packet_bytes
decode-packet_bytes p f h = ground (
  arith,
  from_wire-wire_parts p.target f.target,
  codec_try_from-codec_byte p.codec,
  from_be16-be16 p.user_id,
  from_be16-be16 p.seq,
  from_be32-be32 p.timestamp,
  from_be16-be16 (length p.payload % 65_536),
)

-- Encoding a packet whose fields fit their widths, with a payload of at most 65,535 bytes,
-- succeeds, and decoding the buffer gives the packet back, whatever the buffer held before.
pub decode-encode :
    (p : AudioPacket) (out : List ℕ)
    → FitsPacket p
    → length p.payload ≤ u16_max
    → ((encode p out).0 ≡ ok tt) × (decode (encode p out).1 ≡ ok p)
unfolding encode
decode-encode p out f h = ground (arith, decode-packet_bytes p f)

from_wire-inverse :
    (kind id : ℕ) (t : AudioTarget)
    → id < 65_536
    → from_wire kind id ≡ ok t
    → (wire_parts t ≡ (kind, id)) × FitsTarget t
unfolding from_wire wire_parts
from_wire-inverse kind id (channel i) h e = ground arith
from_wire-inverse kind id (direct i) h e = ground arith
from_wire-inverse kind id mixed h e = ground arith

codec_try_from-inverse :
    (value : ℕ) (c : Codec) → codec_try_from value ≡ ok c → codec_byte c ≡ value
unfolding codec_try_from codec_byte
codec_try_from-inverse value c e = ground arith

-- What `decode` read, of a header and a payload that it accepts.
decode-inverse :
    (m0 m1 v u0 u1 kind t0 t1 c s0 s1 d0 d1 d2 d3 l0 l1 : ℕ) (rest : List ℕ) (p : AudioPacket)
    → decode
        (m0 ∷ m1 ∷ v ∷ u0 ∷ u1 ∷ kind ∷ t0 ∷ t1 ∷ c ∷ s0 ∷ s1 ∷ d0 ∷ d1 ∷ d2 ∷ d3 ∷ l0 ∷ l1 ∷ rest)
      ≡ ok p
    → (m0 ≡ magic_0)
      × (m1 ≡ magic_1)
      × (v ≡ version)
      × (from_wire kind (from_be16 t0 t1) ≡ ok p.target)
      × (codec_try_from c ≡ ok p.codec)
      × (from_be16 l0 l1 ≡ length rest)
      × (p.user_id ≡ from_be16 u0 u1)
      × (p.seq ≡ from_be16 s0 s1)
      × (p.timestamp ≡ from_be32 d0 d1 d2 d3)
      × (p.payload ≡ rest)
unfolding decode
decode-inverse m0 m1 v u0 u1 kind t0 t1 c s0 s1 d0 d1 d2 d3 l0 l1 rest p h = ground arith

-- A byte string that `decode` accepts is the encoding of the packet that it returns, and the
-- fields of that packet fit their widths.
pub encode-decode :
    (bytes out : List ℕ) (p : AudioPacket)
    → AreBytes bytes
    → decode bytes ≡ ok p
    → (encode p out ≡ (ok tt, bytes)) × FitsPacket p
unfolding encode packet_bytes
encode-decode
      (m0 ∷ m1 ∷ v ∷ u0 ∷ u1 ∷ kind ∷ t0 ∷ t1 ∷ c ∷ s0 ∷ s1 ∷ d0 ∷ d1 ∷ d2 ∷ d3 ∷ l0 ∷ l1 ∷ rest)
      out p b h =
    let read = decode-inverse m0 m1 v u0 u1 kind t0 t1 c s0 s1 d0 d1 d2 d3 l0 l1 rest p h in
    ground (
      arith,
      be16-from_be16 u0 u1,
      be16-from_be16 t0 t1,
      be16-from_be16 s0 s1,
      be16-from_be16 l0 l1,
      be32-from_be32 d0 d1 d2 d3,
      from_wire-inverse kind (from_be16 t0 t1) p.target,
      codec_try_from-inverse c p.codec,
    )
encode-decode _ out p b h = unfold decode in cc
