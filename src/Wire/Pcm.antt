-- ===== src/Wire/Pcm.antt =====
-- common/src/lib.rs: PCM16 payloads, `pcm16_samples_to_le_bytes` and `pcm16_le_bytes_to_samples`.
use open_broadcast_intercom.Base.{
  ℕ, ◌+◌, ◌-◌, ◌*◌, ◌/◌, ◌%◌, ◌<◌, ◌≡◌, refl, ◌⊎◌, inl, inr, List, [], ◌∷◌, arith, ltb, ◌==◌,
  nat_eq, String, not, if◌then◌else◌, Bool-cases, Result, ok, err, length,
}

-- `negsuc n` is -(n + 1).
pub data ℤ : Type 0 where
  pos : ℕ → ℤ
  negsuc : ℕ → ℤ

-- the values of an `i16`
abbrev pub IsI16 : ℤ → Type 0
IsI16 (pos n) = n < 32_768
IsI16 (negsuc n) = n < 32_768

-- the bit pattern of an `i16`, and back
unfoldable pub to_bits : ℤ → ℕ
to_bits (pos n) = n
to_bits (negsuc n) = 65_535 - n

unfoldable pub of_bits : ℕ → ℤ
of_bits b = if ltb b 32_768 then pos b else negsuc (65_535 - b)

pub data PcmError : Type 0 where
  odd_byte_length : ℕ → PcmError
  resample : String → PcmError

unfoldable pub pcm16_samples_to_le_bytes : List ℤ → List ℕ
pcm16_samples_to_le_bytes [] = []
pcm16_samples_to_le_bytes (sample ∷ samples) =
    (to_bits sample % 256) ∷ (to_bits sample / 256) ∷ pcm16_samples_to_le_bytes samples

-- `chunks_exact(2)`, with `i16::from_le_bytes` on each chunk
unfoldable pub le_chunks : List ℕ → List ℤ
le_chunks (lo ∷ hi ∷ bytes) = of_bits (hi * 256 + lo) ∷ le_chunks bytes
le_chunks _ = []

unfoldable pub pcm16_le_bytes_to_samples : List ℕ → Result PcmError (List ℤ)
unfolding le_chunks
pcm16_le_bytes_to_samples bytes =
    if not (length bytes % 2 == 0)
    then err (odd_byte_length (length bytes))
    else ok (le_chunks bytes)

abbrev pub AreI16 : List ℤ → Type 0
AreI16 [] = Unit {0}
AreI16 (s ∷ ss) = IsI16 s × AreI16 ss

abbrev AreBytes : List ℕ → Type 0
AreBytes [] = Unit {0}
AreBytes (b ∷ bs) = (b < 256) × AreBytes bs

of_bits-to_bits : (s : ℤ) → IsI16 s → of_bits (to_bits s / 256 * 256 + to_bits s % 256) ≡ s
unfolding of_bits to_bits
of_bits-to_bits (pos n) h = ground arith
of_bits-to_bits (negsuc n) h = ground arith

to_bits-of_bits : (b : ℕ) → b < 65_536 → to_bits (of_bits b) ≡ b
unfolding of_bits to_bits
to_bits-of_bits b h = ground arith

length-le_bytes : (ss : List ℤ) → length (pcm16_samples_to_le_bytes ss) ≡ 2 * length ss
unfolding pcm16_samples_to_le_bytes
length-le_bytes [] = refl
length-le_bytes (s ∷ ss) = omega (arith, length-le_bytes ss)

le_chunks-le_bytes : (ss : List ℤ) → AreI16 ss → le_chunks (pcm16_samples_to_le_bytes ss) ≡ ss
unfolding le_chunks pcm16_samples_to_le_bytes
le_chunks-le_bytes [] h = refl
le_chunks-le_bytes (s ∷ ss) h = ground (arith, of_bits-to_bits s, le_chunks-le_bytes ss)

-- Decoding the bytes of `i16` samples gives the samples back.
pub to_samples-to_bytes :
    (ss : List ℤ) → AreI16 ss → pcm16_le_bytes_to_samples (pcm16_samples_to_le_bytes ss) ≡ ok ss
unfolding pcm16_le_bytes_to_samples
to_samples-to_bytes ss h = ground (arith, length-le_bytes ss, le_chunks-le_bytes ss)

le_bytes-le_chunks :
    (bs : List ℕ) → AreBytes bs → length bs % 2 ≡ 0 → pcm16_samples_to_le_bytes (le_chunks bs) ≡ bs
unfolding le_chunks pcm16_samples_to_le_bytes
le_bytes-le_chunks [] b h = refl
le_bytes-le_chunks (x ∷ []) b h = ground arith
le_bytes-le_chunks (lo ∷ hi ∷ bs) b h =
    ground (arith, to_bits-of_bits (hi * 256 + lo), le_bytes-le_chunks bs)

parity : (n : ℕ) → (n % 2 ≡ 0) ⊎ (n % 2 ≡ 1)
parity n = elim (Bool-cases (n % 2 == 0)) [
  | inl e ↦ inl (ground arith)
  | inr e ↦ inr (ground arith)
]

to_samples-even :
    (bs : List ℕ) → length bs % 2 ≡ 0 → pcm16_le_bytes_to_samples bs ≡ ok (le_chunks bs)
unfolding pcm16_le_bytes_to_samples
to_samples-even bs e = rw e refl

to_samples-odd :
    (bs : List ℕ)
    → length bs % 2 ≡ 1
    → pcm16_le_bytes_to_samples bs ≡ err (odd_byte_length (length bs))
unfolding pcm16_le_bytes_to_samples
to_samples-odd bs e = rw e refl

-- A payload of bytes is rejected with its length exactly when that length is odd; any other is
-- accepted, and encoding its samples gives the payload back.
pub to_bytes-to_samples :
    (bs : List ℕ)
    → AreBytes bs
    → ((length bs % 2 ≡ 1) × (pcm16_le_bytes_to_samples bs ≡ err (odd_byte_length (length bs))))
      ⊎ ((length bs % 2 ≡ 0)
          × (ss : List ℤ) × (pcm16_le_bytes_to_samples bs ≡ ok ss)
          × (pcm16_samples_to_le_bytes ss ≡ bs))
to_bytes-to_samples bs b = elim (parity (length bs)) [
  | inl e ↦ inr (e, le_chunks bs, to_samples-even bs e, le_bytes-le_chunks bs b e)
  | inr e ↦ inl (e, to_samples-odd bs e)
]
