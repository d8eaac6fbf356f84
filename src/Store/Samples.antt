-- ===== src/Store/Samples.antt =====
-- `packSamples`, `unpackSamples` and `round2` of store.go.
use fogping.Prelude.{ℕ, ◌+◌, ◌*◌, ◌/◌, ◌%◌, ◌^◌, ◌<◌, ◌≡◌, refl, ap, List, [], ◌∷◌, map, arith}
use mathlib.Core.Path.{ap₂}
use fogping.Prelude.Int.{pos}
use fogping.Float.{Float}

-- binary.LittleEndian.PutUint32
unfoldable pub put_uint32 : ℕ → List ℕ → List ℕ
put_uint32 n rest = (n % 256) ∷ (n / 256 % 256) ∷ (n / 65536 % 256) ∷ (n / 16777216 % 256) ∷ rest

-- binary.LittleEndian.Uint32
unfoldable pub uint32 : ℕ → ℕ → ℕ → ℕ → ℕ
uint32 a b c d = a + b * 256 + c * 65536 + d * 16777216

uint32-put_uint32 :
    (n : ℕ)
    → n < 2 ^ 32
    → uint32 (n % 256) (n / 256 % 256) (n / 65536 % 256) (n / 16777216 % 256) ≡ n
unfolding uint32
uint32-put_uint32 n h = omega arith

module _ (float : Float) where
  open float use {F, of_int, add, mul, div, trunc, bits32, of_bits32, bits32_lt}

  unfoldable pub round2 : F → F
  round2 f =
      div (of_int (trunc (add (mul f (of_int (pos 100))) (div (of_int (pos 1)) (of_int (pos 2))))))
        (of_int (pos 100))

  unfoldable pub pack_samples : List F → List ℕ
  unfolding put_uint32
  pack_samples [] = []
  pack_samples (v ∷ ms) = put_uint32 (bits32 v) (pack_samples ms)

  -- A rest of fewer than four bytes is ignored, as `len(b)/4` does.
  unfoldable pub unpack_samples : List ℕ → List F
  unfolding uint32 round2
  unpack_samples (a ∷ b ∷ c ∷ d ∷ rest) = round2 (of_bits32 (uint32 a b c d)) ∷ unpack_samples rest
  unpack_samples _ = []

  -- Unpacking what was packed gives each sample, as a float32, rounded to hundredths, in order.
  pub unpack_samples-pack_samples :
      (ms : List F) → unpack_samples (pack_samples ms) ≡ map (λ v. round2 (of_bits32 (bits32 v))) ms
  unfolding pack_samples unpack_samples
  unpack_samples-pack_samples [] = refl
  unpack_samples-pack_samples (v ∷ ms) =
      ap₂ ◌∷◌ (ap (λ n. round2 (of_bits32 n)) (uint32-put_uint32 (bits32 v) (bits32_lt v)))
        (unpack_samples-pack_samples ms)
