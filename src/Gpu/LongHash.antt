-- ===== src/Gpu/LongHash.antt =====
-- `digest_long_cpu` of src/gpu.rs against the variable-length hash of RFC 9106, section 3.3.
use mathlib.Core.Option
use velkar_gpu.Base.{
  ℕ, zero, suc, ◌+◌, ◌-◌, ◌*◌, ◌/◌, ◌≤◌, ◌<◌, ◌≡◌, refl, ap, arith, ◌∙◌, ◌++◌, some, length, take,
  length-take, length-append, leb, if◌then◌else◌, Bool-cases, inl, inr, lt→ltb, le→ltb,
}
use velkar_gpu.Word.{Bytes}
use velkar_gpu.Packages.{Blake2b}
use velkar_gpu.Gpu.FirstBlocks.{hash, le32, digest_rest, digest_long_cpu}

module _ (b : Blake2b) where
  -- From V of index i: the first halves of the next `count` digests of 64 bytes, each the digest of
  -- the one before, and then a digest of `last` bytes of the last one.
  abbrev pub digests_after : (count last : ℕ) → Bytes → Bytes
  digests_after zero last v = hash b last v
  digests_after (suc count) last v = take 32 (hash b 64 v) ++ digests_after count last (hash b 64 v)

  -- H' of RFC 9106: the message is the length in 4 bytes and the input; above 64 bytes, with
  -- r = ⌈n / 32⌉ - 2, the first 32 bytes of V1 to Vr, and then a digest of n - 32 r bytes.
  abbrev pub variable_hash : ℕ → Bytes → Bytes
  variable_hash n input =
      let message = le32 n ++ input in
      let r = (n + 31) / 32 - 2 in
      if leb n 64
      then hash b n message
      else take 32 (hash b 64 message) ++ digests_after (r - 1) (n - 32 * r) (hash b 64 message)

  digest_rest_lem :
      (count fuel last : ℕ) (v : Bytes)
      → last ≤ 64
      → 32 < last
      → count < fuel
      → digest_rest b fuel (32 * count + last) v ≡ some (digests_after count last v)
  unfolding digest_rest
  digest_rest_lem zero zero last v top low enough = absurd (omega arith)
  digest_rest_lem (suc count) zero last v top low enough = absurd (omega arith)
  digest_rest_lem zero (suc fuel) last v top low enough =
      let e : 32 * 0 + last ≡ last = omega arith in rw e (rw (le→ltb 64 last top) refl)
  digest_rest_lem (suc count) (suc fuel) last v top low enough =
      let more : 64 < 32 * suc count + last = omega arith in
      let e : 32 * suc count + last - 32 ≡ 32 * count + last = omega arith in
      rw (lt→ltb 64 (32 * suc count + last) more)
        (rw e (rw (digest_rest_lem count fuel last (hash b 64 v) top low (omega arith)) refl))

  digest_long_cpu-eq :
      (n : ℕ) (input : Bytes) → digest_long_cpu b n input ≡ some (variable_hash n input)
  unfolding digest_long_cpu
  digest_long_cpu-eq n input = elim (Bool-cases (leb n 64)) [
    | inl short ↦ rw short refl
    | inr long ↦
        let r = (n + 31) / 32 - 2 in
        let above : 64 < n = ground arith in
        let split : n - 32 ≡ 32 * (r - 1) + (n - 32 * r) = omega arith in
        let v = hash b 64 (le32 n ++ input) in
        let rest =
          digest_rest_lem (r - 1) n (n - 32 * r) v (omega arith) (omega arith) (omega arith) in
        rw long (ap (Option.map (λ t. take 32 v ++ t)) (ap (λ m. digest_rest b n m v) split ∙ rest))
  ]

  length-hash : (n : ℕ) (message : Bytes) → length (hash b n message) ≡ n
  length-hash n message =
      b.length-finalize _ ∙ b.output_length-update _ _ ∙ b.output_length-to_state n _

  length-digests_after :
      (count last : ℕ) (v : Bytes) → length (digests_after count last v) ≡ 32 * count + last
  length-digests_after zero last v = omega (arith, length-hash last v)
  length-digests_after (suc count) last v = omega (
    arith,
    length-append (take 32 (hash b 64 v)) (digests_after count last (hash b 64 v)),
    length-take 32 (hash b 64 v),
    length-hash 64 v,
    length-digests_after count last (hash b 64 v),
  )

  length-variable_hash : (n : ℕ) (input : Bytes) → length (variable_hash n input) ≡ n
  length-variable_hash n input = elim (Bool-cases (leb n 64)) [
    | inl short ↦ rw short (length-hash n (le32 n ++ input))
    | inr long ↦
        let r = (n + 31) / 32 - 2 in
        let above : 64 < n = ground arith in
        let v = hash b 64 (le32 n ++ input) in
        rw long (
          omega (
            arith,
            length-append (take 32 v) (digests_after (r - 1) (n - 32 * r) v),
            length-take 32 v,
            length-hash 64 (le32 n ++ input),
            length-digests_after (r - 1) (n - 32 * r) v,
          ))
  ]

  -- For every output of at least one byte and every input, the loop of `digest_long_cpu` ends, and
  -- its result is H' of RFC 9106 and fills the output exactly.
  pub digest_long_cpu_lem :
      (n : ℕ) (input : Bytes)
      → 1 ≤ n
      → (digest_long_cpu b n input ≡ some (variable_hash n input))
        × (length (variable_hash n input) ≡ n)
  digest_long_cpu_lem n input h = (digest_long_cpu-eq n input, length-variable_hash n input)
