-- ===== src/Packages.antt =====
-- What the sources take from packages and from the language's floating point: the Keccak
-- permutation, BLAKE2b, Argon2id, big integers, JSON, and `f64`. Each law is documented behaviour.
use velkar_gpu.Base.{
  ℕ, ◌+◌, ◌*◌, ◌/◌, ◌^◌, ◌<◌, ◌≡◌, ◌≢◌, ◌↔◌, Bool, true, Option, some, List, ◌∷◌, ◌++◌, All, length,
  Outcome,
}
use velkar_gpu.Word.{Bytes, IsByte, IsU64, ℤ, from_le_bytes}
use velkar_gpu.Text.{digits_value}

-- `KeccakF1600` of src/asm or of the crate `keccak`: a permutation of 25 words.
pub record Keccak : Type 0 where
  pub f1600 : List ℕ → List ℕ
  pub length-f1600 : (s : List ℕ) → length s ≡ 25 → length (f1600 s) ≡ 25
  pub f1600-IsU64 : (s : List ℕ) → length s ≡ 25 → All IsU64 s → All IsU64 (f1600 s)

-- The crate `blake2b_simd`: a state with its output length and key, updated by pieces of a message.
pub record Blake2b : Type 1 where
  pub State : Type 0
  pub to_state : (hash_length : ℕ) (key : Bytes) → State
  pub update : State → Bytes → State
  pub finalize : State → Bytes
  pub update-update : (s : State) (a b : Bytes) → update (update s a) b ≡ update s (a ++ b)
  pub output_length : State → ℕ
  pub output_length-to_state : (n : ℕ) (key : Bytes) → output_length (to_state n key) ≡ n
  pub output_length-update : (s : State) (a : Bytes) → output_length (update s a) ≡ output_length s
  pub length-finalize : (s : State) → length (finalize s) ≡ output_length s
  pub finalize-IsByte : (s : State) → All IsByte (finalize s)

-- `Argon2::new(Argon2id, V0x13, params).hash_password_into(password, salt, out)` of the crate
-- `argon2`, with the memory in KiB, the time cost, the lanes and the length of `out`.
pub record Argon2 : Type 0 where
  pub hash_password : (memory time lanes out_len : ℕ) (password salt : Bytes) → Bytes
  -- `Params::new`, and the blocks that `hash_password_into_with_memory` leaves in the memory.
  pub fill_memory :
      (memory time lanes out_len : ℕ) (password salt : Bytes) → Outcome (List (List ℕ))
  pub length-hash_password :
      (m t l n : ℕ) (password salt : Bytes) → length (hash_password m t l n password salt) ≡ n
  pub hash_password-IsByte :
      (m t l n : ℕ) (password salt : Bytes) → All IsByte (hash_password m t l n password salt)

-- The operations of `f64` that `compute_rank` uses; no law of them is assumed.
pub record Float : Type 1 where
  pub F : Type 0
  pub from_u16 : ℕ → F
  pub exceeds_eps : F → Bool  -- `x.abs() > 1e-9`
  pub div : F → F → F
  pub mul : F → F → F
  pub sub : F → F → F

-- `BigUint` of the crate `num_bigint`: `to_nat` is the number that a value stands for.
pub record BigUint : Type 1 where
  pub Big : Type 0
  pub from_u8 : ℕ → Big
  pub pow : Big → ℕ → Big
  pub add : Big → Big → Big
  pub mul : Big → Big → Big
  pub div : Big → Big → Big
  pub eq : Big → Big → Bool
  pub parse_bytes : Bytes → (radix : ℕ) → Option Big
  pub to_bytes_le : Big → Bytes
  pub to_nat : Big → ℕ
  pub to_nat-from_u8 : (n : ℕ) → n < 256 → to_nat (from_u8 n) ≡ n
  pub to_nat-pow : (a : Big) (k : ℕ) → to_nat (pow a k) ≡ to_nat a ^ k
  pub to_nat-add : (a b : Big) → to_nat (add a b) ≡ to_nat a + to_nat b
  pub to_nat-mul : (a b : Big) → to_nat (mul a b) ≡ to_nat a * to_nat b
  pub to_nat-div : (a b : Big) → to_nat b ≢ 0 → to_nat (div a b) ≡ to_nat a / to_nat b
  pub eq-true : (a b : Big) → (eq a b ≡ true) ↔ (to_nat a ≡ to_nat b)
  pub parse_bytes-digits :
      (c : ℕ) (s : Bytes) (radix v : ℕ)
      → digits_value radix (c ∷ s) 0 ≡ some v
      → (a : Big) × (parse_bytes (c ∷ s) radix ≡ some a) × (to_nat a ≡ v)
  pub to_bytes_le-IsByte : (a : Big) → All IsByte (to_bytes_le a)
  pub from_le_bytes-to_bytes_le : (a : Big) → from_le_bytes (to_bytes_le a) ≡ to_nat a

-- `Value` of the crate `serde_json`, and `json!({"id": _, "method": _, "params": [_]})` as a text.
pub record Json : Type 1 where
  pub Value : Type 0
  pub parse : Bytes → Option Value
  pub get : Value → Bytes → Option Value
  pub as_str : Value → Option Bytes
  pub as_array : Value → Option (List Value)
  pub as_u64 : Value → Option ℕ
  pub as_i64 : Value → Option ℤ
  pub is_null : Value → Bool
  pub is_true : Value → Bool
  pub to_string : Value → Bytes
  pub request : (id : ℕ) (method : Bytes) (params : List Bytes) → Bytes

pub record Packages : Type 1 where
  pub keccak : Keccak
  pub blake2b : Blake2b
  pub argon2 : Argon2
  pub float : Float
