-- ===== src/Pow/Hasher.antt =====
-- src/pow/hasher.rs: the two cSHAKE256 stages over the Keccak permutation, the memory-hard stage and
-- the header hash.
use velkar_gpu.Base.{ℕ, ◌*◌, List, [], ◌∷◌, ◌++◌, take, drop, get_or, set, bit_xor}
use velkar_gpu.Word.{Bytes, to_le_bytes}
use velkar_gpu.Text.{codes}
use velkar_gpu.Target.{Uint256, to_le_u64, from_le_u64, le_bytes, of_le_bytes}
use velkar_gpu.Packages.{Keccak, Blake2b, Argon2}

-- `for (&word, state_word) in words.iter().zip(state) { *state_word ^= word }`
abbrev pub xor_front : List ℕ → List ℕ → List ℕ
xor_front [] state = state
xor_front (w ∷ ws) [] = []
xor_front (w ∷ ws) (s ∷ state) = bit_xor s w ∷ xor_front ws state

-- `state[i] ^= x`
abbrev pub xor_at : List ℕ → ℕ → ℕ → List ℕ
xor_at state i x = set state i (bit_xor (get_or state i 0) x)

-- `PowHasher::INITIAL_STATE`
unfoldable pub pow_initial_state : List ℕ
pow_initial_state =
    1242148031264380989 ∷ 3008272977830772284 ∷ 2188519011337848018 ∷ 1992179434288343456
    ∷ 8876506674959887717 ∷ 5399642050693751366 ∷ 1745875063082670864 ∷ 8605242046444978844
    ∷ 17936695144567157056 ∷ 3343109343542796272 ∷ 1123092876221303306 ∷ 4963925045340115282
    ∷ 17037383077651887893 ∷ 16629644495023626889 ∷ 12833675776649114147 ∷ 3784524041015224902
    ∷ 1082795874807940378 ∷ 13952716920571277634 ∷ 13411128033953605860 ∷ 15060696040649351053
    ∷ 9928834659948351306 ∷ 5237849264682708699 ∷ 12825353012139217522 ∷ 6706187291358897596
    ∷ 196324915476054915 ∷ []

-- `HeavyHasher::INITIAL_STATE`
unfoldable pub heavy_initial_state : List ℕ
heavy_initial_state =
    4239941492252378377 ∷ 8746723911537738262 ∷ 8796936657246353646 ∷ 1272090201925444760
    ∷ 16654558671554924250 ∷ 8270816933120786537 ∷ 13907396207649043898 ∷ 6782861118970774626
    ∷ 9239690602118867528 ∷ 11582319943599406348 ∷ 17596056728278508070 ∷ 15212962468105129023
    ∷ 7812475424661425213 ∷ 3370482334374859748 ∷ 5690099369266491460 ∷ 8596393687355028144
    ∷ 570094237299545110 ∷ 9119540418498120711 ∷ 16901969272480492857 ∷ 13372017233735502424
    ∷ 14372891883993151831 ∷ 5171152063242093102 ∷ 10573107899694386186 ∷ 6096431547456407061
    ∷ 1592359455985097269 ∷ []

-- `PowHasher([u64; 25])`
pub record PowHasher : Type 0 where
  pub words : List ℕ

-- `PowHasher::new`
unfoldable pub new : Uint256 → ℕ → PowHasher
unfolding pow_initial_state
new pre_pow_hash timestamp = record {
  words = xor_at (xor_front (to_le_u64 pre_pow_hash) pow_initial_state) 4 timestamp;
}

module _ (k : Keccak) where
  -- `PowHasher::finalize_with_nonce`
  unfoldable pub finalize_with_nonce : PowHasher → ℕ → Uint256
  finalize_with_nonce h nonce = from_le_u64 (take 4 (k.f1600 (xor_at h.words 9 nonce)))

  -- `HeavyHasher::hash`
  unfoldable pub heavy_hasher : Uint256 → Uint256
  unfolding heavy_initial_state
  heavy_hasher in_hash =
      from_le_u64 (take 4 (k.f1600 (xor_front (to_le_u64 in_hash) heavy_initial_state)))

abbrev pub zip_xor : Bytes → Bytes → Bytes
zip_xor [] ys = []
zip_xor (x ∷ xs) [] = []
zip_xor (x ∷ xs) (y ∷ ys) = bit_xor x y ∷ zip_xor xs ys

-- The password and the salt of `memory_hard_hash`.
unfoldable pub argon_password : Uint256 → ℕ → Uint256 → Bytes
argon_password stage3 nonce target = le_bytes stage3 ++ (le_bytes target ++ to_le_bytes 8 nonce)

unfoldable pub argon_salt : Uint256 → Uint256 → Bytes
argon_salt stage3 stage1 = zip_xor (take 16 (le_bytes stage1)) (take 16 (drop 16 (le_bytes stage3)))

abbrev pub argon_memory_kib : ℕ
argon_memory_kib = 8 * 1024

abbrev pub argon_time_cost : ℕ
argon_time_cost = 1

abbrev pub argon_lanes : ℕ
argon_lanes = 1

unfoldable pub memory_hard_hash : Argon2 → Uint256 → Uint256 → ℕ → Uint256 → Uint256
unfolding argon_password argon_salt
memory_hard_hash argon2 stage3 stage1 nonce target = of_le_bytes (
    argon2.hash_password argon_memory_kib argon_time_cost argon_lanes 32
      (argon_password stage3 nonce target) (argon_salt stage3 stage1))

module _ (b : Blake2b) where
  -- `HeaderHasher::new`, `write` and `finalize`
  unfoldable pub header_hasher : b.State
  header_hasher = b.to_state 32 (codes "BlockHash")

  unfoldable pub write : b.State → Bytes → b.State
  write s bytes = b.update s bytes

  unfoldable pub finalize : b.State → Uint256
  finalize s = of_le_bytes (b.finalize s)
