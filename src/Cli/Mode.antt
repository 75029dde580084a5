-- ===== src/Cli/Mode.antt =====
-- Which connection the processed options ask for.
use velkar_gpu.Base.{◌≤◌, if◌then◌else◌, ◌≡◌, true, false, length, ◌==◌, ◌⊎◌}
use velkar_gpu.Word.{Bytes}
use velkar_gpu.Text.{codes, starts_with, contains, count_chars}
use velkar_gpu.Cli.{Opt, stratum, rpc}

-- The address that the options give, or the local one when they give none.
abbrev pub given_address : Opt → Bytes
given_address o = if length o.velkard_address == 0 then codes "127.0.0.1" else o.velkard_address

-- The result asks for the pool exactly when the address has its scheme, and for a node at an address
-- with the scheme of gRPC otherwise.
abbrev pub IsChosen : (address : Bytes) → Opt → Type 0
IsChosen address o =
    ((starts_with (codes "stratum+tcp://") address ≡ true) × (o.mode ≡ stratum))
    ⊎ ((starts_with (codes "stratum+tcp://") address ≡ false)
        × (o.mode ≡ rpc)
        × (starts_with (codes "grpc://") o.velkard_address ≡ true))

-- A suffix that the pool can be told: no slash, and at most 20 characters.
abbrev pub IsSuffix : Bytes → Type 0
IsSuffix suffix = (contains b'/' suffix ≡ false) × (count_chars suffix ≤ 20)
