-- ===== src/Cli.antt =====
-- src/cli.rs: the options, the devfund percentage and the choice of the connection.
pub mod Percent
pub mod Mode
use velkar_gpu.Base.{
  ℕ, zero, suc, ◌+◌, ◌*◌, ◌^◌, max, Bool, true, false, not, ◌&&◌, ◌||◌, List, [], ◌∷◌, ◌++◌, Option,
  none, some, length, ltb, leb, ◌==◌, if◌then◌else◌, Outcome, ok, err, panic, ◌>>=◌, ◌>>◌, Error,
  message,
}
use velkar_gpu.Word.{Bytes, u16}
use velkar_gpu.Text.{
  codes, split_once, Halves, contains, count_chars, starts_with, trim_start_matches,
  from_str_radix10, decimal,
}

pub data ConnectionMode : Type 0 where
  rpc : ConnectionMode
  stratum : ConnectionMode

abbrev pub min_devfund_percent : ℕ
min_devfund_percent = 100

-- The options that `process` reads or writes.
pub record Opt : Type 0 where
  pub velkard_address : Bytes
  pub port : Option ℕ
  pub testnet : Bool
  pub user_agent_suffix : Option Bytes
  pub opencl_enable : Bool
  pub cuda_enable : Bool
  pub mode : ConnectionMode

-- The error of every branch of `parse_devfund_percent`.
abbrev percent_error : Error
percent_error =
    message "devfund-percent should be --devfund-percent=XX.YY up to 2 numbers after the dot"

-- `s.parse::<u16>().map_err(|_| err)?`
abbrev pub parse_u16 : Bytes → Outcome ℕ
parse_u16 s = or_error (from_str_radix10 (2 ^ 16) s)
  where
    or_error : Option ℕ → Outcome ℕ
    or_error none = err percent_error
    or_error (some v) = ok v

abbrev pub percent_of : ℕ → ℕ → Outcome ℕ
percent_of prefix' postfix' =
    if leb 100 prefix' || leb 100 postfix'
    then err percent_error
    else ok (max (u16 (u16 (prefix' * 100) + postfix')) min_devfund_percent)

-- `parse_devfund_percent` behind the split at the dots.
abbrev pub percent_parts : Bytes → Bytes → Outcome ℕ
percent_parts prefix' postfix' =
    if ltb 2 (length prefix') || ltb 2 (length postfix')
    then err percent_error
    else parse_u16 postfix' >>= λ low. parse_u16 prefix' >>= λ high. percent_of high low

-- The pieces between dots: none, one, or an error for more.
abbrev pub percent_split : Bytes → Option Halves → Outcome ℕ
percent_split s none = percent_parts s (codes "0")
percent_split s (some h) =
    if contains b'.' h.after then err percent_error else percent_parts h.before h.after

unfoldable pub parse_devfund_percent : Bytes → Outcome ℕ
parse_devfund_percent s = percent_split s (split_once b'.' s)

-- `*self.port.get_or_insert(..)`: the port, which is stored too.
abbrev pub port_or_default : Opt → ℕ
port_or_default o = or_default o.port
  where
    or_default : Option ℕ → ℕ
    or_default none = if o.testnet then 26210 else 26110
    or_default (some port) = port

-- The choice of the mode and of the address.
abbrev pub choose_mode : Opt → Opt
choose_mode o =
    if starts_with (codes "stratum+tcp://") o.velkard_address
    then record o {
      mode = stratum;
      velkard_address = trim_start_matches (codes "stratum+tcp://") o.velkard_address;
    }
    else if starts_with (codes "grpc://") o.velkard_address
    then record o { mode = rpc }
    else record o {
      mode = rpc;
      port = some (port_or_default o);
      velkard_address =
          codes "grpc://" ++ (o.velkard_address ++ b':' ∷ decimal 5 (port_or_default o));
    }

abbrev pub check_suffix : Option Bytes → Opt → Outcome Opt
check_suffix none o = ok o
check_suffix (some suffix) o =
    if contains b'/' suffix
    then err (message "--user-agent-suffix cannot contain '/' characters")
    else if ltb 20 (count_chars suffix)
    then err (message "--user-agent-suffix must be at most 20 characters")
    else ok o

-- `Opt::process`; `cuda_built` is `cfg!(feature = "cuda")`.
unfoldable pub process : Bool → Opt → Outcome Opt
process cuda_built o =
    let address = if length o.velkard_address == 0 then codes "127.0.0.1" else o.velkard_address in
    let o' = choose_mode (record o { velkard_address = address }) in
    if o.opencl_enable && o.cuda_enable
    then err (message "Use either --opencl-enable or --cuda-enable, not both")
    else if o.cuda_enable && not cuda_built
    then err (message "This binary was built without CUDA support; rebuild with --features cuda")
    else check_suffix o.user_agent_suffix o'
