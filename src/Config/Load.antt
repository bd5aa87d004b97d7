-- ===== src/Config/Load.antt =====
-- `load_pbft_config` of src/config.rs, from the settings that the validator gave.
use Prim.Native.Char.{code}
use sawtooth_pbft.Common.{
  ltb, leb, if◌then◌else◌, ◌==◌, nat_eq, string_eq, Bytes, bytes_eq, u64_mod, ℕ, ◌+◌, ◌-◌, ◌*◌,
  String, ◌&&◌, Option, none, some, List, [], ◌∷◌,
}
use sawtooth_pbft.Error.{Outcome, ok, panic}
use sawtooth_pbft.Outcome.{◌>>=◌, or_panic}
use sawtooth_pbft.Config.{PbftConfig, default_config, Settings, get_peers_from_settings}

abbrev codes : String → List ℕ
codes String.[] = []
codes (String.◌∷◌ c s) = code c ∷ codes s

-- The value of decimal digits, read from the left.
unfoldable pub parse_digits : ℕ → List ℕ → Option ℕ
parse_digits acc [] = some acc
parse_digits acc (c ∷ cs) =
    let value = parse_digits (acc * 10 + (c - b'0')) cs in
    if leb b'0' c && leb c b'9' then value else none

unfoldable pub fits_u64 : Option ℕ → Option ℕ
fits_u64 none = none
fits_u64 (some n) = if ltb n u64_mod then some n else none

-- A sign `+` is allowed, an empty number is not.
unfoldable pub parse_codes : List ℕ → Option ℕ
unfolding parse_digits fits_u64
parse_codes [] = none
parse_codes (c ∷ []) = fits_u64 (parse_digits 0 (c ∷ []))
parse_codes (c ∷ d ∷ cs) =
    fits_u64 (if c == b'+' then parse_digits 0 (d ∷ cs) else parse_digits 0 (c ∷ d ∷ cs))

-- `str::parse::<u64>`.
unfoldable pub parse_u64 : String → Option ℕ
unfolding parse_codes
parse_u64 s = parse_codes (codes s)

-- The value that `merge_setting_if_set_and_map` leaves in a field: a setting that is missing or
-- does not parse changes nothing.
unfoldable pub merged : (ℕ → ℕ) → ℕ → Option String → ℕ
merged scale field none = field
merged scale field (some setting) = elim (parse_u64 setting) [
  | none ↦ field
  | some value ↦ scale value
]

abbrev pub merge_setting_if_set : Settings → ℕ → String → ℕ
merge_setting_if_set settings field key = merged (λ v. v) field (settings key)

abbrev pub merge_millis_setting_if_set : Settings → ℕ → String → ℕ
merge_millis_setting_if_set settings field key = merged (λ v. v) field (settings key)

-- `Duration::from_secs`, in milliseconds.
abbrev pub merge_secs_setting_if_set : Settings → ℕ → String → ℕ
merge_secs_setting_if_set settings field key = merged (λ v. v * 1000) field (settings key)

-- The configuration, before the check of the two durations.
unfoldable pub merge_settings : Settings → List Bytes → PbftConfig
merge_settings settings peers = record default_config {
  peers = peers;
  block_duration =
      merge_millis_setting_if_set settings 200 "sawtooth.consensus.pbft.block_duration";
  message_timeout =
      merge_millis_setting_if_set settings 10 "sawtooth.consensus.pbft.message_timeout";
  faulty_primary_timeout =
      merge_secs_setting_if_set settings 30000 "sawtooth.consensus.pbft.faulty_primary_timeout";
  forced_view_change_period =
      merge_setting_if_set settings 30 "sawtooth.consensus.pbft.forced_view_change_period";
  max_log_size = merge_setting_if_set settings 1000 "sawtooth.consensus.pbft.max_log_size";
}

unfoldable pub check_durations : PbftConfig → Outcome PbftConfig
check_durations config =
    if leb config.faulty_primary_timeout config.block_duration then panic else ok config

-- The settings are `none` where the validator failed to give them.
module _ (json_strings : String → Option (List String)) (hex_decode : String → Option Bytes) where
  unfoldable pub load_pbft_config : Option Settings → Outcome PbftConfig
  unfolding check_durations merge_settings
  load_pbft_config answer = do
    settings ← or_panic answer
    peers ← get_peers_from_settings json_strings hex_decode settings
    check_durations (merge_settings settings peers)
