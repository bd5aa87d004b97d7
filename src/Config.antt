-- ===== src/Config.antt =====
-- `PbftConfig` of src/config.rs. A `Duration` is a number of milliseconds.
pub mod Load
pub mod Loaded
use sawtooth_pbft.Error.{Outcome, ok}
use sawtooth_pbft.Outcome.{◌>>=◌, or_panic}
use sawtooth_pbft.Common.{Bytes, ℕ, String, Option, List, [], ◌∷◌}

pub record PbftConfig : Type 0 where
  pub peers : List Bytes
  pub block_duration : ℕ
  pub message_timeout : ℕ
  pub faulty_primary_timeout : ℕ
  pub forced_view_change_period : ℕ
  pub max_log_size : ℕ
  pub storage : String

-- `PbftConfig::default`.
abbrev pub default_config : PbftConfig
default_config = record {
  peers = [];
  block_duration = 200;
  message_timeout = 10;
  faulty_primary_timeout = 30000;
  forced_view_change_period = 30;
  max_log_size = 1000;
  storage = "memory";
}

-- `HashMap::get` of the settings.
abbrev pub Settings : Type 0
Settings = String → Option String

-- `get_peers_from_settings`; `json_strings` and `hex_decode` are serde_json's and hex's.
module _ (json_strings : String → Option (List String)) (hex_decode : String → Option Bytes) where
  unfoldable pub decode_all : List String → Outcome (List Bytes)
  decode_all [] = ok []
  decode_all (s ∷ ss) = do p ← or_panic (hex_decode s); ps ← decode_all ss; ok (p ∷ ps)

  unfoldable pub get_peers_from_settings : Settings → Outcome (List Bytes)
  unfolding decode_all
  get_peers_from_settings settings = do
    value ← or_panic (settings "sawtooth.consensus.pbft.peers")
    peers ← or_panic (json_strings value)
    decode_all peers
