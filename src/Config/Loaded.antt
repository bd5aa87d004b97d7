-- ===== src/Config/Loaded.antt =====
-- What `load_pbft_config` promises of the configuration that it returns.
use sawtooth_pbft.Common.{
  leb, Bool-cases, Bytes, ◌<◌, String, ◌≡◌, refl, sym, ap, ◌∙◌, subst, inl, inr, true, false,
  Option, none, some, List, arith,
}
use sawtooth_pbft.Error.{ok, panic}
use sawtooth_pbft.Outcome.{first_step}
use sawtooth_pbft.Config.{PbftConfig, default_config, Settings, get_peers_from_settings}
use sawtooth_pbft.Config.Load.{merge_settings, check_durations, load_pbft_config}

check_durations-ok :
    (c config : PbftConfig)
    → check_durations c ≡ ok config
    → (c ≡ config) × (c.block_duration < c.faulty_primary_timeout)
unfolding check_durations
check_durations-ok c config h = elim (Bool-cases (leb c.faulty_primary_timeout c.block_duration)) [
  | inl e ↦ absurd (refused (sym (stops e) ∙ h))
  | inr e ↦ (same (sym (goes e) ∙ h), ground (arith, e))
]
  where
    refused : panic ≡ ok config → ⊥
    refused e = cc

    same : ok c ≡ ok config → c ≡ config
    same e = cc

    stops : leb c.faulty_primary_timeout c.block_duration ≡ true → check_durations c ≡ panic
    stops e = ground (arith, e)

    goes : leb c.faulty_primary_timeout c.block_duration ≡ false → check_durations c ≡ ok c
    goes e = ground (arith, e)

module _ (json_strings : String → Option (List String)) (hex_decode : String → Option Bytes) where
  -- A configuration that is loaded has the peers that the settings name, a block duration below the
  -- timeout for a faulty primary, and the storage of the default, whatever the settings say of it.
  pub load_pbft_config-ok :
      (answer : Option Settings) (config : PbftConfig)
      → load_pbft_config json_strings hex_decode answer ≡ ok config
      → ((settings : Settings) × (answer ≡ some settings)
          × (get_peers_from_settings json_strings hex_decode settings ≡ ok config.peers))
        × (config.block_duration < config.faulty_primary_timeout)
        × (config.storage ≡ default_config.storage)
  unfolding load_pbft_config merge_settings
  load_pbft_config-ok none config h = cc
  load_pbft_config-ok (some settings) config h =
      let (peers, (e, h')) =
        first_step (get_peers_from_settings json_strings hex_decode settings)
          (λ peers. check_durations (merge_settings settings peers)) h in
      checked peers e h'
    where
      checked :
          (peers : List Bytes)
          → get_peers_from_settings json_strings hex_decode settings ≡ ok peers
          → check_durations (merge_settings settings peers) ≡ ok config
          → ((s : Settings) × (some settings ≡ some s)
              × (get_peers_from_settings json_strings hex_decode s ≡ ok config.peers))
            × (config.block_duration < config.faulty_primary_timeout)
            × (config.storage ≡ default_config.storage)
      checked peers e h =
          let d = check_durations-ok (merge_settings settings peers) config h in
          (
            (settings, refl, e ∙ ap ok (ap (λ c. c.peers) d.0)),
            subst (λ c. c.block_duration < c.faulty_primary_timeout) d.0 d.1,
            sym (ap (λ c. c.storage) d.0),
          )
