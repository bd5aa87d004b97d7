-- ===== src/Executable.antt =====
-- src/main.rs: the command line, the logging, and the start of the driver. What clap reads from the
-- command line, log4rs and the driver of the SDK are parameters; the texts that are printed are left
-- out.
pub mod Started
use sawtooth_pbft.Common.{if◌then◌else◌, ℕ, zero, suc, String, Bool, Option, none, some, List, ◌∷◌}

-- `ArgMatches` of clap, by the names of the arguments.
pub record Matches : Type 0 where
  pub value_of : String → Option String
  pub occurrences_of : String → ℕ

-- The filters of the log crate that the code names.
pub data LevelFilter : Type 0 where
  warn : LevelFilter
  info : LevelFilter
  debug : LevelFilter
  trace : LevelFilter

pub record PbftCliArgs : Type 0 where
  pub log_config : Option String
  pub log_level : LevelFilter
  pub endpoint : String

-- The number of times that `-v` is given; `3 | _` is the last arm.
unfoldable pub level_of : ℕ → LevelFilter
level_of zero = LevelFilter.warn
level_of (suc zero) = LevelFilter.info
level_of (suc (suc zero)) = LevelFilter.debug
level_of (suc (suc (suc n))) = LevelFilter.trace

-- `unwrap_or`.
unfoldable pub unwrap_or : String → Option String → String
unwrap_or default none = default
unwrap_or default (some s) = s

unfoldable pub parse_args : Matches → PbftCliArgs
unfolding level_of unwrap_or
parse_args matches = record {
  log_config = matches.value_of "logconfig";
  log_level = level_of (matches.occurrences_of "verbose");
  endpoint = unwrap_or "tcp://localhost:5050" (matches.value_of "connect");
}

-- log4rs with its configurations `C`, and the driver: `none` and `false` stand for an `Err`.
pub record Runtime (C : Type 0) : Type 0 where
  pub load_config_file : String → Option C
  pub set_level : LevelFilter → C → C
  pub console_config : LevelFilter → Option C
  pub init_config : C → Bool
  pub start : String → Bool

-- What the program does to the outside.
pub data Event (C : Type 0) : Type 0 where
  logs_with : C → Event C
  drives : String → Event C

-- A value, or `process::exit`.
pub data Ending (A : Type 0) : Type 0 where
  value : A → Ending A
  exited : ℕ → Ending A

-- A part of the program, with the events before it, latest first.
abbrev pub Process : Type 0 → Type 0 → Type 0
Process C A = List (Event C) → Ending A × List (Event C)

infixl 5 ◌>>=◌ ◌>>◌
abbrev pub ◌>>=◌ : {C A B : Type 0} → Process C A → (A → Process C B) → Process C B
◌>>=◌ m f es = let (r, es') = m es in elim r [ value a ↦ f a es' | exited n ↦ (exited n, es') ]

abbrev pub ◌>>◌ : {C B : Type 0} → Process C (Unit {0}) → Process C B → Process C B
m >> k = m >>= λ _. k

module _ {C : Type 0} (runtime : Runtime C) where
  -- `get_console_config`.
  unfoldable pub get_console_config : LevelFilter → Process C C
  get_console_config level es = elim (runtime.console_config level) [
    | none ↦ (exited 1, es)
    | some config ↦ (value config, es)
  ]

  -- The `match` on the loaded file.
  unfoldable pub or_console : LevelFilter → Option C → Process C C
  unfolding get_console_config
  or_console level none = get_console_config level
  or_console level (some config) = λ es. (value (runtime.set_level level config), es)

  -- The first statement of `main`.
  unfoldable pub choose_config : LevelFilter → Option String → Process C C
  unfolding or_console
  choose_config level none = get_console_config level
  choose_config level (some path) = or_console level (runtime.load_config_file path)

  -- `log4rs::init_config`.
  unfoldable pub init_logging : C → Process C (Unit {0})
  init_logging config es =
      (if runtime.init_config config then value tt else exited 1, Event.logs_with config ∷ es)

  -- `driver.start`.
  unfoldable pub start_driver : String → Process C (Unit {0})
  start_driver endpoint es =
      (if runtime.start endpoint then value tt else exited 1, Event.drives endpoint ∷ es)

  unfoldable pub main : Matches → Process C (Unit {0})
  unfolding parse_args choose_config init_logging start_driver
  main matches = do
    let args = parse_args matches
    config ← choose_config args.log_level args.log_config
    init_logging config
    start_driver args.endpoint
