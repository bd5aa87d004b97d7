-- ===== src/Executable/Started.antt =====
-- What `main` does with its arguments.
use sawtooth_pbft.Common.{
  if◌then◌else◌, Bool-cases, Option-cases, ◌==◌, nat_eq, string_eq, bytes_eq, String, ◌≡◌, refl,
  sym, ap, ◌∙◌, subst, ◌⊎◌, inl, inr, true, Option, none, some, List, ◌∷◌,
}
use sawtooth_pbft.Protos.{block_eq, info_eq, message_eq, seal_eq, view_change_eq}
use sawtooth_pbft.MessageType.{type_eq}
use sawtooth_pbft.ParsedMessage.{parsed_eq}
use sawtooth_pbft.State.{phase_eq}
use sawtooth_pbft.Log.{entry_eq}
use sawtooth_pbft.Executable.{
  Matches, LevelFilter, parse_args, Runtime, Event, Ending, Process, ◌>>=◌, ◌>>◌,
  get_console_config, or_console, choose_config, init_logging, start_driver, main,
}

-- The command line without `--log_config`.
unfoldable pub without_logconfig : Matches → Matches
without_logconfig matches = record matches {
  value_of = λ name. if name == "logconfig" then none else matches.value_of name;
}

module _ {C : Type 0} (runtime : Runtime C) where
  choose_config-same :
      (level : LevelFilter) (path : String)
      → runtime.load_config_file path ≡ none
      → choose_config runtime level (some path) ≡ choose_config runtime level none
  unfolding choose_config
  choose_config-same level path e = rw (e, or_console) refl

  -- A file for the logging that cannot be loaded is no reason to end: the program does all that it
  -- does where no such file is given.
  pub main-unreadable :
      (matches : Matches) (path : String)
      → matches.value_of "logconfig" ≡ some path
      → runtime.load_config_file path ≡ none
      → main runtime matches ≡ main runtime (without_logconfig matches)
  unfolding main without_logconfig
  main-unreadable matches path given unreadable =
      let args = parse_args matches in
      ap (λ c. c >>= λ config. init_logging runtime config >> start_driver runtime args.endpoint)
        (ap (choose_config runtime args.log_level) given
          ∙ choose_config-same args.log_level path unreadable)

  abbrev Chosen : List (Event C) → Ending C × List (Event C) → Type 0
  Chosen es r = (r ≡ (Ending.exited 1, es)) ⊎ ((config : C) × (r ≡ (Ending.value config, es)))

  console-Chosen :
      (level : LevelFilter) (es : List (Event C)) → Chosen es (get_console_config runtime level es)
  unfolding get_console_config
  console-Chosen level es = elim (Option-cases (runtime.console_config level)) [
    | inl e ↦ inl (rw (get_console_config, e) refl)
    | inr (config, e) ↦ inr (config, rw (get_console_config, e) refl)
  ]

  choose_config-cases :
      (level : LevelFilter) (path : Option String) (es : List (Event C))
      → Chosen es (choose_config runtime level path es)
  unfolding choose_config or_console
  choose_config-cases level none es = console-Chosen level es
  choose_config-cases level (some path) es = or_console-Chosen (runtime.load_config_file path)
    where
      or_console-Chosen : (o : Option C) → Chosen es (or_console runtime level o es)
      or_console-Chosen none = console-Chosen level es
      or_console-Chosen (some config) = inr (runtime.set_level level config, refl)

  -- From a configuration on.
  abbrev with_config : String → C → Process C (Unit {0})
  with_config endpoint config = do init_logging runtime config; start_driver runtime endpoint

  abbrev going_on : String → Ending C × List (Event C) → Ending (Unit {0}) × List (Event C)
  going_on endpoint (r, es) = elim r [
    | Ending.value config ↦ with_config endpoint config es
    | Ending.exited n ↦ (Ending.exited n, es)
  ]

  abbrev Runs : String → List (Event C) → Ending (Unit {0}) × List (Event C) → Type 0
  Runs endpoint es r =
      (r.0 ≡ Ending.exited 1)
      ⊎ ((config : C) × (runtime.init_config config ≡ true)
          × (runtime.start endpoint ≡ true)
          × (r ≡ (Ending.value tt, Event.drives endpoint ∷ Event.logs_with config ∷ es)))

  started :
      (endpoint : String) (config : C) (es : List (Event C))
      → Runs endpoint es (with_config endpoint config es)
  unfolding init_logging start_driver
  started endpoint config es = elim (Bool-cases (runtime.init_config config)) [
    | inl e ↦ elim (Bool-cases (runtime.start endpoint)) [
      | inl d ↦ inr (config, e, d, rw (init_logging, e, start_driver, d) refl)
      | inr d ↦ inl (rw (init_logging, e, start_driver, d) refl)
    ]
    | inr e ↦ inl (rw (init_logging, e) refl)
  ]

  -- The program ends by itself only after the driver has run at the endpoint that is given, with the
  -- logging set up before it; in all other cases it exits with the code 1.
  pub main_lem :
      (matches : Matches) (es : List (Event C))
      → ((main runtime matches es).0 ≡ Ending.exited 1)
        ⊎ ((config : C) × (runtime.init_config config ≡ true)
            × (runtime.start (parse_args matches).endpoint ≡ true)
            × (main runtime matches es ≡ (
              Ending.value tt,
              Event.drives (parse_args matches).endpoint ∷ Event.logs_with config ∷ es,
            )))
  unfolding main
  main_lem matches es =
      let args = parse_args matches in
      elim (choose_config-cases args.log_level args.log_config es) [
        | inl e ↦ inl (ap (λ r. (going_on args.endpoint r).0) e)
        | inr (config, e) ↦
            subst (λ r. Runs args.endpoint es (going_on args.endpoint r)) (sym e)
              (started args.endpoint config es)
      ]
