-- ===== src/Options/Node.antt =====
-- src/utility.cc, `parse_options<Mode::NODE>`: the settings, from the command line and then from a
-- configuration file beside the executable. The help text and the error are not printed.
use cs739_p2_replicated_data.Base.{
  String, Bool, true, false, Option, none, some, List, if◌then◌else◌,
}
use cs739_p2_replicated_data.Config.{Config, Mode}
use cs739_p2_replicated_data.Options.{
  Value, execution, Outcome, value, error, bad_cast, ◌>>=◌, ProgramOptions, Machine,
  concatenate_path, Finished, exited, terminated, parsed, value_of, is_some, as_text,
}
use cs739_p2_replicated_data.Options.Schema.{primary, cmd_options}

-- `as<EnumOption<Mode>>().value` where the option is there, and else NODE
unfoldable pub mode_of : Option Value → Outcome Mode
mode_of none = value Mode.node
mode_of (some (execution m)) = value m
mode_of (some _) = bad_cast

-- `config->mode != Mode::USER`
abbrev pub is_user : Mode → Bool
is_user Mode.user = true
is_user Mode.node = false

module _ (po : ProgramOptions) (m : Machine) where
  -- The file is read only where it can be opened, but its path is kept.
  unfoldable pub read_config : List String → po.Variables → Config → Outcome (Config × po.Variables)
  unfolding concatenate_path primary
  read_config argv v config = elim (value_of (po.found "config" v)) [
    | none ↦ value (config, v)
    | some x ↦ as_text x >>= λ config_file.
        let config' : Config = record config { config = config_file } in
        elim (m.read_file (concatenate_path m (m.executable_path argv) config_file)) [
          | none ↦ value (config', v)
          | some content ↦ po.parse_config_file (primary m) content >>= λ h.
              po.store (primary m) h v >>= λ v'. value (config', v')
        ]
  ]

  -- The body of the `try` block, up to the test for help.
  unfoldable pub configure : List String → Config → po.Variables → Outcome (Config × po.Variables)
  unfolding read_config mode_of cmd_options
  configure argv config variables = po.parse_command_line (cmd_options m) argv >>= λ g.
      po.store (cmd_options m) g variables >>= λ v. read_config argv v config >>= λ s.
      po.notify (cmd_options m) s.1 s.0 >>= λ c.
      mode_of (value_of (po.found "mode" s.1)) >>= λ mode. value (record c { mode = mode }, s.1)

  -- A `po::error` is caught and ends the program with 1; another exception is not.
  unfoldable pub parse_node : List String → Config → po.Variables → Finished po.Variables
  unfolding configure
  parse_node argv config variables = elim (configure argv config variables) [
    | value (c, v) ↦
        if is_some (value_of (po.found "help" v))
        then if is_user c.mode then parsed c v else exited 0
        else parsed c v
    | error message ↦ exited 1
    | bad_cast ↦ terminated
  ]
