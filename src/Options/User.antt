-- ===== src/Options/User.antt =====
-- src/utility.cc, `parse_options<Mode::USER>`: the arguments of a user's command. A configuration
-- file is opened by the path as it is given.
use cs739_p2_replicated_data.Base.{String, Option, none, some, List, if◌then◌else◌}
use cs739_p2_replicated_data.Config.{Config}
use cs739_p2_replicated_data.Options.{
  Value, Outcome, value, error, bad_cast, ◌>>=◌, ProgramOptions, Machine, Finished, exited,
  terminated, parsed, value_of, is_some, as_text,
}
use cs739_p2_replicated_data.Options.Schema.{user_options}
use cs739_p2_replicated_data.User.{Arguments}

-- `variables[name].as<std::string>()`
abbrev text_at : Option Value → Outcome String
text_at none = bad_cast
text_at (some x) = as_text x

module _ (po : ProgramOptions) (m : Machine) where
  unfoldable pub read_user_config : po.Variables → Outcome po.Variables
  read_user_config v = elim (value_of (po.found "config" v)) [
    | none ↦ value v
    | some x ↦ as_text x >>= λ config_file. elim (m.read_file config_file) [
      | none ↦ value v
      | some content ↦ po.parse_config_file user_options content >>= λ h. po.store user_options h v
    ]
  ]

  unfoldable pub configure_user :
      List String → Config → po.Variables → Outcome (Config × po.Variables)
  unfolding read_user_config
  configure_user argv config variables = po.parse_command_line user_options argv >>= λ g.
      po.store user_options g variables >>= λ v.
      read_user_config v >>= λ v'. po.notify user_options v' config >>= λ c. value (c, v')

  unfoldable pub parse_user : List String → Config → po.Variables → Finished po.Variables
  unfolding configure_user
  parse_user argv config variables = elim (configure_user argv config variables) [
    | value (c, v) ↦ if is_some (value_of (po.found "help" v)) then exited 0 else parsed c v
    | error message ↦ exited 1
    | bad_cast ↦ terminated
  ]

  -- What `user_entrypoint` reads first.
  unfoldable pub arguments_of : po.Variables → Outcome Arguments
  arguments_of v = text_at (value_of (po.found "command" v)) >>= λ command.
      text_at (value_of (po.found "target" v)) >>= λ target.
      text_at (value_of (po.found "key" v)) >>= λ key.
      text_at (value_of (po.found "value" v)) >>= λ text.
      value (record { command = command; target = target; key = key; value = text })
