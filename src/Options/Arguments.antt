-- ===== src/Options/Arguments.antt =====
-- The arguments of a user's command: where `parse_options<Mode::USER>` takes them from.
use cs739_p2_replicated_data.Base.{
  String, ◌≡◌, refl, ◌∙◌, Option, none, some, List, [], ◌∷◌, Option-cases, inl, inr,
}
use cs739_p2_replicated_data.Base.Lists.{All}
use cs739_p2_replicated_data.Config.{Config}
use cs739_p2_replicated_data.Options.{
  Value, text, Declared, value, ProgramOptions, Machine, parsed, value_of,
}
use cs739_p2_replicated_data.Options.Schema.{user_options}
use cs739_p2_replicated_data.Options.User.{
  read_user_config, configure_user, parse_user, arguments_of,
}
use cs739_p2_replicated_data.Options.Documented.{default_of, assign_all, Documented}
use cs739_p2_replicated_data.Options.Priority.{preferred, merge_once, merge_twice}
use cs739_p2_replicated_data.User.{Arguments}

abbrev pub argument_names : List String
argument_names = "command" ∷ "target" ∷ "key" ∷ "value" ∷ []

abbrev KeepsSettings : Declared → Type 0
KeepsSettings d = (x : Value) (c : Config) → d.store_to x c ≡ c

assign_all_kept :
    (ds : List Declared) (f : String → Option Value) (c : Config)
    → All KeepsSettings ds
    → assign_all ds f c ≡ c
assign_all_kept [] f c h = refl
assign_all_kept (d ∷ ds) f c h = elim (Option-cases (f d.name)) [
  | inl e ↦ rw e (assign_all_kept ds f c h.1)
  | inr (x, e) ↦ rw (e, h.0 x c) (assign_all_kept ds f c h.1)
]

module _ (po : ProgramOptions) (m : Machine) where
  -- What `read_user_config` makes of the variables: the options that the file gives, and the new
  -- variables.
  pub data UserReads (v : po.Variables) : (String → Option Value) → po.Variables → Type 0 where
    not_named : value_of (po.found "config" v) ≡ none → UserReads v (λ _. none) v
    not_opened :
        (path : String)
        → value_of (po.found "config" v) ≡ some (text path)
        → m.read_file path ≡ none
        → UserReads v (λ _. none) v
    was_read :
        (path content : String) (h : po.Parsed) (v' : po.Variables)
        → value_of (po.found "config" v) ≡ some (text path)
        → m.read_file path ≡ some content
        → po.parse_config_file user_options content ≡ value h
        → po.store user_options h v ≡ value v'
        → UserReads v (λ n. po.given n h) v'

  read_user_config-UserReads :
      (v v' : po.Variables) (h : String → Option Value)
      → UserReads v h v'
      → read_user_config po m v ≡ value v'
  unfolding read_user_config
  read_user_config-UserReads v v' h (not_named e) = rw (read_user_config, e) refl
  read_user_config-UserReads v v' h (not_opened path e f) = rw (read_user_config, e, f) refl
  read_user_config-UserReads v v' h (was_read path content k v'' e f p q) =
      rw (read_user_config, e, f, p, q) refl

  -- The value that an argument gets, from the command line, the file, or its default.
  abbrev pub chosen_argument : po.Parsed → (String → Option Value) → String → Option Value
  chosen_argument g h n = preferred (po.given n g) (h n) (default_of n user_options)

  found-UserReads :
      (doc : Documented po) (g : po.Parsed) (v v₁ v₂ : po.Variables) (h : String → Option Value)
      (n : String)
      → po.found n v ≡ none
      → po.store user_options g v ≡ value v₁
      → UserReads v₁ h v₂
      → value_of (po.found n v₂) ≡ chosen_argument g h n
  found-UserReads doc g v v₁ v₂ h n fresh stored (not_named e) =
      rw (doc.stores user_options g v v₁ stored n, fresh) (merge_once (po.given n g) _)
  found-UserReads doc g v v₁ v₂ h n fresh stored (not_opened path e f) =
      rw (doc.stores user_options g v v₁ stored n, fresh) (merge_once (po.given n g) _)
  found-UserReads doc g v v₁ v₂ h n fresh stored (was_read path content k v' e f p q) =
      rw (doc.stores user_options k v₁ v₂ q n, doc.stores user_options g v v₁ stored n, fresh)
        (merge_twice (po.given n g) (po.given n k) _)

  -- Let the parsers and `store` throw nothing, let no argument be set by the first parsing, and no
  -- help be asked for. Then the second parsing returns with the settings unchanged, and the command
  -- runs with the arguments that the command line gives, or else the file that is named, if it can
  -- be opened, or else their defaults.
  pub parse_user_priority :
      (doc : Documented po) (argv : List String) (config : Config) (g : po.Parsed)
      (v v₁ v₂ : po.Variables) (h : String → Option Value) (a : Arguments)
      → All (λ n. po.found n v ≡ none) argument_names
      → po.parse_command_line user_options argv ≡ value g
      → po.store user_options g v ≡ value v₁
      → UserReads v₁ h v₂
      → value_of (po.found "help" v₂) ≡ none
      → chosen_argument g h "command" ≡ some (text a.command)
      → chosen_argument g h "target" ≡ some (text a.target)
      → chosen_argument g h "key" ≡ some (text a.key)
      → chosen_argument g h "value" ≡ some (text a.value)
      → (parse_user po m argv config v ≡ parsed config v₂) × (arguments_of po m v₂ ≡ value a)
  unfolding parse_user configure_user arguments_of
  parse_user_priority doc argv config g v v₁ v₂ h a fresh read stored reads plain hc ht hk hv =
      let find = λ (n : String) (f : po.found n v ≡ none).
        found-UserReads doc g v v₁ v₂ h n f stored reads in
      (
        rw
            (
              parse_user,
              configure_user,
              read,
              stored,
              read_user_config-UserReads v₁ v₂ h reads,
              doc.notifies user_options v₂ config,
              plain,
              assign_all_kept user_options (λ n. value_of (po.found n v₂)) config
                  ((λ x c. refl), ((λ x c. refl), ((λ x c. refl), ((λ x c. refl), tt)))),
            )
            refl,
        rw
            (
              arguments_of,
              find "command" fresh.0 ∙ hc,
              find "target" fresh.1.0 ∙ ht,
              find "key" fresh.1.1.0 ∙ hk,
              find "value" fresh.1.1.1.0 ∙ hv,
            )
            refl,
      )
