-- ===== src/Options/Schema/Settings.antt =====
-- The settings field by field: the default of each option, and the field that it sets, written
-- down once more from the declarations of `parse_options`.
use cs739_p2_replicated_data.Base.{
  ℕ, String, ◌≡◌, refl, ap, ◌∙◌, Bool, true, false, Option, none, some, List, [], ◌∷◌, str_eq,
  if◌then◌else◌,
}
use cs739_p2_replicated_data.Base.Int.{ℤ, pos}
use cs739_p2_replicated_data.Config.{Config, Mode}
use cs739_p2_replicated_data.Options.{
  Value, text, texts, number, integer, switch, execution, Machine, concatenate_path,
}
use cs739_p2_replicated_data.Options.Documented.{default_of, put, assign_all}
use cs739_p2_replicated_data.Options.Schema.{
  primary, cmd_options, store_port_database, store_port_consensus, store_database_directory,
  store_cluster, store_debug, store_leader, store_local_ubuntu, store_timeout, store_failrate,
  store_latency, store_election,
}

-- What a node runs with where nothing is given.
abbrev defaults : Machine → List (String × Option Value)
defaults m =
    ("port_database", some (number 9000))
    ∷ ("port_consensus", some (number 8000))
    ∷ ("database_directory", some (text (concatenate_path m m.current_path "tmp/server")))
    ∷ ("cluster.address", none)
    ∷ ("flag.debug", some (switch false))
    ∷ ("flag.leader", some (switch false))
    ∷ ("flag.local_ubuntu", some (switch false))
    ∷ ("flag.timeout", some (integer (pos 1000)))
    ∷ ("flag.failrate", some (integer (pos 0)))
    ∷ ("flag.latency", some (switch false))
    ∷ ("flag.election", some (switch true))
    ∷ []

abbrev entry_of : String → List (String × Option Value) → Option Value
entry_of n [] = none
entry_of n ((k, d) ∷ l) = let rest = entry_of n l in if str_eq k n then d else rest

abbrev pub default_setting : Machine → String → Option Value
default_setting m n = entry_of n (defaults m)

pub default_of-default_setting :
    (m : Machine) (n : String) → default_of n (primary m) ≡ default_setting m n
unfolding primary
default_of-default_setting m n = refl

-- A value of the right type, or else the old setting.
abbrev number_or : Option Value → ℕ → ℕ
number_or (some (number x)) old = x
number_or _ old = old

abbrev text_or : Option Value → String → String
text_or (some (text x)) old = x
text_or _ old = old

abbrev texts_or : Option Value → List String → List String
texts_or (some (texts x)) old = x
texts_or _ old = old

abbrev integer_or : Option Value → ℤ → ℤ
integer_or (some (integer x)) old = x
integer_or _ old = old

abbrev switch_or : Option Value → Bool → Bool
switch_or (some (switch x)) old = x
switch_or _ old = old

-- The settings of the values `f`: each field from the option of its own name.
abbrev pub settings_of : (String → Option Value) → Mode → Config → Config
settings_of f mode c = record {
  config = c.config;
  ip = c.ip;
  port_database = number_or (f "port_database") c.port_database;
  port_consensus = number_or (f "port_consensus") c.port_consensus;
  database_directory = text_or (f "database_directory") c.database_directory;
  cluster = texts_or (f "cluster.address") c.cluster;
  mode = mode;
  flag = record {
    debug = switch_or (f "flag.debug") c.flag.debug;
    leader = switch_or (f "flag.leader") c.flag.leader;
    local_ubuntu = switch_or (f "flag.local_ubuntu") c.flag.local_ubuntu;
    timeout = integer_or (f "flag.timeout") c.flag.timeout;
    failrate = integer_or (f "flag.failrate") c.flag.failrate;
    latency = switch_or (f "flag.latency") c.flag.latency;
    election = switch_or (f "flag.election") c.flag.election;
  };
}

by_value :
    (P : Option Value → Type 0)
    → P none
    → ((s : String) → P (some (text s)))
    → ((l : List String) → P (some (texts l)))
    → ((n : ℕ) → P (some (number n)))
    → ((i : ℤ) → P (some (integer i)))
    → ((b : Bool) → P (some (switch b)))
    → ((m : Mode) → P (some (execution m)))
    → (o : Option Value) → P o
by_value P a s l n i b m none = a
by_value P a s l n i b m (some (text x)) = s x
by_value P a s l n i b m (some (texts x)) = l x
by_value P a s l n i b m (some (number x)) = n x
by_value P a s l n i b m (some (integer x)) = i x
by_value P a s l n i b m (some (switch x)) = b x
by_value P a s l n i b m (some (execution x)) = m x

put_nothing : (o : Option Value) (c : Config) → put (λ v x. x) o c ≡ c
put_nothing none c = refl
put_nothing (some v) c = refl

put_port_database :
    (o : Option Value) (c : Config)
    → put store_port_database o c ≡ record c { port_database = number_or o c.port_database }
unfolding store_port_database
put_port_database o c =
    by_value
      (λ o. put store_port_database o c ≡ record c { port_database = number_or o c.port_database })
      refl (λ s. refl) (λ l. refl) (λ n. refl) (λ i. refl) (λ b. refl) (λ m. refl) o

put_port_consensus :
    (o : Option Value) (c : Config)
    → put store_port_consensus o c ≡ record c { port_consensus = number_or o c.port_consensus }
unfolding store_port_consensus
put_port_consensus o c =
    by_value
      (λ o.
        put store_port_consensus o c ≡ record c { port_consensus = number_or o c.port_consensus })
      refl (λ s. refl) (λ l. refl) (λ n. refl) (λ i. refl) (λ b. refl) (λ m. refl) o

put_database_directory :
    (o : Option Value) (c : Config)
    → put store_database_directory o c
      ≡ record c { database_directory = text_or o c.database_directory }
unfolding store_database_directory
put_database_directory o c =
    by_value
      (λ o.
        put store_database_directory o c
        ≡ record c { database_directory = text_or o c.database_directory })
      refl (λ s. refl) (λ l. refl) (λ n. refl) (λ i. refl) (λ b. refl) (λ m. refl) o

put_cluster :
    (o : Option Value) (c : Config)
    → put store_cluster o c ≡ record c { cluster = texts_or o c.cluster }
unfolding store_cluster
put_cluster o c =
    by_value (λ o. put store_cluster o c ≡ record c { cluster = texts_or o c.cluster }) refl
      (λ s. refl) (λ l. refl) (λ n. refl) (λ i. refl) (λ b. refl) (λ m. refl) o

put_debug :
    (o : Option Value) (c : Config)
    → put store_debug o c ≡ record c { flag = record c.flag { debug = switch_or o c.flag.debug } }
unfolding store_debug
put_debug o c =
    by_value
      (λ o.
        put store_debug o c
        ≡ record c { flag = record c.flag { debug = switch_or o c.flag.debug } })
      refl (λ s. refl) (λ l. refl) (λ n. refl) (λ i. refl) (λ b. refl) (λ m. refl) o

put_leader :
    (o : Option Value) (c : Config)
    → put store_leader o c
      ≡ record c { flag = record c.flag { leader = switch_or o c.flag.leader } }
unfolding store_leader
put_leader o c =
    by_value
      (λ o.
        put store_leader o c
        ≡ record c { flag = record c.flag { leader = switch_or o c.flag.leader } })
      refl (λ s. refl) (λ l. refl) (λ n. refl) (λ i. refl) (λ b. refl) (λ m. refl) o

put_local_ubuntu :
    (o : Option Value) (c : Config)
    → put store_local_ubuntu o c
      ≡ record c { flag = record c.flag { local_ubuntu = switch_or o c.flag.local_ubuntu } }
unfolding store_local_ubuntu
put_local_ubuntu o c =
    by_value
      (λ o.
        put store_local_ubuntu o c
        ≡ record c { flag = record c.flag { local_ubuntu = switch_or o c.flag.local_ubuntu } })
      refl (λ s. refl) (λ l. refl) (λ n. refl) (λ i. refl) (λ b. refl) (λ m. refl) o

put_timeout :
    (o : Option Value) (c : Config)
    → put store_timeout o c
      ≡ record c { flag = record c.flag { timeout = integer_or o c.flag.timeout } }
unfolding store_timeout
put_timeout o c =
    by_value
      (λ o.
        put store_timeout o c
        ≡ record c { flag = record c.flag { timeout = integer_or o c.flag.timeout } })
      refl (λ s. refl) (λ l. refl) (λ n. refl) (λ i. refl) (λ b. refl) (λ m. refl) o

put_failrate :
    (o : Option Value) (c : Config)
    → put store_failrate o c
      ≡ record c { flag = record c.flag { failrate = integer_or o c.flag.failrate } }
unfolding store_failrate
put_failrate o c =
    by_value
      (λ o.
        put store_failrate o c
        ≡ record c { flag = record c.flag { failrate = integer_or o c.flag.failrate } })
      refl (λ s. refl) (λ l. refl) (λ n. refl) (λ i. refl) (λ b. refl) (λ m. refl) o

put_latency :
    (o : Option Value) (c : Config)
    → put store_latency o c
      ≡ record c { flag = record c.flag { latency = switch_or o c.flag.latency } }
unfolding store_latency
put_latency o c =
    by_value
      (λ o.
        put store_latency o c
        ≡ record c { flag = record c.flag { latency = switch_or o c.flag.latency } })
      refl (λ s. refl) (λ l. refl) (λ n. refl) (λ i. refl) (λ b. refl) (λ m. refl) o

put_election :
    (o : Option Value) (c : Config)
    → put store_election o c
      ≡ record c { flag = record c.flag { election = switch_or o c.flag.election } }
unfolding store_election
put_election o c =
    by_value
      (λ o.
        put store_election o c
        ≡ record c { flag = record c.flag { election = switch_or o c.flag.election } })
      refl (λ s. refl) (λ l. refl) (λ n. refl) (λ i. refl) (λ b. refl) (λ m. refl) o

then_put :
    {s : Value → Config → Config} {u : Option Value → Config → Config}
    → ((o : Option Value) (c : Config) → put s o c ≡ u o c)
    → (o : Option Value) {c c' : Config} → c ≡ c'
    → put s o c ≡ u o c'
then_put {s} {u} h o {c} {c'} e = ap (put s o) e ∙ h o c'

-- Storing option by option gives these settings.
pub assign_all-settings_of :
    (m : Machine) (f : String → Option Value) (mode : Mode) (c : Config)
    → record (assign_all (cmd_options m) f c) { mode = mode } ≡ settings_of f mode c
unfolding cmd_options primary
assign_all-settings_of m f mode c = ap (λ (x : Config). record x { mode = mode }) stored
  where
    named : Config
    named = put (λ v x. x) (f "mode") (put (λ v x. x) (f "config") (put (λ v x. x) (f "help") c))

    generic_kept : named ≡ c
    generic_kept = put_nothing (f "mode") _ ∙ put_nothing (f "config") _ ∙ put_nothing (f "help") c

    stored : assign_all (cmd_options m) f c ≡ settings_of f c.mode c
    stored = then_put put_election (f "flag.election") (
        then_put put_latency (f "flag.latency") (
          then_put put_failrate (f "flag.failrate") (
            then_put put_timeout (f "flag.timeout") (
              then_put put_local_ubuntu (f "flag.local_ubuntu") (
                then_put put_leader (f "flag.leader") (
                  then_put put_debug (f "flag.debug") (
                    then_put put_cluster (f "cluster.address") (
                      then_put put_database_directory (f "database_directory") (
                        then_put put_port_consensus (f "port_consensus")
                          (then_put put_port_database (f "port_database") (generic_kept)))))))))))
