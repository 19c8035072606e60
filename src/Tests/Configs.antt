-- ===== src/Tests/Configs.antt =====
-- A configuration from defaults and one flag.
use rebost.Prelude.{String, ◌≡◌, refl, true, Option, none, some, [], ◌∷◌, ℤ, pos}
use rebost.Exec.{ok, err}
use rebost.Assoc.{Assoc, look}
use rebost.Config.{Config, Value, number, word, Viper, new_config}

abbrev number_of : Option Value → ℤ
number_of none = pos 0
number_of (some (number n)) = n
number_of (some (word s)) = pos 0

abbrev word_of : Option Value → String
word_of none = ""
word_of (some (number n)) = ""
word_of (some (word s)) = s

abbrev kept : Option Value → Assoc Value → String → Value → Assoc Value
kept none v name x = (name, x) ∷ v
kept (some y) v name x = v

abbrev settings : Viper
settings = record {
  State = Assoc Value;
  set_default = λ v name x. kept (look v name) v name x;
  get_string = λ v name. word_of (look v name);
  read_in_config = λ v path. err "no such file";
  unmarshal = λ v. ok (record {
    port = number_of (look v "port");
    volumes = [];
    remote = "";
    replica = number_of (look v "replica");
    volume_downtime = number_of (look v "volume-downtime");
    name = word_of (look v "name");
    cache = record { size = number_of (look v "cache.size") };
    memberlist = record { port = number_of (look v "memberlist.port") };
    dashboard = record { port = pos 3806; enabled = true };
  });
}

abbrev made : Config
made = record {
  port = pos 3805;
  volumes = [];
  remote = "";
  replica = pos 5;
  volume_downtime = pos 120000000000;
  name = "kaboru";
  cache = record { size = pos 200 };
  memberlist = record { port = pos 41000 };
  dashboard = record { port = pos 3806; enabled = true };
}

made_lem :
    new_config settings (ok (pos 41000)) "kaboru" (("replica", number (pos 5)) ∷ []) ≡ ok made
unfolding new_config
made_lem = refl
