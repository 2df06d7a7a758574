-- ===== src/Config.antt =====
-- internal/config/config.go: ExpandHome, Load and resolveStorePath. What the operating system, the
-- path functions and the YAML parser answer is a parameter.
pub mod StorePath
use enviadores_wabridge.Prelude.{
  ℕ, Bool, true, false, not, ◌&&◌, ◌||◌, Option, none, some, [], ◌∷◌, eqb, if◌then◌else◌, drop, ◌⊎◌,
  inl, inr,
}
use enviadores_wabridge.Text.Utf8.{Bytes, utf8}
use enviadores_wabridge.Text.Search.{starts_with}
use enviadores_wabridge.Store.Failure.{bytes_eq}
use enviadores_wabridge.Store.Messages.{is_empty}

-- os.UserHomeDir, the functions of path/filepath, and os.Stat by whether it finds a directory; none
-- is an error.
pub record Os : Type 0 where
  pub home : Option Bytes
  pub is_abs : Bytes → Bool
  pub abs : Bytes → Option Bytes
  pub join : Bytes → Bytes → Bytes
  pub dir : Bytes → Bytes
  pub stat : Bytes → Option Bool

abbrev pub in_home : Os → Option Bytes → Bytes → Bytes
in_home o none p = p
in_home o (some home) p =
    if bytes_eq p (b'~' ∷ [])
    then home
    else if starts_with (b'~' ∷ b'/' ∷ []) p || starts_with (b'~' ∷ 92 ∷ []) p
    then o.join home (drop 2 p)
    else p

-- ExpandHome
unfoldable pub expand_home : Os → Bytes → Bytes
expand_home o p = if is_empty p || not (starts_with (b'~' ∷ []) p) then p else in_home o o.home p

abbrev pub is_file : Option Bool → Bool
is_file none = false
is_file (some is_dir) = not is_dir

-- fileExists
unfoldable pub file_exists : Os → Bytes → Bool
file_exists o p = is_file (o.stat p)

abbrev pub or_given : Bytes → Option Bytes → Bytes
or_given p none = p
or_given p (some a) = a

-- The database in the working directory, where the one next to the configuration does not exist.
abbrev pub legacy_path : Os → Bytes → Option Bytes → Bytes × Bool
legacy_path o anchored none = (anchored, false)
legacy_path o anchored (some legacy) =
    if not (bytes_eq legacy anchored) && file_exists o legacy
    then (legacy, true)
    else (anchored, false)

-- resolveStorePath
unfoldable pub resolve_store_path : Os → Bytes → Bytes → Bytes × Bool
resolve_store_path o p base_dir =
    let anchored = o.join (or_given base_dir (o.abs base_dir)) p in
    if o.is_abs p
    then (p, false)
    else if file_exists o anchored
    then (anchored, false)
    else legacy_path o anchored (o.abs p)

pub record SshConfig : Type 0 where
  pub host : Bytes
  pub port : ℕ
  pub user : Bytes
  pub private_key_path : Bytes
  pub private_key_passphrase : Bytes
  pub known_hosts_path : Bytes

pub record MysqlConfig : Type 0 where
  pub user : Bytes
  pub password : Bytes
  pub database : Bytes
  pub local_tunnel_port : ℕ

pub record MediaPart : Type 0 where
  pub remote_path : Bytes
  pub public_base_url : Bytes

pub record WhatsmeowConfig : Type 0 where
  pub store_path : Bytes
  pub log_level : Bytes
  pub legacy_store_path : Bool

pub record ServiceConfig : Type 0 where
  pub name : Bytes
  pub display_name : Bytes
  pub description : Bytes

pub record Config : Type 0 where
  pub ssh : SshConfig
  pub mysql : MysqlConfig
  pub media : MediaPart
  pub whatsmeow : WhatsmeowConfig
  pub service : ServiceConfig

abbrev pub or_port : ℕ → ℕ → ℕ
or_port n port = if eqb port 0 then n else port

abbrev pub or_text : Bytes → Bytes → Bytes
or_text t s = if is_empty s then t else s

-- Load, after the YAML: defaults, then paths.
unfoldable pub finish_config : Os → Bytes → Config → Config
finish_config o path c =
    let (store, legacy) =
      resolve_store_path o (expand_home o (or_text (utf8 "whatsmeow.db") c.whatsmeow.store_path))
        (o.dir path) in
    record c {
      ssh = record c.ssh {
        port = or_port 22 c.ssh.port;
        private_key_path = expand_home o c.ssh.private_key_path;
        known_hosts_path = expand_home o c.ssh.known_hosts_path;
      };
      mysql = record c.mysql { local_tunnel_port = or_port 53306 c.mysql.local_tunnel_port };
      whatsmeow = record {
        store_path = store;
        log_level = or_text (utf8 "INFO") c.whatsmeow.log_level;
        legacy_store_path = legacy;
      };
    }

pub data LoadError : Type 0 where
  read_config parse_config : Bytes → LoadError

abbrev pub after_parse : Os → Bytes → Bytes ⊎ Config → LoadError ⊎ Config
after_parse o path (inl e) = inl (parse_config e)
after_parse o path (inr c) = inr (finish_config o path c)

abbrev pub after_file : Os → (Bytes → Bytes ⊎ Config) → Bytes → Bytes ⊎ Bytes → LoadError ⊎ Config
after_file o yaml path (inl e) = inl (read_config e)
after_file o yaml path (inr b) = after_parse o path (yaml b)

-- Load, by what os.ReadFile and yaml.Unmarshal give: an error or a value.
unfoldable pub load :
    Os → (Bytes → Bytes ⊎ Bytes) → (Bytes → Bytes ⊎ Config) → Bytes → LoadError ⊎ Config
load o read_file yaml path = after_file o yaml path (read_file path)
