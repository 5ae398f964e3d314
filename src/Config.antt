-- ===== src/Config.antt =====
-- src/common/Config.h and Config.cpp. A property tree is a list of paths with their texts; the JSON
-- parser, the conversion of a text to the type asked for and the environment are parameters.
pub mod Defaults
mod Tests
use p2pnet.Base.{
  ℕ, zero, suc, Bool, true, false, List, [], ◌∷◌, ◌++◌, Option, none, some, codes, if◌then◌else◌,
}
use p2pnet.Base.Maps.{find, bytes_eq}
use p2pnet.Crypto.Hash.{Bytes}

abbrev pub Tree : Type 0
Tree = List (Bytes × Bytes)

-- initDefaults
unfoldable pub init_defaults : Tree
init_defaults =
    (codes "policies.outgoing_only", codes "false")
    ∷ (codes "api.unix.enabled", codes "true")
    ∷ (codes "api.unix.user_sock_name", codes "unix_api.sock")
    ∷ (codes "api.unix.disable_user_sock", codes "false")
    ∷ (codes "api.unix.system_sock_path", codes "/var/run/p2pnet/unix_api.sock")
    ∷ (codes "transport.udp.enabled", codes "true")
    ∷ (codes "transport.udp.local_ip", codes "0::0")
    ∷ (codes "transport.udp.port", codes "2185")
    ∷ (codes "transport.udp.mtu", codes "1438")
    ∷ (codes "transport.udp.keepalive_timer", codes "3")
    ∷ (codes "transport.udp.inactivity_timeout", codes "30")
    ∷ (codes "transport.udp.outgoing_only", codes "false")
    ∷ (codes "overlay.connection.limit", codes "1000")
    ∷ (codes "overlay.connection.key_rotation_spam_limit", codes "5")
    ∷ (codes "overlay.connection.timeout", codes "120")
    ∷ (codes "overlay.key_provider.history_size", codes "10")
    ∷ (codes "overlay.key_provider.renew_interval", codes "600")
    ∷ (codes "p2p.allow_loopback", codes "true")
    ∷ (codes "p2p.listen.max_connections", codes "128")
    ∷ (codes "discovery.bootstrap.filename", codes "bootstrap.txt")
    ∷ (codes "discovery.udpv4.enabled", codes "true")
    ∷ (codes "discovery.udpv4.timer", codes "10")
    ∷ (codes "discovery.udpv4.local_ip", codes "0.0.0.0")
    ∷ (codes "discovery.udpv4.multicast.ip", codes "239.192.152.144")
    ∷ (codes "discovery.udpv4.multicast.port", codes "28915")
    ∷ (codes "discovery.udpv6.enabled", codes "true")
    ∷ (codes "discovery.udpv6.timer", codes "10")
    ∷ (codes "discovery.udpv6.local_ip", codes "0::0")
    ∷ (codes "discovery.udpv6.multicast.ip", codes "ff08::BD02")
    ∷ (codes "discovery.udpv6.multicast.port", codes "28915")
    ∷ []

-- ConfigManager
pub record ConfigManager : Type 0 where
  pub internal_config : Tree
  pub internal_config_defaults : Tree
  pub config_directory : Bytes
  pub config_file : Bytes

-- What a read gives: a value, or the exception for a missing path or for a text that does not
-- convert.
pub data Value {ℓ} (A : Type ℓ) : Type ℓ where
  value : A → Value A
  bad_path : Value A
  bad_data : Value A

abbrev pub converted {ℓ} : {A : Type ℓ} → Option A → Value A
converted none = bad_data
converted (some a) = value a

-- get<T> of a property tree.
abbrev pub get_from {ℓ} : {A : Type ℓ} → (Bytes → Option A) → Option Bytes → Value A
get_from convert none = bad_path
get_from convert (some text) = converted (convert text)

abbrev pub or_else {ℓ} : {A : Type ℓ} → Value A → Value A → Value A
or_else bad_path other = other
or_else (value a) other = value a
or_else bad_data other = bad_data

-- getValue: the defaults serve where the path is missing.
pub get_value {ℓ} : {A : Type ℓ} → (Bytes → Option A) → Bytes → ConfigManager → Value A
get_value convert path c =
    or_else (get_from convert (find path c.internal_config))
      (get_from convert (find path c.internal_config_defaults))

-- resetToDefaults
pub reset_to_defaults : ConfigManager → ConfigManager
reset_to_defaults c = record c { internal_config = [] }

-- loadFromFile, with what the parser makes of the file: an error gives the defaults.
abbrev pub loaded : Option Tree → ConfigManager → ConfigManager
loaded none c = record c { internal_config = c.internal_config_defaults }
loaded (some tree) c = record c { internal_config = tree }

pub load_from_file : (Bytes → Option Tree) → ConfigManager → ConfigManager
load_from_file read_json c = loaded (read_json (c.config_directory ++ c.config_file)) c

-- setDirectory, setFile, getDirectory and getFile
abbrev set_directory : Bytes → ConfigManager → ConfigManager
set_directory directory c = record c { config_directory = directory }

abbrev set_file : Bytes → ConfigManager → ConfigManager
set_file filename c = record c { config_file = filename }

abbrev get_directory : ConfigManager → Bytes
get_directory c = c.config_directory

abbrev get_file : ConfigManager → Bytes
get_file c = c.config_file

-- getPermissions on Unix.
pub data Permissions : Type 0 where
  system user : Permissions

abbrev pub get_permissions : (uid : ℕ) → Permissions
get_permissions uid = elim uid [ zero ↦ system | suc n ↦ user ]

-- getDefaultDirectory on Unix: P2PNET_CONFIG_DIR, or the system's directory, or one under HOME or,
-- without it, under the directory that the password database names.
abbrev pub home_directory : Option Bytes → Bytes → Bytes
home_directory none pw_dir = pw_dir
home_directory (some home) pw_dir = home

abbrev pub directory_for : Permissions → Option Bytes → Bytes → Bytes
directory_for system home pw_dir = codes "/etc/p2pnet/"
directory_for user home pw_dir = home_directory home pw_dir ++ codes "/.p2pnet/"

abbrev pub get_default_directory : Option Bytes → (uid : ℕ) → Option Bytes → Bytes → Bytes
get_default_directory (some directory) uid home pw_dir = directory
get_default_directory none uid home pw_dir = directory_for (get_permissions uid) home pw_dir

-- getDefaultFile
abbrev pub get_default_file : Bytes
get_default_file = codes "p2pnet.json"

-- ConfigManager()
pub new_manager : (Bytes → Option Tree) → Option Bytes → ℕ → Option Bytes → Bytes → ConfigManager
unfolding load_from_file
new_manager read_json env_directory uid home pw_dir = load_from_file read_json (record {
  internal_config = [];
  internal_config_defaults = init_defaults;
  config_directory = get_default_directory env_directory uid home pw_dir;
  config_file = get_default_file;
})
