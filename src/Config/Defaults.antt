-- ===== src/Config/Defaults.antt =====
-- The paths that the daemon reads, all of which have a default.
use p2pnet.Base.{
  ℕ, ◌≡◌, ◌≢◌, refl, Bool, true, false, ◌&&◌, ◌||◌, List, [], ◌∷◌, Option, none, some, codes, arith,
  Bool-cases, inl, inr, subst, sym, ◌++◌,
}
use p2pnet.Base.Maps.{find, bytes_eq, bytes_beq, bytes_beq_iff}
use p2pnet.Crypto.Hash.{Bytes}
use p2pnet.Config.{
  Tree, ConfigManager, Value, value, bad_path, bad_data, converted, get_from, or_else, get_value,
  init_defaults, load_from_file, loaded, new_manager, reset_to_defaults, get_default_directory,
  get_default_file,
}

-- Every path that a call of getValue in the sources names.
abbrev pub read_paths : List Bytes
read_paths =
    codes "api.unix.disable_user_sock"
    ∷ codes "api.unix.enabled"
    ∷ codes "api.unix.system_sock_path"
    ∷ codes "api.unix.user_sock_name"
    ∷ codes "discovery.bootstrap.filename"
    ∷ codes "discovery.udpv4.enabled"
    ∷ codes "discovery.udpv4.local_ip"
    ∷ codes "discovery.udpv4.multicast.ip"
    ∷ codes "discovery.udpv4.multicast.port"
    ∷ codes "discovery.udpv4.timer"
    ∷ codes "discovery.udpv6.enabled"
    ∷ codes "discovery.udpv6.local_ip"
    ∷ codes "discovery.udpv6.multicast.ip"
    ∷ codes "discovery.udpv6.multicast.port"
    ∷ codes "discovery.udpv6.timer"
    ∷ codes "overlay.connection.limit"
    ∷ codes "overlay.connection.timeout"
    ∷ codes "overlay.key_provider.history_size"
    ∷ codes "overlay.key_provider.renew_interval"
    ∷ codes "p2p.allow_loopback"
    ∷ codes "policies.outgoing_only"
    ∷ codes "transport.udp.enabled"
    ∷ codes "transport.udp.inactivity_timeout"
    ∷ codes "transport.udp.keepalive_timer"
    ∷ codes "transport.udp.local_ip"
    ∷ codes "transport.udp.mtu"
    ∷ codes "transport.udp.outgoing_only"
    ∷ codes "transport.udp.port"
    ∷ []

abbrev pub is_some {ℓ} : {A : Type ℓ} → Option A → Bool
is_some none = false
is_some (some a) = true

abbrev pub mentions : Bytes → List Bytes → Bool
mentions path [] = false
mentions path (p ∷ ps) = bytes_beq p path || mentions path ps

abbrev all_have : Tree → List Bytes → Bool
all_have tree [] = true
all_have tree (p ∷ ps) = is_some (find p tree) && all_have tree ps

read_paths_have : all_have init_defaults read_paths ≡ true
unfolding find init_defaults
read_paths_have = refl

all_have-find :
    (tree : Tree) (path : Bytes) (ps : List Bytes)
    → all_have tree ps ≡ true
    → mentions path ps ≡ true
    → is_some (find path tree) ≡ true
all_have-find tree path [] h m = absurd (cc m)
all_have-find tree path (p ∷ ps) h m = elim (Bool-cases (bytes_beq p path)) [
  | inl e ↦
      let first : is_some (find p tree) ≡ true = ground (arith, h) in
      subst (λ q. is_some (find q tree) ≡ true) ((bytes_beq_iff p path).0 e) first
  | inr e ↦ all_have-find tree path ps (ground (arith, h)) (ground (arith, m, e))
]

converted_found {ℓ} : {A : Type ℓ} (o : Option A) → converted o ≢ bad_path
converted_found none e = absurd (cc e)
converted_found (some a) e = absurd (cc e)

get_from_found {ℓ} :
    {A : Type ℓ} (convert : Bytes → Option A) (o : Option Bytes)
    → is_some o ≡ true
    → get_from convert o ≢ bad_path
get_from_found convert none h e = absurd (cc h)
get_from_found convert (some text) h e = converted_found (convert text) e

or_else_path {ℓ} :
    {A : Type ℓ} (first other : Value A) → or_else first other ≡ bad_path → other ≡ bad_path
or_else_path bad_path other e = e
or_else_path (value a) other e = absurd (cc e)
or_else_path bad_data other e = absurd (cc e)

loaded-defaults :
    (read : Option Tree) (c : ConfigManager)
    → (loaded read c).internal_config_defaults ≡ c.internal_config_defaults
loaded-defaults none c = refl
loaded-defaults (some tree) c = refl

-- After the construction of the configuration, whatever the file holds, and after a reset as well,
-- no read of a path that the sources name ends in the exception for a missing path.
pub read_has_default {ℓ} :
    {A : Type ℓ} (convert : Bytes → Option A) (read_json : Bytes → Option Tree)
    (env_directory : Option Bytes) (uid : ℕ) (home : Option Bytes) (pw_dir path : Bytes)
    → mentions path read_paths ≡ true
    → (get_value convert path (new_manager read_json env_directory uid home pw_dir) ≢ bad_path)
      × (get_value convert path
            (reset_to_defaults (new_manager read_json env_directory uid home pw_dir))
          ≢ bad_path)
unfolding get_value new_manager load_from_file reset_to_defaults
read_has_default convert read_json env_directory uid home pw_dir path m =
    let initial : ConfigManager = record {
      internal_config = [];
      internal_config_defaults = init_defaults;
      config_directory = get_default_directory env_directory uid home pw_dir;
      config_file = get_default_file;
    } in
    let read = read_json (initial.config_directory ++ initial.config_file) in
    let there : is_some (find path (loaded read initial).internal_config_defaults) ≡ true =
      subst (λ tree. is_some (find path tree) ≡ true) (sym (loaded-defaults read initial))
        (all_have-find init_defaults path read_paths read_paths_have m) in
    (
      λ e. get_from_found convert _ there (or_else_path _ _ e),
      λ e. get_from_found convert _ there (or_else_path _ _ e),
    )
