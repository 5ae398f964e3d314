-- ===== src/Discovery/Settings.antt =====
-- readConfig of src/daemon/discovery/UDPLPDv4.cpp and UDPLPDv6.cpp. The conversions of the texts to
-- numbers and to addresses are parameters.
use p2pnet.Base.{ℕ, ◌≡◌, ◌≢◌, refl, Option, none, some, codes, true}
use p2pnet.Crypto.Hash.{Bytes}
use p2pnet.Config.{Tree, ConfigManager, Value, value, bad_path, bad_data, get_value, new_manager}
use p2pnet.Config.Defaults.{read_has_default, mentions, read_paths}

-- How readConfig ends: by returning, by the exceptions of getValue, or by that of from_string.
data Reading {ℓ} (A : Type ℓ) : Type ℓ where
  read : A → Reading A
  missing_path : Reading A
  wrong_data : Reading A
  bad_address : Reading A

infixl 5 ◌>>=◌
abbrev ◌>>=◌ {ℓ κ} : {A : Type ℓ} {B : Type κ} → Reading A → (A → Reading B) → Reading B
read a >>= f = f a
missing_path >>= f = missing_path
wrong_data >>= f = wrong_data
bad_address >>= f = bad_address

abbrev of_value {ℓ} : {A : Type ℓ} → Value A → Reading A
of_value (value a) = read a
of_value bad_path = missing_path
of_value bad_data = wrong_data

abbrev of_address {ℓ} : {A : Type ℓ} → Option A → Reading A
of_address none = bad_address
of_address (some a) = read a

-- A path that the sources name, in the configuration as it is constructed.
has {ℓ} :
    {A : Type ℓ} (read_json : Bytes → Option Tree) (env_directory : Option Bytes) (uid : ℕ)
    (home : Option Bytes) (pw_dir : Bytes) (convert : Bytes → Option A) (path : Bytes)
    → mentions path read_paths ≡ true
    → get_value convert path (new_manager read_json env_directory uid home pw_dir) ≢ bad_path
has read_json env_directory uid home pw_dir convert path named =
    (read_has_default convert read_json env_directory uid home pw_dir path named).0

module _ (Address : Type 0) where
  -- An endpoint is its address and its port.
  record Settings : Type 0 where
    timer_seconds : ℕ
    bind_endpoint : Address × ℕ
    target_endpoint : Address × ℕ

  module _ (to_unsigned_int to_unsigned_short : Bytes → Option ℕ)
      (address_from_string : Bytes → Option Address) where
    abbrev as_string : Bytes → Option Bytes
    as_string text = some text

    -- What both bodies do, for their five paths.
    abbrev read_config :
        (timer port local_ip multicast_ip : Bytes) → ConfigManager → Reading Settings
    read_config timer port local_ip multicast_ip c = do
      timer_seconds ← of_value (get_value to_unsigned_int timer c)
      multicast_port ← of_value (get_value to_unsigned_short port c)
      local_text ← of_value (get_value as_string local_ip c)
      bind_address ← of_address (address_from_string local_text)
      multicast_text ← of_value (get_value as_string multicast_ip c)
      target_address ← of_address (address_from_string multicast_text)
      read (record {
        timer_seconds = timer_seconds;
        bind_endpoint = (bind_address, multicast_port);
        target_endpoint = (target_address, multicast_port);
      })

    -- UDPLPDv4::readConfig
    read_config_v4 : ConfigManager → Reading Settings
    read_config_v4 =
        read_config (codes "discovery.udpv4.timer") (codes "discovery.udpv4.multicast.port")
          (codes "discovery.udpv4.local_ip") (codes "discovery.udpv4.multicast.ip")

    -- UDPLPDv6::readConfig
    read_config_v6 : ConfigManager → Reading Settings
    read_config_v6 =
        read_config (codes "discovery.udpv6.timer") (codes "discovery.udpv6.multicast.port")
          (codes "discovery.udpv6.local_ip") (codes "discovery.udpv6.multicast.ip")

    of_value-found {ℓ κ} :
        {A : Type ℓ} {B : Type κ} (v : Value A) (f : A → Reading B)
        → v ≢ bad_path
        → ((a : A) → f a ≢ missing_path)
        → (of_value v >>= f) ≢ missing_path
    of_value-found (value a) f found rest = rest a
    of_value-found bad_path f found rest = absurd (found refl)
    of_value-found bad_data f found rest = λ e. absurd (cc e)

    of_address-found {ℓ κ} :
        {A : Type ℓ} {B : Type κ} (o : Option A) (f : A → Reading B)
        → ((a : A) → f a ≢ missing_path)
        → (of_address o >>= f) ≢ missing_path
    of_address-found none f rest = λ e. absurd (cc e)
    of_address-found (some a) f rest = rest a

    read_config-found :
        (timer port local_ip multicast_ip : Bytes) (c : ConfigManager)
        → get_value to_unsigned_int timer c ≢ bad_path
        → get_value to_unsigned_short port c ≢ bad_path
        → get_value as_string local_ip c ≢ bad_path
        → get_value as_string multicast_ip c ≢ bad_path
        → read_config timer port local_ip multicast_ip c ≢ missing_path
    read_config-found timer port local_ip multicast_ip c t p l m =
        of_value-found (get_value to_unsigned_int timer c) _ t (λ timer_seconds.
          of_value-found (get_value to_unsigned_short port c) _ p (λ multicast_port.
            of_value-found (get_value as_string local_ip c) _ l (λ local_text.
              of_address-found (address_from_string local_text) _ (λ bind_address.
                of_value-found (get_value as_string multicast_ip c) _ m (λ multicast_text.
                  of_address-found (address_from_string multicast_text) _
                    (λ target_address e. absurd (cc e)))))))

    -- With any configuration file both discoveries find all their settings.
    read_configs-found :
        (read_json : Bytes → Option Tree) (env_directory : Option Bytes) (uid : ℕ)
        (home : Option Bytes) (pw_dir : Bytes)
        → let c = new_manager read_json env_directory uid home pw_dir in
          (read_config_v4 c ≢ missing_path) × (read_config_v6 c ≢ missing_path)
    unfolding read_config_v4 read_config_v6
    read_configs-found read_json env_directory uid home pw_dir = (
      found (codes "discovery.udpv4.timer") (codes "discovery.udpv4.multicast.port")
          (codes "discovery.udpv4.local_ip") (codes "discovery.udpv4.multicast.ip") refl refl refl
          refl,
      found (codes "discovery.udpv6.timer") (codes "discovery.udpv6.multicast.port")
          (codes "discovery.udpv6.local_ip") (codes "discovery.udpv6.multicast.ip") refl refl refl
          refl,
    )
      where
        c : ConfigManager
        c = new_manager read_json env_directory uid home pw_dir

        found :
            (timer port local_ip multicast_ip : Bytes)
            → mentions timer read_paths ≡ true
            → mentions port read_paths ≡ true
            → mentions local_ip read_paths ≡ true
            → mentions multicast_ip read_paths ≡ true
            → read_config timer port local_ip multicast_ip c ≢ missing_path
        found timer port local_ip multicast_ip t p l m =
            read_config-found timer port local_ip multicast_ip c
              (has read_json env_directory uid home pw_dir to_unsigned_int timer t)
              (has read_json env_directory uid home pw_dir to_unsigned_short port p)
              (has read_json env_directory uid home pw_dir as_string local_ip l)
              (has read_json env_directory uid home pw_dir as_string multicast_ip m)
