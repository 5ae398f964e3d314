-- ===== src/Config/Tests.antt =====
-- A configuration whose file cannot be parsed.
use p2pnet.Base.{◌≢◌, refl, [], Option, none, some, codes}
use p2pnet.Crypto.Hash.{Bytes}
use p2pnet.Config.{Tree, ConfigManager, bad_path, get_value, new_manager, reset_to_defaults}
use p2pnet.Config.Defaults.{read_has_default}

abbrev no_file : Bytes → Option Tree
no_file name = none

abbrev as_text : Bytes → Option Bytes
as_text text = some text

abbrev configured : ConfigManager
configured = new_manager no_file none 0 none []

read_has_default_example :
    (get_value as_text (codes "transport.udp.port") configured ≢ bad_path)
    × (get_value as_text (codes "transport.udp.port") (reset_to_defaults configured) ≢ bad_path)
read_has_default_example =
    read_has_default as_text no_file none 0 none [] (codes "transport.udp.port") refl
