-- ===== src/Version.antt =====
-- src/common/Version.h and src/version.h. The printing of a number in decimal is a parameter. The
-- numbers are uint32_t; none of the subtractions goes below 0.
pub mod Build
use p2pnet.Base.{ℕ, zero, suc, ◌-◌, ◌*◌, ◌/◌, ◌++◌, [], ◌∷◌, length, codes}
use p2pnet.Crypto.Hash.{Bytes}

-- getMyVersion: P2PNET_VERSION, the octal literal 00000000.
abbrev pub my_version : ℕ
my_version = 0

abbrev zeros : ℕ → Bytes
zeros zero = []
zeros (suc n) = 48 ∷ zeros n

-- A field of a stream with setfill('0') and setw(width).
abbrev pub field : (width : ℕ) → Bytes → Bytes
field width text = zeros (width - length text) ++ text

-- The numbers of getMyVersionString, for a version.
pub major : ℕ → ℕ
major version = version / 1000000

pub minor : ℕ → ℕ
unfolding major
minor version = (version - major version * 1000000) / 10000

pub build : ℕ → ℕ
unfolding major minor
build version = version - major version * 1000000 - minor version * 1000

module _ (print : ℕ → Bytes) where
  pub make_version_string : (major minor build : ℕ) → (channel : Bytes) → Bytes
  make_version_string major minor build channel =
      print major
      ++ codes "."
      ++ field 2 (print minor)
      ++ codes "."
      ++ field 4 (print build)
      ++ codes "-"
      ++ channel

  -- P2PNET_CHANNEL is "dev".
  pub get_my_version_string : Bytes
  unfolding make_version_string major minor build
  get_my_version_string =
      make_version_string (major my_version) (minor my_version) (build my_version) (codes "dev")
