-- ===== src/Version/Build.antt =====
-- The build number that src/common/Version.h reads from a version.
use p2pnet.Base.{ℕ, ◌+◌, ◌*◌, ◌%◌, ◌≡◌, arith}
use mathlib.Core.Logic.{◌↔◌}
use p2pnet.Version.{major, minor, build}

-- Of a version number mamibild the first two numbers are the major and the minor one, but the build
-- number is the last four digits only if the minor number is 0: it is 9000 too large for each minor
-- version.
pub build_exact_iff :
    (version : ℕ)
    → (version ≡ major version * 1000000 + minor version * 10000 + version % 10000)
      × (build version ≡ version % 10000 + 9000 * minor version)
      × ((build version ≡ version % 10000) ↔ (minor version ≡ 0))
unfolding major minor build
build_exact_iff version = (omega arith, omega arith, ground arith)
