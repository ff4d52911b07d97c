-- ===== src/Platform.antt =====
-- api/platform.hpp: the system and the processor that the compiler's macros name. A Boolean says
-- whether one of the macros of a test is defined.
use julelang.Prelude.{Bool, true, false, Option, none, some, if◌then◌else◌}

pub data Os : Type 0 where
  windows : Os
  linux : Os
  darwin : Os

pub data Arch : Type 0 where
  amd64 : Arch
  arm : Arch
  arm64 : Arch
  i386 : Arch

-- OS_WINDOWS, OS_LINUX and OS_DARWIN.
pub os : Bool → Bool → Bool → Option Os
os win linux_ apple =
    if win then some windows else if linux_ then some linux else if apple then some darwin else none

-- OS_UNIX.
pub is_unix : Option Os → Bool
is_unix none = false
is_unix (some windows) = false
is_unix (some linux) = true
is_unix (some darwin) = true

-- ARCH_AMD64, ARCH_ARM, ARCH_ARM64 and ARCH_I386.
pub arch : Bool → Bool → Bool → Bool → Option Arch
arch amd arm_ aarch64 intel =
    if amd
    then some amd64
    else if arm_
    then some arm
    else if aarch64
    then some arm64
    else if intel
    then some i386
    else none

-- ARCH_64BIT; ARCH_32BIT where it is not defined.
pub is_64bit : Option Arch → Bool
is_64bit none = false
is_64bit (some amd64) = true
is_64bit (some arm) = false
is_64bit (some arm64) = true
is_64bit (some i386) = false
