-- ===== src/Idle/Invariant/System.antt =====
-- The child process of the system-wide inhibitor.
use axctl_c.Prelude.{ℕ, ◌<◌, ◌≡◌, ◌⊎◌, Bool, true, false, Option, none, some, arith}
use axctl_c.Idle.State.{Manager}
use axctl_c.Idle.System.{inhibit_system}
use axctl_c.Idle.Calls.{pid_of}

-- There is a child exactly while the system is inhibited.
abbrev pub SystemInv : Manager → Type 0
SystemInv im =
    ((im.system_inhibited ≡ true) × (0 < im.system_inhibit_pid))
    ⊎ ((im.system_inhibited ≡ false) × (im.system_inhibit_pid ≡ 0))

pub inhibit_system-SystemInv :
    (fork : Option ℕ) (im : Manager) (on : Bool)
    → SystemInv im
    → SystemInv (inhibit_system (pid_of fork) im on).state
unfolding inhibit_system
inhibit_system-SystemInv none im on v = ground arith
inhibit_system-SystemInv (some n) im on v = ground arith
