-- ===== src/Idle/System.antt =====
-- src/server/idle.c: the inhibitor of the whole system, a child process.
use axctl_c.Prelude.{
  ℕ, Bool, true, false, List, [], ◌∷◌, Option, none, some, ltb, if◌then◌else◌, same_flag,
}
use axctl_c.Idle.State.{Manager}

-- What an operation does to child processes: `spawn` is a fork that succeeds, `reap` is SIGTERM and
-- `waitpid`.
pub data Process : Type 0 where
  spawn : ℕ → Process
  reap : ℕ → Process

pub record SystemOutcome : Type 0 where
  pub state : Manager
  pub processes : List Process
  pub result : Option (Unit {0})

-- The last branch: the child ends, if there is one.
release_system : Manager → SystemOutcome
release_system im =
    if ltb 0 im.system_inhibit_pid
    then record {
      state = record im { system_inhibit_pid = 0; system_inhibited = false };
      processes = reap im.system_inhibit_pid ∷ [];
      result = some tt;
    }
    else record { state = record im { system_inhibited = false }; processes = []; result = some tt }

-- `fork` answers the pid of the child in the parent, or none for a failure.
take_system : Option ℕ → Manager → SystemOutcome
take_system none im = record { state = im; processes = []; result = none }
take_system (some pid) im = record {
  state = record im { system_inhibit_pid = pid; system_inhibited = true };
  processes = spawn pid ∷ [];
  result = some tt;
}

unfoldable pub inhibit_system : Option ℕ → Manager → Bool → SystemOutcome
unfolding same_flag release_system take_system
inhibit_system fork im on =
    if same_flag im.system_inhibited on
    then record { state = im; processes = []; result = some tt }
    else if on
    then take_system fork im
    else release_system im

unfoldable pub is_system_inhibited : Manager → Bool
is_system_inhibited im = im.system_inhibited
