-- ===== src/Mem/Setup/Resources/Tests.antt =====
-- A party that attaches at its first call, in a process that has something else open.
use gaia_net.Base.{[], ◌∷◌}
use gaia_net.Mem.Setup.Resources.{Process, construct, calls, destruct}
use gaia_net.Mem.Setup.Resources.Restored.{Same, destruct-Same}

abbrev busy : Process
busy = record { mapped = 3 ∷ []; fds = 3 ∷ 1 ∷ []; fresh = 4 }

destruct-Same_example :
    Same busy (destruct 12 1 (calls 2 (construct 12 1 busy)).0 (calls 2 (construct 12 1 busy)).1)
destruct-Same_example = destruct-Same 12 1 2 busy
