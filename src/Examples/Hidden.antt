-- ===== src/Examples/Hidden.antt =====
-- A task that a rootkit has taken out of the kernel's list.
use alcatraz.Prelude.{ℕ, List, [], ◌∷◌, Option, none}
use alcatraz.Monitor.Tree.{Tree}
use alcatraz.Monitor.Manager.{Task}
use alcatraz.Monitor.Callback.{Monitor}
use alcatraz.Examples.Tasks.{leader}

-- The worker is in the tree, but the kernel lists its leader only.
abbrev listed : List Task
listed = leader ∷ []

abbrev stops : Tree → ℕ → Option ℕ
stops t n = none
