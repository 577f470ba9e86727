-- ===== src/Monitor/TaskList/Laws.antt =====
-- What the search for hidden tasks drops, and that it ends.
use mathlib.Core.Option
use alcatraz.Prelude.{ℕ, ◌≡◌, ◌⊎◌, List, Option, none, some, true, false}
use alcatraz.Monitor.Tree.{Tree, RbLib, inorder}
use alcatraz.Monitor.Manager.{Task, key_of}
use alcatraz.Monitor.Manager.View.{Inv, tracked}
use alcatraz.Monitor.Callback.{Monitor}
use alcatraz.Monitor.Callback.Kill.{elem}
use alcatraz.Monitor.TaskList.{is_in_task_list, first_hidden, drop_hidden_tasks}

module _ (rb : RbLib) (next_erased : Tree → ℕ → Option ℕ) (ts : List Task) where
  -- What may have become of the entry of the task `k`: it is as it was, or the task was hidden, has
  -- been killed, and is not known any more.
  abbrev pub Checked : Monitor → Monitor → ℕ → Type 0
  Checked s s' k =
      (tracked s'.manager k ≡ tracked s.manager k)
      ⊎ ((tracked s'.manager k ≡ none) × (is_in_task_list ts k ≡ false) × (elem k s'.killed ≡ true))

  abbrev Dropped : ℕ → Monitor → List ℕ → Type 0
  Dropped fuel s ns =
      (s' : Monitor) × (drop_hidden_tasks rb next_erased ts fuel s ns ≡ some s')
      × Inv s'.manager
      × ((k : ℕ) → Checked s s' k)
      × ((k : ℕ) → elem k s.killed ≡ true → elem k s'.killed ≡ true)
      × ((n : ℕ)
          → first_hidden ts s.manager.pool ns ≡ some n
          → tracked s'.manager (key_of s.manager n) ≡ none)

  module _ (s : Monitor) (v : Inv s.manager) where
    abbrev in_order : List ℕ
    in_order = inorder s.manager.tree
