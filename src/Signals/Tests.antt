-- ===== src/Signals/Tests.antt =====
-- The signals that the parent sends.
use technosphere.Common.{◌≡◌, ◌≤◌, ◌<◌, refl, true, none, some}
use technosphere.Signals.{
  child, deliver_all, parent, count_usr2, not_term, waiting, action_after, deliver_all-child,
}

-- The child ends at the second SIGUSR2, and the third goes to no process.
parent_run : deliver_all true parent child ≡ none
unfolding deliver_all child
parent_run = refl

deliver_all-child_example :
    ((count_usr2 parent < 2)
      → deliver_all true parent child
        ≡ some (waiting (action_after (count_usr2 parent)) (not_term parent)))
    × ((2 ≤ count_usr2 parent) → deliver_all true parent child ≡ none)
deliver_all-child_example = deliver_all-child true parent
