-- ===== src/Heal/Terminating.antt =====
-- FixTerminatingPods of pkg/controller/heal/terminatingpod.go. Times are seconds.
use k8s_cluster.Base.{
  Bool, List, [], false, if◌then◌else◌, ltb, none, not, some, true, ℕ, ◌&&◌, ◌+◌, ◌==◌, ◌∷◌,
}
use k8s_cluster.Admin.{Command, Log, Oracle, send}
use k8s_cluster.Heal.Split.{Healed}
use k8s_cluster.Heal.Forget.{Pod, untouched}

-- The pod has waited for its deletion for longer than `max_duration`.
unfoldable pub is_overdue : ℕ → ℕ → Pod → Bool
is_overdue now max_duration pod = elim pod.deletion_timestamp [
  | none ↦ false
  | some t ↦ ltb (t + max_duration) now
]

unfoldable pub terminating_loop : Oracle → Bool → ℕ → ℕ → List Pod → Healed → Healed
unfolding is_overdue
terminating_loop o dry_run now max_duration [] st = st
terminating_loop o dry_run now max_duration (pod ∷ pods) st =
    let (success, log) = send o (Command.delete_pod pod.name) st.log in
    terminating_loop o dry_run now max_duration pods (
      if not (is_overdue now max_duration pod)
      then st
      else if dry_run
      then record st { acted = true }
      else record { acted = true; log = log; fine = st.fine && success })

unfoldable pub fix_terminating_pods : Oracle → Bool → ℕ → List Pod → ℕ → Log → Healed
unfolding terminating_loop
fix_terminating_pods o dry_run now pods max_duration log =
    if max_duration == 0
    then untouched log
    else terminating_loop o dry_run now max_duration pods (untouched log)
