-- ===== src/Controller/Upgrades/HistoryTests.antt =====
-- Witness of the invariant of the tasks: one task is cancelled, and the batches are looked at again.
use xmesh.Common.{◌≡◌, refl, ◌∙◌, sym, ap, none, [], ◌∷◌, Result, ok, err}
use xmesh.Common.Dict
use xmesh.Common.Dict.{get-single}
use xmesh.Model.{State, new_state, UpgradeTask}
use xmesh.Model.Upgrades.{pending}
use xmesh.Controller.Upgrades.{Error, cancel_tasks, cancel_upgrade}
use xmesh.Controller.Upgrades.Stages.{zero_task}
use xmesh.Controller.Upgrades.Recovery.{reconcile_upgrade_recovery}
use xmesh.Controller.Upgrades.OneActive.{HasOneActive}
use xmesh.Controller.Upgrades.Histories.{
  Setting, cancels, reconciles, here, more, History-HasOneActive,
}
use xmesh.Controller.Upgrades.PairTests.{hashing}

abbrev setting : Setting
setting = record {
  settings = record { offline_after_seconds = 45; itoa = λ n. "45" };
  releases = record { release_dir = ""; version = ""; base_url = none; scan_version = λ s. none };
  encodings = record { decode_hex = λ s. none; to_lower = λ s. s };
  hashing = hashing;
}

abbrev waiting : UpgradeTask
waiting = record zero_task { id = "t"; node_id = "gw"; stage = pending }

abbrev start : State
start = record new_state { upgrade_tasks = ("t", waiting) ∷ [] }

start-HasOneActive : HasOneActive start.upgrade_tasks
unfolding Dict.get
start-HasOneActive = record {
  distinct = (refl, tt);
  keyed = λ k a e.
      let same = get-single "t" k waiting a e in
      sym (ap (λ (x : UpgradeTask). x.id) same.1) ∙ same.0;
  one = λ j k a b e f active other same.
      sym (get-single "t" j waiting a e).0 ∙ (get-single "t" k waiting b f).0;
}

abbrev outcome : Result Error State → State
outcome (ok t) = t
outcome (err e) = new_state

abbrev cancelled : Result Error State
cancelled = cancel_upgrade start "t" 7

cancelled-ok : cancelled ≡ ok (outcome cancelled)
unfolding cancel_upgrade cancel_tasks Dict.get Dict.put
cancelled-ok = refl

abbrev settled : State
settled = reconcile_upgrade_recovery setting.settings (outcome cancelled) 9

History-HasOneActive_example : HasOneActive settled.upgrade_tasks
History-HasOneActive_example =
    History-HasOneActive setting start settled start-HasOneActive
      (more (more here (cancels "t" 7 (outcome cancelled) cancelled-ok)) (reconciles 9))
