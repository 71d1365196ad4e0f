-- ===== src/Audit/QuotaTests.antt =====
-- Witnesses of the theorems on the quota: two archives and a limit that one of them exceeds.
use xmesh.Common.{◌≡◌, refl, true, false, none, some, [], ◌∷◌, ◌++◌, List, arith, Result, ok}
use xmesh.Audit.Quota.{
  StoreError, Archive, Answers, Dir, Round, packed, prune_loop, prune, rotate, insert_archive,
  append_event, append_events, append, enforce, valid_user, all_user_chars,
}
use xmesh.Audit.Limits.{Within, Lost, append-Within, enforce-Within, prune-Lost, prune-succeeds}

abbrev older : Archive
older = record { name = "archive-1"; size = 500 }

abbrev newer : Archive
newer = record { name = "archive-2"; size = 300 }

abbrev dir : Dir
dir = record { archives = older ∷ newer ∷ []; current = some 900 }

abbrev round : Round
round = record {
  encoded = true;
  stat_fails = false;
  line = 200;
  rotation = packed (record { name = "archive-3"; size = 100 });
  written = true;
  left = none;
}

-- An answer for every file.
abbrev works : Answers
works = record { listed = true; removes = λ a. true }

abbrev appended : Dir × Result StoreError (Unit {0})
appended = append 1000 "user" true works (round ∷ []) works dir

appended-ok : appended ≡ (appended.0, ok tt)
unfolding append valid_user all_user_chars prune prune_loop append_events append_event rotate
    insert_archive
appended-ok = refl

append-Within_example : Within 1000 appended.0
append-Within_example =
    append-Within 1000 "user" true works works round [] dir appended.0 appended-ok

abbrev enforced : Dir × Result StoreError (Unit {0})
enforced = enforce 450 "user" false (packed (record { name = "archive-3"; size = 100 })) works dir

enforced-ok : enforced ≡ (enforced.0, ok tt)
unfolding enforce valid_user all_user_chars prune prune_loop rotate insert_archive
enforced-ok = refl

enforce-Within_example : Within 450 enforced.0
enforce-Within_example =
    enforce-Within 450 "user" false (packed (record { name = "archive-3"; size = 100 })) works dir
      enforced.0 enforced-ok

prune-Lost_example :
    ((prune 1000 works dir).0.current ≡ some 900)
    × (gone : List Archive) × ((older ∷ newer ∷ []) ≡ gone ++ (prune 1000 works dir).0.archives)
    × Lost 1000 900 gone (prune 1000 works dir).0.archives
prune-Lost_example = prune-Lost 1000 works dir

prune-succeeds_example : (prune 1000 works dir).1 ≡ ok tt
prune-succeeds_example = prune-succeeds 1000 works dir refl (refl, (refl, tt)) (omega arith)
