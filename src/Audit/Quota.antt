-- ===== src/Audit/Quota.antt =====
-- internal/audit/store.go: the size of a user's stored events. A directory is what `files` lists of
-- it: the archives in the order of their names, and the size of current.jsonl, whose name comes after
-- theirs. What the file system answers is in the parameters. The limit is not negative.
use xmesh.Common.{
  ℕ, ◌+◌, ◌-◌, ◌*◌, ◌%◌, ◌^◌, Bool, true, false, ◌&&◌, ◌||◌, not, Option, none, some, List, [], ◌∷◌,
  String, length, ltb, leb, ◌==◌, if◌then◌else◌, Result, ok, err, refuse_if,
}
use Prim.Native.Char.{code}
use Prim.Native.String.{len}
use xmesh.Common.Int.{ℤ, pos, negsuc}
use xmesh.Common.Texts.{str_lt}
use xmesh.Controller.Releases.{is_alphanumeric}

abbrev pub segment_bytes : ℕ
segment_bytes = 2 ^ 20

abbrev pub max_archives : ℕ
max_archives = 64

-- The int64 with these bits.
abbrev pub to_int64 : ℕ → ℤ
to_int64 n =
    let bits = n % 2 ^ 64 in if ltb bits (2 ^ 63) then pos bits else negsuc (2 ^ 64 - 1 - bits)

-- `LimitBytes`
abbrev pub limit_bytes : ℤ → ℤ
limit_bytes (pos mb) = if mb == 0 then pos (20 * 1_000_000) else to_int64 (mb * 1_000_000)
limit_bytes (negsuc n) = pos (20 * 1_000_000)

pub data StoreError : Type 0 where
  invalid_user not_encoded io_failed event_too_large quota_exceeded : StoreError

unfoldable pub all_user_chars : String → Bool
all_user_chars String.[] = true
all_user_chars (String.◌∷◌ c s) =
    (is_alphanumeric (code c) || code c == b'_' || code c == b'-') && all_user_chars s

-- The test of `userDir`.
unfoldable pub valid_user : String → Bool
unfolding all_user_chars
valid_user user = not (len user == 0) && not (ltb 128 (len user)) && all_user_chars user

pub record Archive : Type 0 where
  pub name : String
  pub size : ℕ

pub record Dir : Type 0 where
  pub archives : List Archive
  pub current : Option ℕ

abbrev pub current_size : Option ℕ → ℕ
current_size none = 0
current_size (some n) = n

abbrev pub total_size : List Archive → ℕ
total_size [] = 0
total_size (a ∷ older) = a.size + total_size older

-- The loop of `prune` over the archives, with the total, and with whether a removal succeeds: what is
-- left, the total of it, and whether every removal has succeeded.
unfoldable pub prune_loop : ℕ → (Archive → Bool) → List Archive → ℕ → List Archive × ℕ × Bool
prune_loop limit removes [] total = ([], total, true)
prune_loop limit removes (a ∷ older) total =
    let next = prune_loop limit removes older (total - a.size) in
    if leb total limit && leb (length (a ∷ older)) max_archives
    then (a ∷ older, total, true)
    else if not (removes a)
    then (a ∷ older, total, false)
    else next

-- What the file system answers to `prune`: whether `files` can list the directory, with the size of
-- every file, and whether an archive can be removed.
pub record Answers : Type 0 where
  pub listed : Bool
  pub removes : Archive → Bool

-- `prune`: the directory, and the error.
unfoldable pub prune : ℕ → Answers → Dir → Dir × Result StoreError (Unit {0})
unfolding prune_loop
prune limit answers dir =
    let left =
      prune_loop limit answers.removes dir.archives
        (total_size dir.archives + current_size dir.current) in
    if not answers.listed then (dir, err io_failed) else (
      record dir { archives = left.0 },
      if not left.2 then err io_failed else refuse_if (ltb limit left.1) quota_exceeded,
    )

-- The archives in the order of their names.
unfoldable pub insert_archive : Archive → List Archive → List Archive
insert_archive a [] = a ∷ []
insert_archive a (b ∷ bs) = if str_lt b.name a.name then b ∷ insert_archive a bs else a ∷ b ∷ bs

-- How a rotation ends: nothing is renamed, or the archive is there and current.jsonl stays or goes.
pub data Rotation : Type 0 where
  not_renamed : Rotation
  not_removed packed : Archive → Rotation

-- `rotate`
unfoldable pub rotate : Rotation → Dir → Dir × Result StoreError (Unit {0})
unfolding insert_archive
rotate not_renamed dir = (dir, err io_failed)
rotate (not_removed a) dir =
    (record dir { archives = insert_archive a dir.archives }, err io_failed)
rotate (packed a) dir = (record { archives = insert_archive a dir.archives; current = none }, ok tt)

-- What json.Marshal and the file system answer in one round of the loop of `Append`: `line` is the
-- length of the encoded event with its newline, and `left` the size of current.jsonl after a write
-- that fails.
pub record Round : Type 0 where
  pub encoded : Bool
  pub stat_fails : Bool
  pub line : ℕ
  pub rotation : Rotation
  pub written : Bool
  pub left : Option ℕ

abbrev threshold : ℕ → ℕ
threshold limit = if ltb limit segment_bytes then limit else segment_bytes

-- A line is appended to current.jsonl.
abbrev pub append_line : Round → Dir → Dir × Result StoreError (Unit {0})
append_line round dir =
    if round.written
    then (record dir { current = some (current_size dir.current + round.line) }, ok tt)
    else (record dir { current = round.left }, err io_failed)

-- One round: an event of some length, the rotation of a full segment, and the write.
unfoldable pub append_event : ℕ → Round → Dir → Dir × Result StoreError (Unit {0})
unfolding rotate
append_event limit round dir =
    if not round.encoded
    then (dir, err not_encoded)
    else if ltb (16 * 2 ^ 10) round.line
    then (dir, err event_too_large)
    else if round.stat_fails
    then (dir, err io_failed)
    else if not (current_size dir.current == 0)
        && ltb (threshold limit) (current_size dir.current + round.line)
    then (let turned = rotate round.rotation dir in
        elim turned.1 [ err e ↦ (turned.0, err e) | ok _ ↦ append_line round turned.0 ])
    else append_line round dir

unfoldable pub append_events : ℕ → List Round → Dir → Dir × Result StoreError (Unit {0})
unfolding append_event
append_events limit [] dir = (dir, ok tt)
append_events limit (round ∷ rounds) dir =
    let one = append_event limit round dir in
    elim one.1 [ err e ↦ (one.0, err e) | ok _ ↦ append_events limit rounds one.0 ]

-- What `Append` does to the directory of a user, with the events that there are and whether the
-- directory can be made; the counts of the window are left out.
unfoldable pub append :
    ℕ → String → Bool → Answers → List Round → Answers → Dir → Dir × Result StoreError (Unit {0})
unfolding prune append_events valid_user
append limit user made before rounds after dir =
    if not (valid_user user)
    then (dir, err invalid_user)
    else if length rounds == 0
    then (dir, ok tt)
    else if not made
    then (dir, err io_failed)
    else (let first = prune limit before dir in
        elim first.1 [
          | err e ↦ (first.0, err e)
          | ok _ ↦
              (let second = append_events limit rounds first.0 in
                elim second.1 [ err e ↦ (second.0, err e) | ok _ ↦ prune limit after second.0 ])
        ])

-- `Enforce`, where reading the size of current.jsonl may fail.
unfoldable pub enforce :
    ℕ → String → Bool → Rotation → Answers → Dir → Dir × Result StoreError (Unit {0})
unfolding prune rotate valid_user
enforce limit user stat_fails rotation answers dir =
    if not (valid_user user)
    then (dir, err invalid_user)
    else if stat_fails
    then (dir, err io_failed)
    else if ltb limit (current_size dir.current)
    then (let turned = rotate rotation dir in
        elim turned.1 [ err e ↦ (turned.0, err e) | ok _ ↦ prune limit answers turned.0 ])
    else prune limit answers dir
