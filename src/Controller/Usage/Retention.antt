-- ===== src/Controller/Usage/Retention.antt =====
-- `pruneUsageHistory` keeps the last thirty days.
use xmesh.Common.{
  ℕ, ◌≤◌, ◌≡◌, refl, ap, sym, subst, ◌∙◌, inl, inr, false, not, Bool-cases, Option, none, some,
  List, [], ◌∷◌, All, keep, String, str_eq, eq_iff, if◌then◌else◌, arith,
}
use xmesh.Common.Dict
use xmesh.Common.Dict.{Dict, get-put, get-remove}
use xmesh.Model.{State, UsageBucket}
use xmesh.Controller.Usage.{is_old, drop_old, prune_key, prune_keys, prune_usage_history}

-- Buckets in the order of their times.
abbrev pub IsSorted : List UsageBucket → Type 0
IsSorted [] = Unit {0}
IsSorted (b ∷ bs) = All (λ c. b.at ≤ c.at) bs × IsSorted bs

abbrev pub recent : ℕ → List UsageBucket → List UsageBucket
recent now = keep λ b. not (is_old now b)

keep_lem :
    (now : ℕ) (b : UsageBucket) (bs : List UsageBucket)
    → is_old now b ≡ false
    → All (λ c. b.at ≤ c.at) bs
    → recent now bs ≡ bs
keep_lem now b [] e h = refl
keep_lem now b (c ∷ bs) e h = ground (arith, keep_lem now b bs e h.1)

drop_old-recent : (now : ℕ) (bs : List UsageBucket) → IsSorted bs → drop_old now bs ≡ recent now bs
unfolding drop_old
drop_old-recent now [] h = refl
drop_old-recent now (b ∷ bs) h = elim (Bool-cases (is_old now b)) [
  | inl old ↦ rw old (drop_old-recent now bs h.1)
  | inr new ↦ rw new (ap (λ l. b ∷ l) (sym (keep_lem now b bs new h.0)))
]

-- No key twice, and every history sorted.
abbrev pub IsHistory : Dict (List UsageBucket) → Type 0
IsHistory [] = Unit {0}
IsHistory ((k, bs) ∷ d) = (Dict.get d k ≡ none) × IsSorted bs × IsHistory d

-- A list where it is not empty.
abbrev pub if_any : List UsageBucket → Option (List UsageBucket)
if_any [] = none
if_any (b ∷ bs) = some (b ∷ bs)

prune_key-get :
    (now : ℕ) (k j : String) (bs : List UsageBucket) (s : State)
    → Dict.get (prune_key now k bs s).usage_history j
      ≡ (if str_eq k j then if_any (drop_old now bs) else Dict.get s.usage_history j)
unfolding prune_key
prune_key-get now k j bs s = go (drop_old now bs) refl
  where
    go :
        (l : List UsageBucket)
        → drop_old now bs ≡ l
        → Dict.get (prune_key now k bs s).usage_history j
          ≡ (if str_eq k j then if_any (drop_old now bs) else Dict.get s.usage_history j)
    go [] e = rw (e, prune_key) (get-remove s.usage_history k j)
    go (b ∷ l) e = rw (e, prune_key) (get-put s.usage_history k j (b ∷ l))

abbrev pruned :
    ℕ → Option (List UsageBucket) → Option (List UsageBucket) → Option (List UsageBucket)
pruned now none other = other
pruned now (some bs) other = if_any (recent now bs)

prune_keys-get :
    (now : ℕ) (d : Dict (List UsageBucket)) (s : State) (j : String)
    → IsHistory d
    → Dict.get (prune_keys now d s).usage_history j
      ≡ pruned now (Dict.get d j) (Dict.get s.usage_history j)
unfolding prune_keys Dict.get
prune_keys-get now [] s j h = refl
prune_keys-get now ((k, bs) ∷ d) s j h = elim (Bool-cases (str_eq k j)) [
  | inl same ↦
      let e : k ≡ j = (eq_iff k j).0 same in
      prune_keys-get now d (prune_key now k bs s) j h.2
      ∙ rw same (
          rw (subst (λ (x : String). Dict.get d x ≡ none) e h.0)
            (prune_key-get now k j bs s ∙ rw same (ap if_any (drop_old-recent now bs h.1))))
  | inr other ↦
      prune_keys-get now d (prune_key now k bs s) j h.2
      ∙ rw other (ap (pruned now (Dict.get d j)) (prune_key-get now k j bs s ∙ rw other))
]

-- Pruning a history whose keys are distinct and whose buckets are sorted keeps, under every key,
-- exactly the buckets that are not older than thirty days, and deletes the key where there is none.
pub prune_usage_history-recent :
    (s : State) (now : ℕ) (key : String)
    → IsHistory s.usage_history
    → Dict.get (prune_usage_history s now).usage_history key
      ≡ elim (Dict.get s.usage_history key) [ none ↦ none | some bs ↦ if_any (recent now bs) ]
unfolding prune_usage_history
prune_usage_history-recent s now key h =
    prune_keys-get now s.usage_history s key h ∙ same (Dict.get s.usage_history key) refl
  where
    same :
        (o : Option (List UsageBucket))
        → Dict.get s.usage_history key ≡ o
        → pruned now o (Dict.get s.usage_history key)
          ≡ elim o [ none ↦ none | some bs ↦ if_any (recent now bs) ]
    same none e = e
    same (some bs) e = refl
