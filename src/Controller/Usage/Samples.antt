-- ===== src/Controller/Usage/Samples.antt =====
-- A Link's traffic in the history against the counters that its Gateway reports.
use xmesh.Common.{
  ℕ, ◌+◌, ◌-◌, ◌^◌, ◌≤◌, ◌<◌, ◌≡◌, ◌≢◌, refl, sym, subst, ◌∙◌, ◌⊎◌, inl, inr, ◌&&◌, Bool-cases,
  Option, none, some, List, [], ◌∷◌, String, eq_iff, eq_refl, ◌==◌, Result, ok, ◌>>=◌, arith,
}
use xmesh.Common.Dict
use xmesh.Common.Dict.{Dict, get_or, get-put}
use xmesh.Model.{State, GrantLinkUsage, UsageBucket, UsageCounter}
use xmesh.Controller.Usage.{
  Error, join_key, delta, add_traffic, account, sample_link, sample_grant_usage_for, truncate,
  history_interval,
}

-- The bytes of a list of buckets, in one of the two directions.
abbrev pub sum_of : (UsageBucket → ℕ) → List UsageBucket → ℕ
sum_of f [] = 0
sum_of f (b ∷ bs) = f b + sum_of f bs

abbrev pub buckets_of : State → String → List UsageBucket
buckets_of s key = get_or (Dict.get s.usage_history key) []

abbrev pub uploaded : State → String → ℕ
uploaded s key = sum_of (λ b. b.upload_bytes) (buckets_of s key)

abbrev pub downloaded : State → String → ℕ
downloaded s key = sum_of (λ b. b.download_bytes) (buckets_of s key)

add_traffic-sum :
    (bs : List UsageBucket) (at up down : ℕ)
    → sum_of (λ b. b.upload_bytes) bs + up < 2 ^ 64
    → sum_of (λ b. b.download_bytes) bs + down < 2 ^ 64
    → (sum_of (λ b. b.upload_bytes) (add_traffic bs at up down)
        ≡ sum_of (λ b. b.upload_bytes) bs + up)
      × (sum_of (λ b. b.download_bytes) (add_traffic bs at up down)
          ≡ sum_of (λ b. b.download_bytes) bs + down)
unfolding add_traffic
add_traffic-sum [] at up down h k = omega arith
add_traffic-sum (b ∷ []) at up down h k = ground arith
add_traffic-sum (b ∷ c ∷ bs) at up down h k =
    let ih = add_traffic-sum (c ∷ bs) at up down (omega arith) (omega arith) in omega (arith, ih)

delta-same :
    (p : UsageCounter) (instance_id : String) (l : GrantLinkUsage)
    → p.instance_id ≡ instance_id
    → p.upload_bytes ≤ l.upload_bytes
    → p.download_bytes ≤ l.download_bytes
    → delta (some p) instance_id l
      ≡ some (l.upload_bytes - p.upload_bytes, l.download_bytes - p.download_bytes)
unfolding delta
delta-same p instance_id l e h k = ground (arith, eq_iff p.instance_id instance_id)

delta-other :
    (p : UsageCounter) (instance_id : String) (l : GrantLinkUsage)
    → p.instance_id ≢ instance_id
    → delta (some p) instance_id l ≡ some (l.upload_bytes, l.download_bytes)
unfolding delta
delta-other p instance_id l ne = ground (arith, eq_iff p.instance_id instance_id)

module _ (instance_id grant_id user_id : String) (names : Dict String) where
  abbrev counter_of : State → String → Option UsageCounter
  counter_of s link = Dict.get s.usage_counters (join_key grant_id link)

  abbrev reported : GrantLinkUsage → UsageCounter
  reported l = record {
    instance_id = instance_id;
    upload_bytes = l.upload_bytes;
    download_bytes = l.download_bytes;
  }

  -- What a report that adds (up, down) does: it is remembered, and the traffic is recorded.
  record Adds (s t : State) (l : GrantLinkUsage) (up down : ℕ) : Type 0 where
    counter : counter_of t l.link_id ≡ some (reported l)
    up_eq : uploaded t (join_key user_id l.link_id) ≡ uploaded s (join_key user_id l.link_id) + up
    down_eq :
        downloaded t (join_key user_id l.link_id) ≡ downloaded s (join_key user_id l.link_id) + down

  account-Adds :
      (s : State) (name : String) (now : ℕ) (l : GrantLinkUsage) (up down : ℕ)
      → counter_of s l.link_id ≡ some (reported l)
      → uploaded s (join_key user_id l.link_id) + up < 2 ^ 64
      → downloaded s (join_key user_id l.link_id) + down < 2 ^ 64
      → Adds s (account s (join_key user_id l.link_id) name now (up, down)) l up down
  unfolding account
  account-Adds s name now l up down c h k =
      let key = join_key user_id l.link_id in
      let added = add_traffic (buckets_of s key) (truncate now history_interval) up down in
      let sums = add_traffic-sum (buckets_of s key) (truncate now history_interval) up down h k in
      let there : Dict.get (Dict.put s.usage_history key added) key ≡ some added =
        get-put s.usage_history key key added ∙ rw eq_refl in
      record { counter = c; up_eq = rw there sums.0; down_eq = rw there sums.1 }

  sample_link-Adds :
      (s : State) (name : String) (now : ℕ) (l : GrantLinkUsage) (up down : ℕ)
      → Dict.get names l.link_id ≡ some name
      → delta (counter_of s l.link_id) instance_id l ≡ some (up, down)
      → uploaded s (join_key user_id l.link_id) + up < 2 ^ 64
      → downloaded s (join_key user_id l.link_id) + down < 2 ^ 64
      → (t : State) × (sample_link s instance_id grant_id user_id names now l ≡ ok t)
        × Adds s t l up down
  unfolding sample_link
  sample_link-Adds s name now l up down named d h k =
      let counted : State = record s {
        usage_counters = Dict.put s.usage_counters (join_key grant_id l.link_id) (reported l);
      } in
      let remembered : counter_of counted l.link_id ≡ some (reported l) =
        get-put s.usage_counters (join_key grant_id l.link_id) (join_key grant_id l.link_id)
          (reported l)
        ∙ rw eq_refl in
      elim (Bool-cases (up == 0 && (down == 0))) [
        | inl idle ↦ (
          counted,
          rw (named, sample_link) (rw (d, sample_link) (rw idle)),
          record { counter = remembered; up_eq = ground arith; down_eq = ground arith },
        )
        | inr busy ↦ (
          account counted (join_key user_id l.link_id) name now (up, down),
          rw (named, sample_link) (rw (d, sample_link) (rw busy)),
          (let a = account-Adds counted name now l up down remembered h k in
              record { counter = a.counter; up_eq = a.up_eq; down_eq = a.down_eq }),
        )
      ]

  -- Successive reports of one Link's counters by one Gateway process, each with its time.
  abbrev pub Reports : Type 0
  Reports = List (ℕ × GrantLinkUsage)

  abbrev pub sample_reports : State → Reports → Result Error State
  sample_reports s [] = ok s
  sample_reports s ((now, l) ∷ rs) =
      sample_grant_usage_for s instance_id grant_id user_id names now (l ∷ []) >>= λ t.
      sample_reports t rs

  -- The reports are of this Link, and its counters do not fall.
  abbrev pub Rising : String → ℕ → ℕ → Reports → Type 0
  Rising link up down [] = Unit {0}
  Rising link up down ((now, l) ∷ rs) =
      (l.link_id ≡ link)
      × (up ≤ l.upload_bytes)
      × (down ≤ l.download_bytes)
      × Rising link l.upload_bytes l.download_bytes rs

  abbrev pub last_up : ℕ → Reports → ℕ
  last_up up [] = up
  last_up up ((now, l) ∷ rs) = last_up l.upload_bytes rs

  abbrev pub last_down : ℕ → Reports → ℕ
  last_down down [] = down
  last_down down ((now, l) ∷ rs) = last_down l.download_bytes rs

  le-last :
      (link : String) (up down : ℕ) (rs : Reports)
      → Rising link up down rs
      → (up ≤ last_up up rs) × (down ≤ last_down down rs)
  le-last link up down [] h = omega arith
  le-last link up down ((now, l) ∷ rs) h =
      omega (arith, le-last link l.upload_bytes l.download_bytes rs h.3)

  -- The history has grown by the traffic between the counters (up, down) and the last report's.
  pub record Grown (s : State) (link : String) (up down : ℕ) (r : Result Error State) : Type 0 where
    pub state : State
    pub sampled : r ≡ ok state
    pub up_grown : uploaded state (join_key user_id link) ≡ uploaded s (join_key user_id link) + up
    pub down_grown :
        downloaded state (join_key user_id link) ≡ downloaded s (join_key user_id link) + down

  single :
      (s t : State) (now : ℕ) (l : GrantLinkUsage) (rs : Reports)
      → sample_link s instance_id grant_id user_id names now l ≡ ok t
      → sample_reports s ((now, l) ∷ rs) ≡ sample_reports t rs
  unfolding sample_grant_usage_for
  single s t now l rs e = rw e

  -- One report and then the others.
  Grown-next :
      (s t : State) (now : ℕ) (l : GrantLinkUsage) (link : String)
      (up down up' down' all_up all_down : ℕ) (rs : Reports)
      → sample_link s instance_id grant_id user_id names now l ≡ ok t
      → uploaded t (join_key user_id link) ≡ uploaded s (join_key user_id link) + up
      → downloaded t (join_key user_id link) ≡ downloaded s (join_key user_id link) + down
      → Grown t link up' down' (sample_reports t rs)
      → all_up ≡ up + up'
      → all_down ≡ down + down'
      → Grown s link all_up all_down (sample_reports s ((now, l) ∷ rs))
  Grown-next s t now l link up down up' down' all_up all_down rs e eu ed g au ad = record {
    state = g.state;
    sampled = single s t now l rs e ∙ g.sampled;
    up_grown = omega (arith, g.up_grown);
    down_grown = omega (arith, g.down_grown);
  }

  sample_reports-Grown :
      (s : State) (link name : String) (p : UsageCounter) (rs : Reports)
      → Dict.get names link ≡ some name
      → counter_of s link ≡ some p
      → p.instance_id ≡ instance_id
      → Rising link p.upload_bytes p.download_bytes rs
      → uploaded s (join_key user_id link) + (last_up p.upload_bytes rs - p.upload_bytes) < 2 ^ 64
      → downloaded s (join_key user_id link) + (last_down p.download_bytes rs - p.download_bytes)
        < 2 ^ 64
      → Grown s link
          (last_up p.upload_bytes rs - p.upload_bytes)
          (last_down p.download_bytes rs - p.download_bytes)
          (sample_reports s rs)
  sample_reports-Grown s link name p [] named c same rising h k = record {
    state = s;
    sampled = refl;
    up_grown = omega arith;
    down_grown = omega arith;
  }
  sample_reports-Grown s link name p ((now, l) ∷ rs) named c same rising h k =
      let later = le-last link l.upload_bytes l.download_bytes rs rising.3 in
      let here =
        subst
          (λ (x : String).
            (Dict.get names x ≡ some name)
            × (counter_of s x ≡ some p)
            × (uploaded s (join_key user_id x) ≡ uploaded s (join_key user_id link))
            × (downloaded s (join_key user_id x) ≡ downloaded s (join_key user_id link)))
          (sym rising.0) (named, c, refl, refl) in
      let (t, e, a) =
        sample_link-Adds s name now l (l.upload_bytes - p.upload_bytes)
          (l.download_bytes - p.download_bytes) here.0
          (rw here.1 (delta-same p instance_id l same rising.1 rising.2)) (omega (arith, here))
          (omega (arith, here)) in
      let at_link =
        subst
          (λ (x : String).
            (counter_of t x ≡ some (reported l))
            × (uploaded t (join_key user_id x)
                ≡ uploaded s (join_key user_id x) + (l.upload_bytes - p.upload_bytes))
            × (downloaded t (join_key user_id x)
                ≡ downloaded s (join_key user_id x) + (l.download_bytes - p.download_bytes)))
          rising.0 (a.counter, a.up_eq, a.down_eq) in
      let g =
        sample_reports-Grown t link name (reported l) rs named at_link.0 refl rising.3 (omega arith)
          (omega arith) in
      Grown-next s t now l link (l.upload_bytes - p.upload_bytes)
        (l.download_bytes - p.download_bytes) _ _ _ _ rs e at_link.1 at_link.2 g (omega arith)
        (omega arith)

  -- A process whose counters start at zero: the Link has no counter of it yet.
  abbrev pub NewProcess : State → String → Type 0
  NewProcess s link =
      (counter_of s link ≡ none)
      ⊎ ((p : UsageCounter) × (counter_of s link ≡ some p) × (p.instance_id ≢ instance_id))

  delta-new :
      (s : State) (l : GrantLinkUsage)
      → NewProcess s l.link_id
      → delta (counter_of s l.link_id) instance_id l ≡ some (l.upload_bytes, l.download_bytes)
  unfolding delta
  delta-new s l (inl e) = rw e
  delta-new s l (inr (p, e, ne)) = rw e (delta-other p instance_id l ne)

  -- From a new process's first report on, however often it reports: while its counters do not fall
  -- and the sums stay below 2 ^ 64, every report is accepted, and the history of the user and the
  -- Link has grown by exactly the last report's counters.
  pub sample_reports-last :
      (s : State) (name : String) (now : ℕ) (l : GrantLinkUsage) (rs : Reports)
      → Dict.get names l.link_id ≡ some name
      → NewProcess s l.link_id
      → Rising l.link_id l.upload_bytes l.download_bytes rs
      → uploaded s (join_key user_id l.link_id) + last_up l.upload_bytes rs < 2 ^ 64
      → downloaded s (join_key user_id l.link_id) + last_down l.download_bytes rs < 2 ^ 64
      → Grown s l.link_id
          (last_up l.upload_bytes rs)
          (last_down l.download_bytes rs)
          (sample_reports s ((now, l) ∷ rs))
  sample_reports-last s name now l rs named fresh rising h k =
      let later = le-last l.link_id l.upload_bytes l.download_bytes rs rising in
      let (t, e, a) =
        sample_link-Adds s name now l l.upload_bytes l.download_bytes named (delta-new s l fresh)
          (omega arith) (omega arith) in
      let au = a.up_eq in
      let ad = a.down_eq in
      let g =
        sample_reports-Grown t l.link_id name (reported l) rs named a.counter refl rising
          (omega arith) (omega arith) in
      Grown-next s t now l l.link_id l.upload_bytes l.download_bytes _ _ _ _ rs e au ad g
        (omega arith) (omega arith)
