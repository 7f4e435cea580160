-- ===== src/Auth/Failures/Eviction.antt =====
-- The memory cap of the table of failures, and which entries it costs.
use voxtral_server.Auth.Failures.{
  IpState, AuthRateLimiter, remove_expired, oldest, remove_at, remove_oldest, evict_oldest,
  evict_to_cap, count_failure, entry_or_new, check_and_record_failure, size,
}
use voxtral_server.Base.{
  ℕ, zero, suc, ◌+◌, ◌-◌, ◌≤◌, ◌<◌, min, ◌≡◌, refl, ap, ◌∙◌, ◌⊎◌, inl, inr, ◌&&◌, List, [], ◌∷◌,
  ◌++◌, arith, ltb, ltb→lt, not_ltb→le, Bool-cases, length, All, All-append, Bytes, Table, find?,
  assign,
}

length-remove_at {ℓ} :
    {A : Type ℓ} (i : ℕ) (xs : List A) → i < length xs → suc (length (remove_at i xs)) ≡ length xs
unfolding remove_at
length-remove_at i [] h = absurd (omega arith)
length-remove_at zero (x ∷ xs) h = refl
length-remove_at (suc i) (x ∷ xs) h = ap suc (length-remove_at i xs (omega arith))

oldest-lt :
    (best start i : ℕ) (m : Table IpState)
    → best < i + length m
    → oldest best start i m < i + length m
unfolding oldest
oldest-lt best start i [] h = h
oldest-lt best start i ((k, s) ∷ m) h = ground (
  arith,
  oldest-lt i s.window_start (suc i) m (omega arith),
  oldest-lt best start (suc i) m (omega arith),
)

length-remove_oldest : (m : Table IpState) → length (remove_oldest m) ≡ length m - 1
unfolding remove_oldest
length-remove_oldest [] = omega arith
length-remove_oldest ((k, s) ∷ m) = omega (
  arith,
  length-remove_at (oldest 0 s.window_start 0 ((k, s) ∷ m)) ((k, s) ∷ m)
      (omega (arith, oldest-lt 0 s.window_start 0 ((k, s) ∷ m) (omega arith))),
)

-- With as much fuel as entries the loop ends by its test.
length-evict_oldest :
    (fuel most : ℕ) (m : Table IpState)
    → length m ≤ fuel + most
    → length (evict_oldest fuel most m) ≡ min (length m) most
unfolding evict_oldest
length-evict_oldest zero most m h = omega arith
length-evict_oldest (suc fuel) most m h =
    ground (arith, length-remove_oldest m, length-evict_oldest fuel most (remove_oldest m))

abbrev pub NoOlder : ℕ → Table IpState → Type 0
NoOlder start = All (λ entry. start ≤ entry.1.window_start)

-- `m` is `left`, an entry as old as any, and `right`.
record OldestAt (m : Table IpState) (i : ℕ) : Type 0 where
  left : Table IpState
  entry : Bytes × IpState
  right : Table IpState
  split : m ≡ left ++ entry ∷ right
  position : i ≡ length left
  left_newer : NoOlder entry.1.window_start left
  right_newer : NoOlder entry.1.window_start right

NoOlder-mono : {s t : ℕ} (m : Table IpState) → t ≤ s → NoOlder s m → NoOlder t m
NoOlder-mono [] le h = tt
NoOlder-mono (x ∷ m) le h = (omega arith, NoOlder-mono m le h.1)

-- The loop stays at its first entry, which no other undercuts, or moves to an older one.
oldest_cases :
    (best start i : ℕ) (m : Table IpState)
    → ((oldest best start i m ≡ best) × NoOlder start m)
      ⊎ ((j : ℕ) × (oldest best start i m ≡ i + j)
          × (o : OldestAt m j) × (o.entry.1.window_start < start))
unfolding oldest
oldest_cases best start i [] = inl (refl, tt)
oldest_cases best start i ((k, s) ∷ m) = elim (Bool-cases (ltb s.window_start start)) [
  | inl older ↦ rw older (elim (oldest_cases i s.window_start (suc i) m) [
    | inl (stays, newer) ↦ inr (
      0,
      omega (arith, stays),
      record {
        left = [];
        entry = (k, s);
        right = m;
        split = refl;
        position = refl;
        left_newer = tt;
        right_newer = newer;
      },
      ltb→lt s.window_start start older,
    )
    | inr (j, moves, o, lt) ↦ inr (
      suc j,
      omega (arith, moves),
      record {
        left = (k, s) ∷ o.left;
        entry = o.entry;
        right = o.right;
        split = ap (◌∷◌ (k, s)) o.split;
        position = ap suc o.position;
        left_newer = (omega arith, o.left_newer);
        right_newer = o.right_newer;
      },
      omega (arith, ltb→lt s.window_start start older),
    )
  ])
  | inr newer ↦ rw newer (elim (oldest_cases best start (suc i) m) [
    | inl (stays, rest) ↦ inl (stays, (not_ltb→le s.window_start start newer, rest))
    | inr (j, moves, o, lt) ↦ inr (
      suc j,
      omega (arith, moves),
      record {
        left = (k, s) ∷ o.left;
        entry = o.entry;
        right = o.right;
        split = ap (◌∷◌ (k, s)) o.split;
        position = ap suc o.position;
        left_newer = (omega (arith, not_ltb→le s.window_start start newer), o.left_newer);
        right_newer = o.right_newer;
      },
      lt,
    )
  ])
]

remove_at-append {ℓ} :
    {A : Type ℓ} (xs : List A) (x : A) (ys : List A)
    → remove_at (length xs) (xs ++ x ∷ ys) ≡ xs ++ ys
unfolding remove_at
remove_at-append [] x ys = refl
remove_at-append (z ∷ xs) x ys = ap (◌∷◌ z) (remove_at-append xs x ys)

-- `n` is what is left of `m` after entries went, one by one, each of them no newer than any other
-- entry of its time.
pub data Evicts (n : Table IpState) : Table IpState → Type 0 where
  kept : {m : Table IpState} → m ≡ n → Evicts n m
  evict :
      {m : Table IpState} (left : Table IpState) (entry : Bytes × IpState) (right : Table IpState)
      → m ≡ left ++ entry ∷ right
      → NoOlder entry.1.window_start (left ++ right)
      → Evicts n (left ++ right)
      → Evicts n m

remove_oldest-OldestAt :
    (m : Table IpState)
    → 0 < length m
    → (left : Table IpState) × (entry : Bytes × IpState) × (right : Table IpState) × (m
        ≡ left ++ entry ∷ right)
      × NoOlder entry.1.window_start (left ++ right)
      × (remove_oldest m ≡ left ++ right)
unfolding remove_oldest remove_at
remove_oldest-OldestAt [] h = absurd (omega arith)
remove_oldest-OldestAt ((k, s) ∷ m) h = elim (oldest_cases 0 s.window_start 0 ((k, s) ∷ m)) [
  | inl (stays, newer) ↦ ([], (k, s), m, refl, newer.1, rw stays)
  | inr (j, moves, o, lt) ↦ (
    o.left,
    o.entry,
    o.right,
    o.split,
    All-append _ o.left o.right o.left_newer o.right_newer,
    (λ i. remove_at (at_left j o moves i) (o.split i)) ∙ remove_at-append o.left o.entry o.right,
  )
]
  where
    at_left :
        (j : ℕ) (o : OldestAt ((k, s) ∷ m) j)
        → oldest 0 s.window_start 0 ((k, s) ∷ m) ≡ 0 + j
        → oldest 0 s.window_start 0 ((k, s) ∷ m) ≡ length o.left
    at_left j o moves = omega (arith, moves, o.position)

evict_oldest-Evicts : (fuel most : ℕ) (m : Table IpState) → Evicts (evict_oldest fuel most m) m
unfolding evict_oldest
evict_oldest-Evicts zero most m = kept refl
evict_oldest-Evicts (suc fuel) most m = elim (Bool-cases (ltb most (length m))) [
  | inl over ↦
      let (left, entry, right, split, newer, rest) =
        remove_oldest-OldestAt m (omega (arith, ltb→lt most (length m) over)) in
      evict left entry right split newer
        (rw (over, evict_oldest) (rw (← rest) (evict_oldest-Evicts fuel most (remove_oldest m))))
  | inr fits ↦ kept (rw (fits, evict_oldest))
]

-- The table right after the failure is counted, before the memory cap is looked at.
abbrev pub counted : AuthRateLimiter → Bytes → ℕ → ℕ → Table IpState
counted l ip now created =
    assign ip (count_failure l.window_secs now (entry_or_new created (find? ip l.ip_states)))
      l.ip_states

-- If its cap is positive, the table of failures holds no more addresses than the cap after a
-- failure is recorded.
pub size-check_and_record_failure :
    (l : AuthRateLimiter) (ip : Bytes) (now created : ℕ)
    → 0 < l.max_tracked_ips
    → size (check_and_record_failure l ip now created).0 ≤ l.max_tracked_ips
unfolding check_and_record_failure evict_to_cap size
size-check_and_record_failure l ip now created h =
    let live = remove_expired l.window_secs now (counted l ip now created) in
    ground (arith, length-evict_oldest (length live) l.max_tracked_ips live)

-- Once the failure is counted, either the cap is 0 or the table fits it, and the table stays as
-- it is; or the cap is positive and the table has more entries: then the expired entries go,
-- and of the others, one by one, entries whose window is as old as any, until as many are left
-- as the cap lets, or all of them where they are fewer.
pub check_and_record_failure-Evicts :
    (l : AuthRateLimiter) (ip : Bytes) (now created : ℕ)
    → let before = counted l ip now created in
      let after = (check_and_record_failure l ip now created).0.ip_states in
      let live = remove_expired l.window_secs now before in
      (((l.max_tracked_ips ≡ 0) ⊎ (length before ≤ l.max_tracked_ips)) × (after ≡ before))
      ⊎ ((0 < l.max_tracked_ips)
          × (l.max_tracked_ips < length before)
          × Evicts after live
          × (length after ≡ min (length live) l.max_tracked_ips))
unfolding check_and_record_failure evict_to_cap
check_and_record_failure-Evicts l ip now created =
    let before = counted l ip now created in
    let live = remove_expired l.window_secs now before in
    elim (Bool-cases (ltb 0 l.max_tracked_ips && ltb l.max_tracked_ips (length before))) [
      | inl full ↦ rw full (
          inr (
            ground (arith, full),
            ground (arith, full),
            evict_oldest-Evicts (length live) l.max_tracked_ips live,
            length-evict_oldest (length live) l.max_tracked_ips live (omega arith),
          ))
      | inr fits ↦ rw fits (inl (ground (arith, fits), refl))
    ]
