-- ===== src/Auth/Requests/Capacity.antt =====
-- The capacity of the table of requests: what the clean-up reaches, and what it does not.
use voxtral_server.Auth.Requests.{
  IpState, RequestRateLimiter, is_over, entry_or_new, count_request, remove_over, check_request,
  size,
}
use voxtral_server.Auth.Requests.Window.{remaining_pos}
use voxtral_server.Base.{
  ℕ, suc, ◌≤◌, ◌<◌, ◌≡◌, refl, ◌⊎◌, inl, inr, false, ◌&&◌, none, [], ◌∷◌, arith, ltb, Bool-cases,
  length, All, Bytes, Table, find?, assign, length-assign_new,
}

-- No window in the table is over.
abbrev pub AllInside : ℕ → Table IpState → Type 0
AllInside now = All (λ entry. is_over now entry.1 ≡ false)

remove_over-AllInside : (now : ℕ) (m : Table IpState) → AllInside now (remove_over now m)
unfolding remove_over
remove_over-AllInside now [] = tt
remove_over-AllInside now ((k, s) ∷ m) = ground (arith, remove_over-AllInside now m)

remove_over_of_AllInside : (now : ℕ) (m : Table IpState) → AllInside now m → remove_over now m ≡ m
unfolding remove_over
remove_over_of_AllInside now [] h = refl
remove_over_of_AllInside now ((k, s) ∷ m) h = ground (arith, remove_over_of_AllInside now m h.1)

-- If the cap is positive and a request is let through, the table then fits its cap or has only
-- windows that are still running.
pub check_request_capacity :
    (l : RequestRateLimiter) (ip : Bytes) (now created : ℕ)
    → 0 < l.max_tracked_ips
    → (check_request l ip now created).1 ≡ 0
    → (size (check_request l ip now created).0 ≤ l.max_tracked_ips)
      ⊎ AllInside now (check_request l ip now created).0.ip_states
unfolding check_request size
check_request_capacity l ip now created h e =
    let old = entry_or_new created (find? ip l.ip_states) in
    let state = count_request now old in
    let m = assign ip state l.ip_states in
    elim (Bool-cases (ltb l.max_rpm state.requests)) [
      | inl over ↦ absurd (ground (arith, over, e, remaining_pos now old.window_start))
      | inr under ↦
          elim (Bool-cases (ltb 0 l.max_tracked_ips && ltb l.max_tracked_ips (length m))) [
            | inl full ↦ rw (under, full) (inr (remove_over-AllInside now m))
            | inr fits ↦ rw (under, fits) (inl (ground (arith, fits)))
          ]
    ]

assign-AllInside :
    (now : ℕ) (ip : Bytes) (state : IpState) (m : Table IpState)
    → AllInside now m
    → is_over now state ≡ false
    → AllInside now (assign ip state m)
unfolding assign
assign-AllInside now ip state [] h k = (k, tt)
assign-AllInside now ip state ((j, s) ∷ m) h k =
    ground (arith, assign-AllInside now ip state m h.1 k)

-- If every window in the table is still running, a request of an address that is not tracked
-- (the clock not running backwards) adds an entry, whatever the cap is.
pub size-check_request_new :
    (l : RequestRateLimiter) (ip : Bytes) (now created : ℕ)
    → AllInside now l.ip_states
    → find? ip l.ip_states ≡ none
    → now ≤ created
    → size (check_request l ip now created).0 ≡ suc (size l)
unfolding check_request size
size-check_request_new l ip now created inside absent le =
    let state : IpState = record { requests = 1; window_start = created } in
    ground (
      arith,
      counted,
      remove_over_of_AllInside now (assign ip state l.ip_states)
          (assign-AllInside now ip state l.ip_states inside fresh),
      length-assign_new ip state l.ip_states absent,
    )
  where
    fresh : is_over now (record { requests = 1; window_start = created }) ≡ false
    fresh = unfold is_over in ground arith

    counted :
        count_request now (entry_or_new created (find? ip l.ip_states))
        ≡ record { requests = 1; window_start = created }
    counted = unfold count_request entry_or_new is_over in ground arith
