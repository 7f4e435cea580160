-- ===== src/Auth/Requests/Cells.antt =====
-- The table of `RequestRateLimiter` as one cell for each address, whatever its capacity does.
use voxtral_server.Auth.Requests.{
  IpState, RequestRateLimiter, is_over, remaining, entry_or_new, count_request, remove_over,
  check_request,
}
use voxtral_server.Auth.Requests.Window.{find?-check_request, check_request-max_rpm}
use mathlib.Core.Path.{subst}
use voxtral_server.Base.{
  ℕ, ◌≡◌, refl, ◌⊎◌, inl, inr, true, false, Option, none, some, List, [], ◌∷◌, arith, ltb,
  if◌then◌else◌, Bool-cases, not, keep, Bytes, eq_bytes, eq_bytes_iff, Table, find?, assign,
  find?-assign,
}

-- A call of `check_request`: an address, and the two readings of the clock.
abbrev pub Call : Type 0
Call = Bytes × ℕ × ℕ

unfoldable pub check_all : RequestRateLimiter → List Call → RequestRateLimiter × List ℕ
check_all l [] = (l, [])
check_all l ((ip, now, created) ∷ calls) =
    let (l', answer) = check_request l ip now created in
    let (l'', answers) = check_all l' calls in (l'', answer ∷ answers)

-- A cell that knows one address only counts a call for it, and answers it.
unfoldable pub counted : Option IpState → ℕ → ℕ → IpState
counted c now created = count_request now (entry_or_new created c)

unfoldable pub answer : ℕ → Option IpState → ℕ → ℕ → ℕ
answer most c now created =
    if ltb most (counted c now created).requests
    then remaining now (entry_or_new created c).window_start
    else 0

-- A call for another address keeps what the cell holds, or forgets a window that is over.
abbrev pub IsKept : ℕ → Option IpState → Option IpState → Type 0
IsKept now none d = d ≡ none
IsKept now (some state) d = (d ≡ some state) ⊎ ((is_over now state ≡ true) × (d ≡ none))

-- The cell of `ip` during the calls, and the answers to all of them.
pub data CellRun (most : ℕ) (ip : Bytes)
    : Option IpState → List Call → List ℕ → Option IpState → Type 0 where
  ends : {c : Option IpState} → CellRun most ip c [] [] c
  counts :
      {c d : Option IpState} {j : Bytes} {now created : ℕ} {calls : List Call} {answers : List ℕ}
      → eq_bytes j ip ≡ true
      → CellRun most ip (some (counted c now created)) calls answers d
      → CellRun most ip c ((j, now, created) ∷ calls) (answer most c now created ∷ answers) d
  passes :
      {c c' d : Option IpState} {j : Bytes} {now created a : ℕ} {calls : List Call}
      {answers : List ℕ}
      → eq_bytes j ip ≡ false
      → IsKept now c c'
      → CellRun most ip c' calls answers d
      → CellRun most ip c ((j, now, created) ∷ calls) (a ∷ answers) d

-- No address has two entries.
abbrev pub IsDistinct : Table IpState → Type 0
IsDistinct [] = Unit
IsDistinct ((k, s) ∷ m) = (find? k m ≡ none) × IsDistinct m

assign-IsDistinct :
    (k : Bytes) (s : IpState) (m : Table IpState) → IsDistinct m → IsDistinct (assign k s m)
unfolding find? assign
assign-IsDistinct k s [] h = (refl, tt)
assign-IsDistinct k s ((j, u) ∷ m) h =
    ground
      (arith, assign-IsDistinct k s m h.1, find?-assign k j s m, eq_bytes_iff k j, eq_bytes_iff j k)

find?-remove_over_absent :
    (k : Bytes) (now : ℕ) (m : Table IpState)
    → find? k m ≡ none
    → find? k (remove_over now m) ≡ none
unfolding find? remove_over
find?-remove_over_absent k now [] h = refl
find?-remove_over_absent k now ((j, u) ∷ m) h = ground (arith, find?-remove_over_absent k now m)

remove_over-IsDistinct :
    (now : ℕ) (m : Table IpState) → IsDistinct m → IsDistinct (remove_over now m)
unfolding remove_over
remove_over-IsDistinct now [] h = tt
remove_over-IsDistinct now ((k, u) ∷ m) h =
    ground (arith, remove_over-IsDistinct now m h.1, find?-remove_over_absent k now m h.0)

IsKept-refl : (now : ℕ) (c : Option IpState) → IsKept now c c
IsKept-refl now none = refl
IsKept-refl now (some s) = inl refl

remove_over-IsKept :
    (k : Bytes) (now : ℕ) (m : Table IpState)
    → IsDistinct m
    → IsKept now (find? k m) (find? k (remove_over now m))
unfolding find? remove_over
remove_over-IsKept k now [] h = refl
remove_over-IsKept k now ((j, u) ∷ m) h = elim (Bool-cases (eq_bytes j k)) [
  | inl same ↦ elim (Bool-cases (is_over now u)) [
    | inl old ↦
        let gone : find? k (keep (λ entry. not (is_over now entry.1)) m) ≡ none =
          find?-remove_over_absent k now m
            (subst (λ i. find? i m ≡ none) ((eq_bytes_iff j k).0 same) h.0) in
        rw (same, old) (inr (refl, gone))
    | inr fresh ↦ rw (same, fresh) (rw same (inl refl))
  ]
  | inr other ↦ elim (Bool-cases (is_over now u)) [
    | inl old ↦ rw (other, old) (remove_over-IsKept k now m h.1)
    | inr fresh ↦ rw (other, fresh) (rw other (remove_over-IsKept k now m h.1))
  ]
]

counted-is_over :
    (now created : ℕ) (c : Option IpState) → is_over now (counted c now created) ≡ false
unfolding counted count_request is_over
counted-is_over now created c = elim (Bool-cases (is_over now (entry_or_new created c))) [
  | inl old ↦ rw (count_request, old) (ground arith)
  | inr fresh ↦ rw (count_request, fresh) fresh
]

module _ (l : RequestRateLimiter) (j : Bytes) (now created : ℕ) where
  abbrev before : Table IpState
  before = assign j (counted (find? j l.ip_states) now created) l.ip_states

  abbrev after : Table IpState
  after = (check_request l j now created).0.ip_states

  after-eq : (after ≡ before) ⊎ (after ≡ remove_over now before)
  unfolding check_request counted
  after-eq = ground arith

  after-IsDistinct : IsDistinct l.ip_states → IsDistinct after
  after-IsDistinct h =
      let d = assign-IsDistinct j (counted (find? j l.ip_states) now created) l.ip_states h in
      elim after-eq [
        | inl same ↦ rw same d
        | inr cleaned ↦ rw cleaned (remove_over-IsDistinct now before d)
      ]

  find?-after_other :
      (ip : Bytes)
      → eq_bytes j ip ≡ false
      → IsDistinct l.ip_states
      → IsKept now (find? ip l.ip_states) (find? ip after)
  find?-after_other ip other h =
      let state = counted (find? j l.ip_states) now created in
      let d = assign-IsDistinct j state l.ip_states h in
      let e : find? ip before ≡ find? ip l.ip_states =
        rw (find?-assign j ip state l.ip_states, other) refl in
      elim after-eq [
        | inl same ↦ rw (same, e) (IsKept-refl now (find? ip l.ip_states))
        | inr cleaned ↦ rw cleaned (
            subst (λ c. IsKept now c (find? ip (remove_over now before))) e
              (remove_over-IsKept ip now before d))
      ]

  find?-after_own : find? j after ≡ some (counted (find? j l.ip_states) now created)
  unfolding counted
  find?-after_own =
      find?-check_request l j now created (counted-is_over now created (find? j l.ip_states))

  check_request-answer :
      (check_request l j now created).1 ≡ answer l.max_rpm (find? j l.ip_states) now created
  unfolding check_request counted answer
  check_request-answer = ground arith

-- For any calls of `check_request`, for any addresses at any times, of a limiter whose table
-- has no address twice: what the table holds for an address and the answers to its calls are,
-- all along, those of a cell that counts that address alone, whatever the other addresses are
-- and however many, but that a call for another address may make it forget a window that is
-- over at that time.
pub check_all-CellRun :
    (ip : Bytes) (l : RequestRateLimiter) (calls : List Call)
    → IsDistinct l.ip_states
    → CellRun l.max_rpm ip
        (find? ip l.ip_states)
        calls
        (check_all l calls).1
        (find? ip (check_all l calls).0.ip_states)
unfolding check_all
check_all-CellRun ip l [] h = ends
check_all-CellRun ip l ((j, now, created) ∷ calls) h =
    let l' = (check_request l j now created).0 in
    let rest =
      subst
        (λ n.
          CellRun n ip (find? ip l'.ip_states) calls (check_all l' calls).1
            (find? ip (check_all l' calls).0.ip_states))
        (check_request-max_rpm l j now created)
        (check_all-CellRun ip l' calls (after-IsDistinct l j now created h)) in
    elim (Bool-cases (eq_bytes j ip)) [
      | inl same ↦
          let q : j ≡ ip = (eq_bytes_iff j ip).0 same in
          let entry : find? ip l'.ip_states ≡ some (counted (find? ip l.ip_states) now created) =
            subst (λ k. find? k l'.ip_states ≡ some (counted (find? k l.ip_states) now created)) q
              (find?-after_own l j now created) in
          let answered : (check_request l j now created).1
              ≡ answer l.max_rpm (find? ip l.ip_states) now created =
            subst
              (λ k.
                (check_request l j now created).1
                ≡ answer l.max_rpm (find? k l.ip_states) now created)
              q (check_request-answer l j now created) in
          rw answered (counts same (rw entry at rest))
      | inr different ↦ passes different (find?-after_other l j now created ip different h) rest
    ]
