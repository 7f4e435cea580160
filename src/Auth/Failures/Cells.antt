-- ===== src/Auth/Failures/Cells.antt =====
-- The table of `AuthRateLimiter` as one cell for each address, whatever the order of its entries.
use voxtral_server.Auth.Failures.{
  IpState, AuthRateLimiter, is_expired, entry_or_new, count_failure, erase,
  check_and_record_failure, is_blocked,
}
use voxtral_server.Auth.Failures.Window.{record_with_room}
use voxtral_server.Base.{
  ℕ, ◌+◌, ◌≤◌, ◌≡◌, refl, sym, ap, ◌∙◌, inl, inr, Bool, false, not, Option, none, some, List, [],
  ◌∷◌, arith, ltb, if◌then◌else◌, Bool-cases, length, length-keep-le, Bytes, eq_bytes, eq_bytes_iff,
  eq_bytes_refl, Table, find?, find?-assign, length-assign,
}
use voxtral_server.Base.Int.{ℤ}

-- A call for an address, with its readings of the clock.
pub data Act : Type 0 where
  records : ℕ → ℕ → Act
  asks : ℕ → Act

unfoldable pub act : AuthRateLimiter → Bytes → Act → AuthRateLimiter × Bool
act l ip (records now created) = check_and_record_failure l ip now created
act l ip (asks now) = is_blocked l ip now

-- Calls for any addresses, and their answers.
unfoldable pub act_all : AuthRateLimiter → List (Bytes × Act) → AuthRateLimiter × List Bool
act_all l [] = (l, [])
act_all l ((ip, a) ∷ acts) =
    let (l', answer) = act l ip a in let (l'', answers) = act_all l' acts in (l'', answer ∷ answers)

-- A cell that knows one address only: what it counts, and since when.
unfoldable pub cell : ℕ → ℤ → Option IpState → Act → Option IpState × Bool
cell most window c (records now created) =
    let state = count_failure window now (entry_or_new created c) in
    (some state, ltb most state.failures)
cell most window none (asks now) = (none, false)
cell most window (some state) (asks now) =
    if is_expired window now state then (none, false) else (some state, ltb most state.failures)

unfoldable pub cell_all : ℕ → ℤ → Option IpState → List Act → Option IpState × List Bool
cell_all most window c [] = (c, [])
cell_all most window c (a ∷ acts) =
    let (c', answer) = cell most window c a in
    let (c'', answers) = cell_all most window c' acts in (c'', answer ∷ answers)

-- The calls for one address, and their answers.
unfoldable pub acts_of : Bytes → List (Bytes × Act) → List Act
acts_of ip [] = []
acts_of ip ((j, a) ∷ acts) = if eq_bytes j ip then a ∷ acts_of ip acts else acts_of ip acts

unfoldable pub answers_of : Bytes → List (Bytes × Act) → List Bool → List Bool
answers_of ip ((j, a) ∷ acts) (b ∷ answers) =
    let rest = answers_of ip acts answers in if eq_bytes j ip then b ∷ rest else rest
answers_of ip _ _ = []

-- The entries that the calls may add.
abbrev pub added : Act → ℕ
added (records now created) = 1
added (asks now) = 0

abbrev pub all_added : List (Bytes × Act) → ℕ
all_added [] = 0
all_added ((ip, a) ∷ acts) = added a + all_added acts

find?-erase :
    (ip j : Bytes) (m : Table IpState)
    → find? ip (erase j m) ≡ (if eq_bytes j ip then none else find? ip m)
unfolding find? erase
find?-erase ip j [] = ground arith
find?-erase ip j ((k, s) ∷ m) =
    ground (arith, eq_bytes_iff k j, eq_bytes_iff k ip, eq_bytes_iff j ip, find?-erase ip j m)

-- What a call for `j` does to the cells, to the limits and to the size of the table.
record IsCall (l : AuthRateLimiter) (j : Bytes) (a : Act) (out : AuthRateLimiter × Bool)
    : Type 0 where
  own : find? j out.0.ip_states ≡ (cell l.max_failures l.window_secs (find? j l.ip_states) a).0
  answer : out.1 ≡ (cell l.max_failures l.window_secs (find? j l.ip_states) a).1
  others : (ip : Bytes) → eq_bytes j ip ≡ false → find? ip out.0.ip_states ≡ find? ip l.ip_states
  limits :
      (out.0.max_failures ≡ l.max_failures)
      × (out.0.window_secs ≡ l.window_secs)
      × (out.0.max_tracked_ips ≡ l.max_tracked_ips)
  grows : length out.0.ip_states ≤ length l.ip_states + added a

-- A call that keeps the table.
kept :
    (l : AuthRateLimiter) (j : Bytes) (now : ℕ) (b : Bool)
    → cell l.max_failures l.window_secs (find? j l.ip_states) (asks now) ≡ (find? j l.ip_states, b)
    → IsCall l j (asks now) (l, b)
kept l j now b e = record {
  own = λ i. (sym e i).0;
  answer = λ i. (sym e i).1;
  others = λ ip other. refl;
  limits = (refl, refl, refl);
  grows = omega arith;
}

erased :
    (l : AuthRateLimiter) (j : Bytes) (now : ℕ)
    → cell l.max_failures l.window_secs (find? j l.ip_states) (asks now) ≡ (none, false)
    → IsCall l j (asks now) (record l { ip_states = erase j l.ip_states }, false)
erased l j now e = record {
  own = find?-erase j j l.ip_states ∙ (rw eq_bytes_refl λ i. (sym e i).0);
  answer = λ i. (sym e i).1;
  others = λ ip other. find?-erase ip j l.ip_states ∙ (rw other refl);
  limits = (refl, refl, refl);
  grows =
      unfold erase in omega (arith, length-keep-le (λ entry. not (eq_bytes entry.0 j)) l.ip_states);
}

asked :
    (l : AuthRateLimiter) (j : Bytes) (now : ℕ) (c : Option IpState)
    → find? j l.ip_states ≡ c
    → IsCall l j (asks now) (is_blocked l j now)
unfolding cell
asked l j now none e =
    let keeps : is_blocked l j now ≡ (l, false) = unfold is_blocked in rw (e, is_blocked) refl in
    rw keeps (kept l j now false (rw e refl))
asked l j now (some state) e = elim (Bool-cases (is_expired l.window_secs now state)) [
  | inl old ↦
      let erases : is_blocked l j now ≡ (record l { ip_states = erase j l.ip_states }, false) =
        unfold is_blocked in rw (e, is_blocked, old) refl in
      rw erases (erased l j now (rw (e, old) refl))
  | inr fresh ↦
      let keeps : is_blocked l j now ≡ (l, ltb l.max_failures state.failures) =
        unfold is_blocked in rw (e, is_blocked, fresh) refl in
      rw keeps (kept l j now _ (rw (e, fresh) refl))
]

act-IsCall :
    (l : AuthRateLimiter) (j : Bytes) (a : Act)
    → length l.ip_states + added a ≤ l.max_tracked_ips
    → IsCall l j a (act l j a)
unfolding act cell
act-IsCall l j (records now created) room =
    let state = count_failure l.window_secs now (entry_or_new created (find? j l.ip_states)) in
    rw (record_with_room l j now created (omega (arith, room, length-assign j state l.ip_states)))
      (record {
        own = rw (find?-assign, eq_bytes_refl) refl;
        answer = refl;
        others = λ ip other. rw (find?-assign, other) refl;
        limits = (refl, refl, refl);
        grows = omega (arith, length-assign j state l.ip_states);
      })
act-IsCall l j (asks now) room = asked l j now (find? j l.ip_states) refl

-- For any calls of `check_and_record_failure` and `is_blocked`, for any addresses, of a limiter
-- whose table has room for the addresses that they may add: what the table holds for an address
-- in the end, and the answers to the calls for it, are those of a cell that counts that address
-- alone and meets its calls alone, in their order.
pub act_all-cell_all :
    (ip : Bytes) (l : AuthRateLimiter) (acts : List (Bytes × Act))
    → length l.ip_states + all_added acts ≤ l.max_tracked_ips
    → (find? ip (act_all l acts).0.ip_states
        ≡ (cell_all l.max_failures l.window_secs (find? ip l.ip_states) (acts_of ip acts)).0)
      × (answers_of ip acts (act_all l acts).1
          ≡ (cell_all l.max_failures l.window_secs (find? ip l.ip_states) (acts_of ip acts)).1)
unfolding act_all cell_all acts_of answers_of
act_all-cell_all ip l [] room = (refl, refl)
act_all-cell_all ip l ((j, a) ∷ acts) room =
    let c = act-IsCall l j a (omega (arith, room)) in
    let (most, window, most_ips) = c.limits in
    let rest = act_all-cell_all ip (act l j a).0 acts (omega (arith, c.grows, room, most_ips)) in
    elim (Bool-cases (eq_bytes j ip)) [
      | inl same ↦
          let q : j ≡ ip = (eq_bytes_iff j ip).0 same in
          let own =
            sym (ap (λ k. find? k (act l j a).0.ip_states) q)
            ∙ c.own
            ∙ ap (λ k. (cell l.max_failures l.window_secs (find? k l.ip_states) a).0) q in
          let answer =
            c.answer ∙ ap (λ k. (cell l.max_failures l.window_secs (find? k l.ip_states) a).1) q in
          let later = rw (most, window, own) at rest in rw same (later.0, λ i. answer i ∷ later.1 i)
      | inr other ↦ rw other (rw (most, window, c.others ip other) at rest)
    ]
