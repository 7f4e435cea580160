-- ===== src/Main/Signals/Order.antt =====
-- What the listener is told, whatever the order of the signals and the steps of `main`.
use voxtral_server.Config.{ServerConfig}
use voxtral_server.Adapter.Lifecycle.{
  listening, returned, new_adapter, begin_start, end_start, stop, is_running,
}
use voxtral_server.Main.Signals.{
  Process, new_process, signal_handler, Step, signals, publishes, starts, returns, retracts, Reach,
  here, next,
}
use voxtral_server.Base.{
  ◌≤◌, ◌<◌, ◌≡◌, refl, ◌∙◌, ◌↔◌, inl, inr, Bool, true, false, ◌&&◌, arith, if◌then◌else◌,
  Bool-cases,
}

-- What holds in every state.
pub record IsOrderly (cfg : ServerConfig) (p : Process) : Type 0 where
  -- `is_running` answers true exactly in `start`
  pub running : (is_running p.adapter ≡ true) ↔ (p.adapter.phase ≡ listening)
  -- the library is told to stop at most once, and only by a signal
  pub once : p.adapter.server.stops ≤ 1
  pub asked : 0 < p.adapter.server.stops → p.g_shutdown_requested ≡ true
  -- `start` answers true only after a signal
  pub ended : p.adapter.phase ≡ returned true → 0 < p.adapter.server.stops

new_process-IsOrderly : (cfg : ServerConfig) → IsOrderly cfg new_process
unfolding new_process new_adapter is_running
new_process-IsOrderly cfg = record {
  running = ((λ e. cc), (λ e. cc));
  once = omega arith;
  asked = λ h. absurd (omega (arith, h));
  ended = λ e. cc;
}

signal_handler-IsOrderly :
    (cfg : ServerConfig) (p : Process) → IsOrderly cfg p → IsOrderly cfg (signal_handler p)
unfolding signal_handler stop is_running
signal_handler-IsOrderly cfg p h = elim (Bool-cases p.g_shutdown_requested) [
  | inl again ↦ simp again h
  | inr first ↦
      let none_yet : p.adapter.server.stops ≡ 0 = ground (arith, first, h.asked) in
      simp first (elim (Bool-cases p.g_adapter) [
        | inr gone ↦
            simp gone
              (record { running = h.running; once = h.once; asked = λ _. refl; ended = h.ended })
        | inl there ↦ simp there (elim (Bool-cases p.adapter.running) [
          | inl on ↦ simp on (record {
            running = (λ _. h.running.0 on, λ _. refl);
            once = omega (arith, none_yet);
            asked = λ _. refl;
            ended = λ _. omega arith;
          })
          | inr off ↦
              simp off
                (record { running = h.running; once = h.once; asked = λ _. refl; ended = h.ended })
        ])
      ])
]

Step-IsOrderly :
    {cfg : ServerConfig} {p q : Process} → Step cfg p q → IsOrderly cfg p → IsOrderly cfg q
unfolding is_running begin_start end_start
Step-IsOrderly {cfg} {p} signals h = signal_handler-IsOrderly cfg p h
Step-IsOrderly (publishes e g) h = record {
  running = h.running;
  once = h.once;
  asked = h.asked;
  ended = h.ended;
}
Step-IsOrderly (starts e g) h = record {
  running = (λ _. refl, λ _. refl);
  once = h.once;
  asked = h.asked;
  ended = λ e. cc;
}
Step-IsOrderly (returns ok e stopped) h = record {
  running = (λ e. cc, λ e. cc);
  once = h.once;
  asked = h.asked;
  ended = λ e. stopped (cc e);
}
Step-IsOrderly (retracts ok e) h = record {
  running = h.running;
  once = h.once;
  asked = h.asked;
  ended = h.ended;
}

Reach-IsOrderly_from :
    {cfg : ServerConfig} {p q : Process} → Reach cfg p q → IsOrderly cfg p → IsOrderly cfg q
Reach-IsOrderly_from here h = h
Reach-IsOrderly_from (next r st) h = Step-IsOrderly st (Reach-IsOrderly_from r h)

-- In every state that `main` and signals reach from the constructed adapter, `is_running`
-- answers true exactly while `start` is between its store to `running_` and the return of
-- `listen`, the library has been told to stop at most once, and only after a signal, and
-- `start` has returned true only after that, given that `listen` answers true only then.
pub Reach-IsOrderly : (cfg : ServerConfig) (p : Process) → Reach cfg new_process p → IsOrderly cfg p
Reach-IsOrderly cfg p r = Reach-IsOrderly_from r (new_process-IsOrderly cfg)

-- After the first signal the library is told to stop no more.
Step-decided :
    {cfg : ServerConfig} {p q : Process}
    → Step cfg p q
    → p.g_shutdown_requested ≡ true
    → (q.g_shutdown_requested ≡ true) × (q.adapter.server.stops ≡ p.adapter.server.stops)
unfolding signal_handler begin_start end_start
Step-decided signals e = simp e (refl, refl)
Step-decided (publishes f g) e = (e, refl)
Step-decided (starts f g) e = (e, refl)
Step-decided (returns ok f stopped) e = (e, refl)
Step-decided (retracts ok f) e = (e, refl)

Reach-decided :
    {cfg : ServerConfig} {p q : Process}
    → Reach cfg p q
    → p.g_shutdown_requested ≡ true
    → (q.g_shutdown_requested ≡ true) × (q.adapter.server.stops ≡ p.adapter.server.stops)
Reach-decided here e = (e, refl)
Reach-decided (next r st) e =
    let (e', same) = Reach-decided r e in
    let (e'', same') = Step-decided st e' in (e'', same' ∙ same)

abbrev pub is_heard : Process → Bool
is_heard p = p.g_adapter && is_running p.adapter

signal_handler-stops :
    (p : Process)
    → p.g_shutdown_requested ≡ false
    → p.adapter.server.stops ≡ 0
    → ((signal_handler p).g_shutdown_requested ≡ true)
      × ((signal_handler p).adapter.server.stops ≡ (if is_heard p then 1 else 0))
unfolding signal_handler stop is_running
signal_handler-stops p e z = ground (arith, e, z)

-- In whatever order `main` publishes the adapter, starts it and withdraws it, and signals come:
-- in every state after the first signal, the library has been told to stop once if that signal
-- found the adapter published and running, and never otherwise; later signals make no
-- difference.
pub stops-signal_handler :
    (cfg : ServerConfig) (p q : Process)
    → Reach cfg new_process p
    → p.g_shutdown_requested ≡ false
    → Reach cfg (signal_handler p) q
    → q.adapter.server.stops ≡ (if is_heard p then 1 else 0)
stops-signal_handler cfg p q r first later =
    let h = Reach-IsOrderly cfg p r in
    let none_yet : p.adapter.server.stops ≡ 0 = ground (arith, first, h.asked) in
    let (e, stops) = signal_handler-stops p first none_yet in (Reach-decided later e).1 ∙ stops
