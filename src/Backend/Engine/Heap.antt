-- ===== src/Backend/Engine/Heap.antt =====
-- What `VoxtralBackend` leaves allocated in the engine, over any calls of its methods.
use voxtral_server.Backend.{SynthesisRequest}
use voxtral_server.Backend.Voxtral.{PathInfo}
use voxtral_server.Backend.Engine.{
  Generated, Engine, c_str, Allocated, State, new_backend, adopt, is_usable, initialize, is_null,
  is_failed, with_buffer, free, conclude, synthesize, destroy,
}
use voxtral_server.Base.Float.{Double}
use voxtral_server.Base.{
  ℕ, ◌+◌, ◌-◌, min, ◌≡◌, refl, ◌∙◌, inl, inr, not, ◌&&◌, Option, none, some, List, [], ◌∷◌, arith,
  ◌==◌, if◌then◌else◌, Bool-cases, Bytes,
}
use voxtral_server.Base.Int.{ℤ}

-- A call, with what its environment answers.
pub data Call : Type 0 where
  initializes : Bytes → PathInfo → Call
  synthesizes : SynthesisRequest → (ℤ → Double) → Double → Call

free-with_buffer : (g : Generated) (heap : Allocated) → free g (with_buffer g heap) ≡ heap
free-with_buffer g heap = elim (Bool-cases (is_null g.samples)) [
  | inl null ↦ simp null refl
  | inr given ↦ simp given (λ i. record heap { buffers = added i })
]
  where
    added : heap.buffers + 1 - 1 ≡ heap.buffers
    added = omega arith

conclude-heap :
    (g : Generated) (duration time : Double) (heap : Allocated)
    → (conclude g duration time heap).0 ≡ heap
unfolding conclude
conclude-heap g duration time heap = elim (Bool-cases (is_failed g)) [
  | inl failed ↦ rw failed (free-with_buffer g heap)
  | inr ok ↦ rw ok (free-with_buffer g heap)
]

module _ (engine : Engine) where
  open engine use {Ctx, load, generate}

  unfoldable pub call : Call → State engine → State engine
  call (initializes model_path info) s = (initialize engine model_path info s).0
  call (synthesizes request seconds time) s = (synthesize engine request seconds time s).0

  unfoldable pub call_all : List Call → State engine → State engine
  call_all [] s = s
  call_all (c ∷ calls) s = call_all calls (call c s)

  -- The contexts that `tts_load` has handed over.
  unfoldable pub loads : List Call → ℕ
  loads [] = 0
  loads (initializes model_path info ∷ calls) =
      if is_usable model_path info && not (is_null (load (c_str model_path)))
      then loads calls + 1
      else loads calls
  loads (synthesizes request seconds time ∷ calls) = loads calls

  synthesize-keeps :
      (request : SynthesisRequest) (seconds : ℤ → Double) (time : Double) (s : State engine)
      → (synthesize engine request seconds time s).0 ≡ s
  unfolding synthesize
  synthesize-keeps request seconds time (b, heap) =
      let g = generate b.ctx (c_str request.text) (c_str request.voice) in
      elim (Bool-cases b.initialized) [
        | inr new ↦ simp new refl
        | inl ready ↦ elim (Bool-cases b.use_real_engine) [
          | inr stub ↦ simp (ready, stub) refl
          | inl real ↦
              simp (ready, real) (λ i. (b, conclude-heap g (seconds g.n_samples) time heap i))
        ]
      ]

  -- Of a context that is held, and of those loaded, the last one is held.
  pub record IsLoaded (s : State engine) (n : ℕ) (t : State engine) : Type 0 where
    pub buffers : t.1.buffers ≡ s.1.buffers
    pub contexts : t.1.contexts ≡ s.1.contexts + n
    pub holds : is_null t.0.ctx ≡ (is_null s.0.ctx && n == 0)

  IsLoaded-trans :
      (s t u : State engine) (m n k : ℕ)
      → IsLoaded s m t
      → IsLoaded t n u
      → k ≡ n + m
      → IsLoaded s k u
  IsLoaded-trans s t u m n k p q e = record {
    buffers = q.buffers ∙ p.buffers;
    contexts = omega (arith, e, p.contexts, q.contexts);
    holds = ground (arith, e, p.holds, q.holds);
  }

  adopt-IsLoaded :
      (model_path : Bytes) (c : Option Ctx) (s : State engine)
      → IsLoaded s (if is_null c then 0 else 1) (adopt engine model_path c s)
  unfolding adopt
  adopt-IsLoaded model_path none s = record {
    buffers = refl;
    contexts = omega arith;
    holds = ground arith;
  }
  adopt-IsLoaded model_path (some c) s = record {
    buffers = refl;
    contexts = refl;
    holds = ground arith;
  }

  loaded_once : Bytes → PathInfo → ℕ
  loaded_once model_path info =
      if is_usable model_path info then (if is_null (load (c_str model_path)) then 0 else 1) else 0

  initialize-IsLoaded :
      (model_path : Bytes) (info : PathInfo) (s : State engine)
      → IsLoaded s (loaded_once model_path info) (initialize engine model_path info s).0
  unfolding initialize loaded_once
  initialize-IsLoaded model_path info s = elim (Bool-cases (is_usable model_path info)) [
    | inl usable ↦ rw usable (adopt-IsLoaded model_path (load (c_str model_path)) s)
    | inr other ↦ rw other (record { buffers = refl; contexts = omega arith; holds = ground arith })
  ]

  call_all-IsLoaded :
      (calls : List Call) (s : State engine) → IsLoaded s (loads calls) (call_all calls s)
  unfolding call_all loads call
  call_all-IsLoaded [] s = record { buffers = refl; contexts = omega arith; holds = ground arith }
  call_all-IsLoaded (initializes model_path info ∷ calls) s =
      let t = (initialize engine model_path info s).0 in
      IsLoaded-trans s t (call_all calls t) (loaded_once model_path info) (loads calls) _
        (initialize-IsLoaded model_path info s) (call_all-IsLoaded calls t)
        (unfold loaded_once in ground arith)
  call_all-IsLoaded (synthesizes request seconds time ∷ calls) s =
      rw (synthesize-keeps request seconds time s) (call_all-IsLoaded calls s)

  -- After any calls of `initialize` and `synthesize` of a new backend, whatever they are
  -- answered, and then its destructor, every buffer of samples has been freed, and of the
  -- contexts that the engine loaded, all but the last one are left: none is, if at most one
  -- was loaded.
  pub destroy-call_all :
      (calls : List Call) (heap : Allocated)
      → let end = (destroy engine (call_all calls (new_backend engine, heap))).1 in
        (end.buffers ≡ heap.buffers)
        × (end.contexts + min 1 (loads calls) ≡ heap.contexts + loads calls)
  unfolding destroy new_backend
  destroy-call_all calls heap =
      let new : State engine = (new_backend engine, heap) in
      let end = call_all-IsLoaded calls new in
      elim (Bool-cases (is_null (call_all calls new).0.ctx)) [
        | inl null ↦ rw null (end.buffers, ground (arith, null, end.contexts, end.holds))
        | inr held ↦ rw held (end.buffers, ground (arith, held, end.contexts, end.holds))
      ]
