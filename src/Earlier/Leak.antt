-- ===== src/Earlier/Leak.antt =====
-- The round of kernels/vanity.cu, and the buffer that it may leave allocated.
use vanity_generator_evm_svm.Common.{ℕ, suc, ◌≡◌, refl, sym, ap, ◌∙◌, arith, ◌⊎◌, inl, inr}
use vanity_generator_evm_svm.Common.{
  Bool, true, false, Bool-cases, not, if◌then◌else◌, List, ◌∷◌, length, All, ℤ, pos,
}
use vanity_generator_evm_svm.Setup.{GpuGlobals}
use vanity_generator_evm_svm.Host.{
  Runtime, World, Host, ◌>>◌, Outcome, going, returned, is_success, Call, call, malloc,
  copy_to_device, get_device_count, set_device,
}
use vanity_generator_evm_svm.Host.Rounds.{Request}
use vanity_generator_evm_svm.Host.Hoare.{After, Triple, bind-Triple, consequence-Triple}
use vanity_generator_evm_svm.Host.Stages.{IsWithin}
use vanity_generator_evm_svm.Earlier.Rest.{vanity_rest-Released}
use mathlib.Core.Path.{subst}
use vanity_generator_evm_svm.Earlier.{beyond, unchecked, allocated, copied_in}
use vanity_generator_evm_svm.Earlier.Rounds.{vanity_size, vanity_rest, vanity_round}
use vanity_generator_evm_svm.Earlier.Release.{
  live, live_neutral, malloc_taken, malloc_refused, Released,
}

module _ (runtime : Runtime) (device_count : ℕ) (globals : GpuGlobals) (base owner : List ℕ)
    (q : Request) (w : World) where
  -- The calls up to the allocation and up to the copy of the seed.
  abbrev pub malloc_calls : List Call
  malloc_calls = malloc (vanity_size q) ∷ set_device ∷ get_device_count ∷ w.calls

  abbrev pub seed_calls : List Call
  seed_calls = copy_to_device 0 (length q.seed) ∷ malloc_calls

  -- The buffer is allocated and the copy of the seed fails.
  abbrev pub SeedFails : Type 0
  SeedFails =
      (beyond q.id device_count ≡ false)
      × (is_success (runtime.answer malloc_calls) ≡ true)
      × (is_success (runtime.answer seed_calls) ≡ false)

  -- One buffer more than before exactly then, with every copy in the buffer.
  abbrev pub Leaks : World → Type 0
  Leaks w' =
      (SeedFails × (live runtime w'.calls ≡ suc (live runtime w.calls))
        ⊎ (¬ SeedFails) × (live runtime w'.calls ≡ live runtime w.calls))
      × All (IsWithin (vanity_size q)) w'.calls

  abbrev started : World
  started = record w { calls = set_device ∷ get_device_count ∷ w.calls }

  -- The round from the allocation on.
  abbrev from_malloc : Host ℤ
  from_malloc = do
    call runtime (malloc (vanity_size q)) (pos 0) (allocated runtime (vanity_size q))
    call runtime (copy_to_device 0 (length q.seed)) (pos 0) (copied_in runtime 0 q.seed)
    vanity_rest runtime base owner globals.num_blocks globals.num_threads q

  head_lem : vanity_round runtime device_count globals base owner q w ≡ (
      if not (beyond q.id device_count)
      then from_malloc started
      else (returned (pos 0), record w { calls = get_device_count ∷ w.calls }))
  unfolding vanity_round unchecked
  head_lem =
      let counting = is_success (runtime.answer (get_device_count ∷ w.calls)) in
      let setting = is_success (runtime.answer (set_device ∷ get_device_count ∷ w.calls)) in
      elim (Bool-cases (beyond q.id device_count)) [
        | inl far ↦ elim (Bool-cases counting) [
          | inl fine ↦ rw (far, fine) refl
          | inr wrong ↦ rw (far, wrong) refl
        ]
        | inr near ↦ elim (Bool-cases counting) [
          | inl fine ↦ elim (Bool-cases setting) [
            | inl fine' ↦ rw (near, fine, fine') refl
            | inr wrong' ↦ rw (near, fine, wrong') refl
          ]
          | inr wrong ↦ elim (Bool-cases setting) [
            | inl fine' ↦ rw (near, wrong, fine') refl
            | inr wrong' ↦ rw (near, wrong, wrong') refl
          ]
        ]
      ]

  module _ (base_fits : length base ≡ 32) (owner_fits : length owner ≡ 32)
      (seed_fits : length q.seed ≡ 32) (within : All (IsWithin (vanity_size q)) w.calls) where
    one_call : live runtime (get_device_count ∷ w.calls) ≡ live runtime w.calls
    one_call = live_neutral runtime get_device_count w.calls tt

    two_calls : live runtime (set_device ∷ get_device_count ∷ w.calls) ≡ live runtime w.calls
    two_calls = live_neutral runtime set_device (get_device_count ∷ w.calls) tt ∙ one_call

    allocated_at :
        is_success (runtime.answer malloc_calls) ≡ true
        → live runtime malloc_calls ≡ suc (live runtime w.calls)
    allocated_at fine =
        malloc_taken runtime (vanity_size q) (set_device ∷ get_device_count ∷ w.calls) fine
        ∙ ap suc two_calls

    held_at :
        is_success (runtime.answer malloc_calls) ≡ true
        → live runtime seed_calls ≡ suc (live runtime w.calls)
    held_at fine =
        live_neutral runtime (copy_to_device 0 (length q.seed)) malloc_calls tt ∙ allocated_at fine

    given_back :
        is_success (runtime.answer seed_calls) ≡ true
        → (v : World)
        → (live runtime v.calls ≡ live runtime w.calls) × All (IsWithin (vanity_size q)) v.calls
        → Leaks v
    given_back there v (kept, inside) = (inr (λ fails. let bad = fails.2 in cc, kept), inside)

    either_way : (r : Outcome ℤ × World) → After (λ code. Leaks) (λ code. Leaks) r → Leaks r.1
    either_way (going code, v) h = h
    either_way (returned code, v) h = h

    -- What is known before a step, apart from the calls.
    known_first :
        {F : Type 0} {calls : List Call} {m : Host ℤ}
        → (F → Triple (λ v. v.calls ≡ calls) m (λ code. Leaks) (λ code. Leaks))
        → Triple (λ v. F × (v.calls ≡ calls)) m (λ code. Leaks) (λ code. Leaks)
    known_first h = record { holds = λ v (fact, known). (h fact).holds v known }

    -- A call behind known calls.
    known_call :
        (c : Call) (effect : World → World) (calls : List Call) (Q E : World → Type 0)
        → ((v : World) → (effect v).calls ≡ v.calls)
        → (is_success (runtime.answer (c ∷ calls)) ≡ true → (v : World) → v.calls ≡ c ∷ calls → Q v)
        → (is_success (runtime.answer (c ∷ calls)) ≡ false
            → (v : World) → v.calls ≡ c ∷ calls
            → E v)
        → Triple (λ v. v.calls ≡ calls) (call runtime c (pos 0) effect) (λ _. Q) (λ code. E)
    unfolding call
    known_call c effect calls Q E keeps good bad = record {
      holds = λ v known.
          let same_calls : c ∷ v.calls ≡ c ∷ calls = ap (λ (l : List Call). c ∷ l) known in
          let answers = ap (λ l. is_success (runtime.answer l)) same_calls in
          elim (Bool-cases (is_success (runtime.answer (c ∷ v.calls)))) [
            | inl fine ↦ rw fine (
                good (sym answers ∙ fine) _ (keeps (record v { calls = c ∷ v.calls }) ∙ same_calls))
            | inr wrong ↦
                rw wrong (bad (sym answers ∙ wrong) (record v { calls = c ∷ v.calls }) same_calls)
          ];
    }

    -- The allocation failed: no buffer was taken.
    nothing_taken :
        is_success (runtime.answer malloc_calls) ≡ false
        → (v : World) → v.calls ≡ malloc_calls
        → Leaks v
    nothing_taken wrong v known =
        let refused =
          malloc_refused runtime (vanity_size q) (set_device ∷ get_device_count ∷ w.calls) wrong in
        rw known
          (inr (λ fails. let bad = fails.1 in cc, refused ∙ two_calls), (tt, (tt, (tt, within))))

    lost :
        is_success (runtime.answer malloc_calls) ≡ true
        → is_success (runtime.answer seed_calls) ≡ false
        → beyond q.id device_count ≡ false
        → (v : World) → v.calls ≡ seed_calls
        → Leaks v
    lost fine wrong near v known = rw known (
      inl ((near, fine, wrong), held_at fine),
      (omega (arith, seed_fits), (tt, (tt, (tt, within)))),
    )

    -- With the seed in the buffer, the rest gives the buffer back.
    rest-Leaks :
        is_success (runtime.answer malloc_calls) ≡ true
        → is_success (runtime.answer seed_calls) ≡ true
        → Triple
            (λ v. v.calls ≡ seed_calls)
            (vanity_rest runtime base owner globals.num_blocks globals.num_threads q)
            (λ code. Leaks)
            (λ code. Leaks)
    rest-Leaks fine there =
        let kept =
          λ (code : ℤ) (v : World)
              (h : Released runtime (vanity_size q) (live runtime w.calls) code v).
            given_back there v h in
        consequence-Triple
          (vanity_rest-Released runtime q base owner base_fits owner_fits globals.num_blocks
            globals.num_threads (live runtime w.calls))
          (λ v known. rw known (held_at fine, (omega (arith, seed_fits), (tt, (tt, (tt, within))))))
          kept kept

    from_malloc-Leaks :
        beyond q.id device_count ≡ false
        → Triple
            (λ v. v.calls ≡ set_device ∷ get_device_count ∷ w.calls)
            from_malloc
            (λ code. Leaks)
            (λ code. Leaks)
    from_malloc-Leaks near =
        bind-Triple
          (known_call (malloc (vanity_size q)) (allocated runtime (vanity_size q))
            (set_device ∷ get_device_count ∷ w.calls)
            (λ v. (is_success (runtime.answer malloc_calls) ≡ true) × (v.calls ≡ malloc_calls))
            Leaks (λ v. refl) (λ fine v known. (fine, known)) nothing_taken)
          (λ _. known_first (λ fine.
            bind-Triple
              (known_call (copy_to_device 0 (length q.seed)) (copied_in runtime 0 q.seed)
                malloc_calls
                (λ v. (is_success (runtime.answer seed_calls) ≡ true) × (v.calls ≡ seed_calls))
                Leaks (λ v. refl) (λ there v known. (there, known)) (λ wrong. lost fine wrong near))
              (λ _. known_first (rest-Leaks fine))))

    -- A round passes the number of the GPU over, or goes on from the allocation.
    headed-Leaks :
        (far : Bool)
        → beyond q.id device_count ≡ far
        → Leaks
            (if not far
              then from_malloc started
              else (returned (pos 0), record w { calls = get_device_count ∷ w.calls })).1
    headed-Leaks true far = (inr (λ fails. let bad = fails.0 in cc, one_call), (tt, within))
    headed-Leaks false near =
        let r = (from_malloc-Leaks near).holds started refl in either_way (from_malloc started) r

-- On every outcome of the calls, with a base, an owner and a seed of 32 bytes each: a round of
-- kernels/vanity.cu keeps one buffer, which nothing frees any more, exactly when the number of the GPU
-- is in range, the allocation succeeds and the copy of the seed fails; every copy stays in the buffer.
pub vanity_round-Leaks :
    (runtime : Runtime) (device_count : ℕ) (globals : GpuGlobals) (base owner : List ℕ)
    (q : Request) (w : World)
    → length base ≡ 32
    → length owner ≡ 32
    → length q.seed ≡ 32
    → All (IsWithin (vanity_size q)) w.calls
    → Leaks runtime device_count globals base owner q w
        (vanity_round runtime device_count globals base owner q w).1
vanity_round-Leaks runtime device_count globals base owner q w base_fits owner_fits seed_fits
      within =
    subst (λ r. Leaks runtime device_count globals base owner q w r.1)
      (sym (head_lem runtime device_count globals base owner q w))
      (headed-Leaks runtime device_count globals base owner q w base_fits owner_fits seed_fits
        within (beyond q.id device_count) refl)
