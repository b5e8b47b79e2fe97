-- ===== src/Host/Launch.antt =====
-- The steps of a round from the choice of the threads to the copies of the results.
use vanity_generator_evm_svm.Common.{ℕ, zero, suc, ◌/◌, ◌≤◌, ◌<◌, ◌≡◌, refl, ◌∙◌, arith, inl, inr}
use vanity_generator_evm_svm.Common.{false, ltb, ltb→lt, List, ◌∷◌, negsuc}
use vanity_generator_evm_svm.Setup.{
  Selected, threads, invalid_configuration, runtime_error, launch_out_of_resources,
  vanity_launch_threads,
}
use vanity_generator_evm_svm.Setup.{Attributes, no_attributes, max_threads_per_block, Occupancy}
use vanity_generator_evm_svm.Setup.Threads.{Told, Half-le, vanity_launch_threads-Told}
use vanity_generator_evm_svm.Host.{Runtime, Symbols, World, Status, success, failure, is_success}
use vanity_generator_evm_svm.Host.{launch, synchronize, call, same}
use vanity_generator_evm_svm.Host.{chosen, launched, select_threads, launch_loop}
use vanity_generator_evm_svm.Host.Rounds.{Request, run_search}
use vanity_generator_evm_svm.Host.Hoare.{After, Triple, bind-Triple, After-if}
use vanity_generator_evm_svm.Host.Stages.{
  code_of, IsReady, RuntimeLaws, NoThreads, Failed, Open, Searched,
}
use mathlib.Core.Path.{subst}
use vanity_generator_evm_svm.Host.Copies.{answered}

selected_fits :
    (occupancy : ℕ → Occupancy) (attributes : Attributes) (k n : ℕ)
    → vanity_launch_threads occupancy attributes k ≡ threads n
    → (0 < n) × (n ≤ k)
unfolding vanity_launch_threads
selected_fits occupancy attributes zero n e = cc
selected_fits occupancy (no_attributes err) (suc k) n e = cc
selected_fits occupancy (max_threads_per_block limit) (suc k) n e =
    let meaning =
      subst (Told occupancy (max_threads_per_block limit) (suc k)) e
        (vanity_launch_threads-Told occupancy (max_threads_per_block limit) (suc k)) in
    (meaning.1, Half-le occupancy limit (suc k) n meaning.0)

module _ (runtime : Runtime) (laws : RuntimeLaws runtime) (size : ℕ) (q : Request) (bytes : List ℕ)
    (symbols : Symbols) where
  module _ (out : List ℕ) where
    ready : (w : World) → Open runtime size q bytes symbols out w → IsReady size w.device
    ready w o e = (o.buffer, o.memory)

    -- No threads for the kernel.
    refused :
        (w : World)
        → Open runtime size q bytes symbols out w
        → NoThreads runtime size q
        → Failed runtime size q (negsuc 5) w
    refused w o none_fits = record {
      ready = ready w o;
      within = o.within;
      explained = inr (inl (refl, none_fits));
    }

    select_threads-Open :
        Triple
          (Open runtime size q bytes symbols out)
          (select_threads runtime q.num_threads)
          (λ n w. ((0 < n) × (n ≤ q.num_threads)) × Open runtime size q bytes symbols out w)
          (Failed runtime size q)
    unfolding select_threads
    select_threads-Open = record {
      holds = λ w o.
          outcome w o (vanity_launch_threads runtime.occupancy runtime.attributes q.num_threads)
            refl;
    }
      where
        outcome :
            (w : World)
            → Open runtime size q bytes symbols out w
            → (r : Selected)
            → vanity_launch_threads runtime.occupancy runtime.attributes q.num_threads ≡ r
            → After
                (λ n w. ((0 < n) × (n ≤ q.num_threads)) × Open runtime size q bytes symbols out w)
                (Failed runtime size q)
                (chosen runtime r w)
        outcome w o (threads n) e =
            (selected_fits runtime.occupancy runtime.attributes q.num_threads n e, o)
        outcome w o invalid_configuration e = refused w o (λ n h. cc)
        outcome w o (runtime_error x) e = refused w o (λ n h. cc)
        outcome w o launch_out_of_resources e = refused w o (λ n h. cc)

    -- A launch that is not the last one, or that fails.
    tried :
        (n : ℕ) (w : World)
        → Open runtime size q bytes symbols out w
        → Open runtime size q bytes symbols out (record w { calls = launch n ∷ w.calls })
    tried n w o = record {
      is_open = o.is_open;
      buffer = o.buffer;
      memory = o.memory;
      begins = o.begins;
      symbols_at = o.symbols_at;
      out_at = o.out_at;
      within = (tt, o.within);
    }

    rejected :
        (n : ℕ) (w : World)
        → Open runtime size q bytes symbols out w
        → is_success (runtime.answer (launch n ∷ w.calls)) ≡ false
        → Failed runtime size q (negsuc 5) (record w { calls = launch n ∷ w.calls })
    unfolding code_of
    rejected n w o wrong = record {
      ready = ready w o;
      within = (tt, o.within);
      explained = inr (inr (refl, wrong));
    }

    ran :
        (n : ℕ) (w : World)
        → (0 < n) × (n ≤ q.num_threads)
        → Open runtime size q bytes symbols out w
        → Searched runtime size q bytes symbols
            (λ _. out)
            (record w {
              calls = launch n ∷ w.calls;
              device = runtime.run_kernel q.num_blocks n q.iterations_per_thread w.device;
            })
    ran n w live o =
        let (still_open, same_size, same_memory) =
          laws.run_kernel_keeps q.num_blocks n q.iterations_per_thread w.device in
        record {
          threads_taken = n;
          positive = live.0;
          at_most = live.1;
          given = w.device;
          begins = o.begins;
          symbols_at = o.symbols_at;
          device_at = refl;
          out_at = o.out_at;
          is_open = still_open ∙ o.is_open;
          buffer = same_size ∙ o.buffer;
          memory = same_memory ∙ o.memory;
          within = (tt, o.within);
        }

    -- One launch, whatever the answer.
    launched-Searched :
        (fuel n : ℕ) (w : World)
        → (0 < n) × (n ≤ q.num_threads)
        → Open runtime size q bytes symbols out w
        → (1 < n
            → Triple
                (Open runtime size q bytes symbols out)
                (launch_loop runtime fuel q.num_blocks q.iterations_per_thread (n / 2))
                (λ _. Searched runtime size q bytes symbols (λ _. out))
                (Failed runtime size q))
        → (r : Status) → runtime.answer (launch n ∷ w.calls) ≡ r
        → After
            (λ _. Searched runtime size q bytes symbols (λ _. out))
            (Failed runtime size q)
            (launched runtime r n
              (record w {
                calls = launch n ∷ w.calls;
                device = runtime.run_kernel q.num_blocks n q.iterations_per_thread w.device;
              })
              (record w { calls = launch n ∷ w.calls })
              (launch_loop runtime fuel q.num_blocks q.iterations_per_thread
                (n / 2)
                (record w { calls = launch n ∷ w.calls })))
    launched-Searched fuel n w live o again success e = ran n w live o
    launched-Searched fuel n w live o again Status.launch_out_of_resources e =
        After-if (λ _. Searched runtime size q bytes symbols (λ _. out)) (Failed runtime size q)
          (ltb 1 n) _ _ (λ h. (again (ltb→lt 1 n h)).holds _ (tried n w o))
          (λ h. rejected n w o (rw e refl))
    launched-Searched fuel n w live o again (failure x) e = rejected n w o (rw e refl)

    -- The loop ends with the kernel run or with a code: the fuel covers the threads.
    launch_loop-Searched :
        (fuel n : ℕ)
        → 0 < n
        → n ≤ q.num_threads
        → n ≤ fuel
        → Triple
            (Open runtime size q bytes symbols out)
            (launch_loop runtime fuel q.num_blocks q.iterations_per_thread n)
            (λ _. Searched runtime size q bytes symbols (λ _. out))
            (Failed runtime size q)
    unfolding launch_loop
    launch_loop-Searched zero n live few le = absurd (omega (arith, live, le))
    launch_loop-Searched (suc fuel) n live few le =
        let again = λ (h : 1 < n).
          launch_loop-Searched fuel (n / 2) (omega (arith, h)) (omega (arith, few))
            (omega (arith, h, le)) in
        record {
          holds = λ w o.
              launched-Searched fuel n w (live, few) o again (runtime.answer (launch n ∷ w.calls))
                refl;
        }

    pub run_search-Searched :
        Triple
          (Open runtime size q bytes symbols out)
          (run_search runtime q)
          (λ _. Searched runtime size q bytes symbols (λ _. out))
          (Failed runtime size q)
    unfolding run_search
    run_search-Searched =
        bind-Triple select_threads-Open (λ n. bind-Triple (searched n) (λ _. waited))
      where
        searched :
            (n : ℕ)
            → Triple
                (λ w. ((0 < n) × (n ≤ q.num_threads)) × Open runtime size q bytes symbols out w)
                (launch_loop runtime n q.num_blocks q.iterations_per_thread n)
                (λ _. Searched runtime size q bytes symbols (λ _. out))
                (Failed runtime size q)
        searched n = record {
          holds = λ w o. (launch_loop-Searched n n o.0.0 o.0.1 (omega arith)).holds w o.1;
        }

        waited :
            Triple
              (Searched runtime size q bytes symbols (λ _. out))
              (call runtime synchronize (negsuc 4) same)
              (λ _. Searched runtime size q bytes symbols (λ _. out))
              (Failed runtime size q)
        waited =
            unfold code_of in
            answered runtime laws size q bytes symbols synchronize same (λ _. out) (λ _. out)
              (λ w. refl) (λ w. refl) (λ w e. e) tt
