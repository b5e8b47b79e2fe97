-- ===== src/Host/Copies.antt =====
-- The steps of a round that copy the results.
use vanity_generator_evm_svm.Common.{ℕ, ◌+◌, ◌≤◌, ◌≡◌, refl, ap, ◌∙◌, sym}
use vanity_generator_evm_svm.Common.{List, ◌∷◌, length, take, drop}
use vanity_generator_evm_svm.Host.{Runtime, Device, Symbols, World}
use vanity_generator_evm_svm.Host.{
  Call, copy_from_device, copy_from_symbol, call, copy_out, read_symbol,
}
use vanity_generator_evm_svm.Host.{write_at, le_bytes}
use vanity_generator_evm_svm.Host.Rounds.{Request}
use vanity_generator_evm_svm.Host.Hoare.{Triple}
use vanity_generator_evm_svm.Host.Stages.{IsWithin, code_of, RuntimeLaws, Failed, Searched}
use vanity_generator_evm_svm.Host.Steps.{call-Triple}

module _ (runtime : Runtime) (laws : RuntimeLaws runtime) (size : ℕ) (q : Request) (bytes : List ℕ)
    (symbols : Symbols) where
  -- A checked call after the kernel, which leaves the device alone.
  pub answered :
      (c : Call) (effect : World → World) (out out' : Device → List ℕ)
      → ((w : World) → (effect w).device ≡ w.device)
      → ((w : World) → (effect w).calls ≡ w.calls)
      → ((w : World) → w.out ≡ out w.device → (effect w).out ≡ out' w.device)
      → IsWithin size c
      → Triple
          (Searched runtime size q bytes symbols out)
          (call runtime c (code_of c) effect)
          (λ _. Searched runtime size q bytes symbols out')
          (Failed runtime size q)
  answered c effect out out' keeps logs makes fits =
      call-Triple runtime laws size q c effect _ _
        (λ w s. record {
          threads_taken = s.threads_taken;
          positive = s.positive;
          at_most = s.at_most;
          given = s.given;
          begins = s.begins;
          symbols_at = s.symbols_at;
          device_at = keeps _ ∙ s.device_at;
          out_at = makes _ s.out_at ∙ ap out' (sym (keeps _));
          is_open = ap (λ (d : Device). d.initialized) (keeps _) ∙ s.is_open;
          buffer = ap (λ (d : Device). d.buffer_size) (keeps _) ∙ s.buffer;
          memory = ap (λ (d : Device). length d.memory) (keeps _) ∙ s.memory;
          within = rw (logs (record w { calls = c ∷ w.calls })) (fits, s.within);
        })
        (λ w s. (λ e. (s.buffer, s.memory), (fits, s.within)))

  pub copy_out-Searched :
      (offset n : ℕ) (out : Device → List ℕ)
      → offset + n ≤ size
      → Triple
          (Searched runtime size q bytes symbols out)
          (copy_out runtime offset n)
          (λ _.
            Searched runtime size q bytes symbols
              (λ d. write_at 0 (take n (drop offset d.memory)) (out d)))
          (Failed runtime size q)
  copy_out-Searched offset n out fits =
      unfold code_of in
      answered (copy_from_device offset n) _ out
        (λ d. write_at 0 (take n (drop offset d.memory)) (out d)) (λ w. refl) (λ w. refl)
        (λ w e. ap (write_at 0 (take n (drop offset w.device.memory))) e) fits

  pub read_symbol-Searched :
      (at n : ℕ) (f : Symbols → ℕ) (out : Device → List ℕ)
      → Triple
          (Searched runtime size q bytes symbols out)
          (read_symbol runtime at n f)
          (λ _.
            Searched runtime size q bytes symbols
              (λ d. write_at at (le_bytes n (f d.symbols)) (out d)))
          (Failed runtime size q)
  read_symbol-Searched at n f out =
      unfold code_of in
      answered copy_from_symbol _ out (λ d. write_at at (le_bytes n (f d.symbols)) (out d))
        (λ w. refl) (λ w. refl) (λ w e. ap (write_at at (le_bytes n (f w.device.symbols))) e) tt
