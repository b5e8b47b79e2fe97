-- ===== src/Host/Steps.antt =====
-- Every step of a round, from one stage to the next.
use vanity_generator_evm_svm.Common.{ℕ, ◌+◌, ◌≤◌, ◌≡◌, refl, ap, ◌∙◌, arith, ◌⊎◌, inl, inr}
use vanity_generator_evm_svm.Common.{true, false, Bool-cases, List, ◌∷◌, ◌++◌, length, All, negsuc}
use vanity_generator_evm_svm.Host.{Runtime, Symbols, World, is_success}
use vanity_generator_evm_svm.Host.{Call, set_device, copy_to_device, copy_to_symbol}
use vanity_generator_evm_svm.Host.{call, same, copy_in, set_symbol}
use vanity_generator_evm_svm.Host.Rounds.{Request}
use vanity_generator_evm_svm.Host.Hoare.{After, Triple}
use vanity_generator_evm_svm.Host.Stages.{IsWithin, code_of, IsReady, RuntimeLaws, Failed, Open}
use vanity_generator_evm_svm.Host.Memory.{length-write_at, begins-write_at}

module _ (runtime : Runtime) (laws : RuntimeLaws runtime) (size : ℕ) (q : Request) where
  -- A checked call, with what it keeps when it fails.
  pub call-Triple :
      (c : Call) (effect : World → World) (P Q : World → Type 0)
      → ((w : World) → P w → Q (effect (record w { calls = c ∷ w.calls })))
      → ((w : World) → P w → IsReady size w.device × All (IsWithin size) (c ∷ w.calls))
      → Triple P (call runtime c (code_of c) effect) (λ _. Q) (Failed runtime size q)
  unfolding call
  call-Triple c effect P Q good bad = record {
    holds = λ w p. outcome w p (Bool-cases (is_success (runtime.answer (c ∷ w.calls))));
  }
    where
      outcome :
          (w : World)
          → P w
          → (is_success (runtime.answer (c ∷ w.calls)) ≡ true)
            ⊎ (is_success (runtime.answer (c ∷ w.calls)) ≡ false)
          → After (λ _. Q) (Failed runtime size q) (call runtime c (code_of c) effect w)
      outcome w p (inl fine) = rw fine (good w p)
      outcome w p (inr wrong) = rw wrong (record {
        ready = (bad w p).0;
        within = (bad w p).1;
        explained = inr (inr (refl, wrong));
      })

  module _ (bytes : List ℕ) (symbols : Symbols) (out : List ℕ) where
    open_keeps : (w : World) → Open runtime size q bytes symbols out w → IsReady size w.device
    open_keeps w o e = (o.buffer, o.memory)

    pub set_device-Open :
        Triple
          (Open runtime size q bytes symbols out)
          (call runtime set_device (negsuc 1) same)
          (λ _. Open runtime size q bytes symbols out)
          (Failed runtime size q)
    set_device-Open =
        unfold code_of in
        call-Triple set_device same _ _
          (λ w o. record {
            is_open = o.is_open;
            buffer = o.buffer;
            memory = o.memory;
            begins = o.begins;
            symbols_at = o.symbols_at;
            out_at = o.out_at;
            within = (tt, o.within);
          })
          (λ w o. (open_keeps w o, (tt, o.within)))

    pub copy_in-Open :
        (offset : ℕ) (new : List ℕ)
        → offset ≡ length bytes
        → length bytes + length new ≤ size
        → Triple
            (Open runtime size q bytes symbols out)
            (copy_in runtime offset new)
            (λ _. Open runtime size q (bytes ++ new) symbols out)
            (Failed runtime size q)
    copy_in-Open offset new place fits = rw place (
        unfold code_of in
        call-Triple (copy_to_device (length bytes) (length new)) _ _ _
          (λ w o. record {
            is_open = o.is_open;
            buffer = o.buffer;
            memory =
                length-write_at (length bytes) new w.device.memory (omega (arith, fits, o.memory))
                ∙ o.memory;
            begins = begins-write_at bytes new w.device.memory o.begins;
            symbols_at = o.symbols_at;
            out_at = o.out_at;
            within = (fits, o.within);
          })
          (λ w o. (open_keeps w o, (fits, o.within))))

    pub set_symbol-Open :
        (f : Symbols → Symbols)
        → Triple
            (Open runtime size q bytes symbols out)
            (set_symbol runtime f)
            (λ _. Open runtime size q bytes (f symbols) out)
            (Failed runtime size q)
    set_symbol-Open f =
        unfold code_of in
        call-Triple copy_to_symbol _ _ _
          (λ w o. record {
            is_open = o.is_open;
            buffer = o.buffer;
            memory = o.memory;
            begins = o.begins;
            symbols_at = ap f o.symbols_at;
            out_at = o.out_at;
            within = (tt, o.within);
          })
          (λ w o. (open_keeps w o, (tt, o.within)))
