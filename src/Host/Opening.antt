-- ===== src/Host/Opening.antt =====
-- The steps of a round up to the open buffer.
use vanity_generator_evm_svm.Common.{ℕ, ◌≡◌, refl, ap, ◌∙◌, inl}
use vanity_generator_evm_svm.Common.{Bool, true, false, List, [], length, All, negsuc}
use vanity_generator_evm_svm.Host.{Runtime, Device, Symbols, World}
use vanity_generator_evm_svm.Host.{set_device, malloc}
use vanity_generator_evm_svm.Host.{call, same}
use vanity_generator_evm_svm.Host.{guard, valid_id, modify}
use vanity_generator_evm_svm.Host.Rounds.{Request, mark_sol, mark_eth, allocate, open_sol, open_eth}
use vanity_generator_evm_svm.Host.Hoare.{After, Triple, bind-Triple, After-if}
use vanity_generator_evm_svm.Host.Stages.{
  IsWithin, code_of, IsReady, RuntimeLaws, Failed, Closed, Open,
}
use vanity_generator_evm_svm.Host.Steps.{call-Triple}

module _ (runtime : Runtime) (laws : RuntimeLaws runtime) (size : ℕ) (q : Request) where
  module _ (symbols : Symbols) (out : List ℕ) where
    pub guard-Closed :
        Triple
          (Closed runtime size q symbols out)
          (guard (valid_id q.id) (negsuc 0))
          (λ _. Closed runtime size q symbols out)
          (Failed runtime size q)
    guard-Closed = record { holds = λ w c. outcome w c (valid_id q.id) refl }
      where
        outcome :
            (w : World)
            → Closed runtime size q symbols out w
            → (b : Bool) → valid_id q.id ≡ b
            → After
                (λ _. Closed runtime size q symbols out)
                (Failed runtime size q)
                (guard b (negsuc 0) w)
        outcome w c true e = c
        outcome w c false e = record {
          ready = c.ready;
          within = c.within;
          explained = inl (refl, e);
        }

    -- Between the allocation and the mark that the context is open.
    record Fresh (w : World) : Type 0 where
      symbols_at : w.device.symbols ≡ symbols
      out_at : w.out ≡ out
      buffer : w.device.buffer_size ≡ size
      memory : length w.device.memory ≡ size
      within : All (IsWithin size) w.calls

    -- A closed context, with the size already noted.
    record Sized (w : World) : Type 0 where
      symbols_at : w.device.symbols ≡ symbols
      out_at : w.out ≡ out
      buffer : w.device.buffer_size ≡ size
      not_open : w.device.initialized ≡ false
      within : All (IsWithin size) w.calls

    record Unopened (w : World) : Type 0 where
      symbols_at : w.device.symbols ≡ symbols
      out_at : w.out ≡ out
      not_open : w.device.initialized ≡ false
      within : All (IsWithin size) w.calls

    not-IsReady : (d : Device) → d.initialized ≡ false → IsReady size d
    not-IsReady d e e' = cc

    allocate-Fresh : Triple Unopened (allocate runtime size) (λ _. Fresh) (Failed runtime size q)
    unfolding allocate
    allocate-Fresh = bind-Triple first (λ _. bind-Triple second (λ _. third))
      where
        first :
            Triple Unopened
              (call runtime set_device (negsuc 1) same)
              (λ _. Unopened)
              (Failed runtime size q)
        first =
            unfold code_of in
            call-Triple runtime laws size q set_device same _ _
              (λ w u. record {
                symbols_at = u.symbols_at;
                out_at = u.out_at;
                not_open = u.not_open;
                within = (tt, u.within);
              })
              (λ w u. (not-IsReady w.device u.not_open, (tt, u.within)))

        second :
            Triple Unopened
              (modify (λ d. record d { buffer_size = size }))
              (λ _. Sized)
              (Failed runtime size q)
        second = record {
          holds = λ w u. record {
            symbols_at = u.symbols_at;
            out_at = u.out_at;
            buffer = refl;
            not_open = u.not_open;
            within = u.within;
          };
        }

        third :
            Triple Sized
              (call runtime
                (malloc size)
                (negsuc 2)
                (λ w. record w { device = record w.device { memory = runtime.fresh size } }))
              (λ _. Fresh)
              (Failed runtime size q)
        third =
            unfold code_of in
            call-Triple runtime laws size q (malloc size) _ _ _
              (λ w u. record {
                symbols_at = u.symbols_at;
                out_at = u.out_at;
                buffer = u.buffer;
                memory = laws.length-fresh size;
                within = (tt, u.within);
              })
              (λ w u. (not-IsReady w.device u.not_open, (tt, u.within)))

    -- The mark that the context is open.
    mark-Open :
        (f : Device → Device)
        → ((d : Device)
            → ((f d).initialized ≡ true)
              × ((f d).buffer_size ≡ d.buffer_size)
              × ((f d).memory ≡ d.memory)
              × ((f d).symbols ≡ d.symbols))
        → Triple Fresh (modify f) (λ _. Open runtime size q [] symbols out) (Failed runtime size q)
    mark-Open f keeps = record {
      holds = λ w u.
          let (mark, same_size, same_memory, same_symbols) = keeps w.device in
          record {
            is_open = mark;
            buffer = same_size ∙ u.buffer;
            memory = ap length same_memory ∙ u.memory;
            begins = refl;
            symbols_at = same_symbols ∙ u.symbols_at;
            out_at = u.out_at;
            within = u.within;
          };
    }

    -- A context that is open already.
    opened :
        (w : World)
        → Closed runtime size q symbols out w
        → w.device.initialized ≡ true
        → Open runtime size q [] symbols out w
    opened w c e = record {
      is_open = e;
      buffer = (c.ready e).0;
      memory = (c.ready e).1;
      begins = refl;
      symbols_at = c.symbols_at;
      out_at = c.out_at;
      within = c.within;
    }

    unopened :
        (w : World)
        → Closed runtime size q symbols out w
        → w.device.initialized ≡ false
        → Unopened w
    unopened w c e = record {
      symbols_at = c.symbols_at;
      out_at = c.out_at;
      not_open = e;
      within = c.within;
    }

    pub open_sol-Open :
        Triple
          (Closed runtime size q symbols out)
          (open_sol runtime size)
          (λ _. Open runtime size q [] symbols out)
          (Failed runtime size q)
    unfolding open_sol
    open_sol-Open = record {
      holds = λ w c.
          After-if (λ _. Open runtime size q [] symbols out) (Failed runtime size q)
            w.device.initialized _ _ (opened w c)
            (λ e.
              (bind-Triple allocate-Fresh
                  (λ _. mark-Open (mark_sol) (λ d. (refl, refl, refl, refl)))).holds
                w (unopened w c e));
    }

    pub open_eth-Open :
        Triple
          (Closed runtime size q symbols out)
          (open_eth runtime q size)
          (λ _. Open runtime size q [] symbols out)
          (Failed runtime size q)
    unfolding open_eth
    open_eth-Open = record {
      holds = λ w c.
          After-if (λ _. Open runtime size q [] symbols out) (Failed runtime size q)
            w.device.initialized _ _ (opened w c)
            (λ e.
              (bind-Triple allocate-Fresh
                  (λ _. mark-Open (mark_eth q) (λ d. (refl, refl, refl, refl)))).holds
                w (unopened w c e));
    }
