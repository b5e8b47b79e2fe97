-- ===== src/Earlier/Opening.antt =====
-- How a round of kernels/eth_vanity_optimized.cu opens the buffer.
use vanity_generator_evm_svm.Common.{ℕ, ◌≡◌, refl, ℤ, inl}
use vanity_generator_evm_svm.Common.{Bool, true, false, List, ◌∷◌, length, All, pos}
use vanity_generator_evm_svm.Host.{
  Runtime, Device, World, ◌>>◌, guard, modify, same, Call, valid_id,
}
use vanity_generator_evm_svm.Host.{set_device, malloc}
use vanity_generator_evm_svm.Host.Rounds.{eth_buffer_size, mark_sol}
use vanity_generator_evm_svm.Host.Hoare.{Triple, bind-Triple, After-if}
use vanity_generator_evm_svm.Host.Stages.{IsReady, IsWithin, RuntimeLaws}
use vanity_generator_evm_svm.Earlier.{allocated}
use vanity_generator_evm_svm.Earlier.Persistent.{tried, open_optimized}
use vanity_generator_evm_svm.Earlier.Opened.{Left, Up, tried-Triple, as_before}

module _ (runtime : Runtime) (laws : RuntimeLaws runtime) (id : ℤ) (first : List ℕ) where
  -- A closed context; `p` says more of it.
  record Cold (p : Device → Type 0) (w : World) : Type 0 where
    not_open : w.device.initialized ≡ false
    out_at : w.out ≡ first
    within : All (IsWithin eth_buffer_size) w.calls
    more : p w.device

  tried-Cold :
      (c : Call) (effect : World → World) (p r : Device → Type 0)
      → IsWithin eth_buffer_size c
      → ((w : World) → Cold p w → Cold r (effect w))
      → Triple (Cold p) (tried runtime c effect) (λ _. Cold r) (Left runtime id)
  tried-Cold c effect p r fits keeps =
      tried-Triple runtime laws id c effect (Cold p) (Cold r)
        (λ w u.
          keeps (record w { calls = c ∷ w.calls })
            (record {
              not_open = u.not_open;
              out_at = u.out_at;
              within = (fits, u.within);
              more = u.more;
            }))
        (λ w u. let shut = u.not_open in (λ e. cc, (fits, u.within)))

  abbrev IsNoted : Device → Type 0
  IsNoted d = d.buffer_size ≡ eth_buffer_size

  abbrev IsAllocated : Device → Type 0
  IsAllocated d = IsNoted d × (length d.memory ≡ eth_buffer_size)

  noted :
      Triple
        (Cold (λ d. Unit))
        (modify (λ d. record d { buffer_size = eth_buffer_size }))
        (λ _. Cold IsNoted)
        (Left runtime id)
  noted = record {
    holds =
        λ w u. record { not_open = u.not_open; out_at = u.out_at; within = u.within; more = refl };
  }

  malloc-Cold :
      Triple
        (Cold IsNoted)
        (tried runtime (malloc eth_buffer_size) (allocated runtime eth_buffer_size))
        (λ _. Cold IsAllocated)
        (Left runtime id)
  malloc-Cold = tried-Cold (malloc eth_buffer_size) _ IsNoted IsAllocated tt (λ w u. record {
    not_open = u.not_open;
    out_at = u.out_at;
    within = u.within;
    more = (u.more, laws.length-fresh eth_buffer_size);
  })

  marked :
      Triple
        (Cold IsAllocated)
        (modify mark_sol)
        (λ _. Up runtime laws id (as_before runtime laws id first))
        (Left runtime id)
  marked = record {
    holds = λ w u. record {
      is_open = refl;
      buffer = u.more.0;
      memory = u.more.1;
      out_at = u.out_at;
      within = u.within;
    };
  }

  opened :
      Triple
        (Cold (λ d. Unit))
        (do
          tried runtime set_device same
          modify (λ d. record d { buffer_size = eth_buffer_size })
          tried runtime (malloc eth_buffer_size) (allocated runtime eth_buffer_size)
          modify mark_sol)
        (λ _. Up runtime laws id (as_before runtime laws id first))
        (Left runtime id)
  opened =
      bind-Triple (tried-Cold set_device same _ _ tt (λ w u. u))
        (λ _. bind-Triple noted (λ _. bind-Triple malloc-Cold (λ _. marked)))

  -- Before the buffer is known to be open.
  abbrev pub Before : World → Type 0
  Before w =
      (w.out ≡ first) × IsReady eth_buffer_size w.device × All (IsWithin eth_buffer_size) w.calls

  pub open_optimized-Up :
      Triple Before
        (open_optimized runtime)
        (λ _. Up runtime laws id (as_before runtime laws id first))
        (Left runtime id)
  unfolding open_optimized
  open_optimized-Up = record {
    holds = λ w (out_at, ready, within).
        After-if _ _ w.device.initialized _ _
          (λ yes. record {
            is_open = yes;
            buffer = (ready yes).0;
            memory = (ready yes).1;
            out_at = out_at;
            within = within;
          })
          (λ no.
            opened.holds w (record { not_open = no; out_at = out_at; within = within; more = tt }));
  }

  guard_by :
      (test : Bool)
      → valid_id id ≡ test
      → Triple Before (guard test (pos 0)) (λ _. Before) (Left runtime id)
  guard_by true e = record { holds = λ w b. b }
  guard_by false e = record { holds = λ w (out_at, ready, within). (ready, within, inl e) }

  pub guard-Before : Triple Before (guard (valid_id id) (pos 0)) (λ _. Before) (Left runtime id)
  guard-Before = guard_by (valid_id id) refl
