-- ===== src/Search/System.antt =====
-- The threads of one launch over the same globals, in any interleaving.
use vanity_generator_evm_svm.Common.{ℕ, ◌<◌, none, List, [], ◌∷◌, All}
use vanity_generator_evm_svm.Search.{Kernel, Globals, Pc, head, step}
use vanity_generator_evm_svm.Search.Threads.{update}

module _ (k : Kernel) where
  open k use {Local, Hit}

  pub record System : Type 0 where
    pub globals : Globals Hit
    pub pc : ℕ → Pc k

  -- Thread `i` makes its next step.
  abbrev pub turn : System → ℕ → System
  turn s i = record {
    globals = (step k s.globals (s.pc i)).0;
    pc = update i (step k s.globals (s.pc i)).1 s.pc;
  }

  -- The host zeroes the globals and the output; each thread starts from its own local state.
  abbrev pub launch : (ℕ → Local) → System
  launch locals = record {
    globals = record { done = 0; count = 0; encodes = 0; out = none };
    pc = λ i. head 0 0 (locals i);
  }

  -- The states that `n` threads can reach.
  pub data Reach (n : ℕ) (locals : ℕ → Local) : System → Type 0 where
    start : Reach n locals (launch locals)
    later : {s : System} (i : ℕ) → i < n → Reach n locals s → Reach n locals (turn s i)

  -- The threads take their turns in the order of a list.
  abbrev pub run : System → List ℕ → System
  run s [] = s
  run s (i ∷ order) = run (turn s i) order

  pub run-Reach :
      (n : ℕ) (locals : ℕ → Local) (s : System) (order : List ℕ)
      → All (λ i. i < n) order
      → Reach n locals s
      → Reach n locals (run s order)
  run-Reach n locals s [] h r = r
  run-Reach n locals s (i ∷ order) (lt, h) r = run-Reach n locals (turn s i) order h (later i lt r)
