-- ===== src/Host/Hoare.antt =====
-- Reasoning about host functions: what holds when they go on, and when they have returned.
use vanity_generator_evm_svm.Common.{ℤ, Bool, true, false, if◌then◌else◌, ◌≡◌, refl}
use vanity_generator_evm_svm.Host.{World, Outcome, going, returned, Host, ◌>>=◌}

-- `Q` on going on, `E` on a return.
abbrev pub After {ℓ} :
    {A : Type ℓ} → (A → World → Type 0) → (ℤ → World → Type 0) → Outcome A × World → Type 0
After Q E (going a, w) = Q a w
After Q E (returned c, w) = E c w

-- From `P`, the function `m` goes on with `Q` or has returned with `E`.
pub record Triple {ℓ} {A : Type ℓ} (P : World → Type 0) (m : Host A) (Q : A → World → Type 0)
    (E : ℤ → World → Type 0) : Type 0 where
  pub holds : (w : World) → P w → After Q E (m w)

After-bind {ℓ κ} :
    {A : Type ℓ} {B : Type κ} (E : ℤ → World → Type 0) (Q : A → World → Type 0)
    (R : B → World → Type 0) (r : Outcome A × World) (f : A → Host B)
    → After Q E r
    → ((a : A) → Triple (Q a) (f a) R E)
    → After R E (◌>>=◌ (λ w. r) f r.1)
After-bind E Q R (going a, w) f h k = (k a).holds w h
After-bind E Q R (returned c, w) f h k = h

-- One step after another.
pub bind-Triple {ℓ κ} :
    {A : Type ℓ} {B : Type κ} {P : World → Type 0} {Q : A → World → Type 0} {R : B → World → Type 0}
    {E : ℤ → World → Type 0} {m : Host A} {f : A → Host B}
    → Triple P m Q E
    → ((a : A) → Triple (Q a) (f a) R E)
    → Triple P (m >>= f) R E
bind-Triple {Q = Q} {R = R} {E = E} {m = m} {f = f} h k = record {
  holds = λ w p. After-bind E Q R (m w) f (h.holds w p) k;
}

-- Either of two ways to go on, by a test.
pub After-if {ℓ} :
    {A : Type ℓ} (Q : A → World → Type 0) (E : ℤ → World → Type 0) (test : Bool)
    (r r' : Outcome A × World)
    → (test ≡ true → After Q E r)
    → (test ≡ false → After Q E r')
    → After Q E (if test then r else r')
After-if Q E true r r' yes_case no_case = yes_case refl
After-if Q E false r r' yes_case no_case = no_case refl

-- A weaker claim for going on.
pub After-map {ℓ} :
    {A : Type ℓ} {Q R : A → World → Type 0} (E : ℤ → World → Type 0)
    → ((a : A) (w : World) → Q a w → R a w)
    → (r : Outcome A × World) → After Q E r
    → After R E r
After-map E f (going a, w) h = f a w h
After-map E f (returned c, w) h = h

-- The rule of consequence.
pub consequence-Triple {ℓ} :
    {A : Type ℓ} {P P' : World → Type 0} {Q Q' : A → World → Type 0} {E E' : ℤ → World → Type 0}
    {m : Host A}
    → Triple P m Q E
    → ((w : World) → P' w → P w)
    → ((a : A) (w : World) → Q a w → Q' a w)
    → ((c : ℤ) (w : World) → E c w → E' c w)
    → Triple P' m Q' E'
consequence-Triple {A = A} {Q = Q} {Q' = Q'} {E = E} {E' = E'} {m = m} h before after error =
    record { holds = λ w p. weaken (m w) (h.holds w (before w p)) }
  where
    weaken : (r : Outcome A × World) → After Q E r → After Q' E' r
    weaken (going a, w) x = after a w x
    weaken (returned c, w) x = error c w x
