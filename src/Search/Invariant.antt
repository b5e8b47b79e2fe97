-- ===== src/Search/Invariant.antt =====
-- What holds in every state that the threads of a launch reach.
use vanity_generator_evm_svm.Common.{ℕ, zero, suc, ◌+◌, ◌≤◌, ◌<◌, ◌≡◌, refl, ap, ◌∙◌, sym}
use vanity_generator_evm_svm.Common.{arith, Option, none, some, ltb, ◌==◌}
use vanity_generator_evm_svm.Common.{◌⊎◌, inl, inr, u64, ◌&&◌, Bool-cases, ltb→lt}
use vanity_generator_evm_svm.Search.{Kernel, Globals, Verdict, skipped, missed, hit}
use vanity_generator_evm_svm.Search.{
  Pc, head, work, claim, publish, add_encodes, add_count, stopped,
}
use vanity_generator_evm_svm.Search.{leave, step_head, after_test, step}
use vanity_generator_evm_svm.Search.Threads.{update, sum_over, sum_over-update, sum_over-zero}
use vanity_generator_evm_svm.Search.System.{System, turn, launch, Reach, start, later}
use native.Mathlib.Numerals.{add-one}
use native.Mathlib.Decide.{ℕ_discrete}
use mathlib.Core.Path.{subst}
use mathlib.Core.Logic.{if_pos, if_neg}
use native.Mathlib.Nat.{le_refl}
use vanity_generator_evm_svm.Common.{==_iff}

abbrev pub NotHit : {H : Type 0} → Verdict H → Type 0
NotHit skipped = Unit
NotHit missed = Unit
NotHit (hit h) = ⊥

module _ (k : Kernel) (locals : ℕ → k.Local) where
  open k use {Local, Hit, test, advance, counts_encodes, polls, iterations_per_thread}

  -- The local state of thread `i` after `m` iterations.
  abbrev pub local_at : ℕ → ℕ → Local
  local_at i zero = locals i
  local_at i (suc m) = advance (local_at i m)

  -- None of the first `m` candidates of thread `i` matches.
  abbrev pub Clean : ℕ → ℕ → Type 0
  Clean i m = (j : ℕ) → j < m → NotHit (test (local_at i j))

  -- Candidate `m` of thread `i` is the match `h`.
  abbrev pub Found : ℕ → ℕ → Hit → Type 0
  Found i m h = (m < iterations_per_thread) × (test (local_at i m) ≡ hit h)

  -- A thread that has left the loop has seen a match somewhere, or none of its own candidates is one.
  abbrev pub Left : ℕ → ℕ → ℕ → Type 0
  Left done i tried =
      (tried ≤ iterations_per_thread)
      × ((done ≡ 1) ⊎ ((tried ≡ iterations_per_thread) × Clean i iterations_per_thread))

  abbrev pub IsOk : ℕ → ℕ → Pc k → Type 0
  IsOk done i (head iter e l) =
      (iter ≤ iterations_per_thread) × (l ≡ local_at i iter) × Clean i iter
  IsOk done i (work iter e l) =
      (iter < iterations_per_thread) × (l ≡ local_at i iter) × Clean i iter
  IsOk done i (claim iter e h) = Found i iter h
  IsOk done i (publish iter e h) = (done ≡ 1) × Found i iter h
  IsOk done i (add_encodes e tried) = Left done i tried
  IsOk done i (add_count tried) = Left done i tried
  IsOk done i (stopped tried) = Left done i tried

  -- A thread that has won and not yet written `out`.
  abbrev pub publishing : Pc k → ℕ
  publishing (publish iter e h) = 1
  publishing _ = 0

  abbrev pub written : Option Hit → ℕ
  written none = 0
  written (some h) = 1

  -- What a thread has added to `count`.
  abbrev pub counted : Pc k → ℕ
  counted (stopped tried) = tried
  counted _ = 0

  pub record Inv (n : ℕ) (s : System k) : Type 0 where
    pub flag : s.globals.done ≤ 1
    pub one_winner : sum_over publishing s.pc n + written s.globals.out ≡ s.globals.done
    pub ok : (i : ℕ) → i < n → IsOk s.globals.done i (s.pc i)
    pub genuine : (h : Hit) → s.globals.out ≡ some h → (i : ℕ) × (i < n) × ((m : ℕ) × Found i m h)
    pub total : s.globals.count ≡ u64 (sum_over counted s.pc n)

  -- A larger `done` keeps what is known of the other threads.
  Left-mono : (i tried d d' : ℕ) → d ≤ d' → d' ≤ 1 → Left d i tried → Left d' i tried
  Left-mono i tried d d' le one (a, inl e) = (a, inl (omega arith))
  Left-mono i tried d d' le one (a, inr r) = (a, inr r)

  IsOk-mono : (i : ℕ) (d d' : ℕ) (p : Pc k) → d ≤ d' → d' ≤ 1 → IsOk d i p → IsOk d' i p
  IsOk-mono i d d' (head iter e l) le one h = h
  IsOk-mono i d d' (work iter e l) le one h = h
  IsOk-mono i d d' (claim iter e h') le one h = h
  IsOk-mono i d d' (publish iter e h') le one h = (omega arith, h.1)
  IsOk-mono i d d' (add_encodes e tried) le one h = Left-mono i tried d d' le one h
  IsOk-mono i d d' (add_count tried) le one h = Left-mono i tried d d' le one h
  IsOk-mono i d d' (stopped tried) le one h = Left-mono i tried d d' le one h

  leave-IsOk : (d i e tried : ℕ) → Left d i tried → IsOk d i (leave k e tried)
  unfolding leave
  leave-IsOk d i e tried h = elim (Bool-cases counts_encodes) [ inl c ↦ rw c h | inr c ↦ rw c h ]

  leave_weights :
      (e tried : ℕ) → (publishing (leave k e tried) ≡ 0) × (counted (leave k e tried) ≡ 0)
  unfolding leave
  leave_weights e tried = elim (Bool-cases counts_encodes) [
    | inl c ↦ rw c (refl, refl)
    | inr c ↦ rw c (refl, refl)
  ]

  step_head-IsOk :
      (g : Globals Hit) (i iter e : ℕ) (l : Local)
      → IsOk g.done i (head iter e l)
      → IsOk g.done i (step_head k g iter e l)
  unfolding step_head
  step_head-IsOk g i iter e l (le, at_l, clean) =
      elim (Bool-cases (ltb iter iterations_per_thread)) [
        | inr finished ↦ rw finished (
            leave-IsOk g.done i e iterations_per_thread
              (omega arith, inr (refl, subst (Clean i) (ground arith) clean)))
        | inl going ↦ elim (Bool-cases (polls iter && g.done == 1)) [
          | inl seen ↦ rw (going, seen) (leave-IsOk g.done i e iter (le, inl (ground arith)))
          | inr unseen ↦ rw (going, unseen) (ltb→lt _ _ going, at_l, clean)
        ]
      ]

  Clean-suc : (i m : ℕ) → Clean i m → NotHit (test (local_at i m)) → Clean i (m + 1)
  Clean-suc i m clean last j lt = elim (ℕ_discrete j m) [
    | yes here ↦ rw here last
    | no earlier ↦ clean j (omega arith)
  ]

  local_at-suc : (i m : ℕ) → advance (local_at i m) ≡ local_at i (m + 1)
  local_at-suc i m = rw (add-one m) refl

  after_test-IsOk :
      (d i iter e : ℕ) (l : Local) (v : Verdict Hit)
      → test l ≡ v
      → IsOk d i (work iter e l)
      → IsOk d i (after_test k iter e l v)
  after_test-IsOk d i iter e l skipped eq (lt, at_l, clean) =
      (omega arith, ap advance at_l ∙ local_at-suc i iter, Clean-suc i iter clean here)
    where
      here : NotHit (test (local_at i iter))
      here = subst NotHit (sym eq ∙ ap test at_l) tt
  after_test-IsOk d i iter e l missed eq (lt, at_l, clean) =
      (omega arith, ap advance at_l ∙ local_at-suc i iter, Clean-suc i iter clean here)
    where
      here : NotHit (test (local_at i iter))
      here = subst NotHit (sym eq ∙ ap test at_l) tt
  after_test-IsOk d i iter e l (hit h) eq (lt, at_l, clean) = (lt, ap test (sym at_l) ∙ eq)

  after_test_weights :
      (iter e : ℕ) (l : Local) (v : Verdict Hit)
      → (publishing (after_test k iter e l v) ≡ 0) × (counted (after_test k iter e l v) ≡ 0)
  after_test_weights iter e l skipped = (refl, refl)
  after_test_weights iter e l missed = (refl, refl)
  after_test_weights iter e l (hit h) = (refl, refl)

  step_head_weights :
      (g : Globals Hit) (iter e : ℕ) (l : Local)
      → (publishing (step_head k g iter e l) ≡ 0) × (counted (step_head k g iter e l) ≡ 0)
  unfolding step_head
  step_head_weights g iter e l = elim (Bool-cases (ltb iter iterations_per_thread)) [
    | inr finished ↦ rw finished (leave_weights e iterations_per_thread)
    | inl going ↦ elim (Bool-cases (polls iter && g.done == 1)) [
      | inl seen ↦ rw (going, seen) (leave_weights e iter)
      | inr unseen ↦ rw (going, unseen) (refl, refl)
    ]
  ]

  -- One step of thread `i`, on its own.
  record Stepped (g g' : Globals Hit) (i : ℕ) (p p' : Pc k) : Type 0 where
    flag : g'.done ≤ 1
    grows : g.done ≤ g'.done
    okay : IsOk g'.done i p'
    winners : publishing p' + written g'.out + g.done ≡ publishing p + written g.out + g'.done
    totals :
        (g'.count ≡ u64 (g.count + counted p')) × (counted p ≡ 0)
        ⊎ (g'.count ≡ g.count) × (counted p' ≡ counted p)
    source : (g'.out ≡ g.out) ⊎ ((h : Hit) × (g'.out ≡ some h) × ((m : ℕ) × Found i m h))

  step_lem :
      (g : Globals Hit) (i : ℕ) (p : Pc k)
      → g.done ≤ 1
      → (publishing p ≡ 1 → written g.out ≡ 0)
      → IsOk g.done i p
      → Stepped g (step k g p).0 i p (step k g p).1
  unfolding step
  step_lem g i (head iter e l) flag fresh ok =
      let (pub0, cnt0) = step_head_weights g iter e l in
      record {
        flag = flag;
        grows = le_refl _;
        okay = step_head-IsOk g i iter e l ok;
        winners = omega (arith, pub0);
        totals = inr (refl, cnt0);
        source = inl refl;
      }
  step_lem g i (work iter e l) flag fresh ok =
      let (pub0, cnt0) = after_test_weights iter e l (test l) in
      record {
        flag = flag;
        grows = le_refl _;
        okay = after_test-IsOk g.done i iter e l (test l) refl ok;
        winners = omega (arith, pub0);
        totals = inr (refl, cnt0);
        source = inl refl;
      }
  step_lem g i (claim iter e h) flag fresh ok = elim (Bool-cases (g.done == 0)) [
    | inl first ↦
        let none_yet : g.done ≡ 0 = (==_iff g.done 0).0 first in
        rw first (record {
          flag = omega arith;
          grows = omega arith;
          okay = (omega arith, ok);
          winners = omega arith;
          totals = inr (refl, refl);
          source = inl refl;
        })
    | inr later_on ↦
        let (pub0, cnt0) = leave_weights e (iter + 1) in
        let seen : g.done ≡ 1 = ground arith in
        rw later_on (record {
          flag = omega arith;
          grows = omega arith;
          okay = leave-IsOk _ i e (iter + 1) (omega (arith, ok.0), inl (omega arith));
          winners = omega (arith, pub0);
          totals = inr (refl, cnt0);
          source = inl refl;
        })
  ]
  step_lem g i (publish iter e h) flag fresh (seen, found) =
      let (pub0, cnt0) = leave_weights e (iter + 1) in
      let unwritten : written g.out ≡ 0 = fresh refl in
      record {
        flag = flag;
        grows = le_refl _;
        okay = leave-IsOk g.done i e (iter + 1) (omega (arith, found.0), inl seen);
        winners = omega (arith, pub0, unwritten);
        totals = inr (refl, cnt0);
        source = inr (h, refl, (iter, found));
      }
  step_lem g i (add_encodes e tried) flag fresh ok = record {
    flag = flag;
    grows = le_refl _;
    okay = ok;
    winners = refl;
    totals = inr (refl, refl);
    source = inl refl;
  }
  step_lem g i (add_count tried) flag fresh ok = record {
    flag = flag;
    grows = le_refl _;
    okay = ok;
    winners = refl;
    totals = inl (refl, refl);
    source = inl refl;
  }
  step_lem g i (stopped tried) flag fresh ok = record {
    flag = flag;
    grows = le_refl _;
    okay = ok;
    winners = refl;
    totals = inr (refl, refl);
    source = inl refl;
  }

  module _ (n : ℕ) (s : System k) (inv : Inv n s) (i : ℕ) (lt : i < n) where
    open s use {globals, pc}

    abbrev globals' : Globals Hit
    globals' = (step k globals (pc i)).0

    abbrev pc' : Pc k
    pc' = (step k globals (pc i)).1

    -- A thread at `publish` is the one winner, and nothing is written yet.
    unwritten : publishing (pc i) ≡ 1 → written globals.out ≡ 0
    unwritten e =
        omega (arith, inv.flag, inv.one_winner, sum_over-update publishing i (stopped 0) pc n lt)

    stepped : Stepped globals globals' i (pc i) pc'
    stepped = step_lem globals i (pc i) inv.flag unwritten (inv.ok i lt)

    totals_kept : globals'.count ≡ u64 (sum_over counted (update i pc' pc) n)
    totals_kept = elim stepped.totals [
      | inl (added, zero_before) ↦
          omega (arith, added, zero_before, inv.total, sum_over-update counted i pc' pc n lt)
      | inr (same, unchanged) ↦
          omega (arith, same, unchanged, inv.total, sum_over-update counted i pc' pc n lt)
    ]

    genuine_kept : (h : Hit) → globals'.out ≡ some h → (j : ℕ) × (j < n) × ((m : ℕ) × Found j m h)
    genuine_kept h e = elim stepped.source [
      | inl same ↦ inv.genuine h (sym same ∙ e)
      | inr (h', now, (m, found)) ↦ (i, lt, (m, subst (Found i m) (some_eq (sym now ∙ e)) found))
    ]
      where
        some_eq : {a b : Hit} → some a ≡ some b → a ≡ b
        some_eq p = cc

    pub turn-Inv : Inv n (turn k s i)
    turn-Inv = record {
      flag = stepped.flag;
      one_winner =
          omega (arith, stepped.winners, inv.one_winner, sum_over-update publishing i pc' pc n lt);
      ok = others;
      genuine = genuine_kept;
      total = totals_kept;
    }
      where
        others : (j : ℕ) → j < n → IsOk globals'.done j (update i pc' pc j)
        others j ltj = elim (ℕ_discrete j i) [
          | yes same ↦
              rw (if_pos _ same) (subst (λ t. IsOk globals'.done t pc') (sym same) stepped.okay)
          | no other ↦ rw (if_neg _ other) (
              IsOk-mono j globals.done globals'.done (pc j) stepped.grows stepped.flag
                (inv.ok j ltj))
        ]

  launch-Inv : (n : ℕ) → Inv n (launch k locals)
  launch-Inv n = record {
    flag = omega arith;
    one_winner =
        omega (arith, sum_over-zero publishing (λ i. head 0 0 (locals i)) n (λ i lt. refl));
    ok = λ i lt. (omega arith, refl, λ j absurd_lt. absurd (omega arith));
    genuine = λ h e. cc;
    total = omega (arith, sum_over-zero counted (λ i. head 0 0 (locals i)) n (λ i lt. refl));
  }

  pub Reach-Inv : {n : ℕ} {s : System k} → Reach k n locals s → Inv n s
  Reach-Inv {n} start = launch-Inv n
  Reach-Inv {n} (later {s} i lt r) = turn-Inv n s (Reach-Inv r) i lt
