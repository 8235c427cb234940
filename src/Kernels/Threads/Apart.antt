-- ===== src/Kernels/Threads/Apart.antt =====
-- Two processors never run the same task.
use triathlon.Prelude.{
  some_injective, ℕ, zero, suc, ◌+◌, ◌-◌, ◌%◌, ◌≤◌, ◌<◌, ◌≡◌, ◌≢◌, refl, sym, ap, ◌∙◌, arith,
  Option, some, ◌==◌, List, [], ◌∷◌, Bool-cases, inl, inr, ==_iff, true, false,
}
use native.Mathlib.Nat.{mod-eq_of_lt}
use triathlon.Prelude.Store.{Store}
use triathlon.Kernels.Threads.{Tasks, set_current, next_task, pick, save, on_interrupt, interrupts}

-- Every processor that runs a task runs one of its own.
pub record Own (cpu_count : ℕ) (s : Tasks) : Type 0 where
  pub own : (cpu t : ℕ) → s.currents cpu ≡ some t → (t < 5) × (t % cpu_count ≡ cpu)

-- The loop has found a task of the processor.
pub record Found (cpu_count cpu : ℕ) (out : Option ℕ) : Type 0 where
  pub task : ℕ
  pub returns : out ≡ some task
  pub listed : task < 5
  pub mine : task % cpu_count ≡ cpu

false≢true : false ≢ true
false≢true e = ground arith

-- The task with the processor's own number is `d` behind the next one.
pick-Found :
    (fuel d cpu_count cpu t : ℕ)
    → cpu < cpu_count
    → cpu < 5
    → (next_task t + d) % 5 ≡ cpu
    → d < fuel
    → Found cpu_count cpu (pick fuel cpu_count cpu t)
unfolding pick next_task
pick-Found zero d cpu_count cpu t h k e l = absurd (omega arith)
pick-Found (suc fuel) d cpu_count cpu t h k e l =
    elim (Bool-cases (next_task t % cpu_count == cpu)) [
      | inl hit ↦ record {
        task = next_task t;
        returns = rw (hit, pick) refl;
        listed = omega arith;
        mine = (==_iff (next_task t % cpu_count) cpu).0 hit;
      }
      | inr miss ↦ missed fuel d cpu_count cpu t h k e l miss (pick-Found fuel)
    ]
  where
    missed :
        (fuel d cpu_count cpu t : ℕ)
        → cpu < cpu_count
        → cpu < 5
        → (next_task t + d) % 5 ≡ cpu
        → d < suc fuel
        → (next_task t % cpu_count == cpu) ≡ false
        → ((d cpu_count cpu t : ℕ)
            → cpu < cpu_count
            → cpu < 5
            → (next_task t + d) % 5 ≡ cpu
            → d < fuel
            → Found cpu_count cpu (pick fuel cpu_count cpu t))
        → Found cpu_count cpu (pick (suc fuel) cpu_count cpu t)
    missed fuel zero cpu_count cpu t h k e l miss rest =
        let at : next_task t ≡ cpu = omega arith in
        let small : cpu % cpu_count ≡ cpu = mod-eq_of_lt h in
        absurd (false≢true (sym miss ∙ (==_iff _ _).1 (ap (λ n. n % cpu_count) at ∙ small)))
    missed fuel (suc d) cpu_count cpu t h k e l miss rest =
        let found = rest d cpu_count cpu (next_task t) h k (omega arith) (omega arith) in
        record {
          task = found.task;
          returns = rw (miss, pick) (found.returns);
          listed = found.listed;
          mine = found.mine;
        }

-- Whatever task the search starts from, five rounds find one of the processor's.
pick-five :
    (fuel cpu_count cpu t : ℕ)
    → cpu < cpu_count
    → cpu < 5
    → 5 ≤ fuel
    → Found cpu_count cpu (pick fuel cpu_count cpu t)
unfolding next_task
pick-five fuel cpu_count cpu t h k l =
    pick-Found fuel ((cpu + 5 - (t + 1) % 5) % 5) cpu_count cpu t h k (omega arith) (omega arith)

set_at : (cpu t : ℕ) (currents : ℕ → Option ℕ) → set_current cpu t currents cpu ≡ some t
unfolding set_current
set_at cpu t currents = ground arith

set_elsewhere :
    (cpu t c : ℕ) (currents : ℕ → Option ℕ)
    → (c == cpu) ≡ false
    → set_current cpu t currents c ≡ currents c
unfolding set_current
set_elsewhere cpu t c currents h = rw h refl

set_current-Own :
    (cpu_count cpu t : ℕ) (s : Tasks) (context : Store)
    → Own cpu_count s
    → t < 5
    → t % cpu_count ≡ cpu
    → Own cpu_count (record { currents = set_current cpu t s.currents; context = context })
set_current-Own cpu_count cpu t s context o small mine = record {
  own = λ c u e. elim (Bool-cases (c == cpu)) [
    | inl hit ↦
        let at : c ≡ cpu = (==_iff c cpu).0 hit in
        let same : t ≡ u =
          some_injective t u
            (sym (set_at cpu t s.currents) ∙ ap (set_current cpu t s.currents) (sym at) ∙ e) in
        (omega arith, sym (ap (λ n. n % cpu_count) same) ∙ mine ∙ sym at)
    | inr miss ↦ o.own c u (sym (set_elsewhere cpu t c s.currents miss) ∙ e)
  ];
}

-- An interrupt of one of the processors returns, and leaves each with a task of its own.
pub record Switched (cpu_count : ℕ) (out : Option (ℕ × Tasks)) : Type 0 where
  pub context : ℕ
  pub after : Tasks
  pub returns : out ≡ some (context, after)
  pub own : Own cpu_count after

on_interrupt-Own :
    (fuel cpu_count cpu ctx : ℕ) (s : Tasks)
    → cpu < cpu_count
    → cpu < 5
    → 5 ≤ fuel
    → Own cpu_count s
    → Switched cpu_count (on_interrupt fuel cpu_count cpu ctx s)
unfolding on_interrupt
on_interrupt-Own fuel cpu_count cpu ctx s h k l o =
    let found = pick-five fuel cpu_count cpu (save cpu ctx s).0 h k l in
    record {
      context = (save cpu ctx s).1 found.task;
      after = record {
        currents = set_current cpu found.task s.currents;
        context = (save cpu ctx s).1;
      };
      returns = rw (found.returns, on_interrupt) refl;
      own = set_current-Own cpu_count cpu found.task s (save cpu ctx s).1 o found.listed found.mine;
    }

-- All of them come from processors of the machine, each of which has a task.
abbrev pub FromProcessors : ℕ → List (ℕ × ℕ) → Type 0
FromProcessors cpu_count [] = Unit {0}
FromProcessors cpu_count ((cpu, ctx) ∷ es) =
    (cpu < cpu_count) × (cpu < 5) × FromProcessors cpu_count es

-- What holds after interrupts.
pub record Apart (cpu_count : ℕ) (out : Option Tasks) : Type 0 where
  pub after : Tasks
  pub returns : out ≡ some after
  pub own : Own cpu_count after
  pub apart : (c d t : ℕ) → after.currents c ≡ some t → after.currents d ≡ some t → c ≡ d

-- Interrupts of the processors, in any order, all return, and then no two processors run the same
-- task: each runs one whose number is its own modulo the number of processors. There must be a
-- task for each processor, and at the start every processor that runs a task must run one of the
-- five whose number is its own modulo the number of processors, as when none runs any; five rounds
-- of fuel are enough.
pub interrupts-Apart :
    (fuel cpu_count : ℕ) (es : List (ℕ × ℕ)) (s : Tasks)
    → 5 ≤ fuel
    → FromProcessors cpu_count es
    → Own cpu_count s
    → Apart cpu_count (interrupts fuel cpu_count es s)
unfolding interrupts
interrupts-Apart fuel cpu_count [] s l from o = record {
  after = s;
  returns = refl;
  own = o;
  apart = λ c d t e f. sym (o.own c t e).1 ∙ (o.own d t f).1;
}
interrupts-Apart fuel cpu_count ((cpu, ctx) ∷ es) s l from o =
    let first = on_interrupt-Own fuel cpu_count cpu ctx s from.0 from.1 l o in
    let rest = interrupts-Apart fuel cpu_count es first.after l from.2 first.own in
    record {
      after = rest.after;
      returns = rw (first.returns, interrupts) (rest.returns);
      own = rest.own;
      apart = rest.apart;
    }
