-- ===== src/Kernels/Threads.antt =====
-- The scheduler of am-kernels/kernels/thread-os, on several processors. A context is a number, the
-- handle that the machine's trap code gives; `cpu_count()` is a parameter.
use triathlon.Prelude.{
  ℕ, zero, suc, ◌+◌, ◌%◌, Bool, Option, none, some, ◌==◌, if◌then◌else◌, List, [], ◌∷◌,
}
use triathlon.Prelude.Store.{Store, update}
pub mod Apart

-- The number of entries of `tasks`.
abbrev pub task_count : ℕ
task_count = 5

-- `currents`, where `none` is NULL and a task is its index in `tasks`, and their contexts.
pub record Tasks : Type 0 where
  pub currents : ℕ → Option ℕ
  pub context : Store

-- `currents[cpu] = t`.
unfoldable pub set_current : ℕ → ℕ → (ℕ → Option ℕ) → ℕ → Option ℕ
set_current cpu t currents c = if c == cpu then some t else currents c

-- `task->next`, as `main` links the tasks.
unfoldable pub next_task : ℕ → ℕ
next_task t = (t + 1) % task_count

-- The `do` loop: the first task after `t` that is the processor's.
unfoldable pub pick : ℕ → ℕ → ℕ → ℕ → Option ℕ
pick zero cpu_count cpu t = none
pick (suc fuel) cpu_count cpu t =
    let rest = pick fuel cpu_count cpu (next_task t) in
    if next_task t % cpu_count == cpu then some (next_task t) else rest

-- `if (!current) current = &tasks[0]; else current->context = ctx`: the task that the loop starts
-- from, and the contexts.
unfoldable pub save : ℕ → ℕ → Tasks → ℕ × Store
save cpu ctx s = elim (s.currents cpu) [
  | none ↦ (0, s.context)
  | some t ↦ (t, update s.context t ctx)
]

-- The context to go on with, and the tasks after it.
unfoldable pub on_interrupt : ℕ → ℕ → ℕ → ℕ → Tasks → Option (ℕ × Tasks)
on_interrupt fuel cpu_count cpu ctx s =
    let (t, context) = save cpu ctx s in
    elim (pick fuel cpu_count cpu t) [
      | none ↦ none
      | some t' ↦
          some (context t', record { currents = set_current cpu t' s.currents; context = context })
    ]

-- Interrupts, of a processor with the context that it interrupts, in the order in which they come.
unfoldable pub interrupts : ℕ → ℕ → List (ℕ × ℕ) → Tasks → Option Tasks
interrupts fuel cpu_count [] s = some s
interrupts fuel cpu_count ((cpu, ctx) ∷ es) s = elim (on_interrupt fuel cpu_count cpu ctx s) [
  | none ↦ none
  | some (_, s') ↦ interrupts fuel cpu_count es s'
]
