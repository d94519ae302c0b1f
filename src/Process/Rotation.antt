-- ===== src/Process/Rotation.antt =====
-- The round robin of src/process/scheduler.c.
use loss_os.Prelude.{
  ℕ, zero, suc, ◌+◌, ◌-◌, ◌%◌, ◌<◌, ◌≡◌, ◌≢◌, refl, sym, subst, ◌∙◌, ap, true, false, Option, none,
  some, inl, inr, u32, arith, Bool-cases, Option-cases, ℕ_discrete, eq→==, ne→==,
}
use loss_os.Process.{ProcessTable, ProcessState, Context, process_count_max, is_running}
use loss_os.Process.Scheduler.{set_state, switch_to, switch_from, scheduler_switch_to_next_process}

-- The slot that is looked at after `d` others behind slot `last`.
abbrev pub slot : ℕ → ℕ → ℕ
slot last d = (u32 (last + 1) + d) % process_count_max

-- What the loop answers: the first active slot, in cyclic order.
abbrev pub Rotated : ProcessTable → ℕ → ℕ → Option (ℕ × Context × ProcessTable) → Type 0
Rotated t last fuel none = (d : ℕ) → d < fuel → t.is_process_active (slot last d) ≡ false
Rotated t last fuel (some r) =
    (d : ℕ) × (d < fuel)
    × (r ≡ switch_to t (slot last d))
    × (t.is_process_active (slot last d) ≡ true)
    × ((e : ℕ) → e < d → t.is_process_active (slot last e) ≡ false)

slot-zero : (last : ℕ) → slot last 0 ≡ u32 (last + 1) % process_count_max
slot-zero last = omega arith

slot-suc : (last d : ℕ) → slot (u32 (last + 1) % process_count_max) d ≡ slot last (suc d)
slot-suc last d = omega arith

earlier :
    (t : ProcessTable) (last n : ℕ)
    → t.is_process_active (u32 (last + 1) % process_count_max) ≡ false
    → ((e : ℕ) → e < n → t.is_process_active (slot (u32 (last + 1) % process_count_max) e) ≡ false)
    → (e : ℕ) → e < suc n
    → t.is_process_active (slot last e) ≡ false
earlier t last n miss h zero lt = rw (slot-zero last) miss
earlier t last n miss h (suc e) lt = rw (← slot-suc last e) (h e (omega arith))

Rotated-next :
    (t : ProcessTable) (last fuel : ℕ) (r : Option (ℕ × Context × ProcessTable))
    → t.is_process_active (u32 (last + 1) % process_count_max) ≡ false
    → Rotated t (u32 (last + 1) % process_count_max) fuel r
    → Rotated t last (suc fuel) r
Rotated-next t last fuel none miss h = earlier t last fuel miss h
Rotated-next t last fuel (some r) miss (d, h1, h2, h3, h4) = (
  suc d,
  omega arith,
  subst (λ k. r ≡ switch_to t k) (slot-suc last d) h2,
  subst (λ k. t.is_process_active k ≡ true) (slot-suc last d) h3,
  earlier t last d miss h4,
)

switch_step :
    (t : ProcessTable) (last fuel : ℕ)
    → Rotated t
        (u32 (last + 1) % process_count_max)
        fuel
        (switch_from fuel t (u32 (last + 1) % process_count_max))
    → Rotated t last (suc fuel) (switch_from (suc fuel) t last)
unfolding switch_from
switch_step t last fuel rest =
    elim (Bool-cases (t.is_process_active (u32 (last + 1) % process_count_max))) [
      | inl hit ↦ rw hit (
        0,
        omega arith,
        ap (switch_to t) (sym (slot-zero last)),
        rw (slot-zero last) hit,
        λ e lt. absurd (omega arith),
      )
      | inr miss ↦ rw miss (Rotated-next t last fuel _ miss rest)
    ]

switch_from-Rotated :
    (t : ProcessTable) (fuel last : ℕ) → Rotated t last fuel (switch_from fuel t last)
switch_from-Rotated t zero last = unfold switch_from in λ d lt. absurd (omega arith)
switch_from-Rotated t (suc fuel) last =
    switch_step t last fuel (switch_from-Rotated t fuel (u32 (last + 1) % process_count_max))

-- Every slot is looked at within one round.
reached :
    (last i : ℕ) → i < process_count_max → (d : ℕ) × (d < process_count_max) × (slot last d ≡ i)
reached last i h = ((i + 16 - u32 (last + 1) % 16) % 16, omega arith, omega arith)

-- If any process is active, the loop of the scheduler ends within one round, and it switches to the
-- first active process behind the current one in cyclic order.
pub scheduler_switch_to_next_process_lem :
    (t : ProcessTable) (i : ℕ)
    → i < process_count_max
    → t.is_process_active i ≡ true
    → (d : ℕ) × (d < process_count_max)
      × (scheduler_switch_to_next_process process_count_max t
          ≡ some (switch_to t (slot t.current_running_pid d)))
      × (t.is_process_active (slot t.current_running_pid d) ≡ true)
      × ((e : ℕ) → e < d → t.is_process_active (slot t.current_running_pid e) ≡ false)
unfolding scheduler_switch_to_next_process
scheduler_switch_to_next_process_lem t i lt on =
    elim (Option-cases (switch_from 16 t t.current_running_pid)) [
      | inl nothing ↦ absurd (ground (arith, all_off nothing))
      | inr (r, hit) ↦ let f = found r hit in (f.0, f.1, hit ∙ ap some f.2, f.3, f.4)
    ]
  where
    at : (d : ℕ) × (d < process_count_max) × (slot t.current_running_pid d ≡ i)
    at = reached t.current_running_pid i lt

    all_off : switch_from 16 t t.current_running_pid ≡ none → t.is_process_active i ≡ false
    all_off nothing =
        subst (λ k. t.is_process_active k ≡ false) at.2
          (subst (Rotated t t.current_running_pid 16) nothing
            (switch_from-Rotated t 16 t.current_running_pid) at.0 at.1)

    found :
        (r : ℕ × Context × ProcessTable)
        → switch_from 16 t t.current_running_pid ≡ some r
        → Rotated t t.current_running_pid 16 (some r)
    found r hit =
        subst (Rotated t t.current_running_pid 16) hit
          (switch_from-Rotated t 16 t.current_running_pid)

-- No process but the current one is in the state of running.
abbrev pub IsScheduled : ProcessTable → Type 0
IsScheduled t =
    (pid : ℕ) → is_running (t.process_list pid).process_state ≡ true → pid ≡ t.current_running_pid

state_self :
    (t : ProcessTable) (pid : ℕ) (state : ProcessState)
    → ((set_state t pid state).process_list pid).process_state ≡ state
unfolding set_state
state_self t pid state = rw (eq→== pid pid refl) refl

state_ne :
    (t : ProcessTable) (pid j : ℕ) (state : ProcessState)
    → pid ≢ j
    → ((set_state t pid state).process_list j).process_state ≡ (t.process_list j).process_state
unfolding set_state
state_ne t pid j state h = rw (ne→== pid j h) refl

context-set_state :
    (t : ProcessTable) (pid j : ℕ) (state : ProcessState)
    → ((set_state t pid state).process_list j).context ≡ (t.process_list j).context
unfolding set_state
context-set_state t pid j state = elim (ℕ_discrete pid j) [
  | yes e ↦ rw (eq→== pid j e) (ap (λ k. (t.process_list k).context) e)
  | no ne ↦ rw (ne→== pid j ne) refl
]

stopped :
    (t : ProcessTable) (j : ℕ)
    → IsScheduled t
    → j ≢ t.current_running_pid
    → is_running (t.process_list j).process_state ≡ false
stopped t j h far = elim (Bool-cases (is_running (t.process_list j).process_state)) [
  | inl on ↦ absurd (far (h j on))
  | inr off ↦ off
]

-- Who runs when `pid` has been marked as running and the current process, if another, as ready.
marked :
    (t : ProcessTable) (pid j : ℕ)
    → IsScheduled t
    → pid ≢ t.current_running_pid
    → pid ≢ j
    → is_running
        ((set_state
            (set_state t pid ProcessState.running)
            t.current_running_pid
            ProcessState.ready).process_list
          j).process_state
      ≡ false
marked t pid j h ne other = elim (ℕ_discrete t.current_running_pid j) [
  | yes e ↦
      subst
        (λ k.
          is_running
            ((set_state (set_state t pid ProcessState.running) t.current_running_pid
                ProcessState.ready).process_list
              k).process_state
          ≡ false)
        e
        (ap is_running (
          state_self (set_state t pid ProcessState.running) t.current_running_pid
            ProcessState.ready))
  | no far ↦
      ap is_running (
        state_ne (set_state t pid ProcessState.running) t.current_running_pid j ProcessState.ready
          far
        ∙ state_ne t pid j ProcessState.running other)
      ∙ stopped t j h (λ e. far (sym e))
]

-- If no process but the current one is in the state of running, then after a switch the chosen
-- process is the current one and runs, no other does, and what is switched to is the context in its
-- block.
pub switch_to-IsScheduled :
    (t : ProcessTable) (pid : ℕ)
    → IsScheduled t
    → IsScheduled (switch_to t pid).2
      × ((switch_to t pid).2.current_running_pid ≡ pid)
      × (is_running ((switch_to t pid).2.process_list pid).process_state ≡ true)
      × ((switch_to t pid).1 ≡ ((switch_to t pid).2.process_list pid).context)
unfolding switch_to
switch_to-IsScheduled t pid h = elim (ℕ_discrete pid t.current_running_pid) [
  | yes same ↦ rw (eq→== pid t.current_running_pid same) (
    λ j hj. elim (ℕ_discrete pid j) [
      | yes e ↦ sym e
      | no other ↦
          h j (ap is_running (sym (state_ne t pid j ProcessState.running other)) ∙ hj) ∙ sym same
    ],
    refl,
    ap is_running (state_self t pid ProcessState.running),
    sym (context-set_state t pid pid ProcessState.running),
  )
  | no ne ↦ rw (ne→== pid t.current_running_pid ne) (
    λ j hj. elim (ℕ_discrete pid j) [
      | yes e ↦ sym e
      | no other ↦ absurd (ground (arith, marked t pid j h ne other))
    ],
    refl,
    ap is_running (
        state_ne (set_state t pid ProcessState.running) t.current_running_pid pid ProcessState.ready
          (λ e. ne (sym e))
        ∙ state_self t pid ProcessState.running),
    sym (
        context-set_state (set_state t pid ProcessState.running) t.current_running_pid pid
          ProcessState.ready
        ∙ context-set_state t pid pid ProcessState.running),
  )
]
