-- ===== src/WorkPool/Life.antt =====
-- workpool/work.go: what a sequence of calls makes of a task.
use fyer_kit.Prelude.{
  ℕ, ◌≤◌, ◌≡◌, refl, ◌∙◌, inl, inr, Bool, true, false, ◌||◌, List, [], ◌∷◌, Option, none, some,
  arith, Bool-cases, if◌then◌else◌,
}
use fyer_kit.WorkPool.Task.{
  pending, TaskError, TaskConfig, TaskHandle, is_terminal, final_status, new_task_handle,
  close_done, cancel, set_running, set_completed, result_of,
}

-- The calls on a handle that change it.
pub data TaskCall (A : Type 0) : Type 0 where
  cancels runs : TaskCall A
  completes : Option A → Option TaskError → TaskCall A

module _ {A : Type 0} where
  unfoldable pub apply_call : TaskHandle A → TaskCall A → TaskHandle A
  apply_call h cancels = (cancel h).1
  apply_call h runs = set_running h
  apply_call h (completes v e) = set_completed v e h

  unfoldable pub after_calls : TaskHandle A → List (TaskCall A) → TaskHandle A
  after_calls h [] = h
  after_calls h (c ∷ cs) = after_calls (apply_call h c) cs

  -- A call that ends a task.
  abbrev pub ends : TaskCall A → Bool
  ends cancels = true
  ends runs = false
  ends (completes v e) = true

  abbrev pub any_ends : List (TaskCall A) → Bool
  any_ends [] = false
  any_ends (c ∷ cs) = ends c || any_ends cs

  -- The channel was closed as often as the flag says, and a task whose channel is open has not ended.
  pub record IsValid (h : TaskHandle A) : Type 0 where
    pub closed_once : h.closes ≡ (if h.done_closed then 1 else 0)
    pub open_lives : h.done_closed ≡ false → is_terminal h.status ≡ false

  close_done-keeps :
      (h : TaskHandle A)
      → ((close_done h).done_closed ≡ true)
        × ((close_done h).status ≡ h.status)
        × ((close_done h).value ≡ h.value)
        × ((close_done h).error ≡ h.error)
  unfolding close_done
  close_done-keeps h = ground arith

  close_done-closes :
      (h : TaskHandle A) → h.closes ≡ (if h.done_closed then 1 else 0) → (close_done h).closes ≡ 1
  unfolding close_done
  close_done-closes h c = ground (arith, c)

  -- Ending a task closes its channel, once.
  close_done-IsValid :
      (h : TaskHandle A)
      → h.closes ≡ (if h.done_closed then 1 else 0)
      → IsValid (close_done h) × ((close_done h).done_closed ≡ true)
  close_done-IsValid h c =
      let (d, _, _, _) = close_done-keeps h in
      (
        record {
          closed_once = rw d (close_done-closes h c);
          open_lives = λ e. ground (arith, d, e);
        },
        d,
      )

  ended : (h : TaskHandle A) → IsValid h → is_terminal h.status ≡ true → h.done_closed ≡ true
  ended h v e = elim (Bool-cases h.done_closed) [
    | inl d ↦ d
    | inr d ↦ ground (arith, e, v.open_lives d)
  ]

  cancel-IsValid :
      (h : TaskHandle A) → IsValid h → IsValid (cancel h).1 × ((cancel h).1.done_closed ≡ true)
  unfolding cancel
  cancel-IsValid h v = elim (Bool-cases (is_terminal h.status)) [
    | inl e ↦ rw e (v, ended h v e)
    | inr e ↦ rw e (close_done-IsValid _ v.closed_once)
  ]

  -- A task that is closed stays so, and one that a call ends is closed.
  call-IsValid :
      (h : TaskHandle A) (c : TaskCall A)
      → IsValid h
      → IsValid (apply_call h c) × ((apply_call h c).done_closed ≡ (h.done_closed || ends c))
  unfolding apply_call
  call-IsValid h cancels v = let (w, d) = cancel-IsValid h v in (w, d ∙ ground arith)
  call-IsValid h runs v =
      unfold set_running in
      (record { closed_once = v.closed_once; open_lives = λ e. refl }, ground arith)
  call-IsValid h (completes x e) v =
      unfold set_completed in
      let (w, d) =
        close_done-IsValid (record h { value = x; error = e; status = final_status e })
          v.closed_once in
      (w, d ∙ ground arith)

  calls-IsValid :
      (cs : List (TaskCall A)) (h : TaskHandle A)
      → IsValid h
      → IsValid (after_calls h cs)
        × ((after_calls h cs).done_closed ≡ (h.done_closed || any_ends cs))
  unfolding after_calls
  calls-IsValid [] h v = (v, ground arith)
  calls-IsValid (c ∷ cs) h v =
      let (w, d) = call-IsValid h c v in
      let (w', d') = calls-IsValid cs (apply_call h c) w in (w', d' ∙ rw d (ground arith))

  -- Whatever calls of Cancel, setRunning and setCompleted are made on a new task, one after the other, its channel is
  -- closed at most once, and it is closed exactly if one of them was Cancel or setCompleted.
  pub done_once :
      (id : ℕ) (options : List (TaskConfig → TaskConfig)) (cs : List (TaskCall A))
      → let h : TaskHandle A = after_calls (new_task_handle id options) cs in
        (h.closes ≤ 1) × (h.done_closed ≡ any_ends cs)
  unfolding new_task_handle
  done_once id options cs =
      let (v, d) =
        calls-IsValid cs (new_task_handle id options)
          (record { closed_once = refl; open_lives = λ e. refl }) in
      (ground (arith, v.closed_once), d)

  -- A pending task whose Cancel returned no error, and which a worker then takes and runs to an end, is reported by
  -- Status as it ended, and by Result with what it returned.
  pub cancel_then_run :
      (h : TaskHandle A) (x : Option A) (e : Option TaskError)
      → h.status ≡ pending
      → let (r, h₁) = cancel h in
        let h₂ = set_completed x e (set_running h₁) in
        (r ≡ none) × (h₂.status ≡ final_status e) × (result_of h₂ ≡ some (x, e))
  cancel_then_run h x e p =
      let (d, s, v, r) =
        close_done-keeps
          (record (set_running (cancel h).1) { value = x; error = e; status = final_status e }) in
      (
        unfold cancel in rw p refl,
        unfold set_completed in s,
        unfold set_completed result_of in rw (d, v, r) refl,
      )
