-- ===== src/Jobs/States.antt =====
-- The life of one row of `crawl_job` under the statements that change it.
use mathlib.Core.Path.{subst, ◌∙◌}
use webshot.Base.{ℕ, ◌≤◌, ◌≡◌, refl, none, some, ◌⊎◌, arith}
use webshot.Base.Bytes.{Bytes}
use webshot.Jobs.{
  Job, Status, pending, running, succeeded, failed, new_job, set_running, set_succeeded, set_failed,
  coalesce,
}

-- What the columns of a row say in each state.
abbrev pub Fits : Status → Job → ℕ → Type 0
Fits pending j now = (j.started_at ≡ none) × (j.finished_at ≡ none) × (j.result_capture_id ≡ none)
Fits running j now =
    (s : ℕ) × (j.started_at ≡ some s)
    × (s ≤ now)
    × (j.finished_at ≡ none)
    × (j.error_category ≡ none)
Fits succeeded j now =
    (s : ℕ) × (f : ℕ) × (j.started_at ≡ some s)
    × (j.finished_at ≡ some f)
    × (s ≤ f)
    × (f ≤ now)
    × ((c : ℕ) × (j.result_capture_id ≡ some c))
    × ((t : ℕ) × (j.result_created_at ≡ some t))
    × (j.error_category ≡ none)
Fits failed j now =
    (s : ℕ) × (f : ℕ) × (j.started_at ≡ some s)
    × (j.finished_at ≡ some f)
    × (s ≤ f)
    × (f ≤ now)
    × ((c : Bytes) × (j.error_category ≡ some c))

abbrev pub IsConsistent : ℕ → Job → Type 0
IsConsistent now j = Fits j.status j now

-- One statement of the program on a row, at a time.
pub data Step (now : ℕ) : Job → Job → Type 0 where
  run : {j k : Job} → set_running now j ≡ some k → Step now j k
  succeed : {j k : Job} (c t : ℕ) → set_succeeded now c t j ≡ some k → Step now j k
  fail :
      {j k : Job} (category message : Bytes)
      → set_failed now category message j ≡ some k
      → Step now j k
  wait : {j : Job} → Step now j j

-- Later times.
pub data Run : ℕ → Job → ℕ → Job → Type 0 where
  stay : {now : ℕ} {j : Job} → Run now j now j
  then_step :
      {now later : ℕ} {j k : Job} {at : ℕ} {l : Job}
      → Run now j later k
      → later ≤ at
      → Step at k l
      → Run now j at l

abbrev pub IsTerminal : Job → Type 0
IsTerminal j = (j.status ≡ succeeded) ⊎ (j.status ≡ failed)

abbrev run_row : ℕ → Job → Job
run_row at j = record j {
  status = running;
  started_at = some at;
  error_category = none;
  error_message = none;
  finished_at = none;
  result_created_at = none;
}

abbrev succeed_row : ℕ → ℕ → ℕ → Job → Job
succeed_row at c t j = record j {
  status = succeeded;
  finished_at = some at;
  error_category = none;
  error_message = none;
  result_created_at = some t;
  result_capture_id = some c;
}

abbrev fail_row : ℕ → Bytes → Bytes → Job → Job
fail_row at category message j = record j {
  status = failed;
  started_at = some (coalesce j.started_at at);
  finished_at = some at;
  error_category = some category;
  error_message = some message;
}

set_running-eq :
    (at : ℕ) (j k : Job) → set_running at j ≡ some k → (j.status ≡ pending) × (run_row at j ≡ k)
unfolding set_running
set_running-eq at j k e = (ground arith, ground arith)

set_succeeded-eq :
    (at c t : ℕ) (j k : Job)
    → set_succeeded at c t j ≡ some k
    → (j.status ≡ running) × (succeed_row at c t j ≡ k)
unfolding set_succeeded
set_succeeded-eq at c t j k e = (ground arith, ground arith)

set_failed-eq :
    (at : ℕ) (category message : Bytes) (j k : Job)
    → set_failed at category message j ≡ some k
    → ((j.status ≡ pending) ⊎ (j.status ≡ running)) × (fail_row at category message j ≡ k)
unfolding set_failed
set_failed-eq at category message j k e = (ground arith, ground arith)

fail_row-IsConsistent :
    (s : Status) (now at : ℕ) (category message : Bytes) (j : Job)
    → (s ≡ pending) ⊎ (s ≡ running)
    → now ≤ at
    → Fits s j now
    → IsConsistent at (fail_row at category message j)
fail_row-IsConsistent pending now at category message j w h f =
    (at, at, rw f.0, refl, omega arith, omega arith, (category, refl))
fail_row-IsConsistent running now at category message j w h (s, started, le, _, _) =
    (s, at, rw started, refl, omega arith, omega arith, (category, refl))
fail_row-IsConsistent succeeded now at category message j w h f = absurd (ground arith)
fail_row-IsConsistent failed now at category message j w h f = absurd (ground arith)

-- Time passes and the row stays as it is.
Fits-later : (s : Status) (j : Job) (now at : ℕ) → now ≤ at → Fits s j now → Fits s j at
Fits-later pending j now at h f = f
Fits-later running j now at h (s, e, le, r, q) = (s, e, omega arith, r, q)
Fits-later succeeded j now at h (s, t, a, b, c, d, r, p, q) = (s, t, a, b, c, omega arith, r, p, q)
Fits-later failed j now at h (s, t, a, b, c, d, r) = (s, t, a, b, c, omega arith, r)

-- A statement keeps the columns of a row in agreement with its status.
pub Step-IsConsistent :
    (now at : ℕ) {j k : Job} → now ≤ at → Step at j k → IsConsistent now j → IsConsistent at k
Step-IsConsistent now at h (run {j} {k} e) f =
    let (s, r) = set_running-eq at j k e in
    subst (IsConsistent at) r (at, refl, omega arith, refl, refl)
Step-IsConsistent now at h (succeed {j} {k} c t e) f =
    let (s, r) = set_succeeded-eq at c t j k e in
    let (b, started, le, _, _) = subst (λ x. Fits x j now) s f in
    subst (IsConsistent at) r
      (b, at, started, refl, omega arith, omega arith, (c, refl), (t, refl), refl)
Step-IsConsistent now at h (fail {j} {k} category message e) f =
    let (s, r) = set_failed-eq at category message j k e in
    subst (IsConsistent at) r (fail_row-IsConsistent j.status now at category message j s h f)
Step-IsConsistent now at h (wait {j}) f = Fits-later j.status j now at h f

-- No statement changes a row that has succeeded or failed.
pub Step-IsTerminal : (at : ℕ) {j k : Job} → IsTerminal j → Step at j k → j ≡ k
unfolding set_running set_succeeded set_failed
Step-IsTerminal at t (run {j} {k} e) = absurd (ground arith)
Step-IsTerminal at t (succeed {j} {k} c u e) = absurd (ground arith)
Step-IsTerminal at t (fail {j} {k} category message e) = absurd (ground arith)
Step-IsTerminal at t wait = refl

-- A consistent row stays consistent through any statements at later times: it has
-- a start once it runs, an end no earlier than the start once it has ended, a capture when it
-- succeeded, and an error category when it failed.
pub Run-IsConsistent :
    {now later : ℕ} {j k : Job} → IsConsistent now j → Run now j later k → IsConsistent later k
Run-IsConsistent f stay = f
Run-IsConsistent f (then_step {later = later} {at = at} r h s) =
    Step-IsConsistent later at h s (Run-IsConsistent f r)

pub new_job-IsConsistent :
    (id : ℕ) (link : Bytes) (now : ℕ) → IsConsistent now (new_job id link now)
new_job-IsConsistent id link now = (refl, refl, refl)

-- What ended once has ended for good.
Run-IsTerminal : {now later : ℕ} {j k : Job} → IsTerminal j → Run now j later k → j ≡ k
Run-IsTerminal t stay = refl
Run-IsTerminal {j} t (then_step {at = at} {l = l} r h s) =
    let same = Run-IsTerminal t r in same ∙ Step-IsTerminal at (subst IsTerminal same t) s
