-- ===== src/Jobs/Tests.antt =====
-- The table `crawl_job` on concrete rows.
use webshot.Base.{◌≡◌, refl, [], ◌∷◌, some, arith}
use webshot.Base.Bytes.{Bytes, codes}
use webshot.Base.Outcome.{returns}
use webshot.Jobs.{
  Job, running, succeeded, new_job, set_running, set_succeeded, make_or_reuse_crawl_job_locked,
}
use webshot.Jobs.States.{
  IsConsistent, run, succeed, Run, stay, then_step, new_job-IsConsistent, Run-IsConsistent,
}
use webshot.Jobs.RateLimit.{Spacing, make_or_reuse-Spacing}
use webshot.Jobs.Dto.{CaptureJob, make_capture_job, HasOutcome, make_capture_job-HasOutcome}

abbrev link : Bytes
link = codes "com.ex/a"

abbrev waiting : Job
waiting = new_job 7 link 100

abbrev started : Job
started = record waiting { status = running; started_at = some 110 }

abbrev done : Job
done = record started {
  status = succeeded;
  finished_at = some 150;
  result_created_at = some 140;
  result_capture_id = some 7;
}

starts : set_running 110 waiting ≡ some started
unfolding set_running
starts = refl

succeeds : set_succeeded 150 7 140 started ≡ some done
unfolding set_succeeded
succeeds = refl

life : Run 100 waiting 150 done
life = then_step (then_step stay (omega arith) (run starts)) (omega arith) (succeed 7 140 succeeds)

Run-IsConsistent_example : IsConsistent 150 done
Run-IsConsistent_example = Run-IsConsistent (new_job-IsConsistent 7 link 100) life

make_or_reuse-Spacing_example :
    Spacing link 60 130 131 8
      (waiting ∷ [])
      (make_or_reuse_crawl_job_locked link 60 130 131 8 (waiting ∷ []))
make_or_reuse-Spacing_example = make_or_reuse-Spacing link 60 130 131 8 (waiting ∷ []) (omega arith)

done-IsConsistent : IsConsistent 150 done
done-IsConsistent = Run-IsConsistent (new_job-IsConsistent 7 link 100) life

make_capture_job-HasOutcome_example :
    (c : CaptureJob) × (make_capture_job done ≡ returns c)
    × (c.status ≡ succeeded)
    × HasOutcome succeeded c
make_capture_job-HasOutcome_example = make_capture_job-HasOutcome 150 done done-IsConsistent tt
