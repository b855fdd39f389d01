-- ===== src/Sched/Mainloop.antt =====
-- The main loop: the schedule, the jobs that are received, and the dispatch of what is due. The
-- buckets of the schedule are known by their times, since no two have the same.
use argus.Prelude.{
  ℕ, ◌+◌, Bool, false, ◌||◌, Option, none, some, List, [], ◌∷◌, ltb, ◌==◌, if◌then◌else◌,
}
use argus.Sched.{Job, Bucket, Sched, set_job, send_work}

abbrev pub holds : Job → List Job → Bool
holds d [] = false
holds d (e ∷ es) = e == d || holds d es

-- todo[d] = true
abbrev pub with_job : Job → List Job → List Job
with_job d todo = if holds d todo then todo else d ∷ todo

-- The insertion of D.add: sort.Search finds the first bucket whose time is not before, in a
-- schedule in the order of time.
unfoldable pub insert_job : ℕ → Job → List Bucket → List Bucket
insert_job when d [] = record { when = when; todo = d ∷ [] } ∷ []
insert_job when d (b ∷ bs) =
    if ltb b.when when
    then b ∷ insert_job when d bs
    else if b.when == when
    then record b { todo = with_job d b.todo } ∷ bs
    else record { when = when; todo = d ∷ [] } ∷ b ∷ bs

unfoldable pub without : Job → List Job → List Job
without d [] = []
without d (e ∷ es) = let rest = without d es in if e == d then rest else e ∷ rest

-- delete(t, d) in the bucket of a time
unfoldable pub delete_job : ℕ → Job → List Bucket → List Bucket
unfolding without
delete_job when d [] = []
delete_job when d (b ∷ bs) =
    if b.when == when then record b { todo = without d b.todo } ∷ bs else b ∷ delete_job when d bs

-- D.add
unfoldable pub add : Job → Sched → Sched
unfolding insert_job
add d s =
    let when = (s.job d).when in
    if when == 0 then s else record (set_job d (λ y. record y { locte = some when }) s) {
      schedule = insert_job when d s.schedule;
    }

unfoldable pub del_from : Option ℕ → Job → Sched → Sched
unfolding delete_job
del_from none d s = s
del_from (some when) d s = record (set_job d (λ y. record y { locte = none }) s) {
  schedule = delete_job when d s.schedule;
}

-- D.del
unfoldable pub del : Job → Sched → Sched
unfolding del_from
del d s = del_from (s.job d).locte d s

-- The case of mainloop that takes a job from schedchan.
unfoldable pub receive : Job → Sched → Sched
receive d s = add d (del d s)

-- The loop of dispatch over the jobs of one bucket: what is left of them.
unfoldable pub send_all : List Job → Sched → Sched × List Job
send_all [] s = (s, [])
send_all (d ∷ ds) s =
    let (s', sent) = send_work d (set_job d (λ y. record y { locte = none }) s) in
    let rest = send_all ds s' in if sent then rest else (s', d ∷ ds)

-- The loop of dispatch over the buckets: the schedule that is left. A job that finds no room stays
-- in its bucket, and the loop ends.
unfoldable pub dispatch_from : ℕ → List Bucket → Sched → Sched
unfolding send_all
dispatch_from now [] s = record s { schedule = [] }
dispatch_from now (b ∷ bs) s =
    let (s', left) = send_all b.todo s in
    let rest = dispatch_from now bs s' in
    if ltb now b.when then record s { schedule = b ∷ bs } else elim left [
      | [] ↦ rest
      | d ∷ ds ↦ record s' {
        schedule = record b { todo = d ∷ ds } ∷ bs;
        work_defer = s'.work_defer + 1;
      }
    ]

-- dispatch. The source ranges over a map; here the jobs of a bucket have some order.
unfoldable pub dispatch : ℕ → Sched → Sched
unfolding dispatch_from
dispatch now s = dispatch_from now s.schedule s
