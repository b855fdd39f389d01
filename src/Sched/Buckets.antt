-- ===== src/Sched/Buckets.antt =====
-- The schedule: buckets in the order of time, and each job in the bucket that it points to.
use argus.Prelude.{
  ℕ, ◌≤◌, ◌<◌, ◌≡◌, refl, inl, inr, true, false, not, ◌&&◌, Option, none, some, List, [], ◌∷◌,
  arith, ◌==◌, if◌then◌else◌, Bool-cases,
}
use argus.Sched.{Job, Bucket, Sched, set_job}
use argus.Sched.Mainloop.{
  holds, with_job, insert_job, without, delete_job, add, del, del_from, receive,
}

-- The times grow strictly, from above `lo`.
abbrev pub InOrder : ℕ → List Bucket → Type 0
InOrder lo [] = Unit {0}
InOrder lo (b ∷ bs) = (lo < b.when) × InOrder b.when bs

-- The jobs of the bucket of a time.
unfoldable pub todo_at : ℕ → List Bucket → List Job
todo_at t [] = []
todo_at t (b ∷ bs) = if b.when == t then b.todo else todo_at t bs

InOrder-insert_job :
    (lo when : ℕ) (d : Job) (bs : List Bucket)
    → lo < when
    → InOrder lo bs
    → InOrder lo (insert_job when d bs)
unfolding insert_job
InOrder-insert_job lo when d [] h k = (h, tt)
InOrder-insert_job lo when d (b ∷ bs) h k = ground (arith, InOrder-insert_job b.when when d bs)

InOrder-delete_job :
    (lo when : ℕ) (d : Job) (bs : List Bucket) → InOrder lo bs → InOrder lo (delete_job when d bs)
unfolding delete_job
InOrder-delete_job lo when d [] h = tt
InOrder-delete_job lo when d (b ∷ bs) h = ground (arith, InOrder-delete_job b.when when d bs)

todo_at-before : (t lo : ℕ) (bs : List Bucket) → InOrder lo bs → t ≤ lo → todo_at t bs ≡ []
unfolding todo_at
todo_at-before t lo [] h k = refl
todo_at-before t lo (b ∷ bs) h k = ground (arith, todo_at-before t b.when bs h.1)

todo_at-insert_job :
    (lo t when : ℕ) (d : Job) (bs : List Bucket)
    → InOrder lo bs
    → todo_at t (insert_job when d bs)
      ≡ (if when == t then with_job d (todo_at when bs) else todo_at t bs)
unfolding insert_job todo_at
todo_at-insert_job lo t when d [] h = ground arith
todo_at-insert_job lo t when d (b ∷ bs) h =
    ground (arith, todo_at-insert_job b.when t when d bs h.1, todo_at-before when b.when bs h.1)

todo_at-delete_job :
    (t when : ℕ) (d : Job) (bs : List Bucket)
    → todo_at t (delete_job when d bs)
      ≡ (if when == t then without d (todo_at when bs) else todo_at t bs)
unfolding delete_job todo_at
todo_at-delete_job t when d [] = ground arith
todo_at-delete_job t when d (b ∷ bs) = ground (arith, todo_at-delete_job t when d bs)

holds-without :
    (e d : Job) (l : List Job) → holds e (without d l) ≡ (if d == e then false else holds e l)
unfolding without
holds-without e d [] = ground arith
holds-without e d (x ∷ xs) = ground (arith, holds-without e d xs)

-- The buckets are in order, and a job in a bucket points to it, so that it is in no other.
pub record IsFiled (s : Sched) : Type 0 where
  pub in_order : InOrder 0 s.schedule
  pub filed : (e : Job) (t : ℕ) → holds e (todo_at t s.schedule) ≡ true → (s.job e).locte ≡ some t

module _ (d : Job) (s : Sched) where
  unlocated :
      (o : Option ℕ)
      → (s.job d).locte ≡ o
      → IsFiled s
      → (e : Job) (t : ℕ)
      → holds e (todo_at t (del_from o d s).schedule)
        ≡ (if d == e then false else holds e (todo_at t s.schedule))
  unfolding del_from
  unlocated none l h e t = ground (arith, h.filed e t)
  unlocated (some when) l h e t = ground (
    arith,
    h.filed e t,
    todo_at-delete_job t when d s.schedule,
    holds-without e d (todo_at when s.schedule),
  )

  -- After `del` the job is in no bucket, and the others are where they were.
  holds-del :
      IsFiled s
      → (e : Job) (t : ℕ)
      → holds e (todo_at t (del d s).schedule)
        ≡ (if d == e then false else holds e (todo_at t s.schedule))
  holds-del h e t = unfold del in unlocated (s.job d).locte refl h e t

  InOrder-del : IsFiled s → InOrder 0 (del d s).schedule
  InOrder-del h = unfold del in go (s.job d).locte
    where
      go : (o : Option ℕ) → InOrder 0 (del_from o d s).schedule
      go none = unfold del_from in h.in_order
      go (some when) = unfold del_from in InOrder-delete_job 0 when d s.schedule h.in_order

  when-del : ((del d s).job d).when ≡ (s.job d).when
  unfolding del del_from set_job
  when-del = ground arith

  holds-add :
      InOrder 0 s.schedule
      → (e : Job) (t : ℕ) → ((u : ℕ) → holds d (todo_at u s.schedule) ≡ false)
      → holds e (todo_at t (add d s).schedule) ≡ (
          if d == e
          then (if (s.job d).when == 0 then false else (s.job d).when == t)
          else holds e (todo_at t s.schedule))
  unfolding add
  holds-add o e t n =
      ground (arith, todo_at-insert_job 0 t (s.job d).when d s.schedule o, n t, n (s.job d).when)

  InOrder-add : InOrder 0 s.schedule → InOrder 0 (add d s).schedule
  unfolding add
  InOrder-add o = elim (Bool-cases ((s.job d).when == 0)) [
    | inl z ↦ rw z o
    | inr p ↦ rw p (InOrder-insert_job 0 (s.job d).when d s.schedule (ground arith) o)
  ]

  locte-add :
      (e : Job)
      → ((add d s).job e).locte
        ≡ (if d == e && not ((s.job d).when == 0) then some (s.job d).when else (s.job e).locte)
  unfolding add set_job
  locte-add e = ground arith

  locte-del : (e : Job) → ((del d s).job e).locte ≡ (if d == e then none else (s.job e).locte)
  unfolding del del_from set_job
  locte-del e = ground arith

-- A job is in the bucket of its time, if it has one, and in no other; other jobs are where they
-- were.
abbrev pub Placed : Job → Sched → Sched → Type 0
Placed d s v =
    (e : Job) (t : ℕ)
    → holds e (todo_at t v.schedule) ≡ (
        if d == e
        then (if (s.job d).when == 0 then false else (s.job d).when == t)
        else holds e (todo_at t s.schedule))

receive-Placed : (d : Job) (s : Sched) → IsFiled s → Placed d s (receive d s)
unfolding receive
receive-Placed d s h e t = ground (
  arith,
  holds-add d (del d s) (InOrder-del d s h) e t (λ u. ground (arith, holds-del d s h d u)),
  holds-del d s h e t,
  when-del d s,
)

locte-receive :
    (d e : Job) (s : Sched)
    → ((receive d s).job e).locte ≡ (
        if d == e
        then (if (s.job d).when == 0 then none else some (s.job d).when)
        else (s.job e).locte)
unfolding receive
locte-receive d e s = ground (arith, locte-add d (del d s) e, locte-del d s e, when-del d s)

-- Where the schedule is filed, that is its buckets are in order and every job in a bucket points to
-- it: when the main loop takes a job from its channel, a job with a time stands in the bucket of
-- that time and in no other, a removed job in none, and the other jobs where they stood; and the
-- schedule is filed again.
pub receive-IsFiled :
    (d : Job) (s : Sched) → IsFiled s → Placed d s (receive d s) × IsFiled (receive d s)
receive-IsFiled d s h = (
  receive-Placed d s h,
  record {
    in_order = unfold receive in InOrder-add d (del d s) (InOrder-del d s h);
    filed = λ e t p. ground (arith, receive-Placed d s h e t, locte-receive d e s, h.filed e t);
  },
)
