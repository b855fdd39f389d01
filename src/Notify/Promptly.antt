-- ===== src/Notify/Promptly.antt =====
-- What maybeQueue of argus/notify/queues.go does with what is due.
use argus.Prelude.{ℕ, ◌+◌, ◌≤◌, ◌<◌, ◌≡◌, get_elem?}
use argus.Text.{Text}
use argus.Notify.{Note, SendDat, Package}
use argus.Notify.Told.{More, IsLate}

module _ (n : Note) where
  -- An entry is due: the next one, from its time on, or one that was sent and is late.
  pub data IsDue (j : ℕ) (s : SendDat) (w : Package) : Type 0 where
    next : j ≡ (w.note n).step_no → s.when + (w.note n).created ≤ w.now → IsDue j s w
    again : j < (w.note n).step_no → IsLate n s w → IsDue j s w

  -- The next entry, if there is one and it is due, is sent and counted; the ones before it stay.
  record Stepped (w v : Package) : Type 0 where
    cf : (v.note n).cf ≡ (w.note n).cf
    now : v.now ≡ w.now
    step_no : (w.note n).step_no ≤ (v.note n).step_no
    before :
        (j : ℕ)
        → j < (w.note n).step_no
        → get_elem? (v.note n).send_to j ≡ get_elem? (w.note n).send_to j
    more : More n w v
