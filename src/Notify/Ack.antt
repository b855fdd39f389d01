-- ===== src/Notify/Ack.antt =====
-- Acknowledgement: argus/notify/ack.go.
use argus.Prelude.{Bool, false, ◌&&◌, ◌||◌, List, [], ◌∷◌, ltb, ◌==◌, if◌then◌else◌, get_or, length}
use argus.Text.{Text, codes}
use argus.Dict.{Dict}
use argus.Status.{Status, unknown, clear}
use argus.Notify.{Note, Package, modify, without, log}

unfoldable pub all_acked : Dict Text → Dict Text
all_acked [] = []
all_acked ((dst, st) ∷ m) = (dst, codes "acked") ∷ all_acked m

-- ack
unfoldable pub ack : Text → Note → Package → Package
unfolding all_acked
ack who n w =
    modify n
      (λ x.
        log who (codes "acked") w.now (record x { is_active = false; status = all_acked x.status }))
      (record w { actives = without n w.actives })

-- A place of an array that is in range, or the one for all.
abbrev pub for_status : List Bool → Status → Bool
for_status a st = ltb st (length a) && (get_or a st false || get_or a unknown false)

-- maybeAck
unfoldable pub maybe_ack : Note → Package → Package
maybe_ack n w =
    let x = w.note n in
    if x.curr_ov == clear && for_status x.cf.ack_on_up x.ov_status
    then ack (codes "auto") n w
    else if ltb x.ov_status x.curr_ov && for_status x.cf.ack_on_worse x.ov_status
    then ack (codes "auto") n w
    else if ltb x.curr_ov x.ov_status && for_status x.cf.ack_on_better x.ov_status
    then ack (codes "auto") n w
    else w

-- maybeAutoAck
unfoldable pub maybe_auto_ack : Note → Package → Package
maybe_auto_ack n w =
    if for_status (w.note n).cf.auto_ack (w.note n).ov_status then ack (codes "auto") n w else w
