-- ===== src/Graph/Kept/Back.antt =====
-- What was added is got: Get of argus/graph/graphd/graphd.go.
use argus.Prelude.{
  ℕ, suc, ◌+◌, ◌*◌, ◌%◌, ◌<◌, ◌≡◌, refl, ap, ◌∙◌, true, some, List, [], ◌∷◌, arith, length,
}
use native.Mathlib.Nat.{mod-one}
use native.Mathlib.Decide.{dec_lt}
use argus.Graph.{Singles, SampleData, hdr_size, samp_size, decode_sample, encode_sample}
use argus.Graph.Get.{Export, export_sample, records}
use argus.Graph.Raw.{Bytes, bytes_from}
use argus.Graph.Cbuf.{CbufReader, read}
use argus.Graph.Cbuf.Circle.{circle, circle-bytes_from, mod_step, IsAt, Within}
use argus.Graph.Cbuf.Rounds.{around}
use argus.Graph.Cbuf.Reading.{Reads, read-circle, Within-after, Within-less}
use argus.Graph.Kept.{IsFaithful, slot, Stands, no_more, one_more, decode-encode_sample}

module _ {F : Type 0} (sg : Singles F) where
  abbrev pub dec : Bytes → Export F
  dec bs = export_sample sg (decode_sample sg bs)

  abbrev pub exports : List (SampleData F) → List (Export F)
  exports [] = []
  exports (s ∷ ss) = export_sample sg s ∷ exports ss

  -- A round of the loop whose read succeeds.
  records_round :
      (n i every : ℕ) (r r' : CbufReader) (bs : Bytes) (es : List (Export F))
      → every ≡ 1
      → read samp_size r ≡ some (bs, true, r')
      → records sg samp_size dec 0 every n (suc i) r' ≡ some es
      → records sg samp_size dec 0 every (suc n) i r ≡ some (dec bs ∷ es)
  unfolding records
  records_round n i every r r' bs es e f g =
      let m : i % every ≡ 0 = rw e (mod-one i) in rw (records, f, g, m) refl

  next_slot :
      (nmax c q : ℕ)
      → q < nmax + nmax
      → suc q < nmax + nmax
      → c % (nmax * samp_size) ≡ samp_size * slot nmax q
      → (c + samp_size) % (nmax * samp_size) ≡ samp_size * slot nmax (suc q)
  next_slot nmax c q l m e = elim (dec_lt (suc (slot nmax q)) nmax) [
    | yes lt ↦
        let same : samp_size * slot nmax q + samp_size ≡ samp_size * slot nmax (suc q) =
          ground (arith, lt) in
        mod_step c (samp_size * slot nmax q) samp_size (nmax * samp_size) e (omega (arith, lt))
        ∙ same
    | no nlt ↦
        let back : 0 ≡ samp_size * slot nmax (suc q) = ground (arith, nlt) in
        around c (samp_size * slot nmax q) samp_size (nmax * samp_size) e (ground (arith, nlt))
        ∙ back
  ]

  pub records-Stands :
      (nmax : ℕ) (ss : List (SampleData F)) (i every c q : ℕ) (r : CbufReader)
      → IsFaithful sg
      → every ≡ 1
      → IsAt c r
      → Within c (samp_size * length ss) r
      → r.sectoff ≡ hdr_size
      → r.sectsize ≡ nmax * samp_size
      → q + length ss < nmax + nmax
      → c % (nmax * samp_size) ≡ samp_size * slot nmax q
      → Stands sg r.file nmax q ss
      → records sg samp_size dec 0 every (length ss) i r ≡ some (exports ss)
  unfolding records
  records-Stands nmax [] i every c q r f e v w o z l m no_more = refl
  records-Stands nmax (s ∷ ss) i every c q r f e v w o z l m (one_more t b u) =
      let w1 : Within c samp_size r = Within-less c _ samp_size r (omega arith) w in
      let d : Reads c samp_size r [] (read samp_size r) = read-circle c samp_size r v w1 in
      let (s1, s2, s3) = d.same in
      let whole : circle r.file r.sectoff r.sectsize c samp_size ≡ encode_sample sg s =
        circle-bytes_from r.file r.sectoff r.sectsize c (samp_size * slot nmax q) samp_size
          (ap (λ k. c % k) z ∙ m) (ground (arith, z))
        ∙ ap (λ p. bytes_from r.file (p + samp_size * slot nmax q) samp_size) o
        ∙ b in
      let w2 : Within (c + samp_size) (samp_size * length ss) d.r' =
        Within-less (c + samp_size) _ _ d.r' (omega arith)
          (Within-after c (samp_size * suc (length ss)) samp_size r d.r' (omega arith) d.same w) in
      let u' : Stands sg d.r'.file nmax (suc q) ss = rw s1 u in
      let got : read samp_size r ≡ some (encode_sample sg s, true, d.r') =
        d.result ∙ ap (λ t. some (t, true, d.r')) whole in
      let rest =
        records-Stands nmax ss (suc i) every (c + samp_size) (suc q) d.r' f e d.place w2 (s2 ∙ o)
          (s3 ∙ z) (omega arith) (next_slot nmax c q (omega arith) (omega arith) m) u' in
      records_round (length ss) i every r d.r' (encode_sample sg s) (exports ss) e got rest
      ∙ ap (λ t. some (export_sample sg t ∷ exports ss)) (decode-encode_sample sg f s t)
