-- ===== src/Resolv/Replies/Same.antt =====
-- What a reply of argus/resolv/resolv.go does to the count of a worker's queries and to their table,
-- and which of the worker's functions leave both as they are.
use argus.Prelude.{
  ℕ, suc, ◌≡◌, refl, ◌∙◌, some, List, [], ◌∷◌, arith, ◌==◌, length, Bool-cases, Option-cases, inl,
  inr,
}
use argus.Text.{Text}
use argus.Resolv.{Ref, CacheResult}
use argus.Resolv.Queries.{
  PendQ, Worker, Env, find_query, modify_query, modify_result, whitened, new_res, no_result, ref_or,
  with_res, expire, given_res, publish, done,
}
use argus.Resolv.Queries.Table.{Distinct, length-delete, delete-Distinct}
use argus.Resolv.Replies.{
  Answer, Msg, add_address, answered, is_answered, asked_for, take_answers, forget, reply_to,
  reply_if, process_result,
}

pub record IsCounted (w : Worker) : Type 0 where
  pub count : w.nqueries ≡ length w.pending
  pub distinct : Distinct w.pending
  pub no_six : (p : Ref) → (w.queries p).underway6 ≡ 0

-- What leaves the count and the table as they are, and notes no number for version 6.
pub record Same (w w' : Worker) : Type 0 where
  pub nqueries : w'.nqueries ≡ w.nqueries
  pub pending : w'.pending ≡ w.pending
  pub six : ((p : Ref) → (w.queries p).underway6 ≡ 0) → (p : Ref) → (w'.queries p).underway6 ≡ 0

pub Same-IsCounted : (w w' : Worker) → Same w w' → IsCounted w → IsCounted w'
Same-IsCounted w w' s c = record {
  count = rw (s.nqueries, s.pending) c.count;
  distinct = rw s.pending c.distinct;
  no_six = s.six c.no_six;
}

pub Same-then : (w w' w2 : Worker) → Same w w' → Same w' w2 → Same w w2
Same-then w w' w2 s t = record {
  nqueries = t.nqueries ∙ s.nqueries;
  pending = t.pending ∙ s.pending;
  six = λ h. t.six (s.six h);
}

pub Same-refl : (w : Worker) → Same w w
Same-refl w = record { nqueries = refl; pending = refl; six = λ h. h }

pub modify_query-Same :
    (p : Ref) (f : PendQ → PendQ) (w : Worker)
    → ((x : PendQ) → x.underway6 ≡ 0 → (f x).underway6 ≡ 0)
    → Same w (modify_query p f w)
modify_query-Same p f w k = record {
  nqueries = refl;
  pending = refl;
  six = λ h q. elim (Bool-cases (p == q)) [
    | inl e ↦ rw e (k (w.queries p) (h p))
    | inr e ↦ rw e (h q)
  ];
}

pub whitened-Same : (env : Env) (qid : ℕ) (w : Worker) → Same w (whitened env qid w)
whitened-Same env qid w = elim (Bool-cases (qid == 1)) [
  | inl e ↦ rw e record { nqueries = refl; pending = refl; six = λ h. h }
  | inr e ↦ rw e record { nqueries = refl; pending = refl; six = λ h. h }
]

new_res-Same : (fqdn : Text) (ttl : ℕ) (p : Ref) (w : Worker) → Same w (new_res fqdn ttl p w)
unfolding new_res
new_res-Same fqdn ttl p w = record {
  nqueries = refl;
  pending = refl;
  six = (modify_query-Same p (λ q. record q { res = some w.new_result }) w (λ x h. h)).six;
}

with_res-Same : (fqdn : Text) (ttl : ℕ) (p : Ref) (w : Worker) → Same w (with_res fqdn ttl p w)
unfolding with_res
with_res-Same fqdn ttl p w = elim (Bool-cases (no_result (w.queries p).res)) [
  | inl e ↦ rw e (new_res-Same fqdn ttl p w)
  | inr e ↦ rw e (Same-refl w)
]

given_res-Same : (env : Env) (p : Ref) (w : Worker) → Same w (given_res env p w)
unfolding given_res
given_res-Same env p w = elim (Bool-cases (no_result (w.queries p).res)) [
  | inl e ↦ rw e (
      Same-then w (record w { drawn = suc w.drawn }) _
        record { nqueries = refl; pending = refl; six = λ h. h } (new_res-Same _ _ p _))
  | inr e ↦ rw e (Same-refl w)
]

expire-Same : (env : Env) (r : Ref) (w : Worker) → Same w (expire env r w)
unfolding expire
expire-Same env r w = record { nqueries = refl; pending = refl; six = λ h. h }

publish-Same : (name : Text) (prefm : ℕ) (r : Ref) (w : Worker) → Same w (publish name prefm r w)
unfolding publish
publish-Same name prefm r w = record { nqueries = refl; pending = refl; six = λ h. h }

pub done-Same : (env : Env) (p : Ref) (w : Worker) → Same w (done env p w)
unfolding done
done-Same env p w =
    let w1 = given_res env p w in
    let r = ref_or 0 (w1.queries p).res in
    Same-then w w1 _ (given_res-Same env p w) (
      Same-then w1 (expire env r w1) _ (expire-Same env r w1)
        (publish-Same _ _ r (expire env r w1)))

modify_result-Same :
    (r : Ref) (f : CacheResult → CacheResult) (w : Worker) → Same w (modify_result r f w)
modify_result-Same r f w = record { nqueries = refl; pending = refl; six = λ h. h }

take_answers-Same :
    (p : Ref) (answers : List Answer) (w : Worker) → Same w (take_answers p answers w)
unfolding take_answers
take_answers-Same p [] w = Same-refl w
take_answers-Same p (ans ∷ answers) w = Same-then w (with_res _ _ p w) _ (with_res-Same _ _ p w) (
    Same-then _ (modify_result _ (add_address ans) (with_res _ _ p w)) _
      (modify_result-Same _ (add_address ans) (with_res _ _ p w)) (take_answers-Same p answers _))

pub forget-IsCounted :
    (q : ℕ) (p : Ref) (w : Worker)
    → find_query q w.pending ≡ some p
    → IsCounted w
    → IsCounted (forget q w)
unfolding forget
forget-IsCounted q p w f c = record {
  count = omega (arith, c.count, length-delete q p w.pending f c.distinct);
  distinct = delete-Distinct q w.pending c.distinct;
  no_six = c.no_six;
}

answered_six : (q : ℕ) (x : PendQ) → x.underway6 ≡ 0 → (answered q x).underway6 ≡ 0
answered_six q x h = ground arith

reply_to-IsCounted :
    (env : Env) (p : Ref) (msg : Msg) (w : Worker)
    → find_query msg.id w.pending ≡ some p
    → IsCounted w
    → IsCounted (reply_to env p msg w)
unfolding reply_to
reply_to-IsCounted env p msg w f c =
    let w0 = record w { lastrcv = w.shared.now } in
    let c0 : IsCounted w0 = record { count = c.count; distinct = c.distinct; no_six = c.no_six } in
    let w1 = modify_query p (answered msg.id) (forget msg.id w0) in
    let w2 = take_answers p msg.answers w1 in
    let c1 =
      Same-IsCounted (forget msg.id w0) w1
        (modify_query-Same p (answered msg.id) (forget msg.id w0) (answered_six msg.id))
        (forget-IsCounted msg.id p w0 f c0) in
    let c2 = Same-IsCounted w1 w2 (take_answers-Same p msg.answers w1) c1 in
    elim (Bool-cases (is_answered (w2.queries p))) [
      | inl e ↦ rw e (Same-IsCounted w2 (done env p w2) (done-Same env p w2) c2)
      | inr e ↦ rw e c2
    ]

pub process_result-IsCounted :
    (env : Env) (msg : Msg) (w : Worker) → IsCounted w → IsCounted (process_result env msg w)
unfolding process_result reply_if
process_result-IsCounted env msg w c = elim (Bool-cases msg.response) [
  | inl e ↦ rw e (elim (Option-cases (find_query msg.id w.pending)) [
    | inl n ↦ rw n c
    | inr (p, f) ↦ rw f (elim (Bool-cases (asked_for msg.question (w.queries p).zname)) [
      | inl b ↦ rw b (reply_to-IsCounted env p msg w f c)
      | inr b ↦ rw b c
    ])
  ])
  | inr e ↦ rw e c
]
