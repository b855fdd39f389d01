-- ===== src/Examples/Graphing.antt =====
-- A graph of a few samples, and a reader that goes round: the theorems at concrete inputs.
use argus.Prelude.{
  ◌/◌, ◌≡◌, refl, inl, Bool, true, false, some, List, [], ◌∷◌, map, arith, ◌==◌, if◌then◌else◌,
}
use argus.Graph.{Singles, Calendar, n_max, create}
use argus.Graph.Get.{get_samples}
use argus.Graph.Cbuf.{CbufReader, read}
use argus.Graph.Cbuf.Circle.{IsAt}
use argus.Graph.Cbuf.Reading.{Reads, read-circle}
use argus.Graph.Kept.{IsFaithful}
use argus.Graph.Kept.Back.{exports}
use argus.Graph.Kept.History.{
  Addition, all_none, all_cons, sample, add_all, last_of, get_samples-add_all,
}

-- A section of five bytes from the second on, read up to its last.
abbrev round_reader : CbufReader
round_reader = record {
  file = 9 ∷ 8 ∷ 1 ∷ 2 ∷ 3 ∷ 4 ∷ 5 ∷ 7 ∷ [];
  fpos = 6;
  buf = [];
  sectoff = 2;
  sectsize = 5;
  sectpos = 4;
}

round_reader-IsAt : IsAt 4 round_reader
round_reader-IsAt = record { inside = omega arith; placed = refl; buffered = refl; next = refl }

read_round_test :
    read 3 round_reader
    ≡ some
        (5 ∷ 1 ∷ 2 ∷ [], true, record round_reader { fpos = 2; buf = 3 ∷ 4 ∷ 5 ∷ []; sectpos = 0 })
unfolding read
read_round_test = refl

read-circle_example : Reads 4 8 round_reader [] (read 8 round_reader)
read-circle_example = read-circle 4 8 round_reader round_reader-IsAt (inl (omega arith))

-- Numbers of one bit
abbrev two_numbers : Singles Bool
two_numbers = record {
  of_nat = λ n. n == 1;
  add = λ a b. a;
  sub = λ a b. a;
  mul = λ a b. a;
  div = λ a b. a;
  lt = λ a b. false;
  sqrt = λ a. a;
  bits = λ a. if a then 1 else 0;
  of_bits = λ n. n == 1;
}

two_numbers-IsFaithful : IsFaithful two_numbers
two_numbers-IsFaithful = record { small = λ a. ground arith; back = back }
  where
    back : (x : Bool) → ((if x then 1 else 0) == 1) ≡ x
    back true = refl
    back false = refl

abbrev clock : Calendar
clock = record { hour_of = λ t. t / 3600; day_of = λ t. t / 86400 }

abbrev two_additions : List (Addition Bool)
two_additions =
    record { when = 8000; status = 1; val = true; yn = false; dn = false }
    ∷ record { when = 8060; status = 5; val = false; yn = true; dn = false }
    ∷ []

get_samples-add_all_example :
    get_samples two_numbers 9000 0 0 (add_all two_numbers clock two_additions (create two_numbers))
    ≡ some (exports two_numbers (last_of n_max (map (sample two_numbers) two_additions)))
get_samples-add_all_example =
    get_samples-add_all two_numbers clock two_additions 9000 two_numbers-IsFaithful
      (all_cons (omega arith) (all_cons (omega arith) all_none))
