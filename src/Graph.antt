-- ===== src/Graph.antt =====
-- The data of graphs: argus/graph/graphd/graphd.go. A file has a header and three sections that go
-- round: of samples, and of summaries of hours and of days.
pub mod Raw
pub mod Cbuf
pub mod Get
pub mod Kept
use argus.Prelude.{
  ℕ, suc, ◌+◌, ◌-◌, ◌*◌, ◌/◌, ◌%◌, ◌^◌, Bool, ◌||◌, not, Option, none, some, List, [], ◌∷◌, ◌++◌,
  ltb, ◌==◌, if◌then◌else◌, min,
}
use argus.Text.{Text, codes}
use argus.Status.{Status, unknown, clear, depends}
use argus.Bits.{hash_djb2}
use Raw.{Bytes, be32, word_at, write_at}

-- float32, the square root of math narrowed to it, and its bits.
pub record Singles (F : Type 0) : Type 0 where
  pub of_nat : ℕ → F
  pub add : F → F → F
  pub sub : F → F → F
  pub mul : F → F → F
  pub div : F → F → F
  pub lt : F → F → Bool
  pub sqrt : F → F
  pub bits : F → ℕ
  pub of_bits : ℕ → F

abbrev pub hdr_size : ℕ
hdr_size = 1024

abbrev pub samp_size : ℕ
samp_size = 20

abbrev pub summy_size : ℕ
summy_size = 32

abbrev pub n_max : ℕ
n_max = 1024

-- HeaderSect
pub record HeaderSect (F : Type 0) : Type 0 where
  pub idx : ℕ
  pub nmax : ℕ
  pub count : ℕ
  pub nsamp : ℕ
  pub min : F
  pub max : F
  pub sigm : F
  pub sigm2 : F
  pub exp : F
  pub delt : F
  pub status : Status

-- Header
pub record Header (F : Type 0) : Type 0 where
  pub lastt : ℕ
  pub samp : HeaderSect F
  pub hour : HeaderSect F
  pub day : HeaderSect F

-- graphData, with its file. The header that the file begins with is not among its bytes.
pub record GraphData (F : Type 0) : Type 0 where
  pub h : Header F
  pub file : Bytes

-- SampleData
pub record SampleData (F : Type 0) : Type 0 where
  pub when : ℕ
  pub status : Status
  pub value : F
  pub exp : F
  pub delt : F

-- SummyData
pub record SummyData (F : Type 0) : Type 0 where
  pub when : ℕ
  pub status : Status
  pub min : F
  pub max : F
  pub ave : F
  pub stdev : F
  pub exp : F
  pub delt : F

-- toSeconds
abbrev pub to_seconds : ℕ → ℕ
to_seconds t = t * 4

-- fromSeconds
abbrev pub from_seconds : ℕ → ℕ
from_seconds t = t / 4 % 2 ^ 32

-- lockno
unfoldable pub lockno : Text → ℕ
lockno file = hash_djb2 file % 251

-- filename
abbrev pub filename : Text → Text → Text
filename datadir file = datadir ++ codes "/gdata/" ++ file

module _ {F : Type 0} where
  -- initHeader
  abbrev pub samp_start : GraphData F → ℕ
  samp_start g = hdr_size

  abbrev pub hour_start : GraphData F → ℕ
  hour_start g = samp_start g + samp_size * g.h.samp.nmax

  abbrev pub day_start : GraphData F → ℕ
  day_start g = hour_start g + summy_size * g.h.hour.nmax

-- The hour and the day of the month of a time, by the local calendar.
pub record Calendar : Type 0 where
  pub hour_of : ℕ → ℕ
  pub day_of : ℕ → ℕ

module _ {F : Type 0} (sg : Singles F) where
  abbrev pub nought : F
  nought = sg.of_nat 0

  abbrev pub new_sect : ℕ → HeaderSect F
  new_sect n = record {
    idx = 0;
    nmax = n;
    count = 0;
    nsamp = 0;
    min = nought;
    max = nought;
    sigm = nought;
    sigm2 = nought;
    exp = nought;
    delt = nought;
    status = 0;
  }

  -- create, with newHeader
  unfoldable pub create : GraphData F
  create = record {
    h = record { lastt = 0; samp = new_sect n_max; hour = new_sect n_max; day = new_sect n_max };
    file = [];
  }

  abbrev pub encode_sample : SampleData F → Bytes
  encode_sample s =
      be32 s.when
      ++ be32 s.status
      ++ be32 (sg.bits s.value)
      ++ be32 (sg.bits s.exp)
      ++ be32 (sg.bits s.delt)

  abbrev pub decode_sample : Bytes → SampleData F
  decode_sample bs = record {
    when = word_at bs 0;
    status = word_at bs 4;
    value = sg.of_bits (word_at bs 8);
    exp = sg.of_bits (word_at bs 12);
    delt = sg.of_bits (word_at bs 16);
  }

  abbrev pub encode_summy : SummyData F → Bytes
  encode_summy s =
      be32 s.when
      ++ be32 s.status
      ++ be32 (sg.bits s.min)
      ++ be32 (sg.bits s.max)
      ++ be32 (sg.bits s.ave)
      ++ be32 (sg.bits s.stdev)
      ++ be32 (sg.bits s.exp)
      ++ be32 (sg.bits s.delt)

  abbrev pub decode_summy : Bytes → SummyData F
  decode_summy bs = record {
    when = word_at bs 0;
    status = word_at bs 4;
    min = sg.of_bits (word_at bs 8);
    max = sg.of_bits (word_at bs 12);
    ave = sg.of_bits (word_at bs 16);
    stdev = sg.of_bits (word_at bs 20);
    exp = sg.of_bits (word_at bs 24);
    delt = sg.of_bits (word_at bs 28);
  }

  -- HeaderSect.add
  unfoldable pub add_value : Status → F → F → F → HeaderSect F → HeaderSect F
  add_value status val exp delt hs = record hs {
    nsamp = suc hs.nsamp;
    min = if sg.lt val hs.min then val else hs.min;
    max = if sg.lt hs.max val then val else hs.max;
    sigm = sg.add hs.sigm val;
    sigm2 = sg.add hs.sigm2 (sg.mul val val);
    exp = sg.add hs.exp exp;
    delt = sg.add hs.delt delt;
    status = if ltb hs.status status then status else hs.status;
  }

  -- HeaderSect.summarize
  unfoldable pub summarize : ℕ → HeaderSect F → SummyData F
  summarize lastt hs =
      let n = sg.of_nat hs.nsamp in
      let ave = sg.div hs.sigm n in
      let var = sg.sub (sg.div hs.sigm2 n) (sg.mul ave ave) in
      record {
        when = lastt;
        status = hs.status;
        min = hs.min;
        max = hs.max;
        ave = ave;
        stdev = if sg.lt nought var then sg.sqrt var else nought;
        exp = sg.div hs.exp n;
        delt = sg.div hs.delt n;
      }

  -- HeaderSect.reset
  unfoldable pub reset : F → HeaderSect F → HeaderSect F
  reset val hs = record hs {
    nsamp = 0;
    min = val;
    max = val;
    sigm = nought;
    sigm2 = nought;
    exp = nought;
    delt = nought;
    status = 0;
  }

  -- Where the next record of a section goes, and how many it holds.
  unfoldable pub step_on : HeaderSect F → HeaderSect F
  step_on hs = record hs {
    idx = (hs.idx + 1) % hs.nmax;
    count = if ltb hs.nmax (hs.count + 1) then hs.nmax else hs.count + 1;
  }

  -- roll: the section, and the bytes of the file
  unfoldable pub roll : ℕ → F → ℕ → HeaderSect F × Bytes → HeaderSect F × Bytes
  unfolding summarize step_on reset
  roll lastt val start (hs, file) = if hs.nsamp == 0 then (hs, file) else (
    reset val (step_on hs),
    write_at (start + summy_size * hs.idx) (encode_summy (summarize lastt hs)) file,
  )

  -- rollHour
  unfoldable pub roll_hour : F → GraphData F → GraphData F
  unfolding roll
  roll_hour val g =
      let (hs, file) = roll g.h.lastt val (hour_start g) (g.h.hour, g.file) in
      let h = g.h in record { h = record h { hour = hs }; file = file }

  -- rollDay
  unfoldable pub roll_day : F → GraphData F → GraphData F
  unfolding roll
  roll_day val g =
      let (hs, file) = roll g.h.lastt val (day_start g) (g.h.day, g.file) in
      let h = g.h in record { h = record h { day = hs }; file = file }

  abbrev pub sample_of : ℕ → Status → F → F → F → SampleData F
  sample_of when status val yn dn = record {
    when = from_seconds when;
    status = status;
    value = val;
    exp = yn;
    delt = dn;
  }

  -- The sample is written, and the section of samples steps on.
  unfoldable pub put_sample : SampleData F → GraphData F → GraphData F
  unfolding step_on
  put_sample s g =
      let h = g.h in
      record {
        h = record h { samp = step_on h.samp };
        file = write_at (samp_start g + samp_size * h.samp.idx) (encode_sample s) g.file;
      }

  unfoldable pub roll_if : Bool → (GraphData F → GraphData F) → GraphData F → GraphData F
  roll_if b f g = if b then f g else g

  unfoldable pub summed : ℕ → Status → F → F → F → GraphData F → GraphData F
  unfolding add_value
  summed when status val yn dn g =
      let h = g.h in
      record g {
        h = record h {
          hour = add_value status val yn dn h.hour;
          day = add_value status val yn dn h.day;
          lastt = from_seconds when;
        };
      }

  -- graphData.add, with its values narrowed
  unfoldable pub add : Calendar → ℕ → Status → F → F → F → GraphData F → GraphData F
  unfolding put_sample roll_if roll_day roll_hour summed
  add cal when status val yn dn g =
      let g1 = put_sample (sample_of when status val yn dn) g in
      let last = to_seconds g1.h.lastt in
      let g2 = roll_if (not (cal.day_of last == cal.day_of when)) (roll_day val) g1 in
      let g3 = roll_if (not (cal.hour_of last == cal.hour_of when)) (roll_hour val) g2 in
      summed when status val yn dn g3

  abbrev pub graphed_status : Status → Status
  graphed_status s = if s == depends || s == unknown then clear else s

  -- Add, with the file if it is there and its header is one: otherwise it is created.
  unfoldable pub add_to_file :
      Calendar → Option (GraphData F) → ℕ → Status → F → F → F → GraphData F
  unfolding add create
  add_to_file cal (some g) when status val yn dn = add cal when (graphed_status status) val yn dn g
  add_to_file cal none when status val yn dn = add cal when (graphed_status status) val yn dn create
