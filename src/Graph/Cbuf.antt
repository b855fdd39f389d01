-- ===== src/Graph/Cbuf.antt =====
-- The reader that goes round a section of a file: argus/graph/graphd/cbufio.go.
pub mod Circle
pub mod Rounds
pub mod Reading
use argus.Prelude.{
  ℕ, zero, suc, ◌+◌, ◌-◌, ◌/◌, ◌%◌, Bool, true, false, ◌&&◌, Option, none, some, List, [], ◌++◌,
  leb, ◌==◌, if◌then◌else◌, length, take, drop, min,
}
use argus.Graph.Raw.{Bytes, bytes_from}

abbrev pub bufsize : ℕ
bufsize = 4096

-- CbufReader, with the file and its position. `buf` is what is not read yet of the source's
-- buffer, from bpos to bend.
pub record CbufReader : Type 0 where
  pub file : Bytes
  pub fpos : ℕ
  pub buf : Bytes
  pub sectoff : ℕ
  pub sectsize : ℕ
  pub sectpos : ℕ

-- NewCbufReader. The file's position is where it was.
unfoldable pub new_cbuf_reader : Bytes → ℕ → ℕ → ℕ → CbufReader
new_cbuf_reader file fpos start size = record {
  file = file;
  fpos = fpos;
  buf = [];
  sectoff = start;
  sectsize = size;
  sectpos = 0;
}

-- CbufReader.Seek
unfoldable pub seek : ℕ → CbufReader → CbufReader
seek pos r = record r { sectpos = pos; fpos = pos + r.sectoff }

-- How much to ask of the file: up to the section's end, a buffer, or the end of the block, which
-- ever comes first. Past the section's end the source's slice is out of range.
unfoldable pub ask : CbufReader → ℕ
ask r =
    let rlen = min (r.sectsize - r.sectpos) bufsize in
    let past = r.sectpos + rlen in
    if r.sectpos / bufsize == past / bufsize then rlen else rlen - past % bufsize

-- os.File.Read: it fails only where something is asked for at the end of the file or past it.
unfoldable pub file_read : ℕ → CbufReader → Option (Bytes × CbufReader)
file_read n r =
    let len = min n (length r.file - r.fpos) in
    if len == 0 && leb 1 n
    then none
    else some (bytes_from r.file r.fpos len, record r { fpos = r.fpos + len })

abbrev pub filled : Bytes → CbufReader → CbufReader
filled bs r = record r { buf = bs; sectpos = r.sectpos + length bs }

-- "read more", and back to the beginning at the section's end
unfoldable pub refill : CbufReader → Option CbufReader
unfolding file_read ask seek
refill r = elim (file_read (ask r) r) [
  | none ↦ none
  | some (bs, r') ↦
      some (if leb r'.sectsize (filled bs r').sectpos then seek 0 (filled bs r') else filled bs r')
]

-- The loop of CbufReader.Read: what is read so far, and how much is still wanted. It gives the
-- bytes, and whether there was no error; it is none where the fuel is used up.
unfoldable pub read_from : ℕ → Bytes → ℕ → CbufReader → Option (Bytes × Bool × CbufReader)
unfolding refill
read_from zero done n r = none
read_from (suc k) done n r = elim (leb n (length r.buf)) [
  | true ↦ some (done ++ take n r.buf, true, record r { buf = drop n r.buf })
  | false ↦ elim (refill (record r { buf = [] })) [
    | none ↦ some (done ++ r.buf, false, record r { buf = [] })
    | some r' ↦ read_from k (done ++ r.buf) (n - length r.buf) r'
  ]
]

-- CbufReader.Read of so many bytes
unfoldable pub read : ℕ → CbufReader → Option (Bytes × Bool × CbufReader)
unfolding read_from
read n r = read_from (suc n) [] n r
