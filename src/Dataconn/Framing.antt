-- ===== src/Dataconn/Framing.antt =====
-- pkg/dataconn/wire.go: what `Read` makes of the bytes that `Write` sends.
use longhorn_engine.Prelude.{
  ℕ, suc, ◌^◌, ◌<◌, some, true, List, [], ◌∷◌, ◌++◌, length, leb, ◌==◌, ◌≡◌, refl, ap, ◌∙◌, arith,
  length-append, take-append_exact, drop-append_exact,
}
use mathlib.Core.List.{append_assoc}
use longhorn_engine.Dataconn.{Message, magic_version}
use longhorn_engine.Dataconn.Wire.{
  put_bytes, get_bytes, header, header_size, write, read_full, message, field, read, read_many,
  write_many,
}

-- The fields of a message fit their widths.
pub record Fits (m : Message) : Type 0 where
  pub version : m.version ≡ magic_version
  pub seq : m.seq < 2 ^ 32
  pub type : m.type < 2 ^ 32
  pub offset : m.offset < 2 ^ 64
  pub size : m.size < 2 ^ 32
  pub payload : length m.payload < 2 ^ 32

-- The header is laid out as `Read` takes it apart.
record Laid (h : List ℕ) (m : Message) : Type 0 where
  width : length h ≡ header_size
  version : field 0 2 h ≡ m.version
  seq : field 2 4 h ≡ m.seq
  type : field 6 4 h ≡ m.type
  offset : field 10 8 h ≡ m.offset
  size : field 18 4 h ≡ m.size
  payload : field 22 4 h ≡ length m.payload

header-Laid : (m : Message) → Fits m → Laid (header m) m
unfolding header field put_bytes get_bytes
header-Laid m f = record {
  width = refl;
  version = let e = f.version in omega arith;
  seq = let e = f.seq in omega arith;
  type = let e = f.type in omega arith;
  offset = let e = f.offset in omega arith;
  size = let e = f.size in omega arith;
  payload = let e = f.payload in omega arith;
}

read_full-append :
    (n : ℕ) (bytes rest : List ℕ)
    → length bytes ≡ n
    → read_full n (bytes ++ rest) ≡ some (bytes, rest)
unfolding read_full
read_full-append n bytes rest e =
    let enough : leb n (length (bytes ++ rest)) ≡ true =
      ground (arith, length-append {0} bytes rest) in
    rw (enough, take-append_exact bytes rest n e, drop-append_exact bytes rest n 0 (omega arith))
      refl

read-Laid :
    (h rest : List ℕ) (m : Message)
    → Fits m
    → Laid h m
    → read (h ++ (m.payload ++ rest)) ≡ message m rest
unfolding read
read-Laid h rest m f l =
    let same : (field 0 2 h == magic_version) ≡ true = ground (arith, l.version, f.version) in
    rw (read_full-append header_size h (m.payload ++ rest) l.width, read)
      (rw same (
        rw (l.payload) (
          rw (read_full-append (length m.payload) m.payload rest refl)
            (rw (l.version, l.seq, l.type, l.offset, l.size) refl))))

-- A message whose fields fit their widths is read back as it was written, and what follows it in the
-- stream is left.
pub read-write : (m : Message) (rest : List ℕ) → Fits m → read (write m ++ rest) ≡ message m rest
unfolding write
read-write m rest f =
    ap read (append_assoc (header m) m.payload rest)
    ∙ read-Laid (header m) rest m f (header-Laid m f)

many_step :
    (n : ℕ) (stream rest : List ℕ) (m : Message)
    → read stream ≡ message m rest
    → read_many (suc n) stream ≡ m ∷ read_many n rest
unfolding read_many
many_step n stream rest m e = rw (e, read_many) refl

abbrev pub AllFit : List Message → Type 0
AllFit [] = Unit {0}
AllFit (m ∷ ms) = Fits m × AllFit ms

-- A stream of messages that fit is read back as those messages, in their order.
pub read_many-write_many :
    (ms : List Message) (rest : List ℕ)
    → AllFit ms
    → read_many (length ms) (write_many ms ++ rest) ≡ ms
unfolding read_many write_many
read_many-write_many [] rest f = refl
read_many-write_many (m ∷ ms) rest f =
    let first =
      ap read (append_assoc (write m) (write_many ms) rest)
      ∙ read-write m (write_many ms ++ rest) f.0 in
    many_step (length ms) _ _ m first ∙ ap (λ z. m ∷ z) (read_many-write_many ms rest f.1)
