-- ===== src/Dataconn/Wire.antt =====
-- pkg/dataconn/wire.go: `Wire.Write` and `Wire.Read`. A connection is the bytes that are still to be
-- read from it. The header buffer is overwritten as a whole, so its old bytes do not count.
use longhorn_engine.Prelude.{
  ℕ, zero, suc, ◌+◌, ◌*◌, ◌/◌, ◌%◌, ◌^◌, Option, none, some, List, [], ◌∷◌, ◌++◌, length, take,
  drop, leb, not, ◌==◌, if◌then◌else◌,
}
use longhorn_engine.Dataconn.{Message, magic_version}

-- `binary.LittleEndian` of n bytes.
unfoldable pub put_bytes : ℕ → ℕ → List ℕ
put_bytes zero v = []
put_bytes (suc n) v = v % 256 ∷ put_bytes n (v / 256)

unfoldable pub get_bytes : List ℕ → ℕ
get_bytes [] = 0
get_bytes (b ∷ bs) = b + 256 * get_bytes bs

-- `getRequestHeaderSize`
abbrev pub header_size : ℕ
header_size = 2 + 4 + 4 + 8 + 4 + 4

-- The header that `Write` fills.
unfoldable pub header : Message → List ℕ
header m =
    put_bytes 2 m.version
    ++ put_bytes 4 m.seq
    ++ put_bytes 4 m.type
    ++ put_bytes 8 m.offset
    ++ put_bytes 4 m.size
    ++ put_bytes 4 (length m.payload % 2 ^ 32)

-- The bytes that `Write` sends.
unfoldable pub write : Message → List ℕ
write m = header m ++ m.payload

-- `io.ReadFull` of n bytes: the bytes and what is left, or none at a short stream.
unfoldable pub read_full : ℕ → List ℕ → Option (List ℕ × List ℕ)
read_full n stream = if leb n (length stream) then some (take n stream, drop n stream) else none

-- What `Read` returns: a message with the rest of the stream, or an error.
pub data Received : Type 0 where
  message : Message → List ℕ → Received
  short : Received
  wrong_version : ℕ → Received

-- The field of n bytes at a place of the header.
unfoldable pub field : ℕ → ℕ → List ℕ → ℕ
field at n h = get_bytes (take n (drop at h))

-- `Read`
unfoldable pub read : List ℕ → Received
read stream = elim (read_full header_size stream) [
  | none ↦ short
  | some (h, rest) ↦
      let version = field 0 2 h in
      if not (version == magic_version)
      then wrong_version version
      else let len = field 22 4 h in
        elim (read_full len rest) [
          | none ↦ short
          | some (bytes, rest') ↦
              message
                (record {
                  version = version;
                  seq = field 2 4 h;
                  type = field 6 4 h;
                  offset = field 10 8 h;
                  size = field 18 4 h;
                  payload = bytes;
                })
                rest'
        ]
]

-- The loop of a reader, with the rounds that are left.
unfoldable pub read_many : ℕ → List ℕ → List Message
read_many zero stream = []
read_many (suc n) stream = elim (read stream) [
  | message m rest ↦ m ∷ read_many n rest
  | short ↦ []
  | wrong_version v ↦ []
]

unfoldable pub write_many : List Message → List ℕ
write_many [] = []
write_many (m ∷ ms) = write m ++ write_many ms
