-- ===== src/Loader/Reader/Moves.antt =====
-- How the reader moves over what is left of its bytes.
use wasmtiny.Base.{
  ℕ, ◌+◌, ◌≤◌, ◌<◌, ◌^◌, ◌≡◌, ap, List, [], ◌∷◌, ◌++◌, length, take, drop, arith, drop-eq-cons,
  length-drop, drop-add, take-append-drop, length-take,
}
use wasmtiny.Loader.Reader.{BinaryReader, ok, err, unexpected_eof, read_byte, read_bytes, read_u8}

-- The bytes that are still to be read.
abbrev pub rest : BinaryReader → List ℕ
rest r = drop r.position r.bytes

abbrev pub advance : BinaryReader → ℕ → BinaryReader
advance r n = record r { position = r.position + n }

pub read_byte-cons :
    (r : BinaryReader) {b : ℕ} {bs : List ℕ}
    → rest r ≡ b ∷ bs
    → (read_byte r ≡ (ok b, advance r 1)) × (rest (advance r 1) ≡ bs)
unfolding read_byte
read_byte-cons r h = let d = drop-eq-cons r.position r.bytes h in (ground (arith, d.0, d.1), d.2)

pub read_u8-cons :
    (r : BinaryReader) {b : ℕ} {bs : List ℕ}
    → rest r ≡ b ∷ bs
    → (read_u8 r ≡ (ok b, advance r 1)) × (rest (advance r 1) ≡ bs)
unfolding read_u8
read_u8-cons r h = read_byte-cons r h

-- With nothing left, a byte read fails and the reader stays where it is.
pub read_byte-nil : (r : BinaryReader) → rest r ≡ [] → read_byte r ≡ (err unexpected_eof, r)
unfolding read_byte
read_byte-nil r h = ground (arith, length-drop r.position r.bytes, ap length h)

-- A read of `n` bytes that are there returns exactly those and moves past them; where fewer are
-- left it fails and the reader stays where it is. (Positions fit `usize`.)
pub read_bytes_lem :
    (r : BinaryReader) (n : ℕ)
    → r.position + n < 2 ^ 64
    → r.position ≤ length r.bytes
    → (n ≤ length (rest r)
        → (read_bytes n r ≡ (ok (take n (rest r)), advance r n))
          × (take n (rest r) ++ rest (advance r n) ≡ rest r)
          × (length (take n (rest r)) ≡ n))
      × (length (rest r) < n → read_bytes n r ≡ (err unexpected_eof, r))
unfolding read_bytes
read_bytes_lem r n h v = (
  λ p. (
    ground (arith, length-drop r.position r.bytes),
    rw drop-add (take-append-drop n (rest r)),
    omega (arith, length-take n (rest r)),
  ),
  λ p. ground (arith, length-drop r.position r.bytes),
)
