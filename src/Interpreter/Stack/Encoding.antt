-- ===== src/Interpreter/Stack/Encoding.antt =====
-- The bytes of a control stack.
use wasmtiny.Base.{
  ℕ, zero, suc, ◌+◌, ◌/◌, ◌%◌, ◌^◌, ◌≤◌, ◌<◌, ◌≡◌, List, [], ◌∷◌, map, length, drop, arith, refl,
  ap, ◌∙◌, length-drop,
}
use wasmtiny.Base.Bytes.{to_le_bytes, from_le_bytes, from_le_bytes-to_le_bytes}
use wasmtiny.Interpreter.Stack.{
  FrameKind, ControlFrame, ControlStack, frame_bytes, frame_kind_byte, frame_kind_from_u8,
  frames_to_bytes, stack_to_bytes, field_at, read_frame, frames_from_bytes, stack_from_bytes,
}

-- What is kept of a frame: its numbers, modulo `2 ^ 32`, and its kind.
abbrev pub written : ControlFrame → ControlFrame
written f = record {
  kind = f.kind;
  position = f.position % 2 ^ 32;
  code = [];
  arity = f.arity % 2 ^ 32;
  label_arity = f.label_arity % 2 ^ 32;
  local_count = f.local_count % 2 ^ 32;
  height = f.height % 2 ^ 32;
  locals = [];
}

frame_kind_from_u8-frame_kind_byte : (k : FrameKind) → frame_kind_from_u8 (frame_kind_byte k) ≡ k
unfolding frame_kind_from_u8
frame_kind_from_u8-frame_kind_byte FrameKind.function = refl
frame_kind_from_u8-frame_kind_byte FrameKind.block = refl
frame_kind_from_u8-frame_kind_byte FrameKind.loop = refl

u32_bytes : (v : ℕ) → from_le_bytes (to_le_bytes 4 (v % 2 ^ 32)) ≡ v % 2 ^ 32
u32_bytes v = from_le_bytes-to_le_bytes 4 (v % 2 ^ 32) (omega arith)

abbrev frame_of : FrameKind → ℕ → ℕ → ℕ → ℕ → ℕ → ControlFrame
frame_of kind position arity label_arity height local_count = record {
  kind = kind;
  position = position;
  code = [];
  arity = arity;
  label_arity = label_arity;
  local_count = local_count;
  height = height;
  locals = [];
}

frame_ext :
    {k k' : FrameKind} {p p' a a' l l' h h' c c' : ℕ}
    → k ≡ k'
    → p ≡ p'
    → a ≡ a'
    → l ≡ l'
    → h ≡ h'
    → c ≡ c'
    → frame_of k p a l h c ≡ frame_of k' p' a' l' h' c'
frame_ext ek ep ea el eh ec = cc

read_frame-frame_bytes :
    (f : ControlFrame) (rest : List ℕ) → read_frame (frame_bytes f rest) ≡ written f
unfolding read_frame field_at to_le_bytes
read_frame-frame_bytes f rest =
    frame_ext (frame_kind_from_u8-frame_kind_byte f.kind) (u32_bytes f.position) (u32_bytes f.arity)
      (u32_bytes f.label_arity) (u32_bytes f.height) (u32_bytes f.local_count)

frames_from_bytes_next :
    (fuel : ℕ) (bytes : List ℕ)
    → 21 ≤ length bytes
    → frames_from_bytes (suc fuel) bytes ≡ read_frame bytes ∷ frames_from_bytes fuel (drop 21 bytes)
unfolding frames_from_bytes
frames_from_bytes_next fuel bytes enough = ground (arith, enough)

-- Encoding, with one round for each byte or more.
frames_from_bytes-frames_to_bytes :
    (frames : List ControlFrame) (rest : List ℕ) (fuel : ℕ)
    → length rest < 21
    → length (frames_to_bytes frames rest) ≤ fuel
    → frames_from_bytes fuel (frames_to_bytes frames rest) ≡ map written frames
unfolding frames_from_bytes frames_to_bytes to_le_bytes
frames_from_bytes-frames_to_bytes [] rest zero short enough = refl
frames_from_bytes-frames_to_bytes [] rest (suc fuel) short enough = ground (arith, short)
frames_from_bytes-frames_to_bytes (f ∷ frames) rest zero short enough =
    absurd (omega (arith, enough))
frames_from_bytes-frames_to_bytes (f ∷ frames) rest (suc fuel) short enough =
    let bytes = frames_to_bytes frames rest in
    let len : length (frame_bytes f bytes) ≡ length bytes + 21 = omega arith in
    let tail = frames_from_bytes-frames_to_bytes frames rest fuel short (omega (arith, enough)) in
    frames_from_bytes_next fuel (frame_bytes f bytes) (omega (arith, len))
    ∙ ap (λ frame. frame ∷ frames_from_bytes fuel bytes) (read_frame-frame_bytes f bytes)
    ∙ ap (◌∷◌ (written f)) tail

length-frames_from_bytes :
    (fuel : ℕ) (bytes : List ℕ)
    → length bytes ≤ fuel
    → length (frames_from_bytes fuel bytes) ≡ length bytes / 21
unfolding frames_from_bytes
length-frames_from_bytes zero bytes enough = omega (arith, enough)
length-frames_from_bytes (suc fuel) bytes enough =
    let left = length-drop 21 bytes in
    let tail = length-frames_from_bytes fuel (drop 21 bytes) (omega (arith, left, enough)) in
    ground (arith, tail, left)

-- Every control stack is read back from its bytes with the kinds of its frames and their numbers
-- modulo `2 ^ 32`, without code and locals, and fewer than 21 bytes behind are passed over; any
-- bytes at all give one frame for every whole 21 of them.
pub stack_from_bytes-stack_to_bytes :
    (s : ControlStack) (rest bytes : List ℕ)
    → length rest < 21
    → (stack_from_bytes (stack_to_bytes s) ≡ record { frames = map written s.frames })
      × (stack_from_bytes (frames_to_bytes s.frames rest)
          ≡ record { frames = map written s.frames })
      × (length (stack_from_bytes bytes).frames ≡ length bytes / 21)
unfolding stack_from_bytes stack_to_bytes
stack_from_bytes-stack_to_bytes s rest bytes short =
    let read_back : (tail : List ℕ)
        → length tail < 21
        → stack_from_bytes (frames_to_bytes s.frames tail)
          ≡ record { frames = map written s.frames } =
      λ tail few.
        ap (λ frames. record { frames = frames })
          (frames_from_bytes-frames_to_bytes s.frames tail (length (frames_to_bytes s.frames tail))
            few (omega arith)) in
    (
      read_back [] (omega arith),
      read_back rest short,
      length-frames_from_bytes (length bytes) bytes (omega arith),
    )
