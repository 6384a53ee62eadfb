-- ===== src/Circular.antt =====
-- src/core/circular_buffer.rs: the bounded buffer behind the recent-error lists of the health
-- monitor. The `VecDeque` is a list, oldest entry first; its methods are the list functions of
-- `Deque`. Methods through `&mut` return the new buffer.
pub mod Deque
pub mod Bounds
pub mod History
pub mod Retain
pub mod Last
pub mod Removal
mod Tests
use shared_ws.Prelude.{
  ℕ, zero, suc, ◌+◌, ◌-◌, Bool, true, false, Option, none, some, List, [], ◌++◌, ltb, leb, ◌==◌,
  ◌||◌, if◌then◌else◌, length, get_elem?, drop, last?, drop_last, take,
}
use Deque.{front, behead, push_back, swap, position}

pub record CircularBuffer {ℓ} (A : Type ℓ) : Type ℓ where
  pub buffer : List A
  pub capacity : ℕ

module _ {ℓ} {A : Type ℓ} where
  unfoldable pub new : ℕ → CircularBuffer A
  new capacity = record { buffer = []; capacity = capacity }

  -- Capacity 0 stores nothing; a full buffer loses its oldest entry first.
  unfoldable pub push : CircularBuffer A → A → CircularBuffer A
  push b item = if b.capacity == 0 then b else record b {
    buffer = push_back (if length b.buffer == b.capacity then behead b.buffer else b.buffer) item;
  }

  unfoldable pub len : CircularBuffer A → ℕ
  len b = length b.buffer

  pub is_empty : CircularBuffer A → Bool
  is_empty b = length b.buffer == 0

  pub is_full : CircularBuffer A → Bool
  is_full b = length b.buffer == b.capacity

  pub get : CircularBuffer A → ℕ → Option A
  get b index = get_elem? b.buffer index

  pub back : CircularBuffer A → Option A
  back b = last? b.buffer

  unfoldable pub clear : CircularBuffer A → CircularBuffer A
  clear b = record b { buffer = [] }

  pub pop_front : CircularBuffer A → Option A × CircularBuffer A
  pop_front b = (front b.buffer, record b { buffer = behead b.buffer })

  -- Despite its name it takes an index: the entry there is exchanged with the last one, which is
  -- then popped.
  pub pop_back : CircularBuffer A → ℕ → Option A × CircularBuffer A
  pop_back b index =
      let swapped = swap b.buffer index (length b.buffer - 1) in
      if leb (length b.buffer) index
      then (none, b)
      else (last? swapped, record b { buffer = drop_last swapped })

  pub remove : (A → A → Bool) → CircularBuffer A → A → Option A × CircularBuffer A
  unfolding pop_back
  remove eq b item = elim (position (λ x. eq x item) b.buffer) [
    | some index ↦ pop_back b index
    | none ↦ (none, b)
  ]

  -- One round of the loop of `retain` at index `i`; `del` counts the entries dropped so far.
  pub retain_round : (A → Bool) → ℕ → List A → ℕ → List A × ℕ
  retain_round f i buf del = elim (get_elem? buf i) [
    | none ↦ (buf, del)
    | some x ↦
        if f x then (if ltb 0 del then swap buf (i - del) i else buf, del) else (buf, suc del)
  ]

  -- `for i in 0..len`, with the rounds left.
  pub retain_loop : (A → Bool) → ℕ → ℕ → List A → ℕ → List A × ℕ
  retain_loop f zero i buf del = (buf, del)
  retain_loop f (suc rounds) i buf del =
      let (buf', del') = retain_round f i buf del in retain_loop f rounds (suc i) buf' del'

  pub retain : CircularBuffer A → (A → Bool) → CircularBuffer A
  unfolding retain_loop retain_round
  retain b f =
      let (buf, del) = retain_loop f (length b.buffer) 0 b.buffer 0 in
      record b { buffer = if ltb 0 del then take (length b.buffer - del) buf else buf }

  -- `as_slices` stands for `VecDeque::as_slices`: where the ring wraps is not part of the contents.
  pub last : (List A → List A × List A) → CircularBuffer A → ℕ → Option (List A)
  last as_slices b n =
      let first = (as_slices b.buffer).0 in
      let second = (as_slices b.buffer).1 in
      let start = length b.buffer - n in
      if n == 0 || ltb (length b.buffer) n
      then none
      else if length second == 0
      then some (drop start first)
      else if leb (length first) start
      then some (drop (start - length first) second)
      else none

  pub second_to_last : CircularBuffer A → Option A
  unfolding get
  second_to_last b = if leb 2 (length b.buffer) then get b (length b.buffer - 2) else none
