-- ===== src/Process/LogBuffer/Ring.antt =====
-- The ring keeps the last lines: refinement of the buffer of log_buffer.rs to the list of all lines.
use mathlib.Core.List.{append-nil, append_assoc}
use v2ray_rs.Process.LogBuffer.{LogLine, LogBuffer, with_capacity, pop_front, push}
use v2ray_rs.Base.{
  ℕ, suc, ◌-◌, ◌≤◌, ◌<◌, ◌≡◌, refl, sym, ◌∙◌, inl, inr, List, [], ◌∷◌, ◌++◌, arith, leb, Bool-cases,
  length, drop, length-append,
}

-- the buffer after a list of lines is pushed, the first line first
unfoldable pub push_all : List LogLine → LogBuffer → LogBuffer
push_all [] b = b
push_all (l ∷ ls) b = push_all ls (push l b)

-- the last `n` elements of a list
abbrev pub last {ℓ} : {A : Type ℓ} → ℕ → List A → List A
last n xs = drop (length xs - n) xs

-- a list longer than `n` loses nothing of its last `n` elements with its first one
last-pop_front : (n : ℕ) (xs : List LogLine) → n < length xs → last n (pop_front xs) ≡ last n xs
last-pop_front n [] h = absurd (omega arith)
last-pop_front n (x ∷ xs) h =
    let e : suc (length xs) - n ≡ suc (length xs - n) = omega arith in rw e refl

pop_front-append :
    (xs ys : List LogLine) → 0 < length xs → pop_front (xs ++ ys) ≡ pop_front xs ++ ys
pop_front-append [] ys h = absurd (omega arith)
pop_front-append (x ∷ xs) ys h = refl

-- the state of a buffer that was made with room for at least one line
pub record IsBounded (b : LogBuffer) : Type 0 where
  pub room : 1 ≤ b.capacity
  pub bounded : length b.lines ≤ b.capacity

length-pop_front : (xs : List LogLine) → length (pop_front xs) ≡ length xs - 1
length-pop_front [] = omega arith
length-pop_front (x ∷ xs) = omega arith

pub push-IsBounded : (l : LogLine) (b : LogBuffer) → IsBounded b → IsBounded (push l b)
unfolding push
push-IsBounded l b h = elim (Bool-cases (leb b.capacity (length b.lines))) [
  | inl full ↦ rw full (record {
    room = h.room;
    bounded = omega (
      arith,
      length-append (pop_front b.lines) (l ∷ []),
      length-pop_front b.lines,
      h.room,
      h.bounded,
    );
  })
  | inr short ↦
      let small : length b.lines < b.capacity = ground arith in
      rw short
        (record { room = h.room; bounded = omega (arith, length-append b.lines (l ∷ []), small) })
]

push-last :
    (l : LogLine) (ls : List LogLine) (b : LogBuffer)
    → IsBounded b
    → last b.capacity ((push l b).lines ++ ls) ≡ last b.capacity (b.lines ++ l ∷ ls)
unfolding push
push-last l ls b h = elim (Bool-cases (leb b.capacity (length b.lines))) [
  | inl full ↦
      let much : b.capacity ≤ length b.lines = ground arith in
      let room : 1 ≤ b.capacity = h.room in
      let some_line : 0 < length b.lines = omega arith in
      rw full (
        rw (append_assoc, ← pop_front-append b.lines (l ∷ ls) some_line)
          (last-pop_front b.capacity (b.lines ++ l ∷ ls)
            (omega (arith, length-append b.lines (l ∷ ls), much))))
  | inr short ↦ rw short (rw append_assoc refl)
]

capacity-push : (l : LogLine) (b : LogBuffer) → (push l b).capacity ≡ b.capacity
unfolding push
capacity-push l b = refl

push_all-last :
    (ls : List LogLine) (b : LogBuffer)
    → IsBounded b
    → (push_all ls b).lines ≡ last b.capacity (b.lines ++ ls)
unfolding push_all
push_all-last [] b h =
    let e : length (b.lines ++ []) - b.capacity ≡ 0 =
      omega (arith, length-append b.lines [], h.bounded) in
    rw e (sym (append-nil b.lines))
push_all-last (l ∷ ls) b h =
    push_all-last ls (push l b) (push-IsBounded l b h) ∙ rw (capacity-push l b) (push-last l ls b h)

-- A new buffer with room for at least one line holds, after any lines are pushed, the last of them,
-- as many as its capacity allows, in their order.
pub push_all-with_capacity :
    (capacity : ℕ) (ls : List LogLine)
    → 1 ≤ capacity
    → (push_all ls (with_capacity capacity)).lines ≡ last capacity ls
push_all-with_capacity capacity ls h =
    push_all-last ls (with_capacity capacity) (record { room = h; bounded = omega arith })
