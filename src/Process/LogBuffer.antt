-- ===== src/Process/LogBuffer.antt =====
-- crates/process/src/log_buffer.rs: the ring of the last log lines. A VecDeque is the list of its
-- elements, the front first.
pub mod Ring
use v2ray_rs.Base.{
  ℕ, ◌-◌, String, List, [], ◌∷◌, ◌++◌, leb, if◌then◌else◌, length, drop, keep_if, Unicode,
  contains_str,
}

pub data LogSource : Type 0 where
  stdout stderr : LogSource

pub record LogLine : Type 0 where
  pub source : LogSource
  pub content : String

abbrev pub stdout_line : String → LogLine
stdout_line content = record { source = stdout; content = content }

abbrev pub stderr_line : String → LogLine
stderr_line content = record { source = stderr; content = content }

pub record LogBuffer : Type 0 where
  pub lines : List LogLine
  pub capacity : ℕ

abbrev pub default_capacity : ℕ
default_capacity = 10000

abbrev pub with_capacity : ℕ → LogBuffer
with_capacity capacity = record { lines = []; capacity = capacity }

abbrev pub new : LogBuffer
new = with_capacity default_capacity

abbrev pub pop_front : List LogLine → List LogLine
pop_front [] = []
pop_front (l ∷ ls) = ls

unfoldable pub push : LogLine → LogBuffer → LogBuffer
push line b =
    let kept = if leb b.capacity (length b.lines) then pop_front b.lines else b.lines in
    record b { lines = kept ++ line ∷ [] }

-- `saturating_sub` is the subtraction of ℕ
unfoldable pub last_n : ℕ → LogBuffer → List LogLine
last_n n b = drop (length b.lines - n) b.lines

unfoldable pub search : Unicode → String → LogBuffer → List LogLine
search u query b =
    keep_if (λ l. contains_str (u.to_lowercase l.content) (u.to_lowercase query)) b.lines

abbrev pub len : LogBuffer → ℕ
len b = length b.lines

unfoldable pub clear : LogBuffer → LogBuffer
clear b = record b { lines = [] }
