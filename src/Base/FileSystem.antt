-- ===== src/Base/FileSystem.antt =====
-- What the code uses of `std::fs` and `std::path`: a file is its text, if there is one at the path.

use Prim.Native.String.{String}
use mathlib.Core.Path.{◌≡◌}
use mathlib.Core.Logic.{inl, inr}
use mathlib.Core.Bool.{false}
use mathlib.Core.Option.{Option}
use native.Mathlib.Omega.{arith}
use text.Mathlib.TextEquality.{eq_iff}
use text.Mathlib.TextLemmas.{append_cancel_left}
use v2ray_rs.Base.Tests.{if◌then◌else◌, Bool-cases}
use v2ray_rs.Base.Text.{◌⧺◌, str_eq}

-- `Path::join` with a plain file name
abbrev pub join : String → String → String
join dir name = dir ⧺ "/" ⧺ name

abbrev pub Files : Type 0
Files = String → Option String

-- the files after one of them was written, or removed
unfoldable pub put : String → Option String → Files → Files
put path content files p = if str_eq p path then content else files p

-- a path is read as it was written, and the others are left
pub put_self :
    (path : String) (content : Option String) (files : Files)
    → put path content files path ≡ content
unfolding put
put_self path content files = ground (arith, eq_iff path path)

pub put_other :
    (path p : String) (content : Option String) (files : Files)
    → str_eq p path ≡ false
    → put path content files p ≡ files p
unfolding put
put_other path p content files h = rw h

-- in one directory, different names are different paths
pub join-str_eq : (dir a b : String) → str_eq a b ≡ false → str_eq (join dir a) (join dir b) ≡ false
join-str_eq dir a b h = elim (Bool-cases (str_eq (join dir a) (join dir b))) [
  | inr e ↦ e
  | inl e ↦
      let same = append_cancel_left (dir ⧺ "/") a b ((eq_iff _ _).0 e) in
      absurd (cc ((eq_iff a b).1 same, h))
]
