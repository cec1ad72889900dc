-- ===== src/Ui/Tray/Labels.antt =====
-- crates/tray/src/tray.rs and crates/ui/src/subscriptions.rs: shortened texts.
use v2ray_rs.Ui.Tray.{truncate, error_label}
use v2ray_rs.Base.{
  ℕ, ◌≤◌, ◌<◌, String, ◌≡◌, refl, ◌⊎◌, inl, inr, some, arith, ltb, leb, Bool-cases, ◌⧺◌,
  byte_length, byte_length-append, slice_to-last_start,
}

-- `truncate` never panics. A text of at most `max` bytes is left as it is; of a longer one it keeps a
-- beginning of whole characters of at most `max` bytes, followed by dots.
pub truncate_lem :
    (s : String) (max : ℕ)
    → ((byte_length s ≤ max) × (truncate s max ≡ some s))
      ⊎ ((max < byte_length s)
          × (t : String) × (rest : String) × (s ≡ t ⧺ rest)
          × (byte_length t ≤ max)
          × (truncate s max ≡ some ("" ⧺ t ⧺ "...")))
unfolding truncate
truncate_lem s max = elim (Bool-cases (leb (byte_length s) max)) [
  | inl e ↦ inl (ground arith, rw e refl)
  | inr e ↦
      let (t, rest, sliced, parts, bound) = slice_to-last_start max s in
      inr (ground arith, t, rest, parts, bound, rw (e, sliced) refl)
]

-- The label of an error in the tray's menu is always made, without a panic at a character of several
-- bytes, it has at most 57 bytes, and it starts with the message or, where that has more than 50
-- bytes, with a beginning of it followed by dots.
pub error_label_lem :
    (msg : String)
    → (label : String) × (error_label msg ≡ some label)
      × (byte_length label ≤ 57)
      × (((byte_length msg ≤ 50) × (label ≡ "Error: " ⧺ msg))
          ⊎ ((50 < byte_length msg)
              × (t : String) × (rest : String) × (msg ≡ t ⧺ rest)
              × (label ≡ "Error: " ⧺ t ⧺ "...")))
unfolding error_label byte_length
error_label_lem msg = elim (Bool-cases (ltb 50 (byte_length msg))) [
  | inr e ↦
      let short : byte_length msg ≤ 50 = ground arith in
      (
        "Error: " ⧺ msg,
        rw e refl,
        omega (arith, byte_length-append "Error: " msg),
        inl (short, refl),
      )
  | inl e ↦
      let (t, rest, sliced, parts, bound) = slice_to-last_start 47 msg in
      (
        "Error: " ⧺ t ⧺ "...",
        rw (e, sliced) refl,
        omega (arith, byte_length-append ("Error: " ⧺ t) "...", byte_length-append "Error: " t),
        inr (ground arith, t, rest, parts, refl),
      )
]
