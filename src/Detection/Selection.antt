-- ===== src/Detection/Selection.antt =====
-- crates/core/src/backend.rs: which program is found, and which backend is chosen.
use v2ray_rs.Models.Settings.{BackendType, v2ray, xray, sing_box}
use v2ray_rs.Detection.{
  BackendError, none_found, DetectedBackend, Machine, backend_name, usr_bin, usr_local_bin,
  is_executable, find_in_path, detect_version, detect_binary, detect_single, keep_detected,
  detect_each, first_of, auto_select, with_version, or_in_path, detected,
}
use v2ray_rs.Base.{
  String, ◌≡◌, refl, ap, ◌⊎◌, inl, inr, Bool, true, false, ◌&&◌, Option, none, some, List, [], ◌∷◌,
  ◌++◌, if◌then◌else◌, All, Result, ok, err, to_option,
}

module _ (m : Machine) where
  abbrev pub usable : String → Bool
  usable path = m.exists path && is_executable m path

  -- the program stands in /usr/bin; or not there, and in /usr/local/bin; or in neither, and `which`
  -- names it
  abbrev pub IsFound : BackendType → String → Type 0
  IsFound bt path =
      ((path ≡ usr_bin bt) × (usable path ≡ true))
      ⊎ ((path ≡ usr_local_bin bt) × (usable path ≡ true) × (usable (usr_bin bt) ≡ false))
      ⊎ ((usable (usr_bin bt) ≡ false)
          × (usable (usr_local_bin bt) ≡ false)
          × (find_in_path m (backend_name bt) ≡ some path))

  abbrev pub IsAbsent : BackendType → Type 0
  IsAbsent bt =
      (usable (usr_bin bt) ≡ false)
      × (usable (usr_local_bin bt) ≡ false)
      × (find_in_path m (backend_name bt) ≡ none)

  abbrev DetectOutcome : BackendType → Option String → Type 0
  DetectOutcome bt none = IsAbsent bt
  DetectOutcome bt (some path) = IsFound bt path

  detect_binary-outcome : (bt : BackendType) → DetectOutcome bt (detect_binary m bt)
  unfolding detect_binary
  detect_binary-outcome bt =
      go (usable (usr_bin bt)) (usable (usr_local_bin bt)) (find_in_path m (backend_name bt)) refl
        refl refl
    where
      go :
          (a b : Bool) (w : Option String)
          → usable (usr_bin bt) ≡ a
          → usable (usr_local_bin bt) ≡ b
          → find_in_path m (backend_name bt) ≡ w
          → DetectOutcome bt (
              or_in_path m bt
                (if a then some (usr_bin bt) else if b then some (usr_local_bin bt) else none))
      go true b w h k l = inl (refl, h)
      go false true w h k l = inr (inl (refl, k, h))
      go false false none h k l = rw l (h, k, l)
      go false false (some path) h k l = rw l (inr (inr (h, k, l)))

  -- the first of the types that has a program, or none has
  abbrev pub Selected : List BackendType → Result BackendError DetectedBackend → Type 0
  Selected bts r =
      ((r ≡ err none_found) × All IsAbsent bts)
      ⊎ ((d : DetectedBackend) × (r ≡ ok d)
          × (before : List BackendType) × (after : List BackendType) × (bts
              ≡ before ++ d.backend_type ∷ after)
          × All IsAbsent before
          × IsFound d.backend_type d.binary_path
          × (d.version ≡ to_option (detect_version m d.binary_path)))

  later :
      (bt : BackendType) (bts : List BackendType) (r : Result BackendError DetectedBackend)
      → IsAbsent bt
      → Selected bts r
      → Selected (bt ∷ bts) r
  later bt bts r h (inl (e, absent)) = inl (e, (h, absent))
  later bt bts r h (inr (d, e, before, after, parts, absent, found, v)) =
      inr (d, e, bt ∷ before, after, ap (◌∷◌ bt) parts, (h, absent), found, v)

  first_of-Selected : (bts : List BackendType) → Selected bts (first_of m (detect_each m bts))
  unfolding detect_single
  first_of-Selected [] = inl (refl, tt)
  first_of-Selected (bt ∷ bts) =
      go (detect_binary m bt) (detect_binary-outcome bt) (first_of-Selected bts)
    where
      go :
          (o : Option String)
          → DetectOutcome bt o
          → Selected bts (first_of m (detect_each m bts))
          → Selected
              (bt ∷ bts)
              (first_of m (keep_detected m (with_version m bt o) (detect_each m bts)))
      go none h rest = later bt bts (first_of m (detect_each m bts)) h rest
      go (some path) h rest = inr (detected m bt path, refl, [], bts, refl, tt, h, refl)

  -- `auto_select` returns the first of v2ray, xray and sing-box that has a program, where it looks in
  -- /usr/bin, then in /usr/local/bin, then asks `which`, together with the version that the program
  -- tells, if it does; it returns `NoneFound` only if none of the three has one.
  pub auto_select_lem : Selected (v2ray ∷ xray ∷ sing_box ∷ []) (auto_select m)
  unfolding auto_select
  auto_select_lem = first_of-Selected (v2ray ∷ xray ∷ sing_box ∷ [])
