-- ===== src/Config/Extends/Ends.antt =====
-- The resolution of `extends` comes to an end, and keeps the set of visited paths (config/extends.rs).
pub mod Cycles
use text.Mathlib.Text.{◌==◌ as str_eq}
use text.Mathlib.TextEquality.{eq_iff}
use text.Mathlib.TextPositions.{eq_refl}
use mathlib.Core.Path.{subst}
use betterhook.Base.{
  ℕ, zero, suc, ◌+◌, ◌≤◌, ◌<◌, String, List, [], ◌∷◌, Bool, true, false, not, ◌||◌, Option, none,
  some, Result, ok, err, ◌>>=◌, ◌≡◌, refl, sym, ap, ◌∙◌, arith, if◌then◌else◌, bit, length,
  Bool-cases, inl, inr,
}
use betterhook.Base.Paths.{parent_or_dot}
use betterhook.Config.Schema.{FilePath}
use betterhook.Config.Raw.{RawConfig, default_config, merge_config}
use betterhook.Config.Crates.{Crates, ConfigError}
use betterhook.Config.Extends.{
  ConfigFiles, Seen, is_seen, remove_seen, Outcome, Visit, canonical_of, circular, apply_override,
  absolute_from, finish_file, continue, visit_each, visit_parsed, resolve_impl, config_of, resolve,
}

-- How many of the paths have not been visited.
abbrev unseen : List FilePath → Seen → ℕ
unseen [] seen = 0
unseen (p ∷ known) seen = bit (not (is_seen p seen)) + unseen known seen

unseen-le :
    (known : List FilePath) (c : FilePath) (seen : Seen)
    → unseen known (c ∷ seen) ≤ unseen known seen
unfolding is_seen
unseen-le [] c seen = omega arith
unseen-le (p ∷ known) c seen = ground (arith, unseen-le known c seen)

unseen-lt :
    (known : List FilePath) (c : FilePath) (seen : Seen)
    → is_seen c known ≡ true
    → is_seen c seen ≡ false
    → unseen known (c ∷ seen) < unseen known seen
unfolding is_seen
unseen-lt [] c seen h k = absurd (ground (arith, h))
unseen-lt (p ∷ known) c seen h k = elim (Bool-cases (str_eq p c)) [
  | inl e ↦
      let same : p ≡ c = ground (arith, e, eq_iff p c) in
      let fresh : is_seen p seen ≡ false = ap (λ q. is_seen q seen) same ∙ k in
      let hit : str_eq c p ≡ true = ap (str_eq c) same ∙ eq_refl c in
      ground (arith, unseen-le known c seen, fresh, hit)
  | inr n ↦ ground (arith, unseen-lt known c seen (ground (arith, h, n)) k)
]

unseen-nil : (known : List FilePath) → unseen known [] ≡ length known
unfolding is_seen
unseen-nil [] = refl
unseen-nil (p ∷ known) = omega (arith, unseen-nil known)

remove_seen-absent :
    (c : FilePath) (seen : Seen) → is_seen c seen ≡ false → remove_seen c seen ≡ seen
unfolding remove_seen is_seen
remove_seen-absent c [] h = refl
remove_seen-absent c (q ∷ seen) h = ground (arith, h, remove_seen-absent c seen)

remove_seen-cons :
    (c : FilePath) (seen : Seen) → is_seen c seen ≡ false → remove_seen c (c ∷ seen) ≡ seen
unfolding remove_seen
remove_seen-cons c seen h = cc (eq_refl c, remove_seen-absent c seen h)

module _ (crates : Crates) (files : ConfigFiles crates) where
  -- There is a result, and if it is no error, the set of visited paths is this one.
  abbrev pub Ended : Seen → Visit crates files → Type 0
  Ended seen none = ⊥
  Ended seen (some (err e)) = Unit
  Ended seen (some (ok (config, after))) = after ≡ seen

  continue-Ended :
      (between after : Seen) (next : RawConfig × Seen → Visit crates files) (v : Visit crates files)
      → Ended between v
      → ((config : RawConfig) → Ended after (next (config, between)))
      → Ended after (continue crates files next v)
  unfolding continue
  continue-Ended between after next none h k = h
  continue-Ended between after next (some (err e)) h k = tt
  continue-Ended between after next (some (ok (config, s))) h k =
      subst (λ t. Ended after (next (config, t))) (sym h) (k config)

  pub visit_each-Ended :
      (visit : FilePath → Seen → Visit crates files) (base_dir : FilePath) (exts : List FilePath)
      (merged : RawConfig) (seen : Seen)
      → ((p : FilePath) → Ended seen (visit p seen))
      → Ended seen (visit_each crates files visit base_dir exts (merged, seen))
  unfolding visit_each
  visit_each-Ended visit base_dir [] merged seen h = refl
  visit_each-Ended visit base_dir (ext ∷ exts) merged seen h =
      continue-Ended seen seen _ (visit (absolute_from crates files base_dir ext) seen)
        (h (absolute_from crates files base_dir ext))
        (λ config. visit_each-Ended visit base_dir exts (merge_config merged config) seen h)

  finish-Ended :
      (r : Outcome crates files RawConfig) (c : FilePath) (seen : Seen)
      → is_seen c seen ≡ false
      → Ended seen (some (r >>= λ done. ok (done, remove_seen c (c ∷ seen))))
  finish-Ended (err e) c seen h = tt
  finish-Ended (ok done) c seen h = remove_seen-cons c seen h

  visit_parsed-Ended :
      (visit : FilePath → Seen → Visit crates files) (apply_local : Bool) (path : FilePath)
      (seen : Seen) (parsed : Outcome crates files RawConfig)
      → is_seen (canonical_of crates files path) seen ≡ false
      → ((main : RawConfig)
          → parsed ≡ ok main
          → (p : FilePath)
          → Ended
              (canonical_of crates files path ∷ seen)
              (visit p (canonical_of crates files path ∷ seen)))
      → Ended seen (
          visit_parsed crates files visit apply_local path
            (canonical_of crates files path ∷ seen)
            parsed)
  unfolding visit_parsed finish_file
  visit_parsed-Ended visit apply_local path seen (err e) f h = tt
  visit_parsed-Ended visit apply_local path seen (ok main) f h =
      let c = canonical_of crates files path in
      continue-Ended (c ∷ seen) seen (finish_file crates files apply_local path main)
        (visit_each crates files visit (parent_or_dot path) main.extends (default_config, c ∷ seen))
        (visit_each-Ended visit (parent_or_dot path) main.extends default_config (c ∷ seen)
          (h main refl))
        (λ config. finish-Ended _ c seen f)

  if-Ended :
      (seen : Seen) (b : Bool) (v w : Visit crates files)
      → Ended seen v
      → (b ≡ false → Ended seen w)
      → Ended seen (if b then v else w)
  if-Ended seen true v w h k = h
  if-Ended seen false v w h k = k refl

  config_of-some :
      (v : Visit crates files)
      → Ended [] v
      → (r : Outcome crates files RawConfig) × (config_of crates files v ≡ some r)
  unfolding config_of
  config_of-some none h = absurd h
  config_of-some (some (err e)) h = (err e, refl)
  config_of-some (some (ok (config, seen))) h = (ok config, refl)

  module _ (known : List FilePath)
      (readable : (p : FilePath) (main : RawConfig)
        → files.parse_file p ≡ ok main
        → is_seen (canonical_of crates files p) known ≡ true) where
    pub resolve_impl-Ended :
        (fuel : ℕ) (apply_local : Bool) (path : FilePath) (seen : Seen)
        → unseen known seen < fuel
        → Ended seen (resolve_impl crates files fuel apply_local path seen)
    unfolding resolve_impl
    resolve_impl-Ended zero apply_local path seen l = absurd (omega arith)
    resolve_impl-Ended (suc fuel) apply_local path seen l =
        let c = canonical_of crates files path in
        if-Ended seen (is_seen c seen) (some (err (circular crates files path)))
          (visit_parsed crates files (resolve_impl crates files fuel false) apply_local path
            (c ∷ seen) (files.parse_file path))
          tt
          (λ f.
            visit_parsed-Ended (resolve_impl crates files fuel false) apply_local path seen
              (files.parse_file path) f
              (λ main e p.
                resolve_impl-Ended fuel false p (c ∷ seen)
                  (omega (arith, unseen-lt known c seen (readable path main e) f))))

    -- The resolution of a configuration always ends in a configuration or an error, also where files
    -- extend each other in a circle: fuel for one more than the readable files is enough.
    pub resolve_ends :
        (fuel : ℕ) (path : FilePath)
        → length known < fuel
        → (r : Outcome crates files RawConfig) × (resolve crates files fuel path ≡ some r)
    unfolding resolve
    resolve_ends fuel path l =
        config_of-some (resolve_impl crates files fuel true path [])
          (resolve_impl-Ended fuel true path [] (omega (arith, unseen-nil known)))
