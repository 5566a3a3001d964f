-- ===== src/Config/Extends/Ends/Cycles.antt =====
-- A configuration that is resolved extends no file in a circle (config/extends.rs).
use text.Mathlib.Text.{◌==◌ as str_eq}
use text.Mathlib.TextPositions.{eq_refl}
use mathlib.Core.Path.{subst}
use betterhook.Base.{
  ℕ, zero, suc, ◌<◌, List, [], ◌∷◌, Bool, true, false, none, some, ok, err, ◌≡◌, ◌≢◌, refl, sym, ap,
  ◌∙◌, arith, if◌then◌else◌, length, get_elem?,
}
use betterhook.Base.Paths.{parent_or_dot}
use betterhook.Config.Schema.{FilePath}
use betterhook.Config.Raw.{RawConfig, default_config, merge_config}
use betterhook.Config.Crates.{Crates, ConfigError}
use betterhook.Config.Extends.{
  ConfigFiles, Seen, is_seen, Visit, canonical_of, circular, absolute_from, finish_file, continue,
  visit_each, visit_parsed, resolve_impl, config_of, resolve,
}
use betterhook.Config.Extends.Ends.{unseen, unseen-lt, unseen-nil, Ended, resolve_impl-Ended}

module _ (crates : Crates) (files : ConfigFiles crates) where
  -- The second file is the first, or is reached from it along `extends`.
  pub data Extends : FilePath → FilePath → Type 0 where
    itself : (p : FilePath) → Extends p p
    via :
        (p q ext : FilePath) (i : ℕ) (main : RawConfig)
        → files.parse_file p ≡ ok main
        → get_elem? main.extends i ≡ some ext
        → Extends (absolute_from crates files (parent_or_dot p) ext) q
        → Extends p q

  continue-ok :
      (next : RawConfig × Seen → Visit crates files) (v : Visit crates files)
      (out : RawConfig × Seen)
      → continue crates files next v ≡ some (ok out)
      → (w : RawConfig × Seen) × (v ≡ some (ok w)) × (next w ≡ some (ok out))
  unfolding continue
  continue-ok next none out h = cc h
  continue-ok next (some (err e)) out h = cc h
  continue-ok next (some (ok w)) out h = (w, refl, h)

  visit_each-ok :
      (visit : FilePath → Seen → Visit crates files) (base_dir : FilePath) (exts : List FilePath)
      (merged : RawConfig) (seen : Seen) (out : RawConfig × Seen)
      → ((p : FilePath) → Ended crates files seen (visit p seen))
      → visit_each crates files visit base_dir exts (merged, seen) ≡ some (ok out)
      → (i : ℕ) (ext : FilePath) → get_elem? exts i ≡ some ext
      → (w : RawConfig × Seen) × (visit (absolute_from crates files base_dir ext) seen
          ≡ some (ok w))
  unfolding visit_each
  visit_each-ok visit base_dir [] merged seen out keep h i ext g = cc g
  visit_each-ok visit base_dir (e ∷ exts) merged seen out keep h zero ext g =
      let (w, v, rest) = continue-ok _ (visit (absolute_from crates files base_dir e) seen) out h in
      let same : e ≡ ext = cc g in
      (w, subst (λ x. visit (absolute_from crates files base_dir x) seen ≡ some (ok w)) same v)
  visit_each-ok visit base_dir (e ∷ exts) merged seen out keep h (suc i) ext g =
      let (w, v, rest) = continue-ok _ (visit (absolute_from crates files base_dir e) seen) out h in
      let kept : w.1 ≡ seen =
        subst (Ended crates files seen) v (keep (absolute_from crates files base_dir e)) in
      visit_each-ok visit base_dir exts (merge_config merged w.0) seen out keep
        (ap (λ s. visit_each crates files visit base_dir exts (merge_config merged w.0, s))
            (sym kept)
          ∙ rest)
        i ext g

  visit_parsed-ok :
      (visit : FilePath → Seen → Visit crates files) (apply_local : Bool) (path : FilePath)
      (seen : Seen) (main : RawConfig) (out : RawConfig × Seen)
      → ((p : FilePath) → Ended crates files seen (visit p seen))
      → visit_parsed crates files visit apply_local path seen (ok main) ≡ some (ok out)
      → (i : ℕ) (ext : FilePath) → get_elem? main.extends i ≡ some ext
      → (w : RawConfig × Seen) × (visit (absolute_from crates files (parent_or_dot path) ext) seen
          ≡ some (ok w))
  unfolding visit_parsed
  visit_parsed-ok visit apply_local path seen main out keep h i ext g =
      let (w, v, rest) =
        continue-ok (finish_file crates files apply_local path main)
          (visit_each crates files visit (parent_or_dot path) main.extends (default_config, seen))
          out h in
      visit_each-ok visit (parent_or_dot path) main.extends default_config seen w keep v i ext g

  if-ok :
      (b : Bool) (e : ConfigError crates) (v : Visit crates files) (out : RawConfig × Seen)
      → (if b then some (err e) else v) ≡ some (ok out)
      → (b ≡ false) × (v ≡ some (ok out))
  if-ok true e v out h = cc h
  if-ok false e v out h = (refl, h)

  module _ (known : List FilePath)
      (readable : (p : FilePath) (main : RawConfig)
        → files.parse_file p ≡ ok main
        → is_seen (canonical_of crates files p) known ≡ true) where
    -- What a file extends is resolved with the file among the visited.
    extended_ok :
        (fuel : ℕ) (apply_local : Bool) (p ext : FilePath) (i : ℕ) (main : RawConfig) (seen : Seen)
        (out : RawConfig × Seen)
        → unseen known seen < suc fuel
        → resolve_impl crates files (suc fuel) apply_local p seen ≡ some (ok out)
        → files.parse_file p ≡ ok main
        → get_elem? main.extends i ≡ some ext
        → (is_seen (canonical_of crates files p) seen ≡ false)
          × (unseen known (canonical_of crates files p ∷ seen) < fuel)
          × ((w : RawConfig × Seen) × (resolve_impl crates files fuel false
                  (absolute_from crates files (parent_or_dot p) ext)
                  (canonical_of crates files p ∷ seen)
                ≡ some (ok w)))
    unfolding resolve_impl
    extended_ok fuel apply_local p ext i main seen out l h e g =
        let c = canonical_of crates files p in
        let (f, v) = if-ok (is_seen c seen) (circular crates files p) _ out h in
        let less : unseen known (c ∷ seen) < fuel =
          omega (arith, unseen-lt known c seen (readable p main e) f) in
        let v' =
          ap
            (visit_parsed crates files (resolve_impl crates files fuel false) apply_local p
              (c ∷ seen))
            (sym e)
          ∙ v in
        (
          f,
          less,
          visit_parsed-ok (resolve_impl crates files fuel false) apply_local p (c ∷ seen) main out
              (λ q. resolve_impl-Ended crates files known readable fuel false q (c ∷ seen) less) v'
              i ext g,
        )

    unvisited_self :
        (fuel : ℕ) (apply_local : Bool) (p : FilePath) (seen : Seen) (out : RawConfig × Seen)
        → resolve_impl crates files fuel apply_local p seen ≡ some (ok out)
        → is_seen (canonical_of crates files p) seen ≡ false
    unfolding resolve_impl
    unvisited_self zero apply_local p seen out h = cc h
    unvisited_self (suc fuel) apply_local p seen out h =
        (if-ok (is_seen (canonical_of crates files p) seen) (circular crates files p) _ out h).0

    seen_tail :
        (c d : FilePath) (seen : Seen)
        → is_seen d (c ∷ seen) ≡ false
        → (str_eq c d ≡ false) × (is_seen d seen ≡ false)
    unfolding is_seen
    seen_tail c d seen h = (ground (arith, h), ground (arith, h))

    unvisited :
        (fuel : ℕ) (apply_local : Bool) (p q : FilePath) (seen : Seen) (out : RawConfig × Seen)
        → unseen known seen < fuel
        → resolve_impl crates files fuel apply_local p seen ≡ some (ok out)
        → Extends p q
        → is_seen (canonical_of crates files q) seen ≡ false
    unvisited fuel apply_local _ _ seen out l h (itself p) =
        unvisited_self fuel apply_local p seen out h
    unvisited zero apply_local _ _ seen out l h (via p q ext i main e g rest) = absurd (omega arith)
    unvisited (suc fuel) apply_local _ _ seen out l h (via p q ext i main e g rest) =
        let (f, less, visited) = extended_ok fuel apply_local p ext i main seen out l h e g in
        let c = canonical_of crates files p in
        (seen_tail c (canonical_of crates files q) seen (
          unvisited fuel false (absolute_from crates files (parent_or_dot p) ext) q (c ∷ seen)
            visited.0 less visited.1 rest)).1

    config_of-ok :
        (v : Visit crates files) (config : RawConfig)
        → config_of crates files v ≡ some (ok config)
        → (out : RawConfig × Seen) × (v ≡ some (ok out))
    unfolding config_of
    config_of-ok none config h = cc h
    config_of-ok (some (err e)) config h = cc h
    config_of-ok (some (ok out)) config h = (out, refl)

    -- A configuration that is resolved without an error does not extend itself: no file that is reached
    -- from it along `extends`, through one file or more, has its canonical path.
    pub resolve_acyclic :
        (fuel : ℕ) (p q ext : FilePath) (i : ℕ) (main config : RawConfig)
        → length known < suc fuel
        → resolve crates files (suc fuel) p ≡ some (ok config)
        → files.parse_file p ≡ ok main
        → get_elem? main.extends i ≡ some ext
        → Extends (absolute_from crates files (parent_or_dot p) ext) q
        → canonical_of crates files q ≢ canonical_of crates files p
    unfolding resolve
    resolve_acyclic fuel p q ext i main config l h e g rest same =
        let c = canonical_of crates files p in
        let (out, v) = config_of-ok (resolve_impl crates files (suc fuel) true p []) config h in
        let (f, less, visited) =
          extended_ok fuel true p ext i main [] out (omega (arith, unseen-nil known)) v e g in
        let fresh =
          unvisited fuel false (absolute_from crates files (parent_or_dot p) ext) q (c ∷ [])
            visited.0 less visited.1 rest in
        let (other, none_) = seen_tail c (canonical_of crates files q) [] fresh in
        cc (other, same, eq_refl c)
