-- ===== src/Git/Fileset/Select.antt =====
-- The files that the globs of a job let through (git/fileset.rs, `filter_files`).
use mathlib.Core.Logic.{◌↔◌}
use betterhook.Base.{
  List, [], ◌∷◌, Bool, true, false, ◌&&◌, Option, none, some, ◌≡◌, refl, arith, if◌then◌else◌,
}
use betterhook.Globset.{Globset}
use betterhook.Config.Schema.{FilePath}
use betterhook.Git.Fileset.{is_included, is_kept, filter_files}

module _ (globset : Globset) (include exclude : Option globset.GlobSet) where
  -- The include globs, if there are any, match the path.
  abbrev pub Included : Option globset.GlobSet → FilePath → Type 0
  Included none p = Unit
  Included (some set) p = globset.is_match set p ≡ true

  -- The exclude globs, if there are any, do not match the path.
  abbrev pub Kept : Option globset.GlobSet → FilePath → Type 0
  Kept none p = Unit
  Kept (some set) p = globset.is_match set p ≡ false

  -- The second list has, in their order, exactly the files of the first that the globs let through.
  pub data Selects : List FilePath → List FilePath → Type 0 where
    nothing : Selects [] []
    takes :
        (p : FilePath) (files chosen : List FilePath)
        → Included include p
        → Kept exclude p
        → Selects files chosen
        → Selects (p ∷ files) (p ∷ chosen)
    leaves :
        (p : FilePath) (files chosen : List FilePath)
        → ¬ (Included include p × Kept exclude p)
        → Selects files chosen
        → Selects (p ∷ files) chosen

  is_included-Included :
      (o : Option globset.GlobSet) (p : FilePath) → (is_included globset o p ≡ true) ↔ Included o p
  unfolding is_included
  is_included-Included none p = (λ h. tt, λ h. refl)
  is_included-Included (some set) p = (λ h. h, λ h. h)

  is_kept-Kept :
      (o : Option globset.GlobSet) (p : FilePath) → (is_kept globset o p ≡ true) ↔ Kept o p
  unfolding is_kept
  is_kept-Kept none p = (λ h. tt, λ h. refl)
  is_kept-Kept (some set) p = (λ h. ground (arith, h), λ h. ground (arith, h))

  pub filter_files-Selects :
      (files : List FilePath) → Selects files (filter_files globset files include exclude)
  unfolding filter_files
  filter_files-Selects [] = nothing
  filter_files-Selects (p ∷ files) =
      go (filter_files-Selects files) (is_included globset include p) (is_kept globset exclude p)
        refl refl
    where
      go :
          Selects files (filter_files globset files include exclude)
          → (i k : Bool) → is_included globset include p ≡ i
          → is_kept globset exclude p ≡ k
          → Selects (p ∷ files) (
              if i && k
              then p ∷ filter_files globset files include exclude
              else filter_files globset files include exclude)
      go rest true true e f =
          takes p files _ ((is_included-Included include p).0 e) ((is_kept-Kept exclude p).0 f) rest
      go rest true false e f =
          leaves p files _ (λ (x, y). cc (f, (is_kept-Kept exclude p).1 y)) rest
      go rest false k e f =
          leaves p files _ (λ (x, y). cc (e, (is_included-Included include p).1 x)) rest
