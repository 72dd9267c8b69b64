-- ===== src/Ext4/Path/Fails.antt =====
-- Only the root can be reached.
use obsidian_kernel.Base.{
  ℕ, suc, ◌==◌, ltb, false, List, Option, none, some, length, ◌&&◌, ◌≡◌, refl,
}
use obsidian_kernel.Ext4.{Disk, Ext4}
use obsidian_kernel.Ext4.Inode.{e4_is_dir}
use obsidian_kernel.Ext4.Dir.Lookup.{e4_dir_lookup-fails}
use obsidian_kernel.Ext4.Io.{Io, continue, guard, host_inode}
use obsidian_kernel.Ext4.Path.{
  skip_slashes, component, after_component, comp_ok, starts_slash, ext4_max_path, ext4_root_ino,
  step_into, resolve_loop, resolve_full,
}

-- A step that is behind a step which fails, or one that fails whatever went before.
pub record Fails {D A : Type 0} (m : Io D A) : Type 0 where
  pub at : (e : Ext4 D) → (m e).0 ≡ none

module _ {D A B : Type 0} where
  continue-Fails :
      (f : A → Io D B) → ((a : A) → Fails (f a)) → (r : Option A × Ext4 D) → (continue f r).0 ≡ none
  continue-Fails f h (none, e) = refl
  continue-Fails f h (some a, e) = (h a).at e

  -- A sequence fails if what follows fails.
  pub >>=-Fails :
      (m : Io D A) (f : A → Io D B) → ((a : A) → Fails (f a)) → Fails (λ e. continue f (m e))
  >>=-Fails m f h = record { at = λ e. continue-Fails f h (m e) }

  -- And if its first step fails.
  pub first-Fails : (m : Io D A) (f : A → Io D B) → Fails m → Fails (λ e. continue f (m e))
  first-Fails m f h = record { at = λ e. none_first (m e) (h.at e) }
    where
      none_first : (r : Option A × Ext4 D) → r.0 ≡ none → (continue f r).0 ≡ none
      none_first (none, e) k = refl
      none_first (some a, e) k = cc

module _ {D : Type 0} (disk : Disk D) where
  step_into-Fails : (cur : ℕ) (name : List ℕ) → Fails (step_into disk cur name)
  step_into-Fails cur name = >>=-Fails (guard (comp_ok name)) _ (λ _.
      >>=-Fails (host_inode disk cur) _ (λ ci.
        >>=-Fails (guard (e4_is_dir ci)) _
          (λ _. record { at = e4_dir_lookup-fails disk cur name })))

  -- A path with a component leads nowhere.
  pub resolve_loop-Fails :
      (n cur : ℕ) (p : List ℕ)
      → (length (skip_slashes p) == 0) ≡ false
      → Fails (resolve_loop disk (suc n) cur p)
  unfolding resolve_loop
  resolve_loop-Fails n cur p h =
      let q = skip_slashes p in
      rw h (
        first-Fails (step_into disk cur (component q))
          (λ next. resolve_loop disk n next (after_component q))
          (step_into-Fails cur (component q)))

  -- Whatever the disk holds, no path with a character other than a slash leads to an inode.
  pub resolve_full-Fails :
      (path : List ℕ) → (length (skip_slashes path) == 0) ≡ false → Fails (resolve_full disk path)
  unfolding resolve_full
  resolve_full-Fails path h =
      >>=-Fails (guard (starts_slash path && ltb (length path) ext4_max_path)) _
        (λ _. resolve_loop-Fails (length path) ext4_root_ino path h)
