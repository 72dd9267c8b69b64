-- ===== src/Ext4/Files/Fails.antt =====
-- What follows for files when names are never found.
use obsidian_kernel.Base.{ℕ, ◌==◌, Bool, false, List, length, is_null, not, ◌≡◌}
use obsidian_kernel.Ext4.{Disk}
use obsidian_kernel.Ext4.Dir.{e4_dir_lookup}
use obsidian_kernel.Ext4.Dir.Lookup.{e4_dir_lookup-fails}
use obsidian_kernel.Ext4.Io.{gets, guard}
use obsidian_kernel.Ext4.Path.{skip_slashes, resolve_full, resolve_parent}
use obsidian_kernel.Ext4.Path.Fails.{Fails, >>=-Fails, first-Fails, resolve_full-Fails}
use obsidian_kernel.Ext4.Files.{ext4_read, ext4_unlink, read_file, unlink_file}

module _ {D : Type 0} (disk : Disk D) where
  -- Whatever the disk holds, `ext4_read` fails for every path with a character other than a slash.
  pub ext4_read-Fails :
      (path : List ℕ) (max_len : ℕ)
      → (length (skip_slashes path) == 0) ≡ false
      → Fails (ext4_read disk path max_len)
  unfolding ext4_read
  ext4_read-Fails path max_len h = >>=-Fails (gets (λ e. not (is_null e.dev))) _ (λ mounted.
      >>=-Fails (guard mounted) _ (λ _.
        first-Fails (resolve_full disk path) (read_file disk max_len)
          (resolve_full-Fails disk path h)))

  -- Whatever the disk holds, `ext4_unlink` fails for every path.
  pub ext4_unlink-Fails : (room : ℕ → Bool) (path : List ℕ) → Fails (ext4_unlink disk room path)
  unfolding ext4_unlink
  ext4_unlink-Fails room path = >>=-Fails (gets (λ e. not (is_null e.dev))) _ (λ mounted.
      >>=-Fails (guard mounted) _ (λ _. >>=-Fails (resolve_parent disk path) _ (λ target.
        first-Fails (e4_dir_lookup disk target.1 target.0) (unlink_file disk room target.1 target.0)
          (record { at = e4_dir_lookup-fails disk target.1 target.0 }))))
