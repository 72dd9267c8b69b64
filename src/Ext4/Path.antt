-- ===== src/Ext4/Path.antt =====
-- Paths of fs/ext4_mount.c: their characters before the NUL, and the inodes they lead to.
pub mod Fails
use obsidian_kernel.Base.{
  ℕ, zero, suc, ◌==◌, ltb, leb, Bool, true, false, List, [], ◌∷◌, Option, none, some, if◌then◌else◌,
  reverse, length, ◌&&◌, ◌||◌, not,
}
use obsidian_kernel.Ext4.{Disk, Ext4}
use obsidian_kernel.Ext4.Inode.{e4_is_dir}
use obsidian_kernel.Ext4.Dir.{e4_dir_lookup}
use obsidian_kernel.Ext4.Io.{Io, pure, guard, host_inode, ◌>>=◌, ◌>>◌}

abbrev pub ext4_name_max : ℕ
ext4_name_max = 255

abbrev pub ext4_max_path : ℕ
ext4_max_path = 128

abbrev pub ext4_root_ino : ℕ
ext4_root_ino = 2

abbrev pub slash : ℕ
slash = 47

unfoldable pub skip_slashes : List ℕ → List ℕ
skip_slashes [] = []
skip_slashes (c ∷ p) = let rest = skip_slashes p in if c == slash then rest else c ∷ p

-- The characters before the next slash, and those behind it.
pub component : List ℕ → List ℕ
component [] = []
component (c ∷ p) = let rest = component p in if c == slash then [] else c ∷ rest

pub after_component : List ℕ → List ℕ
after_component [] = []
after_component (c ∷ p) = let rest = after_component p in if c == slash then p else rest

abbrev pub starts_slash : List ℕ → Bool
starts_slash [] = false
starts_slash (c ∷ p) = c == slash

pub comp_ok : List ℕ → Bool
comp_ok s = not (length s == 0) && leb (length s) ext4_name_max && not (starts_slash s)

-- The slashes at the end, from the last character on, but not the first character of all.
pub strip_slashes : List ℕ → List ℕ
strip_slashes [] = []
strip_slashes (c ∷ []) = c ∷ []
strip_slashes (c ∷ d ∷ p) =
    let rest = strip_slashes (d ∷ p) in if c == slash then rest else c ∷ d ∷ p

-- The directory part of a path whose characters before the last component are, from the last on, `p`.
abbrev pub dir_part : List ℕ → List ℕ
dir_part [] = slash ∷ []
dir_part (c ∷ p) = reverse (c ∷ p)

module _ {D : Type 0} (disk : Disk D) where
  -- One component leads from the directory `cur` to the next.
  abbrev pub step_into : ℕ → List ℕ → Io D ℕ
  step_into cur name = do
    guard (comp_ok name)
    ci ← host_inode disk cur
    guard (e4_is_dir ci)
    e4_dir_lookup disk cur name

  -- The walk from `cur` along the rest `p` of the path, with the rounds left: each takes a character.
  unfoldable pub resolve_loop : ℕ → ℕ → List ℕ → Io D ℕ
  resolve_loop zero cur p = pure cur
  resolve_loop (suc n) cur p =
      let q = skip_slashes p in
      let onward =
        step_into cur (component q) >>= λ next. resolve_loop n next (after_component q) in
      if length q == 0 then pure cur else onward

  unfoldable pub resolve_full : List ℕ → Io D ℕ
  resolve_full path = do
    guard (starts_slash path && ltb (length path) ext4_max_path)
    resolve_loop (suc (length path)) ext4_root_ino path

  -- The last component, and the inode of the directory that is to hold it.
  unfoldable pub resolve_parent : List ℕ → Io D (List ℕ × ℕ)
  resolve_parent path = do
    guard (starts_slash path && ltb (length path) ext4_max_path)
    let rev = strip_slashes (reverse path)
    let name = reverse (component rev)
    guard (comp_ok name)
    parent ← resolve_full (dir_part (after_component rev))
    di ← host_inode disk parent
    guard (e4_is_dir di)
    pure (name, parent)
