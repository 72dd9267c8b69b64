-- ===== src/Ramfs/Tests.antt =====
-- A short session on the RAM file system.
use obsidian_kernel.Base.{ℕ, true, false, List, [], ◌∷◌, ◌≡◌, refl, arith, pos, negsuc}
use obsidian_kernel.Ramfs.{Ramfs, ramfs_init}
use obsidian_kernel.Ramfs.Promise.{
  Call, create_file, write_file, read_file, file_size, list_files, replies, promised, AreCalls,
  status, copied,
}
use obsidian_kernel.Ramfs.Refines.{ramfs-Refines}

abbrev before : Ramfs
before = record { files = []; ready = false }

abbrev a : List ℕ
a = 97 ∷ []

abbrev session : List Call
session =
    create_file a
    ∷ create_file a
    ∷ write_file true a (1 ∷ 2 ∷ 3 ∷ [])
    ∷ write_file false a (4 ∷ [])
    ∷ read_file true a 2
    ∷ read_file false a 2
    ∷ file_size a
    ∷ list_files 5
    ∷ []

session-AreCalls : AreCalls session
session-AreCalls = ground arith

ramfs-Refines_example :
    replies session (ramfs_init before).1 ≡ promised session (record { room = 32; entries = [] })
ramfs-Refines_example = ramfs-Refines session before session-AreCalls

-- The replies in numbers.
promised_session :
    promised
      (create_file a ∷ create_file a ∷ write_file true a (1 ∷ 2 ∷ 3 ∷ []) ∷ read_file true a 2 ∷ [])
      (record { room = 32; entries = [] })
    ≡ status (pos 0) ∷ status (negsuc 0) ∷ status (pos 0) ∷ copied (pos 2, 1 ∷ 2 ∷ []) ∷ []
promised_session = refl
