-- ===== src/Tests/LemonFs.antt =====
-- Runs of the operations of kernel/src/fs/lemonfs on a small file system.
use maram_os.Base.{
  ℕ, zero, suc, ◌≡◌, ◌≢◌, refl, true, false, none, some, List, [], ◌∷◌, ◌++◌, arith, leb, get_elem?,
  length, take, if◌then◌else◌, replicate,
}
use mathlib.Core.List.{Perm}
use maram_os.Fs.Bitmap.{free}
use maram_os.Fs.Links.{trace, resolve_links}
use maram_os.Fs.Path.{
  is_root, is_empty, from_str, components, parent, name, to_str, filename_len, nonzeros,
  from_utf8_lossy, lossy, first_char, replacement,
}
use maram_os.Fs.Path.Laws.{is_utf8, is_utf8_in}
use maram_os.Fs.Store.{
  zeroed, zero_dir, zero_link, Recast, null, File, DirectoryEntry, file_entry, symlink_entry,
  LemonFs, ok,
}
use maram_os.Fs.Store.Keeps.{Keeps}
use maram_os.Fs.Directory.{Directory, block_link, get_child, add_children, entry_name}
use maram_os.Fs.Directory.Sync.{write_dir}
use maram_os.Fs.Directory.Sync.Roundtrip.{write_dir-add_children}
use maram_os.Fs.LemonFs.Chain.{coalesce_blocks, blocks_of}
use maram_os.Fs.LemonFs.Contents.{route_symlink}
use maram_os.Fs.LemonFs.Route.{Routed, route_symlink-Routed}
use maram_os.Fs.LemonFs.Extents.{blocks_of-coalesce_blocks}
use maram_os.Fs.LemonFs.Entries.{create, delete, file_size, list}
use maram_os.Fs.LemonFs.Contents.{Page, read, write}
use maram_os.Fs.LemonFs.Queries.{queries-Keeps}
use maram_os.Fs.LemonFs.RootCache.{delete-Perm}
use maram_os.Fs.LemonFs.RootCreate.{create-get_child}
use maram_os.Fs.LemonFs.RootWrite.{write-read}

-- No sector is read at another type than it was written at.
abbrev recast : Recast
recast = record { to_dir = λ x. zero_dir; to_link = λ x. zero_link; to_bytes = λ x i. 0 }

-- A file "a" of eight blocks that was written before, and a link "l".
abbrev file_a : File
file_a = record {
  name = from_str (97 ∷ []);
  size = 4096;
  head = record { start = 20; size = 4096 };
  links = [];
}

abbrev link_l : DirectoryEntry
link_l = symlink_entry (from_str (108 ∷ [])) null

abbrev fs : LemonFs
fs = record {
  disk = λ lba. zeroed;
  superblock = record { flags = 0; checksum = 0; bitmap_start = 1; data_start = 10; data_end = 90 };
  bitmap = record { blocks = free ∷ []; data_start = 10 };
  root = file_entry file_a ∷ link_l ∷ [];
}

abbrev page : Page
page = record { count = 1; bytes = λ i. i }

abbrev path_a : List ℕ
path_a = 47 ∷ 97 ∷ []

abbrev path_l : List ℕ
path_l = 47 ∷ 108 ∷ []

-- "/n" and "/d/x".
abbrev path_n : List ℕ
path_n = 47 ∷ 110 ∷ []

abbrev path_d_x : List ℕ
path_d_x = 47 ∷ 100 ∷ 47 ∷ 120 ∷ []

abbrev written : LemonFs
written = (write 100 recast 9 path_a page fs).1

write_runs : write 100 recast 9 path_a page fs ≡ (ok tt, written)
unfolding write to_str nonzeros from_utf8_lossy lossy first_char trace resolve_links
write_runs = refl

root_tests :
    (is_root path_a ≡ false)
    × (is_root (parent path_a) ≡ true)
    × (is_root (parent path_l) ≡ true)
    × (is_root (parent path_n) ≡ true)
unfolding is_root parent
root_tests = (refl, refl, refl, refl)

lookups :
    (get_child fs.root (name path_a) ≡ some (file_entry file_a))
    × (get_child fs.root (name path_d_x) ≡ none)
unfolding get_child name to_str nonzeros from_utf8_lossy lossy first_char from_str
lookups = (refl, refl)

write-read_example : read 100 recast 9 path_a page written ≡ (ok (0, page.bytes), written)
write-read_example =
    write-read 100 recast 9 path_a page page file_a fs written root_tests.0 root_tests.1 lookups.0
      refl write_runs

abbrev created : LemonFs
created = (create 100 recast 9 path_n 2 fs).1

create_runs : create 100 recast 9 path_n 2 fs ≡ (ok tt, created)
unfolding create to_str nonzeros from_utf8_lossy lossy first_char
create_runs = refl

create-get_child_example :
    (e : DirectoryEntry) × (get_child fs.root (name path_n) ≡ none)
    × (created.root ≡ fs.root ++ e ∷ [])
    × (entry_name e ≡ take filename_len (name path_n))
    × (get_child created.root (name path_n)
        ≡ (if leb (length (name path_n)) filename_len then some e else none))
unfolding name is_utf8 is_utf8_in first_char
create-get_child_example =
    create-get_child 100 recast 9 path_n 2 fs created root_tests.3 (refl, tt) refl create_runs

abbrev deleted : LemonFs
deleted = (delete 100 recast 9 path_l fs).1

delete_runs : delete 100 recast 9 path_l fs ≡ (ok tt, deleted)
unfolding delete to_str nonzeros from_utf8_lossy lossy first_char
delete_runs = refl

delete-Perm_example :
    (e : DirectoryEntry) × (get_child fs.root (name path_l) ≡ some e)
    × Perm fs.root (e ∷ deleted.root)
delete-Perm_example = delete-Perm 100 recast 9 path_l fs deleted root_tests.2 delete_runs

queries-Keeps_example :
    Keeps (λ s. s) (file_size 100 recast 9 path_a)
    × Keeps (λ s. s) (list 100 recast 9 path_a)
    × Keeps (λ s. s) (read 100 recast 9 path_a page)
queries-Keeps_example = queries-Keeps (λ s. s) 100 recast 9 path_a page

-- The link in the root is led to the file in the root.
abbrev routed : LemonFs
routed = (route_symlink 100 recast 9 path_l path_a fs).1

route_runs : route_symlink 100 recast 9 path_l path_a fs ≡ (ok tt, routed)
unfolding route_symlink to_str nonzeros from_utf8_lossy lossy first_char
route_runs = refl

route_symlink-Routed_example : Routed 100 recast 9 path_l path_a fs routed
route_symlink-Routed_example =
    route_symlink-Routed 100 recast 9 path_l path_a fs routed root_tests.2 route_runs

blocks_of-coalesce_blocks_example : blocks_of (coalesce_blocks [] (5 ∷ 6 ∷ 9 ∷ [])) ≡ 5 ∷ 6 ∷ 9 ∷ []
blocks_of-coalesce_blocks_example = blocks_of-coalesce_blocks (5 ∷ 6 ∷ 9 ∷ [])

two_components : components path_d_x ≢ []
unfolding components
two_components h = cc h

-- A directory of one link on the sector 5.
abbrev dir : Directory
dir = record { name = from_str (100 ∷ []); parent = 0; children = link_l ∷ []; head = block_link 5 }

abbrev synced : LemonFs
synced = (write_dir 100 recast dir (5 ∷ []) fs).1

write_dir_runs : write_dir 100 recast dir (5 ∷ []) fs ≡ (ok tt, synced)
unfolding write_dir
write_dir_runs = refl

one_sector : (y a b x : ℕ) → get_elem? (y ∷ []) a ≡ some x → get_elem? (y ∷ []) b ≡ some x → a ≡ b
one_sector y zero zero x ha hb = refl
one_sector y zero (suc b) x ha hb = absurd (cc hb)
one_sector y (suc a) b x ha hb = absurd (cc ha)

write_dir-add_children_example :
    add_children 100 recast 1 9 [] (block_link 5) synced ≡ (ok (link_l ∷ []), synced)
unfolding is_empty from_str
write_dir-add_children_example =
    write_dir-add_children 100 recast 9 1 dir (5 ∷ []) fs synced (one_sector 5) (refl, tt) refl refl
      (omega arith) write_dir_runs (refl, tt)

-- A name of 40 bytes, and one of 35 with a character of two bytes behind them, which is cut.
long_names :
    (to_str (from_str (replicate 40 97)) ≡ replicate 36 97)
    × (to_str (from_str (replicate 35 97 ++ 195 ∷ 169 ∷ [])) ≡ replicate 35 97 ++ replacement)
unfolding from_str to_str nonzeros from_utf8_lossy lossy first_char
long_names = (refl, refl)
