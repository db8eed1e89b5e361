-- ===== src/Sys/Tests.antt =====
-- A task of user 2000 on a kernel whose pages are all the user's, with a disk mounted at "/" that has an
-- empty root directory; the string at 100 is "/x".
use hao_sys.Base.{refl, true, [], ◌∷◌, some, ◌==◌, if◌then◌else◌}
use hao_sys.Pmm.Tests.{two_free}
use hao_sys.Vmm.{Vmm}
use hao_sys.Task.{Task, task_running}
use hao_sys.Fat.{Fs, Device, fat16, dev_read}
use hao_sys.Fat.Name.{make_83_name, base_loop, ext_loop, ext_part, entry_unix_meta}
use hao_sys.Fat.Dir.{
  scan_sector, scan_sectors, read_dir_loop, read_dir, dir_find_name, first_match, dir_area,
  start_cluster,
}
use hao_sys.Fat.Path.{find_file, resolve_parent, resolve_loop, last_name}
use hao_sys.Fat.Run.{◌>>=◌}
use hao_sys.Str.Text.{text_cmp, text_ncmp}
use hao_sys.Perm.{check_entry, access_bits, check_parent_writable, parent_sub, last_slash}
use hao_sys.Vfs.{MountSlot, resolve, longest_mount, at_root, find_mount, on_volume}
use hao_sys.Sys.{Kernel, user_string}
use hao_sys.Sys.Dispatch.{Regs, perform, list_dir, write_file}
use hao_sys.Sys.Disks.{KeepsDisks}
use hao_sys.Sys.Reading.{lists, perform-KeepsDisks}
use hao_sys.Sys.Denied.{writes, may_write, IsDenied, perform-IsDenied}

abbrev empty_disk : Device
empty_disk = record { sectors = λ l i. 0; can_read = λ l. true; can_write = λ l. true }

abbrev volume_fs : Fs
volume_fs = record {
  bpb = record {
    bytes_per_sector = 512;
    sectors_per_cluster = 1;
    reserved_sectors = 1;
    num_fats = 2;
    root_entry_count = 16;
    total_sectors_16 = 8000;
    fat_size_16 = 20;
    total_sectors_32 = 0;
    fat_size_32 = 0;
    root_cluster = 0;
  };
  dev = empty_disk;
  base_lba = 0;
  first_data_sector = 42;
  root_dir_sectors = 1;
  total_sectors = 8000;
  fat_size = 20;
  sectors_per_cluster = 1;
  bytes_per_sector = 512;
  root_dir_entries = 16;
  fs_type = fat16;
  initialized = true;
  root_cluster = 0;
  sector_buffer = λ i. 0;
}

abbrev root_mount : MountSlot
root_mount = record {
  point = 47 ∷ [];
  named = true;
  dev = some 0;
  fs = volume_fs;
  fs_dev = 0;
  mounted = true;
}

abbrev user : Task
user = record {
  addr = 4096;
  esp = 0;
  eip = 0;
  pid = 7;
  state = task_running;
  kernel_esp0 = 0;
  uid = 2000;
  gid = 100;
  euid = 2000;
  egid = 100;
  is_user = true;
  page_directory = 0;
  user_virt_pages = [];
  name = [];
}

abbrev all_user : Vmm
all_user = record {
  pmm = record two_free { mem = λ a. 4103 };
  current_directory = 4096;
  kernel_directory = 8192;
}

abbrev kernel : Kernel
kernel = record {
  vmm = all_user;
  vfs = record {
    mounts = root_mount ∷ [];
    devs = record { name = 97 ∷ []; sector_count = 8000; device = empty_disk } ∷ [];
  };
  current = some user;
  memory = λ a. if a == 100 then 47 else if a == 101 then 120 else 0;
}

-- SYS_LIST on the path at 102, an empty one.
abbrev regs : Regs
regs = record { eax = 25; ebx = 102; ecx = 200; edx = 10; esi = 0 }

abbrev write_regs : Regs
write_regs = record { eax = 17; ebx = 100; ecx = 200; edx = 3; esi = 0 }

perform-KeepsDisks_example : KeepsDisks kernel (perform 9 (0, 0) kernel regs list_dir)
perform-KeepsDisks_example = perform-KeepsDisks 9 (0, 0) kernel regs lists

perform-IsDenied_example : IsDenied kernel (perform 9 (0, 0) kernel write_regs write_file)
unfolding user_string resolve longest_mount text_ncmp at_root find_mount text_cmp on_volume
    may_write find_file resolve_parent resolve_loop last_name dir_find_name read_dir read_dir_loop
    scan_sectors scan_sector first_match dir_area start_cluster dev_read check_parent_writable
    parent_sub last_slash check_entry access_bits entry_unix_meta ◌>>=◌ make_83_name base_loop
    ext_part ext_loop
perform-IsDenied_example =
    perform-IsDenied writes 9 (0, 0) kernel write_regs (47 ∷ 120 ∷ []) 0 (some (120 ∷ [])) _ refl
      refl refl
