-- ===== src/Storage/Examples.antt =====
-- utils.go and keys.go: the theorems at a full disk and at small key libraries.
use ssh_gate.Prelude.{◌≡◌, refl, true, false, [], ◌∷◌, some, text_eq, codes, arith}
use ssh_gate.Storage.Keys.{missing, unreadable, KeyPair, KeyLibrary, ensure_ssh_key_pair}
use ssh_gate.Storage.KeyPairs.{private_file-ensure_ssh_key_pair}
use ssh_gate.Storage.Write.{File, Files, Faults, write_file_atomic}
use ssh_gate.Storage.Atomic.{IsAtomic, write_file_atomic-IsAtomic}

abbrev disk_full : Faults
disk_full = record {
  create = false;
  write = true;
  chmod = false;
  sync = false;
  close = false;
  rename = false;
  remove = true;
  written = 3;
}

abbrev old : File
old = record { data_bytes = codes "SHA256:old"; perm = 384 }

abbrev files : Files
files = (codes "ssh_known_hosts", old) ∷ []

write_file_atomic-IsAtomic_example :
    IsAtomic true
      (codes ".tmp1")
      (codes "ssh_known_hosts")
      (some old)
      (record { data_bytes = codes "SHA256:new"; perm = 384 })
      (write_file_atomic disk_full
        (codes ".tmp1")
        (codes "ssh_known_hosts")
        (codes "SHA256:new")
        384
        files)
write_file_atomic-IsAtomic_example =
    write_file_atomic-IsAtomic disk_full (codes ".tmp1") (codes "ssh_known_hosts")
      (codes "SHA256:new") 384 files (ground arith) refl

-- A library whose keys are their own public halves.
abbrev plain_library : KeyLibrary
plain_library = record {
  parse_private = λ text. some text;
  generate = some (codes "k1");
  new_signer = λ pem. some pem;
  parse_generated = λ pem line made signer. signer;
}

abbrev empty_dir : KeyPair
empty_dir = record { private_file = missing; public_file = missing }

abbrev guarded_dir : KeyPair
guarded_dir = record { private_file = unreadable; public_file = missing }

first_key : (ensure_ssh_key_pair plain_library true true empty_dir).1 ≡ some (codes "k1 ssh-gate")
unfolding ensure_ssh_key_pair
first_key = refl

private_file-ensure_ssh_key_pair_example :
    (ensure_ssh_key_pair plain_library true true guarded_dir).0.private_file ≡ unreadable
private_file-ensure_ssh_key_pair_example =
    private_file-ensure_ssh_key_pair plain_library true true guarded_dir (λ e. cc)
