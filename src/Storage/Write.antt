-- ===== src/Storage/Write.antt =====
-- utils.go: writeFileAtomic, on a directory of files. Which calls fail is a parameter, and so is the
-- name that os.CreateTemp chooses.
use ssh_gate.Prelude.{
  ℕ, Bool, true, false, ◌||◌, List, [], ◌∷◌, ◌++◌, Text, text_eq, if◌then◌else◌, insert, delete,
  take,
}

pub record File : Type 0 where
  pub data_bytes : Text
  pub perm : ℕ

abbrev pub Files : Type 0
Files = List (Text × File)

-- Whether each call fails, and how much a failed write has written.
pub record Faults : Type 0 where
  pub create : Bool
  pub write : Bool
  pub chmod : Bool
  pub sync : Bool
  pub close : Bool
  pub rename : Bool
  -- os.Remove of the temporary file, whose error is ignored.
  pub remove : Bool
  pub written : ℕ

-- What the call leaves: the directory after each step, in which a crash may find it, the directory at
-- the return, and whether it succeeded.
pub record Written : Type 0 where
  pub passed : List Files
  pub final : Files
  pub success : Bool

-- The return: the deferred os.Remove of the temporary file.
abbrev pub remove_temp : Bool → Text → List Files → Files → Bool → Written
remove_temp fails tmp passed fs success = record {
  passed = passed ++ fs ∷ [];
  final = if fails then fs else delete tmp fs;
  success = success;
}

-- The mode of a file of os.CreateTemp: 0600.
abbrev pub temp_perm : ℕ
temp_perm = 384

-- writeFileAtomic.
unfoldable pub write_file_atomic : Faults → Text → Text → Text → ℕ → Files → Written
write_file_atomic f tmp path bytes perm fs =
    let created = insert tmp (record { data_bytes = []; perm = temp_perm }) fs in
    let partial =
      insert tmp (record { data_bytes = take f.written bytes; perm = temp_perm }) created in
    let full = insert tmp (record { data_bytes = bytes; perm = temp_perm }) created in
    let moded = insert tmp (record { data_bytes = bytes; perm = perm }) full in
    let renamed = insert path (record { data_bytes = bytes; perm = perm }) (delete tmp moded) in
    if f.create
    then record { passed = []; final = fs; success = false }
    else if f.write
    then remove_temp f.remove tmp (created ∷ []) partial false
    else if f.chmod
    then remove_temp f.remove tmp (created ∷ partial ∷ []) full false
    else if f.sync || (f.close || f.rename)
    then remove_temp f.remove tmp (created ∷ partial ∷ full ∷ []) moded false
    else remove_temp f.remove tmp (created ∷ partial ∷ full ∷ moded ∷ []) renamed true
