-- ===== src/Storage/Atomic.antt =====
-- utils.go: what a crash, an error and a success of writeFileAtomic leave.
use ssh_gate.Prelude.{
  ℕ, ◌≡◌, ◌≢◌, refl, ◌∙◌, ◌⊎◌, inl, inr, Bool, true, false, ◌||◌, not, if◌then◌else◌, List, [], ◌∷◌,
  ◌++◌, Option, none, some, Text, text_eq, text_beq, text_beq_iff, lookup, insert, delete,
  lookup-insert, lookup-delete, take, All, All-append, Bool-cases, arith,
}
use ssh_gate.Storage.Write.{File, Files, Faults, Written, remove_temp, temp_perm, write_file_atomic}

abbrev pub OldOrNew : Text → Option File → File → Files → Type 0
OldOrNew path old new fs = (lookup path fs ≡ old) ⊎ (lookup path fs ≡ some new)

pub record IsAtomic (kept : Bool) (tmp path : Text) (old : Option File) (new : File) (w : Written)
    : Type 0 where
  -- At every step the file is the old one or the whole new one.
  pub no_torn : All (OldOrNew path old new) w.passed
  pub on_success : w.success ≡ true → lookup path w.final ≡ some new
  pub on_error : w.success ≡ false → lookup path w.final ≡ old
  -- No temporary file is left, but where the call fails and its removal too.
  pub no_temp : (w.success || not kept) ≡ true → lookup tmp w.final ≡ none

insert_other :
    (tmp path : Text) (f : File) (fs : Files)
    → text_beq tmp path ≡ false
    → lookup path (insert tmp f fs) ≡ lookup path fs
insert_other tmp path f fs h = ground (arith, lookup-insert tmp path f fs)

delete_other :
    (tmp path : Text) (fs : Files)
    → text_beq tmp path ≡ false
    → lookup path (delete tmp fs) ≡ lookup path fs
delete_other tmp path fs h = ground (arith, lookup-delete tmp path fs)

delete_self : (tmp : Text) (fs : Files) → lookup tmp (delete tmp fs) ≡ none
delete_self tmp fs = ground (arith, lookup-delete tmp tmp fs, text_beq_iff tmp tmp)

-- A return with an error, from a directory where the file is the old one.
remove_temp-IsAtomic :
    (kept : Bool) (tmp path : Text) (old : Option File) (new : File) (passed : List Files)
    (fs : Files)
    → text_beq tmp path ≡ false
    → All (OldOrNew path old new) (passed ++ fs ∷ [])
    → lookup path fs ≡ old
    → IsAtomic kept tmp path old new (remove_temp kept tmp passed fs false)
remove_temp-IsAtomic true tmp path old new passed fs h steps same = record {
  no_torn = steps;
  on_success = λ e. cc;
  on_error = λ e. same;
  no_temp = λ e. cc;
}
remove_temp-IsAtomic false tmp path old new passed fs h steps same = record {
  no_torn = steps;
  on_success = λ e. cc;
  on_error = λ e. delete_other tmp path fs h ∙ same;
  no_temp = λ e. delete_self tmp fs;
}

insert_self : (path : Text) (f : File) (fs : Files) → lookup path (insert path f fs) ≡ some f
insert_self path f fs = ground (arith, lookup-insert path path f fs, text_beq_iff path path)

-- The return after the rename, which has taken the temporary file away.
renamed-IsAtomic :
    (kept : Bool) (tmp path : Text) (old : Option File) (new : File) (passed : List Files)
    (fs : Files)
    → text_beq tmp path ≡ false
    → All (OldOrNew path old new) passed
    → IsAtomic kept tmp path old new
        (remove_temp kept tmp passed (insert path new (delete tmp fs)) true)
renamed-IsAtomic kept tmp path old new passed fs h steps = record {
  no_torn = All-append (OldOrNew path old new) passed _ steps (inr (insert_self path new gone), tt);
  on_success = λ e. at_end kept;
  on_error = λ e. cc;
  no_temp = λ e. no_end kept;
}
  where
    gone : Files
    gone = delete tmp fs

    at_end :
        (k : Bool)
        → lookup path (if k then insert path new gone else delete tmp (insert path new gone))
          ≡ some new
    at_end true = insert_self path new gone
    at_end false = delete_other tmp path (insert path new gone) h ∙ insert_self path new gone

    no_end :
        (k : Bool)
        → lookup tmp (if k then insert path new gone else delete tmp (insert path new gone)) ≡ none
    no_end true =
        lookup-insert path tmp new gone
        ∙ ground (arith, delete_self tmp fs, text_beq_iff path tmp, text_beq_iff tmp path, h)
    no_end false = delete_self tmp (insert path new gone)

-- Whatever call fails, and wherever the process dies, the file is the old one or the whole new one: the
-- new one after a success, the old one after an error; and a return leaves the temporary file only if
-- the call failed and the removal of the file failed too.
pub write_file_atomic-IsAtomic :
    (f : Faults) (tmp path bytes : Text) (perm : ℕ) (fs : Files)
    → tmp ≢ path
    → lookup tmp fs ≡ none
    → IsAtomic f.remove tmp path
        (lookup path fs)
        (record { data_bytes = bytes; perm = perm })
        (write_file_atomic f tmp path bytes perm fs)
unfolding write_file_atomic
write_file_atomic-IsAtomic f tmp path bytes perm fs apart unused =
    let h : text_beq tmp path ≡ false = ground (arith, text_beq_iff tmp path) in
    let new : File = record { data_bytes = bytes; perm = perm } in
    let created : Files = insert tmp (record { data_bytes = []; perm = temp_perm }) fs in
    let partial : Files =
      insert tmp (record { data_bytes = take f.written bytes; perm = temp_perm }) created in
    let full : Files = insert tmp (record { data_bytes = bytes; perm = temp_perm }) created in
    let moded : Files = insert tmp new full in
    let temp : (x : File) (s : Files)
        → lookup path s ≡ lookup path fs
        → lookup path (insert tmp x s) ≡ lookup path fs =
      λ x s e. insert_other tmp path x s h ∙ e in
    let at_created : lookup path created ≡ lookup path fs = temp _ fs refl in
    let at_partial : lookup path partial ≡ lookup path fs = temp _ created at_created in
    let at_full : lookup path full ≡ lookup path fs = temp _ created at_created in
    let at_moded : lookup path moded ≡ lookup path fs = temp new full at_full in
    let failed : (passed : List Files) (s : Files)
        → All (OldOrNew path (lookup path fs) new) (passed ++ s ∷ [])
        → lookup path s ≡ lookup path fs
        → IsAtomic f.remove tmp path (lookup path fs) new
            (remove_temp f.remove tmp passed s false) =
      λ passed s. remove_temp-IsAtomic f.remove tmp path (lookup path fs) new passed s h in
    elim (Bool-cases f.create) [
      | inl a ↦ rw a (record {
        no_torn = tt;
        on_success = λ e. cc;
        on_error = λ e. refl;
        no_temp = λ e. unused;
      })
      | inr a ↦ elim (Bool-cases f.write) [
        | inl b ↦
            rw a (
              rw b
                (failed (created ∷ []) partial (inl at_created, (inl at_partial, tt)) at_partial))
        | inr b ↦ elim (Bool-cases f.chmod) [
          | inl c ↦ rw a (
              rw b (
                rw c (
                  failed (created ∷ partial ∷ []) full
                    (inl at_created, (inl at_partial, (inl at_full, tt))) at_full)))
          | inr c ↦ elim (Bool-cases (f.sync || (f.close || f.rename))) [
            | inl d ↦ rw a (
                rw b (
                  rw c (
                    rw d (
                      failed (created ∷ partial ∷ full ∷ []) moded
                        (inl at_created, (inl at_partial, (inl at_full, (inl at_moded, tt))))
                        at_moded))))
            | inr d ↦ rw a (
                rw b (
                  rw c (
                    rw d (
                      renamed-IsAtomic f.remove tmp path (lookup path fs) new
                        (created ∷ partial ∷ full ∷ moded ∷ []) moded h
                        (inl at_created, (inl at_partial, (inl at_full, (inl at_moded, tt))))))))
          ]
        ]
      ]
    ]
