-- ===== src/Agent/Profile/Apply/Undo.antt =====
-- That an apply of a profile is all or nothing, agent/go/cmd/rmm-agent/profiles.go.
use openwrt_rmm.Base.{
  ℕ, ◌<◌, String, append, ◌≡◌, refl, sym, ap, ◌∙◌, ◌⊎◌, inl, inr, Bool, true, false, ◌&&◌, Option,
  none, some, List, if◌then◌else◌, arith, Bool-cases,
}
use openwrt_rmm.Schema.{Check, Error, ok, err}
use openwrt_rmm.Agent.Validate.{safe_session_id}
use openwrt_rmm.Agent.Profile.{Profile}
use openwrt_rmm.Agent.Profile.Disk.{
  Folder, read_file, remove_file, read_file-write, read_file-remove, ProfileTicket,
  ProfileTransaction, Disk, ProfilePlatform, LeavesFiles,
}
use openwrt_rmm.Agent.Profile.Preview.{ProfileFaults, Answer}
use openwrt_rmm.Agent.Profile.Restore.{restore_profile_transaction}
use openwrt_rmm.Agent.Profile.Restore.Back.{restored, restore-OnlyConfigs}
use openwrt_rmm.Agent.Profile.Apply.{
  confirm, confirm_reached, write_profile, change_and_confirm, removed_journal, finish_apply,
  matches, transaction_of, journaled, apply_with_ticket, apply_profile,
}

module _ (p : ProfilePlatform) (laws : LeavesFiles p.run) (id : String) (profile : Profile)
    (original : List ℕ) where
  abbrev t : ProfileTransaction
  t = transaction_of p id profile original

  -- The way back is open: the journal and the backup are there.
  pub record IsRecoverable (d : Disk) : Type 0 where
    pub journal : read_file id d.journals ≡ some t
    pub backup : read_file (append id ".backup") d.backups ≡ some original

  -- The profile is applied: the receipt names the backup, which is there, and the file as it is now.
  pub record IsApplied (d : Disk) : Type 0 where
    pub current : List ℕ
    pub present : read_file profile.config d.configs ≡ some current
    pub backup : read_file (append id ".backup") d.backups ≡ some original
    pub receipt : read_file id d.receipts ≡ some (record t { applied_hash = p.digest current })

  -- The file is as it was before.
  abbrev pub IsBack : Disk → Type 0
  IsBack d = read_file profile.config d.configs ≡ some original

  -- What the changes come to: confirmed, or an error with the way back open.
  data Progress : Check × Disk → Type 0 where
    confirmed : (d : Disk) → read_file id d.journals ≡ none → IsApplied d → Progress (ok tt, d)
    broken : (e : Error) (d : Disk) → IsRecoverable d → Progress (err e, d)

  module _ (f : ProfileFaults) where
    confirm-Progress :
        (o : Option (List ℕ)) (d : Disk)
        → read_file profile.config d.configs ≡ o
        → IsRecoverable d
        → Progress (confirm p f id t o d)
    unfolding confirm
    confirm-Progress none d e h = broken _ d h
    confirm-Progress (some current) d e h = elim (Bool-cases f.receipt_written) [
      | inr n ↦ simp n (broken _ d h)
      | inl y ↦ elim (Bool-cases f.journal_removed) [
        | inr n ↦ simp (y, n) (broken _ _ (record { journal = h.journal; backup = h.backup }))
        | inl z ↦
            simp (y, z)
              (confirmed _ (read_file-remove id d.journals) (record {
                current = current;
                present = e;
                backup = h.backup;
                receipt =
                    read_file-write id (record t { applied_hash = p.digest current }) d.receipts;
              }))
      ]
    ]

    confirm_reached-Progress :
        (w : Check × Folder (List ℕ)) (d : Disk)
        → IsRecoverable d
        → Progress (confirm_reached p f id t w d)
    unfolding confirm_reached
    confirm_reached-Progress (err e, configs) d h =
        broken e _ (record { journal = h.journal; backup = h.backup })
    confirm_reached-Progress (ok u, configs) d h = elim (Bool-cases (f.waited && f.reachable)) [
      | inl y ↦ simp y (
          confirm-Progress (read_file profile.config configs) (record d { configs = configs }) refl
            (record { journal = h.journal; backup = h.backup }))
      | inr n ↦ simp n (broken _ _ (record { journal = h.journal; backup = h.backup }))
    ]

    -- After the deferred function: back, or with the way back open.
    undone :
        (d : Disk)
        → IsRecoverable d
        → IsBack (removed_journal p f id (restore_profile_transaction p f.restored_written t d))
          ⊎ IsRecoverable
              (removed_journal p f id (restore_profile_transaction p f.restored_written t d))
    unfolding removed_journal
    undone d h = go (restore_profile_transaction p f.restored_written t d) refl
      where
        back :
            (b : Bool)
            → (e : Disk) → IsBack e
            → IsBack (if b then record e { journals = remove_file id e.journals } else e)
        back true e k = k
        back false e k = k

        go :
            (r : Check × Disk)
            → restore_profile_transaction p f.restored_written t d ≡ r
            → IsBack (removed_journal p f id r) ⊎ IsRecoverable (removed_journal p f id r)
        go (ok u, e) q =
            let whole =
              restored p laws f.restored_written t original d h.backup (ap (λ x. x.0) q) in
            let file : IsBack e =
              rw (sym (ap (λ x. x.1) q) ∙ whole)
                (read_file-write profile.config original d.configs) in
            inl (back f.restored_removed e file)
        go (err x, e) q =
            let only = restore-OnlyConfigs p f.restored_written t d in
            inr (record {
              journal =
                  ap (λ x. read_file id x.1.journals) (sym q)
                  ∙ ap (read_file id) only.journals
                  ∙ h.journal;
              backup =
                  ap (λ x. read_file (append id ".backup") x.1.backups) (sym q)
                  ∙ ap (read_file (append id ".backup")) only.backups
                  ∙ h.backup;
            })

    -- How an apply ends: confirmed with code 0, or with another code and the file as it was, or with
    -- another code and the way back open.
    pub data Ends : Answer × Disk → Type 0 where
      applied :
          (text : String) (d : Disk)
          → read_file id d.journals ≡ none
          → IsApplied d
          → Ends ((text, 0), d)
      back : (text : String) (code : ℕ) (d : Disk) → 0 < code → IsBack d → Ends ((text, code), d)
      open_way :
          (text : String) (code : ℕ) (d : Disk)
          → 0 < code
          → IsRecoverable d
          → Ends ((text, code), d)

    finish_apply-Ends : (r : Check × Disk) → Progress r → Ends (finish_apply p f id t r)
    unfolding finish_apply
    finish_apply-Ends r (confirmed d j h) = applied _ d j h
    finish_apply-Ends r (broken e d h) = elim (undone d h) [
      | inl k ↦ back _ 1 _ (omega arith) k
      | inr k ↦ open_way _ 1 _ (omega arith) k
    ]

    -- Whatever fails, an apply on a disk with the file `original` ends in one of three ways: it
    -- succeeds, and then the journal is gone and a receipt names the kept backup of `original` and the
    -- file as it is now; or it fails and the file is `original`; or it fails and the journal and the
    -- backup of `original` are there for the recovery.
    pub apply_profile-Ends :
        (preview_id : String) (ticket : ProfileTicket) (d : Disk)
        → read_file profile.config d.configs ≡ some original
        → Ends (apply_profile p f id preview_id profile original ticket d)
    unfolding apply_profile apply_with_ticket change_and_confirm
    apply_profile-Ends preview_id ticket d here = elim (Bool-cases (safe_session_id preview_id)) [
      | inr n ↦ simp n (back _ 2 d (omega arith) here)
      | inl y ↦ simp y (go (read_file preview_id d.previews))
    ]
      where
        go :
            (o : Option ProfileTicket) → Ends (apply_with_ticket p f id profile original ticket o d)
        go none = back _ 1 d (omega arith) here
        go (some previous) = elim (Bool-cases (matches p f.now ticket previous)) [
          | inr n ↦ simp n (back _ 1 d (omega arith) here)
          | inl m ↦ elim (Bool-cases f.backup_written) [
            | inr n ↦ simp (m, n) (back _ 1 d (omega arith) here)
            | inl b ↦ elim (Bool-cases f.journal_written) [
              | inr n ↦ simp (m, b, n) (back _ 1 _ (omega arith) here)
              | inl j ↦
                  simp (m, b, j)
                    (finish_apply-Ends _ (
                      confirm_reached-Progress (write_profile p profile d.configs)
                        (journaled p id profile original d)
                        (record {
                          journal = read_file-write id t d.journals;
                          backup = read_file-write (append id ".backup") original d.backups;
                        })))
            ]
          ]
        ]
