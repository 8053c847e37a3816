-- ===== src/Abi/Slots/Tail.antt =====
-- Slots 224 to 334 of `struct mac_policy_ops` (include/sedarwin/sebsd_mac.h), in order.
use Prim.Native.String.{String}
use sedarwin.Prelude.{List, [], ◌∷◌}

unfoldable pub tail_slots : List String
tail_slots =
    "mpo_sysvmsq_label_associate" ∷ "mpo_sysvmsq_label_destroy" ∷ "mpo_sysvmsq_label_init"
    ∷ "mpo_sysvmsq_label_recycle" ∷ "mpo_sysvsem_check_semctl" ∷ "mpo_sysvsem_check_semget"
    ∷ "mpo_sysvsem_check_semop" ∷ "mpo_sysvsem_label_associate" ∷ "mpo_sysvsem_label_destroy"
    ∷ "mpo_sysvsem_label_init" ∷ "mpo_sysvsem_label_recycle" ∷ "mpo_sysvshm_check_shmat"
    ∷ "mpo_sysvshm_check_shmctl" ∷ "mpo_sysvshm_check_shmdt" ∷ "mpo_sysvshm_check_shmget"
    ∷ "mpo_sysvshm_label_associate" ∷ "mpo_sysvshm_label_destroy" ∷ "mpo_sysvshm_label_init"
    ∷ "mpo_sysvshm_label_recycle" ∷ "mpo_proc_notify_exit" ∷ "mpo_mount_check_snapshot_revert"
    ∷ "mpo_vnode_check_getattr" ∷ "mpo_mount_check_snapshot_create"
    ∷ "mpo_mount_check_snapshot_delete" ∷ "mpo_vnode_check_clone" ∷ "mpo_proc_check_get_cs_info"
    ∷ "mpo_proc_check_set_cs_info" ∷ "mpo_iokit_check_hid_control" ∷ "mpo_vnode_check_access"
    ∷ "mpo_vnode_check_chdir" ∷ "mpo_vnode_check_chroot" ∷ "mpo_vnode_check_create"
    ∷ "mpo_vnode_check_deleteextattr" ∷ "mpo_vnode_check_exchangedata" ∷ "mpo_vnode_check_exec"
    ∷ "mpo_vnode_check_getattrlist" ∷ "mpo_vnode_check_getextattr" ∷ "mpo_vnode_check_ioctl"
    ∷ "mpo_vnode_check_kqfilter" ∷ "mpo_vnode_check_label_update" ∷ "mpo_vnode_check_link"
    ∷ "mpo_vnode_check_listextattr" ∷ "mpo_vnode_check_lookup" ∷ "mpo_vnode_check_open"
    ∷ "mpo_vnode_check_read" ∷ "mpo_vnode_check_readdir" ∷ "mpo_vnode_check_readlink"
    ∷ "mpo_vnode_check_rename_from" ∷ "mpo_vnode_check_rename_to" ∷ "mpo_vnode_check_revoke"
    ∷ "mpo_vnode_check_select" ∷ "mpo_vnode_check_setattrlist" ∷ "mpo_vnode_check_setextattr"
    ∷ "mpo_vnode_check_setflags" ∷ "mpo_vnode_check_setmode" ∷ "mpo_vnode_check_setowner"
    ∷ "mpo_vnode_check_setutimes" ∷ "mpo_vnode_check_stat" ∷ "mpo_vnode_check_truncate"
    ∷ "mpo_vnode_check_unlink" ∷ "mpo_vnode_check_write" ∷ "mpo_vnode_label_associate_devfs"
    ∷ "mpo_vnode_label_associate_extattr" ∷ "mpo_vnode_label_associate_file"
    ∷ "mpo_vnode_label_associate_pipe" ∷ "mpo_vnode_label_associate_posixsem"
    ∷ "mpo_vnode_label_associate_posixshm" ∷ "mpo_vnode_label_associate_singlelabel"
    ∷ "mpo_vnode_label_associate_socket" ∷ "mpo_vnode_label_copy" ∷ "mpo_vnode_label_destroy"
    ∷ "mpo_vnode_label_externalize_audit" ∷ "mpo_vnode_label_externalize" ∷ "mpo_vnode_label_init"
    ∷ "mpo_vnode_label_internalize" ∷ "mpo_vnode_label_recycle" ∷ "mpo_vnode_label_store"
    ∷ "mpo_vnode_label_update_extattr" ∷ "mpo_vnode_label_update" ∷ "mpo_vnode_notify_create"
    ∷ "mpo_vnode_check_signature" ∷ "mpo_vnode_check_uipc_bind" ∷ "mpo_vnode_check_uipc_connect"
    ∷ "mpo_proc_check_run_cs_invalid" ∷ "mpo_proc_check_suspend_resume" ∷ "mpo_thread_userret"
    ∷ "mpo_iokit_check_set_properties" ∷ "mpo_vnode_check_supplemental_signature"
    ∷ "mpo_vnode_check_searchfs" ∷ "mpo_priv_check" ∷ "mpo_priv_grant" ∷ "mpo_proc_check_map_anon"
    ∷ "mpo_vnode_check_fsgetpath" ∷ "mpo_iokit_check_open" ∷ "mpo_proc_check_ledger"
    ∷ "mpo_vnode_notify_rename" ∷ "mpo_vnode_check_setacl" ∷ "mpo_vnode_notify_deleteextattr"
    ∷ "mpo_system_check_kas_info" ∷ "mpo_vnode_check_lookup_preflight" ∷ "mpo_vnode_notify_open"
    ∷ "mpo_system_check_info" ∷ "mpo_pty_notify_grant" ∷ "mpo_pty_notify_close"
    ∷ "mpo_vnode_find_sigs" ∷ "mpo_kext_check_load" ∷ "mpo_kext_check_unload"
    ∷ "mpo_proc_check_proc_info" ∷ "mpo_vnode_notify_link" ∷ "mpo_iokit_check_filter_properties"
    ∷ "mpo_iokit_check_get_property" ∷ []
