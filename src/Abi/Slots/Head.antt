-- ===== src/Abi/Slots/Head.antt =====
-- Slots 0 to 111 of `struct mac_policy_ops` (include/sedarwin/sebsd_mac.h), in order.
use Prim.Native.String.{String}
use sedarwin.Prelude.{List, [], ◌∷◌}

unfoldable pub head_slots : List String
head_slots =
    "mpo_audit_check_postselect" ∷ "mpo_audit_check_preselect" ∷ "mpo_graft_check_graft"
    ∷ "mpo_graft_check_ungraft" ∷ "mpo_graft_notify_graft" ∷ "mpo_graft_notify_ungraft"
    ∷ "mpo_cred_check_label_update_execve" ∷ "mpo_cred_check_label_update"
    ∷ "mpo_cred_check_visible" ∷ "mpo_cred_label_associate_fork" ∷ "mpo_cred_label_associate_kernel"
    ∷ "mpo_cred_label_associate" ∷ "mpo_cred_label_associate_user" ∷ "mpo_cred_label_destroy"
    ∷ "mpo_cred_label_externalize_audit" ∷ "mpo_cred_label_externalize" ∷ "mpo_cred_label_init"
    ∷ "mpo_cred_label_internalize" ∷ "mpo_cred_label_update_execve" ∷ "mpo_cred_label_update"
    ∷ "mpo_devfs_label_associate_device" ∷ "mpo_devfs_label_associate_directory"
    ∷ "mpo_devfs_label_copy" ∷ "mpo_devfs_label_destroy" ∷ "mpo_devfs_label_init"
    ∷ "mpo_devfs_label_update" ∷ "mpo_file_check_change_offset" ∷ "mpo_file_check_create"
    ∷ "mpo_file_check_dup" ∷ "mpo_file_check_fcntl" ∷ "mpo_file_check_get_offset"
    ∷ "mpo_file_check_get" ∷ "mpo_file_check_inherit" ∷ "mpo_file_check_ioctl"
    ∷ "mpo_file_check_lock" ∷ "mpo_file_check_mmap_downgrade" ∷ "mpo_file_check_mmap"
    ∷ "mpo_file_check_receive" ∷ "mpo_file_check_set" ∷ "mpo_file_label_init"
    ∷ "mpo_file_label_destroy" ∷ "mpo_file_label_associate" ∷ "mpo_file_notify_close"
    ∷ "mpo_proc_check_launch_constraints" ∷ "mpo_proc_notify_service_port_derive"
    ∷ "mpo_proc_check_set_task_exception_port" ∷ "mpo_proc_check_set_thread_exception_port"
    ∷ "mpo_reserved08" ∷ "mpo_reserved09" ∷ "mpo_reserved10" ∷ "mpo_reserved11" ∷ "mpo_reserved12"
    ∷ "mpo_reserved13" ∷ "mpo_reserved14" ∷ "mpo_reserved15" ∷ "mpo_reserved16" ∷ "mpo_reserved17"
    ∷ "mpo_reserved18" ∷ "mpo_reserved19" ∷ "mpo_reserved20" ∷ "mpo_reserved21" ∷ "mpo_reserved22"
    ∷ "mpo_necp_check_open" ∷ "mpo_necp_check_client_action" ∷ "mpo_file_check_library_validation"
    ∷ "mpo_vnode_notify_setacl" ∷ "mpo_vnode_notify_setattrlist" ∷ "mpo_vnode_notify_setextattr"
    ∷ "mpo_vnode_notify_setflags" ∷ "mpo_vnode_notify_setmode" ∷ "mpo_vnode_notify_setowner"
    ∷ "mpo_vnode_notify_setutimes" ∷ "mpo_vnode_notify_truncate" ∷ "mpo_vnode_check_getattrlistbulk"
    ∷ "mpo_proc_check_get_task_special_port" ∷ "mpo_proc_check_set_task_special_port"
    ∷ "mpo_vnode_notify_swap" ∷ "mpo_vnode_notify_unlink" ∷ "mpo_vnode_check_swap"
    ∷ "mpo_vnode_check_dataprotect_set" ∷ "mpo_mount_check_remount_with_flags"
    ∷ "mpo_mount_notify_mount" ∷ "mpo_vnode_check_copyfile" ∷ "mpo_mount_check_quotactl"
    ∷ "mpo_mount_check_fsctl" ∷ "mpo_mount_check_getattr" ∷ "mpo_mount_check_label_update"
    ∷ "mpo_mount_check_mount" ∷ "mpo_mount_check_remount" ∷ "mpo_mount_check_setattr"
    ∷ "mpo_mount_check_stat" ∷ "mpo_mount_check_umount" ∷ "mpo_mount_label_associate"
    ∷ "mpo_mount_label_destroy" ∷ "mpo_mount_label_externalize" ∷ "mpo_mount_label_init"
    ∷ "mpo_mount_label_internalize" ∷ "mpo_proc_check_expose_task_with_flavor"
    ∷ "mpo_proc_check_get_task_with_flavor" ∷ "mpo_proc_check_task_id_token_get_task"
    ∷ "mpo_pipe_check_ioctl" ∷ "mpo_pipe_check_kqfilter" ∷ "mpo_reserved41" ∷ "mpo_pipe_check_read"
    ∷ "mpo_pipe_check_select" ∷ "mpo_pipe_check_stat" ∷ "mpo_pipe_check_write"
    ∷ "mpo_pipe_label_associate" ∷ "mpo_reserved42" ∷ "mpo_pipe_label_destroy" ∷ "mpo_reserved43"
    ∷ "mpo_pipe_label_init" ∷ []
